-- ===== src/Routers/Writes.antt =====
-- What the two write handlers do to the object that they name.
use ai_storybook_storage_ser.Base.{
  ℕ, Text, codes, Bool, true, false, ◌≡◌, ◌≢◌, refl, ap, ◌∙◌, ◌≤◌, inl, inr, Option, none, some,
  List, All, Lacks, length, if◌then◌else◌,
}
use ai_storybook_storage_ser.Settings.{Settings}
use ai_storybook_storage_ser.Errors.{ok}
use ai_storybook_storage_ser.Auth.{Principal}
use ai_storybook_storage_ser.Validation.KeyGrammar.{validate}
use ai_storybook_storage_ser.Validation.SizeCaps.{resolve_s2s_cap}
use ai_storybook_storage_ser.Validation.PrefixPolicy.{check_user_upload}
use ai_storybook_storage_ser.Drivers.PosixPath.{FilePath, resolve}
use ai_storybook_storage_ser.Drivers.Paths.Places.{object_place}
use ai_storybook_storage_ser.Drivers.FileSystem.Tree.{File, file_at}
use ai_storybook_storage_ser.Drivers.FileSystem.Monad.{World, raise, pure, next_fault}
use ai_storybook_storage_ser.Drivers.FileSystem.Triple.{
  Ends, Triple, Triple-pure, Triple-weaken, Triple-bind, Triple-bind-lift, Triple-bind-checked,
}
use ai_storybook_storage_ser.Drivers.FileSystem.Calls.{On}
use ai_storybook_storage_ser.Drivers.Stream.{Stream, bytes_of, Completes}
use ai_storybook_storage_ser.Drivers.LocalFs.{Env, Driver, PutResult}
use ai_storybook_storage_ser.Drivers.LocalFs.Sidecars.{HexNames}
use ai_storybook_storage_ser.Drivers.LocalFs.Put.{
  IsNewObject, PutOutcome, Triple-put, Triple-put_existing,
}
use ai_storybook_storage_ser.Routers.Counting.{
  counting_stream, counting_stream-Completes, counting_stream-bytes_of,
}
use ai_storybook_storage_ser.Routers.Handlers.{
  ObjectResponse, object_response, content_type_of, check_declared, answer_put, put_object,
  create_upload,
}
use ai_storybook_storage_ser.Routers.Checked.{validate-Grammar}

-- The body came to its end within the limit, it is what the file holds, and the answer describes it.
pub record IsUpload (env : Env) (limit : ℕ) (body : Stream) (response : ObjectResponse)
    (stored : Option File) : Type 0 where
  pub completes : Completes body
  pub within_limit : length (bytes_of body) ≤ limit
  pub etag : response.etag ≡ env.sha256 (bytes_of body)
  pub bytes : response.bytes ≡ length (bytes_of body)
  pub written : (t : ℕ) × (stored ≡ some (record { content = bytes_of body; mtime = t }))

module _ (env : Env) (settings : Settings) (driver : Driver) (hex_names : HexNames env)
    (clean : All (Lacks 10) settings.buckets) (bucket key : Text) where
  abbrev object : FilePath
  object = object_place (resolve env.cwd driver.root) bucket key

  counted-IsUpload :
      (limit : ℕ) (body : Stream) (result : PutResult) (response : ObjectResponse)
      (stored : Option File)
      → IsNewObject env (counting_stream body limit) result stored
      → response.etag ≡ result.etag
      → response.bytes ≡ result.bytes
      → IsUpload env limit body response stored
  counted-IsUpload limit body result response stored new same_etag same_bytes =
      let (completes, fits) = (counting_stream-Completes body limit).0 new.completes in
      let same = counting_stream-bytes_of body limit new.completes in
      record {
        completes = completes;
        within_limit = fits;
        etag = same_etag ∙ new.etag ∙ ap env.sha256 same;
        bytes = same_bytes ∙ new.bytes ∙ ap length same;
        written = (
          new.written.0,
          new.written.1
              ∙ ap (λ (b : List ℕ). some (record { content = b; mtime = new.written.0 })) same,
        );
      }

  none-ne-some : none ≢ some (codes "*")
  none-ne-some e = cc

  -- The end of `put_object`.
  answer_put-IsUpload :
      (limit : ℕ) (body : Stream) (old : Option File) (upsert : Bool) (result : PutResult)
      → Triple
          (On (λ fs.
            PutOutcome env
              (if upsert then none else some (codes "*"))
              (counting_stream body limit)
              old
              result
              (file_at object fs)))
          (answer_put env settings (some driver) bucket key upsert result)
          (λ r. On (λ fs. IsUpload env limit body r (file_at object fs)))
          (λ _. On (λ fs. file_at object fs ≡ old))
  unfolding raise pure
  answer_put-IsUpload limit body old true result = record {
    at = λ w h. elim h [
      | inl (star, _, _) ↦ absurd (none-ne-some star)
      | inr (fresh, new) ↦ rw fresh (counted-IsUpload limit body result _ _ new refl refl)
    ];
  }
  answer_put-IsUpload limit body old false result = record {
    at = λ w h. elim h [
      | inl (_, taken, same) ↦ rw taken same
      | inr (fresh, new) ↦ rw fresh (counted-IsUpload limit body result _ _ new refl refl)
    ];
  }

  conflict :
      (f : File) (result : PutResult)
      → Triple
          (On (λ fs. (result.deduped ≡ true) × (file_at object fs ≡ some f)))
          (answer_put env settings (some driver) bucket key false result)
          (λ _ _. ⊥)
          (λ _. On (λ fs. file_at object fs ≡ some f))
  unfolding raise
  conflict f result = record { at = λ w (taken, h). rw taken h }

  -- The end of `create_upload`.
  finish-IsUpload :
      {C : ℕ → Type 0} (limit : ℕ) (is_cap : C limit) (body : Stream) (old : Option File)
      (result : PutResult)
      → Triple
          (On
            (λ fs. PutOutcome env none (counting_stream body limit) old result (file_at object fs)))
          (pure (object_response settings 201 bucket key result))
          (λ r. On (λ fs. (n : ℕ) × C n × IsUpload env n body r (file_at object fs)))
          (λ _. On (λ fs. file_at object fs ≡ old))
  finish-IsUpload limit is_cap body old result = Triple-pure _ _ λ w h. elim h [
    | inl (star, _, _) ↦ absurd (none-ne-some star)
    | inr (fresh, new) ↦ (limit, is_cap, counted-IsUpload limit body result _ _ new refl refl)
  ]

  -- `put_object` of any bucket, key, headers and body, from any tree and with any failures of the
  -- disk, for plain random names and configured bucket names without a newline: if it answers, the body ended within the cap
  -- of the key, the object's file holds exactly the body, and the answer has its hash and length; if
  -- it raises, the object's file is as it was.
  pub put_object-IsUpload :
      (content_type content_length : Option Text) (body : Stream) (upsert : Bool)
      (principal : Principal) (w : World)
      → Ends
          (put_object env settings
            (some driver)
            bucket
            key
            content_type
            content_length
            body
            upsert
            principal)
          w
          (λ r w'.
            (limit : ℕ) × (resolve_s2s_cap settings key ≡ ok limit)
            × IsUpload env limit body r (file_at object w'.fs))
          (λ e w'. file_at object w'.fs ≡ file_at object w.fs)
  unfolding put_object
  put_object-IsUpload content_type content_length body upsert principal w =
      let old = file_at object w.fs in
      (Triple-bind-checked {P = On (λ fs. file_at object fs ≡ old)}
          (validate settings true bucket key) _ (λ e w h. h)
          λ _ valid.
            Triple-bind-checked (content_type_of content_type) _ (λ e w h. h)
              λ named _.
                Triple-bind-checked (resolve_s2s_cap settings key) _ (λ e w h. h)
                  λ limit is_cap.
                    Triple-bind-checked (check_declared content_length limit) _ (λ e w h. h)
                      λ _ _. Triple-bind-lift (ok driver) driver _ refl (
                        let (b, k) = validate-Grammar settings true bucket key clean valid in
                        Triple-bind _
                          (Triple-put env driver hex_names true bucket key b k
                            (counting_stream body limit) named _ _ old)
                          (λ result.
                            Triple-weaken (λ w h. h) (λ r w h. (limit, is_cap, h)) (λ e w h. h)
                              (answer_put-IsUpload limit body old upsert result)))).at
        w refl

  -- `put_object` without `upsert` of an object whose file is there raises, and the file is as it was, if
  -- the `stat` under `os.path.exists`, its first call of the disk, does not fail, and with any failures
  -- of the later calls. The random names are plain names, and no configured bucket name holds a
  -- newline.
  pub put_object-no_overwrite :
      (content_type content_length : Option Text) (body : Stream) (principal : Principal)
      (w : World) (f : File)
      → file_at object w.fs ≡ some f
      → next_fault w.faults ≡ ok tt
      → Ends
          (put_object env settings
            (some driver)
            bucket
            key
            content_type
            content_length
            body
            false
            principal)
          w
          (λ r w'. ⊥)
          (λ e w'. file_at object w'.fs ≡ some f)
  unfolding put_object
  put_object-no_overwrite content_type content_length body principal w f there works =
      (Triple-bind-checked {P = λ w. (file_at object w.fs ≡ some f) × (next_fault w.faults ≡ ok tt)}
          (validate settings true bucket key) _ (λ e w h. h.0)
          λ _ valid.
            Triple-bind-checked (content_type_of content_type) _ (λ e w h. h.0)
              λ named _.
                Triple-bind-checked (resolve_s2s_cap settings key) _ (λ e w h. h.0)
                  λ limit is_cap.
                    Triple-bind-checked (check_declared content_length limit) _ (λ e w h. h.0)
                      λ _ _. Triple-bind-lift (ok driver) driver _ refl (
                        let (b, k) = validate-Grammar settings true bucket key clean valid in
                        Triple-bind _
                          (Triple-put_existing env driver hex_names true bucket key b k
                            (counting_stream body limit) named _ f)
                          (conflict f))).at
        w (there, works)

  -- `create_upload` of any bucket, key, media type and body, from any tree and with any failures of
  -- the disk, for plain random names and configured bucket names without a newline: if it answers, the body ended within the
  -- cap that the upload gate gave, the object's file holds exactly the body, and the answer has its
  -- hash and length; if it raises, the object's file is as it was.
  pub create_upload-IsUpload :
      (content_type : Option Text) (size : Option ℕ) (body : Stream) (principal : Principal)
      (w : World)
      → Ends
          (create_upload env settings (some driver) bucket key content_type size body principal)
          w
          (λ r w'.
            (limit : ℕ) × (check_user_upload settings key content_type size ≡ ok limit)
            × IsUpload env limit body r (file_at object w'.fs))
          (λ e w'. file_at object w'.fs ≡ file_at object w.fs)
  unfolding create_upload
  create_upload-IsUpload content_type size body principal w =
      let old = file_at object w.fs in
      (Triple-bind-checked {P = On (λ fs. file_at object fs ≡ old)}
          (validate settings false bucket key) _ (λ e w h. h)
          λ _ valid.
            Triple-bind-checked (check_user_upload settings key content_type size) _ (λ e w h. h)
              λ limit is_cap. Triple-bind-lift (ok driver) driver _ refl (
                let (b, k) = validate-Grammar settings false bucket key clean valid in
                Triple-bind _
                  (Triple-put env driver hex_names false bucket key b k (counting_stream body limit)
                    _ none _ old)
                  (λ result. finish-IsUpload limit is_cap body old result))).at
        w refl
