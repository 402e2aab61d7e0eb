-- ===== src/Drivers/LocalFs/Others.antt =====
-- `put` and `delete` and the objects that they do not name (src/drivers/local_fs.py).
use ai_storybook_storage_ser.Base.{
  Text, codes, ◌≡◌, ◌≢◌, refl, sym, ◌∙◌, ◌⊎◌, inl, inr, Option, ◌∷◌, ◌++◌, Bool, true, false,
  if◌then◌else◌,
}
use ai_storybook_storage_ser.Settings.{Dict}
use ai_storybook_storage_ser.Validation.KeyGrammar.Grammar.{IsKey, IsBucketName}
use ai_storybook_storage_ser.Drivers.PosixPath.{FilePath, path_join, resolve}
use ai_storybook_storage_ser.Drivers.Paths.{object_path, meta_path, new_tmp_path}
use ai_storybook_storage_ser.Drivers.Paths.Places.{
  object_place, object_path-place, meta_path-place, new_tmp_path-place, object_place-injective,
  object_place-ne-hidden,
}
use ai_storybook_storage_ser.Drivers.FileSystem.Tree.{File, file_at}
use ai_storybook_storage_ser.Drivers.FileSystem.Monad.{World, pure, ◌>>=◌}
use ai_storybook_storage_ser.Drivers.FileSystem.Triple.{
  Ends, Triple, Keeps, Keeps-pure, Keeps-bind, Triple-pure, Triple-bind, Triple-bind-lift,
}
use ai_storybook_storage_ser.Drivers.FileSystem.Calls.{On}
use ai_storybook_storage_ser.Drivers.FileSystem.Failures.{Triple-Returns}
use ai_storybook_storage_ser.Drivers.Stream.{Stream}
use ai_storybook_storage_ser.Drivers.LocalFs.{
  Env, Driver, head, deduped_result, put_new, put, delete,
}
use ai_storybook_storage_ser.Drivers.LocalFs.Atomic.{store-Old, Keeps-safe_unlink}
use ai_storybook_storage_ser.Drivers.LocalFs.Sidecars.{HexNames, Keeps-head, Keeps-write_sidecar}
use ai_storybook_storage_ser.Drivers.LocalFs.RandomName.{Triple-uuid4_hex}
use ai_storybook_storage_ser.Drivers.LocalFs.Put.{Keeps-is_taken}
use ai_storybook_storage_ser.Drivers.LocalFs.Delete.{Returns-safe_unlink}

module _ (env : Env) (driver : Driver) (hex_names : HexNames env) (allow_at : Bool)
    (bucket key bucket' key' : Text) (b : IsBucketName bucket) (k : IsKey allow_at key)
    (b' : IsBucketName bucket') (other : (bucket ≢ bucket') ⊎ (key ≢ key')) where
  abbrev root : FilePath
  root = resolve env.cwd driver.root

  abbrev object : FilePath
  object = object_place root bucket' key'

  abbrev dest : Text
  dest = path_join (path_join driver.root bucket) key

  elsewhere : object_place root bucket key ≢ object
  elsewhere e =
      let (same_bucket, same_key) = object_place-injective root bucket key bucket' key' e in
      elim other [ inl h ↦ h same_bucket | inr h ↦ h same_key ]

  dest-elsewhere : resolve env.cwd dest ≢ object
  dest-elsewhere e =
      elsewhere (sym (object_path-place env.cwd driver.root allow_at bucket key b k).1 ∙ e)

  hidden-elsewhere :
      (p : FilePath) (t : Text) (rest : FilePath) → p ≡ root ++ (46 ∷ t) ∷ rest → p ≢ object
  hidden-elsewhere p t rest h e = object_place-ne-hidden root bucket' key' t rest b' (sym e ∙ h)

  put_new-Old :
      (old : Option File) (body : Stream) (content_type : Text) (metadata : Dict Text)
      → Keeps
          (On (λ fs. file_at object fs ≡ old))
          (put_new env driver dest bucket key body content_type metadata)
  unfolding put_new
  put_new-Old old body content_type metadata =
      Triple-uuid4_hex env (λ fs. file_at object fs ≡ old) _
        λ n.
          Keeps-bind
            (store-Old env (new_tmp_path driver.root (env.hex n)) object old
              (hidden-elsewhere _ (codes "tmp") _ (
                new_tmp_path-place env.cwd driver.root (env.hex n) (hex_names.plain n)
                  (hex_names.one_name n)))
              dest body dest-elsewhere)
            λ p.
              Keeps-bind
                (Keeps-write_sidecar env driver hex_names allow_at bucket key b k bucket' key' b'
                  content_type _ p.total metadata old)
                (λ _. Keeps-pure _)

  put_after-Old :
      (old : Option File) (body : Stream) (content_type : Text) (metadata : Dict Text)
      (taken : Bool)
      → Keeps (On (λ fs. file_at object fs ≡ old)) (
          if taken
          then (do info ← head env driver bucket key; pure (deduped_result env driver info))
          else put_new env driver dest bucket key body content_type metadata)
  put_after-Old old body content_type metadata true =
      Keeps-bind (Keeps-head env driver _ bucket key) (λ info. Keeps-pure _)
  put_after-Old old body content_type metadata false = put_new-Old old body content_type metadata

  pub Keeps-put_other :
      (body : Stream) (content_type : Text) (if_none_match : Option Text) (metadata : Dict Text)
      (old : Option File)
      → Keeps
          (On (λ fs. file_at object fs ≡ old))
          (put env driver bucket key body content_type if_none_match metadata)
  unfolding put
  Keeps-put_other body content_type if_none_match metadata old =
      Triple-bind-lift (object_path env.cwd driver.root bucket key) dest _
        (object_path-place env.cwd driver.root allow_at bucket key b k).0
        (Keeps-bind (Keeps-is_taken env driver hex_names allow_at bucket key b k _ if_none_match)
          (put_after-Old old body content_type metadata))

  -- `put` for a bucket and a key of the grammar leaves the file of an object in another bucket or
  -- under another key as it was, however it ends, from any tree and with any failures of the disk. The
  -- random names are plain names.
  pub put-other :
      (body : Stream) (content_type : Text) (if_none_match : Option Text) (metadata : Dict Text)
      (w : World)
      → Ends
          (put env driver bucket key body content_type if_none_match metadata)
          w
          (λ r w'. file_at object w'.fs ≡ file_at object w.fs)
          (λ e w'. file_at object w'.fs ≡ file_at object w.fs)
  put-other body content_type if_none_match metadata w =
      (Keeps-put_other body content_type if_none_match metadata (file_at object w.fs)).at w refl

  pub Keeps-delete_other :
      (old : Option File)
      → Triple
          (On (λ fs. file_at object fs ≡ old))
          (delete env driver bucket key)
          (λ _. On (λ fs. file_at object fs ≡ old))
          (λ _ _. ⊥)
  unfolding delete
  Keeps-delete_other old =
      let (passed, at_meta) = meta_path-place env.cwd driver.root allow_at bucket key b k in
      Triple-bind-lift (object_path env.cwd driver.root bucket key) _ _
        (object_path-place env.cwd driver.root allow_at bucket key b k).0
        (Triple-bind (λ _. On (λ fs. file_at object fs ≡ old))
          (Triple-Returns (Keeps-safe_unlink env _ object old dest-elsewhere)
            (Returns-safe_unlink env _))
          (λ existed. Triple-bind-lift (meta_path env.cwd driver.root bucket key) _ _ passed (
            Triple-bind (λ _. On (λ fs. file_at object fs ≡ old))
              (Triple-Returns
                (Keeps-safe_unlink env _ object old (hidden-elsewhere _ (codes "meta") _ at_meta))
                (Returns-safe_unlink env _))
              (λ _. Triple-pure _ existed (λ w h. h)))))

  -- `delete` for a bucket and a key of the grammar returns and leaves the file of an object in another
  -- bucket or under another key as it was, from any tree and with any failures of the disk.
  pub delete-other :
      (w : World)
      → Ends
          (delete env driver bucket key)
          w
          (λ r w'. file_at object w'.fs ≡ file_at object w.fs)
          (λ e w'. ⊥)
  delete-other w = (Keeps-delete_other (file_at object w.fs)).at w refl
