-- ===== src/Drivers/LocalFs/Put.antt =====
-- `put` and the object that it names (src/drivers/local_fs.py).
use ai_storybook_storage_ser.Base.{
  ℕ, Text, codes, ◌≡◌, ◌≢◌, refl, sym, ap, ◌∙◌, ◌⊎◌, inl, inr, Option, none, some, [], ◌∷◌, Bool,
  true, false, length, Bool-cases, text_eq, text_eq_iff, if◌then◌else◌,
}
use ai_storybook_storage_ser.Settings.{Dict}
use ai_storybook_storage_ser.Errors.{ok}
use ai_storybook_storage_ser.Validation.KeyGrammar.Grammar.{IsKey, IsBucketName}
use ai_storybook_storage_ser.Drivers.PosixPath.{FilePath, path_join, resolve}
use ai_storybook_storage_ser.Drivers.Paths.{object_path, new_tmp_path}
use ai_storybook_storage_ser.Drivers.Paths.Places.{
  object_place, object_path-place, new_tmp_path-place, object_place-ne-hidden,
}
use ai_storybook_storage_ser.Drivers.FileSystem.Tree.{File, Fs, file_at}
use ai_storybook_storage_ser.Drivers.FileSystem.Monad.{
  World, pure, lift, ◌>>=◌, next_fault, tail_of,
}
use ai_storybook_storage_ser.Drivers.FileSystem.Triple.{
  Ends, Triple, Keeps, Keeps-pure, Keeps-if, Triple-pure, Triple-bind, Triple-weaken,
  Triple-bind-lift,
}
use ai_storybook_storage_ser.Drivers.FileSystem.Calls.{
  On, path_exists-file, Keeps-path_exists, Keeps-view,
}
use ai_storybook_storage_ser.Drivers.FileSystem.Failures.{Triple-Returns}
use ai_storybook_storage_ser.Drivers.LocalFs.BestEffort.{Returns-write_sidecar}
use ai_storybook_storage_ser.Drivers.Stream.{Stream, bytes_of, Completes}
use ai_storybook_storage_ser.Drivers.LocalFs.{
  Env, Driver, Progress, PutResult, ObjectInfo, store, head, write_sidecar, deduped_result, put_new,
  is_taken, put,
}
use ai_storybook_storage_ser.Drivers.LocalFs.Atomic.{store-Stored}
use ai_storybook_storage_ser.Drivers.LocalFs.Sidecars.{HexNames, Keeps-head, Keeps-write_sidecar}
use ai_storybook_storage_ser.Drivers.LocalFs.RandomName.{Triple-uuid4_hex}

-- A new object: the file at the place holds the whole body, and the answer describes it.
pub record IsNewObject (env : Env) (body : Stream) (result : PutResult) (stored : Option File)
    : Type 0 where
  pub completes : Completes body
  pub etag : result.etag ≡ env.sha256 (bytes_of body)
  pub bytes : result.bytes ≡ length (bytes_of body)
  pub written : (t : ℕ) × (stored ≡ some (record { content = bytes_of body; mtime = t }))

abbrev IsDone : Stream → Progress → Option File → Type 0
IsDone body r stored =
    Completes body
    × (r.hashed ≡ bytes_of body)
    × (r.total ≡ length (bytes_of body))
    × ((t : ℕ) × (stored ≡ some (record { content = bytes_of body; mtime = t })))

-- What `put` returned with: the key was taken and the file stayed, or the object is new.
abbrev pub PutOutcome : Env → Option Text → Stream → Option File → PutResult → Option File → Type 0
PutOutcome env if_none_match body old result stored =
    ((if_none_match ≡ some (codes "*")) × (result.deduped ≡ true) × (stored ≡ old))
    ⊎ ((result.deduped ≡ false) × IsNewObject env body result stored)

module _ (env : Env) (driver : Driver) (hex_names : HexNames env) (allow_at : Bool)
    (bucket key : Text) (b : IsBucketName bucket) (k : IsKey allow_at key) where
  abbrev root : FilePath
  root = resolve env.cwd driver.root

  abbrev object : FilePath
  object = object_place root bucket key

  abbrev dest : Text
  dest = path_join (path_join driver.root bucket) key

  tmp-apart :
      (n : ℕ) (bucket' key' : Text)
      → IsBucketName bucket'
      → resolve env.cwd (new_tmp_path driver.root (env.hex n)) ≢ object_place root bucket' key'
  tmp-apart n bucket' key' b' e =
      object_place-ne-hidden root bucket' key' (codes "tmp") (env.hex n ∷ []) b' (
        sym e
        ∙ new_tmp_path-place env.cwd driver.root (env.hex n) (hex_names.plain n)
            (hex_names.one_name n))

  store_step :
      (old : Option File) (n : ℕ) (body : Stream)
      → Triple
          (On (λ fs. file_at object fs ≡ old))
          (store env (new_tmp_path driver.root (env.hex n)) dest body)
          (λ r. On (λ fs. IsDone body r (file_at object fs)))
          (λ _. On (λ fs. file_at object fs ≡ old))
  store_step old n body =
      Triple-weaken (λ w h. h) (λ r w h. (h.completes, h.hashed, h.total, h.written)) (λ e w h. h)
        (store-Stored env (new_tmp_path driver.root (env.hex n)) object old
          (tmp-apart n bucket key b) dest body
          (object_path-place env.cwd driver.root allow_at bucket key b k).1)

  finish :
      (body : Stream) (r : Progress) (stored : Option File)
      → IsDone body r stored
      → IsNewObject env body
          (record { etag = env.sha256 r.hashed; bytes = r.total; deduped = false })
          stored
  finish body r stored (c, h, n, t) = record {
    completes = c;
    etag = ap env.sha256 h;
    bytes = n;
    written = t;
  }

  put_new-After :
      (old : Option File) (body : Stream) (content_type : Text) (metadata : Dict Text)
      → Triple
          (On (λ fs. file_at object fs ≡ old))
          (put_new env driver dest bucket key body content_type metadata)
          (λ r. On (λ fs. (r.deduped ≡ false) × IsNewObject env body r (file_at object fs)))
          (λ _. On (λ fs. file_at object fs ≡ old))
  unfolding put_new
  put_new-After old body content_type metadata =
      Triple-uuid4_hex env (λ fs. file_at object fs ≡ old) _
        λ n. Triple-bind _ (store_step old n body) λ p.
          Triple-bind (λ _. On (λ fs. IsDone body p (file_at object fs))) (written_sidecar p)
            λ _. Triple-pure _ _ (λ w h. (refl, finish body p _ h))
    where
      written_sidecar :
          (p : Progress)
          → Triple
              (On (λ fs. IsDone body p (file_at object fs)))
              (write_sidecar env driver bucket key content_type
                (env.sha256 p.hashed)
                p.total
                metadata)
              (λ _. On (λ fs. IsDone body p (file_at object fs)))
              (λ _. On (λ fs. file_at object fs ≡ old))
      written_sidecar p =
          Triple-Returns
            (Keeps-view object (IsDone body p) λ o.
              Keeps-write_sidecar env driver hex_names allow_at bucket key b k bucket key b
                content_type _ p.total metadata o)
            (Returns-write_sidecar env driver allow_at bucket key b k content_type _ p.total
              metadata)

  pub Keeps-is_taken :
      (P : Fs → Type 0) (condition : Option Text)
      → Keeps (On P) (is_taken env driver condition dest)
  unfolding is_taken
  Keeps-is_taken P none = Keeps-pure false
  Keeps-is_taken P (some condition) =
      Keeps-if (text_eq condition (codes "*")) _ _ (Keeps-path_exists env.cwd dest P)
        (Keeps-pure false)

  deduped_result-deduped :
      (info : Option ObjectInfo) → (deduped_result env driver info).deduped ≡ true
  unfolding deduped_result
  deduped_result-deduped none = refl
  deduped_result-deduped (some info) = refl

  true-ne-false : true ≢ false
  true-ne-false h = cc

  TakenOnlyIf : Option Text → Bool → Type 0
  TakenOnlyIf condition taken = (taken ≡ false) ⊎ (condition ≡ some (codes "*"))

  is_taken-TakenOnlyIf :
      (P : Fs → Type 0) (condition : Option Text)
      → Triple
          (On P)
          (is_taken env driver condition dest)
          (λ taken. On (λ fs. P fs × TakenOnlyIf condition taken))
          (λ _. On P)
  unfolding is_taken TakenOnlyIf
  is_taken-TakenOnlyIf P none = Triple-pure _ false (λ w h. (h, inl refl))
  is_taken-TakenOnlyIf P (some condition) = elim (Bool-cases (text_eq condition (codes "*"))) [
    | inl star ↦ rw star (
        Triple-weaken (λ w h. h) (λ a w h. (h, inr (ap some ((text_eq_iff condition _).0 star))))
          (λ e w h. h) (Keeps-path_exists env.cwd dest P))
    | inr other ↦ rw other (Triple-pure _ false (λ w h. (h, inl refl)))
  ]

  put_after :
      (body : Stream) (content_type : Text) (condition : Option Text) (metadata : Dict Text)
      (old : Option File) (taken : Bool)
      → Triple
          (On (λ fs. (file_at object fs ≡ old) × TakenOnlyIf condition taken))
          (if taken
            then (do info ← head env driver bucket key; pure (deduped_result env driver info))
            else put_new env driver dest bucket key body content_type metadata)
          (λ r. On (λ fs. PutOutcome env condition body old r (file_at object fs)))
          (λ _. On (λ fs. file_at object fs ≡ old))
  unfolding TakenOnlyIf
  put_after body content_type condition metadata old true =
      Triple-weaken {P = On (λ fs. (file_at object fs ≡ old) × (condition ≡ some (codes "*")))}
        (λ w (h, t). (h, elim t [ inl missing ↦ absurd (true-ne-false missing) | inr star ↦ star ]))
        (λ r w h. inl h) (λ e w h. h.0)
        (Triple-bind (λ _. On (λ fs. (file_at object fs ≡ old) × (condition ≡ some (codes "*"))))
          (Keeps-head env driver _ bucket key)
          λ info.
            Triple-pure
              (λ (r : PutResult). On (λ fs.
                (condition ≡ some (codes "*")) × (r.deduped ≡ true) × (file_at object fs ≡ old)))
              (deduped_result env driver info)
              (λ w (h, star). (star, deduped_result-deduped info, h)))
  put_after body content_type condition metadata old false =
      Triple-weaken (λ w h. h.0) (λ r w h. inr h) (λ e w h. h)
        (put_new-After old body content_type metadata)

  pub Triple-put :
      (body : Stream) (content_type : Text) (if_none_match : Option Text) (metadata : Dict Text)
      (old : Option File)
      → Triple
          (On (λ fs. file_at object fs ≡ old))
          (put env driver bucket key body content_type if_none_match metadata)
          (λ r. On (λ fs. PutOutcome env if_none_match body old r (file_at object fs)))
          (λ _. On (λ fs. file_at object fs ≡ old))
  unfolding put
  Triple-put body content_type if_none_match metadata old =
      Triple-bind-lift (object_path env.cwd driver.root bucket key) dest _
        (object_path-place env.cwd driver.root allow_at bucket key b k).0
        (Triple-bind _ (is_taken-TakenOnlyIf (λ fs. file_at object fs ≡ old) if_none_match)
          (put_after body content_type if_none_match metadata old))

  -- For a bucket and a key of the grammar, from any tree, with any failures of the disk and whatever
  -- the body does: `put` returns with a deduplicated answer, which takes `if_none_match="*"`, and the
  -- object's file untouched, or with the object's file holding the whole body and its hash and length
  -- in the answer; or it raises and the object's file is as it was. The random names are plain names.
  pub put-PutOutcome :
      (body : Stream) (content_type : Text) (if_none_match : Option Text) (metadata : Dict Text)
      (w : World)
      → Ends
          (put env driver bucket key body content_type if_none_match metadata)
          w
          (λ r w'. PutOutcome env if_none_match body (file_at object w.fs) r (file_at object w'.fs))
          (λ e w'. file_at object w'.fs ≡ file_at object w.fs)
  put-PutOutcome body content_type if_none_match metadata w =
      (Triple-put body content_type if_none_match metadata (file_at object w.fs)).at w refl

  is_taken-file :
      (f : File) (w : World)
      → file_at object w.fs ≡ some f
      → next_fault w.faults ≡ ok tt
      → is_taken env driver (some (codes "*")) dest w
        ≡ (ok true, record w { faults = tail_of w.faults })
  unfolding is_taken text_eq
  is_taken-file f w there works =
      path_exists-file env.cwd dest w f
        (ap (λ (p : FilePath). file_at p w.fs)
            (object_path-place env.cwd driver.root allow_at bucket key b k).1
          ∙ there)
        works

  -- The file is there, and the next `stat` of the disk does not fail.
  abbrev pub IsSeen : File → World → Type 0
  IsSeen f w = (file_at object w.fs ≡ some f) × (next_fault w.faults ≡ ok tt)

  pub Triple-put_existing :
      (body : Stream) (content_type : Text) (metadata : Dict Text) (f : File)
      → Triple
          (IsSeen f)
          (put env driver bucket key body content_type (some (codes "*")) metadata)
          (λ r. On (λ fs. (r.deduped ≡ true) × (file_at object fs ≡ some f)))
          (λ _. On (λ fs. file_at object fs ≡ some f))
  unfolding put ◌>>=◌ lift
  Triple-put_existing body content_type metadata f = record {
    at = λ w (there, works).
        rw
          (
            (object_path-place env.cwd driver.root allow_at bucket key b k).0,
            is_taken-file f w there works,
          )
          ((Triple-bind (λ _. On (λ fs. file_at object fs ≡ some f))
              (Keeps-head env driver _ bucket key)
              (λ info.
                Triple-pure
                  (λ (r : PutResult). On (λ fs. (r.deduped ≡ true) × (file_at object fs ≡ some f)))
                  (deduped_result env driver info) (λ w h. (deduped_result-deduped info, h)))).at
            (record w { faults = tail_of w.faults }) there);
  }

  -- For a bucket and a key of the grammar whose file is there, `put` with `if_none_match="*"` leaves the
  -- file as it was, if the `stat` under `os.path.exists`, its first call of the disk, does not fail, and
  -- with any failures of the later calls; if it returns, the answer is a deduplicated one.
  pub put-if_none_match :
      (body : Stream) (content_type : Text) (metadata : Dict Text) (w : World) (f : File)
      → file_at object w.fs ≡ some f
      → next_fault w.faults ≡ ok tt
      → Ends
          (put env driver bucket key body content_type (some (codes "*")) metadata)
          w
          (λ r w'. (r.deduped ≡ true) × (file_at object w'.fs ≡ some f))
          (λ e w'. file_at object w'.fs ≡ some f)
  put-if_none_match body content_type metadata w f there works =
      (Triple-put_existing body content_type metadata f).at w (there, works)
