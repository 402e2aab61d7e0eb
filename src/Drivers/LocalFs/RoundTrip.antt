-- ===== src/Drivers/LocalFs/RoundTrip.antt =====
-- `put`, then `get` and `_stream_file` (src/drivers/local_fs.py).
use ai_storybook_storage_ser.Base.{
  Text, Bool, true, ◌≡◌, refl, ap, ◌∙◌, ◌⊎◌, inl, inr, Option, none, some,
}
use ai_storybook_storage_ser.Settings.{Dict}
use ai_storybook_storage_ser.Errors.{Exn, ok, err}
use ai_storybook_storage_ser.Validation.KeyGrammar.Grammar.{IsKey, IsBucketName}
use ai_storybook_storage_ser.Drivers.PosixPath.{FilePath, path_join, resolve}
use ai_storybook_storage_ser.Drivers.Paths.Places.{object_place, object_path-place}
use ai_storybook_storage_ser.Drivers.FileSystem.Tree.{Bytes, File, file_at}
use ai_storybook_storage_ser.Drivers.FileSystem.Monad.{
  World, lift, pure, ◌>>=◌, next_fault, tail_of,
}
use ai_storybook_storage_ser.Drivers.FileSystem.Triple.{Ends, weaken-After}
use ai_storybook_storage_ser.Drivers.FileSystem.Calls.{is_file-file}
use ai_storybook_storage_ser.Drivers.Stream.{Stream, bytes_of}
use ai_storybook_storage_ser.Drivers.LocalFs.{Env, Driver, PutResult, put, get}
use ai_storybook_storage_ser.Drivers.LocalFs.Sidecars.{HexNames}
use ai_storybook_storage_ser.Drivers.LocalFs.Put.{PutOutcome, put-PutOutcome}
use ai_storybook_storage_ser.Drivers.LocalFs.StreamFile.{
  Delivers, stream_file, stream_file-Delivers,
}

module _ (env : Env) (driver : Driver) (hex_names : HexNames env) (allow_at : Bool)
    (bucket key : Text) (b : IsBucketName bucket) (k : IsKey allow_at key) where
  abbrev object : FilePath
  object = object_place (resolve env.cwd driver.root) bucket key

  -- `get` finds a file that is there, unless the `stat` fails.
  pub get-file :
      (w : World) (f : File)
      → file_at object w.fs ≡ some f
      → ((e : Exn) × (next_fault w.faults ≡ err e)
          × (get env driver bucket key w ≡ (ok none, record w { faults = tail_of w.faults })))
        ⊎ (get env driver bucket key w ≡ (
          ok (some (path_join (path_join driver.root bucket) key)),
          record w { faults = tail_of w.faults },
        ))
  unfolding get lift pure ◌>>=◌
  get-file w f there =
      let (passed, at_object) = object_path-place env.cwd driver.root allow_at bucket key b k in
      elim (is_file-file env.cwd (path_join (path_join driver.root bucket) key) w f
        (ap (λ (p : FilePath). file_at p w.fs) at_object ∙ there)) [
          | inl (e, failed, missed) ↦ inl (e, failed, rw (passed, missed) refl)
          | inr found ↦ inr (rw (passed, found) refl)
        ]

  -- `get` answers that there is no object because the `stat` fails, or it returns a path from which the
  -- bytes are streamed, in the world that it leaves.
  abbrev pub IsStreamed : Bytes → World → Type 0
  IsStreamed content w =
      ((e : Exn) × (next_fault w.faults ≡ err e)
        × (get env driver bucket key w ≡ (ok none, record w { faults = tail_of w.faults })))
      ⊎ ((path : Text) × (get env driver bucket key w
            ≡ (ok (some path), record w { faults = tail_of w.faults }))
          × Delivers content (stream_file env path (record w { faults = tail_of w.faults })))

  IsStreamed-back :
      (body : Stream) (condition : Option Text) (old : Option File) (r : PutResult) (w : World)
      → PutOutcome env condition body old r (file_at object w.fs)
      → (r.deduped ≡ true) ⊎ IsStreamed (bytes_of body) w
  IsStreamed-back body condition old r w (inl (_, taken, _)) = inl taken
  IsStreamed-back body condition old r w (inr (_, new)) =
      let (t, stored) = new.written in
      let dest = path_join (path_join driver.root bucket) key in
      let at_dest =
        ap (λ (p : FilePath). file_at p w.fs)
          (object_path-place env.cwd driver.root allow_at bucket key b k).1 in
      let later = record w { faults = tail_of w.faults } in
      inr (elim (get-file w _ stored) [
        | inl missed ↦ inl missed
        | inr found ↦
            inr (dest, found, (stream_file-Delivers env dest later _ (at_dest ∙ stored)).0)
      ])

  -- For a bucket and a key of the grammar, when `put` returns, from any tree and with any failures of the
  -- disk, its answer is a deduplicated one, or `get` then answers that there is no object, which takes a
  -- failure of the `stat` under `os.path.isfile`, or `get` finds the object and the client is streamed
  -- exactly the bytes of the body, or a beginning of them and then an error; when `put` raises, the
  -- object's file is as it was. The random names are plain names.
  pub put-get :
      (body : Stream) (content_type : Text) (if_none_match : Option Text) (metadata : Dict Text)
      (w : World)
      → Ends
          (put env driver bucket key body content_type if_none_match metadata)
          w
          (λ r w'. (r.deduped ≡ true) ⊎ IsStreamed (bytes_of body) w')
          (λ e w'. file_at object w'.fs ≡ file_at object w.fs)
  put-get body content_type if_none_match metadata w =
      weaken-After (λ r w' h. IsStreamed-back body if_none_match (file_at object w.fs) r w' h)
        (λ e w' h. h) (put env driver bucket key body content_type if_none_match metadata w).0
        (put env driver bucket key body content_type if_none_match metadata w).1
        (put-PutOutcome env driver hex_names allow_at bucket key b k body content_type if_none_match
          metadata w)
