-- ===== src/Drivers/LocalFs/HeadAgrees.antt =====
-- `put` and `head` (src/drivers/local_fs.py): the answers agree.
use ai_storybook_storage_ser.Drivers.FileSystem.Calls.{node_at_of_file_at}
use ai_storybook_storage_ser.Base.{
  Text, codes, Bool, false, ◌≡◌, refl, sym, ap, ◌∙◌, ◌⊎◌, inl, inr, ◌≤◌, Option, none, some, [],
  ◌++◌, length, ltb, arith,
}
use ai_storybook_storage_ser.Settings.{Dict}
use ai_storybook_storage_ser.Errors.{Result, ok}
use ai_storybook_storage_ser.Validation.KeyGrammar.Grammar.{IsKey, IsBucketName}
use ai_storybook_storage_ser.Drivers.PosixPath.{FilePath, path_join, resolve}
use ai_storybook_storage_ser.Drivers.Paths.{meta_dir}
use ai_storybook_storage_ser.Drivers.Paths.Places.{
  object_place, meta_place, object_path-place, meta_path-place,
}
use ai_storybook_storage_ser.Drivers.FileSystem.Tree.{File, file, file_at}
use ai_storybook_storage_ser.Drivers.FileSystem.Monad.{World, pure, lift, ◌>>=◌, except_os_error}
use ai_storybook_storage_ser.Drivers.FileSystem.Healthy.{
  read_all-healthy, read_all-missing, stat-healthy, is_file-healthy,
}
use ai_storybook_storage_ser.Drivers.Stream.{Stream, bytes_of}
use ai_storybook_storage_ser.Drivers.LocalFs.{
  Env, Driver, PutResult, ObjectInfo, loaded, SidecarValue, falsy, entries, parsed, sidecar_record,
  read_sidecar, etag_from_file, etag_fallback_max_bytes, safe_stat, info_of, info_of_file,
  info_of_sidecar, head_of, head,
}
use ai_storybook_storage_ser.Drivers.LocalFs.Put.{IsNewObject}

module _ (env : Env) (driver : Driver) (allow_at : Bool) (bucket key : Text)
    (b : IsBucketName bucket) (k : IsKey allow_at key) where
  abbrev root : FilePath
  root = resolve env.cwd driver.root

  abbrev dest : Text
  dest = path_join (path_join driver.root bucket) key

  abbrev side : Text
  side = path_join (path_join (path_join driver.root meta_dir) bucket) (key ++ codes ".json")

  safe_stat-healthy :
      (w : World) (f : File)
      → w.faults ≡ []
      → file_at (resolve env.cwd dest) w.fs ≡ some f
      → safe_stat env driver dest w ≡ (ok (some f), record w { faults = [] })
  unfolding safe_stat except_os_error ◌>>=◌ pure
  safe_stat-healthy w f healthy there =
      rw
        (
          stat-healthy env.cwd dest w healthy (file f)
              (node_at_of_file_at (resolve env.cwd dest) w.fs f there),
          is_file-healthy env.cwd dest (record w { faults = [] }) refl,
          there,
        )
        refl

  read_sidecar-there :
      (w : World) (f : File) (v : SidecarValue)
      → w.faults ≡ []
      → file_at (resolve env.cwd side) w.fs ≡ some f
      → env.loads f.content ≡ loaded v
      → read_sidecar env driver bucket key w ≡ (ok v, record w { faults = [] })
  unfolding read_sidecar parsed except_os_error ◌>>=◌ lift pure
  read_sidecar-there w f v healthy there reads =
      rw
        (
          (meta_path-place env.cwd driver.root allow_at bucket key b k).0,
          read_all-healthy env.cwd side w healthy f there,
          reads,
        )
        refl

  read_sidecar-missing :
      (w : World)
      → w.faults ≡ []
      → file_at (resolve env.cwd side) w.fs ≡ none
      → read_sidecar env driver bucket key w ≡ (ok falsy, record w { faults = [] })
  unfolding read_sidecar parsed except_os_error ◌>>=◌ lift pure
  read_sidecar-missing w healthy missing =
      let (n, e) = read_all-missing env.cwd side w healthy missing in
      rw ((meta_path-place env.cwd driver.root allow_at bucket key b k).0, e) refl

  etag_from_file-healthy :
      (w : World) (f : File)
      → w.faults ≡ []
      → file_at (resolve env.cwd dest) w.fs ≡ some f
      → length f.content ≤ etag_fallback_max_bytes
      → etag_from_file env driver dest (length f.content) w
        ≡ (ok (env.sha256 f.content), record w { faults = [] })
  unfolding etag_from_file except_os_error ◌>>=◌ pure
  etag_from_file-healthy w f healthy there small =
      let in_bounds : ltb etag_fallback_max_bytes (length f.content) ≡ false = ground arith in
      rw (in_bounds, read_all-healthy env.cwd dest w healthy f there) refl

  -- `head` of a file that is there, on a disk that does not fail, behind the read of the sidecar.
  head_there :
      (w : World) (f : File) (sidecar : SidecarValue)
      → w.faults ≡ []
      → file_at (resolve env.cwd dest) w.fs ≡ some f
      → read_sidecar env driver bucket key (record w { faults = [] })
        ≡ (ok sidecar, record w { faults = [] })
      → head env driver bucket key w
        ≡ (info_of env driver key dest f sidecar >>= λ info. pure (some info))
            (record w { faults = [] })
  unfolding head head_of ◌>>=◌ lift
  head_there w f sidecar healthy there read =
      rw
        (
          (object_path-place env.cwd driver.root allow_at bucket key b k).0,
          safe_stat-healthy w f healthy there,
          read,
        )
        refl

  -- The sidecar parses to the dict that is written for the answer, or there is none and the object is not too
  -- long to be hashed again.
  abbrev pub HasSidecarFor : PutResult → World → Type 0
  HasSidecarFor r w =
      ((file_at (meta_place root bucket key) w.fs ≡ none) × (r.bytes ≤ etag_fallback_max_bytes))
      ⊎ ((f : File) × (content_type : Text) × (uploaded_at : Text) × (metadata : Dict Text)
          × (file_at (meta_place root bucket key) w.fs ≡ some f)
          × (env.loads f.content
              ≡ loaded
                  (entries (sidecar_record env content_type r.etag r.bytes uploaded_at metadata))))

  -- What `head` answers for the object that `put` answered for.
  abbrev pub Agrees : PutResult → Result (Option ObjectInfo) → Type 0
  Agrees r answer =
      (info : ObjectInfo) × (answer ≡ ok (some info))
      × (info.key ≡ key)
      × (info.etag ≡ r.etag)
      × (info.bytes ≡ r.bytes)

  with_sidecar :
      (w : World) (f : File) (r : PutResult) (content_type uploaded_at : Text)
      (metadata : Dict Text)
      → Agrees r (
          ((info_of env driver key dest f
                (entries (sidecar_record env content_type r.etag r.bytes uploaded_at metadata))
              >>= λ info. pure (some info))
            w).0)
  unfolding info_of info_of_sidecar sidecar_record ◌>>=◌ lift pure
  with_sidecar w f r content_type uploaded_at metadata = (_, refl, refl, refl, refl)

  without_sidecar :
      (w : World) (f : File) (r : PutResult)
      → w.faults ≡ []
      → file_at (resolve env.cwd dest) w.fs ≡ some f
      → length f.content ≤ etag_fallback_max_bytes
      → r.etag ≡ env.sha256 f.content
      → r.bytes ≡ length f.content
      → Agrees r ((info_of env driver key dest f falsy >>= λ info. pure (some info)) w).0
  unfolding info_of info_of_file ◌>>=◌ pure
  without_sidecar w f r healthy there small etag size =
      rw (etag_from_file-healthy w f healthy there small) (_, refl, refl, sym etag, sym size)

  -- `head` agrees with `put`: where the object's file holds the body that `put` answered for, and the
  -- sidecar parses to the dict that is written for it, or is missing and the object has at most 100 MiB,
  -- `head` answers with the key, and with the etag and the byte count of the answer of `put`. The disk
  -- does not fail.
  pub head-Agrees :
      (body : Stream) (r : PutResult) (w : World)
      → w.faults ≡ []
      → IsNewObject env body r (file_at (object_place root bucket key) w.fs)
      → HasSidecarFor r w
      → Agrees r (head env driver bucket key w).0
  head-Agrees body r w healthy new side_state =
      let (t, stored) = new.written in
      let f : File = record { content = bytes_of body; mtime = t } in
      let w' = record w { faults = [] } in
      let there =
        ap (λ (p : FilePath). file_at p w.fs)
          (object_path-place env.cwd driver.root allow_at bucket key b k).1
        ∙ stored in
      let at_side =
        ap (λ (p : FilePath). file_at p w.fs)
          (meta_path-place env.cwd driver.root allow_at bucket key b k).1 in
      elim side_state [
        | inl (missing, small) ↦
            rw
              (head_there w f falsy healthy there
                (read_sidecar-missing w' refl (at_side ∙ missing)))
              (without_sidecar w' f r refl there (omega (arith, new.bytes, small)) new.etag
                new.bytes)
        | inr (g, content_type, uploaded_at, metadata, at_meta, reads) ↦
            let sidecar = sidecar_record env content_type r.etag r.bytes uploaded_at metadata in
            rw
              (head_there w f (entries sidecar) healthy there
                (read_sidecar-there w' g (entries sidecar) refl (at_side ∙ at_meta) reads))
              (with_sidecar w' f r content_type uploaded_at metadata)
      ]
