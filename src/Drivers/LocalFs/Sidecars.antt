-- ===== src/Drivers/LocalFs/Sidecars.antt =====
-- `head`, `_write_sidecar` and the objects of src/drivers/local_fs.py.
use ai_storybook_storage_ser.Errors.{Exn}
use ai_storybook_storage_ser.Base.{
  ℕ, Text, codes, ◌≡◌, ◌≢◌, sym, ◌∙◌, Option, none, some, [], ◌∷◌, ◌++◌, Bool, length,
  length-append, Lacks, Lacks-append, arith, ◌≤◌,
}
use ai_storybook_storage_ser.Settings.{Dict}
use ai_storybook_storage_ser.Validation.KeyGrammar.Grammar.{IsKey, IsBucketName}
use ai_storybook_storage_ser.Drivers.PosixPath.{FilePath, path_join, resolve}
use ai_storybook_storage_ser.Drivers.PosixPath.Laws.{IsPlain}
use ai_storybook_storage_ser.Drivers.Paths.{meta_path, meta_dir}
use ai_storybook_storage_ser.Drivers.Paths.Places.{
  object_place, meta_path-place, sidecar_tmp-place, object_place-ne-hidden,
}
use ai_storybook_storage_ser.Drivers.FileSystem.Tree.{File, Fs, file_at}
use ai_storybook_storage_ser.Drivers.FileSystem.Triple.{
  Keeps, Keeps-pure, Keeps-lift, Keeps-gets, Keeps-bind, Keeps-except, Keeps-if, Triple-finally,
  Triple-bind-lift, Keeps-raise,
}
use ai_storybook_storage_ser.Drivers.FileSystem.Calls.{
  On, Keeps-close, Keeps-makedirs, Keeps-read_all, Keeps-stat, Keeps-is_file, Triple-create,
  Triple-write, Triple-rename, file_at-make_dirs, set_file-other, drop_node-other, appended-other,
}
use ai_storybook_storage_ser.Drivers.LocalFs.{
  Env, Driver, Loaded, json_decode_error, raises, loaded, SidecarValue, falsy, entries, no_dict,
  parsed, info_of_sidecar, atomic_write_text, write_sidecar, read_sidecar, etag_from_file,
  safe_stat, info_of_file, info_of, head_of, head,
}
use ai_storybook_storage_ser.Drivers.LocalFs.RandomName.{Triple-uuid4_hex}

-- Random names are plain names: the documented result of `uuid4().hex` is 32 hexadecimal digits.
pub record HexNames (env : Env) : Type 0 where
  pub plain : (n : ℕ) → IsPlain (env.hex n)
  pub one_name : (n : ℕ) → Lacks 47 (env.hex n)

-- Looking keeps every statement about the tree.
module _ (env : Env) (driver : Driver) (P : Fs → Type 0) where
  Keeps-parsed : (l : Loaded) → Keeps (On P) (parsed env driver l)
  unfolding parsed
  Keeps-parsed json_decode_error = Keeps-pure falsy
  Keeps-parsed (raises e) = Keeps-raise e
  Keeps-parsed (loaded v) = Keeps-pure v

  Keeps-read_sidecar : (bucket key : Text) → Keeps (On P) (read_sidecar env driver bucket key)
  unfolding read_sidecar
  Keeps-read_sidecar bucket key =
      Keeps-except
        (Keeps-bind (Keeps-lift _)
          λ mp. Keeps-bind (Keeps-read_all env.cwd mp P) (λ raw. Keeps-parsed _))
        (λ _. Keeps-pure falsy)

  Keeps-etag_from_file :
      (path : Text) (size : ℕ) → Keeps (On P) (etag_from_file env driver path size)
  unfolding etag_from_file
  Keeps-etag_from_file path size = Keeps-if _ _ _ (Keeps-pure []) (
      Keeps-except (Keeps-bind (Keeps-read_all env.cwd path P) (λ c. Keeps-pure _))
        (λ _. Keeps-pure []))

  Keeps-info_of_file :
      (key dest : Text) (f : File) → Keeps (On P) (info_of_file env driver key dest f)
  unfolding info_of_file
  Keeps-info_of_file key dest f = Keeps-bind (Keeps-etag_from_file dest _) (λ e. Keeps-pure _)

  Keeps-info_of :
      (key dest : Text) (f : File) (s : SidecarValue)
      → Keeps (On P) (info_of env driver key dest f s)
  unfolding info_of info_of_sidecar
  Keeps-info_of key dest f falsy = Keeps-info_of_file key dest f
  Keeps-info_of key dest f (entries s) = Keeps-bind (Keeps-lift _) (λ bytes. Keeps-pure _)
  Keeps-info_of key dest f no_dict = Keeps-raise Exn.attribute_error

  Keeps-head_of :
      (bucket key dest : Text) (f : Option File)
      → Keeps (On P) (head_of env driver bucket key dest f)
  unfolding head_of
  Keeps-head_of bucket key dest none = Keeps-pure none
  Keeps-head_of bucket key dest (some f) =
      Keeps-bind (Keeps-read_sidecar bucket key)
        λ s. Keeps-bind (Keeps-info_of key dest f s) (λ i. Keeps-pure _)

  Keeps-safe_stat : (path : Text) → Keeps (On P) (safe_stat env driver path)
  unfolding safe_stat
  Keeps-safe_stat path =
      Keeps-except
        (Keeps-bind (Keeps-stat env.cwd path P)
          λ st. Keeps-bind (Keeps-is_file env.cwd path P) (λ found. Keeps-pure _))
        (λ _. Keeps-pure none)

  -- `head` changes nothing on the disk.
  pub Keeps-head : (bucket key : Text) → Keeps (On P) (head env driver bucket key)
  unfolding head
  Keeps-head bucket key =
      Keeps-bind (Keeps-lift _)
        λ dest. Keeps-bind (Keeps-safe_stat dest) (λ f. Keeps-head_of bucket key dest f)

module _ (env : Env) (q : FilePath) (old : Option File) where
  abbrev Before : Fs → Type 0
  Before fs = file_at q fs ≡ old

  -- A sidecar is written next to its place and renamed there.
  Keeps-atomic_write_text :
      (path text : Text)
      → resolve env.cwd path ≢ q
      → ((n : ℕ) → resolve env.cwd (path ++ (codes "." ++ env.hex n ++ codes ".tmp")) ≢ q)
      → Keeps (On Before) (atomic_write_text env path text)
  unfolding atomic_write_text
  Keeps-atomic_write_text path text apart beside = Triple-uuid4_hex env Before _ λ n.
      let tmp = path ++ (codes "." ++ env.hex n ++ codes ".tmp") in
      let t = resolve env.cwd tmp in
      Keeps-bind
        (Triple-create env.cwd tmp Before Before
          (λ fs time h ne. set_file-other t q _ fs ne (beside n) ∙ h))
        λ _.
          Keeps-bind
            (Triple-finally
              (Triple-write env.cwd tmp Before Before text
                (λ fs time h. appended-other t q fs text time (beside n) ∙ h))
              (λ _. Keeps-close Before) (λ _. Keeps-close Before))
            (λ _. Triple-rename env.cwd tmp Before Before path λ fs f h here ne ne'.
              set_file-other (resolve env.cwd path) q f _ ne' apart
              ∙ drop_node-other t q fs ne (beside n)
              ∙ h)

-- Writing the sidecar of a valid key changes no object.
module _ (env : Env) (driver : Driver) (hex_names : HexNames env) (allow_at : Bool)
    (bucket key : Text) (b : IsBucketName bucket) (k : IsKey allow_at key) (bucket' key' : Text)
    (b' : IsBucketName bucket') where
  abbrev root : FilePath
  root = resolve env.cwd driver.root

  abbrev object : FilePath
  object = object_place root bucket' key'

  meta_path-apart :
      (path : Text) (rest : FilePath)
      → resolve env.cwd path ≡ root ++ meta_dir ∷ rest
      → resolve env.cwd path ≢ object
  meta_path-apart path rest at_meta e =
      object_place-ne-hidden root bucket' key' (codes "meta") rest b' (sym e ∙ at_meta)

  tmp_name-Lacks : (n : ℕ) → Lacks 47 (codes "." ++ env.hex n ++ codes ".tmp")
  tmp_name-Lacks n = (Lacks-append 47 (codes ".") (env.hex n ++ codes ".tmp")).1 (
    omega arith,
    (Lacks-append 47 (env.hex n) (codes ".tmp")).1 (hex_names.one_name n, omega arith),
  )

  tmp_name-long : (n : ℕ) → 3 ≤ length (codes "." ++ env.hex n ++ codes ".tmp")
  tmp_name-long n = omega (arith, length-append {0} (env.hex n) (codes ".tmp"))

  abbrev sidecar_path : Text
  sidecar_path =
      path_join (path_join (path_join driver.root meta_dir) bucket) (key ++ codes ".json")

  pub Keeps-write_sidecar :
      (content_type etag : Text) (size : ℕ) (metadata : Dict Text) (old : Option File)
      → Keeps
          (On (λ fs. file_at object fs ≡ old))
          (write_sidecar env driver bucket key content_type etag size metadata)
  unfolding write_sidecar
  Keeps-write_sidecar content_type etag size metadata old =
      let Before : Fs → Type 0 = λ fs. file_at object fs ≡ old in
      let (passed, at_meta) = meta_path-place env.cwd driver.root allow_at bucket key b k in
      Keeps-bind (Keeps-gets _) λ now.
        Keeps-except
          (Triple-bind-lift (meta_path env.cwd driver.root bucket key) _ _ passed (
            Keeps-bind
              (Keeps-makedirs env.cwd _ Before
                (λ fs names h. file_at-make_dirs object [] names fs ∙ h))
              (λ _.
                Keeps-atomic_write_text env object old (sidecar_path) _
                  (meta_path-apart sidecar_path _ at_meta)
                  (λ n.
                    let (rest, e) =
                      sidecar_tmp-place env.cwd driver.root allow_at bucket key b k
                        (codes "." ++ env.hex n ++ codes ".tmp") (tmp_name-Lacks n)
                        (tmp_name-long n) in
                    meta_path-apart (sidecar_path ++ (codes "." ++ env.hex n ++ codes ".tmp")) rest
                      e))))
          (λ _. Keeps-pure tt)
