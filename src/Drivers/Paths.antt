-- ===== src/Drivers/Paths.antt =====
-- src/drivers/paths.py, the pure part: where an object and its sidecar stand under the root.
pub mod Within
pub mod Places
pub mod Parents
use ai_storybook_storage_ser.Base.{
  Text, codes, Bool, ◌||◌, ◌++◌, text_eq, starts_with, if◌then◌else◌,
}
use ai_storybook_storage_ser.Errors.{Exn, Result, ok, err, ◌>>=◌}
use ai_storybook_storage_ser.Drivers.PosixPath.{path_join, realpath}

abbrev pub meta_dir : Text
meta_dir = codes ".meta"

abbrev pub tmp_dir : Text
tmp_dir = codes ".tmp"

module _ (cwd : Text) where
  unfoldable pub assert_within : Text → Text → Result Text
  assert_within root candidate =
      let root_real = realpath cwd root in
      let cand_real = realpath cwd candidate in
      if text_eq cand_real root_real || starts_with cand_real (root_real ++ codes "/")
      then ok cand_real
      else err Exn.value_error

  unfoldable pub object_path : Text → Text → Text → Result Text
  object_path root bucket key = do
    let bucket_root = path_join root bucket
    let joined = path_join bucket_root key
    _ ← assert_within bucket_root joined
    ok joined

  unfoldable pub meta_path : Text → Text → Text → Result Text
  meta_path root bucket key = do
    let meta_root = path_join (path_join root meta_dir) bucket
    let joined = path_join meta_root (key ++ codes ".json")
    _ ← assert_within meta_root joined
    ok joined

-- `os.path.join(root, TMP_DIR, uuid.uuid4().hex)`
unfoldable pub new_tmp_path : Text → Text → Text
new_tmp_path root hex = path_join (path_join root tmp_dir) hex
