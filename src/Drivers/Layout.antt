-- ===== src/Drivers/Layout.antt =====
-- src/drivers/paths.py, the part that touches the disk: the directories of the store and the sweep of
-- stale staging files.
pub mod Sweep
pub mod Round
pub mod Removes
pub mod Directories
pub mod KeepsDirs
use ai_storybook_storage_ser.Base.{
  ℕ, Text, Bool, true, false, List, [], ◌∷◌, ◌+◌, ltb, if◌then◌else◌,
}
use ai_storybook_storage_ser.Drivers.PosixPath.{path_join}
use ai_storybook_storage_ser.Drivers.Paths.{meta_dir, tmp_dir}
use ai_storybook_storage_ser.Drivers.FileSystem.{
  makedirs, remove, listdir, is_dir, is_file, getmtime,
}
use ai_storybook_storage_ser.Drivers.FileSystem.Monad.{Io, pure, gets, ◌>>=◌, ◌>>◌, except_os_error}

module _ (cwd root : Text) where
  -- The loop of `ensure_layout` over the buckets.
  unfoldable make_buckets : List Text → Io (Unit {0})
  make_buckets [] = pure tt
  make_buckets (b ∷ buckets) = do
    makedirs cwd (path_join root b)
    makedirs cwd (path_join (path_join root meta_dir) b)
    make_buckets buckets

  unfoldable pub ensure_layout : List Text → Io (Unit {0})
  unfolding make_buckets
  ensure_layout buckets = do
    makedirs cwd (path_join root tmp_dir)
    makedirs cwd (path_join root meta_dir)
    make_buckets buckets

  module _ (older_than_sec now : ℕ) where
    -- `os.path.isfile(p) and os.path.getmtime(p) < cutoff`, with the threshold added on the left.
    unfoldable is_stale : Text → Io Bool
    is_stale p = do
      found ← is_file cwd p
      if found
          then (do mtime ← getmtime cwd p; pure (ltb (mtime + older_than_sec) now))
          else pure false

    -- One round of the loop: how many files it removed.
    unfoldable sweep_one : Text → Io ℕ
    unfolding is_stale
    sweep_one p =
        except_os_error (do stale ← is_stale p; if stale then (do remove cwd p; pure 1) else pure 0)
          (λ _. pure 0)

    unfoldable sweep : Text → ℕ → List Text → Io ℕ
    unfolding sweep_one
    sweep tmp removed [] = pure removed
    sweep tmp removed (name ∷ names) = do
      gone ← sweep_one (path_join tmp name)
      sweep tmp (removed + gone) names

  unfoldable pub cleanup_stale_tmp : ℕ → Io ℕ
  unfolding sweep
  cleanup_stale_tmp older_than_sec = do
    present ← is_dir cwd (path_join root tmp_dir)
    if present
        then (do
          now ← gets (λ w. w.now)
          names ← listdir cwd (path_join root tmp_dir)
          sweep older_than_sec now (path_join root tmp_dir) 0 names)
        else pure 0
