-- ===== src/Drivers/FileSystem/Healthy.antt =====
-- The calls on a disk that does not fail.
use ai_storybook_storage_ser.Base.{Text, ◌≡◌, refl, some, [], inl, inr, none, sym, ◌∙◌}
use ai_storybook_storage_ser.Errors.{ok, Errno, Exn, enoent, eisdir, err}
use ai_storybook_storage_ser.Drivers.PosixPath.{resolve}
use ai_storybook_storage_ser.Drivers.FileSystem.{
  answered, is_some, is_dir_node, is_dir, is_file, children, names_of, mtime_of, removed, remove,
  listdir, getmtime, stat, stat_of, read_all, content_of,
}
use ai_storybook_storage_ser.Drivers.FileSystem.Tree.{File, Node, dir, node_at, file_at, drop_node}
use ai_storybook_storage_ser.Drivers.FileSystem.Monad.{World, attempt, next_fault, ◌>>=◌}
use ai_storybook_storage_ser.Drivers.FileSystem.Calls.{
  node_at_of_file_at, Node-cases, file_at-node_at,
}

module _ (cwd path : Text) (w : World) (healthy : w.faults ≡ []) where
  pub remove-healthy :
      (f : File)
      → file_at (resolve cwd path) w.fs ≡ some f
      → remove cwd path w
        ≡ (ok tt, record w { fs = drop_node (resolve cwd path) w.fs; faults = [] })
  unfolding remove removed attempt next_fault ◌>>=◌
  remove-healthy f there = rw (healthy, node_at_of_file_at (resolve cwd path) w.fs f there) refl

  pub getmtime-healthy :
      (f : File)
      → file_at (resolve cwd path) w.fs ≡ some f
      → getmtime cwd path w ≡ (ok f.mtime, record w { faults = [] })
  unfolding getmtime mtime_of attempt next_fault ◌>>=◌
  getmtime-healthy f there = rw (healthy, there) refl

  pub listdir-healthy :
      node_at (resolve cwd path) w.fs ≡ some dir
      → listdir cwd path w ≡ (ok (children (resolve cwd path) w.fs), record w { faults = [] })
  unfolding listdir names_of attempt next_fault ◌>>=◌
  listdir-healthy there = rw (healthy, there) refl

  pub is_file-healthy :
      is_file cwd path w
      ≡ (ok (is_some (file_at (resolve cwd path) w.fs)), record w { faults = [] })
  unfolding is_file answered next_fault
  is_file-healthy = rw healthy refl

  pub is_dir-healthy :
      is_dir cwd path w
      ≡ (ok (is_dir_node (node_at (resolve cwd path) w.fs)), record w { faults = [] })
  unfolding is_dir answered next_fault
  is_dir-healthy = rw healthy refl

  pub stat-healthy :
      (n : Node)
      → node_at (resolve cwd path) w.fs ≡ some n
      → stat cwd path w ≡ (ok n, record w { faults = [] })
  unfolding stat stat_of attempt next_fault ◌>>=◌
  stat-healthy n there = rw (healthy, there) refl

  pub read_all-healthy :
      (f : File)
      → file_at (resolve cwd path) w.fs ≡ some f
      → read_all cwd path w ≡ (ok f.content, record w { faults = [] })
  unfolding read_all content_of attempt next_fault ◌>>=◌
  read_all-healthy f there = rw (healthy, node_at_of_file_at (resolve cwd path) w.fs f there) refl

  -- Where no file is, an `OSError` is raised.
  pub read_all-missing :
      file_at (resolve cwd path) w.fs ≡ none
      → (n : Errno) × (read_all cwd path w ≡ (err (Exn.os_error n), record w { faults = [] }))
  unfolding read_all content_of attempt next_fault ◌>>=◌
  read_all-missing missing = elim (Node-cases (node_at (resolve cwd path) w.fs)) [
    | inl absent ↦ (enoent, rw (healthy, absent) refl)
    | inr (inl directory) ↦ (eisdir, rw (healthy, directory) refl)
    | inr (inr (f, there)) ↦
        let clash : some f ≡ none =
          sym (file_at-node_at (resolve cwd path) w.fs f there) ∙ missing in
        absurd cc
  ]
