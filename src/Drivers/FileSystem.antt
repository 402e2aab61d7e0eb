-- ===== src/Drivers/FileSystem.antt =====
-- The file system under the driver: a tree of directories and files, with the POSIX behaviour of
-- the calls that the driver makes (`open`, `write`, `makedirs`, `rename`, `remove`, `stat`,
-- `read`, `listdir`). There are no links. Each call first asks the list of faults, which stands for the
-- disk and the kernel: any call can fail with any error number. The tests of `os.path` do not raise
-- then: they answer `False`.
pub mod Tree
pub mod Monad
pub mod Triple
pub mod Calls
pub mod Failures
pub mod Directories
pub mod Healthy
pub mod MakeDirs
pub mod Surely
use ai_storybook_storage_ser.Base.{
  ℕ, Text, Bool, true, false, Option, none, some, List, [], ◌∷◌, ◌++◌, suc, codes, not, ◌||◌,
  has_char, text_eq, if◌then◌else◌,
}
use ai_storybook_storage_ser.Errors.{
  Exn, Errno, enospc, enoent, enotdir, eisdir, eexist, Result, ok, err,
}
use ai_storybook_storage_ser.Drivers.PosixPath.{FilePath, resolve}
use ai_storybook_storage_ser.Drivers.FileSystem.Tree.{
  Bytes, File, Node, file, dir, Fs, node_at, file_at, set_node, drop_node, parent,
}
use ai_storybook_storage_ser.Drivers.FileSystem.Monad.{
  World, Io, attempt, next_fault, tail_of, ◌>>=◌, ◌>>◌,
}

-- Creates the missing directories from `here` down. A file in the way is an error.
blocked : List Text → Errno
blocked [] = eexist
blocked (_ ∷ _) = enotdir

unfoldable pub make_dirs : FilePath → List Text → Fs → Result (Unit {0}) × Fs
unfolding blocked
make_dirs here [] fs = (ok tt, fs)
make_dirs here (name ∷ names) fs = elim (node_at (here ++ name ∷ []) fs) [
  | some dir ↦ make_dirs (here ++ name ∷ []) names fs
  | some (file _) ↦ (err (Exn.os_error (blocked names)), fs)
  | none ↦ make_dirs (here ++ name ∷ []) names (set_node (here ++ name ∷ []) dir fs)
]

-- A new entry needs a directory to stand in.
unfoldable pub check_parent : FilePath → Fs → Result (Unit {0})
check_parent p fs = elim (node_at (parent p) fs) [
  | some dir ↦ ok tt
  | some (file _) ↦ err (Exn.os_error enotdir)
  | none ↦ err (Exn.os_error enoent)
]

-- The entry at a place, for a call that replaces it by a file.
unfoldable pub check_no_dir : FilePath → Fs → Result (Unit {0})
check_no_dir p fs = elim (node_at p fs) [
  | some dir ↦ err (Exn.os_error eisdir)
  | some (file _) ↦ ok tt
  | none ↦ ok tt
]

abbrev both : Result (Unit {0}) → Result (Unit {0}) → Result (Unit {0})
both (ok _) r = r
both (err e) r = err e

-- Goes on with new contents of the tree if the checks passed.
abbrev commit : Result (Unit {0}) → Fs → Io (Unit {0})
commit (ok _) fs w = (ok tt, record w { fs = fs })
commit (err e) fs w = (err e, w)

-- The write of a chunk to an open file. A file that was removed in between takes it unseen.
unfoldable pub appended : Option File → Bytes → FilePath → ℕ → Fs → Fs
appended none chunk p now fs = fs
appended (some f) chunk p now fs =
    set_node p (file (record { content = f.content ++ chunk; mtime = now })) fs

-- What `rename` moves: the source only renames files.
moved : Option Node → FilePath → FilePath → Fs → Io (Unit {0})
unfolding check_parent check_no_dir
moved none p q fs w = (err (Exn.os_error enoent), w)
moved (some dir) p q fs w = (err (Exn.os_error eisdir), w)
moved (some (file f)) p q fs w =
    commit (both (check_parent q fs) (check_no_dir q fs)) (set_node q (file f) (drop_node p fs)) w

removed : Option Node → FilePath → Fs → Io (Unit {0})
removed none p fs w = (err (Exn.os_error enoent), w)
removed (some dir) p fs w = (err (Exn.os_error eisdir), w)
removed (some (file f)) p fs w = (ok tt, record w { fs = drop_node p fs })

-- The name of an entry directly below a place.
unfoldable child_of : FilePath → FilePath → Option Text
child_of [] (name ∷ []) = some name
child_of (a ∷ p) (b ∷ q) = let rest = child_of p q in if text_eq a b then rest else none
child_of _ _ = none

unfoldable is_name : Text → Bool
is_name name =
    not (
      text_eq name []
      || text_eq name (codes ".")
      || text_eq name (codes "..")
      || has_char b'/' name)

unfoldable listed : Option Text → List Text → List Text
unfolding is_name
listed none names = names
listed (some name) names = if is_name name then name ∷ names else names

unfoldable pub children : FilePath → Fs → List Text
unfolding child_of listed
children p [] = []
children p ((q, n) ∷ fs) = listed (child_of p q) (children p fs)

unfoldable names_of : Option Node → List Text → Io (List Text)
names_of none names w = (err (Exn.os_error enoent), w)
names_of (some (file _)) names w = (err (Exn.os_error enotdir), w)
names_of (some dir) names w = (ok names, w)

unfoldable pub is_dir_node : Option Node → Bool
is_dir_node none = false
is_dir_node (some (file _)) = false
is_dir_node (some dir) = true

unfoldable mtime_of : Option File → Io ℕ
mtime_of none w = (err (Exn.os_error enoent), w)
mtime_of (some f) w = (ok f.mtime, w)

content_of : Option Node → Io Bytes
content_of none w = (err (Exn.os_error enoent), w)
content_of (some dir) w = (err (Exn.os_error eisdir), w)
content_of (some (file f)) w = (ok f.content, w)

abbrev pub is_some {ℓ} : {A : Type ℓ} → Option A → Bool
is_some none = false
is_some (some _) = true

unfoldable stat_of : Option Node → Io Node
stat_of none w = (err (Exn.os_error enoent), w)
stat_of (some n) w = (ok n, w)

-- What a test of `os.path` answers, given how the `stat` under it went: `False` if it failed.
unfoldable pub answered : Result (Unit {0}) → Bool → Bool
answered (ok _) there = there
answered (err _) there = false

-- `fh.flush()`, `os.fsync(fh.fileno())` and `fh.close()` change nothing that a reader sees.
unfoldable pub flush : Io (Unit {0})
unfolding attempt
flush = attempt

unfoldable pub fsync : Io (Unit {0})
unfolding attempt
fsync = attempt

unfoldable pub close : Io (Unit {0})
unfolding attempt
close = attempt

module _ (cwd : Text) where
  -- `open(path, "wb")`: an empty file, ready for writing.
  unfoldable pub create : Text → Io (Unit {0})
  unfolding check_parent check_no_dir
  create path = do
    attempt
    λ w.
        let p = resolve cwd path in
        commit (both (check_parent p w.fs) (check_no_dir p w.fs))
          (set_node p (file (record { content = []; mtime = w.now })) w.fs) w

  -- `fh.write(chunk)`
  unfoldable pub write : Text → Bytes → Io (Unit {0})
  unfolding appended
  write path chunk = do
    attempt
    λ w.
        let p = resolve cwd path in
        (ok tt, record w { fs = appended (file_at p w.fs) chunk p w.now w.fs })

  -- `os.makedirs(path, exist_ok=True)`
  unfoldable pub makedirs : Text → Io (Unit {0})
  makedirs path = do
    attempt
    λ w. let (r, fs) = make_dirs [] (resolve cwd path) w.fs in (r, record w { fs = fs })

  -- `os.rename(src, dst)`
  unfoldable pub rename : Text → Text → Io (Unit {0})
  unfolding moved
  rename src dst = do
    attempt
    λ w. moved (node_at (resolve cwd src) w.fs) (resolve cwd src) (resolve cwd dst) w.fs w

  -- `os.remove(path)`
  unfoldable pub remove : Text → Io (Unit {0})
  unfolding removed
  remove path = do attempt; λ w. removed (node_at (resolve cwd path) w.fs) (resolve cwd path) w.fs w

  -- `open(path, "rb").read()`
  unfoldable pub read_all : Text → Io Bytes
  unfolding content_of
  read_all path = do attempt; λ w. content_of (node_at (resolve cwd path) w.fs) w

  -- `os.listdir(path)`. No name is empty, `.` or `..`, or holds a slash.
  unfoldable pub listdir : Text → Io (List Text)
  unfolding names_of children
  listdir path = do
    attempt
    λ w. names_of (node_at (resolve cwd path) w.fs) (children (resolve cwd path) w.fs) w

  -- `os.path.isdir(path)`
  unfoldable pub is_dir : Text → Io Bool
  unfolding is_dir_node answered next_fault
  is_dir path w = (
    ok (answered (next_fault w.faults) (is_dir_node (node_at (resolve cwd path) w.fs))),
    record w { faults = tail_of w.faults },
  )

  -- `os.path.getmtime(path)` of a file
  unfoldable pub getmtime : Text → Io ℕ
  unfolding mtime_of
  getmtime path = do attempt; λ w. mtime_of (file_at (resolve cwd path) w.fs) w

  -- `os.path.exists(path)`
  unfoldable pub path_exists : Text → Io Bool
  unfolding answered next_fault
  path_exists path w = (
    ok (answered (next_fault w.faults) (is_some (node_at (resolve cwd path) w.fs))),
    record w { faults = tail_of w.faults },
  )

  -- `os.path.isfile(path)`
  unfoldable pub is_file : Text → Io Bool
  unfolding answered next_fault
  is_file path w = (
    ok (answered (next_fault w.faults) (is_some (file_at (resolve cwd path) w.fs))),
    record w { faults = tail_of w.faults },
  )

  -- `os.stat(path)`
  unfoldable pub stat : Text → Io Node
  unfolding stat_of
  stat path = do attempt; λ w. stat_of (node_at (resolve cwd path) w.fs) w
