-- ===== src/Drivers/Layout/KeepsDirs.antt =====
-- `cleanup_stale_tmp` of src/drivers/paths.py removes files only.
use ai_storybook_storage_ser.Base.{
  ℕ, Text, Bool, true, false, ◌≡◌, ◌≢◌, ◌+◌, some, List, [], ◌∷◌, ltb, if◌then◌else◌,
}
use ai_storybook_storage_ser.Drivers.PosixPath.{FilePath, path_join, resolve}
use ai_storybook_storage_ser.Drivers.Paths.{tmp_dir}
use ai_storybook_storage_ser.Drivers.FileSystem.{remove, getmtime, is_dir, listdir}
use ai_storybook_storage_ser.Drivers.FileSystem.Tree.{File, Fs, file_at, drop_node}
use ai_storybook_storage_ser.Drivers.FileSystem.Monad.{Io, pure, gets, ◌>>=◌, ◌>>◌}
use ai_storybook_storage_ser.Drivers.FileSystem.Triple.{
  Keeps, Keeps-pure, Keeps-bind, Keeps-except, Keeps-gets, Triple-weaken,
}
use ai_storybook_storage_ser.Drivers.FileSystem.Calls.{On, Triple-remove, Keeps-is_file}
use ai_storybook_storage_ser.Drivers.FileSystem.Directories.{Triple-listdir, Triple-getmtime}
use ai_storybook_storage_ser.Drivers.Layout.{is_stale, sweep_one, sweep, cleanup_stale_tmp}

-- What the removal of a file never breaks, the sweep does not break.
module _ (cwd root : Text) (P : Fs → Type 0)
    (keep : (p : FilePath) (fs : Fs) (f : File)
      → P fs
      → file_at p fs ≡ some f
      → p ≢ []
      → P (drop_node p fs)) where
  Keeps-getmtime : (p : Text) → Keeps (On P) (getmtime cwd p)
  Keeps-getmtime p = Triple-weaken (λ w h. h) (λ t w h. h.0) (λ e w h. h) (Triple-getmtime cwd p P)

  Keeps-is_stale : (older now : ℕ) (p : Text) → Keeps (On P) (is_stale cwd root older now p)
  unfolding is_stale
  Keeps-is_stale older now p = Keeps-bind (Keeps-is_file cwd p P) λ found. by found
    where
      by :
          (found : Bool)
          → Keeps (On P) (
              if found
              then (do mtime ← getmtime cwd p; pure (ltb (mtime + older) now))
              else pure false)
      by true = Keeps-bind (Keeps-getmtime p) (λ t. Keeps-pure _)
      by false = Keeps-pure false

  Keeps-round : (older now : ℕ) (p : Text) → Keeps (On P) (sweep_one cwd root older now p)
  unfolding sweep_one
  Keeps-round older now p =
      Keeps-except (Keeps-bind (Keeps-is_stale older now p) λ stale. by stale)
        (λ _. Keeps-pure {A = ℕ} 0)
    where
      by :
          (stale : Bool)
          → Keeps (On P) (let go : Io ℕ = if stale then (do remove cwd p; pure 1) else pure 0 in go)
      by true =
          Keeps-bind {B = ℕ}
            (Triple-remove cwd p P P (λ fs f h at_p ne. keep (resolve cwd p) fs f h at_p ne))
            (λ _. Keeps-pure {A = ℕ} 1)
      by false = Keeps-pure {A = ℕ} 0

  Keeps-rounds :
      (older now : ℕ) (tmp : Text) (n : ℕ) (names : List Text)
      → Keeps (On P) (sweep cwd root older now tmp n names)
  unfolding sweep
  Keeps-rounds older now tmp n [] = Keeps-pure n
  Keeps-rounds older now tmp n (name ∷ names) =
      Keeps-bind (Keeps-round older now (path_join tmp name))
        λ gone. Keeps-rounds older now tmp (n + gone) names

  pub Keeps-cleanup_stale_tmp : (older : ℕ) → Keeps (On P) (cleanup_stale_tmp cwd root older)
  unfolding cleanup_stale_tmp is_dir
  Keeps-cleanup_stale_tmp older = Keeps-bind (record { at = λ w h. h }) λ present. by present
    where
      tmp : Text
      tmp = path_join root tmp_dir

      by :
          (present : Bool)
          → Keeps (On P) (
              if present
              then (do
                now ← gets (λ w. w.now)
                names ← listdir cwd tmp
                sweep cwd root older now tmp 0 names)
              else pure 0)
      by true = Keeps-bind (Keeps-gets (λ w. w.now)) λ now.
          Keeps-bind
            (Triple-weaken (λ w h. h) (λ _ w h. h.0) (λ e w h. h) (Triple-listdir cwd tmp P))
            λ names. Keeps-rounds older now tmp 0 names
      by false = Keeps-pure 0
