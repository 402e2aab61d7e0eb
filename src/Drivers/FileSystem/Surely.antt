-- ===== src/Drivers/FileSystem/Surely.antt =====
-- Actions that return on a disk that does not fail.
use ai_storybook_storage_ser.Base.{ℕ, Text, ◌≡◌, ◌≢◌, refl, inl, inr, some, []}
use ai_storybook_storage_ser.Errors.{Exn, ok}
use ai_storybook_storage_ser.Drivers.PosixPath.{FilePath, resolve}
use ai_storybook_storage_ser.Drivers.FileSystem.{
  make_dirs, check_parent, check_no_dir, appended, moved, flush, fsync, close, create, write,
  makedirs, rename,
}
use ai_storybook_storage_ser.Drivers.FileSystem.Tree.{
  Bytes, File, file, dir, Fs, node_at, file_at, set_node, drop_node, parent,
}
use ai_storybook_storage_ser.Drivers.FileSystem.Monad.{World, Io, attempt, next_fault, ◌>>◌}
use ai_storybook_storage_ser.Drivers.FileSystem.Triple.{After, Triple, Triple-bind}
use ai_storybook_storage_ser.Drivers.FileSystem.Calls.{Node-cases}
use ai_storybook_storage_ser.Drivers.FileSystem.MakeDirs.{IsClear, make_dirs-ok}

-- The disk will not fail, and the tree is as stated.
abbrev pub OnHealthy : (Fs → Type 0) → World → Type 0
OnHealthy P w = (w.faults ≡ []) × P w.fs

abbrev pub Surely : {A : Type 0} → (Fs → Type 0) → Io A → (A → Fs → Type 0) → Type 0
Surely P m Q = Triple (OnHealthy P) m (λ a. OnHealthy (Q a)) (λ _ _. ⊥)

pub Surely-attempt : (P : Fs → Type 0) → Surely P attempt (λ _. P)
unfolding attempt next_fault
Surely-attempt P = record { at = λ w (healthy, h). rw healthy (refl, h) }

pub Surely-flush : (P : Fs → Type 0) → Surely P flush (λ _. P)
unfolding flush
Surely-flush P = Surely-attempt P

pub Surely-fsync : (P : Fs → Type 0) → Surely P fsync (λ _. P)
unfolding fsync
Surely-fsync P = Surely-attempt P

pub Surely-close : (P : Fs → Type 0) → Surely P close (λ _. P)
unfolding close
Surely-close P = Surely-attempt P

effect-Surely :
    {A : Type 0} (P : Fs → Type 0) (Q : A → Fs → Type 0) (act : Io A)
    → ((w : World)
        → w.faults ≡ []
        → P w.fs
        → After (λ a. OnHealthy (Q a)) (λ _ _. ⊥) (act w).0 (act w).1)
    → Surely P (attempt >> act) Q
effect-Surely P Q act h =
    Triple-bind (λ _. OnHealthy P) (Surely-attempt P) (λ _. record { at = λ w (e, k). h w e k })

check_parent-ok :
    (p : FilePath) (fs : Fs) → node_at (parent p) fs ≡ some dir → check_parent p fs ≡ ok tt
unfolding check_parent
check_parent-ok p fs h = rw (h, check_parent) refl

check_no_dir-ok : (p : FilePath) (fs : Fs) → node_at p fs ≢ some dir → check_no_dir p fs ≡ ok tt
unfolding check_no_dir
check_no_dir-ok p fs h = elim (Node-cases (node_at p fs)) [
  | inl absent ↦ rw (absent, check_no_dir) refl
  | inr (inl there) ↦ absurd (h there)
  | inr (inr (f, there)) ↦ rw (there, check_no_dir) refl
]

module _ (cwd path : Text) (P Q : Fs → Type 0) where
  abbrev place : FilePath
  place = resolve cwd path

  pub Surely-create :
      ((fs : Fs) (t : ℕ)
        → P fs
        → (node_at (parent place) fs ≡ some dir)
          × (node_at place fs ≢ some dir)
          × Q (set_node place (file (record { content = []; mtime = t })) fs))
      → Surely P (create cwd path) (λ _. Q)
  unfolding create
  Surely-create h =
      effect-Surely P (λ _. Q) _
        λ w healthy k.
          let (above, free, q) = h w.fs w.now k in
          rw (check_parent-ok place w.fs above, check_no_dir-ok place w.fs free) (healthy, q)

  pub Surely-write :
      (chunk : Bytes)
      → ((fs : Fs) (t : ℕ) → P fs → Q (appended (file_at place fs) chunk place t fs))
      → Surely P (write cwd path chunk) (λ _. Q)
  unfolding write
  Surely-write chunk h = effect-Surely P (λ _. Q) _ λ w healthy k. (healthy, h w.fs w.now k)

  pub Surely-makedirs :
      ((fs : Fs) → P fs → IsClear [] place fs × Q (make_dirs [] place fs).1)
      → Surely P (makedirs cwd path) (λ _. Q)
  unfolding makedirs
  Surely-makedirs h =
      effect-Surely P (λ _. Q) _
        λ w healthy k.
          let (clear, q) = h w.fs k in rw (make_dirs-ok [] place w.fs clear) (healthy, q)

  pub Surely-rename :
      (dst : Text)
      → ((fs : Fs)
          → P fs
          → (f : File) × (node_at place fs ≡ some (file f))
            × (node_at (parent (resolve cwd dst)) fs ≡ some dir)
            × (node_at (resolve cwd dst) fs ≢ some dir)
            × Q (set_node (resolve cwd dst) (file f) (drop_node place fs)))
      → Surely P (rename cwd path dst) (λ _. Q)
  unfolding rename moved
  Surely-rename dst h =
      effect-Surely P (λ _. Q) _
        λ w healthy k.
          let (f, there, above, free, q) = h w.fs k in
          rw
            (
              there,
              check_parent-ok (resolve cwd dst) w.fs above,
              check_no_dir-ok (resolve cwd dst) w.fs free,
            )
            (healthy, q)

-- There is nothing to clean up after an action that does not raise.
pub Triple-never :
    {A : Type 0} {m : Io A} {Q : A → World → Type 0} {E : Exn → World → Type 0}
    → Triple (λ _. ⊥) m Q E
Triple-never = record { at = λ w h. absurd h }
