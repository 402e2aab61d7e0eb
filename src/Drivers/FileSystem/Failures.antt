-- ===== src/Drivers/FileSystem/Failures.antt =====
-- What the calls of the file system raise.
use ai_storybook_storage_ser.Base.{Text, Option, none, some, List, [], ◌∷◌, ◌++◌, inl, inr}
use ai_storybook_storage_ser.Errors.{Exn, Errno, enoent, enotdir, eisdir, Result, ok, err}
use ai_storybook_storage_ser.Drivers.PosixPath.{FilePath, resolve}
use ai_storybook_storage_ser.Drivers.FileSystem.{
  make_dirs, check_parent, check_no_dir, both, commit, moved, removed, close, create, write,
  makedirs, rename, remove,
}
use ai_storybook_storage_ser.Drivers.FileSystem.Tree.{Bytes, Node, file, dir, Fs, node_at, set_node}
use ai_storybook_storage_ser.Drivers.FileSystem.Monad.{
  World, Io, attempt, next_fault, ◌>>◌, recover, except_os_error, close_with, finally,
}
use ai_storybook_storage_ser.Drivers.FileSystem.Calls.{Node-cases}
use ai_storybook_storage_ser.Drivers.FileSystem.Triple.{After, Triple, Triple-bind}

abbrev pub IsOsError : Exn → Type 0
IsOsError (Exn.os_error n) = Unit
IsOsError e = ⊥

abbrev pub Anything : World → Type 0
Anything w = Unit

-- The action returns or raises an `OSError`.
abbrev pub MayFail : {A : Type 0} → Io A → Type 0
MayFail m = Triple Anything m (λ _. Anything) (λ e _. IsOsError e)

-- The action returns.
abbrev pub Returns : {A : Type 0} → Io A → Type 0
Returns m = Triple Anything m (λ _. Anything) (λ e _. ⊥)

abbrev FailsWell : {A : Type 0} → Result A → Type 0
FailsWell (ok a) = Unit
FailsWell (err e) = IsOsError e

FailsWell-After :
    {A : Type 0} (r : Result A) (w : World)
    → FailsWell r
    → After (λ _. Anything) (λ e _. IsOsError e) r w
FailsWell-After (ok a) w h = tt
FailsWell-After (err e) w h = h

may_fail : {A : Type 0} (m : Io A) → ((w : World) → FailsWell (m w).0) → MayFail m
may_fail m h = record { at = λ w _. FailsWell-After (m w).0 (m w).1 (h w) }

next_fault-FailsWell : (faults : List (Option Errno)) → FailsWell (next_fault faults)
unfolding next_fault
next_fault-FailsWell [] = tt
next_fault-FailsWell (none ∷ faults) = tt
next_fault-FailsWell (some e ∷ faults) = tt

MayFail-attempt : MayFail attempt
unfolding attempt
MayFail-attempt = may_fail attempt (λ w. next_fault-FailsWell w.faults)

MayFail-call :
    {A : Type 0} (act : Io A) → ((w : World) → FailsWell (act w).0) → MayFail (attempt >> act)
MayFail-call act h = Triple-bind (λ _. Anything) MayFail-attempt (λ _. may_fail act h)

commit-FailsWell :
    (r : Result (Unit {0})) (fs : Fs) (w : World) → FailsWell r → FailsWell (commit r fs w).0
commit-FailsWell (ok _) fs w h = tt
commit-FailsWell (err e) fs w h = h

both-FailsWell : (r s : Result (Unit {0})) → FailsWell r → FailsWell s → FailsWell (both r s)
both-FailsWell (ok _) s h k = k
both-FailsWell (err e) s h k = h

checks-FailsWell :
    (p : FilePath) (fs : Fs) → FailsWell (both (check_parent p fs) (check_no_dir p fs))
unfolding check_parent check_no_dir
checks-FailsWell p fs =
    both-FailsWell (check_parent p fs) (check_no_dir p fs) (parent_check _) (no_dir_check _)
  where
    parent_check :
        (n : Option Node)
        → FailsWell (elim n [
          | some dir ↦ ok tt
          | some (file _) ↦ err (Exn.os_error enotdir)
          | none ↦ err (Exn.os_error enoent)
        ])
    parent_check none = tt
    parent_check (some dir) = tt
    parent_check (some (file _)) = tt

    no_dir_check :
        (n : Option Node)
        → FailsWell
            (elim n [ some dir ↦ err (Exn.os_error eisdir) | some (file _) ↦ ok tt | none ↦ ok tt ])
    no_dir_check none = tt
    no_dir_check (some dir) = tt
    no_dir_check (some (file _)) = tt

make_dirs-FailsWell :
    (here : FilePath) (names : List Text) (fs : Fs) → FailsWell (make_dirs here names fs).0
unfolding make_dirs
make_dirs-FailsWell here [] fs = tt
make_dirs-FailsWell here (name ∷ names) fs =
    let next = here ++ name ∷ [] in
    elim (Node-cases (node_at next fs)) [
      | inl absent ↦ rw (absent, make_dirs) (make_dirs-FailsWell next names (set_node next dir fs))
      | inr (inl there) ↦ rw (there, make_dirs) (make_dirs-FailsWell next names fs)
      | inr (inr (f, in_the_way)) ↦ rw (in_the_way, make_dirs) tt
    ]

removed-FailsWell :
    (n : Option Node) (p : FilePath) (fs : Fs) (w : World) → FailsWell (removed n p fs w).0
unfolding removed
removed-FailsWell none p fs w = tt
removed-FailsWell (some dir) p fs w = tt
removed-FailsWell (some (file f)) p fs w = tt

moved-FailsWell :
    (n : Option Node) (p q : FilePath) (fs : Fs) (w : World) → FailsWell (moved n p q fs w).0
unfolding moved
moved-FailsWell none p q fs w = tt
moved-FailsWell (some dir) p q fs w = tt
moved-FailsWell (some (file f)) p q fs w = commit-FailsWell _ _ w (checks-FailsWell q fs)

pub MayFail-close : MayFail close
unfolding close
MayFail-close = MayFail-attempt

module _ (cwd path : Text) where
  pub MayFail-create : MayFail (create cwd path)
  unfolding create
  MayFail-create =
      MayFail-call _ (λ w. commit-FailsWell _ _ w (checks-FailsWell (resolve cwd path) w.fs))

  pub MayFail-write : (bytes : Bytes) → MayFail (write cwd path bytes)
  unfolding write
  MayFail-write bytes = MayFail-call _ (λ w. tt)

  pub MayFail-makedirs : MayFail (makedirs cwd path)
  unfolding makedirs
  MayFail-makedirs = MayFail-call _ (λ w. make_dirs-FailsWell [] (resolve cwd path) w.fs)

  pub MayFail-rename : (dst : Text) → MayFail (rename cwd path dst)
  unfolding rename
  MayFail-rename dst = MayFail-call _ (λ w. moved-FailsWell _ _ _ w.fs w)

  pub MayFail-remove : MayFail (remove cwd path)
  unfolding remove
  MayFail-remove = MayFail-call _ (λ w. removed-FailsWell _ _ w.fs w)

recover-After :
    {A : Type 0} (h : Errno → Io A)
    → ((n : Errno) → Returns (h n))
    → (r : Result A) (w : World) → After (λ _. Anything) (λ e _. IsOsError e) r w
    → After (λ _. Anything) (λ e _. ⊥) (recover r h w).0 (recover r h w).1
recover-After h handles (ok a) w k = tt
recover-After h handles (err (Exn.os_error n)) w k = (handles n).at w tt
recover-After h handles (err e) w k = k

-- `except OSError` with a handler that returns.
pub Returns-except :
    {A : Type 0} {m : Io A} {h : Errno → Io A}
    → MayFail m
    → ((n : Errno) → Returns (h n))
    → Returns (except_os_error m h)
unfolding except_os_error
Returns-except {m} {h} t handles = record {
  at = λ w k. recover-After h handles (m w).0 (m w).1 (t.at w tt);
}

close_with-After :
    {A : Type 0} (r : Result A) (c : Result (Unit {0})) (w w' w'' : World)
    → After (λ _. Anything) (λ e _. IsOsError e) r w
    → After (λ _. Anything) (λ e _. IsOsError e) c w'
    → After (λ _. Anything) (λ e _. IsOsError e) (close_with r c) w''
close_with-After (ok a) (ok _) w w' w'' h k = tt
close_with-After (err e) (ok _) w w' w'' h k = h
close_with-After r (err e) w w' w'' h k = k

pub MayFail-finally :
    {A : Type 0} {m : Io A} {f : Io (Unit {0})} → MayFail m → MayFail f → MayFail (finally m f)
unfolding finally
MayFail-finally {m} {f} t u = record {
  at = λ w k.
      close_with-After (m w).0 (f (m w).1).0 (m w).1 (f (m w).1).1 (f (m w).1).1 (t.at w tt)
        (u.at (m w).1 tt);
}

-- An action that is known to return does not raise.
pub Triple-Returns :
    {A : Type 0} {P : World → Type 0} {Q : A → World → Type 0} {E E' : Exn → World → Type 0}
    {m : Io A}
    → Triple P m Q E
    → Returns m
    → Triple P m Q E'
Triple-Returns {A} {P} {Q} {E} {E'} {m} k r = record {
  at = λ w h. go (m w).0 (m w).1 (k.at w h) (r.at w tt);
}
  where
    go :
        (x : Result A) (w : World)
        → After Q E x w
        → After (λ _. Anything) (λ e _. ⊥) x w
        → After Q E' x w
    go (ok a) w h _ = h
    go (err e) w h f = absurd f
