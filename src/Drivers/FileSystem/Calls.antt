-- ===== src/Drivers/FileSystem/Calls.antt =====
-- What each call does to the files: the file that it names, and all others stay.
use ai_storybook_storage_ser.Base.{
  ℕ, Text, true, false, ◌≡◌, ◌≢◌, refl, sym, ap, subst, ◌∙◌, Option, none, some, List, [], ◌∷◌,
  ◌++◌, arith, Option-cases, inl, inr, ◌⊎◌,
}
use ai_storybook_storage_ser.Errors.{Result, ok, err, Result-cases, Exn}
use ai_storybook_storage_ser.Drivers.PosixPath.{FilePath, resolve}
use ai_storybook_storage_ser.Drivers.FileSystem.{
  make_dirs, check_parent, check_no_dir, both, commit, answered, appended, moved, removed,
  content_of, flush, fsync, close, create, write, makedirs, rename, remove, read_all, path_exists,
  is_file, stat, stat_of,
}
use ai_storybook_storage_ser.Drivers.FileSystem.Tree.{
  Bytes, File, Node, file, dir, Fs, node_at, file_at, set_node, drop_node, path_eq, path_eq_iff,
  file_at-set_file, file_at-drop_node, node_at-drop_node, file_at-set_dir,
}
use ai_storybook_storage_ser.Drivers.FileSystem.Monad.{
  World, Io, attempt, next_fault, tail_of, ◌>>◌, ◌>>=◌,
}
use ai_storybook_storage_ser.Drivers.FileSystem.Triple.{After, Triple, Keeps, Triple-bind}

-- A statement about the tree alone.
abbrev pub On : (Fs → Type 0) → World → Type 0
On P w = P w.fs

pub Keeps-attempt : (P : Fs → Type 0) → Keeps (On P) attempt
unfolding attempt
Keeps-attempt P = record { at = λ w h. kept w (next_fault w.faults) h }
  where
    kept :
        (w : World) (r : Result (Unit {0}))
        → P w.fs
        → After (λ _. On P) (λ _. On P) r (record w { faults = tail_of w.faults })
    kept w (ok _) h = h
    kept w (err _) h = h

pub Keeps-flush : (P : Fs → Type 0) → Keeps (On P) flush
unfolding flush
Keeps-flush P = Keeps-attempt P

pub Keeps-fsync : (P : Fs → Type 0) → Keeps (On P) fsync
unfolding fsync
Keeps-fsync P = Keeps-attempt P

pub Keeps-close : (P : Fs → Type 0) → Keeps (On P) close
unfolding close
Keeps-close P = Keeps-attempt P

-- A call is an attempt and then its effect.
pub effect-After :
    {A : Type 0} (P : Fs → Type 0) (Q : A → World → Type 0) (act : Io A)
    → ((w : World) → P w.fs → After Q (λ _. On P) (act w).0 (act w).1)
    → Triple (On P) (attempt >> act) Q (λ _. On P)
effect-After P Q act h = Triple-bind (λ _. On P) (Keeps-attempt P) (λ _. record { at = h })

commit-After :
    (P : Fs → Type 0) (Q : World → Type 0) (r : Result (Unit {0})) (fs : Fs) (w : World)
    → (r ≡ ok tt → Q (record w { fs = fs }))
    → P w.fs
    → After (λ _. Q) (λ _. On P) (commit r fs w).0 (commit r fs w).1
commit-After P Q (ok _) fs w h k = h refl
commit-After P Q (err e) fs w h k = k

-- A place at which a file can be put is not the root.
check_no_dir-ne-nil : (p : FilePath) (fs : Fs) → check_no_dir p fs ≡ ok tt → p ≢ []
unfolding check_no_dir node_at
check_no_dir-ne-nil [] fs h = cc
check_no_dir-ne-nil (name ∷ names) fs h = λ e. cc

both_second : (r s : Result (Unit {0})) → both r s ≡ ok tt → s ≡ ok tt
both_second (ok _) s h = h
both_second (err e) s h = cc

pub set_file_self :
    (p : FilePath) (f : File) (fs : Fs) → p ≢ [] → file_at p (set_node p (file f) fs) ≡ some f
set_file_self p f fs ne = file_at-set_file p p f fs ne ∙ rw ((path_eq_iff p p).1 refl)

path_eq-false : (p q : FilePath) → p ≢ q → path_eq p q ≡ false
path_eq-false p q ne = ground (arith, path_eq_iff p q)

pub set_file-other :
    (p q : FilePath) (f : File) (fs : Fs)
    → p ≢ []
    → p ≢ q
    → file_at q (set_node p (file f) fs) ≡ file_at q fs
set_file-other p q f fs ne other = file_at-set_file p q f fs ne ∙ rw (path_eq-false p q other)

pub drop_node-other :
    (p q : FilePath) (fs : Fs) → p ≢ [] → p ≢ q → file_at q (drop_node p fs) ≡ file_at q fs
drop_node-other p q fs ne other = file_at-drop_node p q fs ne ∙ rw (path_eq-false p q other)

pub drop_node-other_node :
    (p q : FilePath) (fs : Fs) → p ≢ [] → p ≢ q → node_at q (drop_node p fs) ≡ node_at q fs
drop_node-other_node p q fs ne other = node_at-drop_node p q fs ne ∙ rw (path_eq-false p q other)

pub drop_node_self_node : (p : FilePath) (fs : Fs) → p ≢ [] → node_at p (drop_node p fs) ≡ none
drop_node_self_node p fs ne = node_at-drop_node p p fs ne ∙ rw ((path_eq_iff p p).1 refl)

pub append-cons-ne-nil : (here : FilePath) (name : Text) → here ++ name ∷ [] ≢ []
append-cons-ne-nil [] name = λ h. cc
append-cons-ne-nil (p ∷ here) name = λ h. cc

pub Node-cases :
    (n : Option Node) → (n ≡ none) ⊎ ((n ≡ some dir) ⊎ ((f : File) × (n ≡ some (file f))))
Node-cases none = inl refl
Node-cases (some dir) = inr (inl refl)
Node-cases (some (file f)) = inr (inr (f, refl))

pub drop_node_self : (p : FilePath) (fs : Fs) → p ≢ [] → file_at p (drop_node p fs) ≡ none
drop_node_self p fs ne = file_at-drop_node p p fs ne ∙ rw ((path_eq_iff p p).1 refl)

-- New directories hide no file.
pub file_at-make_dirs :
    (q here : FilePath) (names : List Text) (fs : Fs)
    → file_at q (make_dirs here names fs).1 ≡ file_at q fs
unfolding make_dirs file_at
file_at-make_dirs q here [] fs = refl
file_at-make_dirs q here (name ∷ names) fs =
    let next = here ++ name ∷ [] in
    elim (Node-cases (node_at next fs)) [
      | inl absent ↦
          rw (absent, make_dirs)
            (file_at-make_dirs q next names (set_node next dir fs)
              ∙ file_at-set_dir next q fs (append-cons-ne-nil here name) absent)
      | inr (inl there) ↦ rw (there, make_dirs) (file_at-make_dirs q next names fs)
      | inr (inr (f, in_the_way)) ↦ rw (in_the_way, make_dirs)
    ]

pub file_at-node_at :
    (p : FilePath) (fs : Fs) (f : File) → node_at p fs ≡ some (file f) → file_at p fs ≡ some f
unfolding file_at
file_at-node_at p fs f h = rw (h, file_at)

pub node_at_of_file_at :
    (p : FilePath) (fs : Fs) (f : File) → file_at p fs ≡ some f → node_at p fs ≡ some (file f)
unfolding file_at
node_at_of_file_at p fs f h = elim (Node-cases (node_at p fs)) [
  | inl absent ↦ absurd (by_none absent h)
  | inr (inl there) ↦ absurd (by_dir there h)
  | inr (inr (g, there)) ↦ there ∙ ap (λ (x : File). some (file x)) (same g there)
]
  where
    by_none : node_at p fs ≡ none → file_at p fs ≢ some f
    by_none e = rw (e, file_at) (λ k. cc)

    by_dir : node_at p fs ≡ some dir → file_at p fs ≢ some f
    by_dir e = rw (e, file_at) (λ k. cc)

    same : (g : File) → node_at p fs ≡ some (file g) → g ≡ f
    same g e = let k : some g ≡ some f = rw (e, file_at) at h in cc

pub path_exists-file :
    (cwd path : Text) (w : World) (f : File)
    → file_at (resolve cwd path) w.fs ≡ some f
    → next_fault w.faults ≡ ok tt
    → path_exists cwd path w ≡ (ok true, record w { faults = tail_of w.faults })
unfolding path_exists answered
path_exists-file cwd path w f h works =
    rw (works, node_at_of_file_at (resolve cwd path) w.fs f h) refl

pub is_file-file :
    (cwd path : Text) (w : World) (f : File)
    → file_at (resolve cwd path) w.fs ≡ some f
    → ((e : Exn) × (next_fault w.faults ≡ err e)
        × (is_file cwd path w ≡ (ok false, record w { faults = tail_of w.faults })))
      ⊎ (is_file cwd path w ≡ (ok true, record w { faults = tail_of w.faults }))
unfolding is_file answered
is_file-file cwd path w f h = elim (Result-cases (next_fault w.faults)) [
  | inl (u, works) ↦ inr (rw (works, h) refl)
  | inr (e, failed) ↦ inl (e, failed, rw failed refl)
]

-- Opening and reading a file that is there.
pub read_all-file :
    (cwd path : Text) (w : World) (f : File)
    → file_at (resolve cwd path) w.fs ≡ some f
    → ((e : Exn) × (next_fault w.faults ≡ err e) × ((read_all cwd path w).0 ≡ err e))
      ⊎ ((next_fault w.faults ≡ ok tt)
          × (read_all cwd path w ≡ (ok f.content, record w { faults = tail_of w.faults })))
unfolding read_all attempt ◌>>=◌
read_all-file cwd path w f h = elim (Result-cases (next_fault w.faults)) [
  | inl (u, works) ↦ inr (works, rw (works, node_at_of_file_at (resolve cwd path) w.fs f h) refl)
  | inr (e, failed) ↦ inl (e, failed, rw failed refl)
]

pub ne_nil_of_file : (p : FilePath) (fs : Fs) (f : File) → node_at p fs ≡ some (file f) → p ≢ []
unfolding node_at
ne_nil_of_file [] fs f h = ground arith
ne_nil_of_file (name ∷ names) fs f h = λ e. cc

pub ne_nil_of_file_at : (p : FilePath) (fs : Fs) (f : File) → file_at p fs ≡ some f → p ≢ []
unfolding file_at node_at
ne_nil_of_file_at [] fs f h = cc
ne_nil_of_file_at (name ∷ names) fs f h = λ e. cc

-- A write adds to the file that it names, and to no other.
pub appended_self :
    (p : FilePath) (fs : Fs) (chunk : Bytes) (t : ℕ) (f : File)
    → file_at p fs ≡ some f
    → file_at p (appended (file_at p fs) chunk p t fs)
      ≡ some (record { content = f.content ++ chunk; mtime = t })
unfolding appended
appended_self p fs chunk t f h = rw h (set_file_self p _ fs (ne_nil_of_file_at p fs f h))

pub appended-other :
    (p q : FilePath) (fs : Fs) (chunk : Bytes) (t : ℕ)
    → p ≢ q
    → file_at q (appended (file_at p fs) chunk p t fs) ≡ file_at q fs
unfolding appended
appended-other p q fs chunk t ne = elim (Option-cases (file_at p fs)) [
  | inl absent ↦ rw absent
  | inr (f, h) ↦ rw h (set_file-other p q _ fs (ne_nil_of_file_at p fs f h) ne)
]

-- Each call by its effect on the tree: a statement `P` that held before still holds if the call
-- raises, and `Q` holds after it if the effect takes `P` to `Q`.
module _ (cwd path : Text) (P Q : Fs → Type 0) where
  abbrev place : FilePath
  place = resolve cwd path

  pub Triple-create :
      ((fs : Fs) (t : ℕ)
        → P fs
        → place ≢ []
        → Q (set_node place (file (record { content = []; mtime = t })) fs))
      → Triple (On P) (create cwd path) (λ _. On Q) (λ _. On P)
  unfolding create
  Triple-create h =
      effect-After P (λ _. On Q) _
        λ w k.
          commit-After P (On Q) (both (check_parent place w.fs) (check_no_dir place w.fs)) _ w
            (λ e. h w.fs w.now k (
              check_no_dir-ne-nil place w.fs
                (both_second (check_parent place w.fs) (check_no_dir place w.fs) e)))
            k

  pub Triple-write :
      (chunk : Bytes)
      → ((fs : Fs) (t : ℕ) → P fs → Q (appended (file_at place fs) chunk place t fs))
      → Triple (On P) (write cwd path chunk) (λ _. On Q) (λ _. On P)
  unfolding write
  Triple-write chunk h = effect-After P (λ _. On Q) _ λ w k. h w.fs w.now k

  pub Triple-remove :
      ((fs : Fs) (f : File)
        → P fs
        → file_at place fs ≡ some f
        → place ≢ []
        → Q (drop_node place fs))
      → Triple (On P) (remove cwd path) (λ _. On Q) (λ _. On P)
  unfolding remove
  Triple-remove h = effect-After P (λ _. On Q) _ λ w k. go w (node_at place w.fs) refl k
    where
      go :
          (w : World) (n : Option Node)
          → node_at place w.fs ≡ n
          → P w.fs
          → After (λ _. On Q) (λ _. On P) (removed n place w.fs w).0 (removed n place w.fs w).1
      go w none e k = k
      go w (some dir) e k = k
      go w (some (file f)) e k =
          h w.fs f k (file_at-node_at place w.fs f e) (ne_nil_of_file place w.fs f e)

  pub Triple-rename :
      (dst : Text)
      → ((fs : Fs) (f : File)
          → P fs
          → file_at place fs ≡ some f
          → place ≢ []
          → resolve cwd dst ≢ []
          → Q (set_node (resolve cwd dst) (file f) (drop_node place fs)))
      → Triple (On P) (rename cwd path dst) (λ _. On Q) (λ _. On P)
  unfolding rename
  Triple-rename dst h = effect-After P (λ _. On Q) _ λ w k. go w (node_at place w.fs) refl k
    where
      target : FilePath
      target = resolve cwd dst

      go :
          (w : World) (n : Option Node)
          → node_at place w.fs ≡ n
          → P w.fs
          → After
              (λ _. On Q)
              (λ _. On P)
              (moved n place target w.fs w).0
              (moved n place target w.fs w).1
      go w none e k = k
      go w (some dir) e k = k
      go w (some (file f)) e k =
          commit-After P (On Q) (both (check_parent target w.fs) (check_no_dir target w.fs)) _ w
            (λ passed. h w.fs f k (file_at-node_at place w.fs f e) (ne_nil_of_file place w.fs f e) (
              check_no_dir-ne-nil target w.fs
                (both_second (check_parent target w.fs) (check_no_dir target w.fs) passed)))
            k

module _ (cwd path : Text) (P : Fs → Type 0) where
  pub Keeps-makedirs :
      ((fs : Fs) (names : List Text) → P fs → P (make_dirs [] names fs).1)
      → Keeps (On P) (makedirs cwd path)
  unfolding makedirs
  Keeps-makedirs h =
      effect-After P (λ _. On P) _
        λ w k. go w (make_dirs [] (resolve cwd path) w.fs) (h w.fs (resolve cwd path) k)
    where
      go :
          (w : World) (r : Result (Unit {0}) × Fs)
          → P r.1
          → After (λ _. On P) (λ _. On P) r.0 (record w { fs = r.1 })
      go w (ok _, fs) k = k
      go w (err e, fs) k = k

  pub Keeps-read_all : Keeps (On P) (read_all cwd path)
  unfolding read_all
  Keeps-read_all = effect-After P (λ _. On P) _ λ w k. go w (node_at (resolve cwd path) w.fs) k
    where
      go :
          (w : World) (n : Option Node)
          → P w.fs
          → After (λ _. On P) (λ _. On P) (content_of n w).0 (content_of n w).1
      go w none k = k
      go w (some dir) k = k
      go w (some (file f)) k = k

  Keeps-stat_of : (n : Option Node) → Keeps (On P) (stat_of n)
  unfolding stat_of
  Keeps-stat_of none = record { at = λ w k. k }
  Keeps-stat_of (some n) = record { at = λ w k. k }

  pub Keeps-stat : Keeps (On P) (stat cwd path)
  unfolding stat
  Keeps-stat =
      effect-After P (λ _. On P) _ λ w k. (Keeps-stat_of (node_at (resolve cwd path) w.fs)).at w k

  pub Keeps-path_exists : Keeps (On P) (path_exists cwd path)
  unfolding path_exists
  Keeps-path_exists = record { at = λ w k. k }

  pub Keeps-is_file : Keeps (On P) (is_file cwd path)
  unfolding is_file
  Keeps-is_file = record { at = λ w k. k }

-- An action that never changes the file at a place keeps every statement about that file.
module _ (q : FilePath) (R : Option File → Type 0) {A : Type 0} where
  view-After :
      (o : Option File) (r : Result A) (w : World)
      → R o
      → After (λ _. On (λ fs. file_at q fs ≡ o)) (λ _. On (λ fs. file_at q fs ≡ o)) r w
      → After (λ _. On (λ fs. R (file_at q fs))) (λ _. On (λ fs. R (file_at q fs))) r w
  view-After o (ok a) w h e = subst R (sym e) h
  view-After o (err x) w h e = subst R (sym e) h

  pub Keeps-view :
      {m : Io A}
      → ((o : Option File) → Keeps (On (λ fs. file_at q fs ≡ o)) m)
      → Keeps (On (λ fs. R (file_at q fs))) m
  Keeps-view {m} k = record {
    at = λ w h. view-After (file_at q w.fs) (m w).0 (m w).1 h ((k (file_at q w.fs)).at w refl);
  }
