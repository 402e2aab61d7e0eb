-- ===== src/Drivers/FileSystem/MakeDirs.antt =====
-- `os.makedirs`: nothing is lost, and what it returns for is a directory.
use ai_storybook_storage_ser.Base.{
  Text, ◌≡◌, ◌≢◌, refl, sym, ap, subst, ◌∙◌, inl, inr, none, some, List, [], ◌∷◌, ◌++◌,
  append_assoc, append-nil, Bool-cases,
}
use ai_storybook_storage_ser.Errors.{Result, ok, err}
use ai_storybook_storage_ser.Drivers.PosixPath.{FilePath, resolve}
use ai_storybook_storage_ser.Drivers.FileSystem.{make_dirs, makedirs}
use ai_storybook_storage_ser.Drivers.FileSystem.Tree.{
  File, Node, file, dir, Fs, node_at, set_node, path_eq, path_eq_iff, node_at-set_node,
}
use ai_storybook_storage_ser.Drivers.FileSystem.Monad.{World, attempt, next_fault, ◌>>=◌}
use ai_storybook_storage_ser.Drivers.FileSystem.Triple.{After, Triple}
use ai_storybook_storage_ser.Drivers.FileSystem.Calls.{
  On, effect-After, Node-cases, append-cons-ne-nil,
}

-- All that was there is there and as it was.
abbrev pub Extends : Fs → Fs → Type 0
Extends fs fs' = (q : FilePath) (n : Node) → node_at q fs ≡ some n → node_at q fs' ≡ some n

set_dir-Extends :
    (p : FilePath) (fs : Fs) → p ≢ [] → node_at p fs ≡ none → Extends fs (set_node p dir fs)
set_dir-Extends p fs ne absent q n there =
    node_at-set_node p q dir fs ne ∙ elim (Bool-cases (path_eq p q)) [
      | inl same ↦
          absurd
            (clash (sym (ap (λ (x : FilePath). node_at x fs) ((path_eq_iff p q).0 same)) ∙ absent))
      | inr other ↦ rw other there
    ]
  where
    clash : node_at q fs ≡ none → ⊥
    clash e = let k : some n ≡ none = sym there ∙ e in cc

set_dir_self : (p : FilePath) (fs : Fs) → p ≢ [] → node_at p (set_node p dir fs) ≡ some dir
set_dir_self p fs ne = node_at-set_node p p dir fs ne ∙ rw ((path_eq_iff p p).1 refl)

pub make_dirs-Extends :
    (here : FilePath) (names : List Text) (fs : Fs) → Extends fs (make_dirs here names fs).1
unfolding make_dirs
make_dirs-Extends here [] fs = λ q n there. there
make_dirs-Extends here (name ∷ names) fs =
    let next = here ++ name ∷ [] in
    elim (Node-cases (node_at next fs)) [
      | inl absent ↦
          rw (absent, make_dirs)
            (λ q n there.
              make_dirs-Extends next names (set_node next dir fs) q n
                (set_dir-Extends next fs (append-cons-ne-nil here name) absent q n there))
      | inr (inl there) ↦ rw (there, make_dirs) (make_dirs-Extends next names fs)
      | inr (inr (f, in_the_way)) ↦ rw (in_the_way, make_dirs) (λ q n there. there)
    ]

pub make_dirs-dir :
    (here : FilePath) (names : List Text) (fs : Fs)
    → node_at here fs ≡ some dir
    → (make_dirs here names fs).0 ≡ ok tt
    → node_at (here ++ names) (make_dirs here names fs).1 ≡ some dir
unfolding make_dirs
make_dirs-dir here [] fs there =
    λ passed. ap (λ (q : FilePath). node_at q fs) (append-nil here) ∙ there
make_dirs-dir here (name ∷ names) fs there =
    let next = here ++ name ∷ [] in
    subst
      (λ (q : FilePath).
        (make_dirs here (name ∷ names) fs).0 ≡ ok tt
        → node_at q (make_dirs here (name ∷ names) fs).1 ≡ some dir)
      (append_assoc here (name ∷ []) names)
      (elim (Node-cases (node_at next fs)) [
        | inl absent ↦
            rw (absent, make_dirs)
              (make_dirs-dir next names (set_node next dir fs)
                (set_dir_self next fs (append-cons-ne-nil here name)))
        | inr (inl is_dir) ↦ rw (is_dir, make_dirs) (make_dirs-dir next names fs is_dir)
        | inr (inr (f, in_the_way)) ↦ rw (in_the_way, make_dirs) (λ h. cc)
      ])

-- No file stands on the way down from `here`.
abbrev pub IsClear : FilePath → List Text → Fs → Type 0
IsClear here [] fs = Unit
IsClear here (name ∷ names) fs =
    ((f : File) → node_at (here ++ name ∷ []) fs ≢ some (file f))
    × IsClear (here ++ name ∷ []) names fs

set_dir-IsClear :
    (p here : FilePath) (names : List Text) (fs : Fs)
    → p ≢ []
    → IsClear here names fs
    → IsClear here names (set_node p dir fs)
set_dir-IsClear p here [] fs ne _ = tt
set_dir-IsClear p here (name ∷ names) fs ne (h, hs) = (first, set_dir-IsClear p next names fs ne hs)
  where
    next : FilePath
    next = here ++ name ∷ []

    first : (f : File) → node_at next (set_node p dir fs) ≢ some (file f)
    first f = rw (node_at-set_node p next dir fs ne) (elim (Bool-cases (path_eq p next)) [
      | inl same ↦ rw same (λ e. cc)
      | inr other ↦ rw other (h f)
    ])

pub make_dirs-ok :
    (here : FilePath) (names : List Text) (fs : Fs)
    → IsClear here names fs
    → (make_dirs here names fs).0 ≡ ok tt
unfolding make_dirs
make_dirs-ok here [] fs _ = refl
make_dirs-ok here (name ∷ names) fs (h, hs) =
    let next = here ++ name ∷ [] in
    elim (Node-cases (node_at next fs)) [
      | inl absent ↦
          rw (absent, make_dirs)
            (make_dirs-ok next names (set_node next dir fs)
              (set_dir-IsClear next next names fs (append-cons-ne-nil here name) hs))
      | inr (inl is_dir) ↦ rw (is_dir, make_dirs) (make_dirs-ok next names fs hs)
      | inr (inr (f, in_the_way)) ↦ absurd (h f in_the_way)
    ]

-- No place on the way down from `here` is `p`.
abbrev pub IsApart : FilePath → FilePath → List Text → Type 0
IsApart p here names = (front rest : List Text) → names ≡ front ++ rest → here ++ front ≢ p

IsApart-next :
    (p here : FilePath) (name : Text) (names : List Text)
    → IsApart p here (name ∷ names)
    → (here ++ name ∷ [] ≢ p) × IsApart p (here ++ name ∷ []) names
IsApart-next p here name names apart = (
  apart (name ∷ []) names refl,
  λ front rest e h.
      apart (name ∷ front) rest (ap (λ (t : List Text). name ∷ t) e)
        (sym (append_assoc here (name ∷ []) front) ∙ h),
)

-- A file elsewhere does not get in the way.
pub set_file-IsClear :
    (p here : FilePath) (names : List Text) (f : File) (fs : Fs)
    → p ≢ []
    → IsApart p here names
    → IsClear here names fs
    → IsClear here names (set_node p (file f) fs)
set_file-IsClear p here [] f fs ne apart _ = tt
set_file-IsClear p here (name ∷ names) f fs ne apart (h, hs) =
    let (elsewhere, further) = IsApart-next p here name names apart in
    (first elsewhere, set_file-IsClear p next names f fs ne further hs)
  where
    next : FilePath
    next = here ++ name ∷ []

    first : next ≢ p → (g : File) → node_at next (set_node p (file f) fs) ≢ some (file g)
    first elsewhere g =
        rw (node_at-set_node p next (file f) fs ne) (elim (Bool-cases (path_eq p next)) [
          | inl same ↦ absurd (elsewhere (sym ((path_eq_iff p next).0 same)))
          | inr other ↦ rw other (h g)
        ])

-- Only places on the way change.
pub make_dirs-apart :
    (q here : FilePath) (names : List Text) (fs : Fs)
    → IsApart q here names
    → node_at q (make_dirs here names fs).1 ≡ node_at q fs
unfolding make_dirs
make_dirs-apart q here [] fs apart = refl
make_dirs-apart q here (name ∷ names) fs apart =
    let next = here ++ name ∷ [] in
    let (elsewhere, further) = IsApart-next q here name names apart in
    elim (Node-cases (node_at next fs)) [
      | inl absent ↦
          rw (absent, make_dirs)
            (make_dirs-apart q next names (set_node next dir fs) further
              ∙ node_at-set_node next q dir fs (append-cons-ne-nil here name)
              ∙ elim (Bool-cases (path_eq next q)) [
                | inl same ↦ absurd (elsewhere ((path_eq_iff next q).0 same))
                | inr other ↦ rw other refl
              ])
      | inr (inl is_dir) ↦ rw (is_dir, make_dirs) (make_dirs-apart q next names fs further)
      | inr (inr (f, in_the_way)) ↦ rw (in_the_way, make_dirs) refl
    ]

-- What is clear, by the places on the way.
pub IsClear-of :
    (here : FilePath) (names : List Text) (fs : Fs)
    → ((front rest : List Text) (f : File)
        → names ≡ front ++ rest
        → node_at (here ++ front) fs ≢ some (file f))
    → IsClear here names fs
IsClear-of here [] fs h = tt
IsClear-of here (name ∷ names) fs h = (
  λ f. h (name ∷ []) names f refl,
  IsClear-of (here ++ name ∷ []) names fs λ front rest f e k.
      h (name ∷ front) rest f (ap (λ (t : List Text). name ∷ t) e)
        (ap (λ (q : FilePath). node_at q fs) (sym (append_assoc here (name ∷ []) front)) ∙ k),
)

module _ (cwd path : Text) where
  -- What an extension of the tree keeps is kept, and if the call returns the path is a directory.
  pub Triple-makedirs :
      (P : Fs → Type 0)
      → ((fs fs' : Fs) → Extends fs fs' → P fs → P fs')
      → Triple
          (On P)
          (makedirs cwd path)
          (λ _. On (λ fs. P fs × (node_at (resolve cwd path) fs ≡ some dir)))
          (λ _. On P)
  unfolding makedirs node_at
  Triple-makedirs P grows = effect-After P _ _ λ w k.
      let place = resolve cwd path in
      go w (make_dirs [] place w.fs) (grows w.fs _ (make_dirs-Extends [] place w.fs) k)
        (make_dirs-dir [] place w.fs refl)
    where
      go :
          (w : World) (r : Result (Unit {0}) × Fs)
          → P r.1
          → (r.0 ≡ ok tt → node_at (resolve cwd path) r.1 ≡ some dir)
          → After
              (λ _. On (λ fs. P fs × (node_at (resolve cwd path) fs ≡ some dir)))
              (λ _. On P)
              r.0
              (record w { fs = r.1 })
      go w (ok _, fs) k there = (k, there refl)
      go w (err e, fs) k there = k

  pub makedirs-healthy :
      (w : World)
      → w.faults ≡ []
      → IsClear [] (resolve cwd path) w.fs
      → makedirs cwd path w
        ≡ (ok tt, record w { fs = (make_dirs [] (resolve cwd path) w.fs).1; faults = [] })
  unfolding makedirs attempt next_fault ◌>>=◌
  makedirs-healthy w healthy clear =
      rw (healthy, make_dirs-ok [] (resolve cwd path) w.fs clear) refl
