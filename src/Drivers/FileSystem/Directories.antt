-- ===== src/Drivers/FileSystem/Directories.antt =====
-- What a directory lists, and the tests on directories.
use ai_storybook_storage_ser.Base.{
  Text, codes, true, ◌≡◌, refl, sym, ◌⊎◌, inl, inr, Option, none, some, List, [], ◌∷◌, ◌++◌, All,
  Lacks, has_char-eq-false, text_eq_iff, arith, Bool-cases,
}
use ai_storybook_storage_ser.Drivers.PosixPath.{FilePath, resolve}
use ai_storybook_storage_ser.Drivers.PosixPath.Laws.{IsPlain}
use ai_storybook_storage_ser.Drivers.FileSystem.{
  child_of, is_name, listed, children, names_of, mtime_of, listdir, getmtime,
}
use ai_storybook_storage_ser.Drivers.FileSystem.Tree.{
  File, Node, file, dir, Fs, node_at, file_at, find, path_eq, path_eq_iff,
}
use ai_storybook_storage_ser.Drivers.FileSystem.Monad.{World}
use ai_storybook_storage_ser.Drivers.FileSystem.Triple.{After, Triple}
use ai_storybook_storage_ser.Drivers.FileSystem.Calls.{On, effect-After}

-- A name that an entry of a directory can have.
abbrev pub IsEntry : Text → Type 0
IsEntry name = IsPlain name × Lacks 47 name

is_name→ : (name : Text) → is_name name ≡ true → IsEntry name
unfolding is_name
is_name→ name h = ground (
  arith,
  text_eq_iff name [],
  text_eq_iff name (codes "."),
  text_eq_iff name (codes ".."),
  has_char-eq-false 47 name,
)

is_name_of_IsEntry : (name : Text) → IsEntry name → is_name name ≡ true
unfolding is_name
is_name_of_IsEntry name h = ground (
  arith,
  text_eq_iff name [],
  text_eq_iff name (codes "."),
  text_eq_iff name (codes ".."),
  has_char-eq-false 47 name,
)

listed-IsEntry :
    (o : Option Text) (names : List Text) → All IsEntry names → All IsEntry (listed o names)
unfolding listed
listed-IsEntry none names h = h
listed-IsEntry (some name) names h = elim (Bool-cases (is_name name)) [
  | inl fine ↦ rw (fine, listed) (is_name→ name fine, h)
  | inr other ↦ rw (other, listed) h
]

pub children-IsEntry : (p : FilePath) (fs : Fs) → All IsEntry (children p fs)
unfolding children
children-IsEntry p [] = tt
children-IsEntry p ((q, n) ∷ fs) =
    listed-IsEntry (child_of p q) (children p fs) (children-IsEntry p fs)

child_of_append : (p : FilePath) (name : Text) → child_of p (p ++ name ∷ []) ≡ some name
unfolding child_of
child_of_append [] name = refl
child_of_append (a ∷ p) name = rw ((text_eq_iff a a).1 refl, child_of_append p name)

-- A member of a list of names.
abbrev pub In : Text → List Text → Type 0
In x [] = ⊥
In x (y ∷ ys) = (x ≡ y) ⊎ In x ys

listed-In : (o : Option Text) (x : Text) (names : List Text) → In x names → In x (listed o names)
unfolding listed
listed-In none x names h = h
listed-In (some name) x names h = elim (Bool-cases (is_name name)) [
  | inl fine ↦ rw (fine, listed) (inr h)
  | inr other ↦ rw (other, listed) h
]

listed-head : (x : Text) (names : List Text) → IsEntry x → In x (listed (some x) names)
unfolding listed
listed-head x names h = rw (is_name_of_IsEntry x h) (inl refl)

find-children :
    (p : FilePath) (name : Text) (fs : Fs) (n : Node)
    → IsEntry name
    → find (p ++ name ∷ []) fs ≡ some n
    → In name (children p fs)
unfolding find children
find-children p name [] n entry h = absurd (ground arith)
find-children p name ((q, m) ∷ fs) n entry h = elim (Bool-cases (path_eq (p ++ name ∷ []) q)) [
  | inl same ↦
      rw (sym ((path_eq_iff (p ++ name ∷ []) q).0 same), child_of_append p name)
        (listed-head name (children p fs) entry)
  | inr other ↦
      let there : find (p ++ name ∷ []) fs ≡ some n = rw (other, find) at h in
      listed-In (child_of p q) name (children p fs) (find-children p name fs n entry there)
]

-- What is there is listed.
pub node_at-children :
    (p : FilePath) (name : Text) (fs : Fs) (n : Node)
    → IsEntry name
    → node_at (p ++ name ∷ []) fs ≡ some n
    → In name (children p fs)
unfolding node_at
node_at-children [] name fs n entry h = find-children [] name fs n entry h
node_at-children (a ∷ p) name fs n entry h = find-children (a ∷ p) name fs n entry h

pub Triple-listdir :
    (cwd path : Text) (P : Fs → Type 0)
    → Triple (On P) (listdir cwd path) (λ names. On (λ fs. P fs × All IsEntry names)) (λ _. On P)
unfolding listdir names_of
Triple-listdir cwd path P = effect-After P _ _ λ w k. go w (node_at (resolve cwd path) w.fs) k
  where
    names : World → List Text
    names w = children (resolve cwd path) w.fs

    go :
        (w : World) (n : Option Node)
        → P w.fs
        → After
            (λ names. On (λ fs. P fs × All IsEntry names))
            (λ _. On P)
            (names_of n (children (resolve cwd path) w.fs) w).0
            (names_of n (children (resolve cwd path) w.fs) w).1
    go w none k = k
    go w (some (file f)) k = k
    go w (some dir) k = (k, children-IsEntry (resolve cwd path) w.fs)

pub Triple-getmtime :
    (cwd path : Text) (P : Fs → Type 0)
    → Triple
        (On P)
        (getmtime cwd path)
        (λ t.
          On (λ fs. P fs × ((f : File) × (file_at (resolve cwd path) fs ≡ some f) × (t ≡ f.mtime))))
        (λ _. On P)
unfolding getmtime mtime_of
Triple-getmtime cwd path P = effect-After P _ _ λ w k. go w (file_at (resolve cwd path) w.fs) refl k
  where
    go :
        (w : World) (o : Option File)
        → file_at (resolve cwd path) w.fs ≡ o
        → P w.fs
        → After
            (λ t. On (λ fs.
              P fs × ((f : File) × (file_at (resolve cwd path) fs ≡ some f) × (t ≡ f.mtime))))
            (λ _. On P)
            (mtime_of o w).0
            (mtime_of o w).1
    go w none e k = k
    go w (some f) e k = (k, (f, e, refl))
