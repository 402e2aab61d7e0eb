-- ===== src/Drivers/FileSystem/Tree.antt =====
-- Directories and files by place.
use ai_storybook_storage_ser.Base.{
  ℕ, Bool, true, false, ◌&&◌, Option, none, some, List, [], ◌∷◌, ◌≡◌, refl, ◌↔◌, ◌≢◌, text_eq,
  text_eq_iff, if◌then◌else◌, arith, Bool-cases, inl, inr,
}
use ai_storybook_storage_ser.Drivers.PosixPath.{FilePath}

abbrev pub Bytes : Type 0
Bytes = List ℕ

pub record File : Type 0 where
  pub content : Bytes
  pub mtime : ℕ

pub data Node : Type 0 where
  file : File → Node
  dir : Node

abbrev pub Fs : Type 0
Fs = List (FilePath × Node)

unfoldable pub path_eq : FilePath → FilePath → Bool
path_eq [] [] = true
path_eq (a ∷ p) (b ∷ q) = text_eq a b && path_eq p q
path_eq _ _ = false

pub path_eq_iff : (p q : FilePath) → (path_eq p q ≡ true) ↔ (p ≡ q)
unfolding path_eq
path_eq_iff [] [] = (λ _. refl, λ _. refl)
path_eq_iff [] (b ∷ q) = (λ h. cc, λ h. cc)
path_eq_iff (a ∷ p) [] = (λ h. cc, λ h. cc)
path_eq_iff (a ∷ p) (b ∷ q) = ground (arith, text_eq_iff a b, path_eq_iff p q)

unfoldable pub find : FilePath → Fs → Option Node
find p [] = none
find p ((q, n) ∷ fs) = if path_eq p q then some n else find p fs

-- The root is a directory.
unfoldable pub node_at : FilePath → Fs → Option Node
unfolding find
node_at [] fs = some dir
node_at (name ∷ names) fs = find (name ∷ names) fs

unfoldable pub drop_node : FilePath → Fs → Fs
drop_node p [] = []
drop_node p ((q, n) ∷ fs) = let rest = drop_node p fs in if path_eq p q then rest else (q, n) ∷ rest

unfoldable pub set_node : FilePath → Node → Fs → Fs
unfolding drop_node
set_node p n fs = (p, n) ∷ drop_node p fs

-- The directory that a place stands in.
unfoldable pub parent : FilePath → FilePath
parent [] = []
parent (name ∷ []) = []
parent (name ∷ next ∷ names) = name ∷ parent (next ∷ names)

-- The file at a place. The directories are not part of this view.
unfoldable pub file_at : FilePath → Fs → Option File
unfolding node_at
file_at p fs = elim (node_at p fs) [ some (file f) ↦ some f | some dir ↦ none | none ↦ none ]

find-drop_node :
    (p q : FilePath) (fs : Fs) → find q (drop_node p fs) ≡ (if path_eq p q then none else find q fs)
unfolding find drop_node
find-drop_node p q [] = ground arith
find-drop_node p q ((r, n) ∷ fs) =
    ground (arith, find-drop_node p q fs, path_eq_iff p r, path_eq_iff q r, path_eq_iff p q)

pub node_at-drop_node :
    (p q : FilePath) (fs : Fs)
    → p ≢ []
    → node_at q (drop_node p fs) ≡ (if path_eq p q then none else node_at q fs)
unfolding node_at
node_at-drop_node p [] fs ne = ground (arith, path_eq_iff p [])
node_at-drop_node p (b ∷ q) fs ne = find-drop_node p (b ∷ q) fs

pub node_at-set_node :
    (p q : FilePath) (n : Node) (fs : Fs)
    → p ≢ []
    → node_at q (set_node p n fs) ≡ (if path_eq p q then some n else node_at q fs)
unfolding node_at set_node
node_at-set_node p [] n fs ne = ground (arith, path_eq_iff p [])
node_at-set_node p (b ∷ q) n fs ne =
    ground (arith, find-drop_node p (b ∷ q) fs, path_eq_iff p (b ∷ q), path_eq_iff (b ∷ q) p)

-- What the two writes do to the view of the files.
pub file_at-set_file :
    (p q : FilePath) (f : File) (fs : Fs)
    → p ≢ []
    → file_at q (set_node p (file f) fs) ≡ (if path_eq p q then some f else file_at q fs)
unfolding file_at
file_at-set_file p q f fs ne =
    rw (node_at-set_node p q (file f) fs ne, file_at)
      (elim (Bool-cases (path_eq p q)) [ inl same ↦ rw same | inr other ↦ rw other ])

pub file_at-drop_node :
    (p q : FilePath) (fs : Fs)
    → p ≢ []
    → file_at q (drop_node p fs) ≡ (if path_eq p q then none else file_at q fs)
unfolding file_at
file_at-drop_node p q fs ne =
    rw (node_at-drop_node p q fs ne, file_at)
      (elim (Bool-cases (path_eq p q)) [ inl same ↦ rw same | inr other ↦ rw other ])

-- A new directory is no file.
pub file_at-set_dir :
    (p q : FilePath) (fs : Fs)
    → p ≢ []
    → node_at p fs ≡ none
    → file_at q (set_node p dir fs) ≡ file_at q fs
unfolding file_at
file_at-set_dir p q fs ne absent =
    rw (node_at-set_node p q dir fs ne, file_at)
      (elim (Bool-cases (path_eq p q)) [
        | inl same ↦ rw (same, ← (path_eq_iff p q).0 same) (rw (absent, file_at))
        | inr other ↦ rw other
      ])
