-- ===== src/Drivers/LocalFs/Sorting.antt =====
-- The order of the keys in `list` of src/drivers/local_fs.py, and what stands behind a cursor.
use ai_storybook_storage_ser.Base.{
  suc, Text, true, false, ◌≡◌, ◌≢◌, refl, ap, ◌∙◌, inl, inr, ◌↔◌, List, [], ◌∷◌, ◌++◌, All,
  All-weaken, length, arith, Bool-cases,
}
use ai_storybook_storage_ser.Drivers.FileSystem.Directories.{In}
use ai_storybook_storage_ser.Drivers.LocalFs.Listing.{text_lt, insert, sort, after_cursor}

text_lt_irrefl : (s : Text) → text_lt s s ≡ false
unfolding text_lt
text_lt_irrefl [] = refl
text_lt_irrefl (a ∷ s) = ground (arith, text_lt_irrefl s)

text_lt_trans : (r s t : Text) → text_lt r s ≡ true → text_lt s t ≡ true → text_lt r t ≡ true
unfolding text_lt
text_lt_trans [] [] t h k = cc
text_lt_trans [] (b ∷ s) [] h k = cc
text_lt_trans [] (b ∷ s) (c ∷ t) h k = refl
text_lt_trans (a ∷ r) [] t h k = cc
text_lt_trans (a ∷ r) (b ∷ s) [] h k = cc
text_lt_trans (a ∷ r) (b ∷ s) (c ∷ t) h k = ground (arith, text_lt_trans r s t)

text_lt_total : (s t : Text) → text_lt t s ≡ false → s ≢ t → text_lt s t ≡ true
unfolding text_lt
text_lt_total [] [] h ne = absurd (ne refl)
text_lt_total [] (b ∷ t) h ne = refl
text_lt_total (a ∷ s) [] h ne = cc
text_lt_total (a ∷ s) (b ∷ t) h ne = ground (arith, text_lt_total s t)

-- Strictly ascending.
abbrev pub IsAscending : List Text → Type 0
IsAscending [] = Unit
IsAscending (k ∷ ks) = All (λ j. text_lt k j ≡ true) ks × IsAscending ks

abbrev pub IsDistinct : List Text → Type 0
IsDistinct [] = Unit
IsDistinct (k ∷ ks) = All (λ j. k ≢ j) ks × IsDistinct ks

All-insert : (P : Text → Type 0) (k : Text) (ks : List Text) → P k → All P ks → All P (insert k ks)
unfolding insert
All-insert P k [] h _ = (h, tt)
All-insert P k (j ∷ ks) h (p, ps) = elim (Bool-cases (text_lt j k)) [
  | inl lower ↦ rw lower (p, All-insert P k ks h ps)
  | inr higher ↦ rw higher (h, (p, ps))
]

pub All-sort : (P : Text → Type 0) (ks : List Text) → All P ks → All P (sort ks)
unfolding sort
All-sort P [] _ = tt
All-sort P (k ∷ ks) (h, hs) = All-insert P k (sort ks) h (All-sort P ks hs)

insert-IsAscending :
    (k : Text) (ks : List Text) → IsAscending ks → All (λ j. k ≢ j) ks → IsAscending (insert k ks)
unfolding insert
insert-IsAscending k [] _ _ = (tt, tt)
insert-IsAscending k (j ∷ ks) (above, up) (ne, nes) = elim (Bool-cases (text_lt j k)) [
  | inl lower ↦
      rw lower
        (All-insert (λ x. text_lt j x ≡ true) k ks lower above, insert-IsAscending k ks up nes)
  | inr higher ↦
      let first = text_lt_total k j higher ne in
      rw higher ((first, All-weaken (λ x h. text_lt_trans k j x first h) ks above), (above, up))
]

pub sort-IsAscending : (ks : List Text) → IsDistinct ks → IsAscending (sort ks)
unfolding sort
sort-IsAscending [] _ = tt
sort-IsAscending (k ∷ ks) (h, hs) =
    insert-IsAscending k (sort ks) (sort-IsAscending ks hs) (All-sort (λ j. k ≢ j) ks h)

insert-In : (x k : Text) (ks : List Text) → In x (insert k ks) ↔ In x (k ∷ ks)
unfolding insert
insert-In x k [] = (λ h. h, λ h. h)
insert-In x k (j ∷ ks) = elim (Bool-cases (text_lt j k)) [
  | inl lower ↦ rw lower (
    λ h. elim h [
      | inl e ↦ inr (inl e)
      | inr more ↦ elim ((insert-In x k ks).0 more) [ inl e ↦ inl e | inr m ↦ inr (inr m) ]
    ],
    λ h. elim h [
      | inl e ↦ inr ((insert-In x k ks).1 (inl e))
      | inr more ↦ elim more [ inl e ↦ inl e | inr m ↦ inr ((insert-In x k ks).1 (inr m)) ]
    ],
  )
  | inr higher ↦ rw higher (λ h. h, λ h. h)
]

pub sort-In : (x : Text) (ks : List Text) → In x (sort ks) ↔ In x ks
unfolding sort
sort-In x [] = (λ h. h, λ h. h)
sort-In x (k ∷ ks) = (
  λ h. elim ((insert-In x k (sort ks)).0 h) [ inl e ↦ inl e | inr m ↦ inr ((sort-In x ks).0 m) ],
  λ h. (insert-In x k (sort ks)).1 (elim h [ inl e ↦ inl e | inr m ↦ inr ((sort-In x ks).1 m) ]),
)

-- Behind a key of an ascending list.
after_cursor-above :
    (c : Text) (ks : List Text) → All (λ j. text_lt c j ≡ true) ks → after_cursor c ks ≡ ks
unfolding after_cursor
after_cursor-above c [] _ = refl
after_cursor-above c (k ∷ ks) (h, hs) = rw (h, after_cursor-above c ks hs) refl

not_below : (c k : Text) → text_lt k c ≡ true → text_lt c k ≡ false
not_below c k h = elim (Bool-cases (text_lt c k)) [
  | inl back ↦ let loop = text_lt_trans c k c back h in let never = text_lt_irrefl c in ground arith
  | inr e ↦ e
]

pub All_behind :
    (P : Text → Type 0) (front : List Text) (c : Text) (rest : List Text)
    → All P (front ++ c ∷ rest)
    → P c
All_behind P [] c rest (h, _) = h
All_behind P (k ∷ front) c rest (_, hs) = All_behind P front c rest hs

pub after_cursor-append :
    (front : List Text) (c : Text) (rest : List Text)
    → IsAscending (front ++ c ∷ rest)
    → after_cursor c (front ++ c ∷ rest) ≡ rest
unfolding after_cursor
after_cursor-append [] c rest (h, _) = rw (text_lt_irrefl c, after_cursor-above c rest h) refl
after_cursor-append (k ∷ front) c rest (h, hs) =
    let below = not_below c k (All_behind (λ j. text_lt k j ≡ true) front c rest h) in
    rw (below, after_cursor-append front c rest hs) refl

length-insert : (k : Text) (ks : List Text) → length (insert k ks) ≡ suc (length ks)
unfolding insert
length-insert k [] = refl
length-insert k (j ∷ ks) = elim (Bool-cases (text_lt j k)) [
  | inl lower ↦ rw lower (ap suc (length-insert k ks))
  | inr higher ↦ rw higher refl
]

pub length-sort : (ks : List Text) → length (sort ks) ≡ length ks
unfolding sort
length-sort [] = refl
length-sort (k ∷ ks) = length-insert k (sort ks) ∙ ap suc (length-sort ks)
