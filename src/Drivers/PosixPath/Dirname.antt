-- ===== src/Drivers/PosixPath/Dirname.antt =====
-- `os.path.dirname` of a path that ends in a name.
use mathlib.Core.List.{reverse, reverse-append, reverse-reverse}
use ai_storybook_storage_ser.Base.{
  ℕ, Text, codes, false, ◌≡◌, ◌≢◌, refl, sym, ap, subst, ◌∙◌, ◌==◌, none, some, List, [], ◌∷◌, ◌++◌,
  append_assoc, All, Lacks, last_or, starts_with, split, split_at_sep, split_of_Lacks, drop_while,
  rstrip_char, text_eq, after_last, after_last-none, after_last-some, Option-cases, inl, inr, arith,
}
use ai_storybook_storage_ser.Drivers.PosixPath.{path_join, before_last_slash, dirname}
use ai_storybook_storage_ser.Drivers.PosixPath.Laws.{IsPlain}

-- A text whose last character is no slash.
abbrev pub IsOpen : Text → Type 0
IsOpen s = (front : Text) × ((d : ℕ) × (s ≡ front ++ d ∷ []) × (d ≢ 47))

pub IsOpen-of_Lacks : (s : Text) → Lacks 47 s → s ≢ [] → IsOpen s
IsOpen-of_Lacks [] h ne = absurd (ne refl)
IsOpen-of_Lacks (c ∷ []) (h, _) ne = ([], (c, refl, h))
IsOpen-of_Lacks (c ∷ d ∷ s) (h, hs) ne =
    let (front, (x, e, k)) = IsOpen-of_Lacks (d ∷ s) hs (λ e. cc) in
    (c ∷ front, (x, ap (λ (t : Text). c ∷ t) e, k))

pub IsOpen-append : (a s : Text) → IsOpen s → IsOpen (a ++ s)
IsOpen-append a s (front, (d, e, h)) =
    (a ++ front, (d, ap (λ (t : Text). a ++ t) e ∙ sym (append_assoc a front (d ∷ [])), h))

last_of_append : (x : ℕ) (front : Text) (d : ℕ) → last_or x (front ++ d ∷ []) ≡ d
last_of_append x [] d = refl
last_of_append x (c ∷ front) d = last_of_append c front d

append_last-eq-nil : (front : Text) (d : ℕ) → text_eq (front ++ d ∷ []) [] ≡ false
unfolding text_eq
append_last-eq-nil [] d = refl
append_last-eq-nil (c ∷ front) d = refl

pub path_join_of_IsOpen :
    (a b : Text) → IsOpen a → starts_with b (codes "/") ≡ false → path_join a b ≡ a ++ 47 ∷ b
unfolding path_join
path_join_of_IsOpen a b (front, (d, e, h)) relative =
    let empty : text_eq a [] ≡ false =
      ap (λ (t : Text). text_eq t []) e ∙ append_last-eq-nil front d in
    let last : last_or 0 a ≡ d = ap (last_or {A = ℕ} 0) e ∙ last_of_append 0 front d in
    let inside : (last_or 0 a == 47) ≡ false = rw last (ground arith) in
    rw (relative, empty, inside) refl

rstrip_char_of_IsOpen : (s : Text) → IsOpen s → rstrip_char 47 s ≡ s
unfolding rstrip_char drop_while
rstrip_char_of_IsOpen s (front, (d, e, h)) =
    let turned : reverse s ≡ d ∷ reverse front =
      ap (reverse {A = ℕ}) e ∙ reverse-append front (d ∷ []) in
    let inside : (d == 47) ≡ false = ground arith in
    rw (turned, inside) (ap (reverse {A = ℕ}) (sym turned) ∙ reverse-reverse s)

before_last_slash_of_Lacks : (t : Text) → Lacks 47 t → before_last_slash t ≡ none
unfolding before_last_slash
before_last_slash_of_Lacks [] h = refl
before_last_slash_of_Lacks (c ∷ t) (h, hs) =
    let inside : (c == 47) ≡ false = ground arith in
    rw (before_last_slash_of_Lacks t hs, inside) refl

before_last_slash-append : (a t : Text) → Lacks 47 t → before_last_slash (a ++ 47 ∷ t) ≡ some a
unfolding before_last_slash
before_last_slash-append [] t h = rw (before_last_slash_of_Lacks t h) refl
before_last_slash-append (c ∷ a) t h = rw (before_last_slash-append a t h) refl

pub dirname_of_IsOpen : (a t : Text) → IsOpen a → Lacks 47 t → dirname (a ++ 47 ∷ t) ≡ a
unfolding dirname
dirname_of_IsOpen a t (front, (d, e, h)) lacks =
    let empty : text_eq a [] ≡ false =
      ap (λ (s : Text). text_eq s []) e ∙ append_last-eq-nil front d in
    rw (before_last_slash-append a t lacks, dirname)
      (rw (rstrip_char_of_IsOpen a (front, (d, e, h)), empty) refl)

-- A text of plain names does not end in a slash.
pub IsOpen-of_split : (s : Text) → All IsPlain (split 47 s) → IsOpen s
IsOpen-of_split s plain = elim (Option-cases (after_last 47 s)) [
  | inl one ↦
      let lacks = (after_last-none 47 s).0 one in
      let (h, _) = subst (All IsPlain) (split_of_Lacks 47 s lacks) plain in
      IsOpen-of_Lacks s lacks h.0
  | inr (t, e) ↦
      let (stem, whole, lacks) = after_last-some 47 s t e in
      let parts =
        subst (All IsPlain)
          (ap (split 47) whole
            ∙ split_at_sep 47 stem t
            ∙ ap (λ (p : List Text). split 47 stem ++ p) (split_of_Lacks 47 t lacks))
          plain in
      subst IsOpen (sym whole) (
        IsOpen-append stem (47 ∷ t) (
          IsOpen-append (47 ∷ []) t
            (IsOpen-of_Lacks t lacks (last_plain (split 47 stem) t parts).0)))
]
  where
    last_plain : (ps : List Text) (x : Text) → All IsPlain (ps ++ x ∷ []) → IsPlain x
    last_plain [] x (h, _) = h
    last_plain (p ∷ ps) x (_, hs) = last_plain ps x hs
