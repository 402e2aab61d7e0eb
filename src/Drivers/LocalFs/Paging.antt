-- ===== src/Drivers/LocalFs/Paging.antt =====
-- The pages of `list` of src/drivers/local_fs.py.
use ai_storybook_storage_ser.Base.{
  ℕ, zero, suc, Text, true, ltb, ◌≡◌, ◌≢◌, refl, sym, ap, subst, ◌∙◌, ◌⊎◌, inl, inr, ◌↔◌, ◌≤◌, ◌<◌,
  Option, none, some, List, [], ◌∷◌, ◌++◌, append_assoc, All, length, length-append, take, drop,
  take-drop, last_or, arith, Bool-cases,
}
use ai_storybook_storage_ser.Drivers.FileSystem.Directories.{In}
use ai_storybook_storage_ser.Drivers.LocalFs.Listing.{sort, from_cursor, cursor_behind, page_of}
use ai_storybook_storage_ser.Drivers.LocalFs.Sorting.{
  IsAscending, IsDistinct, All-sort, sort-IsAscending, sort-In, All_behind, after_cursor-append,
  length-sort,
}

abbrev in_front : List Text → Option (List Text) → Option (List Text)
in_front page none = none
in_front page (some rest) = some (page ++ rest)

-- What a client has after a page and the request that its cursor leads to.
unfoldable followed : List Text × Option Text → (Text → Option (List Text)) → Option (List Text)
followed (page, none) later = some page
followed (page, some c) later = in_front page (later c)

-- What a client gets that asks for page after page until it is given no cursor; none if it still has a
-- cursor after so many requests.
unfoldable pub pages : ℕ → List Text → Option Text → ℕ → Option (List Text)
unfolding page_of followed
pages zero keys cursor limit = none
pages (suc requests) keys cursor limit =
    followed (page_of keys cursor limit) λ c. pages requests keys (some c) limit

-- The last key of a page, and those before it.
last_split : (k : Text) (ks : List Text) → (init : List Text) × (k ∷ ks ≡ init ++ last_or k ks ∷ [])
last_split k [] = ([], refl)
last_split k (j ∷ ks) =
    let (init, e) = last_split j ks in (k ∷ init, ap (λ (t : List Text). k ∷ t) e)

take_all : (n : ℕ) (ks : List Text) → length ks ≤ n → take n ks ≡ ks
unfolding take
take_all zero [] h = refl
take_all zero (k ∷ ks) h = absurd (omega arith)
take_all (suc n) [] h = refl
take_all (suc n) (k ∷ ks) h = ap (λ (t : List Text). k ∷ t) (take_all n ks (omega arith))

take_nil : (n : ℕ) (ks : List Text) → 0 < n → take n ks ≡ [] → ks ≡ []
unfolding take
take_nil n [] h e = refl
take_nil zero (k ∷ ks) h e = absurd (omega arith)
take_nil (suc n) (k ∷ ks) h e = cc

from_cursor-append :
    (front : List Text) (c : Text) (rest : List Text)
    → c ≢ []
    → IsAscending (front ++ c ∷ rest)
    → from_cursor (some c) (front ++ c ∷ rest) ≡ rest
unfolding from_cursor
from_cursor-append front [] rest ne h = absurd (ne refl)
from_cursor-append front (x ∷ c) rest ne h = after_cursor-append front (x ∷ c) rest h

page_cases : (ks : List Text) → (ks ≡ []) ⊎ ((j : Text) × ((js : List Text) × (ks ≡ j ∷ js)))
page_cases [] = inl refl
page_cases (k ∷ ks) = inr (k, (ks, refl))

page_of-rest :
    (keys : List Text) (cursor : Option Text) (limit : ℕ) (rest page : List Text)
    → from_cursor cursor keys ≡ rest
    → take limit rest ≡ page
    → page_of keys cursor limit ≡ (page, cursor_behind limit rest page)
unfolding page_of
page_of-rest keys cursor limit rest page from e =
    ap (λ (all : List Text). (take limit all, cursor_behind limit all (take limit all))) from
    ∙ ap (λ (t : List Text). (t, cursor_behind limit rest t)) e

-- One request that is answered with a cursor, and one that is not.
pages-more :
    (requests : ℕ) (keys : List Text) (cursor : Option Text) (limit : ℕ) (rest : List Text)
    (k : Text) (ks : List Text)
    → from_cursor cursor keys ≡ rest
    → take limit rest ≡ k ∷ ks
    → ltb limit (length rest) ≡ true
    → pages (suc requests) keys cursor limit
      ≡ in_front (k ∷ ks) (pages requests keys (some (last_or k ks)) limit)
unfolding pages followed cursor_behind
pages-more requests keys cursor limit rest k ks from e more =
    ap (λ (p : List Text × Option Text). followed p λ c. pages requests keys (some c) limit)
      (page_of-rest keys cursor limit rest (k ∷ ks) from e)
    ∙ rw more refl

pages-last :
    (requests : ℕ) (keys : List Text) (cursor : Option Text) (limit : ℕ) (rest page : List Text)
    → from_cursor cursor keys ≡ rest
    → take limit rest ≡ page
    → cursor_behind limit rest page ≡ none
    → pages (suc requests) keys cursor limit ≡ some page
unfolding pages followed
pages-last requests keys cursor limit rest page from e last =
    ap (λ (p : List Text × Option Text). followed p λ c. pages requests keys (some c) limit)
      (page_of-rest keys cursor limit rest page from e)
    ∙ rw last refl

pages-rest :
    (fuel : ℕ) (keys : List Text) (cursor : Option Text) (limit : ℕ) (front rest : List Text)
    → IsAscending keys
    → All (λ k. k ≢ []) keys
    → 0 < limit
    → keys ≡ front ++ rest
    → from_cursor cursor keys ≡ rest
    → length rest < fuel
    → pages fuel keys cursor limit ≡ some rest
unfolding cursor_behind
pages-rest zero keys cursor limit front rest up full positive whole from enough =
    absurd (omega arith)
pages-rest (suc fuel) keys cursor limit front rest up full positive whole from enough =
    let d = take-drop limit rest in
    elim (page_cases (take limit rest)) [
      | inl e ↦
          pages-last fuel keys cursor limit rest [] from e refl
          ∙ ap some (sym (take_nil limit rest positive e))
      | inr (k, (ks, e)) ↦ elim (Bool-cases (ltb limit (length rest))) [
        | inl more ↦
            let (init, last) = last_split k ks in
            let c = last_or k ks in
            let left = drop limit rest in
            let parts : (k ∷ ks) ++ left ≡ rest = ap (λ (t : List Text). t ++ left) (sym e) ∙ d in
            let split_at_c : keys ≡ (front ++ init) ++ c ∷ left =
              whole
              ∙ ap (λ (t : List Text). front ++ t)
                  (sym parts
                    ∙ ap (λ (t : List Text). t ++ left) last
                    ∙ append_assoc init (c ∷ []) left)
              ∙ sym (append_assoc front init (c ∷ left)) in
            let not_nil : c ≢ [] =
              All_behind (λ x. x ≢ []) (front ++ init) c left
                (subst (All (λ (x : Text). x ≢ [])) split_at_c full) in
            let next : from_cursor (some c) keys ≡ left =
              ap (from_cursor (some c)) split_at_c
              ∙ from_cursor-append (front ++ init) c left not_nil
                  (subst IsAscending split_at_c up) in
            let shorter : length left < fuel =
              omega
                (arith, ap (length {A = Text}) parts, length-append {0} (k ∷ ks) left, enough) in
            pages-more fuel keys cursor limit rest k ks from e more
            ∙ (ap (in_front (k ∷ ks)) (
                  pages-rest fuel keys (some c) limit (front ++ (k ∷ ks)) left up full positive
                    (whole
                      ∙ ap (λ (t : List Text). front ++ t) (sym parts)
                      ∙ sym (append_assoc front (k ∷ ks) left))
                    next shorter)
                ∙ ap some parts)
        | inr all ↦
            let short : length rest ≤ limit = ground arith in
            pages-last fuel keys cursor limit rest (k ∷ ks) from e (rw all refl)
            ∙ (ap some (sym e ∙ take_all limit rest short))
      ]
    ]

-- A client that asks for page after page, of any size but 0, over the sorted keys is given no cursor
-- after at most one page more than there are keys, and has then got the sorted keys: each key exactly
-- once and in ascending order. The keys are distinct, and none is empty.
pub pages-sort :
    (ks : List Text) (limit : ℕ)
    → IsDistinct ks
    → All (λ k. k ≢ []) ks
    → 0 < limit
    → (pages (suc (length ks)) (sort ks) none limit ≡ some (sort ks))
      × IsAscending (sort ks)
      × ((x : Text) → In x (sort ks) ↔ In x ks)
unfolding from_cursor
pages-sort ks limit distinct full positive =
    let up = sort-IsAscending ks distinct in
    (
      pages-rest (suc (length ks)) (sort ks) none limit [] (sort ks) up
          (All-sort (λ k. k ≢ []) ks full) positive refl refl (omega (arith, length-sort ks)),
      up,
      λ x. sort-In x ks,
    )
