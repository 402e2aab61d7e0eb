-- ===== src/Base/Strip.antt =====
-- `str.strip` and texts without white space at their ends.
use mathlib.Core.Path.{◌≡◌, refl, sym, ap, subst, ◌∙◌}
use mathlib.Core.Logic.{◌≢◌, inl, inr}
use mathlib.Core.Bool.{false}
use mathlib.Core.List.{List, [], ◌∷◌, ◌++◌, reverse, reverse-append, reverse-cons, reverse-reverse}
use Prim.Native.Nat.{ℕ}
use ai_storybook_storage_ser.Base.Tests.{Bool-cases}
use ai_storybook_storage_ser.Base.Lists.{All}
use ai_storybook_storage_ser.Base.Strings.{Text, drop_while, is_space, strip}
use ai_storybook_storage_ser.Base.Split.{join}

-- No white space at the beginning.
abbrev pub IsFlush : Text → Type 0
IsFlush [] = Unit
IsFlush (c ∷ s) = is_space c ≡ false

-- An entry of a list: not empty, and no white space at either end.
abbrev pub IsTrimmed : Text → Type 0
IsTrimmed s = (s ≢ []) × IsFlush s × IsFlush (reverse s)

drop_while-IsFlush : (s : Text) → IsFlush (drop_while is_space s)
unfolding drop_while
drop_while-IsFlush [] = tt
drop_while-IsFlush (c ∷ s) = elim (Bool-cases (is_space c)) [
  | inl white ↦ rw white (drop_while-IsFlush s)
  | inr black ↦ rw black black
]

drop_while_of_IsFlush : (s : Text) → IsFlush s → drop_while is_space s ≡ s
unfolding drop_while
drop_while_of_IsFlush [] _ = refl
drop_while_of_IsFlush (c ∷ s) h = rw h refl

drop_while-suffix : (s : Text) → (front : Text) × (s ≡ front ++ drop_while is_space s)
unfolding drop_while
drop_while-suffix [] = ([], refl)
drop_while-suffix (c ∷ s) = elim (Bool-cases (is_space c)) [
  | inl white ↦
      let (front, e) = drop_while-suffix s in rw white (c ∷ front, ap (λ (t : Text). c ∷ t) e)
  | inr black ↦ rw black ([], refl)
]

IsFlush-front : (s t : Text) → IsFlush (s ++ t) → IsFlush s
IsFlush-front [] t h = tt
IsFlush-front (c ∷ s) t h = h

pub strip-IsFlush : (s : Text) → IsFlush (strip s) × IsFlush (reverse (strip s))
unfolding strip
strip-IsFlush s =
    let r = reverse (drop_while is_space s) in
    let (front, e) = drop_while-suffix r in
    let whole : drop_while is_space s ≡ reverse (drop_while is_space r) ++ reverse front =
      sym (reverse-reverse (drop_while is_space s))
      ∙ ap (reverse {A = ℕ}) e
      ∙ reverse-append front (drop_while is_space r) in
    (
      IsFlush-front (reverse (drop_while is_space r)) (reverse front)
          (subst IsFlush whole (drop_while-IsFlush s)),
      subst IsFlush (sym (reverse-reverse (drop_while is_space r))) (drop_while-IsFlush r),
    )

pub strip_of_IsFlush : (s : Text) → IsFlush s → IsFlush (reverse s) → strip s ≡ s
unfolding strip
strip_of_IsFlush s h k =
    rw (drop_while_of_IsFlush s h, drop_while_of_IsFlush (reverse s) k) (reverse-reverse s)

IsFlush-append : (s t : Text) → s ≢ [] → IsFlush s → IsFlush (s ++ t)
IsFlush-append [] t ne h = absurd (ne refl)
IsFlush-append (c ∷ s) t ne h = h

join-ne-nil : (x : Text) (xs : List Text) → x ≢ [] → join 44 (x ∷ xs) ≢ []
unfolding join
join-ne-nil x [] ne = ne
join-ne-nil [] (y ∷ ys) ne = λ e. ne refl
join-ne-nil (c ∷ x) (y ∷ ys) ne = λ e. cc

reverse-ne-nil : (s : Text) → s ≢ [] → reverse s ≢ []
reverse-ne-nil s ne e = ne (sym (reverse-reverse s) ∙ ap (reverse {A = ℕ}) e)

append_last-ne-nil : (s : Text) → s ++ 44 ∷ [] ≢ []
append_last-ne-nil [] = λ e. cc
append_last-ne-nil (c ∷ s) = λ e. cc

-- A text of trimmed entries with commas between them is trimmed.
pub join-IsTrimmed :
    (x : Text) (xs : List Text) → All IsTrimmed (x ∷ xs) → IsTrimmed (join 44 (x ∷ xs))
unfolding join
join-IsTrimmed x [] (h, _) = h
join-IsTrimmed x (y ∷ ys) ((ne, first, last), hs) =
    let rest = join 44 (y ∷ ys) in
    let (ne', first', last') = join-IsTrimmed y ys hs in
    (
      join-ne-nil x (y ∷ ys) ne,
      IsFlush-append x _ ne first,
      subst IsFlush
          (sym (
            reverse-append x (44 ∷ rest)
            ∙ ap (λ (t : Text). t ++ reverse x) (reverse-cons 44 rest)))
          (IsFlush-append (reverse rest ++ 44 ∷ []) (reverse x) (append_last-ne-nil (reverse rest))
            (IsFlush-append (reverse (join 44 (y ∷ ys))) (44 ∷ []) (reverse-ne-nil _ ne') last')),
    )
