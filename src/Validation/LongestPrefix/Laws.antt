-- ===== src/Validation/LongestPrefix/Laws.antt =====
-- The loop returns a longest matching entry, and nothing only if no entry matches.
use ai_storybook_storage_ser.Base.{
  Text, true, false, ◌≡◌, refl, ◌⊎◌, inl, inr, ◌≤◌, ◌&&◌, Option, none, some, List, [], ◌∷◌, length,
  starts_with, member, text_eq, text_eq_iff, arith, ltb, Bool-cases, if◌then◌else◌,
}
use ai_storybook_storage_ser.Validation.LongestPrefix.{improves, longest_prefix}

-- The candidate covers an entry: the entry does not match, or the candidate is at least as long.
abbrev pub Covers : Text → Option Text → Text → Type 0
Covers text none q = starts_with text q ≡ false
Covers text (some p) q = starts_with text q ≡ true → length q ≤ length p

-- A candidate gives way to none that is shorter.
abbrev Improved : Option Text → Option Text → Type 0
Improved none _ = Unit
Improved (some p) none = ⊥
Improved (some p) (some q) = length p ≤ length q

Improved-trans : (a b c : Option Text) → Improved a b → Improved b c → Improved a c
Improved-trans none b c _ _ = tt
Improved-trans (some p) none c h _ = absurd h
Improved-trans (some p) (some q) none _ k = absurd k
Improved-trans (some p) (some q) (some r) h k = omega arith

Covers-Improved :
    (text q : Text) (a b : Option Text) → Covers text a q → Improved a b → Covers text b q
Covers-Improved text q none none h _ = h
Covers-Improved text q none (some r) h _ = λ m. cc
Covers-Improved text q (some p) none _ k = absurd k
Covers-Improved text q (some p) (some r) h k = λ m. omega (arith, h m)

abbrev step : Text → Option Text → Text → Option Text
step text best prefix =
    if starts_with text prefix && improves prefix best then some prefix else best

Improved-step :
    (text : Text) (best : Option Text) (prefix : Text) → Improved best (step text best prefix)
unfolding improves
Improved-step text none prefix = tt
Improved-step text (some p) prefix =
    elim (Bool-cases (starts_with text prefix && ltb (length p) (length prefix))) [
      | inl longer ↦ rw longer (ground arith)
      | inr kept ↦ rw kept (omega arith)
    ]

Covers-step :
    (text : Text) (best : Option Text) (prefix : Text) → Covers text (step text best prefix) prefix
unfolding improves
Covers-step text none prefix = elim (Bool-cases (starts_with text prefix)) [
  | inl m ↦ rw m (λ _. omega arith)
  | inr n ↦ rw n n
]
Covers-step text (some p) prefix =
    elim (Bool-cases (starts_with text prefix && ltb (length p) (length prefix))) [
      | inl longer ↦ rw longer (λ _. omega arith)
      | inr kept ↦ rw kept (λ m. ground arith)
    ]

Improved-longest_prefix :
    (text : Text) (best : Option Text) (entries : List Text)
    → Improved best (longest_prefix text best entries)
unfolding longest_prefix
Improved-longest_prefix text none [] = tt
Improved-longest_prefix text (some p) [] = omega arith
Improved-longest_prefix text best (prefix ∷ rest) =
    Improved-trans best (step text best prefix) _ (Improved-step text best prefix)
      (Improved-longest_prefix text (step text best prefix) rest)

-- The result covers every entry.
pub longest_prefix-Covers :
    (text : Text) (best : Option Text) (entries : List Text) (q : Text)
    → member q entries ≡ true
    → Covers text (longest_prefix text best entries) q
unfolding longest_prefix member
longest_prefix-Covers text best [] q h = cc
longest_prefix-Covers text best (prefix ∷ rest) q h = elim (Bool-cases (text_eq q prefix)) [
  | inl same ↦ rw ((text_eq_iff q prefix).0 same) (
      Covers-Improved text prefix (step text best prefix) _ (Covers-step text best prefix)
        (Improved-longest_prefix text (step text best prefix) rest))
  | inr other ↦ longest_prefix-Covers text (step text best prefix) rest q (ground arith)
]

-- The result is the first candidate or a matching entry.
pub longest_prefix-some :
    (text : Text) (best : Option Text) (entries : List Text) (p : Text)
    → longest_prefix text best entries ≡ some p
    → (best ≡ some p) ⊎ ((member p entries ≡ true) × (starts_with text p ≡ true))
unfolding longest_prefix member
longest_prefix-some text best [] p h = inl h
longest_prefix-some text best (prefix ∷ rest) p h =
    ground (arith, longest_prefix-some text (step text best prefix) rest p h, text_eq_iff p prefix)

-- Two prefixes of one text that are equally long are equal.
pub prefix_unique :
    (text p q : Text)
    → starts_with text p ≡ true
    → starts_with text q ≡ true
    → length p ≡ length q
    → p ≡ q
unfolding starts_with
prefix_unique text [] [] _ _ _ = refl
prefix_unique text [] (b ∷ q) _ _ e = absurd (omega arith)
prefix_unique text (a ∷ p) [] _ _ e = absurd (omega arith)
prefix_unique [] (a ∷ p) (b ∷ q) h k e = cc
prefix_unique (c ∷ text) (a ∷ p) (b ∷ q) h k e =
    let ih = prefix_unique text p q (ground arith) (ground arith) (omega arith) in ground arith
