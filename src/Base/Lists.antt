-- ===== src/Base/Lists.antt =====
-- Lists measured by native numbers, and predicates that hold of every member.
use Prim.Native.Nat.{ℕ, zero, suc, ◌+◌, ◌≤◌}
use mathlib.Core.Path.{◌≡◌, refl, ap}
use mathlib.Core.Logic.{◌↔◌}
use mathlib.Core.Bool.{Bool, true, false, ◌&&◌, ◌||◌}
use mathlib.Core.List.{List, [], ◌∷◌, ◌++◌}
use native.Mathlib.Omega.{arith}

module _ {ℓ} {A : Type ℓ} where
  abbrev pub length : List A → ℕ
  length [] = 0
  length (x ∷ xs) = suc (length xs)

  pub length-append : (xs ys : List A) → length (xs ++ ys) ≡ length xs + length ys
  length-append [] ys = omega arith
  length-append (x ∷ xs) ys = omega (arith, length-append xs ys)

  -- `xs[:n]` and `xs[n:]`
  unfoldable pub take : ℕ → List A → List A
  take n [] = []
  take zero (x ∷ xs) = []
  take (suc n) (x ∷ xs) = x ∷ take n xs

  unfoldable pub drop : ℕ → List A → List A
  drop n [] = []
  drop zero (x ∷ xs) = x ∷ xs
  drop (suc n) (x ∷ xs) = drop n xs

  pub take-drop : (n : ℕ) (xs : List A) → take n xs ++ drop n xs ≡ xs
  unfolding take drop
  take-drop n [] = refl
  take-drop zero (x ∷ xs) = refl
  take-drop (suc n) (x ∷ xs) = ap (λ (t : List A). x ∷ t) (take-drop n xs)

  pub length-take : (n : ℕ) (xs : List A) → length (take n xs) ≤ n
  unfolding take
  length-take n [] = omega arith
  length-take zero (x ∷ xs) = omega arith
  length-take (suc n) (x ∷ xs) = omega (arith, length-take n xs)

  abbrev pub all : (A → Bool) → List A → Bool
  all p [] = true
  all p (x ∷ xs) = p x && all p xs

  abbrev pub any : (A → Bool) → List A → Bool
  any p [] = false
  any p (x ∷ xs) = p x || any p xs

  -- `xs[-1]`, with a default for the empty list.
  abbrev pub last_or : A → List A → A
  last_or d [] = d
  last_or d (x ∷ xs) = last_or x xs

module _ {ℓ κ} {A : Type ℓ} (P : A → Type κ) where
  abbrev pub All : List A → Type κ
  All [] = Unit
  All (x ∷ xs) = P x × All xs

  pub All-append : (xs ys : List A) → All xs → All ys → All (xs ++ ys)
  All-append [] ys _ hy = hy
  All-append (x ∷ xs) ys (px, hx) hy = (px, All-append xs ys hx hy)

  pub All-last_or : (x : A) (xs : List A) → P x → All xs → P (last_or x xs)
  All-last_or x [] h _ = h
  All-last_or x (y ∷ xs) _ (h, hs) = All-last_or y xs h hs

module _ {ℓ κ μ} {A : Type ℓ} {P : A → Type κ} {Q : A → Type μ} where
  pub All-weaken : ((a : A) → P a → Q a) → (xs : List A) → All P xs → All Q xs
  All-weaken f [] _ = tt
  All-weaken f (x ∷ xs) (p, ps) = (f x p, All-weaken f xs ps)

-- A test that decides a predicate decides it for every member.
module _ {ℓ κ} {A : Type ℓ} (P : A → Type κ) (p : A → Bool)
    (dec : (a : A) → (p a ≡ true) ↔ P a) where
  pub all_iff : (xs : List A) → (all p xs ≡ true) ↔ All P xs
  all_iff [] = (λ _. tt, λ _. refl)
  all_iff (x ∷ xs) = ground (arith, dec x, all_iff xs)

module _ {ℓ κ} {A : Type ℓ} (P : A → Type κ) (p : A → Bool)
    (dec : (a : A) → (p a ≡ false) ↔ P a) where
  pub any_iff : (xs : List A) → (any p xs ≡ false) ↔ All P xs
  any_iff [] = (λ _. tt, λ _. refl)
  any_iff (x ∷ xs) = ground (arith, dec x, any_iff xs)
