-- ===== src/Base/Decimal.antt =====
-- Python's integers where a sign can occur, and `str` of a number.
use Prim.Native.Nat.{ℕ, zero, suc, ◌+◌, ◌-◌, ◌*◌, ◌/◌, ◌%◌, ◌≤◌, ◌<◌}
use mathlib.Core.Path.{◌≡◌, refl, sym, ap, ◌∙◌}
use mathlib.Core.Logic.{◌≢◌, inl, inr}
use mathlib.Core.Bool.{Bool, true}
use mathlib.Core.List.{[], ◌∷◌, ◌++◌}
use native.Mathlib.Omega.{arith}
use ai_storybook_storage_ser.Base.Tests.{ltb, leb, Bool-cases, if◌then◌else◌}
use ai_storybook_storage_ser.Base.Lists.{All, All-append}
use ai_storybook_storage_ser.Base.Strings.{Text, Lacks}

-- `negsuc n` is -(n + 1).
pub data ℤ : Type 0 where
  pos : ℕ → ℤ
  negsuc : ℕ → ℤ

-- `a <= n`
abbrev pub leb_ℤ : ℤ → ℕ → Bool
leb_ℤ (pos a) n = leb a n
leb_ℤ (negsuc a) n = true

-- The number `n` is below the integer.
abbrev pub IsBelow : ℕ → ℤ → Type 0
IsBelow n (pos a) = n < a
IsBelow n (negsuc a) = ⊥

-- The decimal digits of a number, on fuel.
unfoldable pub digits : ℕ → ℕ → Text
digits zero n = []
digits (suc fuel) n =
    let front = digits fuel (n / 10) in
    if ltb n 10 then (48 + n) ∷ [] else front ++ (48 + n % 10) ∷ []

-- `str(n)`: a number has at most as many digits as its successor counts.
unfoldable pub str : ℕ → Text
unfolding digits
str n = digits (suc n) n

unfoldable pub str_ℤ : ℤ → Text
unfolding str
str_ℤ (pos n) = str n
str_ℤ (negsuc n) = b'-' ∷ str (suc n)

-- What a text of digits stands for, from a number read so far.
value : ℕ → Text → ℕ
value n [] = n
value n (c ∷ s) = value (n * 10 + (c - 48)) s

value-append : (n : ℕ) (s t : Text) → value n (s ++ t) ≡ value (value n s) t
unfolding value
value-append n [] t = refl
value-append n (c ∷ s) t = value-append (n * 10 + (c - 48)) s t

value-digits : (fuel n : ℕ) → n < fuel → value 0 (digits fuel n) ≡ n
unfolding value digits
value-digits zero n h = absurd (omega arith)
value-digits (suc fuel) n h = elim (Bool-cases (ltb n 10)) [
  | inl small ↦ rw small (omega arith)
  | inr big ↦
      let ten : 10 ≤ n = ground arith in
      rw big (
        value-append 0 (digits fuel (n / 10)) ((48 + n % 10) ∷ [])
        ∙ omega (arith, value-digits fuel (n / 10) (omega arith)))
]

abbrev IsDigit : ℕ → Type 0
IsDigit c = (48 ≤ c) × (c ≤ 57)

digits-IsDigit : (fuel n : ℕ) → All IsDigit (digits fuel n)
unfolding digits
digits-IsDigit zero n = tt
digits-IsDigit (suc fuel) n = elim (Bool-cases (ltb n 10)) [
  | inl small ↦ let below : n < 10 = ground arith in rw small (omega arith)
  | inr big ↦ rw big (
      All-append IsDigit (digits fuel (n / 10)) ((48 + n % 10) ∷ []) (digits-IsDigit fuel (n / 10))
        (omega arith))
]

str-injective : (m n : ℕ) → str m ≡ str n → m ≡ n
unfolding str
str-injective m n e =
    sym (value-digits (suc m) m (omega arith))
    ∙ ap (value 0) e
    ∙ value-digits (suc n) n (omega arith)

str-IsDigit : (n : ℕ) → All IsDigit (str n)
unfolding str
str-IsDigit n = digits-IsDigit (suc n) n

minus-ne-digits : (s t : Text) → All IsDigit t → b'-' ∷ s ≢ t
minus-ne-digits s [] h e = cc
minus-ne-digits s (c ∷ t) h e = let first : ◌≡◌ {A = ℕ} b'-' c = cc in omega (arith, h.0, first)

tail_eq : (c d : ℕ) (s t : Text) → c ∷ s ≡ d ∷ t → s ≡ t
tail_eq c d s t e = cc

pub str_ℤ-injective : (a b : ℤ) → str_ℤ a ≡ str_ℤ b → a ≡ b
unfolding str_ℤ
str_ℤ-injective (pos m) (pos n) e = ap pos (str-injective m n e)
str_ℤ-injective (pos m) (negsuc n) e =
    absurd (minus-ne-digits (str (suc n)) (str m) (str-IsDigit m) (sym e))
str_ℤ-injective (negsuc m) (pos n) e =
    absurd (minus-ne-digits (str (suc m)) (str n) (str-IsDigit n) e)
str_ℤ-injective (negsuc m) (negsuc n) e =
    let same = str-injective (suc m) (suc n) (tail_eq b'-' b'-' (str (suc m)) (str (suc n)) e) in
    ap negsuc (omega (arith, same))

-- Texts around the first occurrence of a character.
pub sep-injective :
    (c : ℕ) (a b s t : Text) → Lacks c a → Lacks c b → a ++ c ∷ s ≡ b ++ c ∷ t → (a ≡ b) × (s ≡ t)
sep-injective c [] [] s t ha hb e = (refl, cc)
sep-injective c [] (y ∷ b) s t ha hb e = let same : c ≡ y = cc in absurd (hb.0 (sym same))
sep-injective c (x ∷ a) [] s t ha hb e = let same : x ≡ c = cc in absurd (ha.0 same)
sep-injective c (x ∷ a) (y ∷ b) s t ha hb e =
    let (heads, tails) = sep-injective c a b s t ha.1 hb.1 (cc) in
    let same : x ≡ y = cc in (cc, tails)
