-- ===== src/Base/Strings.antt =====
-- Python's `str` as a list of code points, with the methods that the source calls.
use Prim.Native.Nat.{ℕ, ◌+◌}
use Prim.Native.Char.{code}
use Prim.Native.String.{String}
use mathlib.Core.Path.{◌≡◌, refl}
use mathlib.Core.Logic.{◌≢◌, ◌↔◌, inl, inr}
use mathlib.Core.Bool.{Bool, true, false, ◌&&◌, ◌||◌}
use mathlib.Core.List.{List, [], ◌∷◌, ◌++◌, reverse}
use native.Mathlib.Omega.{arith}
use ai_storybook_storage_ser.Base.Tests.{leb, ◌==◌, if◌then◌else◌, Bool-cases}
use ai_storybook_storage_ser.Base.Lists.{All}

abbrev pub Text : Type 0
Text = List ℕ

-- The text of a literal.
abbrev pub codes : String → Text
codes String.[] = []
codes (String.◌∷◌ c s) = code c ∷ codes s

-- `s == t`
unfoldable pub text_eq : Text → Text → Bool
text_eq [] [] = true
text_eq (a ∷ s) (b ∷ t) = (a == b) && text_eq s t
text_eq _ _ = false

pub text_eq_iff : (s t : Text) → (text_eq s t ≡ true) ↔ (s ≡ t)
unfolding text_eq
text_eq_iff [] [] = (λ _. refl, λ _. refl)
text_eq_iff [] (b ∷ t) = (λ h. cc, λ h. cc)
text_eq_iff (a ∷ s) [] = (λ h. cc, λ h. cc)
text_eq_iff (a ∷ s) (b ∷ t) = ground (arith, text_eq_iff s t)

-- `s in xs`
unfoldable pub member : Text → List Text → Bool
unfolding text_eq
member s [] = false
member s (t ∷ ts) = text_eq s t || member s ts

pub member-All {ℓ} :
    (P : Text → Type ℓ) (s : Text) (ts : List Text) → All P ts → member s ts ≡ true → P s
unfolding member
member-All P s [] _ h = cc
member-All P s (t ∷ ts) (p, ps) h = elim (Bool-cases (text_eq s t)) [
  | inl same ↦ rw ((text_eq_iff s t).0 same) p
  | inr other ↦ member-All P s ts ps (ground arith)
]

-- `s.startswith(p)`
unfoldable pub starts_with : Text → Text → Bool
starts_with s [] = true
starts_with [] (b ∷ p) = false
starts_with (a ∷ s) (b ∷ p) = (a == b) && starts_with s p

abbrev pub IsPrefixOf : Text → Text → Type 0
IsPrefixOf p s = (rest : Text) × (s ≡ p ++ rest)

pub starts_with→ : (s p : Text) → starts_with s p ≡ true → IsPrefixOf p s
unfolding starts_with
starts_with→ s [] _ = (s, refl)
starts_with→ [] (b ∷ p) h = cc
starts_with→ (a ∷ s) (b ∷ p) h =
    let (rest, e) = starts_with→ s p (ground arith) in (rest, ground arith)

pub starts_with-append : (p rest : Text) → starts_with (p ++ rest) p ≡ true
unfolding starts_with
starts_with-append [] rest = refl
starts_with-append (a ∷ p) rest = ground (arith, starts_with-append p rest)

-- `c in s`, for a single character
abbrev pub has_char : ℕ → Text → Bool
has_char c [] = false
has_char c (a ∷ s) = (a == c) || has_char c s

abbrev pub Lacks : ℕ → Text → Type 0
Lacks c = All (λ a. a ≢ c)

pub has_char-eq-false : (c : ℕ) (s : Text) → (has_char c s ≡ false) ↔ Lacks c s
has_char-eq-false c [] = (λ _. tt, λ _. refl)
has_char-eq-false c (a ∷ s) = ground (arith, has_char-eq-false c s)

pub Lacks-append : (c : ℕ) (s t : Text) → Lacks c (s ++ t) ↔ (Lacks c s × Lacks c t)
Lacks-append c [] t = (λ h. (tt, h), λ h. h.1)
Lacks-append c (a ∷ s) t =
    let ih = Lacks-append c s t in
    (λ h. ((h.0, (ih.0 h.1).0), (ih.0 h.1).1), λ h. (h.0.0, ih.1 (h.0.1, h.1)))

-- `s.lstrip(test)`: drops the leading characters that pass.
unfoldable pub drop_while : (ℕ → Bool) → Text → Text
drop_while p [] = []
drop_while p (c ∷ s) = let rest = drop_while p s in if p c then rest else c ∷ s

-- `str.isspace` of one character
unfoldable pub is_space : ℕ → Bool
is_space c =
    (leb 9 c && leb c 13)
    || (leb 28 c && leb c 32)
    || (c == 0x85)
    || (c == 0xa0)
    || (c == 0x1680)
    || (leb 0x2000 c && leb c 0x200a)
    || (c == 0x2028)
    || (c == 0x2029)
    || (c == 0x202f)
    || (c == 0x205f)
    || (c == 0x3000)

-- `s.strip()`
unfoldable pub strip : Text → Text
unfolding drop_while is_space
strip s = reverse (drop_while is_space (reverse (drop_while is_space s)))

-- `s.rstrip("/")`
unfoldable pub rstrip_char : ℕ → Text → Text
unfolding drop_while
rstrip_char c s = reverse (drop_while (λ a. a == c) (reverse s))

-- `s.lower()`, on the Latin-1 characters that a header value is decoded to.
unfoldable pub lower_char : ℕ → ℕ
lower_char c =
    if (leb 65 c && leb c 90) || (leb 0xc0 c && leb c 0xd6) || (leb 0xd8 c && leb c 0xde)
    then c + 32
    else c

unfoldable pub lower : Text → Text
unfolding lower_char
lower [] = []
lower (c ∷ s) = lower_char c ∷ lower s

-- `s.split(c, 1)[0]`
unfoldable pub before_first : ℕ → Text → Text
before_first c [] = []
before_first c (a ∷ s) = let rest = before_first c s in if a == c then [] else a ∷ rest
