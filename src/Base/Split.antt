-- ===== src/Base/Split.antt =====
-- `s.split(sep)` and `sep.join(parts)` for a separator of one character, and `s.rsplit(sep, 1)`.
use mathlib.Core.Path.{◌≡◌, refl}
use mathlib.Core.Logic.{◌≢◌, ◌↔◌, inl, inr}
use mathlib.Core.Option.{Option, none, some}
use mathlib.Core.List.{List, [], ◌∷◌, ◌++◌}
use Prim.Native.Nat.{ℕ}
use native.Mathlib.Omega.{arith}
use ai_storybook_storage_ser.Base.Tests.{◌==◌, if◌then◌else◌, Bool-cases, Option-cases}
use ai_storybook_storage_ser.Base.Lists.{All, All-append}
use ai_storybook_storage_ser.Base.Strings.{Text, Lacks}

-- The first part of a split grows by a character.
abbrev pub grow : ℕ → List Text → List Text
grow c [] = (c ∷ []) ∷ []
grow c (p ∷ ps) = (c ∷ p) ∷ ps

unfoldable pub split : ℕ → Text → List Text
split sep [] = [] ∷ []
split sep (c ∷ s) = let rest = split sep s in if c == sep then [] ∷ rest else grow c rest

unfoldable pub join : ℕ → List Text → Text
join sep [] = []
join sep (p ∷ []) = p
join sep (p ∷ q ∷ ps) = p ++ sep ∷ join sep (q ∷ ps)

module _ (sep : ℕ) where
  grow-ne-nil : (c : ℕ) (ps : List Text) → grow c ps ≢ []
  grow-ne-nil c [] = λ h. cc
  grow-ne-nil c (p ∷ ps) = λ h. cc

  pub split-ne-nil : (s : Text) → split sep s ≢ []
  unfolding split
  split-ne-nil [] = λ h. cc
  split-ne-nil (c ∷ s) = elim (Bool-cases (c == sep)) [
    | inl at_sep ↦ rw at_sep (λ h. cc)
    | inr inside ↦ rw inside (grow-ne-nil c (split sep s))
  ]

  join-grow : (c : ℕ) (ps : List Text) → join sep (grow c ps) ≡ c ∷ join sep ps
  unfolding join
  join-grow c [] = refl
  join-grow c (p ∷ []) = refl
  join-grow c (p ∷ q ∷ ps) = refl

  join-open : (ps : List Text) → ps ≢ [] → join sep ([] ∷ ps) ≡ sep ∷ join sep ps
  unfolding join
  join-open [] h = absurd (h refl)
  join-open (p ∷ ps) h = refl

  -- Joining the parts of a split gives the text back.
  pub join-split : (s : Text) → join sep (split sep s) ≡ s
  unfolding split
  join-split [] = unfold join in refl
  join-split (c ∷ s) =
      ground
        (arith, join-split s, join-open (split sep s) (split-ne-nil s), join-grow c (split sep s))

  grow-Lacks : (c : ℕ) (ps : List Text) → c ≢ sep → All (Lacks sep) ps → All (Lacks sep) (grow c ps)
  grow-Lacks c [] h _ = ((h, tt), tt)
  grow-Lacks c (p ∷ ps) h (k, ks) = ((h, k), ks)

  pub split-Lacks : (s : Text) → All (Lacks sep) (split sep s)
  unfolding split
  split-Lacks [] = (tt, tt)
  split-Lacks (c ∷ s) =
      let ih = split-Lacks s in
      elim (Bool-cases (c == sep)) [
        | inl at_sep ↦ rw at_sep (tt, ih)
        | inr inside ↦ rw inside (grow-Lacks c (split sep s) (ground arith) ih)
      ]

  pub split_of_Lacks : (s : Text) → Lacks sep s → split sep s ≡ s ∷ []
  unfolding split
  split_of_Lacks [] _ = refl
  split_of_Lacks (c ∷ s) (h, hs) = rw (split_of_Lacks s hs) (ground arith)

  split-append : (p rest : Text) → Lacks sep p → split sep (p ++ sep ∷ rest) ≡ p ∷ split sep rest
  unfolding split
  split-append [] rest _ = ground arith
  split-append (c ∷ p) rest (h, hs) = rw (split-append p rest hs) (ground arith)

  grow-append : (c : ℕ) (ps qs : List Text) → ps ≢ [] → grow c (ps ++ qs) ≡ grow c ps ++ qs
  grow-append c [] qs h = absurd (h refl)
  grow-append c (p ∷ ps) qs h = refl

  pub split_at_sep : (a b : Text) → split sep (a ++ sep ∷ b) ≡ split sep a ++ split sep b
  unfolding split
  split_at_sep [] b = ground arith
  split_at_sep (c ∷ a) b =
      ground (arith, split_at_sep a b, grow-append c (split sep a) (split sep b) (split-ne-nil a))

  pub split-join :
      (p : Text) (ps : List Text)
      → All (Lacks sep) (p ∷ ps)
      → split sep (join sep (p ∷ ps)) ≡ p ∷ ps
  unfolding join
  split-join p [] (h, _) = split_of_Lacks p h
  split-join p (q ∷ ps) (h, hs) = rw (split-append p _ h, split-join q ps hs)

-- A property of every character goes over to the parts, and back if the separator has it.
module _ {ℓ} (P : ℕ → Type ℓ) (sep : ℕ) where
  grow-All : (c : ℕ) (ps : List Text) → P c → All (All P) ps → All (All P) (grow c ps)
  grow-All c [] h _ = ((h, tt), tt)
  grow-All c (p ∷ ps) h (k, ks) = ((h, k), ks)

  pub All-split : (s : Text) → All P s → All (All P) (split sep s)
  unfolding split
  All-split [] _ = (tt, tt)
  All-split (c ∷ s) (h, hs) =
      let ih = All-split s hs in
      elim (Bool-cases (c == sep)) [
        | inl at_sep ↦ rw at_sep (tt, ih)
        | inr inside ↦ rw inside (grow-All c (split sep s) h ih)
      ]

  pub All-join : (ps : List Text) → P sep → All (All P) ps → All P (join sep ps)
  unfolding join
  All-join [] h _ = tt
  All-join (p ∷ []) h (k, _) = k
  All-join (p ∷ q ∷ ps) h (k, ks) = All-append P p _ k (h, All-join (q ∷ ps) h ks)

-- `s.rsplit(sep, 1)[1]`, or nothing if `sep` is not in `s`.
unfoldable pub after_last : ℕ → Text → Option Text
after_last sep [] = none
after_last sep (c ∷ s) = elim (after_last sep s) [
  | some t ↦ some t
  | none ↦ if c == sep then some s else none
]

pub after_last-none : (sep : ℕ) (s : Text) → (after_last sep s ≡ none) ↔ Lacks sep s
unfolding after_last
after_last-none sep [] = (λ _. tt, λ _. refl)
after_last-none sep (c ∷ s) = ground (arith, after_last-none sep s)

-- The text after the last separator: it follows a separator and holds none.
pub after_last-some :
    (sep : ℕ) (s t : Text)
    → after_last sep s ≡ some t
    → (stem : Text) × (s ≡ stem ++ sep ∷ t) × Lacks sep t
unfolding after_last
after_last-some sep [] t h = cc
after_last-some sep (c ∷ s) t h = elim (Option-cases (after_last sep s)) [
  | inl e ↦ ([], ground arith, (after_last-none sep t).0 (ground arith))
  | inr (u, e) ↦
      let (stem, split_here, lacks) = after_last-some sep s t (ground arith) in
      (c ∷ stem, ground arith, lacks)
]

pub after_last-append :
    (sep : ℕ) (stem t : Text) → Lacks sep t → after_last sep (stem ++ sep ∷ t) ≡ some t
unfolding after_last
after_last-append sep [] t h = ground (arith, after_last-none sep t)
after_last-append sep (c ∷ stem) t h = ground (arith, after_last-append sep stem t h)

-- A text without the separator behind a text goes to its last part.
abbrev pub extend_last : Text → List Text → List Text
extend_last t [] = []
extend_last t (p ∷ []) = (p ++ t) ∷ []
extend_last t (p ∷ q ∷ ps) = p ∷ extend_last t (q ∷ ps)

module _ (sep : ℕ) (t : Text) (lacks : Lacks sep t) where
  grow-extend_last :
      (c : ℕ) (ps : List Text) → ps ≢ [] → grow c (extend_last t ps) ≡ extend_last t (grow c ps)
  grow-extend_last c [] h = absurd (h refl)
  grow-extend_last c (p ∷ []) h = refl
  grow-extend_last c (p ∷ q ∷ ps) h = refl

  extend_last-open : (ps : List Text) → ps ≢ [] → extend_last t ([] ∷ ps) ≡ [] ∷ extend_last t ps
  extend_last-open [] h = absurd (h refl)
  extend_last-open (p ∷ ps) h = refl

  pub split-append_Lacks : (s : Text) → split sep (s ++ t) ≡ extend_last t (split sep s)
  unfolding split
  split-append_Lacks [] = split_of_Lacks sep t lacks
  split-append_Lacks (c ∷ s) = ground (
    arith,
    split-append_Lacks s,
    extend_last-open (split sep s) (split-ne-nil sep s),
    grow-extend_last c (split sep s) (split-ne-nil sep s),
  )
