-- ===== src/Validation/KeyGrammar/Grammar.antt =====
-- The grammar of keys and bucket names, stated without reference to the code that checks it.
use ai_storybook_storage_ser.Base.{
  ℕ, Text, codes, Bool, true, ◌≡◌, ◌≢◌, ◌⊎◌, ◌≤◌, List, [], ◌∷◌, ◌++◌, length, last_or, All, Lacks,
  join,
}
use ai_storybook_storage_ser.Validation.KeyGrammar.{max_key_len, max_segment_len}

-- A letter, a digit, one of `.`, `_`, `-`, and `@` if it is allowed.
abbrev pub IsSegmentChar : Bool → ℕ → Type 0
IsSegmentChar allow_at c =
    ((65 ≤ c) × (c ≤ 90))
    ⊎ ((97 ≤ c) × (c ≤ 122))
    ⊎ ((48 ≤ c) × (c ≤ 57))
    ⊎ (c ≡ 46)
    ⊎ (c ≡ 95)
    ⊎ (c ≡ 45)
    ⊎ ((allow_at ≡ true) × (c ≡ 64))

pub record IsSegment (allow_at : Bool) (seg : Text) : Type 0 where
  pub not_empty : seg ≢ []
  pub not_dot : seg ≢ codes "."
  pub not_dotdot : seg ≢ codes ".."
  pub short : length seg ≤ max_segment_len
  pub chars : All (IsSegmentChar allow_at) seg

-- The text ends in a dot and at least one more character, and the last dot is meant.
abbrev pub HasExtension : Text → Type 0
HasExtension t = (stem : Text) × (ext : Text) × (t ≡ stem ++ 46 ∷ ext) × (ext ≢ []) × Lacks 46 ext

-- Segments joined by slashes.
pub record IsKey (allow_at : Bool) (key : Text) : Type 0 where
  pub first : Text
  pub rest : List Text
  pub joined : key ≡ join 47 (first ∷ rest)
  pub segments : All (IsSegment allow_at) (first ∷ rest)
  pub extension : HasExtension (last_or first rest)
  pub short : length key ≤ max_key_len

abbrev pub IsBucketChar : ℕ → Type 0
IsBucketChar c = ((97 ≤ c) × (c ≤ 122)) ⊎ ((48 ≤ c) × (c ≤ 57)) ⊎ (c ≡ 45)

pub record IsBucketName (bucket : Text) : Type 0 where
  pub long : 3 ≤ length bucket
  pub short : length bucket ≤ 63
  pub chars : All IsBucketChar bucket
