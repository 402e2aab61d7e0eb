-- ===== src/Validation/KeyGrammar/Parts.antt =====
-- What the other components use of a key or a bucket name of the grammar.
use ai_storybook_storage_ser.Base.{
  ℕ, ◌⊎◌, inl, inr, All-join, Text, codes, Bool, true, false, has_char, has_char-eq-false, ◌≡◌, ◌≢◌,
  refl, sym, List, [], ◌∷◌, append-nil, All, All-weaken, Lacks, starts_with, split, split-join,
  split_of_Lacks, join, arith, ◌++◌, ◌∙◌,
}
use ai_storybook_storage_ser.Validation.KeyGrammar.Grammar.{
  IsSegmentChar, IsSegment, IsKey, IsBucketName,
}

module _ (allow_at : Bool) where
  pub IsSegment-Lacks : (seg : Text) → IsSegment allow_at seg → Lacks 47 seg
  IsSegment-Lacks seg h = All-weaken (λ c k. ground arith) seg h.chars

  pub split_of_IsKey : (key : Text) (k : IsKey allow_at key) → split 47 key ≡ k.first ∷ k.rest
  split_of_IsKey key k =
      rw k.joined
        (split-join 47 k.first k.rest (All-weaken IsSegment-Lacks (k.first ∷ k.rest) k.segments))

  pub IsKey-parts : (key : Text) → IsKey allow_at key → All (IsSegment allow_at) (split 47 key)
  IsKey-parts key k = rw (split_of_IsKey key k) k.segments

  slash_free_head :
      (seg rest : Text) → seg ≢ [] → Lacks 47 seg → starts_with (seg ++ rest) (codes "/") ≡ false
  unfolding starts_with
  slash_free_head [] rest ne _ = absurd (ne refl)
  slash_free_head (c ∷ seg) rest ne (h, _) = ground arith

  relative_join :
      (first : Text) (rest : List Text)
      → IsSegment allow_at first
      → starts_with (join 47 (first ∷ rest)) (codes "/") ≡ false
  unfolding join
  relative_join first [] h =
      rw (← append-nil first) (slash_free_head first [] h.not_empty (IsSegment-Lacks first h))
  relative_join first (q ∷ ps) h = slash_free_head first _ h.not_empty (IsSegment-Lacks first h)

  pub IsKey-relative : (key : Text) → IsKey allow_at key → starts_with key (codes "/") ≡ false
  IsKey-relative key k = rw k.joined (relative_join k.first k.rest k.segments.0)

  join_head-ne-nil : (first : Text) (rest : List Text) → first ≢ [] → join 47 (first ∷ rest) ≢ []
  unfolding join
  join_head-ne-nil [] rest ne = absurd (ne refl)
  join_head-ne-nil (c ∷ first) [] ne = λ e. cc
  join_head-ne-nil (c ∷ first) (q ∷ ps) ne = λ e. cc

  pub IsKey-ne-nil : (key : Text) → IsKey allow_at key → key ≢ []
  IsKey-ne-nil key k e = join_head-ne-nil k.first k.rest k.segments.0.not_empty (sym k.joined ∙ e)

-- A character of a key: of a segment, or a slash.
abbrev pub IsPathChar : Bool → ℕ → Type 0
IsPathChar allow_at c = IsSegmentChar allow_at c ⊎ (c ≡ b'/')

pub IsKey-chars :
    (allow_at : Bool) (key : Text) → IsKey allow_at key → All (IsPathChar allow_at) key
IsKey-chars allow_at key k = rw k.joined (
    All-join (IsPathChar allow_at) b'/' (k.first ∷ k.rest) (inr refl) (
      All-weaken (λ seg h. All-weaken (λ c kind. inl kind) seg h.chars) (k.first ∷ k.rest)
        k.segments))

module _ (bucket : Text) (b : IsBucketName bucket) where
  pub IsBucketName-Lacks : Lacks 47 bucket
  IsBucketName-Lacks = All-weaken (λ c k. ground arith) bucket b.chars

  pub split_of_IsBucketName : split 47 bucket ≡ bucket ∷ []
  split_of_IsBucketName = split_of_Lacks 47 bucket IsBucketName-Lacks

pub IsBucketName-relative :
    (bucket : Text) → IsBucketName bucket → starts_with bucket (codes "/") ≡ false
unfolding starts_with
IsBucketName-relative [] b = refl
IsBucketName-relative (c ∷ s) b = let k = b.chars.0 in ground arith

IsSegment-allow_at : (seg : Text) → IsSegment false seg → IsSegment true seg
IsSegment-allow_at seg h = record {
  not_empty = h.not_empty;
  not_dot = h.not_dot;
  not_dotdot = h.not_dotdot;
  short = h.short;
  chars = All-weaken (λ c k. ground arith) seg h.chars;
}

-- A key without `@` is one where `@` is allowed.
pub IsKey-allow_at : (key : Text) → IsKey false key → IsKey true key
IsKey-allow_at key k = record {
  first = k.first;
  rest = k.rest;
  joined = k.joined;
  segments = All-weaken IsSegment-allow_at (k.first ∷ k.rest) k.segments;
  extension = k.extension;
  short = k.short;
}

-- A key with an `@` is none where it is not.
pub IsKey-has_at : (key : Text) → has_char b'@' key ≡ true → ¬ IsKey false key
IsKey-has_at key h k =
    let lacks : Lacks b'@' key =
      All-weaken (λ c kind. ground arith) key (IsKey-chars false key k) in
    let absent = (has_char-eq-false b'@' key).1 lacks in absurd (true-ne-false (sym h ∙ absent))
  where
    true-ne-false : ◌≢◌ {A = Bool} true false
    true-ne-false e = cc
