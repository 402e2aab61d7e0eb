-- ===== src/Validation/KeyGrammar/Accepts.antt =====
-- What `validate_bucket`, `validate_key` and `validate` accept.
use ai_storybook_storage_ser.Base.{
  ℕ, Text, Bool, true, false, ◌≡◌, ◌≢◌, refl, ◌↔◌, ◌≤◌, List, [], ◌∷◌, any_iff, sym, ◌∙◌, length,
  All, All-weaken, any, Lacks, last_or, split, join, join-split, split-join, split-ne-nil,
  All-split, All-join, has_char-eq-false, starts_with, text_eq, member, member-All, arith, ltb,
}
use ai_storybook_storage_ser.Errors.{ok}
use ai_storybook_storage_ser.Settings.{Settings}
use ai_storybook_storage_ser.Validation.KeyGrammar.{
  max_key_len, bucket_char, class_between, check_key, check_segments, check_extension,
  validate_bucket, validate_key,
}
use ai_storybook_storage_ser.Validation.KeyGrammar.Grammar.{
  IsSegmentChar, IsSegment, HasExtension, IsKey, IsBucketName,
}
use ai_storybook_storage_ser.Validation.KeyGrammar.Segments.{
  check_segments_iff, check_extension_iff, bucket_pattern_iff,
}

-- A character that the tests on the whole key let pass.
abbrev IsKeyChar : ℕ → Type 0
IsKeyChar c = (0x20 ≤ c) × (c ≢ 92) × (c ≢ b'%')

IsKeyChar-ne-newline : (c : ℕ) → 0x20 ≤ c → c ≢ 10
IsKeyChar-ne-newline c h = ground arith

IsSegmentChar-IsKeyChar : (allow_at : Bool) (c : ℕ) → IsSegmentChar allow_at c → IsKeyChar c
IsSegmentChar-IsKeyChar allow_at c h = ground arith

IsSegmentChar-ne-slash : (allow_at : Bool) (c : ℕ) → IsSegmentChar allow_at c → c ≢ 47
IsSegmentChar-ne-slash allow_at c h = ground arith

no_control_iff : (key : Text) → (any (λ c. ltb c 0x20) key ≡ false) ↔ All (λ c. 0x20 ≤ c) key
no_control_iff =
    any_iff (λ c. 0x20 ≤ c) (λ c. ltb c 0x20) (λ c. (λ h. ground arith, λ h. ground arith))

check_key_passed :
    (key : Text) → check_key key ≡ ok tt → All (λ c. 0x20 ≤ c) key × (length key ≤ max_key_len)
unfolding check_key
check_key_passed key h = ((no_control_iff key).0 (ground arith), ground arith)

-- A relative text of legal characters passes.
check_key_passes :
    (c : ℕ) (s : Text)
    → c ≢ 47
    → All IsKeyChar (c ∷ s)
    → length (c ∷ s) ≤ max_key_len
    → check_key (c ∷ s) ≡ ok tt
unfolding check_key starts_with text_eq
check_key_passes c s ne chars short =
    let control = (no_control_iff (c ∷ s)).1 (All-weaken (λ a h. h.0) (c ∷ s) chars) in
    let backslash = (has_char-eq-false 92 (c ∷ s)).1 (All-weaken (λ a h. h.1) (c ∷ s) chars) in
    let percent = (has_char-eq-false b'%' (c ∷ s)).1 (All-weaken (λ a h. h.2) (c ∷ s) chars) in
    rw (backslash, percent, control) (ground arith)

module _ (allow_at : Bool) where
  IsSegment-Lacks : (seg : Text) → IsSegment allow_at seg → Lacks 47 seg
  IsSegment-Lacks seg h = All-weaken (IsSegmentChar-ne-slash allow_at) seg h.chars

  IsKey-of_parts :
      (key : Text) (segs : List Text)
      → key ≡ join 47 segs
      → All (IsSegment allow_at) segs
      → HasExtension (last_or [] segs)
      → segs ≢ []
      → length key ≤ max_key_len
      → IsKey allow_at key
  IsKey-of_parts key [] joined ss ext ne short = absurd (ne refl)
  IsKey-of_parts key (first ∷ rest) joined ss ext ne short = record {
    first = first;
    rest = rest;
    joined = joined;
    segments = ss;
    extension = ext;
    short = short;
  }

  join_head :
      (first : Text) (rest : List Text)
      → IsSegment allow_at first
      → (c : ℕ) × (s : Text) × (join 47 (first ∷ rest) ≡ c ∷ s) × (c ≢ 47)
  unfolding join
  join_head [] rest h = absurd (h.not_empty refl)
  join_head (c ∷ s) [] h = (c, s, refl, IsSegmentChar-ne-slash allow_at c h.chars.0)
  join_head (c ∷ s) (q ∷ ps) h = (c, _, refl, IsSegmentChar-ne-slash allow_at c h.chars.0)

  accepted : (key : Text) → validate_key allow_at key ≡ ok tt → IsKey allow_at key
  unfolding validate_key
  accepted key h =
      let whole : check_key key ≡ ok tt = ground arith in
      let each : check_segments allow_at (split 47 key) ≡ ok tt = ground arith in
      let ending : check_extension (last_or [] (split 47 key)) ≡ ok tt = ground arith in
      let (printable, short) = check_key_passed key whole in
      let lacks = All-split (λ c. c ≢ 10) 47 key (All-weaken IsKeyChar-ne-newline key printable) in
      IsKey-of_parts key (split 47 key) (sym (join-split 47 key))
        ((check_segments_iff allow_at (split 47 key) lacks).0 each)
        ((check_extension_iff _).0 ending) (split-ne-nil 47 key) short

  newline_free : (segs : List Text) → All (IsSegment allow_at) segs → All (Lacks 10) segs
  newline_free segs ss = All-weaken (λ seg h. All-weaken (λ c k. ground arith) seg h.chars) segs ss

  legal : (segs : List Text) → All (IsSegment allow_at) segs → All (All IsKeyChar) segs
  legal segs ss =
      All-weaken (λ seg h. All-weaken (IsSegmentChar-IsKeyChar allow_at) seg h.chars) segs ss

  check_key_of_IsKey : (key : Text) → IsKey allow_at key → check_key key ≡ ok tt
  check_key_of_IsKey key k =
      let segs = k.first ∷ k.rest in
      let (c, s, e, ne) = join_head k.first k.rest k.segments.0 in
      let whole : key ≡ c ∷ s = k.joined ∙ e in
      let chars = All-join IsKeyChar 47 segs (ground arith) (legal segs k.segments) in
      rw whole (check_key_passes c s ne (rw e at chars) (rw whole at k.short))

  accepts : (key : Text) → IsKey allow_at key → validate_key allow_at key ≡ ok tt
  unfolding validate_key
  accepts key k =
      let segs = k.first ∷ k.rest in
      let slashless = All-weaken IsSegment-Lacks segs k.segments in
      let parts : split 47 key ≡ segs = rw k.joined (split-join 47 k.first k.rest slashless) in
      let whole = check_key_of_IsKey key k in
      let each = (check_segments_iff allow_at segs (newline_free segs k.segments)).1 k.segments in
      rw (whole, parts, each) ((check_extension_iff _).1 k.extension)

-- `validate_key` accepts exactly the keys of the grammar: segments joined by single slashes, none
-- empty, `.` or `..`, each of at most 255 legal characters (`@` only with `allow_at`), the last one
-- with a non-empty extension, and at most 1024 characters in all.
pub validate_key_iff :
    (allow_at : Bool) (key : Text) → (validate_key allow_at key ≡ ok tt) ↔ IsKey allow_at key
validate_key_iff allow_at key = (accepted allow_at key, accepts allow_at key)

-- If no configured bucket name holds a newline, `validate_bucket` accepts exactly the configured
-- names of 3 to 63 characters `a-z`, `0-9`, `-`.
pub validate_bucket_iff :
    (settings : Settings) (bucket : Text)
    → All (Lacks 10) settings.buckets
    → (validate_bucket settings bucket ≡ ok tt)
      ↔ (IsBucketName bucket × (member bucket settings.buckets ≡ true))
unfolding validate_bucket
validate_bucket_iff settings bucket clean = (
  λ h.
      let known : member bucket settings.buckets ≡ true = ground arith in
      let pattern : class_between bucket_char 3 63 bucket ≡ true = ground arith in
      let lacks = member-All (Lacks 10) bucket settings.buckets clean known in
      ((bucket_pattern_iff bucket lacks).0 pattern, known),
  λ (name, known).
      let lacks = member-All (Lacks 10) bucket settings.buckets clean known in
      let pattern = (bucket_pattern_iff bucket lacks).1 name in ground arith,
)
