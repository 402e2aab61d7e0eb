-- ===== src/Validation/KeyGrammar/Segments.antt =====
-- The regular expressions and the check of one segment, against the grammar.
use ai_storybook_storage_ser.Base.{
  ℕ, zero, suc, Text, codes, Bool, true, false, ◌≡◌, ◌≢◌, refl, ◌↔◌, ◌≤◌, List, [], ◌∷◌, length,
  all, inl, inr, All, all_iff, Lacks, arith, text_eq_iff, some, Option-cases, after_last,
  after_last-some, after_last-append,
}
use ai_storybook_storage_ser.Errors.{ok}
use ai_storybook_storage_ser.Validation.KeyGrammar.{
  at_end, class_star, class_plus, class_between, segment_char, bucket_char, check_segment,
  check_segments, check_extension,
}
use ai_storybook_storage_ser.Validation.KeyGrammar.Grammar.{
  IsSegmentChar, IsSegment, HasExtension, IsBucketChar, IsBucketName,
}

segment_char_iff :
    (allow_at : Bool) (c : ℕ) → (segment_char allow_at c ≡ true) ↔ IsSegmentChar allow_at c
unfolding segment_char
segment_char_iff allow_at c = (λ h. ground arith, λ h. ground arith)

bucket_char_iff : (c : ℕ) → (bucket_char c ≡ true) ↔ IsBucketChar c
unfolding bucket_char
bucket_char_iff c = (λ h. ground arith, λ h. ground arith)

-- Without a newline in the text `$` is the end of it.
module _ (p : ℕ → Bool) where
  at_end_of_Lacks : (c : ℕ) (s : Text) → c ≢ 10 → at_end (c ∷ s) ≡ false
  unfolding at_end
  at_end_of_Lacks c [] h = ground arith
  at_end_of_Lacks c (d ∷ s) h = refl

  class_star-eq-all : (s : Text) → Lacks 10 s → class_star p s ≡ all p s
  unfolding class_star
  class_star-eq-all [] _ = refl
  class_star-eq-all (c ∷ s) (h, hs) = rw (at_end_of_Lacks c s h, class_star-eq-all s hs)

  pub class_plus_iff :
      (s : Text) → Lacks 10 s → (class_plus p s ≡ true) ↔ ((s ≢ []) × (all p s ≡ true))
  unfolding class_plus
  class_plus_iff [] _ = (λ h. cc, λ h. absurd (h.0 refl))
  class_plus_iff (c ∷ s) (h, hs) = rw (class_star-eq-all s hs) (λ e. ((λ q. cc), e), λ e. e.1)

IsSegmentChar-ne-newline : (allow_at : Bool) (c : ℕ) → IsSegmentChar allow_at c → c ≢ 10
IsSegmentChar-ne-newline allow_at c h = ground arith

chars_iff :
    (allow_at : Bool) (s : Text)
    → (all (segment_char allow_at) s ≡ true) ↔ All (IsSegmentChar allow_at) s
chars_iff allow_at =
    all_iff (IsSegmentChar allow_at) (segment_char allow_at) (segment_char_iff allow_at)

-- The check of a segment accepts exactly the segments of the grammar.
pub check_segment_iff :
    (allow_at : Bool) (seg : Text)
    → Lacks 10 seg
    → (check_segment allow_at seg ≡ ok tt) ↔ IsSegment allow_at seg
unfolding check_segment
check_segment_iff allow_at seg lacks =
    let plus = class_plus_iff (segment_char allow_at) seg lacks in
    let chars = chars_iff allow_at seg in
    let e0 = text_eq_iff seg [] in
    let e1 = text_eq_iff seg (codes ".") in
    let e2 = text_eq_iff seg (codes "..") in
    (
      λ h. record {
        not_empty = ground arith;
        not_dot = ground arith;
        not_dotdot = ground arith;
        short = ground arith;
        chars = chars.0 (ground arith);
      },
      λ h. let fits = chars.1 h.chars in ground arith,
    )

pub check_segments_iff :
    (allow_at : Bool) (segs : List Text)
    → All (Lacks 10) segs
    → (check_segments allow_at segs ≡ ok tt) ↔ All (IsSegment allow_at) segs
unfolding check_segments
check_segments_iff allow_at [] _ = (λ _. tt, λ _. refl)
check_segments_iff allow_at (seg ∷ segs) (h, hs) =
    let one = check_segment_iff allow_at seg h in
    let more = check_segments_iff allow_at segs hs in
    (λ e. (one.0 (ground arith), more.0 (ground arith)), λ (s, ss). rw (one.1 s) (more.1 ss))

-- The test on the last segment asks for a dot and a non-empty extension behind the last one.
pub check_extension_iff : (last : Text) → (check_extension last ≡ ok tt) ↔ HasExtension last
unfolding check_extension
check_extension_iff last = (
  λ h. found h,
  λ (stem, ext, e, ne, lacks).
      let d : after_last 46 last ≡ some ext = rw e (after_last-append 46 stem ext lacks) in
      ground (arith, text_eq_iff ext []),
)
  where
    found : check_extension last ≡ ok tt → HasExtension last
    found h = elim (Option-cases (after_last 46 last)) [
      | inl e ↦ absurd (ground arith)
      | inr (ext, e) ↦
          let (stem, spelled, lacks) = after_last-some 46 last ext e in
          (stem, ext, spelled, ground (arith, text_eq_iff ext []), lacks)
    ]

-- `{lo,hi}` counts the characters, in a text without a newline.
class_between_iff :
    (p : ℕ → Bool) (lo hi : ℕ) (s : Text)
    → lo ≤ hi
    → Lacks 10 s
    → (class_between p lo hi s ≡ true) ↔ ((lo ≤ length s) × (length s ≤ hi) × (all p s ≡ true))
unfolding class_between at_end
class_between_iff p zero zero [] le _ = (λ h. ground arith, λ h. refl)
class_between_iff p zero zero (c ∷ s) le (k, ks) =
    rw (at_end_of_Lacks p c s k) (λ h. cc, λ h. absurd (omega (arith, h.1)))
class_between_iff p zero (suc hi) [] le _ = (λ h. ground arith, λ h. refl)
class_between_iff p zero (suc hi) (c ∷ s) le (k, ks) =
    let ih = class_between_iff p zero hi s (omega arith) ks in
    rw (at_end_of_Lacks p c s k) (λ h. ground arith, λ h. ground arith)
class_between_iff p (suc lo) zero s le _ = absurd (omega arith)
class_between_iff p (suc lo) (suc hi) [] le _ = (λ h. cc, λ h. absurd (omega (arith, h.0)))
class_between_iff p (suc lo) (suc hi) (c ∷ s) le (k, ks) =
    let ih = class_between_iff p lo hi s (omega arith) ks in (λ h. ground arith, λ h. ground arith)

pub bucket_pattern_iff :
    (s : Text) → Lacks 10 s → (class_between bucket_char 3 63 s ≡ true) ↔ IsBucketName s
bucket_pattern_iff s lacks =
    let counted = class_between_iff bucket_char 3 63 s (omega arith) lacks in
    let chars = all_iff IsBucketChar bucket_char bucket_char_iff s in
    (
      λ h. record {
        long = (counted.0 h).0;
        short = (counted.0 h).1;
        chars = chars.0 (counted.0 h).2;
      },
      λ h. counted.1 (h.long, h.short, chars.1 h.chars),
    )
