-- ===== src/Validation/KeyGrammar.antt =====
-- src/validation/key_grammar.py. A regular expression `^[…]+$` is read the way `re` reads it: `$`
-- also matches before a newline at the end.
pub mod Grammar
pub mod Segments
pub mod Accepts
pub mod Parts
use ai_storybook_storage_ser.Base.{
  ℕ, zero, suc, Text, codes, Bool, true, false, ◌&&◌, ◌||◌, not, none, some, List, [], ◌∷◌, length,
  any, last_or, text_eq, member, starts_with, has_char, split, after_last, leb, ltb, ◌==◌,
  if◌then◌else◌,
}
use ai_storybook_storage_ser.Errors.{Result, ok, err, validation_error, ◌>>◌}
use ai_storybook_storage_ser.Settings.{Settings}

abbrev pub max_key_len : ℕ
max_key_len = 1024

abbrev pub max_segment_len : ℕ
max_segment_len = 255

-- `$`
at_end : Text → Bool
at_end [] = true
at_end (c ∷ []) = c == 10
at_end (c ∷ d ∷ s) = false

-- `[…]*$`
class_star : (ℕ → Bool) → Text → Bool
class_star p [] = true
class_star p (c ∷ s) = at_end (c ∷ s) || (p c && class_star p s)

-- `^[…]+$`
pub class_plus : (ℕ → Bool) → Text → Bool
class_plus p [] = false
class_plus p (c ∷ s) = p c && class_star p s

-- `^[…]{lo,hi}$`
pub class_between : (ℕ → Bool) → ℕ → ℕ → Text → Bool
class_between p (suc lo) (suc hi) (c ∷ s) = p c && class_between p lo hi s
class_between p zero (suc hi) (c ∷ s) = at_end (c ∷ s) || (p c && class_between p zero hi s)
class_between p zero _ s = at_end s
class_between p (suc lo) _ _ = false

-- `_SEGMENT_RE`, and `_SEGMENT_AT_RE` if `allow_at`
pub segment_char : Bool → ℕ → Bool
segment_char allow_at c =
    (leb 65 c && leb c 90)
    || (leb 97 c && leb c 122)
    || (leb 48 c && leb c 57)
    || (c == 46)
    || (c == 95)
    || (c == 45)
    || (allow_at && (c == 64))

pub bucket_char : ℕ → Bool
bucket_char c = (leb 97 c && leb c 122) || (leb 48 c && leb c 57) || (c == 45)

unfoldable pub validate_bucket : Settings → Text → Result (Unit {0})
unfolding class_between bucket_char at_end
validate_bucket settings bucket =
    if not (class_between bucket_char 3 63 bucket)
    then err (validation_error "Invalid bucket name")
    else if not (member bucket settings.buckets)
    then err (validation_error "Unknown bucket")
    else ok tt

-- One round of the loop over the segments.
unfoldable pub check_segment : Bool → Text → Result (Unit {0})
unfolding class_plus class_star at_end segment_char
check_segment allow_at seg =
    if text_eq seg [] || text_eq seg (codes ".") || text_eq seg (codes "..")
    then err (validation_error "Empty or dot segment not allowed in key")
    else if ltb max_segment_len (length seg)
    then err (validation_error "Key segment too long")
    else if not (class_plus (segment_char allow_at) seg)
    then err (validation_error "Illegal character in key segment")
    else ok tt

unfoldable pub check_segments : Bool → List Text → Result (Unit {0})
unfolding check_segment
check_segments allow_at [] = ok tt
check_segments allow_at (seg ∷ segs) = do check_segment allow_at seg; check_segments allow_at segs

-- The test on `segments[-1]`.
has_no_extension : Text → Bool
has_no_extension last = elim (after_last b'.' last) [ none ↦ true | some ext ↦ text_eq ext [] ]

unfoldable pub check_extension : Text → Result (Unit {0})
unfolding has_no_extension
check_extension last =
    if has_no_extension last then err (validation_error "Key must have a file extension") else ok tt

-- The tests on the whole key, before it is split.
unfoldable pub check_key : Text → Result (Unit {0})
check_key key =
    if text_eq key [] || ltb max_key_len (length key)
    then err (validation_error "Key length out of range")
    else if starts_with key (codes "/")
    then err (validation_error "Key must not start with '/'")
    else if has_char 92 key
    then err (validation_error "Backslash not allowed in key")
    else if has_char b'%' key
    then err (validation_error "Percent-encoding not allowed in key")
    else if any (λ c. ltb c 0x20) key
    then err (validation_error "Control characters not allowed in key")
    else ok tt

unfoldable pub validate_key : Bool → Text → Result (Unit {0})
validate_key allow_at key = do
  check_key key
  let segments = split b'/' key
  check_segments allow_at segments
  check_extension (last_or [] segments)

unfoldable pub validate : Settings → Bool → Text → Text → Result (Unit {0})
validate settings allow_at bucket key = do
  validate_bucket settings bucket
  validate_key allow_at key
