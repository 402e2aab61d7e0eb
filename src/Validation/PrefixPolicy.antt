-- ===== src/Validation/PrefixPolicy.antt =====
-- src/validation/prefix_policy.py
pub mod Gate
use ai_storybook_storage_ser.Base.{
  ℕ, Text, Bool, false, Option, none, some, List, [], ◌∷◌, text_eq, starts_with, strip, lower,
  before_first, ltb, if◌then◌else◌,
}
use ai_storybook_storage_ser.Errors.{
  Result, ok, err, ◌>>=◌, ◌>>◌, prefix_not_allowed, unsupported_media_type, payload_too_large,
}
use ai_storybook_storage_ser.Settings.{Settings, keys}
use ai_storybook_storage_ser.Validation.LongestPrefix.{longest_prefix}
use ai_storybook_storage_ser.Validation.SizeCaps.{get_item}

pub check_prefixes : Text → List Text → Result (Unit {0})
unfolding starts_with
check_prefixes key [] = ok tt
check_prefixes key (prefix ∷ rest) =
    let more = check_prefixes key rest in
    if starts_with key prefix then err prefix_not_allowed else more

unfoldable pub check_user_writable : Settings → Text → Result (Unit {0})
unfolding check_prefixes
check_user_writable settings key = check_prefixes key settings.service_only_prefixes

-- `(content_type or "").split(";", 1)[0].strip().lower()`
unfoldable pub mime_of : Option Text → Text
unfolding before_first strip lower
mime_of none = []
mime_of (some content_type) = lower (strip (before_first b';' content_type))

unfoldable pub resolve_user_cap : Settings → Option Text → Result ℕ
unfolding mime_of longest_prefix get_item keys
resolve_user_cap settings content_type =
    let ct = mime_of content_type in
    elim (longest_prefix ct none (keys settings.user_mime_caps)) [
      | none ↦ err unsupported_media_type
      | some best ↦
          if text_eq ct []
          then err unsupported_media_type
          else get_item settings.user_mime_caps best
    ]

-- `size is not None and size > cap`
abbrev pub exceeds : Option ℕ → ℕ → Bool
exceeds none cap = false
exceeds (some size) cap = ltb cap size

unfoldable pub check_user_upload : Settings → Text → Option Text → Option ℕ → Result ℕ
unfolding check_user_writable resolve_user_cap
check_user_upload settings key content_type size = do
  check_user_writable settings key
  cap ← resolve_user_cap settings content_type
  if exceeds size cap then err payload_too_large else ok cap
