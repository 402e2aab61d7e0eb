-- ===== src/Validation/SizeCaps.antt =====
-- src/validation/size_caps.py
pub mod Longest
use ai_storybook_storage_ser.Base.{ℕ, Text, Option, none, some}
use ai_storybook_storage_ser.Errors.{Exn, Result, ok, err}
use ai_storybook_storage_ser.Settings.{Settings, Dict, keys, lookup}
use ai_storybook_storage_ser.Validation.LongestPrefix.{longest_prefix}

-- `d[k]`
unfoldable pub get_item : Dict ℕ → Text → Result ℕ
unfolding lookup
get_item d k = elim (lookup k d) [ none ↦ err Exn.key_error | some v ↦ ok v ]

unfoldable pub resolve_s2s_cap : Settings → Text → Result ℕ
unfolding longest_prefix get_item keys
resolve_s2s_cap settings key = elim (longest_prefix key none (keys settings.prefix_size_caps)) [
  | some best_prefix ↦ get_item settings.prefix_size_caps best_prefix
  | none ↦ ok settings.storage_max_object_bytes
]
