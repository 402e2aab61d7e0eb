-- ===== src/Validation/LongestPrefix.antt =====
-- The loop that both cap tables use: the longest entry that the text starts with.
pub mod Laws
pub mod Table
use ai_storybook_storage_ser.Base.{
  ℕ, Text, Bool, true, ◌&&◌, Option, none, some, List, [], ◌∷◌, length, starts_with, ltb,
  if◌then◌else◌,
}

-- `best is None or len(prefix) > len(best)`
pub improves : Text → Option Text → Bool
improves prefix none = true
improves prefix (some best) = ltb (length best) (length prefix)

unfoldable pub longest_prefix : Text → Option Text → List Text → Option Text
unfolding improves starts_with
longest_prefix text best [] = best
longest_prefix text best (prefix ∷ rest) =
    longest_prefix text
      (if starts_with text prefix && improves prefix best then some prefix else best) rest
