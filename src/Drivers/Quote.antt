-- ===== src/Drivers/Quote.antt =====
-- `urllib.parse.quote`, with which the driver and `signed_get` write keys into URLs.
use ai_storybook_storage_ser.Base.{
  ℕ, Text, Bool, false, ◌≡◌, refl, ap, ◌∙◌, inl, inr, [], ◌∷◌, ◌++◌, ◌+◌, ◌/◌, ◌%◌, ◌||◌, ◌&&◌,
  ◌==◌, leb, ltb, All, if◌then◌else◌, Bool-cases, arith,
}
use ai_storybook_storage_ser.Drivers.FileSystem.Tree.{Bytes}
use ai_storybook_storage_ser.Validation.KeyGrammar.Grammar.{IsKey}
use ai_storybook_storage_ser.Validation.KeyGrammar.Parts.{IsPathChar, IsKey-chars}

-- The UTF-8 encoding of a character.
unfoldable utf8 : ℕ → Bytes
utf8 c =
    if ltb c 0x80
    then c ∷ []
    else if ltb c 0x800
    then (0xc0 + c / 64) ∷ (0x80 + c % 64) ∷ []
    else if ltb c 0x10000
    then (0xe0 + c / 4096) ∷ (0x80 + c / 64 % 64) ∷ (0x80 + c % 64) ∷ []
    else (0xf0 + c / 262144) ∷ (0x80 + c / 4096 % 64) ∷ (0x80 + c / 64 % 64) ∷ (0x80 + c % 64) ∷ []

-- The bytes that stay: letters, digits, `_`, `.`, `-`, `~` and `/`.
unfoldable is_safe : ℕ → Bool
is_safe b =
    (leb 65 b && leb b 90)
    || (leb 97 b && leb b 122)
    || (leb 48 b && leb b 57)
    || (b == 95)
    || (b == 46)
    || (b == 45)
    || (b == 126)
    || (b == 47)

hex_digit : ℕ → ℕ
hex_digit n = if ltb n 10 then 48 + n else 55 + n

unfoldable quote_byte : ℕ → Text
unfolding is_safe hex_digit
quote_byte b = if is_safe b then b ∷ [] else b'%' ∷ hex_digit (b / 16) ∷ hex_digit (b % 16) ∷ []

unfoldable quote_bytes : Bytes → Text
unfolding quote_byte
quote_bytes [] = []
quote_bytes (b ∷ bs) = quote_byte b ++ quote_bytes bs

unfoldable pub quote : Text → Text
unfolding utf8 quote_bytes
quote [] = []
quote (c ∷ s) = quote_bytes (utf8 c) ++ quote s

-- The same for a key: `@` is written `%40`, and nothing else changes.
abbrev escape_at_char : ℕ → Text
escape_at_char c = if c == b'@' then b'%' ∷ b'4' ∷ b'0' ∷ [] else c ∷ []

abbrev pub escape_at : Text → Text
escape_at [] = []
escape_at (c ∷ s) = escape_at_char c ++ escape_at s

quote_bytes_char :
    (allow_at : Bool) (c : ℕ) → IsPathChar allow_at c → quote_bytes (utf8 c) ≡ escape_at_char c
unfolding quote_bytes utf8 quote_byte is_safe hex_digit
quote_bytes_char allow_at c h = elim (Bool-cases (c == b'@')) [
  | inl at ↦ let same : c ≡ b'@' = ground arith in rw same refl
  | inr other ↦ ground arith
]

quote_of_chars : (allow_at : Bool) (s : Text) → All (IsPathChar allow_at) s → quote s ≡ escape_at s
unfolding quote
quote_of_chars allow_at [] h = refl
quote_of_chars allow_at (c ∷ s) (h, hs) =
    rw (quote_bytes_char allow_at c h, quote_of_chars allow_at s hs)

plain_chars : (s : Text) → All (IsPathChar false) s → escape_at s ≡ s
plain_chars [] h = refl
plain_chars (c ∷ s) (h, hs) =
    let other : (c == b'@') ≡ false = ground arith in
    rw other (ap (λ (t : Text). c ∷ t) (plain_chars s hs))

-- In a key of the grammar `quote` escapes each `@` as `%40` and changes nothing else.
pub quote_of_IsKey : (allow_at : Bool) (key : Text) → IsKey allow_at key → quote key ≡ escape_at key
quote_of_IsKey allow_at key k = quote_of_chars allow_at key (IsKey-chars allow_at key k)

-- A key without `@` stays as it is.
pub quote_of_plain : (key : Text) → IsKey false key → quote key ≡ key
quote_of_plain key k = quote_of_IsKey false key k ∙ plain_chars key (IsKey-chars false key k)
