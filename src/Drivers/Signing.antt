-- ===== src/Drivers/Signing.antt =====
-- src/drivers/signing.py: the HMAC of signed URLs.
use ai_storybook_storage_ser.Base.{
  ℕ, ℤ, leb_ℤ, IsBelow, str_ℤ, str_ℤ-injective, sep-injective, Text, codes, Bool, true, false, ◌≡◌,
  refl, sym, ap, ◌↔◌, ◌++◌, ltb, ◌&&◌, all, Lacks, All-weaken, text_eq, text_eq_iff, if◌then◌else◌,
  arith,
}
use ai_storybook_storage_ser.Errors.{Exn, Result, ok, err}
use ai_storybook_storage_ser.Validation.KeyGrammar.Grammar.{IsKey, IsBucketName}
use ai_storybook_storage_ser.Validation.KeyGrammar.Parts.{IsBucketName-Lacks, IsKey-chars}

-- The HMAC-SHA256 of a message under a key, as a hex digest.
abbrev pub HmacSha256 : Type 0
HmacSha256 = Text → Text → Text

-- `_message`, before its UTF-8 encoding
unfoldable pub message : Text → Text → ℤ → Text
unfolding str_ℤ
message bucket key exp = bucket ++ (codes "/" ++ (key ++ (codes ":" ++ str_ℤ exp)))

unfoldable pub sign : HmacSha256 → Text → Text → Text → ℤ → Text
unfolding message
sign hmac secret bucket key exp = hmac secret (message bucket key exp)

abbrev is_ascii : Text → Bool
is_ascii = all (λ c. ltb c 128)

-- `secrets.compare_digest` on two `str`: a `TypeError` if one of them is not ASCII.
unfoldable pub compare_digest : Text → Text → Result Bool
compare_digest a b = if is_ascii a && is_ascii b then ok (text_eq a b) else err Exn.type_error

-- `verify` at the time `current`
unfoldable pub verify : HmacSha256 → Text → Text → Text → ℤ → Text → ℕ → Result Bool
unfolding sign compare_digest
verify hmac secret bucket key exp sig current =
    if leb_ℤ exp current then ok false else compare_digest (sign hmac secret bucket key exp) sig

compared :
    (both_ascii same : Bool)
    → (if both_ascii then ok same else err Exn.type_error) ≡ ok true
    → same ≡ true
compared true true h = refl
compared true false h = cc
compared false same h = cc

compare_digest-true : (a b : Text) → compare_digest a b ≡ ok true → a ≡ b
unfolding compare_digest
compare_digest-true a b h =
    (text_eq_iff a b).0 (compared (is_ascii a && is_ascii b) (text_eq a b) h)

in_time :
    (late : Bool) (answer : Result Bool)
    → (if late then ok false else answer) ≡ ok true
    → (late ≡ false) × (answer ≡ ok true)
in_time true answer h = cc
in_time false answer h = (refl, h)

compare_digest_self : (a : Text) → is_ascii a ≡ true → compare_digest a a ≡ ok true
unfolding compare_digest
compare_digest_self a h = rw h (ap ok ((text_eq_iff a a).1 refl))

-- A signature is accepted exactly before its expiry and exactly if it is the one that `sign` makes
-- for this bucket, key and expiry under this secret, given that hex digests are ASCII.
pub verify_iff :
    (hmac : HmacSha256) (secret bucket key : Text) (exp : ℤ) (sig : Text) (current : ℕ)
    → ((k m : Text) → all (λ c. ltb c 128) (hmac k m) ≡ true)
    → (verify hmac secret bucket key exp sig current ≡ ok true)
      ↔ (IsBelow current exp × (sig ≡ sign hmac secret bucket key exp))
unfolding verify sign
verify_iff hmac secret bucket key exp sig current ascii = (
  λ h.
      let (early, same) = in_time (leb_ℤ exp current) _ h in
      (ground arith, sym (compare_digest-true (sign hmac secret bucket key exp) sig same)),
  λ (early, same).
      let not_late : leb_ℤ exp current ≡ false = ground arith in
      rw (same, not_late)
        (compare_digest_self (sign hmac secret bucket key exp) (ascii_signature bucket key exp)),
)
  where
    ascii_signature :
        (bucket key : Text) (exp : ℤ) → is_ascii (sign hmac secret bucket key exp) ≡ true
    ascii_signature bucket key exp = ascii secret (message bucket key exp)

IsKey-Lacks_colon : (allow_at : Bool) (key : Text) → IsKey allow_at key → Lacks b':' key
IsKey-Lacks_colon allow_at key k = All-weaken (λ c h. ground arith) key (IsKey-chars allow_at key k)

-- The message that is signed determines the bucket, the key and the expiry, for buckets and keys of the
-- grammar.
pub message-injective :
    (allow_at allow_at' : Bool) (bucket key bucket' key' : Text) (exp exp' : ℤ)
    → IsBucketName bucket
    → IsBucketName bucket'
    → IsKey allow_at key
    → IsKey allow_at' key'
    → message bucket key exp ≡ message bucket' key' exp'
    → (bucket ≡ bucket') × (key ≡ key') × (exp ≡ exp')
unfolding message
message-injective allow_at allow_at' bucket key bucket' key' exp exp' b b' k k' e =
    let (same_bucket, rest) =
      sep-injective b'/' bucket bucket' _ _ (IsBucketName-Lacks bucket b)
        (IsBucketName-Lacks bucket' b') e in
    let (same_key, exps) =
      sep-injective b':' key key' _ _ (IsKey-Lacks_colon allow_at key k)
        (IsKey-Lacks_colon allow_at' key' k') rest in
    (same_bucket, same_key, str_ℤ-injective exp exp' exps)
