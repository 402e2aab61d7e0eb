-- ===== src/Auth/UserJwt.antt =====
-- src/auth/user_jwt.py, with `_jwks_uri` and `get_signing_key` of src/auth/jwks_cache.py.
use ai_storybook_storage_ser.Base.{
  ℕ, Text, codes, false, ◌≡◌, ◌≢◌, refl, ◌⊎◌, inl, inr, Option, none, some, List, [], ◌∷◌, ◌++◌,
  text_eq, text_eq_iff, strip, lower, rstrip_char, Bool-cases, Option-cases, if◌then◌else◌, arith,
}
use ai_storybook_storage_ser.Settings.{Settings}
use ai_storybook_storage_ser.Errors.{Exn, Result, ok, err, unauthorized}
use ai_storybook_storage_ser.Auth.{Principal, Credentials, user}

-- How a call of PyJWT ends: with a value, with `InvalidTokenError`, with another `PyJWTError`, or with
-- an exception that is neither (a `TypeError` or a `RecursionError`, say).
pub data Jwt (A : Type 0) : Type 0 where
  returned : A → Jwt A
  invalid_token_error other_py_jwt_error : Jwt A
  other_exception : Exn → Jwt A

-- The claims that the source reads: `sub`, as a string.
pub record Claims : Type 0 where
  pub sub : Option Text

pub record DecodeOptions : Type 0 where
  pub algorithms : List Text
  pub audience : Text
  pub leeway : ℕ
  pub require : List Text

-- PyJWT: `jwt.decode(token, key, …)`, and `get_signing_key_from_jwt` of a client of a JWKS URI.
pub record PyJwt : Type 0 where
  pub decode : Text → Text → DecodeOptions → Jwt Claims
  pub signing_key_from_jwt : Text → Text → Jwt Text

abbrev pub hs_algs : List Text
hs_algs = codes "HS256" ∷ []

abbrev pub jwks_algs : List Text
jwks_algs = codes "RS256" ∷ codes "ES256" ∷ []

-- The options that `_decode` passes, but for the algorithms.
abbrev pub options : List Text → DecodeOptions
options algorithms = record {
  algorithms = algorithms;
  audience = codes "authenticated";
  leeway = 30;
  require = codes "exp" ∷ codes "aud" ∷ [];
}

pub jwks_uri : Text → Text
unfolding rstrip_char
jwks_uri supabase_url = rstrip_char b'/' supabase_url ++ codes "/auth/v1/.well-known/jwks.json"

unfoldable pub get_signing_key : PyJwt → Text → Text → Jwt Text
unfolding jwks_uri
get_signing_key jwt supabase_url token = jwt.signing_key_from_jwt (jwks_uri supabase_url) token

unfoldable decode_with : PyJwt → Text → Jwt Text → Jwt Claims
decode_with jwt token (returned key) = jwt.decode token key (options jwks_algs)
decode_with jwt token invalid_token_error = invalid_token_error
decode_with jwt token other_py_jwt_error = other_py_jwt_error
decode_with jwt token (other_exception e) = other_exception e

-- `_decode`
unfoldable pub decode : PyJwt → Settings → Text → Result (Jwt Claims)
unfolding get_signing_key decode_with
decode jwt settings token =
    if text_eq settings.supabase_jwt_secret []
    then (if text_eq settings.supabase_url []
        then err unauthorized
        else ok (decode_with jwt token (get_signing_key jwt settings.supabase_url token)))
    else ok (jwt.decode token settings.supabase_jwt_secret (options hs_algs))

unfoldable principal_of : Option Text → Result Principal
principal_of none = err unauthorized
principal_of (some []) = err unauthorized
principal_of (some (c ∷ s)) = ok (record { kind = user; name = c ∷ s })

unfoldable authenticate : Result (Jwt Claims) → Result Principal
unfolding principal_of
authenticate (ok (returned claims)) = principal_of claims.sub
authenticate (ok invalid_token_error) = err unauthorized
authenticate (ok other_py_jwt_error) = err unauthorized
authenticate (ok (other_exception e)) = err e
authenticate (err e) = err e

unfoldable pub authenticate_token : PyJwt → Settings → Text → Result Principal
unfolding decode authenticate
authenticate_token jwt settings token = authenticate (decode jwt settings token)

-- The token of a Bearer header, if there is one.
unfoldable pub bearer_token : Option Credentials → Option Text
unfolding lower strip
bearer_token none = none
bearer_token (some c) =
    if text_eq (lower c.scheme) (codes "bearer")
    then (elim (strip c.credentials) [ [] ↦ none | x ∷ s ↦ some (x ∷ s) ])
    else none

unfoldable pub require_user_jwt : PyJwt → Settings → Option Credentials → Result Principal
unfolding bearer_token authenticate_token
require_user_jwt jwt settings credentials = elim (bearer_token credentials) [
  | none ↦ err unauthorized
  | some token ↦ authenticate_token jwt settings token
]

-- The two calls fail with the same exception.
abbrev pub FailsAlike : Jwt Text → Jwt Claims → Type 0
FailsAlike invalid_token_error invalid_token_error = Unit
FailsAlike other_py_jwt_error other_py_jwt_error = Unit
FailsAlike (other_exception e) (other_exception e') = e ≡ e'
FailsAlike _ _ = ⊥

-- What PyJWT says of the token, with algorithms that the token does not choose: with the shared secret
-- and HS256 if there is a secret, else with a key of the JWKS and RS256 or ES256 if there is a URL, where
-- the failure to find a key is the answer too.
pub data IsAnswer (jwt : PyJwt) (settings : Settings) (token : Text) (answer : Jwt Claims)
    : Type 0 where
  with_secret :
      settings.supabase_jwt_secret ≢ []
      → jwt.decode token settings.supabase_jwt_secret (options hs_algs) ≡ answer
      → IsAnswer jwt settings token answer
  with_jwks :
      (key : Text)
      → settings.supabase_jwt_secret ≡ []
      → settings.supabase_url ≢ []
      → jwt.signing_key_from_jwt (jwks_uri settings.supabase_url) token ≡ returned key
      → jwt.decode token key (options jwks_algs) ≡ answer
      → IsAnswer jwt settings token answer
  without_key :
      settings.supabase_jwt_secret ≡ []
      → settings.supabase_url ≢ []
      → FailsAlike (jwt.signing_key_from_jwt (jwks_uri settings.supabase_url) token) answer
      → IsAnswer jwt settings token answer

-- The ends of a user's authentication, each with its cause.
pub data UserOutcome (jwt : PyJwt) (settings : Settings) (credentials : Option Credentials)
    : Result Principal → Type 0 where
  no_token :
      bearer_token credentials ≡ none → UserOutcome jwt settings credentials (err unauthorized)
  no_verifier :
      settings.supabase_jwt_secret ≡ []
      → settings.supabase_url ≡ []
      → UserOutcome jwt settings credentials (err unauthorized)
  rejected :
      (token : Text)
      → bearer_token credentials ≡ some token
      → IsAnswer jwt settings token invalid_token_error
        ⊎ IsAnswer jwt settings token other_py_jwt_error
      → UserOutcome jwt settings credentials (err unauthorized)
  nameless :
      (token : Text) (claims : Claims)
      → bearer_token credentials ≡ some token
      → IsAnswer jwt settings token (returned claims)
      → (claims.sub ≡ none) ⊎ (claims.sub ≡ some [])
      → UserOutcome jwt settings credentials (err unauthorized)
  escaped :
      (token : Text) (e : Exn)
      → bearer_token credentials ≡ some token
      → IsAnswer jwt settings token (other_exception e)
      → UserOutcome jwt settings credentials (err e)
  accepted :
      (token : Text) (claims : Claims) (sub : Text)
      → bearer_token credentials ≡ some token
      → IsAnswer jwt settings token (returned claims)
      → claims.sub ≡ some sub
      → sub ≢ []
      → UserOutcome jwt settings credentials (ok (record { kind = user; name = sub }))

Jwt-cases :
    {A : Type 0} (r : Jwt A)
    → ((a : A) × (r ≡ returned a))
      ⊎ ((r ≡ invalid_token_error)
          ⊎ ((r ≡ other_py_jwt_error) ⊎ ((e : Exn) × (r ≡ other_exception e))))
Jwt-cases (returned a) = inl (a, refl)
Jwt-cases invalid_token_error = inr (inl refl)
Jwt-cases other_py_jwt_error = inr (inr (inl refl))
Jwt-cases (other_exception e) = inr (inr (inr (e, refl)))

decode_with-IsAnswer :
    (jwt : PyJwt) (settings : Settings) (token : Text)
    → settings.supabase_jwt_secret ≡ []
    → settings.supabase_url ≢ []
    → IsAnswer jwt settings token
        (decode_with jwt token (get_signing_key jwt settings.supabase_url token))
unfolding get_signing_key decode_with
decode_with-IsAnswer jwt settings token no_secret url =
    elim (Jwt-cases (jwt.signing_key_from_jwt (jwks_uri settings.supabase_url) token)) [
      | inl (key, e) ↦ rw (e, decode_with) (with_jwks key no_secret url e refl)
      | inr (inl e) ↦ rw (e, decode_with) (without_key no_secret url (rw e tt))
      | inr (inr (inl e)) ↦ rw (e, decode_with) (without_key no_secret url (rw e tt))
      | inr (inr (inr (x, e))) ↦ rw (e, decode_with) (without_key no_secret url (rw e refl))
    ]

text_eq-ne : (t : Text) → text_eq t [] ≡ false → t ≢ []
text_eq-ne t h e = ground (arith, text_eq_iff t [])

-- `_decode` fails closed, or it gives the answer of PyJWT.
decode_cases :
    (jwt : PyJwt) (settings : Settings) (token : Text)
    → ((settings.supabase_jwt_secret ≡ [])
        × (settings.supabase_url ≡ [])
        × (decode jwt settings token ≡ err unauthorized))
      ⊎ ((answer : Jwt Claims) × IsAnswer jwt settings token answer
          × (decode jwt settings token ≡ ok answer))
unfolding decode
decode_cases jwt settings token = elim (Bool-cases (text_eq settings.supabase_jwt_secret [])) [
  | inr secret ↦ inr (
    jwt.decode token settings.supabase_jwt_secret (options hs_algs),
    with_secret (text_eq-ne settings.supabase_jwt_secret secret) refl,
    rw (secret, decode),
  )
  | inl no_secret ↦ elim (Bool-cases (text_eq settings.supabase_url [])) [
    | inl no_url ↦ inl (
      (text_eq_iff settings.supabase_jwt_secret []).0 no_secret,
      (text_eq_iff settings.supabase_url []).0 no_url,
      rw (no_secret, decode) (rw no_url refl),
    )
    | inr url ↦ inr (
      decode_with jwt token (get_signing_key jwt settings.supabase_url token),
      decode_with-IsAnswer jwt settings token
          ((text_eq_iff settings.supabase_jwt_secret []).0 no_secret)
          (text_eq-ne settings.supabase_url url),
      rw (no_secret, decode) (rw url refl),
    )
  ]
]

module _ (jwt : PyJwt) (settings : Settings) (credentials : Option Credentials) (token : Text)
    (present : bearer_token credentials ≡ some token) where
  principal_of-UserOutcome :
      (claims : Claims) (sub : Option Text)
      → IsAnswer jwt settings token (returned claims)
      → claims.sub ≡ sub
      → UserOutcome jwt settings credentials (principal_of sub)
  unfolding principal_of
  principal_of-UserOutcome claims none answer is_sub =
      nameless token claims present answer (inl is_sub)
  principal_of-UserOutcome claims (some []) answer is_sub =
      nameless token claims present answer (inr is_sub)
  principal_of-UserOutcome claims (some (c ∷ s)) answer is_sub =
      accepted token claims (c ∷ s) present answer is_sub (λ e. cc)

  authenticate-UserOutcome :
      (answer : Jwt Claims)
      → IsAnswer jwt settings token answer
      → UserOutcome jwt settings credentials (authenticate (ok answer))
  unfolding authenticate
  authenticate-UserOutcome (returned claims) answer =
      principal_of-UserOutcome claims claims.sub answer refl
  authenticate-UserOutcome invalid_token_error answer = rejected token present (inl answer)
  authenticate-UserOutcome other_py_jwt_error answer = rejected token present (inr answer)
  authenticate-UserOutcome (other_exception e) answer = escaped token e present answer

-- A user principal comes only from a Bearer token that PyJWT verified with pinned algorithms, under its
-- non-empty `sub`. A request without a Bearer token, a service without a verifier, a `PyJWTError` and a
-- token without a `sub` all end in the same 401, and any other exception that PyJWT raises for the
-- token escapes as it is. There is no other end.
pub require_user_jwt-UserOutcome :
    (jwt : PyJwt) (settings : Settings) (credentials : Option Credentials)
    → UserOutcome jwt settings credentials (require_user_jwt jwt settings credentials)
unfolding require_user_jwt authenticate_token authenticate
require_user_jwt-UserOutcome jwt settings credentials =
    elim (Option-cases (bearer_token credentials)) [
      | inl absent ↦ rw (absent, require_user_jwt) (no_token absent)
      | inr (token, present) ↦ elim (decode_cases jwt settings token) [
        | inl (no_secret, no_url, e) ↦
            rw (present, require_user_jwt) (rw (e, authenticate) (no_verifier no_secret no_url))
        | inr (answer, is_answer, e) ↦
            rw (present, require_user_jwt)
              (rw (e, authenticate)
                (authenticate-UserOutcome jwt settings credentials token present answer is_answer))
      ]
    ]
