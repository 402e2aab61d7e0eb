-- ===== src/Auth/Combined.antt =====
-- src/auth/combined.py
use ai_storybook_storage_ser.Base.{
  Text, ◌≡◌, ◌⊎◌, inl, inr, refl, Bool-cases, if◌then◌else◌, subst, Option, none, some,
}
use ai_storybook_storage_ser.Settings.{Settings}
use ai_storybook_storage_ser.Errors.{Result, ok, err, unauthorized}
use ai_storybook_storage_ser.Auth.{Principal, Credentials, service}
use ai_storybook_storage_ser.Auth.ApiKey.{
  is_empty, is_empty-IsUnknown, IsEntry, IsUnknown, match_key_name, match_key_name_cases,
}
use ai_storybook_storage_ser.Auth.UserJwt.{
  PyJwt, bearer_token, authenticate_token, require_user_jwt,
}

-- The name behind the `X-API-Key` header, if there is one.
unfoldable pub service_name : Settings → Option Text → Option Text
unfolding is_empty match_key_name
service_name settings none = none
service_name settings (some supplied) =
    if is_empty settings.api_keys then none else match_key_name settings supplied

unfoldable pub require_api_key_or_user_jwt :
    PyJwt → Settings → Option Text → Option Credentials → Result Principal
unfolding service_name bearer_token authenticate_token
require_api_key_or_user_jwt jwt settings x_api_key credentials =
    elim (service_name settings x_api_key) [
      | some name ↦ ok (record { kind = service; name = name })
      | none ↦ elim (bearer_token credentials) [
        | none ↦ err unauthorized
        | some token ↦ authenticate_token jwt settings token
      ]
    ]

-- What the two-mode authentication answers: a service for a known API key, whatever the Bearer header
-- says; without one, what the user's token gives.
abbrev pub CombinedOutcome :
    PyJwt → Settings → Option Text → Option Credentials → Result Principal → Type 0
CombinedOutcome jwt settings x_api_key credentials result =
    ((supplied : Text) × (name : Text) × (x_api_key ≡ some supplied)
      × IsEntry name supplied settings.api_keys
      × (result ≡ ok (record { kind = service; name = name })))
    ⊎ (((supplied : Text) → x_api_key ≡ some supplied → IsUnknown supplied settings.api_keys)
        × (result ≡ require_user_jwt jwt settings credentials))

service_name_cases :
    (settings : Settings) (x_api_key : Option Text)
    → ((supplied : Text) × (name : Text) × (x_api_key ≡ some supplied)
        × IsEntry name supplied settings.api_keys
        × (service_name settings x_api_key ≡ some name))
      ⊎ (((supplied : Text) → x_api_key ≡ some supplied → IsUnknown supplied settings.api_keys)
          × (service_name settings x_api_key ≡ none))
unfolding service_name
service_name_cases settings none = inr (λ s e. cc, refl)
service_name_cases settings (some supplied) = elim (Bool-cases (is_empty settings.api_keys)) [
  | inl empty ↦ inr (λ s e. is_empty-IsUnknown s settings.api_keys empty, rw (empty, service_name))
  | inr configured ↦ elim (match_key_name_cases settings supplied) [
    | inl (name, entry, e) ↦ inl (supplied, name, refl, entry, rw (configured, service_name) e)
    | inr (no_entry, e) ↦ inr (
      λ s same. subst (λ t. IsUnknown t settings.api_keys) (cc) no_entry,
      rw (configured, service_name) e,
    )
  ]
]

-- With a known API key the two-mode authentication answers with a service principal under a name of the
-- map that has this key; without one its end, whether it returns or raises, is exactly that of
-- `require_user_jwt` for the same Bearer header.
pub require_api_key_or_user_jwt-CombinedOutcome :
    (jwt : PyJwt) (settings : Settings) (x_api_key : Option Text) (credentials : Option Credentials)
    → CombinedOutcome jwt settings x_api_key credentials
        (require_api_key_or_user_jwt jwt settings x_api_key credentials)
unfolding require_api_key_or_user_jwt require_user_jwt
require_api_key_or_user_jwt-CombinedOutcome jwt settings x_api_key credentials =
    elim (service_name_cases settings x_api_key) [
      | inl (supplied, name, given, entry, e) ↦
          inl (supplied, name, given, entry, rw (e, require_api_key_or_user_jwt))
      | inr (unknown, e) ↦ inr (unknown, rw (e, require_api_key_or_user_jwt, require_user_jwt) refl)
    ]
