-- ===== src/Auth/ApiKey.antt =====
-- src/auth/api_key.py: the API keys of the services.
use ai_storybook_storage_ser.Base.{
  Text, Bool, true, false, ◌≡◌, ◌≢◌, refl, ◌⊎◌, inl, inr, Option, none, some, [], ◌∷◌, text_eq,
  text_eq_iff, Bool-cases, if◌then◌else◌, arith,
}
use ai_storybook_storage_ser.Settings.{Settings, Dict}
use ai_storybook_storage_ser.Errors.{Result, ok, err, unauthorized}
use ai_storybook_storage_ser.Auth.{Principal, service}

-- The loop of `_match_key_name`, which goes on after a match.
unfoldable match_entries : Text → Option Text → Dict Text → Option Text
match_entries supplied matched [] = matched
match_entries supplied matched ((name, value) ∷ rest) =
    match_entries supplied (if text_eq supplied value then some name else matched) rest

unfoldable pub match_key_name : Settings → Text → Option Text
unfolding match_entries
match_key_name settings supplied = match_entries supplied none settings.api_keys

-- `not settings.api_keys`
unfoldable pub is_empty : Dict Text → Bool
is_empty [] = true
is_empty (_ ∷ _) = false

unfoldable service_named : Option Text → Result Principal
service_named none = err unauthorized
service_named (some name) = ok (record { kind = service; name = name })

unfoldable pub require_api_key : Settings → Option Text → Result Principal
unfolding is_empty match_key_name service_named
require_api_key settings x_api_key =
    if is_empty settings.api_keys then err unauthorized else (elim x_api_key [
      | none ↦ err unauthorized
      | some supplied ↦ service_named (match_key_name settings supplied)
    ])

-- The entry stands in the dict.
abbrev pub IsEntry : Text → Text → Dict Text → Type 0
IsEntry name value [] = ⊥
IsEntry name value ((n, v) ∷ d) = ((name ≡ n) × (value ≡ v)) ⊎ IsEntry name value d

-- No entry has the value.
abbrev pub IsUnknown : Text → Dict Text → Type 0
IsUnknown value [] = Unit
IsUnknown value ((n, v) ∷ d) = (value ≢ v) × IsUnknown value d

pub is_empty-IsUnknown : (value : Text) (d : Dict Text) → is_empty d ≡ true → IsUnknown value d
unfolding is_empty
is_empty-IsUnknown value [] h = tt
is_empty-IsUnknown value ((n, v) ∷ d) h = cc

match_entries_cases :
    (supplied : Text) (matched : Option Text) (d : Dict Text)
    → ((name : Text) × IsEntry name supplied d × (match_entries supplied matched d ≡ some name))
      ⊎ (IsUnknown supplied d × (match_entries supplied matched d ≡ matched))
unfolding match_entries
match_entries_cases supplied matched [] = inr (tt, refl)
match_entries_cases supplied matched ((n, v) ∷ d) = elim (Bool-cases (text_eq supplied v)) [
  | inl same ↦ rw same (elim (match_entries_cases supplied (some n) d) [
    | inl (name, there, e) ↦ inl (name, inr there, e)
    | inr (no_more, e) ↦ inl (n, inl (refl, (text_eq_iff supplied v).0 same), e)
  ])
  | inr other ↦ rw other (elim (match_entries_cases supplied matched d) [
    | inl (name, there, e) ↦ inl (name, inr there, e)
    | inr (no_more, e) ↦ inr ((λ h. ground (arith, text_eq_iff supplied v), no_more), e)
  ])
]

-- A header that matches a configured key is that of a service named in the map, and any other
-- supplied value matches none.
pub match_key_name_cases :
    (settings : Settings) (supplied : Text)
    → ((name : Text) × IsEntry name supplied settings.api_keys
        × (match_key_name settings supplied ≡ some name))
      ⊎ (IsUnknown supplied settings.api_keys × (match_key_name settings supplied ≡ none))
unfolding match_key_name
match_key_name_cases settings supplied = match_entries_cases supplied none settings.api_keys

-- What `require_api_key` answers: a service principal exactly for a supplied key of the map, under a
-- name of the map that has this key; otherwise, also with an empty map or no header, one 401.
pub data ApiKeyVerdict (settings : Settings) : Option Text → Result Principal → Type 0 where
  accepted :
      (supplied name : Text)
      → IsEntry name supplied settings.api_keys
      → ApiKeyVerdict settings (some supplied) (ok (record { kind = service; name = name }))
  missing : ApiKeyVerdict settings none (err unauthorized)
  unknown :
      (supplied : Text)
      → IsUnknown supplied settings.api_keys
      → ApiKeyVerdict settings (some supplied) (err unauthorized)

-- `require_api_key` answers with a service principal exactly for a supplied key of the map, under a
-- name of the map that has this key; without a header or for any other key, and with an empty map, it
-- raises the 401.
pub require_api_key-Verdict :
    (settings : Settings) (x_api_key : Option Text)
    → ApiKeyVerdict settings x_api_key (require_api_key settings x_api_key)
unfolding require_api_key service_named
require_api_key-Verdict settings x_api_key = elim (Bool-cases (is_empty settings.api_keys)) [
  | inl empty ↦ rw (empty, require_api_key) (refused empty x_api_key)
  | inr configured ↦ rw (configured, require_api_key) (looked_up x_api_key)
]
  where
    refused :
        is_empty settings.api_keys ≡ true
        → (h : Option Text) → ApiKeyVerdict settings h (err unauthorized)
    refused empty none = missing
    refused empty (some supplied) =
        unknown supplied (is_empty-IsUnknown supplied settings.api_keys empty)

    looked_up :
        (h : Option Text)
        → ApiKeyVerdict settings h (elim h [
          | none ↦ err unauthorized
          | some supplied ↦ service_named (match_key_name settings supplied)
        ])
    looked_up none = missing
    looked_up (some supplied) = elim (match_key_name_cases settings supplied) [
      | inl (name, entry, e) ↦ rw e (accepted supplied name entry)
      | inr (no_entry, e) ↦ rw e (unknown supplied no_entry)
    ]
