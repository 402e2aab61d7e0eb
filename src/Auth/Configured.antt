-- ===== src/Auth/Configured.antt =====
-- The API key variable and `require_api_key`: src/config/settings.py with src/auth/api_key.py.
use ai_storybook_storage_ser.Base.{
  Text, ◌≡◌, refl, sym, ap, ◌∙◌, ◌⊎◌, inl, inr, Option, Bool-cases, text_eq, text_eq_iff, [], strip,
  arith,
}
use ai_storybook_storage_ser.Settings.{Settings}
use ai_storybook_storage_ser.Settings.Parsers.{
  json_decode_error, value, raised, Json, array, object, string, scalar, text_entries, Loads,
  parse_json_map,
}
use ai_storybook_storage_ser.Settings.Raw.{RawSettings, api_keys}
use ai_storybook_storage_ser.Settings.Maps.{IsObject}
use ai_storybook_storage_ser.Errors.{err, unauthorized}
use ai_storybook_storage_ser.Auth.ApiKey.{is_empty, require_api_key}

-- The variable names no keys: it is blank, no JSON, or no JSON object.
abbrev pub NamesNoKeys : Loads → Text → Type 0
NamesNoKeys loads raw =
    (strip raw ≡ [])
    ⊎ ((loads (strip raw) ≡ raised json_decode_error)
        ⊎ ((j : Json) × (loads (strip raw) ≡ value j) × (IsObject j → ⊥)))

text_entries-nil : (j : Json) → (IsObject j → ⊥) → text_entries j ≡ []
text_entries-nil (object d) h = absurd (h tt)
text_entries-nil (array items) h = refl
text_entries-nil (string s) h = refl
text_entries-nil scalar h = refl

parse_json_map-nil :
    (loads : Loads) (raw : Text) → NamesNoKeys loads raw → parse_json_map loads raw ≡ value []
unfolding parse_json_map
parse_json_map-nil loads raw h = elim (Bool-cases (text_eq (strip raw) [])) [
  | inl empty ↦ rw empty refl
  | inr full ↦ rw full (elim h [
    | inl blank ↦ absurd (let yes = (text_eq_iff (strip raw) []).1 blank in ground arith)
    | inr (inl refused) ↦ rw refused refl
    | inr (inr (j, parsed, none_there)) ↦
        rw parsed (ap (λ d. value d) (text_entries-nil j none_there))
  ])
]

-- With settings whose API keys were read from a variable that is blank, no JSON or no JSON object,
-- `require_api_key` raises the 401, whatever key is supplied or none.
pub api_keys-require_api_key :
    (loads : Loads) (raw : RawSettings) (settings : Settings) (x_api_key : Option Text)
    → NamesNoKeys loads raw.storage_api_keys
    → api_keys loads raw ≡ value settings.api_keys
    → require_api_key settings x_api_key ≡ err unauthorized
unfolding api_keys require_api_key is_empty
api_keys-require_api_key loads raw settings x_api_key none_named read =
    let same : value [] ≡ value settings.api_keys =
      sym (parse_json_map-nil loads raw.storage_api_keys none_named) ∙ read in
    let no_keys : settings.api_keys ≡ [] = cc in rw no_keys refl
