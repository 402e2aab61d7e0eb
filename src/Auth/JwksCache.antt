-- ===== src/Auth/JwksCache.antt =====
-- src/auth/jwks_cache.py: the client that the module keeps. Which keys a client has cached is PyJWT's.
use ai_storybook_storage_ser.Base.{
  ℕ, zero, suc, Text, ◌≡◌, refl, ap, sym, subst, ◌∙◌, ◌≤◌, ◌<◌, Option, none, some, [], text_eq,
  text_eq_iff, Bool-cases, Option-cases, ◌⊎◌, inl, inr, if◌then◌else◌, arith,
}
use ai_storybook_storage_ser.Auth.UserJwt.{jwks_uri}

-- A `PyJWKClient`: its URI, and its number among the clients that were built.
pub record Client : Type 0 where
  pub uri : Text
  pub serial : ℕ

-- `_client` and `_client_url`, and how many clients were built.
pub record Cache : Type 0 where
  pub client : Option Client
  pub client_url : Text
  pub built : ℕ

abbrev pub empty_cache : Cache
empty_cache = record { client = none; client_url = []; built = 0 }

abbrev build_client : Text → Cache → Client × Cache
build_client url cache =
    let made : Client = record { uri = jwks_uri url; serial = cache.built } in
    (made, record { client = some made; client_url = url; built = suc cache.built })

-- `_get_client`
unfoldable pub get_client : Text → Cache → Client × Cache
get_client url cache = elim cache.client [
  | none ↦ build_client url cache
  | some kept ↦ if text_eq cache.client_url url then (kept, cache) else build_client url cache
]

-- `prewarm_jwks`: whether the fetch succeeds is only logged.
unfoldable pub prewarm_jwks : Text → Cache → Cache
unfolding get_client
prewarm_jwks url cache = (get_client url cache).1

-- The cache after requests with tokens, each of which asks for the client.
unfoldable pub after_requests : Text → ℕ → Cache → Cache
unfolding get_client
after_requests url zero cache = cache
after_requests url (suc n) cache = after_requests url n (get_client url cache).1

-- The kept client is one for the kept URL, among those that were built.
abbrev pub IsSound : Cache → Type 0
IsSound cache = elim cache.client [
  | none ↦ Unit
  | some kept ↦ (kept.uri ≡ jwks_uri cache.client_url) × (kept.serial < cache.built)
]

-- The call returns the client that is kept for the URL, or builds one.
get_client_cases :
    (url : Text) (cache : Cache)
    → ((kept : Client) × (cache.client ≡ some kept)
        × (cache.client_url ≡ url)
        × (get_client url cache ≡ (kept, cache)))
      ⊎ (get_client url cache ≡ build_client url cache)
unfolding get_client
get_client_cases url cache = elim (Option-cases cache.client) [
  | inl absent ↦ inr (rw absent refl)
  | inr (kept, there) ↦ elim (Bool-cases (text_eq cache.client_url url)) [
    | inl same ↦ inl (kept, there, (text_eq_iff cache.client_url url).0 same, rw (there, same) refl)
    | inr other ↦ inr (rw (there, other) refl)
  ]
]

get_client_kept :
    (url : Text) (cache : Cache) (kept : Client)
    → cache.client ≡ some kept
    → cache.client_url ≡ url
    → get_client url cache ≡ (kept, cache)
unfolding get_client
get_client_kept url cache kept there same =
    rw (there, (text_eq_iff cache.client_url url).1 same) refl

-- From a sound cache the client is one for the URL that is asked for, the cache stays sound, and a
-- second call with the same URL returns the same client and changes nothing.
pub get_client-IsSound :
    (url : Text) (cache : Cache)
    → IsSound cache
    → ((get_client url cache).0.uri ≡ jwks_uri url)
      × IsSound (get_client url cache).1
      × (get_client url (get_client url cache).1 ≡ get_client url cache)
get_client-IsSound url cache h = elim (get_client_cases url cache) [
  | inl (kept, there, same, e) ↦
      let sound : (kept.uri ≡ jwks_uri cache.client_url) × (kept.serial < cache.built) =
        rw (there, IsSound) at h in
      rw e (sound.0 ∙ ap jwks_uri same, h, e)
  | inr e ↦ rw e (
    refl,
    (refl, omega arith),
    get_client_kept url (build_client url cache).1 (build_client url cache).0 refl refl,
  )
]

after_requests_kept :
    (url : Text) (n : ℕ) (cache : Cache) (kept : Client)
    → cache.client ≡ some kept
    → cache.client_url ≡ url
    → after_requests url n cache ≡ cache
unfolding after_requests
after_requests_kept url zero cache kept there same = refl
after_requests_kept url (suc n) cache kept there same =
    rw (get_client_kept url cache kept there same) (after_requests_kept url n cache kept there same)

-- However many requests follow, at most one client is built for them.
pub after_requests-built :
    (url : Text) (n : ℕ) (cache : Cache) → (after_requests url n cache).built ≤ suc cache.built
unfolding after_requests
after_requests-built url zero cache = omega arith
after_requests-built url (suc n) cache = elim (get_client_cases url cache) [
  | inl (kept, there, same, e) ↦
      within cache
        (ap (λ (p : Client × Cache). after_requests url n p.1) e
          ∙ after_requests_kept url n cache kept there same)
        (omega arith)
  | inr e ↦
      let (made, filled) = build_client url cache in
      within filled
        (ap (λ (p : Client × Cache). after_requests url n p.1) e
          ∙ after_requests_kept url n filled made refl refl)
        (omega arith)
]
  where
    within :
        (c : Cache)
        → after_requests url n (get_client url cache).1 ≡ c
        → c.built ≤ suc cache.built
        → (after_requests url (suc n) cache).built ≤ suc cache.built
    within c e h = subst (λ (x : Cache). x.built ≤ suc cache.built) (sym e) h
