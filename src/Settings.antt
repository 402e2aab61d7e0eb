-- ===== src/Settings.antt =====
-- src/config/settings.py: the values of `Settings`, each cached property by its parsed value.
pub mod Parsers
pub mod Raw
pub mod Lists
pub mod Maps
use ai_storybook_storage_ser.Base.{
  ℕ, Text, Bool, true, List, [], ◌∷◌, Option, none, some, ◌≡◌, inl, inr, Bool-cases, text_eq,
  member, if◌then◌else◌, arith,
}

-- A dict in insertion order.
abbrev pub Dict : Type 0 → Type 0
Dict V = List (Text × V)

-- The values that the other parts read. A cap is not negative.
pub record Settings : Type 0 where
  pub public_base_url : Text
  pub storage_sign_secret : Text
  pub storage_driver : Text
  pub storage_root : Text
  pub api_keys : Dict Text
  pub supabase_jwt_secret : Text
  pub supabase_url : Text
  pub buckets : List Text
  pub private_prefixes : List Text
  pub service_only_prefixes : List Text
  pub storage_max_object_bytes : ℕ
  pub prefix_size_caps : Dict ℕ
  pub user_mime_caps : Dict ℕ
  pub storage_min_free_bytes : ℕ
  pub storage_signed_get_dev_stream : Bool

module _ {V : Type 0} where
  -- The keys of a dict, in the order in which a loop over it goes.
  unfoldable pub keys : Dict V → List Text
  keys [] = []
  keys ((k, _) ∷ d) = k ∷ keys d

  -- `d.get(k)`
  unfoldable pub lookup : Text → Dict V → Option V
  lookup k [] = none
  lookup k ((j, v) ∷ d) = if text_eq k j then some v else lookup k d

  pub lookup-keys :
      (k : Text) (d : Dict V) → member k (keys d) ≡ true → (v : V) × (lookup k d ≡ some v)
  unfolding keys lookup member
  lookup-keys k [] h = cc
  lookup-keys k ((j, v) ∷ d) h = elim (Bool-cases (text_eq k j)) [
    | inl same ↦ (v, rw same)
    | inr other ↦ rw other (lookup-keys k d (ground arith))
  ]

  pub member-keys : (k : Text) (d : Dict V) (v : V) → lookup k d ≡ some v → member k (keys d) ≡ true
  unfolding keys lookup member
  member-keys k [] v h = cc
  member-keys k ((j, w) ∷ d) v h = elim (Bool-cases (text_eq k j)) [
    | inl same ↦ rw same
    | inr other ↦ rw other (member-keys k d v (ground arith))
  ]
