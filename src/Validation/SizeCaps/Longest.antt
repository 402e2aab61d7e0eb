-- ===== src/Validation/SizeCaps/Longest.antt =====
-- The cap of a key written by a service.
use ai_storybook_storage_ser.Base.{ℕ, Text, ◌≡◌, sym, ◌∙◌, ap, ◌⊎◌, inl, inr, some, arith}
use ai_storybook_storage_ser.Errors.{ok}
use ai_storybook_storage_ser.Settings.{Settings, Dict, lookup}
use ai_storybook_storage_ser.Validation.LongestPrefix.Table.{
  IsCapFor, HasNoCap, table_cases, IsCapFor-unique,
}
use ai_storybook_storage_ser.Validation.SizeCaps.{get_item, resolve_s2s_cap}

pub get_item-some : (d : Dict ℕ) (k : Text) (v : ℕ) → lookup k d ≡ some v → get_item d k ≡ ok v
unfolding get_item
get_item-some d k v h = rw (h, get_item)

-- The cap is always found: it is that of the longest configured prefix of the key, and the default
-- if the key has no configured prefix.
pub resolve_s2s_cap_lem :
    (settings : Settings) (key : Text)
    → ((prefix : Text) × (cap : ℕ) × IsCapFor key settings.prefix_size_caps prefix cap
        × (resolve_s2s_cap settings key ≡ ok cap))
      ⊎ (HasNoCap key settings.prefix_size_caps
          × (resolve_s2s_cap settings key ≡ ok settings.storage_max_object_bytes))
unfolding resolve_s2s_cap
resolve_s2s_cap_lem settings key = elim (table_cases key settings.prefix_size_caps) [
  | inl (prefix, limit, is_cap, e) ↦ inl (
    prefix,
    limit,
    is_cap,
    rw (e, resolve_s2s_cap) (get_item-some settings.prefix_size_caps prefix limit is_cap.listed),
  )
  | inr (no_cap, e) ↦ inr (no_cap, rw (e, resolve_s2s_cap))
]

-- Two configurations that map the same prefixes to the same caps, in whatever order, and have the
-- same default, give every key the same cap.
pub resolve_s2s_cap_order :
    (s t : Settings) (key : Text)
    → ((k : Text) → lookup k s.prefix_size_caps ≡ lookup k t.prefix_size_caps)
    → s.storage_max_object_bytes ≡ t.storage_max_object_bytes
    → resolve_s2s_cap s key ≡ resolve_s2s_cap t key
resolve_s2s_cap_order s t key same default = elim (resolve_s2s_cap_lem s key) [
  | inl (p, a, p_cap, ep) ↦ elim (resolve_s2s_cap_lem t key) [
    | inl (q, b, q_cap, eq) ↦
        let e =
          IsCapFor-unique key s.prefix_size_caps t.prefix_size_caps p q a b same p_cap q_cap in
        ep ∙ ap ok e ∙ sym eq
    | inr (no_cap, eq) ↦
        absurd (ground (arith, no_cap p a (sym (same p) ∙ p_cap.listed), p_cap.applies))
  ]
  | inr (no_cap, ep) ↦ elim (resolve_s2s_cap_lem t key) [
    | inl (q, b, q_cap, eq) ↦
        absurd (ground (arith, no_cap q b (same q ∙ q_cap.listed), q_cap.applies))
    | inr (_, eq) ↦ ep ∙ ap ok default ∙ sym eq
  ]
]
