-- ===== src/Validation/LongestPrefix/Table.antt =====
-- The longest matching key of a cap table.
use ai_storybook_storage_ser.Base.{
  ℕ, Text, true, false, ◌≡◌, ◌⊎◌, inl, inr, ◌≤◌, Option, none, some, Option-cases, length,
  starts_with, arith, member,
}
use ai_storybook_storage_ser.Settings.{Dict, keys, lookup, lookup-keys, member-keys}
use ai_storybook_storage_ser.Validation.LongestPrefix.{longest_prefix}
use ai_storybook_storage_ser.Validation.LongestPrefix.Laws.{
  Covers, longest_prefix-Covers, longest_prefix-some, prefix_unique,
}

-- `cap` is the entry of the longest key of the table that `text` starts with.
pub record IsCapFor (text : Text) (table : Dict ℕ) (prefix : Text) (cap : ℕ) : Type 0 where
  pub applies : starts_with text prefix ≡ true
  pub listed : lookup prefix table ≡ some cap
  pub longest :
      (q : Text) (c : ℕ)
      → lookup q table ≡ some c
      → starts_with text q ≡ true
      → length q ≤ length prefix

abbrev pub HasNoCap : Text → Dict ℕ → Type 0
HasNoCap text table = (q : Text) (c : ℕ) → lookup q table ≡ some c → starts_with text q ≡ false

module _ (text : Text) (table : Dict ℕ) where
  abbrev found : Option Text
  found = longest_prefix text none (keys table)

  covers :
      (r : Option Text) → found ≡ r → (q : Text) (c : ℕ) → lookup q table ≡ some c → Covers text r q
  covers r e q c h =
      rw e at (longest_prefix-Covers text none (keys table) q (member-keys q table c h))

  pub table_cases :
      ((prefix : Text) × (cap : ℕ) × IsCapFor text table prefix cap × (found ≡ some prefix))
      ⊎ (HasNoCap text table × (found ≡ none))
  table_cases = elim (Option-cases found) [
    | inl e ↦ inr (covers none e, e)
    | inr (p, e) ↦ inl (hit p e (longest_prefix-some text none (keys table) p e))
  ]
    where
      hit :
          (p : Text)
          → found ≡ some p
          → (none ≡ some p) ⊎ ((member p (keys table) ≡ true) × (starts_with text p ≡ true))
          → (prefix : Text) × (cap : ℕ) × IsCapFor text table prefix cap × (found ≡ some prefix)
      hit p e (inl absurd_case) = cc
      hit p e (inr (listed, applies)) =
          let (cap, at_key) = lookup-keys p table listed in
          (p, cap, record { applies = applies; listed = at_key; longest = covers (some p) e }, e)

-- A table gives a text at most one cap, whatever the order of its entries.
pub IsCapFor-unique :
    (text : Text) (s t : Dict ℕ) (p q : Text) (a b : ℕ)
    → ((k : Text) → lookup k s ≡ lookup k t)
    → IsCapFor text s p a
    → IsCapFor text t q b
    → a ≡ b
IsCapFor-unique text s t p q a b same h k =
    let p_in_t : lookup p t ≡ some a = ground (arith, same p, h.listed) in
    let q_in_s : lookup q s ≡ some b = ground (arith, same q, k.listed) in
    let e =
      prefix_unique text p q h.applies k.applies
        (omega (arith, h.longest q b q_in_s k.applies, k.longest p a p_in_t h.applies)) in
    let p_listed : lookup p t ≡ some b = rw e k.listed in ground arith
