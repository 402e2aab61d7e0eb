-- ===== src/Validation/PrefixPolicy/Gate.antt =====
-- The gate of a user upload, branch by branch.
use ai_storybook_storage_ser.Base.{
  ℕ, Text, true, false, ◌≡◌, ◌≢◌, refl, ◌⊎◌, inl, inr, Option, List, [], ◌∷◌, starts_with, All,
  arith, text_eq, text_eq_iff, Bool-cases, member,
}
use ai_storybook_storage_ser.Errors.{
  Result, ok, err, prefix_not_allowed, unsupported_media_type, payload_too_large,
}
use ai_storybook_storage_ser.Settings.{Settings}
use ai_storybook_storage_ser.Validation.LongestPrefix.Table.{IsCapFor, HasNoCap, table_cases}
use ai_storybook_storage_ser.Validation.SizeCaps.Longest.{get_item-some}
use ai_storybook_storage_ser.Validation.PrefixPolicy.{
  check_prefixes, check_user_writable, mime_of, resolve_user_cap, exceeds, check_user_upload,
}

-- The key lies under none of the service-only prefixes.
abbrev pub IsUserWritable : Settings → Text → Type 0
IsUserWritable settings key = All (λ p. starts_with key p ≡ false) settings.service_only_prefixes

check_prefixes_cases :
    (key : Text) (prefixes : List Text)
    → (All (λ p. starts_with key p ≡ false) prefixes × (check_prefixes key prefixes ≡ ok tt))
      ⊎ (((p : Text) × (member p prefixes ≡ true) × (starts_with key p ≡ true))
          × (check_prefixes key prefixes ≡ err prefix_not_allowed))
unfolding check_prefixes member
check_prefixes_cases key [] = inl (tt, refl)
check_prefixes_cases key (p ∷ ps) = elim (Bool-cases (starts_with key p)) [
  | inl under ↦ inr ((p, rw ((text_eq_iff p p).1 refl), under), rw under)
  | inr clear ↦ elim (check_prefixes_cases key ps) [
    | inl (clear_of_all, e) ↦ inl ((clear, clear_of_all), rw (clear, e))
    | inr ((q, listed, under), e) ↦ inr ((q, ground arith, under), rw (clear, e))
  ]
]

-- A user may write a key unless a service-only prefix is a prefix of it; the refusal is a 403.
pub check_user_writable_cases :
    (settings : Settings) (key : Text)
    → (IsUserWritable settings key × (check_user_writable settings key ≡ ok tt))
      ⊎ (((p : Text) × (member p settings.service_only_prefixes ≡ true)
            × (starts_with key p ≡ true))
          × (check_user_writable settings key ≡ err prefix_not_allowed))
unfolding check_user_writable
check_user_writable_cases settings key = check_prefixes_cases key settings.service_only_prefixes

-- What the gate answers, by what it depends on: the four rows of the upload policy, in the order in
-- which they are tried.
pub data Verdict (settings : Settings) (key : Text) (content_type : Option Text) (size : Option ℕ)
    : Result ℕ → Type 0 where
  reserved :
      (p : Text)
      → member p settings.service_only_prefixes ≡ true
      → starts_with key p ≡ true
      → Verdict settings key content_type size (err prefix_not_allowed)
  unlisted :
      IsUserWritable settings key
      → (mime_of content_type ≡ []) ⊎ HasNoCap (mime_of content_type) settings.user_mime_caps
      → Verdict settings key content_type size (err unsupported_media_type)
  oversized :
      (p : Text) (cap : ℕ)
      → IsUserWritable settings key
      → mime_of content_type ≢ []
      → IsCapFor (mime_of content_type) settings.user_mime_caps p cap
      → exceeds size cap ≡ true
      → Verdict settings key content_type size (err payload_too_large)
  admitted :
      (p : Text) (cap : ℕ)
      → IsUserWritable settings key
      → mime_of content_type ≢ []
      → IsCapFor (mime_of content_type) settings.user_mime_caps p cap
      → exceeds size cap ≡ false
      → Verdict settings key content_type size (ok cap)

-- The cap of an upload by its media type.
resolve_user_cap_cases :
    (settings : Settings) (content_type : Option Text)
    → (((mime_of content_type ≡ []) ⊎ HasNoCap (mime_of content_type) settings.user_mime_caps)
        × (resolve_user_cap settings content_type ≡ err unsupported_media_type))
      ⊎ ((p : Text) × (cap : ℕ) × (mime_of content_type ≢ [])
          × IsCapFor (mime_of content_type) settings.user_mime_caps p cap
          × (resolve_user_cap settings content_type ≡ ok cap))
unfolding resolve_user_cap
resolve_user_cap_cases settings content_type =
    elim (table_cases (mime_of content_type) settings.user_mime_caps) [
      | inr (no_cap, e) ↦ inl (inr no_cap, rw (e, resolve_user_cap))
      | inl (p, limit, is_cap, e) ↦ elim (Bool-cases (text_eq (mime_of content_type) [])) [
        | inl empty ↦ inl (inl ((text_eq_iff _ []).0 empty), rw (e, resolve_user_cap) (rw empty))
        | inr named ↦ inr (
          p,
          limit,
          λ h. ground (arith, text_eq_iff (mime_of content_type) []),
          is_cap,
          rw (e, resolve_user_cap)
              (rw named (get_item-some settings.user_mime_caps p limit is_cap.listed)),
        )
      ]
    ]

-- On every input `check_user_upload` gives the verdict of the upload policy: a 403 for a key that begins
-- with a service-only prefix, else a 415 for a media type that is empty or without a cap, else a 413
-- for a declared size over the cap of the longest prefix of the media type, else this cap.
pub check_user_upload-Verdict :
    (settings : Settings) (key : Text) (content_type : Option Text) (size : Option ℕ)
    → Verdict settings key content_type size (check_user_upload settings key content_type size)
unfolding check_user_upload
check_user_upload-Verdict settings key content_type size =
    elim (check_user_writable_cases settings key) [
      | inr ((p, listed, under), e) ↦ rw e (reserved p listed under)
      | inl (writable, e) ↦ rw e (elim (resolve_user_cap_cases settings content_type) [
        | inl (none_fits, c) ↦ rw c (unlisted writable none_fits)
        | inr (p, limit, named, is_cap, c) ↦ rw c (elim (Bool-cases (exceeds size limit)) [
          | inl over ↦ rw over (oversized p limit writable named is_cap over)
          | inr fits ↦ rw fits (admitted p limit writable named is_cap fits)
        ])
      ])
    ]
