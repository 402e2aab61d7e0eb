-- ===== src/Routers/Signed.antt =====
-- Signed URLs from `create_signed_url` to `signed_get`.
use ai_storybook_storage_ser.Base.{
  ℕ, ℤ, pos, IsBelow, Text, codes, Bool, true, false, ◌≡◌, ◌≢◌, refl, ap, ◌∙◌, ◌↔◌, inl, inr, some,
  ◌++◌, ◌+◌, ◌<◌, All, all, ltb, Lacks, member, has_char, if◌then◌else◌,
}
use ai_storybook_storage_ser.Settings.{Settings}
use ai_storybook_storage_ser.Errors.{Exn, Result, ok, err, Result-cases, forbidden}
use ai_storybook_storage_ser.Validation.KeyGrammar.{validate}
use ai_storybook_storage_ser.Validation.KeyGrammar.Grammar.{IsKey, IsBucketName}
use ai_storybook_storage_ser.Validation.KeyGrammar.Parts.{IsKey-allow_at, IsKey-has_at}
use ai_storybook_storage_ser.Drivers.FileSystem.Monad.{
  World, Io, pure, raise, lift, gets, ◌>>=◌, continue,
}
use ai_storybook_storage_ser.Drivers.Signing.{HmacSha256, sign, verify, verify_iff}
use ai_storybook_storage_ser.Drivers.Quote.{quote, quote_of_plain}
use ai_storybook_storage_ser.Drivers.LocalFs.{Env, Driver, presign_get, signed_url}
use ai_storybook_storage_ser.Drivers.Registry.{build_driver, build_driver-ok}
use ai_storybook_storage_ser.Routers.Reading.{
  SignResponseData, SignedResponse, accel_redirect, create_signed_url, signed_get, hand_off,
}
use ai_storybook_storage_ser.Routers.Checked.{validate-Grammar, validate-member, validate-passes}

module _ (env : Env) (settings : Settings) (driver : Driver) (hmac : HmacSha256)
    (ascii : (k m : Text) → all (λ c. ltb c 128) (hmac k m) ≡ true)
    (clean : All (Lacks 10) settings.buckets) where
  -- What `create_signed_url` answers for a payload that passes its checks.
  create_signed_url_returns :
      (bucket key : Text) (ttl : ℕ) (w : World)
      → validate settings true bucket key ≡ ok tt
      → create_signed_url env settings
          (some driver)
          hmac
          (record { bucket = bucket; key = key; expires_in = ttl })
          w
        ≡ (
          ok (record {
            signed_url =
                signed_url driver.public_base bucket key
                  (pos (w.now + ttl))
                  (sign hmac driver.sign_secret bucket key (pos (w.now + ttl)));
            expires_at = env.isoformat (w.now + ttl);
          }),
          w,
        )
  unfolding create_signed_url presign_get pure gets lift ◌>>=◌
  create_signed_url_returns bucket key ttl w valid = rw valid refl

  -- `signed_get` behind its check of the key.
  signed_get_checked :
      (bucket key : Text) (exp : ℤ) (sig : Text) (w : World)
      → validate settings false bucket key ≡ ok tt
      → signed_get env settings (some driver) hmac bucket key exp sig w
        ≡ continue
            (verify hmac settings.storage_sign_secret bucket key exp sig w.now)
            (λ accepted.
              if accepted
              then hand_off env settings (some driver) hmac bucket key
              else raise forbidden)
            w
  unfolding signed_get gets lift ◌>>=◌
  signed_get_checked bucket key exp sig w valid = rw valid refl

  signed_get_refused :
      (bucket key : Text) (exp : ℤ) (sig : Text) (w : World) (e : Exn)
      → validate settings false bucket key ≡ err e
      → signed_get env settings (some driver) hmac bucket key exp sig w ≡ (err e, w)
  unfolding signed_get gets lift ◌>>=◌
  signed_get_refused bucket key exp sig w e invalid = rw invalid refl

  handed_off :
      (bucket key : Text) (w : World)
      → settings.storage_signed_get_dev_stream ≡ false
      → (hand_off env settings (some driver) hmac bucket key w).0
        ≡ ok (accel_redirect (codes "/internal-files/" ++ (bucket ++ (codes "/" ++ quote key))))
  unfolding pure
  handed_off bucket key w prod = rw prod refl

  accepted_only :
      (v : Result Bool) (m : Io SignedResponse) (w : World) (r : SignedResponse)
      → (continue v (λ accepted. if accepted then m else raise forbidden) w).0 ≡ ok r
      → v ≡ ok true
  unfolding raise
  accepted_only (ok true) m w r h = refl
  accepted_only (ok false) m w r h = cc
  accepted_only (err e) m w r h = cc

  -- A request that is answered was accepted.
  signed_get-accepted :
      (bucket key : Text) (exp : ℤ) (sig : Text) (w : World) (r : SignedResponse)
      → (signed_get env settings (some driver) hmac bucket key exp sig w).0 ≡ ok r
      → (validate settings false bucket key ≡ ok tt)
        × (verify hmac settings.storage_sign_secret bucket key exp sig w.now ≡ ok true)
  signed_get-accepted bucket key exp sig w r h =
      elim (Result-cases (validate settings false bucket key)) [
        | inl (_, valid) ↦ (
          valid,
          accepted_only (verify hmac settings.storage_sign_secret bucket key exp sig w.now)
              (hand_off env settings (some driver) hmac bucket key) w r
              (rw (signed_get_checked bucket key exp sig w valid) at h),
        )
        | inr (e, invalid) ↦
            absurd (err-ne-ok e (rw (signed_get_refused bucket key exp sig w e invalid) at h))
      ]
    where
      err-ne-ok : (e : Exn) → ◌≢◌ {A = Result SignedResponse} (err e) (ok r)
      err-ne-ok e q = cc

  -- A signed URL of `create_signed_url` is accepted: for a configured bucket and a key of the grammar
  -- without `@`, `create_signed_url` answers with the URL of the bucket, the key, an expiry and a
  -- signature, and `signed_get` for these, at any time before the expiry, hands off to nginx the path
  -- of the object, if the bytes are not streamed in development. Hex digests are ASCII, and no
  -- configured bucket name holds a newline.
  pub create_signed_url-signed_get :
      (bucket key : Text) (expires_in : ℕ) (w later : World)
      → build_driver settings ≡ ok driver
      → IsBucketName bucket
      → member bucket settings.buckets ≡ true
      → IsKey false key
      → settings.storage_signed_get_dev_stream ≡ false
      → later.now < w.now + expires_in
      → let exp = pos (w.now + expires_in) in
        (sig : Text) × ((create_signed_url env settings
            (some driver)
            hmac
            (record { bucket = bucket; key = key; expires_in = expires_in })
            w).0
          ≡ ok (record {
            signed_url = signed_url driver.public_base bucket key exp sig;
            expires_at = env.isoformat (w.now + expires_in);
          }))
        × ((signed_get env settings (some driver) hmac bucket key exp sig later).0
            ≡ ok (accel_redirect (codes "/internal-files/" ++ (bucket ++ (codes "/" ++ key)))))
  create_signed_url-signed_get bucket key expires_in w later built b known k prod early =
      let exp = pos (w.now + expires_in) in
      let sig = sign hmac driver.sign_secret bucket key exp in
      let at_valid =
        validate-passes settings true bucket key clean b known (IsKey-allow_at key k) in
      let valid = validate-passes settings false bucket key clean b known k in
      let secret = (build_driver-ok settings driver built).1 in
      let accepted =
        (verify_iff hmac settings.storage_sign_secret bucket key exp sig later.now ascii).1
          (early, ap (λ (s : Text). sign hmac s bucket key exp) secret) in
      (
        sig,
        ap (λ (r : Result SignResponseData × World). r.0)
            (create_signed_url_returns bucket key expires_in w at_valid),
        rw (signed_get_checked bucket key exp sig later valid, accepted)
            (handed_off bucket key later prod
              ∙ ap
                  (λ (t : Text).
                    ok (accel_redirect (codes "/internal-files/" ++ (bucket ++ (codes "/" ++ t)))))
                  (quote_of_plain key k)),
      )

  -- For a key with `@` that the grammar of services takes, `create_signed_url` mints a URL, and
  -- `signed_get` raises for it, whatever the expiry, the signature and the time. Hex digests are ASCII,
  -- and no configured bucket name holds a newline.
  pub signed_get-refuses_at :
      (bucket key : Text) (expires_in : ℕ) (exp : ℤ) (sig : Text) (w later : World)
      → IsBucketName bucket
      → member bucket settings.buckets ≡ true
      → IsKey true key
      → has_char b'@' key ≡ true
      → ((reply : SignResponseData) × ((create_signed_url env settings
              (some driver)
              hmac
              (record { bucket = bucket; key = key; expires_in = expires_in })
              w).0
            ≡ ok reply))
        × ((e : Exn) × ((signed_get env settings (some driver) hmac bucket key exp sig later).0
              ≡ err e))
  signed_get-refuses_at bucket key expires_in exp sig w later b known k at = (
    (
      _,
      ap (λ (r : Result SignResponseData × World). r.0)
          (create_signed_url_returns bucket key expires_in w
            (validate-passes settings true bucket key clean b known k)),
    ),
    elim (Result-cases (validate settings false bucket key)) [
      | inl (_, valid) ↦
          absurd (IsKey-has_at key at (validate-Grammar settings false bucket key clean valid).1)
      | inr (e, invalid) ↦ (
        e,
        ap (λ (r : Result SignedResponse × World). r.0)
            (signed_get_refused bucket key exp sig later e invalid),
      )
    ],
  )

  -- In production `signed_get` hands off exactly the requests for a configured bucket and a key of the
  -- grammar without `@` that come before their expiry with the signature that `sign` makes for them.
  pub signed_get_iff :
      (bucket key : Text) (exp : ℤ) (sig : Text) (w : World)
      → settings.storage_signed_get_dev_stream ≡ false
      → ((r : SignedResponse) × ((signed_get env settings (some driver) hmac bucket key exp sig w).0
            ≡ ok r))
        ↔ (IsBucketName bucket
            × (member bucket settings.buckets ≡ true)
            × IsKey false key
            × IsBelow w.now exp
            × (sig ≡ sign hmac settings.storage_sign_secret bucket key exp))
  signed_get_iff bucket key exp sig w prod = (
    λ (r, h).
        let (valid, accepted) = signed_get-accepted bucket key exp sig w r h in
        let (b, k) = validate-Grammar settings false bucket key clean valid in
        let (early, same) =
          (verify_iff hmac settings.storage_sign_secret bucket key exp sig w.now ascii).0
            accepted in
        (b, validate-member settings false bucket key clean valid, k, early, same),
    λ (b, known, k, early, same).
        let valid = validate-passes settings false bucket key clean b known k in
        let accepted =
          (verify_iff hmac settings.storage_sign_secret bucket key exp sig w.now ascii).1
            (early, same) in
        (
          accel_redirect (codes "/internal-files/" ++ (bucket ++ (codes "/" ++ quote key))),
          rw (signed_get_checked bucket key exp sig w valid, accepted)
              (handed_off bucket key w prod),
        ),
  )
