-- ===== src/Routers/Protected.antt =====
-- The requests of users and the objects under a service-only prefix.
use ai_storybook_storage_ser.Base.{
  ℕ, Text, true, false, ◌≡◌, ◌≢◌, refl, sym, subst, inl, inr, Option, none, some, All, Lacks,
  member, member-All, starts_with,
}
use ai_storybook_storage_ser.Settings.{Settings}
use ai_storybook_storage_ser.Errors.{ok, err, bind-eq-ok, prefix_not_allowed}
use ai_storybook_storage_ser.Auth.{Principal, user}
use ai_storybook_storage_ser.Validation.KeyGrammar.{validate}
use ai_storybook_storage_ser.Validation.KeyGrammar.Grammar.{IsBucketName}
use ai_storybook_storage_ser.Validation.PrefixPolicy.{check_user_writable, check_user_upload}
use ai_storybook_storage_ser.Validation.PrefixPolicy.Gate.{check_user_writable_cases}
use ai_storybook_storage_ser.Drivers.PosixPath.{FilePath, resolve}
use ai_storybook_storage_ser.Drivers.Paths.Places.{object_place}
use ai_storybook_storage_ser.Drivers.FileSystem.Tree.{file_at}
use ai_storybook_storage_ser.Drivers.FileSystem.Monad.{World}
use ai_storybook_storage_ser.Drivers.FileSystem.Triple.{
  Ends, Keeps-bind, Keeps-pure, Triple-weaken, Triple-bind-lift, Triple-bind-checked,
}
use ai_storybook_storage_ser.Drivers.FileSystem.Calls.{On}
use ai_storybook_storage_ser.Drivers.Stream.{Stream}
use ai_storybook_storage_ser.Drivers.LocalFs.{Env, Driver}
use ai_storybook_storage_ser.Drivers.LocalFs.Sidecars.{HexNames}
use ai_storybook_storage_ser.Drivers.LocalFs.Others.{Keeps-put_other, Keeps-delete_other}
use ai_storybook_storage_ser.Routers.Counting.{counting_stream}
use ai_storybook_storage_ser.Routers.Handlers.{create_upload, delete_object}
use ai_storybook_storage_ser.Routers.Checked.{validate-Grammar}

-- A key that passed the denylist is not a key that a service-only prefix begins.
writable-ne :
    (settings : Settings) (key key' p : Text)
    → check_user_writable settings key ≡ ok tt
    → member p settings.service_only_prefixes ≡ true
    → starts_with key' p ≡ true
    → key ≢ key'
writable-ne settings key key' p passed listed under same =
    elim (check_user_writable_cases settings key) [
      | inl (writable, _) ↦
          let clear =
            member-All (λ q. starts_with key q ≡ false) p settings.service_only_prefixes writable
              listed in
          let under_too : starts_with key p ≡ true =
            subst (λ t. starts_with t p ≡ true) (sym same) under in
          absurd (clash clear under_too)
      | inr (_, refused) ↦ absurd (err-ne-ok refused)
    ]
  where
    clash : starts_with key p ≡ false → starts_with key p ≢ true
    clash h k = cc

    err-ne-ok : check_user_writable settings key ≢ err prefix_not_allowed
    err-ne-ok h = cc

-- An upload that the gate lets pass is writable.
check_user_upload-writable :
    (settings : Settings) (key : Text) (content_type : Option Text) (size : Option ℕ) (limit : ℕ)
    → check_user_upload settings key content_type size ≡ ok limit
    → check_user_writable settings key ≡ ok tt
unfolding check_user_upload
check_user_upload-writable settings key content_type size limit h =
    let (u, e, _) = bind-eq-ok (check_user_writable settings key) _ h in e

module _ (env : Env) (settings : Settings) (driver : Driver) (hex_names : HexNames env)
    (clean : All (Lacks 10) settings.buckets) (bucket key bucket' key' p : Text)
    (b' : IsBucketName bucket') (listed : member p settings.service_only_prefixes ≡ true)
    (under : starts_with key' p ≡ true) where
  abbrev object : FilePath
  object = object_place (resolve env.cwd driver.root) bucket' key'

  -- Whatever `create_upload` is asked to upload, from any tree and with any failures of the disk, an
  -- object whose key begins with a service-only prefix keeps its file as it was. The random names are
  -- plain names, and no configured bucket name holds a newline.
  pub create_upload-service_only :
      (content_type : Option Text) (size : Option ℕ) (body : Stream) (principal : Principal)
      (w : World)
      → Ends
          (create_upload env settings (some driver) bucket key content_type size body principal)
          w
          (λ r w'. file_at object w'.fs ≡ file_at object w.fs)
          (λ e w'. file_at object w'.fs ≡ file_at object w.fs)
  unfolding create_upload
  create_upload-service_only content_type size body principal w =
      let old = file_at object w.fs in
      (Triple-bind-checked {P = On (λ fs. file_at object fs ≡ old)}
          (validate settings false bucket key) _ (λ e w h. h)
          λ _ valid.
            Triple-bind-checked (check_user_upload settings key content_type size) _ (λ e w h. h)
              λ limit passed. Triple-bind-lift (ok driver) driver _ refl (
                let (b, k) = validate-Grammar settings false bucket key clean valid in
                let writable =
                  check_user_upload-writable settings key content_type size limit passed in
                Keeps-bind
                  (Keeps-put_other env driver hex_names false bucket key bucket' key' b k b'
                    (inr (writable-ne settings key key' p writable listed under))
                    (counting_stream body limit) _ none _ old)
                  (λ result. Keeps-pure _))).at
        w refl

  -- Whatever a user principal asks `delete_object` to delete, from any tree and with any failures of
  -- the disk, an object whose key begins with a service-only prefix keeps its file as it was. No
  -- configured bucket name holds a newline.
  pub delete_object-service_only :
      (name : Text) (w : World)
      → Ends
          (delete_object env settings
            (some driver)
            bucket
            key
            (record { kind = user; name = name }))
          w
          (λ r w'. file_at object w'.fs ≡ file_at object w.fs)
          (λ e w'. file_at object w'.fs ≡ file_at object w.fs)
  unfolding delete_object
  delete_object-service_only name w =
      let old = file_at object w.fs in
      (Triple-bind-checked {P = On (λ fs. file_at object fs ≡ old)}
          (validate settings false bucket key) _ (λ e w h. h)
          λ _ valid.
            Triple-bind-checked (check_user_writable settings key) _ (λ e w h. h)
              λ _ writable. Triple-bind-lift (ok driver) driver _ refl (
                let (b, k) = validate-Grammar settings false bucket key clean valid in
                Triple-weaken (λ w h. h) (λ r w h. h) (λ e w h. absurd h)
                  (Keeps-delete_other env driver hex_names false bucket key bucket' key' b k b'
                    (inr (writable-ne settings key key' p writable listed under)) old))).at
        w refl
