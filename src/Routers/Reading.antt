-- ===== src/Routers/Reading.antt =====
-- src/routers/storage/{head_object,create_signed_url}.py and src/routers/files/signed_get.py.
use ai_storybook_storage_ser.Base.{
  ℕ, ℤ, pos, negsuc, str, Text, codes, true, false, Option, none, some, [], ◌∷◌, ◌++◌, ◌+◌, leb,
  ltb, if◌then◌else◌,
}
use ai_storybook_storage_ser.Settings.{Settings}
use ai_storybook_storage_ser.Errors.{Exn, Result, ok, err, forbidden, not_found}
use ai_storybook_storage_ser.Auth.{Principal}
use ai_storybook_storage_ser.Auth.ApiKey.{require_api_key}
use ai_storybook_storage_ser.Validation.KeyGrammar.{validate}
use ai_storybook_storage_ser.Drivers.FileSystem.Monad.{Io, pure, raise, lift, gets, ◌>>=◌, ◌>>◌}
use ai_storybook_storage_ser.Drivers.Signing.{HmacSha256, verify}
use ai_storybook_storage_ser.Drivers.Quote.{quote}
use ai_storybook_storage_ser.Drivers.LocalFs.{Env, Driver, ObjectInfo, head, get, presign_get}
use ai_storybook_storage_ser.Drivers.Registry.{get_driver}

-- `SignRequest`, after the checks of Pydantic.
pub record SignRequest : Type 0 where
  pub bucket : Text
  pub key : Text
  pub expires_in : ℕ

abbrev max_expires_in : ℕ
max_expires_in = 86400

abbrev expires_in_error : Text → Exn
expires_in_error msg =
    Exn.request_validation_error
      (record { loc = codes "body" ∷ codes "expires_in" ∷ []; msg = msg } ∷ [])

-- `Field(default=3600, gt=0, le=86400)`
unfoldable pub check_expires_in : Option ℤ → Result ℕ
check_expires_in none = ok 3600
check_expires_in (some (negsuc n)) = err (expires_in_error (codes "Input should be greater than 0"))
check_expires_in (some (pos n)) =
    if leb n 0
    then err (expires_in_error (codes "Input should be greater than 0"))
    else if ltb max_expires_in n
    then err (expires_in_error (codes "Input should be less than or equal to 86400"))
    else ok n

unfoldable pub bucket_or_default : Option Text → Text
bucket_or_default none = codes "storybook-assets"
bucket_or_default (some bucket) = bucket

-- The `data` of `create_signed_url`.
pub record SignResponseData : Type 0 where
  pub signed_url : Text
  pub expires_at : Text

-- The headers of `head_object`.
pub record HeadResponse : Type 0 where
  pub content_length : Text
  pub content_type : Text
  pub etag : Option Text
  pub last_modified : Option Text

-- What `signed_get` answers: the internal path for nginx, or the bytes.
pub data SignedResponse : Type 0 where
  accel_redirect : Text → SignedResponse
  streaming : Text → SignedResponse

abbrev non_empty_text : Text → Option Text
non_empty_text [] = none
non_empty_text (c ∷ s) = some (c ∷ s)

abbrev quoted_etag : Text → Option Text
quoted_etag [] = none
quoted_etag (c ∷ s) = some (codes "\"" ++ ((c ∷ s) ++ codes "\""))

module _ (env : Env) where
  -- `_http_date`
  unfoldable pub http_date : Text → Option Text
  http_date iso_utc = elim (env.fromisoformat iso_utc) [
    | none ↦ none
    | some t ↦ some (env.format_datetime t)
  ]

  abbrev pub last_modified_of : Option Text → Option Text
  last_modified_of none = none
  last_modified_of (some date) = non_empty_text date

  unfoldable pub head_response : ObjectInfo → HeadResponse
  unfolding http_date
  head_response info = record {
    content_length = str info.bytes;
    content_type = info.content_type;
    etag = quoted_etag info.etag;
    last_modified = last_modified_of (http_date info.modified_at);
  }

  module _ (settings : Settings) (registry : Option Driver) where
    abbrev pub answer_head : Option ObjectInfo → Io HeadResponse
    answer_head none = raise not_found
    answer_head (some info) = pure (head_response info)

    unfoldable pub head_object : Text → Text → Principal → Io HeadResponse
    head_object bucket key principal = do
      lift (validate settings true bucket key)
      driver ← lift (get_driver registry)
      info ← head env driver bucket key
      answer_head info

    unfoldable pub head_object_route : Option Text → Text → Text → Io HeadResponse
    head_object_route x_api_key bucket key = do
      principal ← lift (require_api_key settings x_api_key)
      head_object bucket key principal

    module _ (hmac : HmacSha256) where
      unfoldable pub create_signed_url : SignRequest → Io SignResponseData
      create_signed_url payload = do
        lift (validate settings true payload.bucket payload.key)
        driver ← lift (get_driver registry)
        signed_url ← presign_get env driver hmac payload.bucket payload.key payload.expires_in
        now ← gets (λ w. w.now)
        pure (record {
          signed_url = signed_url;
          expires_at = env.isoformat (now + payload.expires_in);
        })

      -- The route, with the checks of the body. FastAPI resolves the dependency first.
      unfoldable pub create_signed_url_route :
          Option Text → Option Text → Text → Option ℤ → Io SignResponseData
      create_signed_url_route x_api_key bucket key expires_in = do
        principal ← lift (require_api_key settings x_api_key)
        seconds ← lift (check_expires_in expires_in)
        create_signed_url
            (record { bucket = bucket_or_default bucket; key = key; expires_in = seconds })

      abbrev pub answer_stream : Option Text → Io SignedResponse
      answer_stream none = raise not_found
      answer_stream (some path) = pure (streaming path)

      -- The answer behind the check of the signature.
      abbrev pub hand_off : Text → Text → Io SignedResponse
      hand_off bucket key =
          if settings.storage_signed_get_dev_stream
          then (do
            driver ← lift (get_driver registry)
            stream ← get env driver bucket key
            answer_stream stream)
          else pure
              (accel_redirect (codes "/internal-files/" ++ (bucket ++ (codes "/" ++ quote key))))

      unfoldable pub signed_get : Text → Text → ℤ → Text → Io SignedResponse
      signed_get bucket key exp sig = do
        lift (validate settings false bucket key)
        now ← gets (λ w. w.now)
        accepted ← lift (verify hmac settings.storage_sign_secret bucket key exp sig now)
        if accepted then hand_off bucket key else raise forbidden
