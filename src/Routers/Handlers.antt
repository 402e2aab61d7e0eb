-- ===== src/Routers/Handlers.antt =====
-- src/routers/storage/{put_object,create_upload,delete_object,common}.py: each handler with its
-- dependency, which FastAPI resolves first.
use ai_storybook_storage_ser.Base.{
  ℕ, Text, codes, Bool, true, false, ◌||◌, ◌&&◌, not, ◌==◌, leb, ltb, ◌+◌, ◌-◌, ◌*◌, Option, none,
  some, [], ◌∷◌, ◌++◌, if◌then◌else◌,
}
use ai_storybook_storage_ser.Settings.{Settings}
use ai_storybook_storage_ser.Errors.{
  Exn, Result, ok, err, validation_error, payload_too_large, already_exists,
}
use ai_storybook_storage_ser.Auth.{Principal, Credentials, service, user, uploader_tag}
use ai_storybook_storage_ser.Auth.ApiKey.{require_api_key}
use ai_storybook_storage_ser.Auth.UserJwt.{PyJwt, require_user_jwt}
use ai_storybook_storage_ser.Auth.Combined.{require_api_key_or_user_jwt}
use ai_storybook_storage_ser.Validation.KeyGrammar.{validate}
use ai_storybook_storage_ser.Validation.SizeCaps.{resolve_s2s_cap}
use ai_storybook_storage_ser.Validation.PrefixPolicy.{check_user_writable, check_user_upload}
use ai_storybook_storage_ser.Drivers.FileSystem.Monad.{Io, pure, raise, lift, ◌>>=◌, ◌>>◌}
use ai_storybook_storage_ser.Drivers.Stream.{Stream}
use ai_storybook_storage_ser.Drivers.LocalFs.{Env, Driver, PutResult, put, delete}
use ai_storybook_storage_ser.Drivers.Registry.{get_driver}
use ai_storybook_storage_ser.Routers.Counting.{counting_stream}

-- The status and the `data` of `object_response`.
pub record ObjectResponse : Type 0 where
  pub status : ℕ
  pub bucket : Text
  pub key : Text
  pub url : Text
  pub etag : Text
  pub bytes : ℕ
  pub deduped : Bool

abbrev pub build_public_url : Settings → Text → Text → Text
build_public_url settings bucket key =
    settings.public_base_url ++ (codes "/files/" ++ (bucket ++ (codes "/" ++ key)))

abbrev pub object_response : Settings → ℕ → Text → Text → PutResult → ObjectResponse
object_response settings status bucket key result = record {
  status = status;
  bucket = bucket;
  key = key;
  url = build_public_url settings bucket key;
  etag = result.etag;
  bytes = result.bytes;
  deduped = result.deduped;
}

abbrev is_decimal : ℕ → Bool
is_decimal c = leb 48 c && leb c 57

-- `str.isdigit` of a header value, whose characters are Latin-1: it also takes `²`, `³` and `¹`.
unfoldable pub isdigit : Text → Bool
isdigit [] = false
isdigit (c ∷ []) = is_decimal c || ((c == 178) || ((c == 179) || (c == 185)))
isdigit (c ∷ s) = (is_decimal c || ((c == 178) || ((c == 179) || (c == 185)))) && isdigit s

-- `int` of a text that passed `isdigit`: the superscripts are no decimal digits.
unfoldable pub int_from : ℕ → Text → Result ℕ
int_from n [] = ok n
int_from n (c ∷ s) =
    let rest = int_from (n * 10 + (c - 48)) s in if is_decimal c then rest else err Exn.value_error

-- The fast-fail on the declared length.
unfoldable pub check_declared : Option Text → ℕ → Result (Unit {0})
unfolding isdigit int_from
check_declared none limit = ok tt
check_declared (some declared) limit =
    if isdigit declared
    then (elim (int_from 0 declared) [
      | ok n ↦ if ltb limit n then err payload_too_large else ok tt
      | err e ↦ err e
    ])
    else ok tt

unfoldable pub content_type_of : Option Text → Result Text
content_type_of none = err (validation_error "Content-Type header is required")
content_type_of (some []) = err (validation_error "Content-Type header is required")
content_type_of (some (c ∷ s)) = ok (c ∷ s)

-- `file.content_type or "application/octet-stream"`
unfoldable pub upload_content_type : Option Text → Text
upload_content_type none = codes "application/octet-stream"
upload_content_type (some []) = codes "application/octet-stream"
upload_content_type (some (c ∷ s)) = c ∷ s

module _ (env : Env) (settings : Settings) (registry : Option Driver) where
  -- The end of `put_object`: a taken key is a conflict unless `upsert`.
  abbrev pub answer_put : Text → Text → Bool → PutResult → Io ObjectResponse
  answer_put bucket key upsert result =
      if result.deduped && not upsert
      then raise already_exists
      else pure (object_response settings (if upsert then 200 else 201) bucket key result)

  unfoldable pub put_object :
      Text → Text → Option Text → Option Text → Stream → Bool → Principal → Io ObjectResponse
  unfolding uploader_tag
  put_object bucket key content_type_header content_length body upsert principal = do
    lift (validate settings true bucket key)
    content_type ← lift (content_type_of content_type_header)
    limit ← lift (resolve_s2s_cap settings key)
    lift (check_declared content_length limit)
    driver ← lift (get_driver registry)
    result ←
        put env driver bucket key (counting_stream body limit) content_type
          (if upsert then none else some (codes "*"))
          ((codes "uploader", uploader_tag principal) ∷ [])
    answer_put bucket key upsert result

  unfoldable pub create_upload :
      Text → Text → Option Text → Option ℕ → Stream → Principal → Io ObjectResponse
  unfolding uploader_tag
  create_upload bucket key content_type size body principal = do
    lift (validate settings false bucket key)
    limit ← lift (check_user_upload settings key content_type size)
    driver ← lift (get_driver registry)
    result ←
        put env driver bucket key (counting_stream body limit) (upload_content_type content_type)
          none ((codes "uploader", uploader_tag principal) ∷ [])
    pure (object_response settings 201 bucket key result)

  abbrev pub is_service : Principal → Bool
  is_service p = elim p.kind [ service ↦ true | user ↦ false ]

  unfoldable pub delete_object : Text → Text → Principal → Io Bool
  delete_object bucket key principal = do
    lift (validate settings (is_service principal) bucket key)
    lift (if is_service principal then ok tt else check_user_writable settings key)
    driver ← lift (get_driver registry)
    delete env driver bucket key

  -- The routes, with `Depends`.
  unfoldable pub put_object_route :
      Option Text → Text → Text → Option Text → Option Text → Stream → Bool → Io ObjectResponse
  put_object_route x_api_key bucket key content_type content_length body upsert = do
    principal ← lift (require_api_key settings x_api_key)
    put_object bucket key content_type content_length body upsert principal

  module _ (jwt : PyJwt) where
    unfoldable pub create_upload_route :
        Option Credentials → Text → Text → Option Text → Option ℕ → Stream → Io ObjectResponse
    create_upload_route credentials bucket key content_type size body = do
      principal ← lift (require_user_jwt jwt settings credentials)
      create_upload bucket key content_type size body principal

    unfoldable pub delete_object_route : Option Text → Option Credentials → Text → Text → Io Bool
    delete_object_route x_api_key credentials bucket key = do
      principal ← lift (require_api_key_or_user_jwt jwt settings x_api_key credentials)
      delete_object bucket key principal
