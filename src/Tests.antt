-- ===== src/Tests.antt =====
-- The theorems at concrete data.
mod Serving
mod Configuring
use ai_storybook_storage_ser.Base.{
  ℕ, pos, IsBelow, Text, codes, true, false, ◌≡◌, ◌≢◌, refl, ◌↔◌, ◌⊎◌, inr, ◌≤◌, ◌<◌, Option, none,
  some, [], ◌∷◌, ◌++◌, All, Lacks, length, member, join, split, starts_with, text_eq, arith, all,
  ltb,
}
use ai_storybook_storage_ser.Settings.{Settings}
use ai_storybook_storage_ser.Errors.{Errno, ok}
use ai_storybook_storage_ser.Auth.{Principal, Credentials, service, user}
use ai_storybook_storage_ser.Auth.ApiKey.{ApiKeyVerdict, require_api_key, require_api_key-Verdict}
use ai_storybook_storage_ser.Auth.UserJwt.{
  PyJwt, returned, UserOutcome, require_user_jwt, require_user_jwt-UserOutcome,
}
use ai_storybook_storage_ser.Auth.Combined.{
  CombinedOutcome, require_api_key_or_user_jwt, require_api_key_or_user_jwt-CombinedOutcome,
}
use ai_storybook_storage_ser.Validation.KeyGrammar.{validate_key, validate_bucket}
use ai_storybook_storage_ser.Validation.KeyGrammar.Grammar.{IsKey, IsBucketName}
use ai_storybook_storage_ser.Validation.KeyGrammar.Accepts.{validate_key_iff, validate_bucket_iff}
use ai_storybook_storage_ser.Validation.LongestPrefix.Table.{IsCapFor, HasNoCap}
use ai_storybook_storage_ser.Validation.SizeCaps.{resolve_s2s_cap}
use ai_storybook_storage_ser.Validation.SizeCaps.Longest.{resolve_s2s_cap_lem}
use ai_storybook_storage_ser.Validation.PrefixPolicy.{check_user_upload}
use ai_storybook_storage_ser.Validation.PrefixPolicy.Gate.{Verdict, check_user_upload-Verdict}
use ai_storybook_storage_ser.Drivers.PosixPath.{FilePath, path_join, resolve, walk, absolute}
use ai_storybook_storage_ser.Drivers.Paths.{object_path, meta_path}
use ai_storybook_storage_ser.Drivers.Paths.Within.{LiesWithin, object_path-LiesWithin}
use ai_storybook_storage_ser.Drivers.Paths.Places.{
  object_place, meta_place, object_path-place, meta_path-place,
}
use ai_storybook_storage_ser.Drivers.FileSystem.Tree.{File, file, dir, file_at, path_eq}
use ai_storybook_storage_ser.Drivers.FileSystem.Monad.{World, next_fault}
use ai_storybook_storage_ser.Drivers.FileSystem.Triple.{Ends}
use ai_storybook_storage_ser.Drivers.Stream.{Stream, done, chunk, bytes_of, Completes}
use ai_storybook_storage_ser.Drivers.LocalFs.{Env, Driver, put, delete, json_decode_error}
use ai_storybook_storage_ser.Drivers.LocalFs.Sidecars.{HexNames}
use ai_storybook_storage_ser.Drivers.LocalFs.Put.{PutOutcome, put-PutOutcome, put-if_none_match}
use ai_storybook_storage_ser.Drivers.LocalFs.Delete.{DeleteOutcome, delete-DeleteOutcome}
use ai_storybook_storage_ser.Drivers.LocalFs.Others.{put-other, delete-other}
use ai_storybook_storage_ser.Drivers.Signing.{HmacSha256, sign, verify, verify_iff}
use ai_storybook_storage_ser.Routers.Counting.{
  counting_stream, counting_stream-Completes, counting_stream-short,
}
use ai_storybook_storage_ser.Routers.Handlers.{put_object, create_upload, delete_object}
use ai_storybook_storage_ser.Routers.Writes.{
  IsUpload, put_object-IsUpload, put_object-no_overwrite, create_upload-IsUpload,
}
use ai_storybook_storage_ser.Routers.Protected.{
  create_upload-service_only, delete_object-service_only,
}

abbrev env : Env
env = record {
  cwd = codes "/srv";
  hex = λ n. codes "0a1b";
  sha256 = λ bytes. bytes;
  dumps = λ s. codes "{}";
  loads = λ t. json_decode_error;
  isoformat = λ t. codes "2026-08-13";
  fromisoformat = λ t. some 9;
  format_datetime = λ t. codes "Thu, 13 Aug 2026";
  guess_type = λ key. none;
}

hex_names : HexNames env
hex_names = record {
  plain = λ n. (ground arith, ground arith, ground arith);
  one_name = λ n. omega arith;
}

abbrev driver : Driver
driver = record { root = codes "/data"; sign_secret = codes "s"; public_base = codes "http://h" }

abbrev settings : Settings
settings = record {
  public_base_url = codes "http://h";
  storage_sign_secret = codes "s";
  storage_driver = codes "local-fs";
  storage_root = codes "/data";
  api_keys = (codes "image-api", codes "k1") ∷ [];
  supabase_jwt_secret = codes "secret";
  supabase_url = [];
  buckets = codes "assets" ∷ [];
  private_prefixes = [];
  service_only_prefixes = codes "books/" ∷ [];
  storage_max_object_bytes = 100;
  prefix_size_caps = (codes "books/", 5) ∷ [];
  user_mime_caps = (codes "image/", 10) ∷ [];
  storage_min_free_bytes = 0;
  storage_signed_get_dev_stream = false;
}

clean : All (Lacks 10) settings.buckets
clean = omega arith

abbrev bucket : Text
bucket = codes "assets"

abbrev cover : Text
cover = codes "covers/a.png"

abbrev page : Text
page = codes "books/b.png"

bucket-IsBucketName : IsBucketName bucket
bucket-IsBucketName = record { long = omega arith; short = omega arith; chars = ground arith }

cover-IsKey : IsKey false cover
unfolding join
cover-IsKey = record {
  first = codes "covers";
  rest = codes "a.png" ∷ [];
  joined = refl;
  segments = (
    record {
      not_empty = ground arith;
      not_dot = ground arith;
      not_dotdot = ground arith;
      short = omega arith;
      chars = ground arith;
    },
    (
      record {
        not_empty = ground arith;
        not_dot = ground arith;
        not_dotdot = ground arith;
        short = omega arith;
        chars = ground arith;
      },
      tt,
    ),
  );
  extension = (codes "a", codes "png", refl, ground arith, omega arith);
  short = omega arith;
}

abbrev cover_place : FilePath
cover_place = object_place (resolve env.cwd driver.root) bucket cover

abbrev page_place : FilePath
page_place = object_place (resolve env.cwd driver.root) bucket page

abbrev body : Stream
body = chunk (1 ∷ 2 ∷ []) (chunk [] (chunk (3 ∷ []) done))

abbrev image : File
image = record { content = 7 ∷ []; mtime = 4 }

-- Both objects are there; the disk is full at the third call.
abbrev world : World
world = record {
  fs =
      (codes "data" ∷ [], dir)
      ∷ (codes "data" ∷ codes ".tmp" ∷ [], dir)
      ∷ (codes "data" ∷ codes "assets" ∷ codes "covers" ∷ codes "a.png" ∷ [], file image)
      ∷ (codes "data" ∷ codes "assets" ∷ codes "books" ∷ codes "b.png" ∷ [], file image)
      ∷ [];
  faults = none ∷ none ∷ some Errno.enospc ∷ [];
  now = 9;
  drawn = 0;
}

cover_there : file_at cover_place world.fs ≡ some image
unfolding file_at resolve walk split absolute starts_with text_eq path_eq
cover_there = refl

abbrev caller : Principal
caller = record { kind = service; name = codes "image-api" }

abbrev visitor : Principal
visitor = record { kind = user; name = codes "u1" }

put-PutOutcome_example :
    Ends
      (put env driver bucket cover body (codes "image/png") none [])
      world
      (λ r w'.
        PutOutcome env none body (file_at cover_place world.fs) r (file_at cover_place w'.fs))
      (λ e w'. file_at cover_place w'.fs ≡ file_at cover_place world.fs)
put-PutOutcome_example =
    put-PutOutcome env driver hex_names false bucket cover bucket-IsBucketName cover-IsKey body
      (codes "image/png") none [] world

works : next_fault world.faults ≡ ok tt
unfolding next_fault
works = refl

put-if_none_match_example :
    Ends
      (put env driver bucket cover body (codes "image/png") (some (codes "*")) [])
      world
      (λ r w'. (r.deduped ≡ true) × (file_at cover_place w'.fs ≡ some image))
      (λ e w'. file_at cover_place w'.fs ≡ some image)
put-if_none_match_example =
    put-if_none_match env driver hex_names false bucket cover bucket-IsBucketName cover-IsKey body
      (codes "image/png") [] world image cover_there works

cover-ne-page : cover ≢ page
cover-ne-page = ground arith

put-other_example :
    Ends
      (put env driver bucket cover body (codes "image/png") none [])
      world
      (λ r w'. file_at page_place w'.fs ≡ file_at page_place world.fs)
      (λ e w'. file_at page_place w'.fs ≡ file_at page_place world.fs)
put-other_example =
    put-other env driver hex_names false bucket cover bucket page bucket-IsBucketName cover-IsKey
      bucket-IsBucketName (inr cover-ne-page) body (codes "image/png") none [] world

delete-DeleteOutcome_example :
    Ends
      (delete env driver bucket cover)
      world
      (λ r w'. DeleteOutcome (file_at cover_place world.fs) r (file_at cover_place w'.fs))
      (λ e w'. ⊥)
delete-DeleteOutcome_example =
    delete-DeleteOutcome env driver false bucket cover bucket-IsBucketName cover-IsKey world

delete-other_example :
    Ends
      (delete env driver bucket cover)
      world
      (λ r w'. file_at page_place w'.fs ≡ file_at page_place world.fs)
      (λ e w'. ⊥)
delete-other_example =
    delete-other env driver hex_names false bucket cover bucket page bucket-IsBucketName cover-IsKey
      bucket-IsBucketName (inr cover-ne-page) world

put_object-IsUpload_example :
    Ends
      (put_object env settings
        (some driver)
        bucket
        cover
        (some (codes "image/png"))
        (some (codes "3"))
        body
        true
        caller)
      world
      (λ r w'.
        (limit : ℕ) × (resolve_s2s_cap settings cover ≡ ok limit)
        × IsUpload env limit body r (file_at cover_place w'.fs))
      (λ e w'. file_at cover_place w'.fs ≡ file_at cover_place world.fs)
put_object-IsUpload_example =
    put_object-IsUpload env settings driver hex_names clean bucket cover (some (codes "image/png"))
      (some (codes "3")) body true caller world

put_object-no_overwrite_example :
    Ends
      (put_object env settings
        (some driver)
        bucket
        cover
        (some (codes "image/png"))
        none
        body
        false
        caller)
      world
      (λ r w'. ⊥)
      (λ e w'. file_at cover_place w'.fs ≡ some image)
put_object-no_overwrite_example =
    put_object-no_overwrite env settings driver hex_names clean bucket cover
      (some (codes "image/png")) none body caller world image cover_there works

create_upload-IsUpload_example :
    Ends
      (create_upload env settings
        (some driver)
        bucket
        cover
        (some (codes "image/png"))
        (some 3)
        body
        visitor)
      world
      (λ r w'.
        (limit : ℕ) × (check_user_upload settings cover (some (codes "image/png")) (some 3)
          ≡ ok limit)
        × IsUpload env limit body r (file_at cover_place w'.fs))
      (λ e w'. file_at cover_place w'.fs ≡ file_at cover_place world.fs)
create_upload-IsUpload_example =
    create_upload-IsUpload env settings driver hex_names clean bucket cover
      (some (codes "image/png")) (some 3) body visitor world

listed : member (codes "books/") settings.service_only_prefixes ≡ true
unfolding member text_eq
listed = refl

under : starts_with page (codes "books/") ≡ true
unfolding starts_with
under = refl

create_upload-service_only_example :
    Ends
      (create_upload env settings
        (some driver)
        bucket
        cover
        (some (codes "image/png"))
        (some 3)
        body
        visitor)
      world
      (λ r w'. file_at page_place w'.fs ≡ file_at page_place world.fs)
      (λ e w'. file_at page_place w'.fs ≡ file_at page_place world.fs)
create_upload-service_only_example =
    create_upload-service_only env settings driver hex_names clean bucket cover bucket page
      (codes "books/") bucket-IsBucketName listed under (some (codes "image/png")) (some 3) body
      visitor world

delete_object-service_only_example :
    Ends
      (delete_object env settings (some driver) bucket page visitor)
      world
      (λ r w'. file_at page_place w'.fs ≡ file_at page_place world.fs)
      (λ e w'. file_at page_place w'.fs ≡ file_at page_place world.fs)
delete_object-service_only_example =
    delete_object-service_only env settings driver hex_names clean bucket page bucket page
      (codes "books/") bucket-IsBucketName listed under (codes "u1") world

validate_key_iff_example : (validate_key false cover ≡ ok tt) ↔ IsKey false cover
validate_key_iff_example = validate_key_iff false cover

validate_bucket_iff_example :
    (validate_bucket settings bucket ≡ ok tt)
    ↔ (IsBucketName bucket × (member bucket settings.buckets ≡ true))
validate_bucket_iff_example = validate_bucket_iff settings bucket clean

object_path_passes :
    object_path env.cwd driver.root bucket cover
    ≡ ok (path_join (path_join driver.root bucket) cover)
object_path_passes =
    (object_path-place env.cwd driver.root false bucket cover bucket-IsBucketName cover-IsKey).0

object_path-LiesWithin_example :
    (path_join (path_join driver.root bucket) cover
      ≡ path_join (path_join driver.root bucket) cover)
    × LiesWithin
        (resolve env.cwd (path_join driver.root bucket))
        (resolve env.cwd (path_join (path_join driver.root bucket) cover))
object_path-LiesWithin_example =
    object_path-LiesWithin env.cwd driver.root bucket cover
      (path_join (path_join driver.root bucket) cover) object_path_passes

object_path-place_example :
    (object_path env.cwd driver.root bucket cover
      ≡ ok (path_join (path_join driver.root bucket) cover))
    × (resolve env.cwd (path_join (path_join driver.root bucket) cover) ≡ cover_place)
object_path-place_example =
    object_path-place env.cwd driver.root false bucket cover bucket-IsBucketName cover-IsKey

check_user_upload-Verdict_example :
    Verdict settings cover
      (some (codes "Image/PNG; q=1"))
      (some 3)
      (check_user_upload settings cover (some (codes "Image/PNG; q=1")) (some 3))
check_user_upload-Verdict_example =
    check_user_upload-Verdict settings cover (some (codes "Image/PNG; q=1")) (some 3)

resolve_s2s_cap_lem_example :
    ((prefix : Text) × (cap : ℕ) × IsCapFor page settings.prefix_size_caps prefix cap
      × (resolve_s2s_cap settings page ≡ ok cap))
    ⊎ (HasNoCap page settings.prefix_size_caps
        × (resolve_s2s_cap settings page ≡ ok settings.storage_max_object_bytes))
resolve_s2s_cap_lem_example = resolve_s2s_cap_lem settings page

require_api_key-Verdict_example :
    ApiKeyVerdict settings (some (codes "k1")) (require_api_key settings (some (codes "k1")))
require_api_key-Verdict_example = require_api_key-Verdict settings (some (codes "k1"))

abbrev jwt : PyJwt
jwt = record {
  decode = λ token key options. returned (record { sub = some token });
  signing_key_from_jwt = λ uri token. returned uri;
}

abbrev bearer : Option Credentials
bearer = some (record { scheme = codes "Bearer"; credentials = codes " u1 " })

require_user_jwt-UserOutcome_example :
    UserOutcome jwt settings bearer (require_user_jwt jwt settings bearer)
require_user_jwt-UserOutcome_example = require_user_jwt-UserOutcome jwt settings bearer

require_api_key_or_user_jwt-CombinedOutcome_example :
    CombinedOutcome jwt settings
      (some (codes "no"))
      bearer
      (require_api_key_or_user_jwt jwt settings (some (codes "no")) bearer)
require_api_key_or_user_jwt-CombinedOutcome_example =
    require_api_key_or_user_jwt-CombinedOutcome jwt settings (some (codes "no")) bearer

counting_stream-Completes_example :
    Completes (counting_stream body 3) ↔ (Completes body × (length (bytes_of body) ≤ 3))
counting_stream-Completes_example = counting_stream-Completes body 3

counting_stream-short_example : length (bytes_of (counting_stream body 2)) ≤ 2
counting_stream-short_example = counting_stream-short body 2

abbrev hmac : HmacSha256
hmac secret message = codes "00ff"

hmac_ascii : (k m : Text) → all (λ c. ltb c 128) (hmac k m) ≡ true
hmac_ascii k m = refl

verify_iff_example :
    (verify hmac (codes "s") bucket cover (pos 20) (codes "00ff") 19 ≡ ok true)
    ↔ (IsBelow 19 (pos 20) × (codes "00ff" ≡ sign hmac (codes "s") bucket cover (pos 20)))
verify_iff_example = verify_iff hmac (codes "s") bucket cover (pos 20) (codes "00ff") 19 hmac_ascii
