-- ===== src/Settings/Raw.antt =====
-- src/config/settings.py: the fields of `Settings` as they are read, and its cached properties.
use ai_storybook_storage_ser.Base.{ℤ, ℕ, Text, codes, Bool, false, List, [], rstrip_char}
use ai_storybook_storage_ser.Settings.{Dict}
use ai_storybook_storage_ser.Settings.Parsers.{
  Outcome, Loads, parse_csv, parse_json_or_csv_list, parse_json_map, parse_json_int_map,
}

pub record RawSettings : Type 0 where
  pub storage_public_base_url : Text
  pub storage_sign_secret : Text
  pub storage_driver : Text
  pub storage_root : Text
  pub storage_api_keys : Text
  pub supabase_jwt_secret : Text
  pub supabase_url : Text
  pub storage_buckets : Text
  pub storage_private_prefixes : Text
  pub storage_service_only_prefixes : Text
  pub storage_max_object_bytes : ℕ
  pub storage_prefix_size_caps : Text
  pub storage_user_mime_caps : Text
  pub storage_min_free_bytes : ℕ
  pub storage_signed_get_dev_stream : Bool
  pub cors_allowed_origins : Text
  pub host : Text
  pub port : ℕ

-- The two required values, and the defaults of all others.
unfoldable pub with_defaults : Text → Text → RawSettings
with_defaults public_base_url sign_secret = record {
  storage_public_base_url = public_base_url;
  storage_sign_secret = sign_secret;
  storage_driver = codes "local-fs";
  storage_root = codes "/var/lib/storybook-storage";
  storage_api_keys = [];
  supabase_jwt_secret = [];
  supabase_url = [];
  storage_buckets = codes "storybook-assets";
  storage_private_prefixes = codes "exports/";
  storage_service_only_prefixes = codes "exports/";
  storage_max_object_bytes = 52428800;
  storage_prefix_size_caps = codes "{\"videos/\": 3221225472}";
  storage_user_mime_caps =
      codes "{\"image/\": 10485760, \"audio/\": 20971520, \"video/\": 52428800}";
  storage_min_free_bytes = 10737418240;
  storage_signed_get_dev_stream = false;
  cors_allowed_origins = codes "http://localhost:5173";
  host = codes "127.0.0.1";
  port = 8200;
}

unfoldable pub api_keys : Loads → RawSettings → Outcome (Dict Text)
unfolding parse_json_map
api_keys loads raw = parse_json_map loads raw.storage_api_keys

unfoldable pub buckets : Loads → RawSettings → Outcome (List Text)
unfolding parse_json_or_csv_list
buckets loads raw = parse_json_or_csv_list loads raw.storage_buckets

unfoldable pub private_prefixes : Loads → RawSettings → Outcome (List Text)
unfolding parse_json_or_csv_list
private_prefixes loads raw = parse_json_or_csv_list loads raw.storage_private_prefixes

unfoldable pub service_only_prefixes : Loads → RawSettings → Outcome (List Text)
unfolding parse_json_or_csv_list
service_only_prefixes loads raw = parse_json_or_csv_list loads raw.storage_service_only_prefixes

unfoldable pub user_mime_caps : Loads → RawSettings → Outcome (Dict ℤ)
unfolding parse_json_int_map
user_mime_caps loads raw = parse_json_int_map loads raw.storage_user_mime_caps

unfoldable pub prefix_size_caps : Loads → RawSettings → Outcome (Dict ℤ)
unfolding parse_json_int_map
prefix_size_caps loads raw = parse_json_int_map loads raw.storage_prefix_size_caps

unfoldable pub cors_origins : RawSettings → List Text
unfolding parse_csv
cors_origins raw = parse_csv raw.cors_allowed_origins

unfoldable pub public_base_url : RawSettings → Text
unfolding rstrip_char
public_base_url raw = rstrip_char b'/' raw.storage_public_base_url
