-- ===== src/Tests/Configuring.antt =====
-- The theorems on the settings, the directories and the start of the process at concrete data.
use ai_storybook_storage_ser.Base.{
  Text, codes, false, ◌≡◌, ◌≢◌, refl, sym, inl, inr, none, some, List, [], ◌∷◌, All, Lacks,
  IsTrimmed, strip, drop_while, is_space, join, split, starts_with, text_eq, arith, ◌++◌,
  if◌then◌else◌,
}
use ai_storybook_storage_ser.Settings.{Settings}
use ai_storybook_storage_ser.Settings.Parsers.{
  value, raised, json_decode_error, overflow_error, object, Loads, parse_json_or_csv_list,
  parse_json_map, parse_json_int_map,
}
use ai_storybook_storage_ser.Settings.Raw.{RawSettings, with_defaults, api_keys}
use ai_storybook_storage_ser.Settings.Lists.{parse_json_or_csv_list-join}
use ai_storybook_storage_ser.Settings.Maps.{IntMap, parse_json_int_map-IntMap}
use ai_storybook_storage_ser.Errors.{err, unauthorized}
use ai_storybook_storage_ser.Auth.ApiKey.{require_api_key}
use ai_storybook_storage_ser.Auth.UserJwt.{jwks_uri}
use ai_storybook_storage_ser.Auth.Configured.{api_keys-require_api_key}
use ai_storybook_storage_ser.Auth.JwksCache.{empty_cache, IsSound, get_client, get_client-IsSound}
use ai_storybook_storage_ser.Drivers.PosixPath.{FilePath, resolve, walk, absolute}
use ai_storybook_storage_ser.Drivers.Paths.{tmp_dir}
use ai_storybook_storage_ser.Drivers.Paths.Places.{tmp_place, object_place-ne-hidden}
use ai_storybook_storage_ser.Drivers.FileSystem.Tree.{file, dir, file_at, node_at, find, path_eq}
use ai_storybook_storage_ser.Drivers.FileSystem.Monad.{World}
use ai_storybook_storage_ser.Drivers.FileSystem.Triple.{Ends}
use ai_storybook_storage_ser.Drivers.FileSystem.Directories.{IsEntry}
use ai_storybook_storage_ser.Drivers.FileSystem.MakeDirs.{Extends}
use ai_storybook_storage_ser.Drivers.Layout.{ensure_layout, cleanup_stale_tmp}
use ai_storybook_storage_ser.Drivers.Layout.Sweep.{cleanup_stale_tmp-spares}
use ai_storybook_storage_ser.Drivers.Layout.Round.{remains}
use ai_storybook_storage_ser.Drivers.Layout.Removes.{cleanup_stale_tmp-remains}
use ai_storybook_storage_ser.Drivers.Layout.Directories.{IsLaidOut, ensure_layout-IsLaidOut}
use ai_storybook_storage_ser.Application.{Process, startup, tmp_sweeper}
use ai_storybook_storage_ser.Application.Startup.{IsWired, startup-IsWired}
use ai_storybook_storage_ser.Application.Sweeper.{tmp_sweeper-spares}
use ai_storybook_storage_ser.Tests.{
  env, driver, settings, bucket, cover, bucket-IsBucketName, cover_place, image, world, cover_there,
}

abbrev root : FilePath
root = resolve env.cwd driver.root

-- A staging file was left behind in the second 4.
abbrev left_behind : World
left_behind = record {
  fs =
      (codes "data" ∷ [], dir)
      ∷ (codes "data" ∷ codes ".tmp" ∷ [], dir)
      ∷ (codes "data" ∷ codes ".tmp" ∷ codes "0a1b" ∷ [], file image)
      ∷ [];
  faults = [];
  now = 9;
  drawn = 1;
}

leftover_there : file_at (tmp_place root (codes "0a1b")) left_behind.fs ≡ some image
unfolding file_at resolve walk split absolute starts_with text_eq path_eq
leftover_there = refl

cleanup_stale_tmp-spares_example :
    Ends
      (cleanup_stale_tmp env.cwd driver.root 3600)
      left_behind
      (λ _ w'. file_at (tmp_place root (codes "0a1b")) w'.fs ≡ some image)
      (λ _ w'. file_at (tmp_place root (codes "0a1b")) w'.fs ≡ some image)
cleanup_stale_tmp-spares_example =
    cleanup_stale_tmp-spares env.cwd driver.root 3600 (tmp_place root (codes "0a1b")) image
      left_behind leftover_there (inr (omega arith))

tmp_there : node_at (root ++ tmp_dir ∷ []) left_behind.fs ≡ some dir
unfolding node_at find resolve walk split absolute starts_with text_eq path_eq
tmp_there = refl

leftover-IsEntry : IsEntry (codes "0a1b")
leftover-IsEntry = ((ground arith, ground arith, ground arith), omega arith)

cleanup_stale_tmp-remains_example :
    Ends
      (cleanup_stale_tmp env.cwd driver.root 3)
      left_behind
      (λ _ w'.
        node_at (tmp_place root (codes "0a1b")) w'.fs
        ≡ remains 3 9 (node_at (tmp_place root (codes "0a1b")) left_behind.fs))
      (λ _ _. ⊥)
cleanup_stale_tmp-remains_example =
    cleanup_stale_tmp-remains env.cwd driver.root 3 (codes "0a1b") left_behind leftover-IsEntry refl
      tmp_there

ensure_layout-IsLaidOut_example :
    Ends
      (ensure_layout env.cwd driver.root (bucket ∷ []))
      world
      (λ _ w'. Extends world.fs w'.fs × IsLaidOut env.cwd driver.root (bucket ∷ []) w'.fs)
      (λ _ w'. Extends world.fs w'.fs)
ensure_layout-IsLaidOut_example = ensure_layout-IsLaidOut env.cwd driver.root (bucket ∷ []) world

abbrev process : Process
process = record { driver = none; jwks = empty_cache }

outside : (name : Text) → tmp_place root name ≢ cover_place
outside name e =
    object_place-ne-hidden root bucket cover (codes "tmp") (name ∷ []) bucket-IsBucketName (sym e)

startup-IsWired_example :
    Ends
      (startup env.cwd settings process)
      world
      (λ p w'.
        IsWired settings p
        × IsLaidOut env.cwd settings.storage_root settings.buckets w'.fs
        × (file_at cover_place w'.fs ≡ some image))
      (λ _ w'. file_at cover_place w'.fs ≡ some image)
startup-IsWired_example =
    startup-IsWired env.cwd settings process world cover_place image outside cover_there

tmp_sweeper-spares_example :
    file_at cover_place (tmp_sweeper env.cwd settings (4000 ∷ 7600 ∷ []) world).fs ≡ some image
tmp_sweeper-spares_example =
    tmp_sweeper-spares env.cwd settings (4000 ∷ 7600 ∷ []) world cover_place image outside
      cover_there

-- A JSON parser that knows one text.
abbrev loads : Loads
loads raw =
    if text_eq raw (codes "{\"videos/\": Infinity}")
    then value
        (object ((codes "videos/", record { str = codes "inf"; int = raised overflow_error }) ∷ []))
    else raised json_decode_error

abbrev prefixes : List Text
prefixes = codes "exports/" ∷ codes "ai logs/" ∷ []

prefixes-All : All IsTrimmed prefixes
unfolding is_space
prefixes-All = (((λ e. cc), refl, refl), (((λ e. cc), refl, refl), tt))

prefixes-Lacks : All (Lacks b',') prefixes
prefixes-Lacks = omega arith

no_bracket : starts_with (join b',' prefixes) (codes "[") ≡ false
unfolding starts_with join
no_bracket = refl

parse_json_or_csv_list-join_example :
    parse_json_or_csv_list loads (join b',' prefixes) ≡ value prefixes
parse_json_or_csv_list-join_example =
    parse_json_or_csv_list-join loads prefixes prefixes-All prefixes-Lacks no_bracket

parse_json_int_map-IntMap_example :
    IntMap loads
      (codes "{\"videos/\": Infinity}")
      (parse_json_int_map loads (codes "{\"videos/\": Infinity}"))
parse_json_int_map-IntMap_example =
    parse_json_int_map-IntMap loads (codes "{\"videos/\": Infinity}")

abbrev raw : RawSettings
raw = with_defaults (codes "http://h") (codes "s")

abbrev no_keys : Settings
no_keys = record settings { api_keys = [] }

keys_are_parsed : api_keys loads raw ≡ value no_keys.api_keys
unfolding api_keys with_defaults parse_json_map strip drop_while text_eq
keys_are_parsed = refl

blank_keys : strip raw.storage_api_keys ≡ []
unfolding with_defaults strip drop_while
blank_keys = refl

api_keys-require_api_key_example : require_api_key no_keys (some (codes "k1")) ≡ err unauthorized
api_keys-require_api_key_example =
    api_keys-require_api_key loads raw no_keys (some (codes "k1")) (inl blank_keys) keys_are_parsed

get_client-IsSound_example :
    ((get_client (codes "https://p/") empty_cache).0.uri ≡ jwks_uri (codes "https://p/"))
    × IsSound (get_client (codes "https://p/") empty_cache).1
    × (get_client (codes "https://p/") (get_client (codes "https://p/") empty_cache).1
        ≡ get_client (codes "https://p/") empty_cache)
get_client-IsSound_example = get_client-IsSound (codes "https://p/") empty_cache tt
