-- ===== src/Tests/Serving.antt =====
-- The theorems on storing, streaming and signing at concrete data.
use ai_storybook_storage_ser.Drivers.Paths.Places.{meta_place}
use ai_storybook_storage_ser.Drivers.LocalFs.HeadAgrees.{Agrees, head-Agrees}
use ai_storybook_storage_ser.Drivers.FileSystem.Directories.{In}
use ai_storybook_storage_ser.Drivers.LocalFs.Sorting.{IsDistinct, IsAscending}
use ai_storybook_storage_ser.Drivers.LocalFs.Paging.{pages, pages-sort}
use ai_storybook_storage_ser.Drivers.LocalFs.Listing.{sort}
use ai_storybook_storage_ser.Base.{
  pos, IsBelow, Text, codes, true, false, ◌≡◌, ◌≢◌, refl, ◌↔◌, ◌⊎◌, inl, inr, none, some, [], ◌∷◌,
  ◌++◌, member, join, split, starts_with, text_eq, rstrip_char, drop_while, arith, Bool-cases, List,
  All,
}
use ai_storybook_storage_ser.Errors.{Exn, ok, err}
use ai_storybook_storage_ser.Validation.KeyGrammar.Grammar.{IsKey, IsBucketName}
use ai_storybook_storage_ser.Drivers.PosixPath.{FilePath, resolve, walk, absolute}
use ai_storybook_storage_ser.Drivers.FileSystem.Tree.{
  File, file, dir, Fs, file_at, node_at, find, path_eq,
}
use ai_storybook_storage_ser.Drivers.FileSystem.Monad.{World}
use ai_storybook_storage_ser.Drivers.FileSystem.Triple.{Ends}
use ai_storybook_storage_ser.Drivers.Stream.{bytes_of, Completes}
use ai_storybook_storage_ser.Drivers.LocalFs.{
  put, signed_url, sidecar_record, head, PutResult, Env, loaded, entries,
}
use ai_storybook_storage_ser.Drivers.LocalFs.Put.{IsNewObject}
use ai_storybook_storage_ser.Drivers.LocalFs.CanStore.{CanStore, put-CanStore}
use ai_storybook_storage_ser.Drivers.LocalFs.RoundTrip.{IsStreamed, put-get}
use ai_storybook_storage_ser.Drivers.LocalFs.StreamFile.{
  chunk_size, Delivers, HasChunks, stream_file, stream_file-Delivers,
}
use ai_storybook_storage_ser.Drivers.Registry.{build_driver}
use ai_storybook_storage_ser.Drivers.Signing.{sign, message-injective}
use ai_storybook_storage_ser.Routers.Reading.{
  SignResponseData, SignedResponse, accel_redirect, create_signed_url, signed_get,
}
use ai_storybook_storage_ser.Routers.Signed.{
  create_signed_url-signed_get, signed_get-refuses_at, signed_get_iff,
}
use ai_storybook_storage_ser.Tests.{
  env, hex_names, driver, settings, clean, bucket, cover, bucket-IsBucketName, cover-IsKey,
  cover_place, body, image, world, hmac, hmac_ascii,
}

-- A fresh store on a disk that does not fail.
abbrev fresh_store : Fs
fresh_store = (codes "data" ∷ [], dir) ∷ (codes "data" ∷ codes ".tmp" ∷ [], dir) ∷ []

abbrev fresh_world : World
fresh_world = record { fs = fresh_store; faults = []; now = 9; drawn = 0 }

no_files : (p : FilePath) (f : File) → node_at p fresh_store ≢ some (file f)
unfolding node_at find
no_files [] f = λ e. cc
no_files (x ∷ p) f = elim (Bool-cases (path_eq (x ∷ p) (codes "data" ∷ []))) [
  | inl same ↦ rw same (λ e. cc)
  | inr other ↦ elim (Bool-cases (path_eq (x ∷ p) (codes "data" ∷ codes ".tmp" ∷ []))) [
    | inl same ↦ rw (other, same) (λ e. cc)
    | inr another ↦ rw (other, another) (λ e. cc)
  ]
]

fresh-CanStore :
    CanStore env driver hex_names false bucket cover bucket-IsBucketName cover-IsKey fresh_world
unfolding node_at find resolve walk split absolute starts_with text_eq path_eq
fresh-CanStore = record {
  healthy = refl;
  tmp = refl;
  no_tmp_dirs = λ n e. cc;
  clear = λ front x rest f e. no_files front f;
  no_dir = λ e. cc;
}

put-CanStore_example :
    Ends
      (put env driver bucket cover body (codes "image/png") none [])
      fresh_world
      (λ r w'. (r.deduped ≡ false) × IsNewObject env body r (file_at cover_place w'.fs))
      (λ _ _. ⊥)
put-CanStore_example =
    put-CanStore env driver hex_names false bucket cover bucket-IsBucketName cover-IsKey fresh_world
      body (codes "image/png") none [] fresh-CanStore (inl refl) tt

put-get_example :
    Ends
      (put env driver bucket cover body (codes "image/png") none [])
      world
      (λ r w'.
        (r.deduped ≡ true)
        ⊎ IsStreamed env driver hex_names false bucket cover bucket-IsBucketName cover-IsKey
            (bytes_of body)
            w')
      (λ e w'. file_at cover_place w'.fs ≡ file_at cover_place world.fs)
put-get_example =
    put-get env driver hex_names false bucket cover bucket-IsBucketName cover-IsKey body
      (codes "image/png") none [] world

abbrev cover_path : Text
cover_path = codes "/data/assets/covers/a.png"

cover_at_path : file_at (resolve env.cwd cover_path) world.fs ≡ some image
unfolding file_at resolve walk split absolute starts_with text_eq path_eq
cover_at_path = refl

stream_file-Delivers_example :
    Delivers image.content (stream_file env cover_path world)
    × HasChunks chunk_size (stream_file env cover_path world)
    × ((world.faults ≢ []) ⊎ Completes (stream_file env cover_path world))
stream_file-Delivers_example = stream_file-Delivers env cover_path world image cover_at_path

known_bucket : member bucket settings.buckets ≡ true
unfolding member text_eq
known_bucket = refl

built : build_driver settings ≡ ok driver
unfolding build_driver rstrip_char drop_while text_eq
built = refl

create_signed_url-signed_get_example :
    (sig : Text) × ((create_signed_url env settings
        (some driver)
        hmac
        (record { bucket = bucket; key = cover; expires_in = 60 })
        world).0
      ≡ ok (record {
        signed_url = signed_url driver.public_base bucket cover (pos 69) sig;
        expires_at = env.isoformat 69;
      }))
    × ((signed_get env settings (some driver) hmac bucket cover (pos 69) sig world).0
        ≡ ok (accel_redirect (codes "/internal-files/" ++ (bucket ++ (codes "/" ++ cover)))))
create_signed_url-signed_get_example =
    create_signed_url-signed_get env settings driver hmac hmac_ascii clean bucket cover 60 world
      world built bucket-IsBucketName known_bucket cover-IsKey refl (omega arith)

signed_get_iff_example :
    ((r : SignedResponse) × ((signed_get env settings
          (some driver)
          hmac
          bucket
          cover
          (pos 20)
          (codes "00ff")
          world).0
        ≡ ok r))
    ↔ (IsBucketName bucket
        × (member bucket settings.buckets ≡ true)
        × IsKey false cover
        × IsBelow world.now (pos 20)
        × (codes "00ff" ≡ sign hmac settings.storage_sign_secret bucket cover (pos 20)))
signed_get_iff_example =
    signed_get_iff env settings driver hmac hmac_ascii clean bucket cover (pos 20) (codes "00ff")
      world refl

abbrev rendition : Text
rendition = codes "a@2x.png"

rendition-IsKey : IsKey true rendition
unfolding join
rendition-IsKey = record {
  first = codes "a@2x.png";
  rest = [];
  joined = refl;
  segments = (
    record {
      not_empty = ground arith;
      not_dot = ground arith;
      not_dotdot = ground arith;
      short = omega arith;
      chars = ground arith;
    },
    tt,
  );
  extension = (codes "a@2x", codes "png", refl, ground arith, omega arith);
  short = omega arith;
}

signed_get-refuses_at_example :
    ((reply : SignResponseData) × ((create_signed_url env settings
          (some driver)
          hmac
          (record { bucket = bucket; key = rendition; expires_in = 60 })
          world).0
        ≡ ok reply))
    × ((e : Exn) × ((signed_get env settings
            (some driver)
            hmac
            bucket
            rendition
            (pos 69)
            (codes "00ff")
            world).0
          ≡ err e))
signed_get-refuses_at_example =
    signed_get-refuses_at env settings driver hmac hmac_ascii clean bucket rendition 60 (pos 69)
      (codes "00ff") world world bucket-IsBucketName known_bucket rendition-IsKey refl

message-injective_example : (bucket ≡ bucket) × (cover ≡ cover) × (pos 20 ≡ pos 20)
message-injective_example =
    message-injective false false bucket cover bucket cover (pos 20) (pos 20) bucket-IsBucketName
      bucket-IsBucketName cover-IsKey cover-IsKey refl

abbrev found_keys : List Text
found_keys = codes "b.png" ∷ codes "a.png" ∷ codes "c.png" ∷ []

found-IsDistinct : IsDistinct found_keys
found-IsDistinct = ((ground arith, (ground arith, tt)), ((ground arith, tt), (tt, tt)))

found-ne-nil : All (λ k. k ≢ []) found_keys
found-ne-nil = ((λ e. cc), ((λ e. cc), ((λ e. cc), tt)))

pages-sort_example :
    (pages 4 (sort found_keys) none 2 ≡ some (sort found_keys))
    × IsAscending (sort found_keys)
    × ((x : Text) → In x (sort found_keys) ↔ In x found_keys)
pages-sort_example = pages-sort found_keys 2 found-IsDistinct found-ne-nil (omega arith)

-- What `put` answers for the body, and the sidecar that it writes.
abbrev answered : PutResult
answered = record { etag = 1 ∷ 2 ∷ 3 ∷ []; bytes = 3; deduped = false }

abbrev parsing_env : Env
parsing_env = record env {
  loads = λ t. loaded (
      entries (
        sidecar_record env (codes "image/png") answered.etag answered.bytes (codes "2026-08-13")
          []));
}

abbrev side_file : File
side_file = record { content = codes "{}"; mtime = 9 }

abbrev stored_world : World
stored_world = record {
  fs =
      (cover_place, file (record { content = bytes_of body; mtime = 9 }))
      ∷ (meta_place (resolve env.cwd driver.root) bucket cover, file side_file)
      ∷ [];
  faults = [];
  now = 10;
  drawn = 2;
}

stored-IsNewObject : IsNewObject parsing_env body answered (file_at cover_place stored_world.fs)
unfolding file_at find resolve walk split absolute starts_with text_eq path_eq
stored-IsNewObject = record { completes = tt; etag = refl; bytes = refl; written = (9, refl) }

side_there :
    file_at (meta_place (resolve env.cwd driver.root) bucket cover) stored_world.fs ≡ some side_file
unfolding file_at find resolve walk split absolute starts_with text_eq path_eq
side_there = refl

side_parses :
    parsing_env.loads side_file.content
    ≡ loaded (
        entries (
          sidecar_record parsing_env
            (codes "image/png")
            answered.etag
            answered.bytes
            (codes "2026-08-13")
            []))
unfolding sidecar_record
side_parses = refl

head-Agrees_example :
    Agrees parsing_env driver false bucket cover bucket-IsBucketName cover-IsKey answered
      (head parsing_env driver bucket cover stored_world).0
head-Agrees_example =
    head-Agrees parsing_env driver false bucket cover bucket-IsBucketName cover-IsKey body answered
      stored_world refl stored-IsNewObject
      (inr (side_file, codes "image/png", codes "2026-08-13", [], side_there, side_parses))
