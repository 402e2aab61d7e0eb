-- ===== src/Drivers/LocalFs.antt =====
-- src/drivers/local_fs.py and the result types of src/drivers/base.py: the operations on objects.
pub mod Staging
pub mod Atomic
pub mod RandomName
pub mod Sidecars
pub mod BestEffort
pub mod Put
pub mod Delete
pub mod Others
pub mod StreamFile
pub mod RoundTrip
pub mod Succeeds
pub mod CanStore
pub mod Listing
pub mod Sorting
pub mod Paging
pub mod HeadAgrees
use ai_storybook_storage_ser.Base.{
  ℤ, pos, str_ℤ, ℕ, Text, codes, Bool, true, false, Option, none, some, [], ◌∷◌, ◌++◌, ◌+◌, ◌*◌,
  length, text_eq, ltb, if◌then◌else◌,
}
use ai_storybook_storage_ser.Settings.{Dict, lookup}
use ai_storybook_storage_ser.Errors.{Exn, Errno, enospc, Result, ok}
use ai_storybook_storage_ser.Drivers.PosixPath.{dirname}
use ai_storybook_storage_ser.Drivers.Paths.{object_path, meta_path, new_tmp_path}
use ai_storybook_storage_ser.Drivers.FileSystem.{
  create, write, makedirs, rename, remove, read_all, flush, fsync, close, path_exists, is_file,
  stat,
}
use ai_storybook_storage_ser.Drivers.FileSystem.Tree.{Bytes, File, Node, file, dir}
use ai_storybook_storage_ser.Drivers.FileSystem.Monad.{
  Io, pure, raise, lift, gets, ◌>>=◌, ◌>>◌, finally, except_os_error, unless_done,
}
use ai_storybook_storage_ser.Drivers.Signing.{HmacSha256, sign}
use ai_storybook_storage_ser.Drivers.Quote.{quote}
use ai_storybook_storage_ser.Drivers.Stream.{Stream, done, chunk, fails, as_aiter}

pub record PutResult : Type 0 where
  pub etag : Text
  pub bytes : ℕ
  pub deduped : Bool

pub record ObjectInfo : Type 0 where
  pub key : Text
  pub bytes : ℕ
  pub content_type : Text
  pub etag : Text
  pub modified_at : Text
  pub metadata : Dict Text

-- A dict that a sidecar file holds, by its entries. `bytes` is what `int` makes of the entry, or the
-- exception that it raises; the other entries hold texts, and entries under other names are not read.
pub record Sidecar : Type 0 where
  pub content_type : Option Text
  pub etag : Option Text
  pub bytes : Option (Result ℕ)
  pub uploaded_at : Option Text
  pub uploader : Option Text
  pub metadata : Option (Dict Text)

-- What `_read_sidecar` returns: a dict with an entry, another value that counts as true, or one that
-- counts as false (none, an empty dict).
pub data SidecarValue : Type 0 where
  falsy : SidecarValue
  entries : Sidecar → SidecarValue
  no_dict : SidecarValue

-- How `json.loads` of the bytes of a sidecar file ends, behind their decoding to text: with a
-- `JSONDecodeError`, with another exception, or with a value.
pub data Loaded : Type 0 where
  json_decode_error : Loaded
  raises : Exn → Loaded
  loaded : SidecarValue → Loaded

-- What the driver takes from the process and from Python's library: the working directory, the
-- random names of `uuid4().hex`, `sha256(…).hexdigest()`, `json.dumps` and `json.loads` of a sidecar,
-- `isoformat` and `fromisoformat` of a UTC time (none for a `ValueError`), `format_datetime` of one,
-- and `mimetypes.guess_type`.
pub record Env : Type 0 where
  pub cwd : Text
  pub hex : ℕ → Text
  pub sha256 : Bytes → Text
  pub dumps : Sidecar → Text
  pub loads : Text → Loaded
  pub isoformat : ℕ → Text
  pub fromisoformat : Text → Option ℕ
  pub format_datetime : ℕ → Text
  pub guess_type : Text → Option Text

pub record Driver : Type 0 where
  pub root : Text
  pub sign_secret : Text
  pub public_base : Text

abbrev pub etag_fallback_max_bytes : ℕ
etag_fallback_max_bytes = 100 * 1024 * 1024

abbrev or_default {ℓ} : {A : Type ℓ} → A → Option A → A
or_default d none = d
or_default d (some a) = a

-- `x or y` on texts
abbrev or_else : Text → Text → Text
or_else [] other = other
or_else (c ∷ s) other = c ∷ s

-- The file that a `stat` shows, with what a reader gets.
abbrev file_of : Node → Option File
file_of (file f) = some f
file_of dir = none

-- What the loop of `put` has seen: the bytes that the hasher was fed, and their count.
pub record Progress : Type 0 where
  pub hashed : Bytes
  pub total : ℕ

-- The f-string of `presign_get`.
unfoldable pub signed_url : Text → Text → Text → ℤ → Text → Text
unfolding str_ℤ
signed_url public_base bucket key exp sig =
    public_base
    ++ (codes "/files-signed/"
        ++ (bucket
            ++ (codes "/"
                ++ (quote key ++ (codes "?exp=" ++ (str_ℤ exp ++ (codes "&sig=" ++ sig)))))))

module _ (env : Env) where
  -- `uuid.uuid4().hex`
  unfoldable pub uuid4_hex : Io Text
  uuid4_hex w = (ok (env.hex w.drawn), record w { drawn = w.drawn + 1 })

  -- `_guess_mime`
  unfoldable pub guess_mime : Text → Text
  guess_mime key = or_else (or_default [] (env.guess_type key)) (codes "application/octet-stream")

  -- The `async for` of `put`: hash, count and write each chunk.
  unfoldable pub write_chunks : Text → Progress → Stream → Io Progress
  write_chunks tmp p done = pure p
  write_chunks tmp p (fails e) = raise e
  write_chunks tmp p (chunk bytes rest) = do
    write env.cwd tmp bytes
    write_chunks tmp (record { hashed = p.hashed ++ bytes; total = p.total + length bytes }) rest

  -- The staging file is written, flushed and synced, and closed in any case.
  unfoldable pub stage : Text → Stream → Io Progress
  stage tmp body = do
    create env.cwd tmp
    finally
        (do
          progress ← write_chunks tmp (record { hashed = []; total = 0 }) (as_aiter body)
          flush
          fsync
          pure progress)
        close

  -- `except OSError as exc` in `put`
  unfoldable pub disk_error : Errno → Io Progress
  disk_error enospc = raise Exn.insufficient_storage_error
  disk_error _ = raise Exn.storage_io_error

  -- `_safe_unlink`
  unfoldable pub safe_unlink : Text → Io Bool
  safe_unlink path = except_os_error (do remove env.cwd path; pure true) (λ _. pure false)

  unfoldable pub discard : Text → Io (Unit {0})
  unfolding safe_unlink
  discard path = do _ ← safe_unlink path; pure tt

  -- The `try` of `put`: stage the bytes, then rename them into place.
  unfoldable pub store : Text → Text → Stream → Io Progress
  store tmp dest body =
      unless_done
        (except_os_error
          (do
            progress ← stage tmp body
            makedirs env.cwd (dirname dest)
            rename env.cwd tmp dest
            pure progress)
          disk_error)
        (discard tmp)

  -- `_atomic_write_text`
  unfoldable pub atomic_write_text : Text → Text → Io (Unit {0})
  atomic_write_text path text = do
    hex ← uuid4_hex
    let tmp = path ++ (codes "." ++ hex ++ codes ".tmp")
    create env.cwd tmp
    finally (write env.cwd tmp text) close
    rename env.cwd tmp path

  -- The dict that `_write_sidecar` dumps.
  unfoldable pub sidecar_record : Text → Text → ℕ → Text → Dict Text → Sidecar
  sidecar_record content_type etag size uploaded_at metadata = record {
    content_type = some content_type;
    etag = some etag;
    bytes = some (ok size);
    uploaded_at = some uploaded_at;
    uploader = some (or_default [] (lookup (codes "uploader") metadata));
    metadata = some metadata;
  }

  module _ (driver : Driver) where
    -- `_write_sidecar`
    unfoldable pub write_sidecar : Text → Text → Text → Text → ℕ → Dict Text → Io (Unit {0})
    write_sidecar bucket key content_type etag size metadata = do
      now ← gets (λ w. w.now)
      let text = env.dumps (sidecar_record content_type etag size (env.isoformat now) metadata)
      except_os_error
          (do
            mp ← lift (meta_path env.cwd driver.root bucket key)
            makedirs env.cwd (dirname mp)
            atomic_write_text mp text)
          (λ _. pure tt)

    -- The end of the `try` of `_read_sidecar`.
    unfoldable pub parsed : Loaded → Io SidecarValue
    parsed json_decode_error = pure falsy
    parsed (raises e) = raise e
    parsed (loaded v) = pure v

    -- `_read_sidecar`, with `_safe_read_text`
    unfoldable pub read_sidecar : Text → Text → Io SidecarValue
    unfolding parsed
    read_sidecar bucket key =
        except_os_error
          (do
            mp ← lift (meta_path env.cwd driver.root bucket key)
            raw ← read_all env.cwd mp
            parsed (env.loads raw))
          (λ _. pure falsy)

    -- `_etag_from_file`
    unfoldable pub etag_from_file : Text → ℕ → Io Text
    etag_from_file path size =
        if ltb etag_fallback_max_bytes size
        then pure []
        else except_os_error (do content ← read_all env.cwd path; pure (env.sha256 content))
            (λ _. pure [])

    -- `_safe_stat`
    unfoldable pub safe_stat : Text → Io (Option File)
    unfolding file_of
    safe_stat path =
        except_os_error
          (do
            st ← stat env.cwd path
            found ← is_file env.cwd path
            pure (if found then file_of st else none))
          (λ _. pure none)

    -- The answer of `head` from a sidecar.
    unfoldable pub info_of_sidecar : Text → File → Sidecar → Io ObjectInfo
    info_of_sidecar key f sidecar = do
      bytes ← lift (or_default (ok (length f.content)) sidecar.bytes)
      pure (record {
        key = key;
        bytes = bytes;
        content_type = or_else (or_default [] sidecar.content_type) (guess_mime key);
        etag = or_default [] sidecar.etag;
        modified_at = env.isoformat f.mtime;
        metadata = or_default [] sidecar.metadata;
      })

    -- The answer of `head` without one.
    unfoldable pub info_of_file : Text → Text → File → Io ObjectInfo
    info_of_file key dest f = do
      etag ← etag_from_file dest (length f.content)
      pure (record {
        key = key;
        bytes = length f.content;
        content_type = guess_mime key;
        etag = etag;
        modified_at = env.isoformat f.mtime;
        metadata = [];
      })

    -- `if sidecar`. What is no dict has no `get`.
    unfoldable pub info_of : Text → Text → File → SidecarValue → Io ObjectInfo
    info_of key dest f falsy = info_of_file key dest f
    info_of key dest f (entries sidecar) = info_of_sidecar key f sidecar
    info_of key dest f no_dict = raise Exn.attribute_error

    unfoldable pub head_of : Text → Text → Text → Option File → Io (Option ObjectInfo)
    head_of bucket key dest none = pure none
    head_of bucket key dest (some f) = do
      sidecar ← read_sidecar bucket key
      info ← info_of key dest f sidecar
      pure (some info)

    unfoldable pub head : Text → Text → Io (Option ObjectInfo)
    head bucket key = do
      dest ← lift (object_path env.cwd driver.root bucket key)
      stat ← safe_stat dest
      head_of bucket key dest stat

    -- `if_none_match="*"` met an existing key.
    unfoldable pub deduped_result : Option ObjectInfo → PutResult
    deduped_result none = record { etag = []; bytes = 0; deduped = true }
    deduped_result (some info) = record { etag = info.etag; bytes = info.bytes; deduped = true }

    -- The write of `put`.
    unfoldable pub put_new : Text → Text → Text → Stream → Text → Dict Text → Io PutResult
    put_new dest bucket key body content_type metadata = do
      hex ← uuid4_hex
      progress ← store (new_tmp_path driver.root hex) dest body
      let etag = env.sha256 progress.hashed
      write_sidecar bucket key content_type etag progress.total metadata
      pure (record { etag = etag; bytes = progress.total; deduped = false })

    -- `if_none_match == "*" and os.path.exists(dest)`
    unfoldable pub is_taken : Option Text → Text → Io Bool
    is_taken none dest = pure false
    is_taken (some condition) dest =
        if text_eq condition (codes "*") then path_exists env.cwd dest else pure false

    unfoldable pub put : Text → Text → Stream → Text → Option Text → Dict Text → Io PutResult
    put bucket key body content_type if_none_match metadata = do
      dest ← lift (object_path env.cwd driver.root bucket key)
      taken ← is_taken if_none_match dest
      if taken
          then (do info ← head bucket key; pure (deduped_result info))
          else put_new dest bucket key body content_type metadata

    -- The path whose bytes `_stream_file` will yield.
    unfoldable pub get : Text → Text → Io (Option Text)
    get bucket key = do
      dest ← lift (object_path env.cwd driver.root bucket key)
      found ← is_file env.cwd dest
      pure (if found then some dest else none)

    -- `presign_get`, in the present second
    unfoldable pub presign_get : HmacSha256 → Text → Text → ℕ → Io Text
    presign_get hmac bucket key ttl_sec = do
      now ← gets (λ w. w.now)
      let exp = pos (now + ttl_sec)
      pure (
          signed_url driver.public_base bucket key exp
            (sign hmac driver.sign_secret bucket key exp))

    unfoldable pub delete : Text → Text → Io Bool
    delete bucket key = do
      dest ← lift (object_path env.cwd driver.root bucket key)
      existed ← safe_unlink dest
      sidecar ← lift (meta_path env.cwd driver.root bucket key)
      _ ← safe_unlink sidecar
      pure existed
