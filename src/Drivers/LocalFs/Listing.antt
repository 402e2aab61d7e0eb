-- ===== src/Drivers/LocalFs/Listing.antt =====
-- `list` of src/drivers/local_fs.py.
use ai_storybook_storage_ser.Base.{
  ℕ, Text, Bool, true, false, ◌&&◌, ◌||◌, ◌==◌, ltb, Option, none, some, List, [], ◌∷◌, length,
  take, last_or, text_eq, starts_with, join, if◌then◌else◌,
}
use ai_storybook_storage_ser.Drivers.PosixPath.{FilePath, path_join, resolve}
use ai_storybook_storage_ser.Drivers.FileSystem.Tree.{file, dir, Fs}
use ai_storybook_storage_ser.Drivers.FileSystem.Monad.{Io, pure, gets, ◌>>=◌}
use ai_storybook_storage_ser.Drivers.LocalFs.{Env, Driver, ObjectInfo, head}

pub record ListPage : Type 0 where
  pub objects : List ObjectInfo
  pub next_cursor : Option Text

-- `a < b` on texts
unfoldable pub text_lt : Text → Text → Bool
text_lt [] [] = false
text_lt [] (b ∷ t) = true
text_lt (a ∷ s) [] = false
text_lt (a ∷ s) (b ∷ t) = ltb a b || ((a == b) && text_lt s t)

-- `keys.sort()`
unfoldable pub insert : Text → List Text → List Text
unfolding text_lt
insert k [] = k ∷ []
insert k (j ∷ ks) = let rest = insert k ks in if text_lt j k then j ∷ rest else k ∷ j ∷ ks

unfoldable pub sort : List Text → List Text
unfolding insert
sort [] = []
sort (k ∷ ks) = insert k (sort ks)

-- `os.path.relpath` of a place below another: the names that are left.
unfoldable below : FilePath → FilePath → Option FilePath
below [] rest = some rest
below (a ∷ p) [] = none
below (a ∷ p) (b ∷ q) = let rest = below p q in if text_eq a b then rest else none

-- `os.path.join(dirpath, name)`, where `dirpath` was joined in the same way.
unfoldable joined : Text → FilePath → Text
joined top [] = top
joined top (name ∷ names) = joined (path_join top name) names

-- What the loop of `_walk` does with a file.
unfoldable key_below : Text → Text → Option FilePath → List Text → List Text
unfolding joined
key_below bucket_root base none keys = keys
key_below bucket_root base (some []) keys = keys
key_below bucket_root base (some (name ∷ names)) keys =
    if starts_with (joined bucket_root (name ∷ names)) base
    then join b'/' (name ∷ names) ∷ keys
    else keys

module _ (cwd : Text) (reached : FilePath → Bool) where
  -- The files that `os.walk` reaches: it passes over the directories that it cannot list.
  unfoldable files_below : FilePath → Fs → List FilePath
  files_below place [] = []
  files_below place ((q, dir) ∷ fs) = files_below place fs
  files_below place ((q, file f) ∷ fs) =
      let rest = files_below place fs in if reached q then q ∷ rest else rest

  unfoldable keys_of : Text → Text → List FilePath → List Text
  unfolding key_below below
  keys_of bucket_root base [] = []
  keys_of bucket_root base (q ∷ qs) =
      key_below bucket_root base (below (resolve cwd bucket_root) q) (keys_of bucket_root base qs)

  -- `_walk`
  unfoldable pub walk_keys : Text → Text → Text → Fs → List Text
  unfolding files_below keys_of sort
  walk_keys root bucket prefix fs =
      let bucket_root = path_join root bucket in
      let base = path_join bucket_root prefix in
      sort (keys_of bucket_root base (files_below (resolve cwd bucket_root) fs))

-- `[k for k in all_keys if k > cursor]`
unfoldable pub after_cursor : Text → List Text → List Text
unfolding text_lt
after_cursor cursor [] = []
after_cursor cursor (k ∷ ks) =
    let rest = after_cursor cursor ks in if text_lt cursor k then k ∷ rest else rest

-- `if cursor:`
unfoldable pub from_cursor : Option Text → List Text → List Text
unfolding after_cursor
from_cursor none keys = keys
from_cursor (some []) keys = keys
from_cursor (some (c ∷ s)) keys = after_cursor (c ∷ s) keys

-- `page_keys[-1] if len(all_keys) > limit and page_keys else None`
unfoldable pub cursor_behind : ℕ → List Text → List Text → Option Text
cursor_behind limit all_keys [] = none
cursor_behind limit all_keys (k ∷ ks) =
    if ltb limit (length all_keys) then some (last_or k ks) else none

-- The keys of a page and the cursor of the next one.
unfoldable pub page_of : List Text → Option Text → ℕ → List Text × Option Text
unfolding from_cursor cursor_behind
page_of keys cursor limit =
    let all_keys = from_cursor cursor keys in
    let page_keys = take limit all_keys in (page_keys, cursor_behind limit all_keys page_keys)

abbrev with_info : Option ObjectInfo → List ObjectInfo → List ObjectInfo
with_info none objects = objects
with_info (some info) objects = info ∷ objects

module _ (env : Env) (driver : Driver) (reached : FilePath → Bool) where
  unfoldable infos_of : Text → List Text → Io (List ObjectInfo)
  infos_of bucket [] = pure []
  infos_of bucket (k ∷ ks) = do
    info ← head env driver bucket k
    objects ← infos_of bucket ks
    pure (with_info info objects)

  unfoldable pub list : Text → Text → Option Text → ℕ → Io ListPage
  unfolding walk_keys page_of infos_of
  list bucket prefix cursor limit = do
    keys ← gets (λ w. walk_keys env.cwd reached driver.root bucket prefix w.fs)
    let (page_keys, next_cursor) = page_of keys cursor limit
    objects ← infos_of bucket page_keys
    pure (record { objects = objects; next_cursor = next_cursor })
