-- ===== src/Drivers/LocalFs/BestEffort.antt =====
-- The failures of `_write_sidecar` of src/drivers/local_fs.py.
use ai_storybook_storage_ser.Base.{ℕ, Bool, Text, codes, ◌++◌}
use ai_storybook_storage_ser.Settings.{Dict}
use ai_storybook_storage_ser.Validation.KeyGrammar.Grammar.{IsKey, IsBucketName}
use ai_storybook_storage_ser.Drivers.Paths.{meta_path}
use ai_storybook_storage_ser.Drivers.Paths.Places.{meta_path-place}
use ai_storybook_storage_ser.Drivers.FileSystem.Monad.{gets}
use ai_storybook_storage_ser.Drivers.FileSystem.Triple.{Triple-pure, Triple-bind, Triple-bind-lift}
use ai_storybook_storage_ser.Drivers.FileSystem.Failures.{
  Anything, MayFail, Returns, Returns-except, MayFail-finally, MayFail-close, MayFail-create,
  MayFail-write, MayFail-makedirs, MayFail-rename,
}
use ai_storybook_storage_ser.Drivers.LocalFs.{Env, Driver, atomic_write_text, write_sidecar}
use ai_storybook_storage_ser.Drivers.LocalFs.RandomName.{Triple-uuid4_hex}

module _ (env : Env) (driver : Driver) (allow_at : Bool) (bucket key : Text)
    (b : IsBucketName bucket) (k : IsKey allow_at key) where
  MayFail-atomic_write_text : (path text : Text) → MayFail (atomic_write_text env path text)
  unfolding atomic_write_text
  MayFail-atomic_write_text path text =
      Triple-uuid4_hex env (λ fs. Unit) _
        λ n.
          let tmp = path ++ (codes "." ++ env.hex n ++ codes ".tmp") in
          Triple-bind (λ _. Anything) (MayFail-create env.cwd tmp)
            λ _.
              Triple-bind (λ _. Anything)
                (MayFail-finally (MayFail-write env.cwd tmp text) MayFail-close)
                (λ _. MayFail-rename env.cwd tmp path)

  -- A sidecar that cannot be written is no error: the write is best effort.
  pub Returns-write_sidecar :
      (content_type etag : Text) (size : ℕ) (metadata : Dict Text)
      → Returns (write_sidecar env driver bucket key content_type etag size metadata)
  unfolding write_sidecar gets
  Returns-write_sidecar content_type etag size metadata =
      let (passed, at_meta) = meta_path-place env.cwd driver.root allow_at bucket key b k in
      Triple-bind (λ _. Anything) (record { at = λ w h. tt })
        λ now.
          Returns-except
            (Triple-bind-lift (meta_path env.cwd driver.root bucket key) _ _ passed (
              Triple-bind (λ _. Anything) (MayFail-makedirs env.cwd _)
                (λ _. MayFail-atomic_write_text _ _)))
            (λ n. Triple-pure _ tt (λ w h. tt))
