-- ===== src/Application.antt =====
-- src/main.py: what the process does when it starts, while it runs and when it stops, and `set_driver` of
-- src/drivers/registry.py.
pub mod Startup
pub mod Sweeper
use ai_storybook_storage_ser.Base.{
  ℕ, Text, codes, Bool, true, false, not, ◌&&◌, Option, none, some, List, [], ◌∷◌, text_eq, ltb,
  if◌then◌else◌,
}
use ai_storybook_storage_ser.Settings.{Settings}
use ai_storybook_storage_ser.Errors.{Exn, Errno, Result, ok, err}
use ai_storybook_storage_ser.Drivers.FileSystem.Monad.{World, Io, attempt, pure, lift, ◌>>=◌, ◌>>◌}
use ai_storybook_storage_ser.Drivers.Layout.{ensure_layout, cleanup_stale_tmp}
use ai_storybook_storage_ser.Drivers.LocalFs.{Driver}
use ai_storybook_storage_ser.Drivers.Registry.{build_driver}
use ai_storybook_storage_ser.Auth.JwksCache.{Cache, prewarm_jwks}

-- What the modules of the process keep: `_DRIVER` of the registry, and the client of the JWKS cache.
pub record Process : Type 0 where
  pub driver : Option Driver
  pub jwks : Cache

unfoldable pub set_driver : Option Driver → Process → Process
set_driver driver process = record process { driver = driver }

-- `settings.supabase_url and not settings.supabase_jwt_secret`
unfoldable pub verifies_with_jwks : Settings → Bool
verifies_with_jwks settings =
    not (text_eq settings.supabase_url []) && text_eq settings.supabase_jwt_secret []

-- The prewarming at boot.
unfoldable pub prewarmed : Settings → Process → Process
unfolding verifies_with_jwks prewarm_jwks
prewarmed settings process =
    if verifies_with_jwks settings
    then record process { jwks = prewarm_jwks settings.supabase_url process.jwks }
    else process

-- `lifespan` up to its `yield`, but for what it logs; `shutil.disk_usage` may raise.
unfoldable pub startup : Text → Settings → Process → Io Process
unfolding set_driver prewarmed
startup cwd settings process = do
  ensure_layout cwd settings.storage_root settings.buckets
  _ ← cleanup_stale_tmp cwd settings.storage_root 3600
  driver ← lift (build_driver settings)
  attempt
  pure (prewarmed settings (set_driver (some driver) process))

-- The `finally` of `lifespan`.
unfoldable pub shutdown : Process → Process
unfolding set_driver
shutdown process = set_driver none process

-- One round of `_tmp_sweeper` after its sleep: `except Exception` goes on with the loop.
abbrev survived : Result ℕ → World → World
survived (ok removed) w = w
survived (err e) w = w

unfoldable pub sweeper_round : Text → Settings → World → World
sweeper_round cwd settings w =
    let (r, w') = cleanup_stale_tmp cwd settings.storage_root 3600 w in survived r w'

-- The rounds of `_tmp_sweeper` at the given times, until it is cancelled.
unfoldable pub tmp_sweeper : Text → Settings → List ℕ → World → World
unfolding sweeper_round
tmp_sweeper cwd settings [] w = w
tmp_sweeper cwd settings (time ∷ times) w =
    tmp_sweeper cwd settings times (sweeper_round cwd settings (record w { now = time }))

-- What `/healthz` answers.
pub record Health : Type 0 where
  pub status : Text
  pub driver : Text
  pub disk_free_bytes : ℕ
  pub degraded : Bool

-- `healthz`, by what `shutil.disk_usage` answers.
unfoldable pub healthz : Settings → Option ℕ → Health
healthz settings (some free) = record {
  status = codes "ok";
  driver = settings.storage_driver;
  disk_free_bytes = free;
  degraded = ltb free settings.storage_min_free_bytes;
}
healthz settings none = record {
  status = codes "ok";
  driver = settings.storage_driver;
  disk_free_bytes = 0;
  degraded = true;
}
