-- ===== src/Drivers/Registry.antt =====
-- src/drivers/registry.py
use ai_storybook_storage_ser.Base.{
  codes, Option, none, some, text_eq, rstrip_char, ◌≡◌, Bool, true, false, sym, ap, if◌then◌else◌,
}
use ai_storybook_storage_ser.Errors.{Exn, Result, ok, err}
use ai_storybook_storage_ser.Settings.{Settings}
use ai_storybook_storage_ser.Drivers.LocalFs.{Driver}

-- The module's `_DRIVER` is handed over.
abbrev pub get_driver : Option Driver → Result Driver
get_driver none = err Exn.runtime_error
get_driver (some driver) = ok driver

-- With `__init__` of the driver.
unfoldable pub build_driver : Settings → Result Driver
unfolding rstrip_char
build_driver settings =
    if text_eq settings.storage_driver (codes "local-fs")
    then ok (record {
      root = settings.storage_root;
      sign_secret = settings.storage_sign_secret;
      public_base = rstrip_char b'/' settings.public_base_url;
    })
    else err Exn.runtime_error

built :
    (local : Bool) (d driver : Driver)
    → (if local then ok d else err Exn.runtime_error) ≡ ok driver
    → d ≡ driver
built true d driver h = cc
built false d driver h = cc

-- A driver that is built works in the configured root, signs with the configured secret and writes URLs
-- without a slash at the end of their base.
pub build_driver-ok :
    (settings : Settings) (driver : Driver)
    → build_driver settings ≡ ok driver
    → (driver.root ≡ settings.storage_root)
      × (driver.sign_secret ≡ settings.storage_sign_secret)
      × (driver.public_base ≡ rstrip_char b'/' settings.public_base_url)
unfolding build_driver
build_driver-ok settings driver h =
    let e = built (text_eq settings.storage_driver (codes "local-fs")) _ driver h in
    (
      ap (λ (d : Driver). d.root) (sym e),
      ap (λ (d : Driver). d.sign_secret) (sym e),
      ap (λ (d : Driver). d.public_base) (sym e),
    )
