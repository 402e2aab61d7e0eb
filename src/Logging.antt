-- ===== src/Logging.antt =====
-- src/core/logging.py, and the access log of src/main.py.
use ai_storybook_storage_ser.Base.{
  ℕ, Text, codes, Bool, true, ◌≡◌, refl, inl, inr, Bool-cases, Option, none, some, List, [], ◌∷◌,
  ◌++◌, text_eq, if◌then◌else◌,
}
use ai_storybook_storage_ser.Errors.{Exn, Result, ok, err}
use ai_storybook_storage_ser.Settings.{Dict}

-- What the formatter reads of a `LogRecord`: `data` as its entries, `exc_info` as its formatted text.
pub record LogRecord : Type 0 where
  pub levelname : Text
  pub name : Text
  pub message : Text
  pub extra_data : Option (Dict Text)
  pub exc_info : Option Text

-- The dict that is dumped.
pub record Payload : Type 0 where
  pub ts : Text
  pub level : Text
  pub logger : Text
  pub msg : Text
  pub extra_data : Option (Dict Text)
  pub exc : Option Text

-- `if data:`
abbrev some_data : Option (Dict Text) → Option (Dict Text)
some_data none = none
some_data (some []) = none
some_data (some (d ∷ ds)) = some (d ∷ ds)

-- `_JsonFormatter.format`, with `json.dumps` and the time in ISO format.
unfoldable pub format : (Payload → Text) → Text → LogRecord → Text
format dumps now log = dumps (record {
  ts = now;
  level = log.levelname;
  logger = log.name;
  msg = log.message;
  extra_data = some_data log.extra_data;
  exc = log.exc_info;
})

-- A handler of the root logger: the one of this module, or another.
pub data Handler : Type 0 where
  stdout_json : Handler
  foreign : Text → Handler

-- `_CONFIGURED` and the root logger.
pub record RootLogger : Type 0 where
  pub configured : Bool
  pub handlers : List Handler
  pub level : Text

-- `os.environ.get("LOG_LEVEL", "INFO")`
abbrev level_or_info : Option Text → Text
level_or_info none = codes "INFO"
level_or_info (some level) = level

-- `setLevel` knows some names of levels and raises `ValueError` for all others, behind the change of the
-- handlers.
unfoldable pub configure_logging :
    (Text → Bool) → Option Text → RootLogger → Result (Unit {0}) × RootLogger
configure_logging known log_level root =
    if root.configured
    then (ok tt, root)
    else if known (level_or_info log_level)
    then (
      ok tt,
      record { configured = true; handlers = stdout_json ∷ []; level = level_or_info log_level },
    )
    else (err Exn.value_error, record root { handlers = stdout_json ∷ [] })

unfoldable pub get_logger : Text → Text
get_logger name = codes "storybook-storage." ++ name

-- An entry of the access log, with the time in tenths of a millisecond.
pub record Access : Type 0 where
  pub id : Text
  pub method : Text
  pub path : Text
  pub status : ℕ
  pub ms : ℕ

-- What `access_log` logs behind the response: nothing for a path of `_SKIP_LOG_PATHS`.
unfoldable pub access_log : Access → List Access
access_log access = if text_eq access.path (codes "/healthz") then [] else access ∷ []

-- After a call that returned, another one changes nothing, whatever the environment then says.
pub configure_logging_again :
    (known : Text → Bool) (log_level later : Option Text) (root : RootLogger)
    → (configure_logging known log_level root).0 ≡ ok tt
    → configure_logging known later (configure_logging known log_level root).1
      ≡ (ok tt, (configure_logging known log_level root).1)
unfolding configure_logging
configure_logging_again known log_level later root = elim (Bool-cases root.configured) [
  | inl before ↦ rw (before, configure_logging) (λ h. refl)
  | inr first ↦ elim (Bool-cases (known (level_or_info log_level))) [
    | inl good ↦ rw (first, good) (λ h. refl)
    | inr bad ↦ rw (first, bad) (λ h. cc)
  ]
]
