-- ===== src/Lib.antt =====
-- The storage service (ai-storybook-storage-service): objects in buckets on a local disk, written by
-- other services with an API key and by users with a JWT, read by nginx from the same directory.
--
-- A request passes authentication (src/auth), then the handler (src/routers/storage) validates the
-- bucket and the key (src/validation), finds the size cap, wraps the body in a counter and hands it
-- to the driver (src/drivers), which stages it, renames it into place and writes a sidecar with the
-- metadata. An exception becomes an error envelope (src/core/errors.py). The files here:
--
--   Base        texts (lists of character codes), lists, split, join and strip, decimal integers
--   Errors      the errors of src/core/errors.py and src/drivers/errors.py and the exceptions of
--               Python that the code meets, `Result`; Errors/Envelope: the handlers
--   Settings    the parsed values of src/config/settings.py; Raw: its fields, defaults and cached properties;
--               Parsers: its three parsers; Lists, Maps: what is proved of them
--   Validation  KeyGrammar, PrefixPolicy, SizeCaps: the modules of src/validation. LongestPrefix is the
--               loop that PrefixPolicy and SizeCaps share. The child modules hold the grammar and the
--               policy as independent descriptions, and the proofs
--   Drivers     PosixPath: `os.path.join`, `realpath` and `dirname`; Paths: src/drivers/paths.py;
--               FileSystem: the tree, the calls and the rules for reasoning about them; Stream: a
--               request body; LocalFs: src/drivers/local_fs.py with one function for each method or
--               part of one, and child modules for what is proved of staging (Staging), renaming
--               (Atomic), sidecars (Sidecars, BestEffort), put (Put), delete (Delete) and other
--               objects (Others), streaming (StreamFile, RoundTrip) and a disk that does not fail
--               (Succeeds, CanStore), head after put (HeadAgrees); Listing:
--               `list`, with the order of its keys (Sorting) and its pages (Paging); Layout: the directories and the sweep of
--               src/drivers/paths.py, with what is proved of them; Registry: src/drivers/registry.py; Signing:
--               src/drivers/signing.py; Quote: `urllib.parse.quote`
--   Auth        ApiKey, UserJwt, Combined, JwksCache: the modules of src/auth; Configured: the API key
--               variable and the check of a key
--   Routers     Counting: `counting_stream`; Handlers: put_object, create_upload, delete_object with
--               their dependencies; Reading: head_object, create_signed_url and signed_get; Checked, Writes,
--               Protected, Signed: what is proved of them
--   Application the start and the end of the process, the sweeper and the health check of src/main.py
--   Logging     src/core/logging.py and the access log
--   Tests       the theorems at concrete data
--
-- The state of the process is the record `World`: the tree of files, the answers that the disk will
-- give to the next calls, the time, and the number of random names drawn. An action is a function
-- from a world to a result and a world, and a raised exception keeps the world it was raised in, so
-- that what a failed call left behind is seen. Each system call first takes the next answer of the
-- disk; any of them may be an `OSError`, which the call raises, but for `exists`, `isfile` and `isdir`,
-- which answer `False` then. A theorem about all worlds is thus one about all failures at all calls.
--
-- Numbers are natural numbers, the expiry of a signature and the values that the parser of a cap
-- variable gives are integers. The caps in `Settings` are natural numbers: a negative cap, which the
-- program does not refuse, differs from the cap 0 for an empty body only. The entries of a parsed sidecar
-- are texts, but for its byte count, which `int` may refuse and which is not negative.
-- Python's integers have no bounds, so no wrap-around is modelled. Two loops of the program need
-- fuel: the decimal digits of a number have as fuel one more than the number, and the loop of
-- `_stream_file` one more than the length of the content, of which each round that goes on takes a
-- byte. A client that asks `list` for page after page makes at most one request more than there are
-- keys, and what it has is none if it still holds a cursor then.
--
-- Parameters stand for what is not in the repository: SHA-256 and HMAC-SHA256, `json.dumps` and
-- `json.loads` of a sidecar and of a variable, `mimetypes.guess_type`, `isoformat`, `fromisoformat`
-- and `format_datetime`, the names of `uuid4().hex` (assumed to be plain names without a slash,
-- `HexNames`), and PyJWT (`PyJwt`), which may raise any exception. Which files `os.walk` reaches is one, too: it passes over what
-- it cannot list.
--
-- Not modelled: symbolic links, hard links and permissions; the interleaving of two requests; how
-- pydantic reads the environment; the wiring of the application with FastAPI, its log lines, the
-- script that mints tokens, tests and deployment.
pub mod Base
pub mod Errors
pub mod Settings
pub mod Validation
pub mod Drivers
pub mod Auth
pub mod Routers
pub mod Logging
pub mod Application
pub mod Tests
