-- ===== src/Drivers/FileSystem/Monad.antt =====
-- Actions that read and write the world and may raise. What was written before a raise stays
-- written.
use ai_storybook_storage_ser.Base.{ℕ, Option, none, some, List, [], ◌∷◌}
use ai_storybook_storage_ser.Errors.{Exn, Errno, Result, ok, err}
use ai_storybook_storage_ser.Drivers.FileSystem.Tree.{Fs}

-- `faults` are the answers of the next calls: none if the call goes through. `drawn` counts the
-- random names handed out so far.
pub record World : Type 0 where
  pub fs : Fs
  pub faults : List (Option Errno)
  pub now : ℕ
  pub drawn : ℕ

abbrev pub Io : Type 0 → Type 0
Io A = World → Result A × World

module _ {A : Type 0} where
  unfoldable pub pure : A → Io A
  pure a w = (ok a, w)

  unfoldable pub raise : Exn → Io A
  raise e w = (err e, w)

  unfoldable pub lift : Result A → Io A
  lift r w = (r, w)

  unfoldable pub gets : (World → A) → Io A
  gets f w = (ok (f w), w)

-- The next answer of the disk.
unfoldable pub next_fault : List (Option Errno) → Result (Unit {0})
next_fault [] = ok tt
next_fault (none ∷ _) = ok tt
next_fault (some e ∷ _) = err (Exn.os_error e)

abbrev pub tail_of : List (Option Errno) → List (Option Errno)
tail_of [] = []
tail_of (_ ∷ faults) = faults

unfoldable pub attempt : Io (Unit {0})
unfolding next_fault
attempt w = (next_fault w.faults, record w { faults = tail_of w.faults })

module _ {A B : Type 0} where
  abbrev pub continue : Result A → (A → Io B) → Io B
  continue (ok a) f w = f a w
  continue (err e) f w = (err e, w)

  infixl 10 ◌>>=◌ ◌>>◌
  unfoldable pub ◌>>=◌ : Io A → (A → Io B) → Io B
  ◌>>=◌ m f w = let (r, w') = m w in continue r f w'

  abbrev pub ◌>>◌ : Io A → Io B → Io B
  m >> n = m >>= λ _. n

module _ {A : Type 0} where
  -- `try: m finally: f`. What `f` raises replaces what `m` returned or raised.
  abbrev pub close_with : Result A → Result (Unit {0}) → Result A
  close_with r (ok _) = r
  close_with r (err e) = err e

  unfoldable pub finally : Io A → Io (Unit {0}) → Io A
  finally m f w = let (r, w') = m w in let (c, w'') = f w' in (close_with r c, w'')

  -- `try: m except OSError as exc: h(exc)`
  abbrev pub recover : Result A → (Errno → Io A) → Io A
  recover (ok a) h w = (ok a, w)
  recover (err (Exn.os_error e)) h w = h e w
  recover (err e) h w = (err e, w)

  unfoldable pub except_os_error : Io A → (Errno → Io A) → Io A
  except_os_error m h w = let (r, w') = m w in recover r h w'

  -- Clean up unless `m` returned: `try: m; done = True finally: if not done: f`.
  abbrev pub clean_up : Result A → Io (Unit {0}) → Io A
  clean_up (ok a) f w = (ok a, w)
  clean_up (err e) f w = let (c, w') = f w in (close_with (err e) c, w')

  unfoldable pub unless_done : Io A → Io (Unit {0}) → Io A
  unless_done m f w = let (r, w') = m w in clean_up r f w'
