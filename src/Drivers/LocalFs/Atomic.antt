-- ===== src/Drivers/LocalFs/Atomic.antt =====
-- The staging and the rename of `put` (src/drivers/local_fs.py).
use ai_storybook_storage_ser.Base.{
  ℕ, Text, ◌≡◌, ◌≢◌, sym, ap, ◌∙◌, Option, some, List, [], true, false, length, arith,
}
use ai_storybook_storage_ser.Errors.{Errno, enospc}
use ai_storybook_storage_ser.Drivers.PosixPath.{FilePath, resolve, dirname}
use ai_storybook_storage_ser.Drivers.FileSystem.{make_dirs, makedirs, rename}
use ai_storybook_storage_ser.Drivers.FileSystem.Tree.{
  Bytes, File, file, Fs, file_at, set_node, drop_node,
}
use ai_storybook_storage_ser.Drivers.FileSystem.Monad.{World, pure, ◌>>=◌, ◌>>◌}
use ai_storybook_storage_ser.Drivers.FileSystem.Triple.{
  Triple, Keeps, Triple-pure, Triple-raise, Triple-weaken, Triple-bind, Triple-except,
  Triple-unless_done, Keeps-bind, Keeps-except, Keeps-pure,
}
use ai_storybook_storage_ser.Drivers.FileSystem.Calls.{
  On, Keeps-makedirs, Triple-rename, Triple-remove, file_at-make_dirs, set_file_self,
  set_file-other, drop_node-other,
}
use ai_storybook_storage_ser.Drivers.Stream.{Stream, bytes_of, Completes}
use ai_storybook_storage_ser.Drivers.LocalFs.{
  Env, Progress, stage, disk_error, safe_unlink, discard, store,
}
use ai_storybook_storage_ser.Drivers.LocalFs.Staging.{Full, harmless, stage-Staged}

-- Removing another file.
pub Keeps-safe_unlink :
    (env : Env) (path : Text) (q : FilePath) (old : Option File)
    → resolve env.cwd path ≢ q
    → Keeps (On (λ fs. file_at q fs ≡ old)) (safe_unlink env path)
unfolding safe_unlink
Keeps-safe_unlink env path q old apart =
    Keeps-except
      (Keeps-bind
        (Triple-remove env.cwd path (λ fs. file_at q fs ≡ old) (λ fs. file_at q fs ≡ old)
          (λ fs f h _ ne. drop_node-other (resolve env.cwd path) q fs ne apart ∙ h))
        (λ _. Keeps-pure true))
      (λ _. Keeps-pure false)

module _ (env : Env) (tmp : Text) (q : FilePath) (old : Option File)
    (apart : resolve env.cwd tmp ≢ q) where
  discard-Old : Keeps (On (λ fs. file_at q fs ≡ old)) (discard env tmp)
  unfolding discard
  discard-Old = Keeps-bind (Keeps-safe_unlink env tmp q old apart) (λ _. Keeps-pure tt)

  disk_error-Old :
      (R : Progress → World → Type 0) (n : Errno)
      → Triple
          (On (λ fs. file_at q fs ≡ old))
          (disk_error env n)
          R
          (λ _. On (λ fs. file_at q fs ≡ old))
  unfolding disk_error
  disk_error-Old R enospc = Triple-raise _ _ (λ w h. h)
  disk_error-Old R _ = Triple-raise _ _ (λ w h. h)

  -- The place holds the whole body, which is what was hashed and counted.
  pub record Stored (body : Stream) (r : Progress) (fs : Fs) : Type 0 where
    pub completes : Completes body
    pub hashed : r.hashed ≡ bytes_of body
    pub total : r.total ≡ length (bytes_of body)
    pub written : (t : ℕ) × (file_at q fs ≡ some (record { content = bytes_of body; mtime = t }))

  abbrev Before : Fs → Type 0
  Before fs = file_at q fs ≡ old

  abbrev Ready : Stream → Progress → Fs → Type 0
  Ready body r fs = Full env tmp q old apart body r fs

  makedirs-Before : (fs : Fs) (names : List Text) → Before fs → Before (make_dirs [] names fs).1
  makedirs-Before fs names h = file_at-make_dirs q [] names fs ∙ h

  makedirs-Ready :
      (body : Stream) (r : Progress) (fs : Fs) (names : List Text)
      → Ready body r fs
      → Ready body r (make_dirs [] names fs).1
  makedirs-Ready body r fs names ((h, (t, e)), k) = (
    (makedirs-Before fs names h, (t, file_at-make_dirs (resolve env.cwd tmp) [] names fs ∙ e)),
    k,
  )

  rename-Stored :
      (dest : Text) (body : Stream) (r : Progress)
      → resolve env.cwd dest ≡ q
      → Triple
          (On (Ready body r))
          (rename env.cwd tmp dest)
          (λ _. On (Stored body r))
          (λ _. On Before)
  rename-Stored dest body r at_q =
      Triple-weaken (λ w h. h) (λ a w h. h) (λ e w h. h.0.0)
        (Triple-rename env.cwd tmp (Ready body r) (Stored body r) dest
          (λ fs f ((h, (t, e)), k) here ne ne'.
            let dropped = drop_node (resolve env.cwd tmp) fs in
            let renamed = set_node (resolve env.cwd dest) (file f) dropped in
            record {
              completes = k.completes;
              hashed = k.hashed;
              total = k.total ∙ omega arith;
              written = (
                t,
                ap (λ (p : FilePath). file_at p renamed) (sym at_q)
                    ∙ set_file_self (resolve env.cwd dest) f dropped ne'
                    ∙ sym here
                    ∙ e
                    ∙ ap (λ (b : Bytes). some (record { content = b; mtime = t })) k.hashed,
              );
            }))

  staged_and_renamed :
      (dest : Text) (body : Stream)
      → resolve env.cwd dest ≡ q
      → Triple
          (On Before)
          (do
            progress ← stage env tmp body
            makedirs env.cwd (dirname dest)
            rename env.cwd tmp dest
            pure progress)
          (λ r. On (Stored body r))
          (λ _. On Before)
  staged_and_renamed dest body at_q =
      Triple-bind (λ r. On (Ready body r)) (stage-Staged env tmp q old apart body)
        λ r.
          Triple-bind (λ _. On (Ready body r))
            (harmless env tmp q old apart (Ready body r) (λ fs h. h.0.0)
              (Keeps-makedirs env.cwd (dirname dest) (Ready body r) (makedirs-Ready body r)))
            λ _.
              Triple-bind (λ _. On (Stored body r)) (rename-Stored dest body r at_q)
                λ _. Triple-pure (λ (r : Progress). On (Stored body r)) r (λ w h. h)

  stage-Old : (body : Stream) → Keeps (On Before) (stage env tmp body)
  stage-Old body =
      Triple-weaken (λ w h. h) (λ r w h. h.0.0) (λ e w h. h) (stage-Staged env tmp q old apart body)

  rename-Before :
      (dest : Text) → resolve env.cwd dest ≢ q → Keeps (On Before) (rename env.cwd tmp dest)
  rename-Before dest elsewhere = Triple-rename env.cwd tmp Before Before dest λ fs f h here ne ne'.
      set_file-other (resolve env.cwd dest) q f _ ne' elsewhere
      ∙ drop_node-other (resolve env.cwd tmp) q fs ne apart
      ∙ h

  -- A write to the place `q`.
  pub store-Stored :
      (dest : Text) (body : Stream)
      → resolve env.cwd dest ≡ q
      → Triple
          (On (λ fs. file_at q fs ≡ old))
          (store env tmp dest body)
          (λ r. On (Stored body r))
          (λ _. On (λ fs. file_at q fs ≡ old))
  unfolding store
  store-Stored dest body at_q =
      Triple-unless_done
        (Triple-except {E = λ _. On Before} (staged_and_renamed dest body at_q)
          (disk_error-Old (λ r. On (Stored body r))) (λ e w h. h))
        (λ e. discard-Old)

  -- A write to any other place.
  pub store-Old :
      (dest : Text) (body : Stream)
      → resolve env.cwd dest ≢ q
      → Keeps (On (λ fs. file_at q fs ≡ old)) (store env tmp dest body)
  unfolding store
  store-Old dest body elsewhere =
      Triple-unless_done
        (Keeps-except
          (Keeps-bind (stage-Old body) λ r.
            Keeps-bind (Keeps-makedirs env.cwd (dirname dest) Before makedirs-Before)
              λ _. Keeps-bind (rename-Before dest elsewhere) (λ _. Keeps-pure r))
          (disk_error-Old (λ _. On Before)))
        (λ e. discard-Old)
