-- ===== src/Drivers/LocalFs/Staging.antt =====
-- The staging file of `put` (src/drivers/local_fs.py).
use ai_storybook_storage_ser.Base.{
  ℕ, Text, ◌≡◌, ◌≢◌, sym, ap, ◌∙◌, Option, some, [], ◌++◌, ◌+◌, append_assoc, append-nil, length,
  length-append, arith,
}
use ai_storybook_storage_ser.Drivers.PosixPath.{FilePath, resolve}
use ai_storybook_storage_ser.Drivers.FileSystem.{create, write, flush, fsync}
use ai_storybook_storage_ser.Drivers.FileSystem.Tree.{Bytes, File, Fs, file_at}
use ai_storybook_storage_ser.Drivers.FileSystem.Monad.{Io, pure, ◌>>=◌, ◌>>◌}
use ai_storybook_storage_ser.Drivers.FileSystem.Triple.{
  Triple, Keeps, Triple-pure, Triple-raise, Triple-weaken, Triple-bind, Triple-finally,
}
use ai_storybook_storage_ser.Drivers.FileSystem.Calls.{
  On, Keeps-flush, Keeps-fsync, Keeps-close, Triple-create, Triple-write, set_file_self,
  set_file-other, appended_self, appended-other,
}
use ai_storybook_storage_ser.Drivers.Stream.{
  Stream, done, chunk, fails, as_aiter, bytes_of, Completes, bytes_of-as_aiter, Completes-as_aiter,
}
use ai_storybook_storage_ser.Drivers.LocalFs.{Env, Progress, write_chunks, stage}

-- The loop went over the whole body.
pub record Written (p : Progress) (body : Stream) (r : Progress) : Type 0 where
  pub completes : Completes body
  pub hashed : r.hashed ≡ p.hashed ++ bytes_of body
  pub total : r.total ≡ p.total + length (bytes_of body)

module _ (env : Env) (tmp : Text) (q : FilePath) (old : Option File)
    (apart : resolve env.cwd tmp ≢ q) where
  -- The other file is as it was.
  abbrev pub Old : Fs → Type 0
  Old fs = file_at q fs ≡ old

  abbrev pub Staged : Bytes → Fs → Type 0
  Staged bytes fs =
      Old fs
      × ((t : ℕ) × (file_at (resolve env.cwd tmp) fs
            ≡ some (record { content = bytes; mtime = t })))

  create-Staged : Triple (On Old) (create env.cwd tmp) (λ _. On (Staged [])) (λ _. On Old)
  create-Staged = Triple-create env.cwd tmp Old (Staged []) λ fs t h ne. (
    set_file-other (resolve env.cwd tmp) q _ fs ne apart ∙ h,
    (t, set_file_self (resolve env.cwd tmp) _ fs ne),
  )

  write-Staged :
      (bytes new : Bytes)
      → Triple
          (On (Staged bytes))
          (write env.cwd tmp new)
          (λ _. On (Staged (bytes ++ new)))
          (λ _. On Old)
  write-Staged bytes new =
      Triple-weaken {Q = λ _. On (Staged (bytes ++ new))} (λ w h. h) (λ a w h. h) (λ e w h. h.0)
        (Triple-write env.cwd tmp (Staged bytes) (Staged (bytes ++ new)) new (λ fs t (h, (t', f)). (
          appended-other (resolve env.cwd tmp) q fs new t apart ∙ h,
          (t, appended_self (resolve env.cwd tmp) fs new t _ f),
        )))

  write_chunks-Staged :
      (p : Progress) (body : Stream)
      → Triple
          (On (Staged p.hashed))
          (write_chunks env tmp p body)
          (λ r. On (λ fs. Staged r.hashed fs × Written p body r))
          (λ _. On Old)
  unfolding write_chunks
  write_chunks-Staged p done =
      Triple-pure _ p λ w h.
        (h, record { completes = tt; hashed = sym (append-nil p.hashed); total = omega arith })
  write_chunks-Staged p (fails e) = Triple-raise _ e (λ w h. h.0)
  write_chunks-Staged p (chunk bytes rest) =
      let p' : Progress = record { hashed = p.hashed ++ bytes; total = p.total + length bytes } in
      Triple-bind (λ _. On (Staged (p.hashed ++ bytes))) (write-Staged p.hashed bytes)
        λ _.
          Triple-weaken (λ w h. h)
            (λ r w (s, k). (
              s,
              record {
                completes = k.completes;
                hashed = k.hashed ∙ append_assoc p.hashed bytes (bytes_of rest);
                total = omega (arith, k.total, length-append {0} bytes (bytes_of rest));
              },
            ))
            (λ e w h. h) (write_chunks-Staged p' rest)

  abbrev pub nothing_read : Progress
  nothing_read = record { hashed = []; total = 0 }

  -- A call that changes nothing may fail, which leaves the other file as it was.
  pub harmless :
      (P : Fs → Type 0) {m : Io (Unit {0})}
      → ((fs : Fs) → P fs → Old fs)
      → Keeps (On P) m
      → Triple (On P) m (λ _. On P) (λ _. On Old)
  harmless P h k = Triple-weaken (λ w p. p) (λ _ w p. p) (λ e w p. h w.fs p) k

  abbrev pub Full : Stream → Progress → Fs → Type 0
  Full body r fs = Staged r.hashed fs × Written nothing_read body r

  Full-as_aiter :
      (body : Stream) (r : Progress) (fs : Fs) → Full (as_aiter body) r fs → Full body r fs
  Full-as_aiter body r fs (s, k) = (
    s,
    record {
      completes = Completes-as_aiter body k.completes;
      hashed = k.hashed ∙ bytes_of-as_aiter body;
      total = k.total ∙ ap (λ (t : Bytes). 0 + length t) (bytes_of-as_aiter body);
    },
  )

  read_and_sync :
      (body : Stream)
      → Triple
          (On (Staged []))
          (do
            progress ← write_chunks env tmp nothing_read (as_aiter body)
            flush
            fsync
            pure progress)
          (λ r. On (Full body r))
          (λ _. On Old)
  read_and_sync body =
      Triple-bind (λ r. On (Full (as_aiter body) r))
        (write_chunks-Staged nothing_read (as_aiter body))
        λ r.
          let P = Full (as_aiter body) r in
          Triple-bind (λ _. On P) (harmless P (λ fs h. h.0.0) (Keeps-flush P))
            λ _.
              Triple-bind (λ _. On P) (harmless P (λ fs h. h.0.0) (Keeps-fsync P))
                λ _.
                  Triple-pure (λ (r : Progress). On (Full body r)) r
                    (λ w h. Full-as_aiter body r w.fs h)

  -- After staging the staging file holds the whole body, which the hasher has been fed.
  pub stage-Staged :
      (body : Stream)
      → Triple
          (On Old)
          (stage env tmp body)
          (λ r. On (λ fs. Staged r.hashed fs × Written nothing_read body r))
          (λ _. On Old)
  unfolding stage
  stage-Staged body =
      Triple-bind (λ _. On (Staged [])) create-Staged
        λ _.
          Triple-finally (read_and_sync body)
            (λ r. harmless (Full body r) (λ fs h. h.0.0) (Keeps-close (Full body r)))
            (λ e. Keeps-close Old)
