-- ===== src/Drivers/LocalFs/Succeeds.antt =====
-- When `put` succeeds (src/drivers/local_fs.py).
use ai_storybook_storage_ser.Base.{
  ℕ, Text, ◌≡◌, ◌≢◌, refl, sym, ap, ◌∙◌, inl, inr, some, [], ◌∷◌, ◌++◌, ◌+◌, length, length-append,
  arith, Bool-cases,
}
use ai_storybook_storage_ser.Drivers.PosixPath.{FilePath, resolve, dirname}
use ai_storybook_storage_ser.Drivers.FileSystem.{makedirs, rename, create, write, appended}
use ai_storybook_storage_ser.Drivers.FileSystem.Tree.{
  Bytes, File, file, dir, Fs, node_at, file_at, set_node, parent, path_eq, path_eq_iff,
  node_at-set_node,
}
use ai_storybook_storage_ser.Drivers.FileSystem.Triple.{
  Triple-pure, Triple-bind, Triple-finally, Triple-except, Triple-unless_done,
}
use ai_storybook_storage_ser.Drivers.FileSystem.Calls.{file_at-node_at}
use ai_storybook_storage_ser.Drivers.FileSystem.MakeDirs.{
  IsClear, IsApart, make_dirs-Extends, make_dirs-dir, make_dirs-ok, set_file-IsClear,
  make_dirs-apart,
}
use ai_storybook_storage_ser.Drivers.FileSystem.Surely.{
  OnHealthy, Surely, Surely-flush, Surely-fsync, Surely-close, Surely-create, Surely-write,
  Surely-makedirs, Surely-rename, Triple-never,
}
use ai_storybook_storage_ser.Drivers.Stream.{Stream, done, chunk, fails, as_aiter, Completes}
use ai_storybook_storage_ser.Drivers.LocalFs.{Env, Progress, write_chunks, stage, store}

pub parent-append : (p : FilePath) (x : Text) → parent (p ++ x ∷ []) ≡ p
unfolding parent
parent-append [] x = refl
parent-append (a ∷ []) x = refl
parent-append (a ∷ b ∷ p) x = ap (λ (t : FilePath). a ∷ t) (parent-append (b ∷ p) x)

path_ne_longer : (p : FilePath) (x : Text) (rest : FilePath) → p ++ x ∷ rest ≢ p
path_ne_longer [] x rest = λ e. cc
path_ne_longer (a ∷ p) x rest = λ e. path_ne_longer p x rest cc

-- A file is written beside a node, which stays.
set_file-node :
    (p q : FilePath) (f : File) (fs : Fs)
    → p ≢ []
    → p ≢ q
    → node_at q (set_node p (file f) fs) ≡ node_at q fs
set_file-node p q f fs ne apart =
    node_at-set_node p q (file f) fs ne ∙ elim (Bool-cases (path_eq p q)) [
      | inl same ↦ absurd (apart ((path_eq_iff p q).0 same))
      | inr other ↦ rw other refl
    ]

set_file-node_self :
    (p : FilePath) (f : File) (fs : Fs)
    → p ≢ []
    → node_at p (set_node p (file f) fs) ≡ some (file f)
set_file-node_self p f fs ne =
    node_at-set_node p p (file f) fs ne ∙ rw ((path_eq_iff p p).1 refl) refl

as_aiter-Completes : (s : Stream) → Completes s → Completes (as_aiter s)
unfolding as_aiter
as_aiter-Completes done h = h
as_aiter-Completes (chunk [] rest) h = as_aiter-Completes rest h
as_aiter-Completes (chunk (b ∷ bytes) rest) h = as_aiter-Completes rest h
as_aiter-Completes (fails e) h = h

-- The staging of an object: the places, and how they lie.
module _ (env : Env) (tmp dest : Text) (staging area object above : FilePath) (name : Text)
    (at_tmp : resolve env.cwd tmp ≡ staging) (at_dest : resolve env.cwd dest ≡ object)
    (at_above : resolve env.cwd (dirname dest) ≡ above) (in_area : parent staging ≡ area)
    (in_above : object ≡ above ++ name ∷ []) (staging-ne-nil : staging ≢ [])
    (area-ne : staging ≢ area) (object-ne : staging ≢ object)
    (apart : IsApart staging [] above) where
  -- The staging directory is there, and nothing is in the way of the object.
  abbrev pub Open : Fs → Type 0
  Open fs = (node_at area fs ≡ some dir) × IsClear [] above fs × (node_at object fs ≢ some dir)

  abbrev pub Free : Fs → Type 0
  Free fs = Open fs × (node_at staging fs ≢ some dir)

  abbrev Opened : Fs → Type 0
  Opened fs = Open fs × ((f : File) × (node_at staging fs ≡ some (file f)))

  set_file-Opened : (f : File) (fs : Fs) → Open fs → Opened (set_node staging (file f) fs)
  set_file-Opened f fs (a, c, o) = (
    (
      set_file-node staging area f fs staging-ne-nil area-ne ∙ a,
      set_file-IsClear staging [] above f fs staging-ne-nil apart c,
      λ e. o (sym (set_file-node staging object f fs staging-ne-nil object-ne) ∙ e),
    ),
    (f, set_file-node_self staging f fs staging-ne-nil),
  )

  appended-Opened :
      (bytes : Bytes) (fs : Fs) (t : ℕ)
      → Opened fs
      → Opened (appended (file_at staging fs) bytes staging t fs)
  unfolding appended
  appended-Opened bytes fs t (o, (f, there)) =
      rw (file_at-node_at staging fs f there) (set_file-Opened _ fs o)

  write-Opened : (bytes : Bytes) → Surely Opened (write env.cwd tmp bytes) (λ _. Opened)
  write-Opened bytes =
      Surely-write env.cwd tmp Opened Opened bytes
        λ fs t h. rw at_tmp (appended-Opened bytes fs t h)

  write_chunks-Opened :
      (p : Progress) (body : Stream)
      → Completes body
      → Surely Opened (write_chunks env tmp p body) (λ _. Opened)
  unfolding write_chunks
  write_chunks-Opened p done c = Triple-pure _ p (λ w h. h)
  write_chunks-Opened p (fails e) c = absurd c
  write_chunks-Opened p (chunk bytes rest) c =
      let p' : Progress = record { hashed = p.hashed ++ bytes; total = p.total + length bytes } in
      Triple-bind (λ _. OnHealthy Opened) (write-Opened bytes) (λ _. write_chunks-Opened p' rest c)

  create-Opened : Surely Free (create env.cwd tmp) (λ _. Opened)
  create-Opened = Surely-create env.cwd tmp Free Opened λ fs t ((a, c, o), free).
      rw at_tmp
        (ap (λ (q : FilePath). node_at q fs) in_area ∙ a, free, set_file-Opened _ fs (a, c, o))

  stage-Opened : (body : Stream) → Completes body → Surely Free (stage env tmp body) (λ _. Opened)
  unfolding stage
  stage-Opened body c =
      Triple-bind (λ _. OnHealthy Opened) create-Opened
        λ _.
          Triple-finally
            (Triple-bind (λ _. OnHealthy Opened)
              (write_chunks-Opened _ (as_aiter body) (as_aiter-Completes body c))
              λ p.
                Triple-bind (λ _. OnHealthy Opened) (Surely-flush Opened)
                  λ _.
                    Triple-bind (λ _. OnHealthy Opened) (Surely-fsync Opened)
                      λ _. Triple-pure _ p (λ w h. h))
            (λ p. Surely-close Opened) (λ e. Triple-never)

  -- The directories of the object are there, too.
  abbrev Prepared : Fs → Type 0
  Prepared fs =
      ((f : File) × (node_at staging fs ≡ some (file f)))
      × (node_at above fs ≡ some dir)
      × (node_at object fs ≢ some dir)

  makedirs-Prepared : Surely Opened (makedirs env.cwd (dirname dest)) (λ _. Prepared)
  unfolding node_at
  makedirs-Prepared =
      Surely-makedirs env.cwd (dirname dest) Opened Prepared λ fs ((a, c, o), (f, there)).
        rw at_above (
          c,
          (
            (f, make_dirs-Extends [] above fs staging (file f) there),
            make_dirs-dir [] above fs refl (make_dirs-ok [] above fs c),
            λ e. o (sym (make_dirs-apart object [] above fs above-apart) ∙ e),
          ),
        )
    where
      above-apart : IsApart object [] above
      above-apart front rest e h = omega (
        arith,
        ap (length {A = Text}) (h ∙ in_above ∙ ap (λ (q : FilePath). q ++ name ∷ []) e),
        length-append {0} (front ++ rest) (name ∷ []),
        length-append {0} front rest,
      )

  rename-Done : Surely Prepared (rename env.cwd tmp dest) (λ _ _. Unit)
  rename-Done =
      Surely-rename env.cwd tmp Prepared (λ _. Unit) dest
        λ fs ((f, there), up, o).
          rw (at_tmp, at_dest)
            (
              f,
              there,
              ap (λ (q : FilePath). node_at q fs) (ap parent in_above ∙ parent-append above name)
                  ∙ up,
              o,
              tt,
            )

  pub store-Surely :
      (body : Stream) → Completes body → Surely Free (store env tmp dest body) (λ _ _. Unit)
  unfolding store
  store-Surely body c =
      Triple-unless_done
        (Triple-except
          (Triple-bind (λ _. OnHealthy Opened) (stage-Opened body c)
            λ p.
              Triple-bind (λ _. OnHealthy Prepared) makedirs-Prepared
                λ _.
                  Triple-bind (λ _. OnHealthy (λ _. Unit)) rename-Done
                    λ _. Triple-pure _ p (λ w h. h))
          (λ n. Triple-never) (λ e w h. h))
        (λ e. Triple-never)
