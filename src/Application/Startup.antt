-- ===== src/Application/Startup.antt =====
-- The start of the process: `lifespan` of src/main.py.
use ai_storybook_storage_ser.Base.{
  ℕ, Text, ◌≡◌, ◌≢◌, refl, sym, ap, ◌∙◌, inl, some, List, [], All-weaken, Bool-cases, inr,
}
use ai_storybook_storage_ser.Settings.{Settings}
use ai_storybook_storage_ser.Errors.{ok}
use ai_storybook_storage_ser.Drivers.PosixPath.{FilePath, resolve}
use ai_storybook_storage_ser.Drivers.Paths.Places.{tmp_place}
use ai_storybook_storage_ser.Drivers.FileSystem.Tree.{
  File, file, dir, Fs, node_at, file_at, drop_node, node_at-drop_node, path_eq, path_eq_iff,
}
use ai_storybook_storage_ser.Drivers.FileSystem.Monad.{World}
use ai_storybook_storage_ser.Drivers.FileSystem.Triple.{
  After-both, Ends, Triple, Triple-pure, Triple-bind, Triple-bind-checked, Triple-weaken,
  weaken-After,
}
use ai_storybook_storage_ser.Drivers.FileSystem.Calls.{
  On, Keeps-attempt, node_at_of_file_at, file_at-node_at,
}
use ai_storybook_storage_ser.Drivers.Layout.{ensure_layout, cleanup_stale_tmp}
use ai_storybook_storage_ser.Drivers.Layout.Sweep.{cleanup_stale_tmp-spares}
use ai_storybook_storage_ser.Drivers.Layout.KeepsDirs.{Keeps-cleanup_stale_tmp}
use ai_storybook_storage_ser.Drivers.Layout.Directories.{IsLaidOut, ensure_layout-IsLaidOut}
use ai_storybook_storage_ser.Drivers.LocalFs.{Driver}
use ai_storybook_storage_ser.Drivers.Registry.{build_driver, build_driver-ok}
use ai_storybook_storage_ser.Application.{
  Process, set_driver, verifies_with_jwks, prewarmed, startup,
}

-- The removal of a file removes no directory.
drop_file-dir :
    (p q : FilePath) (fs : Fs) (f : File)
    → node_at q fs ≡ some dir
    → file_at p fs ≡ some f
    → p ≢ []
    → node_at q (drop_node p fs) ≡ some dir
drop_file-dir p q fs f there at_p ne =
    node_at-drop_node p q fs ne ∙ elim (Bool-cases (path_eq p q)) [
      | inl same ↦ absurd (clash ((path_eq_iff p q).0 same))
      | inr other ↦ rw other there
    ]
  where
    clash : p ≡ q → ⊥
    clash e =
        let k : some (file f) ≡ some dir =
          sym (node_at_of_file_at p fs f at_p) ∙ ap (λ (x : FilePath). node_at x fs) e ∙ there in
        cc

drop_file-IsLaidOut :
    (cwd root : Text) (buckets : List Text) (p : FilePath) (fs : Fs) (f : File)
    → IsLaidOut cwd root buckets fs
    → file_at p fs ≡ some f
    → p ≢ []
    → IsLaidOut cwd root buckets (drop_node p fs)
drop_file-IsLaidOut cwd root buckets p fs f (tmp, meta, all) at_p ne = (
  drop_file-dir p _ fs f tmp at_p ne,
  drop_file-dir p _ fs f meta at_p ne,
  All-weaken (λ b (o, s). (drop_file-dir p _ fs f o at_p ne, drop_file-dir p _ fs f s at_p ne))
      buckets all,
)

-- The driver of the process works in the configured root.
abbrev pub IsWired : Settings → Process → Type 0
IsWired settings process =
    (driver : Driver) × (process.driver ≡ some driver)
    × (driver.root ≡ settings.storage_root)
    × (driver.sign_secret ≡ settings.storage_sign_secret)

prewarmed-IsWired :
    (settings : Settings) (process : Process) (driver : Driver)
    → build_driver settings ≡ ok driver
    → IsWired settings (prewarmed settings (set_driver (some driver) process))
unfolding prewarmed set_driver
prewarmed-IsWired settings process driver h =
    let (root, secret, base) = build_driver-ok settings driver h in (driver, wired, root, secret)
  where
    wired : (prewarmed settings (set_driver (some driver) process)).driver ≡ some driver
    wired = elim (Bool-cases (verifies_with_jwks settings)) [
      | inl jwks ↦ rw jwks refl
      | inr own ↦ rw own refl
    ]

module _ (cwd : Text) (settings : Settings) (q : FilePath) (f : File)
    (outside : (name : Text) → tmp_place (resolve cwd settings.storage_root) name ≢ q) where
  abbrev There : Fs → Type 0
  There fs = file_at q fs ≡ some f

  -- The layout, with the file.
  abbrev Ready : Fs → Type 0
  Ready fs = IsLaidOut cwd settings.storage_root settings.buckets fs × There fs

  ensure_layout-Ready :
      Triple
        (On There)
        (ensure_layout cwd settings.storage_root settings.buckets)
        (λ _. On Ready)
        (λ _. On There)
  ensure_layout-Ready = record {
    at = λ w there.
        let there' = node_at_of_file_at q w.fs f there in
        weaken-After (λ _ v h. (h.1, file_at-node_at q v.fs f (h.0 q (file f) there')))
          (λ _ v h. file_at-node_at q v.fs f (h q (file f) there'))
          (ensure_layout cwd settings.storage_root settings.buckets w).0
          (ensure_layout cwd settings.storage_root settings.buckets w).1
          (ensure_layout-IsLaidOut cwd settings.storage_root settings.buckets w);
  }

  cleanup_stale_tmp-Ready :
      (older : ℕ)
      → Triple
          (On Ready)
          (cleanup_stale_tmp cwd settings.storage_root older)
          (λ _. On Ready)
          (λ _. On There)
  cleanup_stale_tmp-Ready older = record {
    at = λ w (laid, there).
        let root = settings.storage_root in
        let action = cleanup_stale_tmp cwd root older in
        let P = IsLaidOut cwd root settings.buckets in
        weaken-After (λ _ v h. h) (λ _ v h. h.1) (action w).0 (action w).1
          (After-both _ _ _ _ (action w).0 (action w).1
            ((Keeps-cleanup_stale_tmp cwd root P
                (λ p fs g h at_p ne. drop_file-IsLaidOut cwd root settings.buckets p fs g h at_p ne)
                older).at
              w laid)
            (cleanup_stale_tmp-spares cwd root older q f w there (inl outside)));
  }

-- If the process starts, the driver is in place with the configured root and secret, and the directories
-- of all buckets are there; and whether it starts or raises, from any tree and with any failures of the
-- disk, each file outside `.tmp` is as it was.
pub startup-IsWired :
    (cwd : Text) (settings : Settings) (process : Process) (w : World) (q : FilePath) (f : File)
    → ((name : Text) → tmp_place (resolve cwd settings.storage_root) name ≢ q)
    → file_at q w.fs ≡ some f
    → Ends
        (startup cwd settings process)
        w
        (λ p w'.
          IsWired settings p
          × IsLaidOut cwd settings.storage_root settings.buckets w'.fs
          × (file_at q w'.fs ≡ some f))
        (λ _ w'. file_at q w'.fs ≡ some f)
unfolding startup
startup-IsWired cwd settings process w q f outside there =
    (Triple-bind (λ _. On (Ready cwd settings q f outside))
        (ensure_layout-Ready cwd settings q f outside)
        λ _.
          Triple-bind (λ _. On (Ready cwd settings q f outside))
            (cleanup_stale_tmp-Ready cwd settings q f outside 3600)
            λ _.
              Triple-bind-checked (build_driver settings) _ (λ e v h. h.1)
                λ driver built.
                  Triple-bind (λ _. On (Ready cwd settings q f outside))
                    (Triple-weaken (λ v h. h) (λ _ v h. h) (λ e v h. h.1)
                      (Keeps-attempt (Ready cwd settings q f outside)))
                    λ _.
                      Triple-pure _ _
                        (λ v h. (prewarmed-IsWired settings process driver built, h.0, h.1))).at
      w there
