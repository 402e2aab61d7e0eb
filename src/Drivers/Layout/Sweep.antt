-- ===== src/Drivers/Layout/Sweep.antt =====
-- `cleanup_stale_tmp` of src/drivers/paths.py: which files the sweep leaves alone.
use ai_storybook_storage_ser.Base.{
  ℕ, Text, Bool, true, false, ◌≡◌, ◌≢◌, refl, sym, ap, ◌∙◌, ◌⊎◌, inl, inr, ◌+◌, ◌≤◌, some, List, [],
  ◌∷◌, All, ltb, arith, if◌then◌else◌,
}
use ai_storybook_storage_ser.Drivers.PosixPath.{FilePath, path_join, resolve}
use ai_storybook_storage_ser.Drivers.Paths.{tmp_dir, new_tmp_path}
use ai_storybook_storage_ser.Drivers.Paths.Places.{tmp_place, new_tmp_path-place}
use ai_storybook_storage_ser.Drivers.FileSystem.{
  answered, remove, listdir, getmtime, is_dir, is_dir_node,
}
use ai_storybook_storage_ser.Drivers.FileSystem.Tree.{File, Fs, file_at, node_at}
use ai_storybook_storage_ser.Drivers.FileSystem.Monad.{
  World, Io, next_fault, tail_of, pure, gets, ◌>>=◌, ◌>>◌,
}
use ai_storybook_storage_ser.Drivers.FileSystem.Triple.{
  Ends, Triple, Keeps, Triple-pure, Triple-bind, Triple-weaken, Keeps-pure, Keeps-bind,
  Keeps-except,
}
use ai_storybook_storage_ser.Drivers.FileSystem.Calls.{
  On, Triple-remove, Keeps-is_file, drop_node-other,
}
use ai_storybook_storage_ser.Drivers.FileSystem.Directories.{
  IsEntry, Triple-listdir, Triple-getmtime,
}
use ai_storybook_storage_ser.Drivers.Layout.{is_stale, sweep_one, sweep, cleanup_stale_tmp}

module _ (cwd root : Text) (older now : ℕ) (q : FilePath) (f : File) where
  -- The file is there.
  abbrev There : Fs → Type 0
  There fs = file_at q fs ≡ some f

  -- The path leads elsewhere, or the file is not old.
  abbrev Spared : Text → Type 0
  Spared p = (resolve cwd p ≢ q) ⊎ (now ≤ f.mtime + older)

  -- A path that the test calls stale leads elsewhere.
  is_stale-Spared :
      (p : Text)
      → Spared p
      → Triple
          (On There)
          (is_stale cwd root older now p)
          (λ b. On (λ fs. There fs × (b ≡ true → resolve cwd p ≢ q)))
          (λ _. On There)
  unfolding is_stale
  is_stale-Spared p spared =
      Triple-bind (λ _. On There) (Keeps-is_file cwd p There) λ found. by found
    where
      verdict :
          (t : ℕ) (w : World)
          → There w.fs × ((g : File) × (file_at (resolve cwd p) w.fs ≡ some g) × (t ≡ g.mtime))
          → ltb (t + older) now ≡ true
          → resolve cwd p ≢ q
      verdict t w (there, (g, at_p, is_mtime)) stale e = elim spared [
        | inl elsewhere ↦ elsewhere e
        | inr fresh ↦
            let same : some g ≡ some f =
              sym at_p ∙ ap (λ (x : FilePath). file_at x w.fs) e ∙ there in
            let mtimes : g.mtime ≡ f.mtime = cc in ground (arith, fresh, mtimes, is_mtime, stale)
      ]

      by :
          (found : Bool)
          → Triple
              (On There)
              (if found
                then (do mtime ← getmtime cwd p; pure (ltb (mtime + older) now))
                else pure false)
              (λ b. On (λ fs. There fs × (b ≡ true → resolve cwd p ≢ q)))
              (λ _. On There)
      by true =
          Triple-bind
            (λ t. On (λ fs.
              There fs × ((g : File) × (file_at (resolve cwd p) fs ≡ some g) × (t ≡ g.mtime))))
            (Triple-getmtime cwd p There)
            λ t. Triple-pure _ (ltb (t + older) now) (λ w h. (h.0, verdict t w h))
      by false = Triple-pure _ false (λ w h. (h, λ e. absurd (ground arith)))

  Keeps-sweep_one : (p : Text) → Spared p → Keeps (On There) (sweep_one cwd root older now p)
  unfolding sweep_one
  Keeps-sweep_one p spared =
      Keeps-except
        (Triple-bind (λ b. On (λ fs. There fs × (b ≡ true → resolve cwd p ≢ q)))
          (is_stale-Spared p spared) λ b. by b)
        (λ _. Keeps-pure 0)
    where
      by :
          (b : Bool)
          → Triple
              (On (λ fs. There fs × (b ≡ true → resolve cwd p ≢ q)))
              (let go : Io ℕ = if b then (do remove cwd p; pure 1) else pure 0 in go)
              (λ _. On There)
              (λ _. On There)
      by true =
          Triple-bind {B = ℕ} (λ _. On There)
            (Triple-weaken (λ w h. h) (λ _ w h. h) (λ e w h. h.0)
              (Triple-remove cwd p (λ fs. There fs × (true ≡ true → resolve cwd p ≢ q)) There
                λ fs g h at_p ne. drop_node-other (resolve cwd p) q fs ne (h.1 refl) ∙ h.0))
            λ _. Keeps-pure {A = ℕ} 1
      by false = Triple-pure _ 0 (λ w h. h.0)

  Keeps-sweep :
      (tmp : Text) (removed : ℕ) (names : List Text)
      → ((name : Text) → IsEntry name → Spared (path_join tmp name))
      → All IsEntry names
      → Keeps (On There) (sweep cwd root older now tmp removed names)
  unfolding sweep
  Keeps-sweep tmp removed [] spared _ = Keeps-pure removed
  Keeps-sweep tmp removed (name ∷ names) spared (h, hs) =
      Keeps-bind (Keeps-sweep_one (path_join tmp name) (spared name h))
        λ gone. Keeps-sweep tmp (removed + gone) names spared hs

-- The sweep removes no file outside `.tmp` and none that is not older than the threshold, however the
-- disk fails and also where the sweep itself raises.
pub cleanup_stale_tmp-spares :
    (cwd root : Text) (older : ℕ) (q : FilePath) (f : File) (w : World)
    → file_at q w.fs ≡ some f
    → ((name : Text) → tmp_place (resolve cwd root) name ≢ q) ⊎ (w.now ≤ f.mtime + older)
    → Ends
        (cleanup_stale_tmp cwd root older)
        w
        (λ _ w'. file_at q w'.fs ≡ some f)
        (λ _ w'. file_at q w'.fs ≡ some f)
unfolding cleanup_stale_tmp is_dir answered ◌>>=◌ gets pure new_tmp_path
cleanup_stale_tmp-spares cwd root older q f w there spared =
    by (answered (next_fault w.faults) (is_dir_node (node_at (resolve cwd tmp) w.fs)))
  where
    tmp : Text
    tmp = path_join root tmp_dir

    each : (name : Text) → IsEntry name → Spared cwd root older w.now q f (path_join tmp name)
    each name (plain, lacks) = elim spared [
      | inl outside ↦
          inl (λ e. outside name (sym (new_tmp_path-place cwd root name plain lacks) ∙ e))
      | inr fresh ↦ inr fresh
    ]

    by :
        (present : Bool)
        → Ends
            (if present
              then (do
                now ← gets (λ w. w.now)
                names ← listdir cwd tmp
                sweep cwd root older now tmp 0 names)
              else pure 0)
            (record w { faults = tail_of w.faults })
            (λ _ w'. file_at q w'.fs ≡ some f)
            (λ _ w'. file_at q w'.fs ≡ some f)
    by true =
        (Triple-bind (λ names. On (λ fs. (file_at q fs ≡ some f) × All IsEntry names))
            (Triple-listdir cwd tmp (λ fs. file_at q fs ≡ some f))
            λ names. record {
              at = λ v h. (Keeps-sweep cwd root older w.now q f tmp 0 names each h.1).at v h.0;
            }).at
          (record w { faults = tail_of w.faults }) there
    by false = there
