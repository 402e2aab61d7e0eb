-- ===== src/Drivers/Layout/Round.antt =====
-- One round of the loop of `cleanup_stale_tmp` of src/drivers/paths.py, on a disk that does not fail.
use ai_storybook_storage_ser.Base.{
  ℕ, Text, ◌≡◌, ◌≢◌, refl, ◌∙◌, inl, inr, ◌+◌, Option, none, some, [], ltb, Bool-cases,
  Option-cases, if◌then◌else◌,
}
use ai_storybook_storage_ser.Errors.{ok}
use ai_storybook_storage_ser.Drivers.PosixPath.{FilePath, resolve}
use ai_storybook_storage_ser.Drivers.FileSystem.Tree.{
  File, Node, file, dir, node_at, file_at, drop_node,
}
use ai_storybook_storage_ser.Drivers.FileSystem.Monad.{World, pure, ◌>>=◌, except_os_error}
use ai_storybook_storage_ser.Drivers.FileSystem.Triple.{Triple}
use ai_storybook_storage_ser.Drivers.FileSystem.Calls.{
  file_at-node_at, drop_node-other_node, drop_node_self_node, ne_nil_of_file, ne_nil_of_file_at,
}
use ai_storybook_storage_ser.Drivers.FileSystem.Healthy.{
  is_file-healthy, getmtime-healthy, remove-healthy,
}
use ai_storybook_storage_ser.Drivers.Layout.{is_stale, sweep_one}

-- What the sweep leaves of an entry: all but a file that is older than the threshold.
abbrev pub remains : ℕ → ℕ → Option Node → Option Node
remains older now none = none
remains older now (some dir) = some dir
remains older now (some (file f)) = if ltb (f.mtime + older) now then none else some (file f)

pub remains_again :
    (older now : ℕ) (o : Option Node)
    → remains older now (remains older now o) ≡ remains older now o
remains_again older now none = refl
remains_again older now (some dir) = refl
remains_again older now (some (file f)) = elim (Bool-cases (ltb (f.mtime + older) now)) [
  | inl stale ↦ rw (stale, remains) refl
  | inr fresh ↦ rw (fresh, remains) (rw fresh refl)
]

-- The view of one entry through a round.
abbrev pub Watched : FilePath → Option Node → World → Type 0
Watched q o w = (w.faults ≡ []) × (node_at q w.fs ≡ o)

-- One round on a disk that does not fail.
module _ (cwd root : Text) (older now : ℕ) where
  sweep_one-absent :
      (p : Text) (w : World)
      → w.faults ≡ []
      → file_at (resolve cwd p) w.fs ≡ none
      → sweep_one cwd root older now p w ≡ (ok 0, record w { faults = [] })
  unfolding sweep_one is_stale ◌>>=◌ pure except_os_error
  sweep_one-absent p w healthy absent = rw (is_file-healthy cwd p w healthy, absent) refl

  sweep_one-there :
      (p : Text) (w : World) (f : File)
      → w.faults ≡ []
      → file_at (resolve cwd p) w.fs ≡ some f
      → sweep_one cwd root older now p w ≡ (
          if ltb (f.mtime + older) now
          then (ok 1, record w { fs = drop_node (resolve cwd p) w.fs; faults = [] })
          else (ok 0, record w { faults = [] }))
  unfolding sweep_one is_stale ◌>>=◌ pure except_os_error
  sweep_one-there p w f healthy there = elim (Bool-cases (ltb (f.mtime + older) now)) [
    | inl stale ↦
        rw
          (
            is_file-healthy cwd p w healthy,
            there,
            getmtime-healthy cwd p (record w { faults = [] }) refl f there,
            stale,
            remove-healthy cwd p (record w { faults = [] }) refl f there,
          )
          refl
    | inr fresh ↦
        rw
          (
            is_file-healthy cwd p w healthy,
            there,
            getmtime-healthy cwd p (record w { faults = [] }) refl f there,
            fresh,
          )
          refl
  ]

  no_file : (p : FilePath) (w : World) → node_at p w.fs ≡ none → file_at p w.fs ≡ none
  unfolding file_at
  no_file p w absent = rw (absent, file_at)

  no_file_of_dir : (p : FilePath) (w : World) → node_at p w.fs ≡ some dir → file_at p w.fs ≡ none
  unfolding file_at
  no_file_of_dir p w there = rw (there, file_at)

  pub sweep_one-hit :
      (p : Text) (o : Option Node)
      → Triple
          (Watched (resolve cwd p) o)
          (sweep_one cwd root older now p)
          (λ _. Watched (resolve cwd p) (remains older now o))
          (λ _ _. ⊥)
  sweep_one-hit p none = record {
    at = λ w (healthy, there).
        rw (sweep_one-absent p w healthy (no_file (resolve cwd p) w there)) (refl, there);
  }
  sweep_one-hit p (some dir) = record {
    at = λ w (healthy, there).
        rw (sweep_one-absent p w healthy (no_file_of_dir (resolve cwd p) w there)) (refl, there);
  }
  sweep_one-hit p (some (file f)) = record {
    at = λ w (healthy, there).
        rw (sweep_one-there p w f healthy (file_at-node_at (resolve cwd p) w.fs f there))
          (elim (Bool-cases (ltb (f.mtime + older) now)) [
            | inl stale ↦
                rw (stale, remains)
                  (
                    refl,
                    drop_node_self_node (resolve cwd p) w.fs
                        (ne_nil_of_file (resolve cwd p) w.fs f there),
                  )
            | inr fresh ↦ rw (fresh, remains) (refl, there)
          ]);
  }

  pub sweep_one-miss :
      (p : Text) (q : FilePath) (o : Option Node)
      → resolve cwd p ≢ q
      → Triple (Watched q o) (sweep_one cwd root older now p) (λ _. Watched q o) (λ _ _. ⊥)
  sweep_one-miss p q o apart = record {
    at = λ w (healthy, there). elim (Option-cases (file_at (resolve cwd p) w.fs)) [
      | inl absent ↦ rw (sweep_one-absent p w healthy absent) (refl, there)
      | inr (f, at_p) ↦
          rw (sweep_one-there p w f healthy at_p) (elim (Bool-cases (ltb (f.mtime + older) now)) [
            | inl stale ↦ rw stale (
              refl,
              drop_node-other_node (resolve cwd p) q w.fs
                    (ne_nil_of_file_at (resolve cwd p) w.fs f at_p) apart
                  ∙ there,
            )
            | inr fresh ↦ rw fresh (refl, there)
          ])
    ];
  }
