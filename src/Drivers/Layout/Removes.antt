-- ===== src/Drivers/Layout/Removes.antt =====
-- `cleanup_stale_tmp` of src/drivers/paths.py on a disk that does not fail: which files it removes.
use mathlib.Core.List.{append_cancel_left}
use ai_storybook_storage_ser.Base.{
  ℕ, Text, ◌≡◌, ◌≢◌, refl, sym, ap, subst, ◌∙◌, inl, inr, ◌+◌, Option, none, some, List, [], ◌∷◌,
  ◌++◌, All, arith, Bool-cases, text_eq, text_eq_iff,
}
use ai_storybook_storage_ser.Drivers.PosixPath.{FilePath, path_join, resolve}
use ai_storybook_storage_ser.Drivers.Paths.{tmp_dir, new_tmp_path}
use ai_storybook_storage_ser.Drivers.Paths.Places.{
  tmp_place, resolve-name, new_tmp_path-place, resolve-tmp_dir,
}
use ai_storybook_storage_ser.Drivers.FileSystem.{is_dir_node, children}
use ai_storybook_storage_ser.Drivers.FileSystem.Tree.{Node, dir, node_at}
use ai_storybook_storage_ser.Drivers.FileSystem.Monad.{World, pure, gets, ◌>>=◌}
use ai_storybook_storage_ser.Drivers.FileSystem.Triple.{
  Ends, Triple, Triple-pure, Triple-bind, weaken-After,
}
use ai_storybook_storage_ser.Drivers.FileSystem.Directories.{
  IsEntry, In, children-IsEntry, node_at-children,
}
use ai_storybook_storage_ser.Drivers.FileSystem.Healthy.{is_dir-healthy, listdir-healthy}
use ai_storybook_storage_ser.Drivers.Layout.{sweep_one, sweep, cleanup_stale_tmp}
use ai_storybook_storage_ser.Drivers.Layout.Round.{
  remains, remains_again, Watched, sweep_one-hit, sweep_one-miss,
}

module _ (cwd root : Text) (older now : ℕ) where
  module _ (x : Text) (entry : IsEntry x) (o : Option Node) where
    abbrev tmp : Text
    tmp = path_join root tmp_dir

    abbrev place : FilePath
    place = resolve cwd (path_join tmp x)

    apart : (y : Text) → IsEntry y → y ≢ x → resolve cwd (path_join tmp y) ≢ place
    unfolding new_tmp_path
    apart y (plain, lacks) other e =
        let both =
          sym (new_tmp_path-place cwd root y plain lacks)
          ∙ e
          ∙ new_tmp_path-place cwd root x entry.0 entry.1 in
        let names = append_cancel_left (resolve cwd root) _ _ both in other cc

    -- A round after the entry has been looked at.
    sweep_one-again :
        (y : Text)
        → IsEntry y
        → Triple
            (Watched place (remains older now o))
            (sweep_one cwd root older now (path_join tmp y))
            (λ _. Watched place (remains older now o))
            (λ _ _. ⊥)
    sweep_one-again y h = elim (Bool-cases (text_eq y x)) [
      | inl same ↦
          subst
            (λ (z : Text).
              Triple (Watched place (remains older now o))
                (sweep_one cwd root older now (path_join tmp z))
                (λ _. Watched place (remains older now o)) (λ _ _. ⊥))
            (sym ((text_eq_iff y x).0 same))
            (subst
              (λ (r : Option Node).
                Triple (Watched place (remains older now o))
                  (sweep_one cwd root older now (path_join tmp x)) (λ _. Watched place r)
                  (λ _ _. ⊥))
              (remains_again older now o)
              (sweep_one-hit cwd root older now (path_join tmp x) (remains older now o)))
      | inr other ↦
          sweep_one-miss cwd root older now (path_join tmp y) place (remains older now o)
            (apart y h (λ e. let yes = (text_eq_iff y x).1 e in ground arith))
    ]

    sweep-again :
        (n : ℕ) (names : List Text)
        → All IsEntry names
        → Triple
            (Watched place (remains older now o))
            (sweep cwd root older now tmp n names)
            (λ _. Watched place (remains older now o))
            (λ _ _. ⊥)
    unfolding sweep
    sweep-again n [] _ = Triple-pure _ n (λ w h. h)
    sweep-again n (y ∷ names) (h, hs) =
        Triple-bind (λ _. Watched place (remains older now o)) (sweep_one-again y h)
          λ gone. sweep-again (n + gone) names hs

    sweep-head :
        (n : ℕ) (y : Text) (names : List Text)
        → IsEntry y
        → All IsEntry names
        → x ≡ y
        → Triple
            (Watched place o)
            (sweep cwd root older now tmp n (y ∷ names))
            (λ _. Watched place (remains older now o))
            (λ _ _. ⊥)
    unfolding sweep
    sweep-head n y names h hs same =
        Triple-bind (λ _. Watched place (remains older now o))
          (subst
            (λ (z : Text).
              Triple (Watched place o) (sweep_one cwd root older now (path_join tmp z))
                (λ _. Watched place (remains older now o)) (λ _ _. ⊥))
            same (sweep_one-hit cwd root older now (path_join tmp x) o))
          λ gone. sweep-again (n + gone) names hs

    sweep-reaches :
        (n : ℕ) (names : List Text)
        → All IsEntry names
        → In x names
        → Triple
            (Watched place o)
            (sweep cwd root older now tmp n names)
            (λ _. Watched place (remains older now o))
            (λ _ _. ⊥)
    unfolding sweep
    sweep-reaches n [] _ h = elim h [ ]
    sweep-reaches n (y ∷ names) (h, hs) (inl same) = sweep-head n y names h hs same
    sweep-reaches n (y ∷ names) (h, hs) (inr later) = elim (Bool-cases (text_eq x y)) [
      | inl same ↦ sweep-head n y names h hs ((text_eq_iff x y).0 same)
      | inr other ↦
          Triple-bind (λ _. Watched place o)
            (sweep_one-miss cwd root older now (path_join tmp y) place o
              (apart y h (λ e. let yes = (text_eq_iff x y).1 (sym e) in ground arith)))
            λ gone. sweep-reaches (n + gone) names hs later
    ]

    -- The listed names reach the entry, if it is there.
    sweep-children :
        (w : World)
        → w.faults ≡ []
        → node_at place w.fs ≡ o
        → Ends
            (sweep cwd root older now tmp 0 (children (resolve cwd tmp) w.fs))
            w
            (λ _. Watched place (remains older now o))
            (λ _ _. ⊥)
    sweep-children w healthy there =
        by o there (sweep-again 0 names names-IsEntry) (sweep-reaches 0 names names-IsEntry)
      where
        names : List Text
        names = children (resolve cwd tmp) w.fs

        names-IsEntry : All IsEntry names
        names-IsEntry = children-IsEntry (resolve cwd tmp) w.fs

        in_tmp : place ≡ resolve cwd tmp ++ x ∷ []
        in_tmp = resolve-name cwd tmp x entry.0 entry.1

        by :
            (r : Option Node)
            → node_at place w.fs ≡ r
            → Triple
                (Watched place (remains older now r))
                (sweep cwd root older now tmp 0 names)
                (λ _. Watched place (remains older now r))
                (λ _ _. ⊥)
            → (In x names
                → Triple
                    (Watched place r)
                    (sweep cwd root older now tmp 0 names)
                    (λ _. Watched place (remains older now r))
                    (λ _ _. ⊥))
            → Ends
                (sweep cwd root older now tmp 0 names)
                w
                (λ _. Watched place (remains older now r))
                (λ _ _. ⊥)
        by none e again reaches = again.at w (healthy, e)
        by (some n) e again reaches =
            (reaches (
                node_at-children (resolve cwd tmp) x w.fs n entry
                  (ap (λ (q : FilePath). node_at q w.fs) (sym in_tmp) ∙ e))).at
              w (healthy, e)

-- On a disk that does not fail and on which `.tmp` is a directory the sweep returns, and for every name
-- of an entry directly in `.tmp` it removes a file that is older than the threshold, and leaves
-- any other file, a directory and a free name as they were.
pub cleanup_stale_tmp-remains :
    (cwd root : Text) (older : ℕ) (name : Text) (w : World)
    → IsEntry name
    → w.faults ≡ []
    → node_at (resolve cwd root ++ tmp_dir ∷ []) w.fs ≡ some dir
    → Ends
        (cleanup_stale_tmp cwd root older)
        w
        (λ _ w'.
          node_at (tmp_place (resolve cwd root) name) w'.fs
          ≡ remains older w.now (node_at (tmp_place (resolve cwd root) name) w.fs))
        (λ _ _. ⊥)
unfolding cleanup_stale_tmp is_dir_node ◌>>=◌ gets pure new_tmp_path
cleanup_stale_tmp-remains cwd root older name w entry healthy there =
    let tmp = path_join root tmp_dir in
    let q = resolve cwd (path_join tmp name) in
    let at_tmp : node_at (resolve cwd tmp) w.fs ≡ some dir =
      ap (λ (p : FilePath). node_at p w.fs) (resolve-tmp_dir cwd root) ∙ there in
    let w' = record w { faults = [] } in
    subst
      (λ (p : FilePath).
        Ends (cleanup_stale_tmp cwd root older) w
          (λ _ w'. node_at p w'.fs ≡ remains older w.now (node_at p w.fs)) (λ _ _. ⊥))
      (new_tmp_path-place cwd root name entry.0 entry.1)
      (rw (is_dir-healthy cwd tmp w healthy, at_tmp, listdir-healthy cwd tmp w' refl at_tmp)
        (weaken-After (λ _ v h. h.1) (λ _ v h. h)
          (sweep cwd root older w.now tmp 0 (children (resolve cwd tmp) w.fs) w').0
          (sweep cwd root older w.now tmp 0 (children (resolve cwd tmp) w.fs) w').1
          (sweep-children cwd root older w.now name entry (node_at q w.fs) w' refl refl)))
