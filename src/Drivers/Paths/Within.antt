-- ===== src/Drivers/Paths/Within.antt =====
-- The traversal guard: what `_assert_within` lets pass.
use ai_storybook_storage_ser.Base.{
  Text, ◌≡◌, ◌≢◌, refl, sym, ◌∙◌, List, [], ◌∷◌, ◌++◌, append-nil, text_eq, text_eq_iff, arith,
  Bool-cases, inl, inr,
}
use ai_storybook_storage_ser.Errors.{ok, bind-eq-ok}
use ai_storybook_storage_ser.Drivers.PosixPath.{FilePath, path_join, resolve, realpath}
use ai_storybook_storage_ser.Drivers.PosixPath.Names.{
  realpath-injective, realpath_below, below_realpath,
}
use ai_storybook_storage_ser.Drivers.Paths.{assert_within, object_path}

-- `q` leads to the place of `p` or to one below it.
abbrev pub LiesWithin : FilePath → FilePath → Type 0
LiesWithin p q = (rest : List Text) × (q ≡ p ++ rest)

module _ (cwd : Text) where
  pub assert_within-LiesWithin :
      (root candidate r : Text)
      → assert_within cwd root candidate ≡ ok r
      → LiesWithin (resolve cwd root) (resolve cwd candidate)
  unfolding assert_within
  assert_within-LiesWithin root candidate r h =
      elim (Bool-cases (text_eq (realpath cwd candidate) (realpath cwd root))) [
        | inl same ↦
            let e = realpath-injective cwd candidate root ((text_eq_iff _ _).0 same) in
            ([], e ∙ sym (append-nil _))
        | inr other ↦ realpath_below cwd root candidate (ground arith)
      ]

  assert_within_same :
      (root candidate : Text)
      → resolve cwd candidate ≡ resolve cwd root
      → assert_within cwd root candidate ≡ ok (realpath cwd candidate)
  unfolding assert_within
  assert_within_same root candidate e =
      let same : realpath cwd candidate ≡ realpath cwd root = unfold realpath in rw e in
      rw ((text_eq_iff _ _).1 same)

  assert_within_below :
      (root candidate : Text) (x : Text) (xs : List Text) (z : Text) (zs : List Text)
      → resolve cwd root ≡ x ∷ xs
      → resolve cwd candidate ≡ x ∷ xs ++ z ∷ zs
      → assert_within cwd root candidate ≡ ok (realpath cwd candidate)
  unfolding assert_within
  assert_within_below root candidate x xs z zs er ec =
      ground (arith, below_realpath cwd root candidate x xs z zs er ec)

  -- Below any root but `/` the guard lets pass what lies within.
  LiesWithin-assert_within :
      (root candidate : Text) (x : Text) (xs rest : List Text)
      → resolve cwd root ≡ x ∷ xs
      → resolve cwd candidate ≡ x ∷ xs ++ rest
      → assert_within cwd root candidate ≡ ok (realpath cwd candidate)
  LiesWithin-assert_within root candidate x xs [] er ec =
      assert_within_same root candidate (ec ∙ append-nil (x ∷ xs) ∙ sym er)
  LiesWithin-assert_within root candidate x xs (z ∷ zs) er ec =
      assert_within_below root candidate x xs z zs er ec

  pub assert_within_extends :
      (root candidate : Text) (place rest : FilePath)
      → place ≢ []
      → resolve cwd root ≡ place
      → resolve cwd candidate ≡ place ++ rest
      → assert_within cwd root candidate ≡ ok (realpath cwd candidate)
  assert_within_extends root candidate [] rest named er ec = absurd (named refl)
  assert_within_extends root candidate (x ∷ xs) rest named er ec =
      LiesWithin-assert_within root candidate x xs rest er ec

  -- Whatever bucket and key it is given, also unvalidated ones, `object_path` either raises or
  -- returns the joined path, and then that path leads to the bucket's directory or below it.
  pub object_path-LiesWithin :
      (root bucket key path : Text)
      → object_path cwd root bucket key ≡ ok path
      → (path ≡ path_join (path_join root bucket) key)
        × LiesWithin (resolve cwd (path_join root bucket)) (resolve cwd path)
  unfolding object_path
  object_path-LiesWithin root bucket key path h =
      let joined = path_join (path_join root bucket) key in
      let (r, passed, e) =
        bind-eq-ok (assert_within cwd (path_join root bucket) joined) (λ _. ok joined) h in
      let same : path ≡ joined = ground arith in
      (same, rw same (assert_within-LiesWithin (path_join root bucket) joined r passed))
