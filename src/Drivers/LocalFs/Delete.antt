-- ===== src/Drivers/LocalFs/Delete.antt =====
-- `delete` and `get` on an object.
use ai_storybook_storage_ser.Base.{
  Text, codes, ◌≡◌, ◌≢◌, refl, sym, ap, ◌∙◌, ◌⊎◌, inl, inr, Option, none, Bool, true, false,
}
use ai_storybook_storage_ser.Validation.KeyGrammar.Grammar.{IsKey, IsBucketName}
use ai_storybook_storage_ser.Drivers.PosixPath.{FilePath, resolve}
use ai_storybook_storage_ser.Drivers.Paths.{object_path, meta_path}
use ai_storybook_storage_ser.Drivers.Paths.Places.{
  object_place, object_path-place, meta_path-place, object_place-ne-hidden,
}
use ai_storybook_storage_ser.Drivers.FileSystem.Tree.{File, Fs, file_at, drop_node}
use ai_storybook_storage_ser.Drivers.FileSystem.Monad.{World}
use ai_storybook_storage_ser.Drivers.FileSystem.Triple.{
  Ends, Triple, Triple-pure, Triple-bind, Triple-except, Triple-bind-lift,
}
use ai_storybook_storage_ser.Drivers.FileSystem.Failures.{
  Anything, MayFail-remove, Returns, Returns-except, Triple-Returns,
}
use ai_storybook_storage_ser.Drivers.FileSystem.Calls.{
  On, Triple-remove, drop_node_self, Keeps-view,
}
use ai_storybook_storage_ser.Drivers.LocalFs.{Env, Driver, safe_unlink, delete}
use ai_storybook_storage_ser.Drivers.LocalFs.Atomic.{Keeps-safe_unlink}

-- What `delete` did: it took the file away, or it left it.
abbrev pub DeleteOutcome : Option File → Bool → Option File → Type 0
DeleteOutcome old existed stored =
    ((existed ≡ true) × ((old ≢ none) × (stored ≡ none))) ⊎ ((existed ≡ false) × (stored ≡ old))

pub Returns-safe_unlink : (env : Env) (path : Text) → Returns (safe_unlink env path)
unfolding safe_unlink
Returns-safe_unlink env path =
    Returns-except
      (Triple-bind (λ _. Anything) (MayFail-remove env.cwd path)
        (λ _. Triple-pure _ true (λ w h. tt)))
      (λ n. Triple-pure _ false (λ w h. tt))

safe_unlink_kept :
    (env : Env) (path : Text) (q : FilePath) (old : Option File)
    → resolve env.cwd path ≡ q
    → Triple
        (On (λ fs. file_at q fs ≡ old))
        (safe_unlink env path)
        (λ r. On (λ fs. DeleteOutcome old r (file_at q fs)))
        (λ _. On (λ fs. file_at q fs ≡ old))
unfolding safe_unlink
safe_unlink_kept env path q old at_q =
    let Gone : Fs → Type 0 = λ fs. (old ≢ none) × (file_at q fs ≡ none) in
    let Before : Fs → Type 0 = λ fs. file_at q fs ≡ old in
    Triple-except {E = λ _. On Before}
      (Triple-bind (λ _. On Gone)
        (Triple-remove env.cwd path Before Gone (λ fs f h here ne. (
          λ e. cc,
          ap (λ (p : FilePath). file_at p (drop_node (resolve env.cwd path) fs)) (sym at_q)
              ∙ drop_node_self (resolve env.cwd path) fs ne,
        )))
        (λ _. Triple-pure _ true (λ w h. inl (refl, h))))
      (λ n. Triple-pure _ false (λ w h. inr (refl, h))) (λ e w h. h)

module _ (env : Env) (driver : Driver) (allow_at : Bool) (bucket key : Text)
    (b : IsBucketName bucket) (k : IsKey allow_at key) where
  abbrev root : FilePath
  root = resolve env.cwd driver.root

  abbrev object : FilePath
  object = object_place root bucket key

  -- For a bucket and a key of the grammar `delete` never raises. It returns true when the object's
  -- file was there and is gone, and false when it left the file as it was.
  pub delete-DeleteOutcome :
      (w : World)
      → Ends
          (delete env driver bucket key)
          w
          (λ r w'. DeleteOutcome (file_at object w.fs) r (file_at object w'.fs))
          (λ e w'. ⊥)
  unfolding delete
  delete-DeleteOutcome w =
      let old = file_at object w.fs in
      let Before : Fs → Type 0 = λ fs. file_at object fs ≡ old in
      let (passed, at_meta) = meta_path-place env.cwd driver.root allow_at bucket key b k in
      let (passed', at_object) = object_path-place env.cwd driver.root allow_at bucket key b k in
      (Triple-bind-lift {P = On Before} (object_path env.cwd driver.root bucket key) _ _ passed' (
          Triple-bind (λ r. On (λ fs. DeleteOutcome old r (file_at object fs)))
            (Triple-Returns (safe_unlink_kept env _ object old at_object)
              (Returns-safe_unlink env _))
            (λ existed. Triple-bind-lift (meta_path env.cwd driver.root bucket key) _ _ passed (
              Triple-bind (λ _. On (λ fs. DeleteOutcome old existed (file_at object fs)))
                (Triple-Returns
                  (Keeps-view object (DeleteOutcome old existed) (λ o.
                    Keeps-safe_unlink env _ object o (λ e.
                      object_place-ne-hidden root bucket key (codes "meta") _ b (sym e ∙ at_meta))))
                  (Returns-safe_unlink env _))
                (λ _.
                  Triple-pure (λ (r : Bool). On (λ fs. DeleteOutcome old r (file_at object fs)))
                    existed (λ w h. h)))))).at
        w refl
