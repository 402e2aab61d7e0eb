-- ===== src/Drivers/LocalFs/CanStore.antt =====
-- A disk on which `put` succeeds (src/drivers/local_fs.py).
use ai_storybook_storage_ser.Base.{
  ℕ, Text, codes, Bool, true, false, ◌≡◌, ◌≢◌, refl, sym, ap, subst, ◌∙◌, ◌⊎◌, inl, inr, Option,
  none, some, List, [], ◌∷◌, ◌++◌, ◌+◌, append_assoc, text_eq, length, length-append, arith,
  Bool-cases,
}
use ai_storybook_storage_ser.Settings.{Dict}
use ai_storybook_storage_ser.Errors.{Result, ok, Errno}
use ai_storybook_storage_ser.Validation.KeyGrammar.Grammar.{IsKey, IsBucketName}
use ai_storybook_storage_ser.Drivers.PosixPath.{FilePath, path_join, resolve}
use ai_storybook_storage_ser.Drivers.Paths.{tmp_dir, new_tmp_path}
use ai_storybook_storage_ser.Drivers.Paths.Places.{
  object_place, tmp_place, object_path-place, new_tmp_path-place, object_place-ne-hidden,
}
use ai_storybook_storage_ser.Drivers.Paths.Parents.{Directory, object-Directory}
use ai_storybook_storage_ser.Drivers.FileSystem.{path_exists, answered}
use ai_storybook_storage_ser.Drivers.FileSystem.Tree.{File, file, dir, Fs, node_at, file_at, parent}
use ai_storybook_storage_ser.Drivers.FileSystem.Monad.{World, pure, lift, ◌>>=◌, next_fault}
use ai_storybook_storage_ser.Drivers.FileSystem.Triple.{
  After, After-both, weaken-After, Ends, Triple-pure, Triple-bind,
}
use ai_storybook_storage_ser.Drivers.FileSystem.MakeDirs.{IsClear, IsApart, IsClear-of}
use ai_storybook_storage_ser.Drivers.FileSystem.Surely.{OnHealthy, Surely}
use ai_storybook_storage_ser.Drivers.Stream.{Stream, Completes}
use ai_storybook_storage_ser.Drivers.LocalFs.{
  Env, Driver, PutResult, uuid4_hex, store, put_new, put, is_taken,
}
use ai_storybook_storage_ser.Drivers.LocalFs.Sidecars.{HexNames}
use ai_storybook_storage_ser.Drivers.LocalFs.Succeeds.{parent-append, store-Surely}
use ai_storybook_storage_ser.Drivers.LocalFs.Put.{IsNewObject, PutOutcome, put-PutOutcome}
use ai_storybook_storage_ser.Drivers.LocalFs.BestEffort.{Returns-write_sidecar}

module _ (env : Env) (driver : Driver) (hex_names : HexNames env) (allow_at : Bool)
    (bucket key : Text) (b : IsBucketName bucket) (k : IsKey allow_at key) where
  abbrev root : FilePath
  root = resolve env.cwd driver.root

  abbrev object_at : FilePath
  object_at = object_place root bucket key

  -- A disk on which the object can be stored: it does not fail, `.tmp` is a directory with no directory
  -- in it, no file stands where a directory of the object has to, and no directory where the object has to.
  pub record CanStore (w : World) : Type 0 where
    pub healthy : w.faults ≡ []
    pub tmp : node_at (root ++ tmp_dir ∷ []) w.fs ≡ some dir
    pub no_tmp_dirs : (n : ℕ) → node_at (tmp_place root (env.hex n)) w.fs ≢ some dir
    pub clear :
        (front : FilePath) (x : Text) (rest : FilePath) (f : File)
        → object_at ≡ front ++ x ∷ rest
        → node_at front w.fs ≢ some (file f)
    pub no_dir : node_at object_at w.fs ≢ some dir

  abbrev object_dest : Text
  object_dest = path_join (path_join driver.root bucket) key

  -- The places of a staging file and of the object, for `Succeeds`.
  module _ (n : ℕ) (d : Directory env.cwd driver.root bucket key) where
    abbrev staging : FilePath
    staging = tmp_place root (env.hex n)

    abbrev above : FilePath
    above = root ++ bucket ∷ d.dirs

    in_above : object_at ≡ above ++ d.name ∷ []
    in_above =
        ap (λ (t : FilePath). root ++ bucket ∷ t) d.parts
        ∙ sym (append_assoc root (bucket ∷ d.dirs) (d.name ∷ []))

    staging-ne-nil : staging ≢ []
    staging-ne-nil e =
        omega (arith, ap (length {A = Text}) e, length-append {0} root (tmp_dir ∷ env.hex n ∷ []))

    staging-ne-area : staging ≢ root ++ tmp_dir ∷ []
    staging-ne-area e = omega (
      arith,
      ap (length {A = Text}) e,
      length-append {0} root (tmp_dir ∷ env.hex n ∷ []),
      length-append {0} root (tmp_dir ∷ []),
    )

    staging-ne-object : staging ≢ object_at
    staging-ne-object e =
        object_place-ne-hidden root bucket key (codes "tmp") (env.hex n ∷ []) b (sym e)

    staging-IsApart : IsApart staging [] above
    staging-IsApart front rest e h =
        object_place-ne-hidden root bucket key (codes "tmp") (env.hex n ∷ rest ++ d.name ∷ []) b (
          in_above
          ∙ ap (λ (t : FilePath). t ++ d.name ∷ []) (e ∙ ap (λ (t : FilePath). t ++ rest) h)
          ∙ append_assoc staging rest (d.name ∷ [])
          ∙ append_assoc root (tmp_dir ∷ env.hex n ∷ []) (rest ++ d.name ∷ []))

    -- What `CanStore` says of the tree.
    abbrev IsOpenFor : Fs → Type 0
    IsOpenFor fs =
        ((node_at (root ++ tmp_dir ∷ []) fs ≡ some dir)
          × IsClear [] above fs
          × (node_at object_at fs ≢ some dir))
        × (node_at staging fs ≢ some dir)

    store_at-Surely :
        (body : Stream)
        → Completes body
        → Surely IsOpenFor
            (store env (new_tmp_path driver.root (env.hex n)) object_dest body)
            (λ _ _. Unit)
    store_at-Surely body c =
        store-Surely env (new_tmp_path driver.root (env.hex n)) object_dest staging
          (root ++ tmp_dir ∷ []) object_at above d.name
          (new_tmp_path-place env.cwd driver.root (env.hex n) (hex_names.plain n)
            (hex_names.one_name n))
          (object_path-place env.cwd driver.root allow_at bucket key b k).1 d.place
          (ap parent (sym (append_assoc root (tmp_dir ∷ []) (env.hex n ∷ [])))
            ∙ parent-append (root ++ tmp_dir ∷ []) (env.hex n))
          in_above staging-ne-nil staging-ne-area staging-ne-object staging-IsApart body c

    CanStore-IsOpenFor : (w : World) → CanStore w → IsOpenFor w.fs
    CanStore-IsOpenFor w h = (
      (
        h.tmp,
        IsClear-of [] above w.fs (λ front rest f e.
            let (x, (more, on)) = goes_on rest in
            h.clear front x more f (
              in_above
              ∙ ap (λ (t : FilePath). t ++ d.name ∷ []) e
              ∙ append_assoc front rest (d.name ∷ [])
              ∙ ap (λ (t : FilePath). front ++ t) on)),
        h.no_dir,
      ),
      h.no_tmp_dirs n,
    )
      where
        goes_on :
            (rest : List Text)
            → (x : Text) × ((more : List Text) × (rest ++ d.name ∷ [] ≡ x ∷ more))
        goes_on [] = (d.name, ([], refl))
        goes_on (x ∷ rest) = (x, (rest ++ d.name ∷ [], refl))

  put_new-Surely :
      (w : World) (body : Stream) (content_type : Text) (metadata : Dict Text)
      → CanStore w
      → Completes body
      → Ends
          (put_new env driver object_dest bucket key body content_type metadata)
          w
          (λ r _. r.deduped ≡ false)
          (λ _ _. ⊥)
  unfolding put_new uuid4_hex ◌>>=◌
  put_new-Surely w body content_type metadata h c =
      let d = object-Directory env.cwd driver.root allow_at bucket key b k in
      (Triple-bind (λ _. OnHealthy (λ _. Unit)) (store_at-Surely w.drawn d body c)
          λ p.
            Triple-bind (λ _ _. Unit)
              (record {
                at = λ v _.
                    (Returns-write_sidecar env driver allow_at bucket key b k content_type
                        (env.sha256 p.hashed) p.total metadata).at
                      v tt;
              })
              λ _. Triple-pure _ _ (λ v _. refl)).at
        (record w { drawn = w.drawn + 1 }) (h.healthy, CanStore-IsOpenFor w.drawn d w h)

  -- The condition on the key is met: there is none, or nothing stands in the place of the object.
  abbrev pub IsFree : Option Text → World → Type 0
  IsFree if_none_match w = (if_none_match ≡ none) ⊎ (node_at object_at w.fs ≡ none)

  calm :
      {A : Type 0} {a : A} (w : World) → w.faults ≡ [] → pure a w ≡ (ok a, record w { faults = [] })
  unfolding pure
  calm {A} {a} w healthy =
      ap (λ (answers : List (Option Errno)). (ok a, record w { faults = answers })) healthy

  is_taken-false :
      (if_none_match : Option Text) (w : World)
      → w.faults ≡ []
      → IsFree if_none_match w
      → is_taken env driver if_none_match object_dest w ≡ (ok false, record w { faults = [] })
  unfolding is_taken path_exists pure answered next_fault
  is_taken-false none w healthy h = calm w healthy
  is_taken-false (some x) w healthy (inl e) = cc
  is_taken-false (some x) w healthy (inr absent) = elim (Bool-cases (text_eq x (codes "*"))) [
    | inl star ↦
        rw
          (
            star,
            healthy,
            ap (λ (p : FilePath). node_at p w.fs)
                  (object_path-place env.cwd driver.root allow_at bucket key b k).1
                ∙ absent,
          )
          refl
    | inr unconditional ↦ rw unconditional (calm w healthy)
  ]

  put_free :
      (w : World) (body : Stream) (content_type : Text) (if_none_match : Option Text)
      (metadata : Dict Text)
      → w.faults ≡ []
      → IsFree if_none_match w
      → put env driver bucket key body content_type if_none_match metadata w
        ≡ put_new env driver object_dest bucket key body content_type metadata
            (record w { faults = [] })
  unfolding put ◌>>=◌ lift
  put_free w body content_type if_none_match metadata healthy free =
      rw
        (
          (object_path-place env.cwd driver.root allow_at bucket key b k).0,
          is_taken-false if_none_match w healthy free,
        )
        refl

  stored_new :
      (body : Stream) (condition : Option Text) (old : Option File) (r : PutResult)
      (stored : Option File)
      → r.deduped ≡ false
      → PutOutcome env condition body old r stored
      → (r.deduped ≡ false) × IsNewObject env body r stored
  stored_new body condition old r stored new (inl (star, taken, same)) =
      let clash : true ≡ false = sym taken ∙ new in cc
  stored_new body condition old r stored new (inr h) = h

  -- On a disk that does not fail and on which the object can be stored, `put` of a body that comes to its
  -- end returns, not deduplicated, and the object's file holds exactly the body, with its hash and length
  -- in the answer. The key is a key of the grammar, the condition on it is met, and the random names are
  -- plain names.
  pub put-CanStore :
      (w : World) (body : Stream) (content_type : Text) (if_none_match : Option Text)
      (metadata : Dict Text)
      → CanStore w
      → IsFree if_none_match w
      → Completes body
      → Ends
          (put env driver bucket key body content_type if_none_match metadata)
          w
          (λ r w'. (r.deduped ≡ false) × IsNewObject env body r (file_at object_at w'.fs))
          (λ _ _. ⊥)
  put-CanStore w body content_type if_none_match metadata h free c =
      let (r, w') = put env driver bucket key body content_type if_none_match metadata w in
      let same = put_free w body content_type if_none_match metadata h.healthy free in
      let calmed : CanStore (record w { faults = [] }) = record {
        healthy = refl;
        tmp = h.tmp;
        no_tmp_dirs = h.no_tmp_dirs;
        clear = h.clear;
        no_dir = h.no_dir;
      } in
      weaken-After
        (λ a v (new, outcome).
          stored_new body if_none_match (file_at object_at w.fs) a (file_at object_at v.fs) new
            outcome)
        (λ e v (never, same). never) r w'
        (After-both (λ a _. a.deduped ≡ false) _ (λ _ _. ⊥) _ r w'
          (subst
            (λ (x : Result PutResult × World). After (λ a _. a.deduped ≡ false) (λ _ _. ⊥) x.0 x.1)
            (sym same)
            (put_new-Surely (record w { faults = [] }) body content_type metadata calmed c))
          (put-PutOutcome env driver hex_names allow_at bucket key b k body content_type
            if_none_match metadata w))
