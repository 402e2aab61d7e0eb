-- ===== src/Drivers/Paths/Places.antt =====
-- Where the objects, the sidecars and the staging files of valid names stand.
use mathlib.Core.List.{append_cancel_left}
use ai_storybook_storage_ser.Base.{
  ℕ, Text, codes, Bool, false, ◌≡◌, ◌≢◌, refl, sym, ap, ◌∙◌, List, [], ◌∷◌, ◌++◌, append_assoc,
  Bool-cases, text_eq, last_or, inl, inr, ◌==◌, ◌||◌, ◌≤◌, All, All-weaken, Lacks, starts_with,
  split, join, join-split, split_of_Lacks, split-append_Lacks, extend_last, length, length-append,
  arith,
}
use ai_storybook_storage_ser.Errors.{ok}
use ai_storybook_storage_ser.Validation.KeyGrammar.Grammar.{IsSegment, IsKey, IsBucketName}
use ai_storybook_storage_ser.Validation.KeyGrammar.Parts.{
  IsKey-parts, IsKey-relative, IsKey-ne-nil, IsBucketName-Lacks,
}
use ai_storybook_storage_ser.Drivers.PosixPath.{FilePath, path_join, resolve}
use ai_storybook_storage_ser.Drivers.PosixPath.Laws.{IsPlain, resolve-path_join}
use ai_storybook_storage_ser.Drivers.Paths.{object_path, meta_path, meta_dir, tmp_dir, new_tmp_path}
use ai_storybook_storage_ser.Drivers.Paths.Within.{assert_within_extends}

abbrev pub object_place : FilePath → Text → Text → FilePath
object_place root bucket key = root ++ bucket ∷ split 47 key

abbrev pub meta_place : FilePath → Text → Text → FilePath
meta_place root bucket key = root ++ meta_dir ∷ bucket ∷ split 47 (key ++ codes ".json")

abbrev pub tmp_place : FilePath → Text → FilePath
tmp_place root hex = root ++ tmp_dir ∷ hex ∷ []

IsSegment-IsPlain : (allow_at : Bool) (seg : Text) → IsSegment allow_at seg → IsPlain seg
IsSegment-IsPlain allow_at seg h = (h.not_empty, h.not_dot, h.not_dotdot)

pub IsBucketName-IsPlain : (bucket : Text) → IsBucketName bucket → IsPlain bucket
IsBucketName-IsPlain bucket h = (
  λ e. omega (arith, ap (length {A = ℕ}) e, h.long),
  λ e. omega (arith, ap (length {A = ℕ}) e, h.long),
  λ e. omega (arith, ap (length {A = ℕ}) e, h.long),
)

append-cons-ne-nil : (place : FilePath) (name : Text) (rest : FilePath) → place ++ name ∷ rest ≢ []
append-cons-ne-nil [] name rest = λ h. cc
append-cons-ne-nil (p ∷ place) name rest = λ h. cc

relative_of_Lacks : (s : Text) → Lacks 47 s → starts_with s (codes "/") ≡ false
unfolding starts_with
relative_of_Lacks [] _ = refl
relative_of_Lacks (c ∷ s) (h, _) = ground arith

-- A single plain name is entered.
pub resolve-name :
    (cwd dir name : Text)
    → IsPlain name
    → Lacks 47 name
    → resolve cwd (path_join dir name) ≡ resolve cwd dir ++ name ∷ []
resolve-name cwd dir name plain lacks =
    let e = split_of_Lacks 47 name lacks in
    resolve-path_join cwd dir name (relative_of_Lacks name lacks) (rw e (plain, tt))
    ∙ ap (λ (p : List Text). resolve cwd dir ++ p) e

resolve-meta_dir :
    (cwd root : Text) → resolve cwd (path_join root meta_dir) ≡ resolve cwd root ++ meta_dir ∷ []
resolve-meta_dir cwd root =
    resolve-name cwd root meta_dir (ground arith, ground arith, ground arith) (omega arith)

pub resolve-tmp_dir :
    (cwd root : Text) → resolve cwd (path_join root tmp_dir) ≡ resolve cwd root ++ tmp_dir ∷ []
resolve-tmp_dir cwd root =
    resolve-name cwd root tmp_dir (ground arith, ground arith, ground arith) (omega arith)

pub resolve-bucket_root :
    (cwd root bucket : Text)
    → IsBucketName bucket
    → resolve cwd (path_join root bucket) ≡ resolve cwd root ++ bucket ∷ []
resolve-bucket_root cwd root bucket b =
    resolve-name cwd root bucket (IsBucketName-IsPlain bucket b) (IsBucketName-Lacks bucket b)

module _ (cwd root : Text) (allow_at : Bool) (bucket key : Text) (b : IsBucketName bucket)
    (k : IsKey allow_at key) where
  pub key-IsPlain : All IsPlain (split 47 key)
  key-IsPlain = All-weaken (IsSegment-IsPlain allow_at) (split 47 key) (IsKey-parts allow_at key k)

  resolve-object :
      resolve cwd (path_join (path_join root bucket) key)
      ≡ object_place (resolve cwd root) bucket key
  resolve-object =
      resolve-path_join cwd (path_join root bucket) key (IsKey-relative allow_at key k) key-IsPlain
      ∙ ap (λ (p : List Text). p ++ split 47 key) (resolve-bucket_root cwd root bucket b)
      ∙ append_assoc (resolve cwd root) (bucket ∷ []) (split 47 key)

  -- For a bucket name and a key of the grammar `object_path` does not raise, and the path it
  -- returns leads to the place of the object: the root, the bucket, the segments of the key.
  pub object_path-place :
      (object_path cwd root bucket key ≡ ok (path_join (path_join root bucket) key))
      × (resolve cwd (path_join (path_join root bucket) key)
          ≡ object_place (resolve cwd root) bucket key)
  unfolding object_path
  object_path-place =
      let bucket_root = path_join root bucket in
      let passed =
        assert_within_extends cwd bucket_root (path_join bucket_root key)
          (resolve cwd root ++ bucket ∷ []) (split 47 key)
          (append-cons-ne-nil (resolve cwd root) bucket []) (resolve-bucket_root cwd root bucket b)
          (resolve-object ∙ sym (append_assoc (resolve cwd root) (bucket ∷ []) (split 47 key))) in
      (rw passed, resolve-object)

-- A name with at least three more characters behind it is plain.
extend_last-IsPlain :
    (t : Text) (names : List Text)
    → 3 ≤ length t
    → All IsPlain names
    → All IsPlain (extend_last t names)
extend_last-IsPlain t [] long _ = tt
extend_last-IsPlain t (p ∷ []) long (h, _) = (
  (
    λ e. omega (arith, ap (length {A = ℕ}) e, length-append {0} p t),
    λ e. omega (arith, ap (length {A = ℕ}) e, length-append {0} p t),
    λ e. omega (arith, ap (length {A = ℕ}) e, length-append {0} p t),
  ),
  tt,
)
extend_last-IsPlain t (p ∷ q ∷ ps) long (h, hs) = (h, extend_last-IsPlain t (q ∷ ps) long hs)

starts_with-append_relative :
    (s t : Text)
    → starts_with s (codes "/") ≡ false
    → s ≢ []
    → starts_with (s ++ t) (codes "/") ≡ false
unfolding starts_with
starts_with-append_relative [] t h ne = absurd (ne refl)
starts_with-append_relative (c ∷ s) t h ne = h

append-ne-nil : (s t : Text) → s ≢ [] → s ++ t ≢ []
append-ne-nil [] t ne = absurd (ne refl)
append-ne-nil (c ∷ s) t ne = λ e. cc

path_join-append :
    (a b t : Text)
    → starts_with b (codes "/") ≡ false
    → b ≢ []
    → path_join a b ++ t ≡ path_join a (b ++ t)
unfolding path_join
path_join-append a b t relative ne =
    let relative' = starts_with-append_relative b t relative ne in
    elim (Bool-cases (text_eq a [] || (last_or 0 a == 47))) [
      | inl closed ↦ rw (relative, relative', closed) (append_assoc a b t)
      | inr other ↦ rw (relative, relative', other) (append_assoc a (47 ∷ b) t)
    ]

json-Lacks_slash : Lacks 47 (codes ".json")
json-Lacks_slash = omega arith

module _ (cwd root : Text) (allow_at : Bool) (bucket key : Text) (b : IsBucketName bucket)
    (k : IsKey allow_at key) where
  abbrev meta_root : Text
  meta_root = path_join (path_join root meta_dir) bucket

  sidecar-IsPlain : All IsPlain (split 47 (key ++ codes ".json"))
  sidecar-IsPlain = rw (split-append_Lacks 47 (codes ".json") json-Lacks_slash key) (
      extend_last-IsPlain (codes ".json") (split 47 key) (omega arith)
        (key-IsPlain cwd root allow_at bucket key b k))

  resolve-meta_root : resolve cwd meta_root ≡ resolve cwd root ++ meta_dir ∷ bucket ∷ []
  resolve-meta_root =
      resolve-bucket_root cwd (path_join root meta_dir) bucket b
      ∙ ap (λ (p : List Text). p ++ bucket ∷ []) (resolve-meta_dir cwd root)
      ∙ append_assoc (resolve cwd root) (meta_dir ∷ []) (bucket ∷ [])

  resolve-sidecar :
      resolve cwd (path_join meta_root (key ++ codes ".json"))
      ≡ (resolve cwd root ++ meta_dir ∷ bucket ∷ []) ++ split 47 (key ++ codes ".json")
  resolve-sidecar =
      resolve-path_join cwd meta_root (key ++ codes ".json")
        (starts_with-append_relative key (codes ".json") (IsKey-relative allow_at key k)
          (IsKey-ne-nil allow_at key k))
        sidecar-IsPlain
      ∙ ap (λ (p : List Text). p ++ split 47 (key ++ codes ".json")) resolve-meta_root

  -- For a bucket name and a key of the grammar `meta_path` does not raise, and the path it returns
  -- leads to the place of the sidecar: below `.meta`, the bucket and the segments of the key, with
  -- `.json` behind the last.
  pub meta_path-place :
      (meta_path cwd root bucket key ≡ ok (path_join meta_root (key ++ codes ".json")))
      × (resolve cwd (path_join meta_root (key ++ codes ".json"))
          ≡ meta_place (resolve cwd root) bucket key)
  unfolding meta_path
  meta_path-place =
      let passed =
        assert_within_extends cwd meta_root (path_join meta_root (key ++ codes ".json"))
          (resolve cwd root ++ meta_dir ∷ bucket ∷ []) (split 47 (key ++ codes ".json"))
          (append-cons-ne-nil (resolve cwd root) meta_dir (bucket ∷ [])) resolve-meta_root
          resolve-sidecar in
      (
        rw passed,
        resolve-sidecar
            ∙ append_assoc (resolve cwd root) (meta_dir ∷ bucket ∷ [])
                (split 47 (key ++ codes ".json")),
      )

  -- A name next to the sidecar stands below `.meta` too.
  pub sidecar_tmp-place :
      (t : Text)
      → Lacks 47 t
      → 3 ≤ length t
      → (rest : List Text) × (resolve cwd (path_join meta_root (key ++ codes ".json") ++ t)
          ≡ resolve cwd root ++ meta_dir ∷ rest)
  sidecar_tmp-place t lacks long =
      let name = key ++ codes ".json" in
      let relative =
        starts_with-append_relative key (codes ".json") (IsKey-relative allow_at key k)
          (IsKey-ne-nil allow_at key k) in
      let names = extend_last t (split 47 name) in
      let e = split-append_Lacks 47 t lacks name in
      (
        bucket ∷ names,
        ap (resolve cwd) (
              path_join-append meta_root name t relative
                (append-ne-nil key (codes ".json") (IsKey-ne-nil allow_at key k)))
            ∙ resolve-path_join cwd meta_root (name ++ t)
                (starts_with-append_relative name t relative
                  (append-ne-nil key (codes ".json") (IsKey-ne-nil allow_at key k)))
                (rw e (extend_last-IsPlain t (split 47 name) long sidecar-IsPlain))
            ∙ ap (λ (p : List Text). resolve cwd meta_root ++ p) e
            ∙ ap (λ (p : List Text). p ++ names) resolve-meta_root
            ∙ append_assoc (resolve cwd root) (meta_dir ∷ bucket ∷ []) names,
      )

-- A staging file with a plain name stands directly in `.tmp`.
pub new_tmp_path-place :
    (cwd root hex : Text)
    → IsPlain hex
    → Lacks 47 hex
    → resolve cwd (new_tmp_path root hex) ≡ tmp_place (resolve cwd root) hex
unfolding new_tmp_path
new_tmp_path-place cwd root hex plain lacks =
    resolve-name cwd (path_join root tmp_dir) hex plain lacks
    ∙ ap (λ (p : List Text). p ++ hex ∷ []) (resolve-tmp_dir cwd root)
    ∙ append_assoc (resolve cwd root) (tmp_dir ∷ []) (hex ∷ [])

-- The place of an object determines its bucket and its key.
pub object_place-injective :
    (root : FilePath) (bucket key bucket' key' : Text)
    → object_place root bucket key ≡ object_place root bucket' key'
    → (bucket ≡ bucket') × (key ≡ key')
object_place-injective root bucket key bucket' key' e =
    let tails = append_cancel_left root _ _ e in
    let names : split 47 key ≡ split 47 key' = cc in
    (cc, sym (join-split 47 key) ∙ ap (join 47) names ∙ join-split 47 key')

IsBucketName-ne-hidden : (bucket : Text) (t : Text) → IsBucketName bucket → bucket ≢ 46 ∷ t
IsBucketName-ne-hidden [] t b = λ e. cc
IsBucketName-ne-hidden (c ∷ s) t b = λ e. let k = b.chars.0 in ground arith

-- No object stands below `.meta` or `.tmp`.
pub object_place-ne-hidden :
    (root : FilePath) (bucket key t : Text) (rest : FilePath)
    → IsBucketName bucket
    → object_place root bucket key ≢ root ++ (46 ∷ t) ∷ rest
object_place-ne-hidden root bucket key t rest b e =
    IsBucketName-ne-hidden bucket t b
      (ap (last_head bucket) (append_cancel_left root (bucket ∷ split 47 key) ((46 ∷ t) ∷ rest) e))
  where
    last_head : Text → List Text → Text
    last_head d [] = d
    last_head d (x ∷ _) = x
