-- ===== src/Drivers/Paths/Parents.antt =====
-- The directory that an object stands in: `os.path.dirname` of its path.
use ai_storybook_storage_ser.Base.{
  Text, codes, Bool, false, text_eq, last_or, ◌||◌, ◌==◌, Bool-cases, ◌≡◌, ◌≢◌, refl, sym, ap,
  subst, ◌∙◌, List, [], ◌∷◌, ◌++◌, append_assoc, All, starts_with, split, split_at_sep,
  split_of_Lacks, after_last, after_last-none, after_last-some, Option-cases, inl, inr,
}
use ai_storybook_storage_ser.Validation.KeyGrammar.Grammar.{IsKey, IsBucketName}
use ai_storybook_storage_ser.Validation.KeyGrammar.Parts.{IsKey-relative, IsBucketName-Lacks}
use ai_storybook_storage_ser.Drivers.PosixPath.{path_join, resolve, dirname}
use ai_storybook_storage_ser.Drivers.PosixPath.Laws.{IsPlain, resolve-path_join}
use ai_storybook_storage_ser.Drivers.PosixPath.Dirname.{
  IsOpen, IsOpen-of_Lacks, IsOpen-append, IsOpen-of_split, path_join_of_IsOpen, dirname_of_IsOpen,
}
use ai_storybook_storage_ser.Drivers.Paths.Places.{
  key-IsPlain, IsBucketName-IsPlain, resolve-bucket_root,
}

IsOpen-path_join : (a b : Text) → IsOpen b → IsOpen (path_join a b)
unfolding path_join
IsOpen-path_join a b h = elim (Bool-cases (starts_with b (codes "/"))) [
  | inl rooted ↦ rw rooted h
  | inr relative ↦ elim (Bool-cases (text_eq a [] || (last_or 0 a == 47))) [
    | inl closed ↦ rw (relative, closed) (IsOpen-append a b h)
    | inr inside ↦ rw (relative, inside) (IsOpen-append a (47 ∷ b) (IsOpen-append (47 ∷ []) b h))
  ]
]

-- The names of a key: those of its directories, and the last one.
pub record Directory (cwd root bucket key : Text) : Type 0 where
  pub dirs : List Text
  pub name : Text
  pub parts : split 47 key ≡ dirs ++ name ∷ []
  pub place :
      resolve cwd (dirname (path_join (path_join root bucket) key))
      ≡ resolve cwd root ++ bucket ∷ dirs

All-front : (P : Text → Type 0) (ps : List Text) (x : Text) → All P (ps ++ x ∷ []) → All P ps
All-front P [] x _ = tt
All-front P (p ∷ ps) x (h, hs) = (h, All-front P ps x hs)

relative_front :
    (s t : Text)
    → starts_with (s ++ t) (codes "/") ≡ false
    → s ≢ []
    → starts_with s (codes "/") ≡ false
unfolding starts_with
relative_front [] t h ne = absurd (ne refl)
relative_front (c ∷ s) t h ne = h

pub object-Directory :
    (cwd root : Text) (allow_at : Bool) (bucket key : Text)
    → IsBucketName bucket
    → IsKey allow_at key
    → Directory cwd root bucket key
object-Directory cwd root allow_at bucket key b k =
    let plain = key-IsPlain cwd root allow_at bucket key b k in
    elim (Option-cases (after_last 47 key)) [
      | inl one ↦
          let lacks = (after_last-none 47 key).0 one in
          record {
            dirs = [];
            name = key;
            parts = split_of_Lacks 47 key lacks;
            place =
                ap (λ (p : Text). resolve cwd (dirname p)) joined
                ∙ ap (resolve cwd) (dirname_of_IsOpen bucket_root key open_end lacks)
                ∙ resolve-bucket_root cwd root bucket b;
          }
      | inr (t, e) ↦
          let (stem, whole, lacks) = after_last-some 47 key t e in
          let parts : split 47 key ≡ split 47 stem ++ t ∷ [] =
            ap (split 47) whole
            ∙ split_at_sep 47 stem t
            ∙ ap (λ (p : List Text). split 47 stem ++ p) (split_of_Lacks 47 t lacks) in
          let plain_stem = All-front IsPlain (split 47 stem) t (subst (All IsPlain) parts plain) in
          let stem_open = IsOpen-of_split stem plain_stem in
          let relative_stem =
            relative_front stem (47 ∷ t)
              (subst (λ (x : Text). starts_with x (codes "/") ≡ false) whole relative)
              (not_nil stem stem_open) in
          record {
            dirs = split 47 stem;
            name = t;
            parts = parts;
            place =
                ap (λ (p : Text). resolve cwd (dirname p))
                  (joined
                    ∙ ap (λ (x : Text). bucket_root ++ 47 ∷ x) whole
                    ∙ sym (append_assoc bucket_root (47 ∷ stem) (47 ∷ t)))
                ∙ ap (resolve cwd) (
                    dirname_of_IsOpen (bucket_root ++ 47 ∷ stem) t
                      (IsOpen-append bucket_root (47 ∷ stem)
                        (IsOpen-append (47 ∷ []) stem stem_open))
                      lacks
                    ∙ sym (path_join_of_IsOpen bucket_root stem open_end relative_stem))
                ∙ resolve-path_join cwd bucket_root stem relative_stem plain_stem
                ∙ ap (λ (p : List Text). p ++ split 47 stem) (resolve-bucket_root cwd root bucket b)
                ∙ append_assoc (resolve cwd root) (bucket ∷ []) (split 47 stem);
          }
    ]
  where
    bucket_root : Text
    bucket_root = path_join root bucket

    open_end : IsOpen bucket_root
    open_end =
        IsOpen-path_join root bucket
          (IsOpen-of_Lacks bucket (IsBucketName-Lacks bucket b) (IsBucketName-IsPlain bucket b).0)

    relative : starts_with key (codes "/") ≡ false
    relative = IsKey-relative allow_at key k

    joined : path_join bucket_root key ≡ bucket_root ++ 47 ∷ key
    joined = path_join_of_IsOpen bucket_root key open_end relative

    not_nil : (s : Text) → IsOpen s → s ≢ []
    not_nil [] ([], (d, e, h)) = λ _. cc
    not_nil [] (c ∷ front, (d, e, h)) = λ _. cc
    not_nil (c ∷ s) h = λ e. cc
