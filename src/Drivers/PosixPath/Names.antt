-- ===== src/Drivers/PosixPath/Names.antt =====
-- A real path and its components determine one another.
use mathlib.Core.List.{reverse, reverse-cons}
use ai_storybook_storage_ser.Base.{
  Text, codes, true, ◌≡◌, ◌≢◌, refl, sym, ap, ◌∙◌, List, [], ◌∷◌, ◌++◌, append_assoc, subst, All,
  All-append, All-weaken, Lacks, text_eq_iff, starts_with, starts_with→, starts_with-append, split,
  split-Lacks, split_at_sep, split-join, join, arith,
}
use ai_storybook_storage_ser.Drivers.PosixPath.{enter, walk, stack_of, resolve, realpath, absolute}

abbrev IsName : Text → Type 0
IsName name = (name ≢ []) × Lacks 47 name

All-reverse {ℓ κ} : {A : Type ℓ} (P : A → Type κ) (xs : List A) → All P xs → All P (reverse xs)
All-reverse P [] _ = tt
All-reverse P (x ∷ xs) (h, hs) =
    rw reverse-cons (All-append P (reverse xs) (x ∷ []) (All-reverse P xs hs) (h, tt))

enter-IsName :
    (stack : List Text) (name : Text)
    → All IsName stack
    → Lacks 47 name
    → All IsName (enter stack name)
unfolding enter
enter-IsName [] name _ lacks = ground (arith, text_eq_iff name [])
enter-IsName (top ∷ stack) name h lacks = ground (arith, text_eq_iff name [])

walk-IsName :
    (stack names : List Text)
    → All IsName stack
    → All (Lacks 47) names
    → All IsName (walk stack names)
unfolding walk
walk-IsName stack [] h _ = h
walk-IsName stack (name ∷ names) h (k, ks) =
    walk-IsName (enter stack name) names (enter-IsName stack name h k) ks

resolve-IsName : (cwd path : Text) → All IsName (resolve cwd path)
unfolding resolve
resolve-IsName cwd path =
    All-reverse IsName (stack_of cwd path)
      (unfold stack_of in walk-IsName [] _ tt (split-Lacks 47 (absolute cwd path)))

slash_free : (xs : List Text) → All IsName xs → All (Lacks 47) xs
slash_free xs h = All-weaken (λ n k. k.1) xs h

join-ne-nil : (x : Text) (xs : List Text) → x ≢ [] → join 47 (x ∷ xs) ≢ []
unfolding join
join-ne-nil [] xs ne = absurd (ne refl)
join-ne-nil (c ∷ x) [] ne = λ e. cc
join-ne-nil (c ∷ x) (y ∷ ys) ne = λ e. cc

join_injective :
    (xs ys : List Text) → All IsName xs → All IsName ys → join 47 xs ≡ join 47 ys → xs ≡ ys
join_injective [] [] _ _ e = refl
join_injective [] (y ∷ ys) _ k e = absurd (join-ne-nil y ys k.0.0 (sym e ∙ unfold join in refl))
join_injective (x ∷ xs) [] h _ e = absurd (join-ne-nil x xs h.0.0 (e ∙ unfold join in refl))
join_injective (x ∷ xs) (y ∷ ys) h k e =
    sym (split-join 47 x xs (slash_free (x ∷ xs) h))
    ∙ ap (split 47) e
    ∙ split-join 47 y ys (slash_free (y ∷ ys) k)

-- A joined text that goes on with a slash behind another has the components of that one in front.
join_extends :
    (xs ys : List Text) (t : Text)
    → All IsName xs
    → All IsName ys
    → join 47 ys ≡ join 47 xs ++ 47 ∷ t
    → (rest : List Text) × (ys ≡ xs ++ rest)
join_extends [] ys t _ _ e = (ys, refl)
join_extends (x ∷ xs) [] t _ _ e =
    absurd (append-ne-nil (join 47 (x ∷ xs)) t (sym e ∙ unfold join in refl))
  where
    append-ne-nil : (s t : Text) → s ++ 47 ∷ t ≢ []
    append-ne-nil [] t = λ h. cc
    append-ne-nil (c ∷ s) t = λ h. cc
join_extends (x ∷ xs) (y ∷ ys) t h k e = (
  split 47 t,
  sym (split-join 47 y ys (slash_free (y ∷ ys) k))
      ∙ ap (split 47) e
      ∙ split_at_sep 47 (join 47 (x ∷ xs)) t
      ∙ ap (λ (p : List Text). p ++ split 47 t) (split-join 47 x xs (slash_free (x ∷ xs) h)),
)

-- Components in front show in the joined text.
extends_join :
    (x : Text) (xs : List Text) (z : Text) (zs : List Text)
    → join 47 (x ∷ xs ++ z ∷ zs) ≡ join 47 (x ∷ xs) ++ 47 ∷ join 47 (z ∷ zs)
unfolding join
extends_join x [] z zs = refl
extends_join x (y ∷ ys) z zs = rw (extends_join y ys z zs) (sym (append_assoc x _ _))

module _ (cwd : Text) where
  pub realpath-injective :
      (p q : Text) → realpath cwd p ≡ realpath cwd q → resolve cwd p ≡ resolve cwd q
  unfolding realpath
  realpath-injective p q e =
      join_injective (resolve cwd p) (resolve cwd q) (resolve-IsName cwd p) (resolve-IsName cwd q)
        (ground arith)

  -- If the real path of `q` starts with that of `p` and a slash, `q` leads to a place below `p`.
  pub realpath_below :
      (p q : Text)
      → starts_with (realpath cwd q) (realpath cwd p ++ codes "/") ≡ true
      → (rest : List Text) × (resolve cwd q ≡ resolve cwd p ++ rest)
  unfolding realpath
  realpath_below p q h =
      let (t, e) = starts_with→ (realpath cwd q) (realpath cwd p ++ codes "/") h in
      join_extends (resolve cwd p) (resolve cwd q) t (resolve-IsName cwd p) (resolve-IsName cwd q)
        (ground (arith, append_assoc (join 47 (resolve cwd p)) (codes "/") t))

  pub below_realpath :
      (p q : Text) (x : Text) (xs : List Text) (z : Text) (zs : List Text)
      → resolve cwd p ≡ x ∷ xs
      → resolve cwd q ≡ x ∷ xs ++ z ∷ zs
      → starts_with (realpath cwd q) (realpath cwd p ++ codes "/") ≡ true
  unfolding realpath
  below_realpath p q x xs z zs ep eq =
      let front : Text = 47 ∷ join 47 (x ∷ xs) in
      let back : Text = join 47 (z ∷ zs) in
      rw (ep, eq, extends_join)
        (subst (λ (t : Text). starts_with t (front ++ codes "/") ≡ true)
          (append_assoc front (codes "/") back) (starts_with-append (front ++ codes "/") back))
