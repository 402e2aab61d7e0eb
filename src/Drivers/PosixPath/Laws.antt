-- ===== src/Drivers/PosixPath/Laws.antt =====
-- Where a joined path leads.
use mathlib.Core.List.{reverse, reverse-append, reverse-cons, reverse-reverse}
use ai_storybook_storage_ser.Base.{
  ℕ, Text, codes, false, ◌≡◌, ◌≢◌, refl, sym, ap, ◌∙◌, List, [], ◌∷◌, ◌++◌, append_assoc, last_or,
  All, text_eq, text_eq_iff, starts_with, split, split_at_sep, subst, ◌==◌, arith, Bool-cases, inl,
  inr,
}
use ai_storybook_storage_ser.Drivers.PosixPath.{path_join, enter, walk, absolute, stack_of, resolve}

-- `""` and `.` lead nowhere, `..` leads up.
abbrev pub IsPlain : Text → Type 0
IsPlain name = (name ≢ []) × (name ≢ codes ".") × (name ≢ codes "..")

enter_of_IsPlain :
    (stack : List Text) (name : Text) → IsPlain name → enter stack name ≡ name ∷ stack
unfolding enter
enter_of_IsPlain [] name h =
    ground (arith, text_eq_iff name [], text_eq_iff name (codes "."), text_eq_iff name (codes ".."))
enter_of_IsPlain (top ∷ stack) name h =
    ground (arith, text_eq_iff name [], text_eq_iff name (codes "."), text_eq_iff name (codes ".."))

pub walk_of_IsPlain :
    (stack names : List Text) → All IsPlain names → walk stack names ≡ reverse names ++ stack
unfolding walk
walk_of_IsPlain stack [] _ = refl
walk_of_IsPlain stack (name ∷ names) (h, hs) = rw (
  enter_of_IsPlain stack name h,
  walk_of_IsPlain (name ∷ stack) names hs,
  reverse-cons,
  append_assoc,
)

walk-append : (stack xs ys : List Text) → walk stack (xs ++ ys) ≡ walk (walk stack xs) ys
unfolding walk
walk-append stack [] ys = refl
walk-append stack (x ∷ xs) ys = walk-append (enter stack x) xs ys

walk_nowhere : (stack : List Text) → walk stack ([] ∷ []) ≡ stack
unfolding walk enter text_eq
walk_nowhere [] = refl
walk_nowhere (top ∷ stack) = refl

ends_in_slash :
    (d : ℕ) (a : Text) → a ≢ [] → last_or d a ≡ 47 → (front : Text) × (a ≡ front ++ 47 ∷ [])
ends_in_slash d [] ne h = absurd (ne refl)
ends_in_slash d (c ∷ []) ne h = ([], ground arith)
ends_in_slash d (c ∷ b ∷ a) ne h =
    let (front, e) = ends_in_slash c (b ∷ a) (λ k. cc) h in (c ∷ front, ap (λ (t : Text). c ∷ t) e)

-- The ways in which a relative path is joined to another.
data Joined (a b : Text) : Text → Type 0 where
  bare : a ≡ [] → Joined a b b
  closed : (front : Text) → a ≡ front ++ 47 ∷ [] → Joined a b (front ++ 47 ∷ b)
  open_end : a ≢ [] → Joined a b (a ++ 47 ∷ b)

path_join-Joined : (a b : Text) → starts_with b (codes "/") ≡ false → Joined a b (path_join a b)
unfolding path_join
path_join-Joined a b relative = elim (Bool-cases (text_eq a [])) [
  | inl empty ↦
      let e = (text_eq_iff a []).0 empty in
      rw (relative, empty) (subst (λ t. Joined a b (t ++ b)) (sym e) (bare e))
  | inr named ↦ elim (Bool-cases (last_or 0 a == 47)) [
    | inl slash ↦
        let ne : a ≢ [] = λ h. ground (arith, text_eq_iff a []) in
        let (front, e) = ends_in_slash 0 a ne (ground arith) in
        let spelled : front ++ 47 ∷ b ≡ a ++ b = rw (e, append_assoc) in
        rw (relative, named, slash) (subst (Joined a b) spelled (closed front e))
    | inr other ↦ rw (relative, named, other) (open_end (λ h. ground (arith, text_eq_iff a [])))
  ]
]

walk-Joined :
    (stack : List Text) (a b : Text) {j : Text}
    → Joined a b j
    → walk stack (split 47 j) ≡ walk (walk stack (split 47 a)) (split 47 b)
walk-Joined stack a b (bare e) =
    rw e (ap (λ (s : List Text). walk s (split 47 b)) (sym (unfold split in walk_nowhere stack)))
walk-Joined stack a b (closed front e) =
    rw (e, split_at_sep, split_at_sep, walk-append, walk-append)
      (ap (λ (s : List Text). walk s (split 47 b)) (sym (unfold split in walk_nowhere _)))
walk-Joined stack a b (open_end ne) = rw (split_at_sep, walk-append)

starts_with-Joined :
    (a b : Text) {j : Text}
    → starts_with b (codes "/") ≡ false
    → Joined a b j
    → starts_with j (codes "/") ≡ starts_with a (codes "/")
unfolding starts_with
starts_with-Joined a b relative (bare e) = rw (e, relative)
starts_with-Joined a b relative (closed [] e) = rw e
starts_with-Joined a b relative (closed (c ∷ front) e) = rw e
starts_with-Joined [] b relative (open_end ne) = absurd (ne refl)
starts_with-Joined (c ∷ a) b relative (open_end ne) = refl

-- A joined relative path is entered from the place of the first path.
pub stack_of-path_join :
    (cwd a b : Text)
    → starts_with b (codes "/") ≡ false
    → stack_of cwd (path_join a b) ≡ walk (stack_of cwd a) (split 47 b)
unfolding stack_of absolute
stack_of-path_join cwd a b relative =
    let j = path_join-Joined a b relative in
    let head = starts_with-Joined a b relative j in
    elim (Bool-cases (starts_with a (codes "/"))) [
      | inl rooted ↦ rw (head, rooted) (walk-Joined [] a b j)
      | inr other ↦
          rw (head, other)
            (walk-Joined [] cwd (path_join a b) (path_join-Joined cwd _ (head ∙ other))
              ∙ walk-Joined _ a b j
              ∙ ap (λ (s : List Text). walk s (split 47 b))
                  (sym (walk-Joined [] cwd a (path_join-Joined cwd a other))))
    ]

-- A relative path of plain names adds its names.
pub resolve-path_join :
    (cwd a b : Text)
    → starts_with b (codes "/") ≡ false
    → All IsPlain (split 47 b)
    → resolve cwd (path_join a b) ≡ resolve cwd a ++ split 47 b
unfolding resolve
resolve-path_join cwd a b relative plain = rw (
  stack_of-path_join cwd a b relative,
  walk_of_IsPlain _ _ plain,
  reverse-append,
  reverse-reverse,
)
