-- ===== src/Drivers/FileSystem/Triple.antt =====
-- Total correctness of actions: from a world with `P` an action returns with `Q` or raises with `E`.
use ai_storybook_storage_ser.Base.{Bool, true, false, ◌≡◌, refl, if◌then◌else◌}
use ai_storybook_storage_ser.Errors.{Exn, Errno, Result, ok, err}
use ai_storybook_storage_ser.Drivers.FileSystem.Monad.{
  World, Io, pure, raise, lift, gets, ◌>>=◌, continue, finally, close_with, except_os_error,
  recover, unless_done, clean_up,
}

module _ {A : Type 0} where
  abbrev pub After : (A → World → Type 0) → (Exn → World → Type 0) → Result A → World → Type 0
  After Q E (ok a) w = Q a w
  After Q E (err e) w = E e w

  -- How the action ends that starts in the world `w`.
  abbrev pub Ends : Io A → World → (A → World → Type 0) → (Exn → World → Type 0) → Type 0
  Ends m w Q E = After Q E (m w).0 (m w).1

  pub record Triple (P : World → Type 0) (m : Io A) (Q : A → World → Type 0)
      (E : Exn → World → Type 0) : Type 0 where
    pub at : (w : World) → P w → After Q E (m w).0 (m w).1

  -- The action leaves `P` as it is, whatever happens.
  abbrev pub Keeps : (World → Type 0) → Io A → Type 0
  Keeps P m = Triple P m (λ _. P) (λ _. P)

  pub Triple-pure :
      {P : World → Type 0} (Q : A → World → Type 0) {E : Exn → World → Type 0} (a : A)
      → ((w : World) → P w → Q a w)
      → Triple P (pure a) Q E
  unfolding pure
  Triple-pure Q a h = record { at = h }

  pub Triple-raise :
      {P : World → Type 0} {Q : A → World → Type 0} (E : Exn → World → Type 0) (e : Exn)
      → ((w : World) → P w → E e w)
      → Triple P (raise e) Q E
  unfolding raise
  Triple-raise E e h = record { at = h }

  pub Keeps-pure : {P : World → Type 0} (a : A) → Keeps P (pure a)
  unfolding pure
  Keeps-pure a = record { at = λ w h. h }

  pub Keeps-raise : {P : World → Type 0} (e : Exn) → Keeps P (raise e)
  unfolding raise
  Keeps-raise e = record { at = λ w h. h }

  pub Keeps-lift : {P : World → Type 0} (r : Result A) → Keeps P (lift r)
  unfolding lift
  Keeps-lift (ok a) = record { at = λ w h. h }
  Keeps-lift (err e) = record { at = λ w h. h }

  pub Keeps-gets : {P : World → Type 0} (f : World → A) → Keeps P (gets f)
  unfolding gets
  Keeps-gets f = record { at = λ w h. h }

  pub Keeps-if :
      {P : World → Type 0} (b : Bool) (m n : Io A)
      → Keeps P m
      → Keeps P n
      → Keeps P (if b then m else n)
  Keeps-if true m n h k = h
  Keeps-if false m n h k = k

  pub weaken-After :
      {Q Q' : A → World → Type 0} {E E' : Exn → World → Type 0}
      → ((a : A) (w : World) → Q a w → Q' a w)
      → ((e : Exn) (w : World) → E e w → E' e w)
      → (r : Result A) (w : World) → After Q E r w
      → After Q' E' r w
  weaken-After f g (ok a) w h = f a w h
  weaken-After f g (err e) w h = g e w h

  pub After-both :
      (Q Q' : A → World → Type 0) (E E' : Exn → World → Type 0) (r : Result A) (w : World)
      → After Q E r w
      → After Q' E' r w
      → After (λ a v. Q a v × Q' a v) (λ e v. E e v × E' e v) r w
  After-both Q Q' E E' (ok a) w h k = (h, k)
  After-both Q Q' E E' (err e) w h k = (h, k)

  pub Triple-weaken :
      {P P' : World → Type 0} {Q Q' : A → World → Type 0} {E E' : Exn → World → Type 0} {m : Io A}
      → ((w : World) → P' w → P w)
      → ((a : A) (w : World) → Q a w → Q' a w)
      → ((e : Exn) (w : World) → E e w → E' e w)
      → Triple P m Q E
      → Triple P' m Q' E'
  Triple-weaken {m = m} pre post raised t = record {
    at = λ w h. weaken-After post raised (m w).0 (m w).1 (t.at w (pre w h));
  }

module _ {A B : Type 0} where
  continue-After :
      (f : A → Io B) (Q : A → World → Type 0) (R : B → World → Type 0) (E : Exn → World → Type 0)
      → ((a : A) → Triple (Q a) (f a) R E)
      → (r : Result A) (w : World) → After Q E r w
      → After R E (continue r f w).0 (continue r f w).1
  continue-After f Q R E tf (ok a) w h = (tf a).at w h
  continue-After f Q R E tf (err e) w h = h

  pub Triple-bind :
      {P : World → Type 0} {m : Io A} {f : A → Io B} (Q : A → World → Type 0)
      {R : B → World → Type 0} {E : Exn → World → Type 0}
      → Triple P m Q E
      → ((a : A) → Triple (Q a) (f a) R E)
      → Triple P (m >>= f) R E
  unfolding ◌>>=◌
  Triple-bind {m} {f} Q {R} {E} tm tf = record {
    at = λ w h. continue-After f Q R E tf (m w).0 (m w).1 (tm.at w h);
  }

  -- A pure step that is known to succeed.
  pub Triple-bind-lift :
      {P : World → Type 0} (r : Result A) (a : A) (f : A → Io B) {R : B → World → Type 0}
      {E : Exn → World → Type 0}
      → r ≡ ok a
      → Triple P (f a) R E
      → Triple P (lift r >>= f) R E
  unfolding ◌>>=◌ lift
  Triple-bind-lift r a f e t = record { at = λ w h. rw e (t.at w h) }

  -- A pure step that may raise, which changes nothing.
  pub Triple-bind-checked :
      {P : World → Type 0} (r : Result A) (f : A → Io B) {R : B → World → Type 0}
      {E : Exn → World → Type 0}
      → ((e : Exn) (w : World) → P w → E e w)
      → ((a : A) → r ≡ ok a → Triple P (f a) R E)
      → Triple P (lift r >>= f) R E
  unfolding ◌>>=◌ lift
  Triple-bind-checked (ok a) f pass t = record { at = λ w h. (t a refl).at w h }
  Triple-bind-checked (err e) f pass t = record { at = λ w h. pass e w h }

  pub Keeps-bind :
      {P : World → Type 0} {m : Io A} {f : A → Io B}
      → Keeps P m
      → ((a : A) → Keeps P (f a))
      → Keeps P (m >>= f)
  Keeps-bind {P} tm tf = Triple-bind (λ _. P) tm tf

module _ {A : Type 0} where
  close-After :
      (f : Io (Unit {0})) (Q : A → World → Type 0) (E : Exn → World → Type 0)
      → ((a : A) → Triple (Q a) f (λ _. Q a) E)
      → ((e : Exn) → Triple (E e) f (λ _. E e) E)
      → (r : Result A) (w : World) → After Q E r w
      → After Q E (close_with r (f w).0) (f w).1
  close-After f Q E tq te (ok a) w h = go (f w).0 ((tq a).at w h)
    where
      go :
          (c : Result (Unit {0}))
          → After (λ _. Q a) E c (f w).1
          → After Q E (close_with (ok a) c) (f w).1
      go (ok _) k = k
      go (err e) k = k
  close-After f Q E tq te (err e) w h = go (f w).0 ((te e).at w h)
    where
      go :
          (c : Result (Unit {0}))
          → After (λ _. E e) E c (f w).1
          → After Q E (close_with (err e) c) (f w).1
      go (ok _) k = k
      go (err e') k = k

  pub Triple-finally :
      {P : World → Type 0} {m : Io A} {f : Io (Unit {0})} {Q : A → World → Type 0}
      {E : Exn → World → Type 0}
      → Triple P m Q E
      → ((a : A) → Triple (Q a) f (λ _. Q a) E)
      → ((e : Exn) → Triple (E e) f (λ _. E e) E)
      → Triple P (finally m f) Q E
  unfolding finally
  Triple-finally {m} {f} {Q} {E} tm tq te = record {
    at = λ w h. close-After f Q E tq te (m w).0 (m w).1 (tm.at w h);
  }

  recover-After :
      (h : Errno → Io A) (Q : A → World → Type 0) (E E' : Exn → World → Type 0)
      → ((n : Errno) → Triple (E (Exn.os_error n)) (h n) Q E')
      → ((e : Exn) (w : World) → E e w → E' e w)
      → (r : Result A) (w : World) → After Q E r w
      → After Q E' (recover r h w).0 (recover r h w).1
  recover-After h Q E E' th pass (ok a) w k = k
  recover-After h Q E E' th pass (err (Exn.os_error n)) w k = (th n).at w k
  recover-After h Q E E' th pass (err e) w k = pass e w k

  pub Triple-except :
      {P : World → Type 0} {m : Io A} {h : Errno → Io A} {Q : A → World → Type 0}
      {E E' : Exn → World → Type 0}
      → Triple P m Q E
      → ((n : Errno) → Triple (E (Exn.os_error n)) (h n) Q E')
      → ((e : Exn) (w : World) → E e w → E' e w)
      → Triple P (except_os_error m h) Q E'
  unfolding except_os_error
  Triple-except {m} {h} {Q} {E} {E'} tm th pass = record {
    at = λ w k. recover-After h Q E E' th pass (m w).0 (m w).1 (tm.at w k);
  }

  pub Keeps-except :
      {P : World → Type 0} {m : Io A} {h : Errno → Io A}
      → Keeps P m
      → ((n : Errno) → Keeps P (h n))
      → Keeps P (except_os_error m h)
  Keeps-except {P} tm th = Triple-except {E = λ _. P} tm th (λ e w k. k)

  clean-After :
      (f : Io (Unit {0})) (Q : A → World → Type 0) (E : Exn → World → Type 0)
      → ((e : Exn) → Triple (E e) f (λ _. E e) E)
      → (r : Result A) (w : World) → After Q E r w
      → After Q E (clean_up r f w).0 (clean_up r f w).1
  clean-After f Q E te (ok a) w h = h
  clean-After f Q E te (err e) w h = go (f w).0 ((te e).at w h)
    where
      go :
          (c : Result (Unit {0}))
          → After (λ _. E e) E c (f w).1
          → After Q E (close_with (err e) c) (f w).1
      go (ok _) k = k
      go (err e') k = k

  pub Triple-unless_done :
      {P : World → Type 0} {m : Io A} {f : Io (Unit {0})} {Q : A → World → Type 0}
      {E : Exn → World → Type 0}
      → Triple P m Q E
      → ((e : Exn) → Triple (E e) f (λ _. E e) E)
      → Triple P (unless_done m f) Q E
  unfolding unless_done
  Triple-unless_done {m} {f} {Q} {E} tm te = record {
    at = λ w h. clean-After f Q E te (m w).0 (m w).1 (tm.at w h);
  }
