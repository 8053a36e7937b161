-- ===== src/Http/Inversion.antt =====
-- What a handler's success says of its steps: one rule for each way to begin a handler. Each hands
-- on what the step has established, and the success of the rest.
use aurora_scholar.Prelude.{◌≡◌, refl, ap, Bool, true, false, Option, none, some}
use aurora_scholar.Http.{
  ApiError, Result, ok, err, Handler, pure, need, throw_if, modify, gets, recover, ◌>>=◌,
}

module _ {S A : Type 0} {s' : S} {b : A} where
  pub pure-ok : (a : A) (s : S) → pure a s ≡ (ok b, s') → (a ≡ b) × (s ≡ s')
  unfolding pure
  pure-ok a s h = (cc, cc)

module _ {S : Type 0} {s' : S} where
  pub modify-ok : (g : S → S) (s : S) → modify g s ≡ (ok tt, s') → g s ≡ s'
  unfolding modify
  modify-ok g s h = cc

module _ {S B P : Type 0} {s' : S} {b : B} where
  pub need-bind :
      {A : Type 0} (o : Option A) (e : ApiError) (f : A → Handler S B) (s : S)
      → (need o e >>= f) s ≡ (ok b, s')
      → ((a : A) → o ≡ some a → f a s ≡ (ok b, s') → P)
      → P
  unfolding ◌>>=◌
  need-bind none e f s h k = cc
  need-bind (some a) e f s h k = k a refl h

  pub gets-bind :
      {A : Type 0} (g : S → A) (f : A → Handler S B) (s : S)
      → (gets g >>= f) s ≡ (ok b, s')
      → (f (g s) s ≡ (ok b, s') → P)
      → P
  unfolding ◌>>=◌
  gets-bind g f s h k = k h

  pub throw_if-bind :
      (t : Bool) (e : ApiError) (f : Unit {0} → Handler S B) (s : S)
      → (throw_if t e >>= f) s ≡ (ok b, s')
      → (t ≡ false → f tt s ≡ (ok b, s') → P)
      → P
  unfolding ◌>>=◌
  throw_if-bind true e f s h k = cc
  throw_if-bind false e f s h k = k refl h

  pub modify-bind :
      (g : S → S) (f : Unit {0} → Handler S B) (s : S)
      → (modify g >>= f) s ≡ (ok b, s')
      → (f tt (g s) ≡ (ok b, s') → P)
      → P
  unfolding ◌>>=◌
  modify-bind g f s h k = k h

module _ {S A B P : Type 0} {s' : S} {b : B} where
  first-ok :
      (f : A → Handler S B) (r : Result A) (s1 : S)
      → ((λ (_ : S). (r, s1)) >>= f) s1 ≡ (ok b, s')
      → ((a : A) → r ≡ ok a → f a s1 ≡ (ok b, s') → P)
      → P
  unfolding ◌>>=◌
  first-ok f (ok a) s1 h k = k a refl h
  first-ok f (err x) s1 h k = cc

  -- The rule for a step that is itself a handler.
  pub bind-ok :
      (m : Handler S A) (f : A → Handler S B) (s : S)
      → (m >>= f) s ≡ (ok b, s')
      → ((a : A) (s1 : S) → m s ≡ (ok a, s1) → f a s1 ≡ (ok b, s') → P)
      → P
  unfolding ◌>>=◌
  bind-ok m f s h k = first-ok f (m s).0 (m s).1 h λ a e h. k a (m s).1 (ap (λ r. (r, (m s).1)) e) h

-- Either the computation returned, or its error was met.
pub recover-ok :
    {S A P : Type 0} (r : Result A) (s1 : S) (f : ApiError → Handler S A) {a : A} {s' : S}
    → recover (λ (_ : S). (r, s1)) f s1 ≡ (ok a, s')
    → (◌≡◌ {A = Result A × S} (r, s1) (ok a, s') → P)
    → ((e : ApiError) → r ≡ err e → f e s1 ≡ (ok a, s') → P)
    → P
unfolding recover
recover-ok (ok b) s1 f h k met = k h
recover-ok (err e) s1 f h k met = met e refl h
