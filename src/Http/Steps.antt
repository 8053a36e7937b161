-- ===== src/Http/Steps.antt =====
-- What a handler does after its first step has returned or failed.
use aurora_scholar.Prelude.{◌≡◌, ap, ◌∙◌, Option, some, Bool, false}
use aurora_scholar.Http.{ApiError, Result, ok, err, Handler, need, gets, throw_if, modify, ◌>>=◌}

module _ {S A B : Type 0} (m : Handler S A) (f : A → Handler S B) (s : S) where
  -- The rest of a handler, over the outcome of its first step.
  abbrev after : Result A × S → Result B × S
  after x = ((λ (_ : S). x) >>= f) x.1

  pub bind_step :
      {s1 : S} {a : A} {r : Result B × S} → m s ≡ (ok a, s1) → f a s1 ≡ r → (m >>= f) s ≡ r
  unfolding ◌>>=◌
  bind_step e rest = ap after e ∙ rest

  pub bind_fail : {s1 : S} {e : ApiError} → m s ≡ (err e, s1) → (m >>= f) s ≡ (err e, s1)
  unfolding ◌>>=◌
  bind_fail h = ap after h

module _ {S A B : Type 0} (f : A → Handler S B) (s : S) {r : Result B × S} where
  pub need_step :
      (o : Option A) (e : ApiError) {a : A} → o ≡ some a → f a s ≡ r → (need o e >>= f) s ≡ r
  unfolding ◌>>=◌
  need_step o e given rest = rw given rest

  pub gets_step : (g : S → A) → f (g s) s ≡ r → (gets g >>= f) s ≡ r
  unfolding ◌>>=◌
  gets_step g rest = rest

module _ {S B : Type 0} (f : Unit {0} → Handler S B) (s : S) {r : Result B × S} where
  pub throw_if_step :
      (x : Bool) (e : ApiError) → x ≡ false → f tt s ≡ r → (throw_if x e >>= f) s ≡ r
  unfolding ◌>>=◌
  throw_if_step x e passes rest = rw passes rest

  pub modify_step : (g : S → S) → f tt (g s) ≡ r → (modify g >>= f) s ≡ r
  unfolding ◌>>=◌
  modify_step g rest = rest
