-- ===== src/Http/Keeps.antt =====
-- Handlers that leave a part of the state as it was, whether they succeed or fail.
use aurora_scholar.Prelude.{if◌then◌else◌, ◌≡◌, refl, ◌∙◌, Bool, true, false, Option, none, some}
use aurora_scholar.Http.{
  ApiError, Result, ok, err, Handler, pure, throw, need, throw_if, modify, gets, recover, ◌>>=◌,
}

module _ {S B : Type 0} (part : S → B) where
  unfoldable pub Keeps : {A : Type 0} → Handler S A → Type 0
  Keeps m = (s : S) → part (m s).1 ≡ part s

  after_first :
      {A C : Type 0} (r : Result A) (s1 : S) (f : A → Handler S C)
      → ((a : A) → r ≡ ok a → part (f a s1).1 ≡ part s1)
      → part (((λ (_ : S). (r, s1)) >>= f) s1).1 ≡ part s1
  unfolding ◌>>=◌
  after_first (ok a) s1 f rest = rest a refl
  after_first (err e) s1 f rest = refl

  pub bind-Keeps :
      {A C : Type 0} (m : Handler S A) (f : A → Handler S C)
      → Keeps m
      → ((a : A) → Keeps (f a))
      → Keeps (m >>= f)
  unfolding Keeps ◌>>=◌
  bind-Keeps m f first rest s = after_first (m s).0 (m s).1 f (λ a e. rest a (m s).1) ∙ first s

  -- The rest may use what the step has answered.
  pub need-Keeps :
      {A C : Type 0} (o : Option A) (e : ApiError) (f : A → Handler S C)
      → ((a : A) → o ≡ some a → Keeps (f a))
      → Keeps (need o e >>= f)
  unfolding Keeps ◌>>=◌
  need-Keeps none e f rest s = refl
  need-Keeps (some a) e f rest s = rest a refl s

  pub throw_if-Keeps :
      {C : Type 0} (t : Bool) (e : ApiError) (f : Unit {0} → Handler S C)
      → (t ≡ false → Keeps (f tt))
      → Keeps (throw_if t e >>= f)
  unfolding Keeps ◌>>=◌
  throw_if-Keeps true e f rest s = refl
  throw_if-Keeps false e f rest s = rest refl s

  pub pure-Keeps : {A : Type 0} (a : A) → Keeps (pure a)
  unfolding Keeps pure
  pure-Keeps a s = refl

  pub throw-Keeps : (A : Type 0) (e : ApiError) → Keeps (throw {A = A} e)
  unfolding Keeps throw
  throw-Keeps A e s = refl

  pub gets-Keeps : {A : Type 0} (f : S → A) → Keeps (gets f)
  unfolding Keeps gets
  gets-Keeps f s = refl

  pub modify-Keeps : (f : S → S) → ((s : S) → part (f s) ≡ part s) → Keeps (modify f)
  unfolding Keeps modify
  modify-Keeps f same s = same s

  pub if-Keeps :
      {A : Type 0} (t : Bool) (h k : Handler S A) → Keeps h → Keeps k → Keeps (if t then h else k)
  if-Keeps true h k x y = x
  if-Keeps false h k x y = y

  after_failure :
      {A : Type 0} (r : Result A) (s1 : S) (f : ApiError → Handler S A)
      → ((e : ApiError) → part (f e s1).1 ≡ part s1)
      → part (recover (λ (_ : S). (r, s1)) f s1).1 ≡ part s1
  unfolding recover
  after_failure (ok a) s1 f rest = refl
  after_failure (err e) s1 f rest = rest e

  pub recover-Keeps :
      {A : Type 0} (m : Handler S A) (f : ApiError → Handler S A)
      → Keeps m
      → ((e : ApiError) → Keeps (f e))
      → Keeps (recover m f)
  unfolding Keeps recover
  recover-Keeps m f first rest s = after_failure (m s).0 (m s).1 f (λ e. rest e (m s).1) ∙ first s
