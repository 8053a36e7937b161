-- ===== src/Http.antt =====
-- Errors with a status code and the handlers that throw them
-- (apps/api/src/middleware/error-handler.ts).
pub mod Inversion
pub mod Steps
pub mod Keeps
use aurora_scholar.Prelude.{
  ℕ, String, Bool, true, false, Option, none, some, if◌then◌else◌, ◌==◌, nat_eq, or_else,
}
use aurora_scholar.Text.{Text, units}

-- `ApiError`; `details` is never read by the program.
pub record ApiError : Type 0 where
  pub message : Text
  pub status_code : Option ℕ

-- `new Error(message)`, with no status code. Shut, so that goals show the message as it is written.
unfoldable pub plain_error : String → ApiError
plain_error message = record { message = units message; status_code = none }

unfoldable pub create_error : String → ℕ → ApiError
create_error message code = record { message = units message; status_code = some code }

unfoldable pub create_error_text : Text → ℕ → ApiError
create_error_text message code = record { message = message; status_code = some code }

pub data Result {ℓ} (A : Type ℓ) : Type ℓ where
  ok : A → Result A
  err : ApiError → Result A

-- What the client receives.
pub data Response (A : Type 0) : Type 0 where
  success : A → Response A
  failure : ℕ → Text → Response A

-- `err.statusCode || 500`
abbrev status_of : Option ℕ → ℕ
status_of none = 500
status_of (some code) = if code == 0 then 500 else code

unfoldable pub error_handler : {A : Type 0} → ApiError → Response A
error_handler e =
    failure (status_of e.status_code) (or_else (some e.message) (units "Internal Server Error"))

-- A rejected handler goes to the error handler; one that returns has sent its data.
unfoldable pub async_handler : {A : Type 0} → Result A → Response A
unfolding error_handler
async_handler (ok a) = success a
async_handler (err e) = error_handler e

-- A handler over the server's state: what was written before an error stays written.
abbrev pub Handler : Type 0 → Type 0 → Type 0
Handler S A = S → Result A × S

-- The steps of a handler are shut: `Http.Inversion` and `Http.Steps` say what each does.
module _ {S A : Type 0} where
  unfoldable pub pure : A → Handler S A
  pure a s = (ok a, s)

  unfoldable pub throw : ApiError → Handler S A
  throw e s = (err e, s)

  unfoldable pub gets : (S → A) → Handler S A
  gets f s = (ok (f s), s)

  -- `if (!value) throw e`
  unfoldable pub need : Option A → ApiError → Handler S A
  need none e s = (err e, s)
  need (some a) e s = (ok a, s)

unfoldable pub modify : {S : Type 0} → (S → S) → Handler S (Unit {0})
modify f s = (ok tt, f s)

-- `if (test) throw e`
unfoldable pub throw_if : {S : Type 0} → Bool → ApiError → Handler S (Unit {0})
throw_if true e s = (err e, s)
throw_if false e s = (ok tt, s)

-- Opening this opens the steps too.
infixl 5 ◌>>=◌ ◌>>◌
unfoldable pub ◌>>=◌ : {S A B : Type 0} → Handler S A → (A → Handler S B) → Handler S B
unfolding pure throw gets need modify throw_if
◌>>=◌ m f s = let (r, s') = m s in elim r [ ok a ↦ f a s' | err e ↦ (err e, s') ]

abbrev pub ◌>>◌ : {S A B : Type 0} → Handler S A → Handler S B → Handler S B
m >> k = m >>= λ _. k

-- `try { m } catch (e) { … }`: what `m` wrote stays written.
unfoldable pub recover : {S A : Type 0} → Handler S A → (ApiError → Handler S A) → Handler S A
recover m handler s = let (r, s') = m s in elim r [ ok a ↦ (ok a, s') | err e ↦ handler e s' ]
