-- ===== src/Guard/Bearer.antt =====
-- What the gate lets through, and as whom.
use aurora_scholar.Prelude.{
  ℕ, ◌+◌, ◌/◌, ◌≡◌, ◌≢◌, inl, inr, refl, true, Option, none, some, [], ◌∷◌, ◌++◌, All, Bool-cases,
  ◌*◌, ◌∙◌, ltb, if◌then◌else◌, arith, truthy-eq-some, truthy, truthy_of_ne-nil, or_else,
}
use aurora_scholar.Text.{Text, units, span, strip_prefix_ci}
use aurora_scholar.Http.{ok, err, create_error, create_error_text}
use aurora_scholar.External.{Wallets, WebTokens, Verdict, claims, invalid, IsVisible}
use aurora_scholar.Guard.{
  Method, Access, anonymous, signed_in, is_public, bearer_token, require_auth, check_header,
  from_verdict, all_visible,
}
use aurora_scholar.Auth.{token_lifetime, Challenges, VerifyBody, SignedIn, auth_verify}
use aurora_scholar.Auth.SignIn.{auth_verify_sound}
use aurora_scholar.Guard.Routes.{IsOpenRequest, is_public_sound, is_public_complete}

-- A request is let through as `wallet`: its bearer token verifies as the wallet's.
pub record IsBearerOf (jwt : WebTokens) (secret_variable : Option Text) (now : ℕ)
    (header wallet : Text) : Type 0 where
  pub secret : Text
  pub token : Text
  pub configured : truthy secret_variable ≡ some secret
  pub sent : bearer_token header ≡ some token
  pub verdict : jwt.verify token secret now ≡ claims (some wallet)

from_verdict_sound :
    (v : Verdict) (a : Access)
    → from_verdict v ≡ ok a
    → (wallet : Text) × (a ≡ signed_in wallet) × (v ≡ claims (some wallet))
from_verdict_sound (invalid message) a h = cc
from_verdict_sound (claims none) a h = cc
from_verdict_sound (claims (some [])) a h = cc
from_verdict_sound (claims (some (u ∷ t))) a h = (u ∷ t, cc, refl)

anonymous_of : (a : Access) → ok anonymous ≡ ok a → a ≡ anonymous
anonymous_of a h = cc

module _ (jwt : WebTokens) (sv : Option Text) (now : ℕ) where
  check_header_sound :
      (secret found : Option Text) (a : Access)
      → check_header jwt secret now found ≡ ok a
      → (s : Text) × (t : Text) × (w : Text) × (secret ≡ some s)
        × (found ≡ some t)
        × (a ≡ signed_in w)
        × (jwt.verify t s now ≡ claims (some w))
  check_header_sound secret none a h = cc
  check_header_sound none (some t) a h = cc
  check_header_sound (some s) (some t) a h =
      let (w, same, verdict) = from_verdict_sound (jwt.verify t s now) a h in
      (s, t, w, refl, refl, same, verdict)

  pub data Passes (method : Method) (path header : Text) : Access → Type 0 where
    openly : IsOpenRequest path method → Passes method path header anonymous
    by_token :
        (wallet : Text)
        → IsBearerOf jwt sv now header wallet
        → Passes method path header (signed_in wallet)

  -- A request that passes is one of the three open ones, with no wallet attached, or carries a bearer
  -- token that verifies under the configured secret, and the wallet attached is the token's subject.
  pub require_auth_sound :
      (method : Method) (path : Text) (authorization : Option Text) (a : Access)
      → require_auth jwt sv now method path authorization ≡ ok a
      → Passes method path (or_else authorization []) a
  unfolding require_auth
  require_auth_sound method path authorization a h = elim (Bool-cases (is_public method path)) [
    | inl is_open ↦
        rw (anonymous_of a (rw is_open at h)) (openly (is_public_sound method path is_open))
    | inr closed ↦
        let (s, t, w, configured, sent, same, verdict) =
          check_header_sound _ _ a (rw closed at h) in
        rw same (
          by_token w (record {
            secret = s;
            token = t;
            configured = configured;
            sent = sent;
            verdict = verdict;
          }))
  ]

  -- The open requests pass with no wallet attached, whatever header they carry.
  pub require_auth_open :
      (method : Method) (path : Text) (authorization : Option Text)
      → IsOpenRequest path method
      → require_auth jwt sv now method path authorization ≡ ok anonymous
  unfolding require_auth
  require_auth_open method path authorization o = rw (is_public_complete o)

  -- Without an Authorization header every other request is answered 401.
  pub require_auth_closed :
      (method : Method) (path : Text)
      → ¬ (IsOpenRequest path method)
      → require_auth jwt sv now method path none
        ≡ err (create_error "Missing Authorization Bearer token" 401)
  unfolding require_auth bearer_token strip_prefix_ci
  require_auth_closed method path closed = elim (Bool-cases (is_public method path)) [
    | inl is_open ↦ absurd (closed (is_public_sound method path is_open))
    | inr shut ↦ rw shut
  ]

all_visible_lem : (t : Text) → All IsVisible t → all_visible t ≡ true
all_visible_lem [] h = refl
all_visible_lem (u ∷ t) ((_, visible), h) = rw (visible, all_visible_lem t h)

bearer_token_lem :
    (t : Text) → t ≢ [] → All IsVisible t → bearer_token (units "Bearer " ++ t) ≡ some t
unfolding bearer_token strip_prefix_ci span
bearer_token_lem [] ne h = absurd (ne refl)
bearer_token_lem (u ∷ t) ne ((no_space, no_end), h) = rw (no_space, no_end, all_visible_lem t h)

-- A token as `sign` makes it, at a request that is not open.
signed_token_lem :
    (jwt : WebTokens) (now : ℕ) (method : Method) (path secret wallet token : Text)
    (sv : Option Text)
    → ¬ (IsOpenRequest path method)
    → truthy sv ≡ some secret
    → token ≢ []
    → All IsVisible token
    → require_auth jwt sv now method path (some (units "Bearer " ++ token))
      ≡ from_verdict (jwt.verify token secret now)
unfolding require_auth
signed_token_lem jwt now method path secret wallet token sv closed configured ne visible =
    elim (Bool-cases (is_public method path)) [
      | inl is_open ↦ absurd (closed (is_public_sound method path is_open))
      | inr shut ↦ rw (shut, bearer_token_lem token ne visible, configured)
    ]

-- The token of a sign-in that has succeeded opens every request that the allowlist leaves closed, as
-- the wallet that has signed in, for two hours counted in whole seconds; from then on the same
-- request is answered 401.
pub token_opens :
    (w : Wallets) (jwt : WebTokens) (secret_variable : Option Text) (body : VerifyBody)
    (issued now : ℕ) (m m' : Challenges) (s : SignedIn) (method : Method) (path : Text)
    → auth_verify w jwt secret_variable body issued m ≡ (ok s, m')
    → ¬ (IsOpenRequest path method)
    → require_auth jwt secret_variable now method path (some (units "Bearer " ++ s.token)) ≡ (
        if ltb (now / 1000) (issued / 1000 + 2 * 60 * 60)
        then ok (signed_in s.wallet)
        else err (create_error "jwt expired" 401))
token_opens w jwt sv body issued now m m' s method path done closed =
    let i = auth_verify_sound w jwt sv body issued m m' s done in
    let (_, given) = truthy-eq-some body.wallet s.wallet i.wallet_given in
    let answer =
      signed_token_lem jwt now method path i.secret s.wallet _ sv closed i.secret_given
        (jwt.sign-ne-nil i.secret s.wallet token_lifetime issued)
        (jwt.sign-IsVisible i.secret s.wallet token_lifetime issued) in
    rw i.token (
      answer ∙ elim (Bool-cases (ltb (now / 1000) (issued / 1000 + 2 * 60 * 60))) [
        | inl early ↦
            rw
              (
                early,
                jwt.verify-sign i.secret s.wallet token_lifetime issued now (ground arith),
                truthy_of_ne-nil s.wallet given,
              )
              refl
        | inr late ↦
            rw (late, jwt.verify-expired i.secret s.wallet token_lifetime issued now (ground arith))
              (unfold create_error create_error_text in refl)
      ])
