-- ===== src/Web/Session/Ready.antt =====
-- What AuthGate lets through.
use aurora_scholar.Prelude.{
  ◌≡◌, ◌≢◌, refl, ap, List, [], Bool, true, false, ◌&&◌, Option, none, some, if◌then◌else◌,
  Bool-cases, inl, inr, truthy, truthy-eq-some, truthy_of_ne-nil, beq_refl, list_eq, ℕ, nat_eq,
}
use aurora_scholar.Text.{Text}
use aurora_scholar.Http.{ApiError, ok, pure, gets, modify, recover, ◌>>=◌, ◌>>◌}
use aurora_scholar.Http.Inversion.{bind-ok, pure-ok, recover-ok, need-bind, modify-ok, gets-bind}
use aurora_scholar.JsMap
use aurora_scholar.Canonical.{Value}
use aurora_scholar.Json.{prop, string_or}
use aurora_scholar.Web.{Browser, Page, Signer, token_key, get_auth_token, set_auth_token, notify}
use aurora_scholar.Web.Session.{
  fetch_auth_verify, sign_in, Gate, WalletHook, is_some, requires_auth, usable, set_ready, refuse,
  try_sign_in, attempt, authenticate, first_sign_in, run_gate,
}

module _ {b : Browser} {U : Type 0} where
  -- A token is kept, which the next requests carry.
  abbrev pub HasToken : Page b U → Type 0
  HasToken s = (token : Text) × (truthy (JsMap.get token_key s.storage) ≡ some token)

if_true :
    {S : Type 0} (x : Bool) (f : S → S) (s s' : S)
    → x ≡ true
    → (if x then modify f else pure tt) s ≡ (ok tt, s')
    → f s ≡ s'
if_true true f s s' h e = modify-ok f s e
if_true false f s s' h e = cc

if_read :
    {S A : Type 0} (x : Bool) (f : S → Option A) (s s' : S) (o : Option A)
    → x ≡ true
    → (if x then gets f else pure none) s ≡ (ok o, s')
    → (f s ≡ o) × (s ≡ s')
unfolding gets
if_read true f s s' o h e = (cc, cc)
if_read false f s s' o h e = cc

is_some-true : {A : Type 0} (o : Option A) → is_some o ≡ true → (a : A) × (o ≡ some a)
is_some-true none h = cc
is_some-true (some a) h = (a, refl)

module _ (b : Browser) (window : b.has_window ≡ true) {U : Type 0} where
  set_auth_token-stores :
      (token : Text) (s s' : Page b U)
      → truthy (some token) ≡ some token
      → set_auth_token b token s ≡ (ok tt, s')
      → HasToken s'
  unfolding set_auth_token
  set_auth_token-stores token s s' present h =
      let stored = if_true b.has_window _ s s' window h in
      (
        token,
        rw (← stored, JsMap.get-set token_key token_key token s.storage, beq_refl token_key)
            present,
      )

  fetch_auth_verify-stores :
      (wallet : Text) (answer : Option Value) (bytes : List ℕ) (token : Text) (s s' : Page b U)
      → fetch_auth_verify b wallet answer bytes s ≡ (ok token, s')
      → HasToken s'
  unfolding fetch_auth_verify
  fetch_auth_verify-stores wallet answer bytes token s s' h = bind-ok _ _ s h λ res s1 came e.
      need-bind _ _ _ _ e λ json parsed e. bind-ok _ _ s1 e λ u s2 fine e.
        need-bind _ _ _ _ e λ t given e. bind-ok _ _ s2 e λ u s3 stored e.
          let (_, same) = pure-ok _ _ e in
          let (_, present) =
            truthy-eq-some (some (string_or (prop "token" (prop "data" (some json))) [])) t given in
          rw (← same) (set_auth_token-stores t s2 s3 (truthy_of_ne-nil t present) stored)

  sign_in-stores :
      (signer : Signer) (token : Text) (s s' : Page b U)
      → sign_in b signer s ≡ (ok token, s')
      → HasToken s'
  unfolding sign_in
  sign_in-stores signer token s s' h = bind-ok _ _ s h λ ch s1 asked e.
      bind-ok _ _ s1 e λ answer s2 read e.
        need-bind _ _ _ _ e
          λ bytes signed e. fetch_auth_verify-stores signer.address answer bytes token s2 s' e

-- The state of the gate's component does not change what is stored.
module _ (b : Browser) (window : b.has_window ≡ true) where
  refuse-fails : (x : ApiError) (s s' : Page b Gate) → refuse b x s ≢ (ok true, s')
  unfolding notify modify pure ◌>>=◌
  refuse-fails x s s' e = cc

  try_sign_in-stores :
      (signer : Signer) (s s' : Page b Gate) → try_sign_in b signer s ≡ (ok true, s') → HasToken s'
  unfolding try_sign_in recover
  try_sign_in-stores signer s s' h =
      let start = (sign_in b signer >> pure true) s in
      recover-ok start.0 start.1 (refuse b) h
        (λ e. bind-ok _ _ s e λ token s1 signed e.
          let (_, same) = pure-ok _ _ e in
          rw (← same) (sign_in-stores b window signer token s s1 signed))
        (λ x met e. absurd (refuse-fails x start.1 s' e))

  attempt-stores :
      (signer : Option Signer) (busy : Bool) (s s' : Page b Gate)
      → attempt b signer busy s ≡ (ok true, s')
      → HasToken s'
  unfolding pure
  attempt-stores none busy s s' h = cc
  attempt-stores (some signer) true s s' h = cc
  attempt-stores (some signer) false s s' h = bind-ok _ _ s h λ u s1 shown e.
      bind-ok _ _ s1 e λ success s2 tried e. bind-ok _ _ s2 e λ u s3 hidden e.
        let (success_true, same) = pure-ok _ _ e in
        let cleared = modify-ok _ s2 hidden in
        let stored = try_sign_in-stores signer s1 s2 (rw success_true at tried) in
        rw (← same, ← cleared) stored

  authenticate-stores :
      (h : WalletHook) (s s' : Page b Gate) → authenticate b h s ≡ (ok true, s') → HasToken s'
  unfolding authenticate
  authenticate-stores h s s' e =
      gets-bind _ _ _ e λ e. attempt-stores (usable h) s.ui.is_signing_in s s' e

  set_ready-ready :
      (x : Bool) (s s' : Page b Gate)
      → set_ready b x s ≡ (ok tt, s')
      → s'.ui.ready ≡ true
      → x ≡ true
  unfolding modify
  set_ready-ready x s s' h ready = cc (ap (λ r. r.1.ui.ready) h)

  first_sign_in-stores :
      (h : WalletHook) (s s' : Page b Gate)
      → first_sign_in b h false s ≡ (ok tt, s')
      → s'.ui.ready ≡ true
      → HasToken s'
  unfolding first_sign_in
  first_sign_in-stores h s s' e ready = elim (Bool-cases (is_some h.signer)) [
    | inl signs ↦ bind-ok _ _ s (rw signs at e) λ success s1 tried e.
        let marked = set_ready-ready success s1 s' e ready in
        let kept = modify-ok _ s1 e in rw (← kept) (authenticate-stores h s s1 (rw marked at tried))
    | inr cannot ↦
        bind-ok _ _ s (rw cannot at e)
          λ u s1 told e. absurd (cc (set_ready-ready false s1 s' e ready))
  ]

  kept_token :
      (existing : Option Text) (s s1 s' : Page b Gate)
      → get_auth_token b s ≡ (ok existing, s1)
      → is_some (truthy existing) ≡ true
      → set_ready b true s1 ≡ (ok tt, s')
      → HasToken s'
  unfolding get_auth_token
  kept_token existing s s1 s' read present e =
      let (found, same) = if_read b.has_window _ s s1 existing window read in
      let (token, whole) = is_some-true (truthy existing) present in
      let kept = modify-ok _ s1 e in rw (← kept, ← same) (token, rw found whole)

  -- In a browser, when the gate of a page that needs a sign-in opens, a token is stored.
  pub run_gate-ready :
      (pathname : Text) (h : WalletHook) (s s' : Page b Gate)
      → requires_auth pathname ≡ true
      → run_gate b pathname h false s ≡ (ok tt, s')
      → s'.ui.ready ≡ true
      → HasToken s'
  unfolding run_gate
  run_gate-ready pathname h s s' needs e ready =
      elim (Bool-cases (h.connected && is_some h.address)) [
        | inl linked ↦ bind-ok _ _ s (rw (needs, linked) at e) λ existing s1 read e.
            elim (Bool-cases (is_some (truthy existing))) [
              | inl there ↦ kept_token existing s s1 s' read there (rw there at e)
              | inr missing ↦ first_sign_in-stores h s1 s' (rw missing at e) ready
            ]
        | inr apart ↦ absurd (cc (set_ready-ready false s s' (rw (needs, apart) at e) ready))
      ]
