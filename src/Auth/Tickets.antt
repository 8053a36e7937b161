-- ===== src/Auth/Tickets.antt =====
-- What the two sign-in handlers promise, apart from how they keep their challenges: a store of tickets,
-- at most one for a wallet, each of which a proof redeems once.
use aurora_scholar.Prelude.{
  ℕ, ◌+◌, ◌≡◌, refl, ◌∙◌, ap, Bool, true, false, not, ◌&&◌, Option, none, some, List, [], ◌∷◌, ◌++◌,
  ltb, length, if◌then◌else◌, ◌==◌, nat_eq, list_eq, truthy, Bool-cases, Option-cases, inl, inr,
}
use aurora_scholar.Text.{Text, units, utf8}
use aurora_scholar.Http.{
  Result, ok, err, pure, need, modify, throw_if, create_error, plain_error, ◌>>=◌, ◌>>◌,
}
use aurora_scholar.JsMap
use aurora_scholar.JsMap.{map_laws}
use aurora_scholar.External.{Wallets, WebTokens}
use aurora_scholar.Canonical.{stable_stringify}
use aurora_scholar.Canonical.Messages.{auth_message}
use aurora_scholar.Auth.{
  Challenge, Challenges, VerifyBody, SignedIn, challenge_lifetime, auth_challenge, auth_verify,
  check_fresh, token_lifetime, get_jwt_secret,
}

-- The specification: the ticket of each wallet.
abbrev pub Tickets : Type 0
Tickets = Text → Option Challenge

abbrev pub put : Text → Option Challenge → Tickets → Tickets
put wallet ticket t k = if wallet == k then ticket else t k

abbrev is_some : {A : Type 0} → Option A → Bool
is_some none = false
is_some (some a) = true

module _ (w : Wallets) where
  abbrev verified_by : Text → List ℕ → Text → Option w.Key → Bool
  verified_by wallet signature nonce none = false
  verified_by wallet signature nonce (some key) =
      length signature == 64
      && w.verify (utf8 (stable_stringify (auth_message wallet nonce))) signature key

  -- Whether the wallet's key signed the canonical text of the wallet and the nonce.
  abbrev pub authentic : (wallet nonce signature : Text) → Bool
  authentic wallet nonce signature =
      verified_by wallet (w.from_base64 signature) nonce (w.public_key wallet)

  abbrev issue_to : Option Text → Text → ℕ → Tickets → Tickets
  issue_to none nonce now t = t
  issue_to (some wallet) nonce now t =
      if is_some (w.public_key wallet)
      then put wallet (some (record { nonce = nonce; expires_at = now + challenge_lifetime })) t
      else t

  -- A ticket for a wallet replaces the one before it.
  abbrev pub issue : Option Text → Text → ℕ → Tickets → Tickets
  issue wallet nonce now t = issue_to (truthy wallet) nonce now t

  -- Who is signed in; a server without a secret signs nobody in.
  abbrev accepted : Text → Option Text → List Text
  accepted wallet none = []
  accepted wallet (some secret) = wallet ∷ []

  -- A ticket is used up by a proof for it, and by any attempt after its expiry.
  abbrev redeem_ticket :
      (wallet nonce signature : Text)
      → Option Text
      → ℕ
      → Tickets
      → Option Challenge
      → List Text × Tickets
  redeem_ticket wallet nonce signature secret now t none = ([], t)
  redeem_ticket wallet nonce signature secret now t (some c) =
      if ltb c.expires_at now
      then ([], put wallet none t)
      else if c.nonce == nonce && authentic wallet nonce signature
      then (accepted wallet secret, put wallet none t)
      else ([], t)

  abbrev redeem_with :
      Option Text → Option Text → Option Text → Option Text → ℕ → Tickets → List Text × Tickets
  redeem_with none signature given secret now t = ([], t)
  redeem_with (some wallet) none given secret now t = ([], t)
  redeem_with (some wallet) (some signature) none secret now t = ([], t)
  redeem_with (some wallet) (some signature) (some nonce) secret now t =
      redeem_ticket wallet nonce signature secret now t (t wallet)

  abbrev pub redeem : (secret : Option Text) → VerifyBody → ℕ → Tickets → List Text × Tickets
  redeem secret body now t =
      redeem_with (truthy body.wallet) (truthy body.signature) (truthy body.nonce) (truthy secret)
        now t

-- The tickets that a map of challenges stands for.
abbrev pub tickets : Challenges → Tickets
tickets m k = JsMap.get k m

-- What a client sees of an attempt, and what it leaves.
abbrev pub observe : Result SignedIn × Challenges → List Text × Tickets
observe (ok s, m) = (s.wallet ∷ [], tickets m)
observe (err e, m) = ([], tickets m)

tickets-set :
    (k : Text) (c : Challenge) (m : Challenges)
    → tickets (JsMap.set k c m) ≡ put k (some c) (tickets m)
tickets-set k c m = λ i j. JsMap.get-set k j c m i

tickets-delete : (k : Text) (m : Challenges) → tickets (JsMap.delete k m) ≡ put k none (tickets m)
tickets-delete k m = λ i j. JsMap.get-delete k j m i

module _ (w : Wallets) where
  auth_challenge-issues :
      (wallet : Option Text) (nonce : Text) (now : ℕ) (m : Challenges)
      → tickets (auth_challenge w wallet nonce now m).1 ≡ issue w wallet nonce now (tickets m)
  unfolding auth_challenge ◌>>=◌
  auth_challenge-issues field nonce now m = elim (Option-cases (truthy field)) [
    | inl missing ↦ rw missing refl
    | inr (wallet, given) ↦ elim (Option-cases (w.public_key wallet)) [
      | inl wrong ↦ rw (given, wrong) refl
      | inr (key, parsed) ↦ rw (given, parsed) (tickets-set wallet _ m)
    ]
  ]

  module _ (jwt : WebTokens) (secret : Option Text) (body : VerifyBody) (now : ℕ)
      (m : Challenges) where
    -- What follows the test of the nonce.
    abbrev proof_of : (wallet nonce signature : Text) → Result SignedIn × Challenges
    proof_of wallet nonce signature =
        (do
          throw_if (not (length (w.from_base64 signature) == 64))
              (create_error "Invalid signature length" 400)
          key ← need (w.public_key wallet) (plain_error "Invalid public key input")
          throw_if
              (not (
                w.verify (utf8 (stable_stringify (auth_message wallet nonce)))
                  (w.from_base64 signature) key))
              (create_error "Invalid signature" 401)
          modify (JsMap.delete wallet)
          found ← get_jwt_secret secret
          pure (record {
            token = jwt.sign found wallet token_lifetime now;
            wallet = wallet;
            expires_in = units "2h";
          }))
          m

    checked :
        (wallet nonce signature : Text)
        → observe (proof_of wallet nonce signature) ≡ (
            if authentic w wallet nonce signature
            then (accepted w wallet (truthy secret), put wallet none (tickets m))
            else ([], tickets m))
    unfolding ◌>>=◌
    checked wallet nonce signature = elim (Bool-cases (length (w.from_base64 signature) == 64)) [
      | inr short ↦ elim (Option-cases (w.public_key wallet)) [
        | inl wrong ↦ rw (short, wrong) refl
        | inr (key, parsed) ↦ rw (short, parsed, short) refl
      ]
      | inl whole ↦ elim (Option-cases (w.public_key wallet)) [
        | inl wrong ↦ rw (whole, wrong) refl
        | inr (key, parsed) ↦
            elim (Bool-cases (
              w.verify (utf8 (stable_stringify (auth_message wallet nonce)))
                (w.from_base64 signature) key)) [
                  | inr forged ↦ rw (whole, parsed, whole, forged) refl
                  | inl signed ↦ elim (Option-cases (truthy secret)) [
                    | inl missing ↦
                        rw (whole, parsed, whole, signed, missing)
                          (ap (λ t. ([], t)) (tickets-delete wallet m))
                    | inr (found, configured) ↦
                        rw (whole, parsed, whole, signed, configured)
                          (ap (λ t. (wallet ∷ [], t)) (tickets-delete wallet m))
                  ]
                ]
      ]
    ]

    auth_verify-redeems :
        observe (auth_verify w jwt secret body now m) ≡ redeem w secret body now (tickets m)
    unfolding auth_verify check_fresh ◌>>=◌
    auth_verify-redeems = elim (Option-cases (truthy body.wallet)) [
      | inl missing ↦ rw missing refl
      | inr (wallet, e1) ↦ elim (Option-cases (truthy body.signature)) [
        | inl missing ↦ rw (e1, missing) refl
        | inr (signature, e2) ↦ elim (Option-cases (truthy body.nonce)) [
          | inl missing ↦ rw (e1, e2, missing) refl
          | inr (nonce, e3) ↦ elim (Option-cases (JsMap.get wallet m)) [
            | inl missing ↦ rw (e1, e2, e3, missing) refl
            | inr (c, e4) ↦ elim (Bool-cases (ltb c.expires_at now)) [
              | inl late ↦ rw (e1, e2, e3, e4, late) (ap (λ t. ([], t)) (tickets-delete wallet m))
              | inr fresh ↦ elim (Bool-cases (c.nonce == nonce)) [
                | inr other ↦ rw (e1, e2, e3, e4, fresh, other) refl
                | inl same ↦ rw (e1, e2, e3, e4, fresh, same) (checked wallet nonce signature)
              ]
            ]
          ]
        ]
      ]
    ]

-- A request to either handler, with the random nonce and the clock of its serving.
pub data AuthRequest : Type 0 where
  asked : Option Text → (nonce : Text) → (now : ℕ) → AuthRequest
  proved : VerifyBody → (now : ℕ) → AuthRequest

module _ (w : Wallets) (jwt : WebTokens) (secret : Option Text) where
  abbrev joined : List Text → List Text × Tickets → List Text × Tickets
  joined first rest = (first ++ rest.0, rest.1)

  -- The requests served one after the other: who was signed in, and the open challenges.
  unfoldable pub serve_auth : List AuthRequest → Challenges → List Text × Tickets
  serve_auth [] m = ([], tickets m)
  serve_auth (asked wallet nonce now ∷ rs) m = serve_auth rs (auth_challenge w wallet nonce now m).1
  serve_auth (proved body now ∷ rs) m =
      let outcome = auth_verify w jwt secret body now m in
      joined (observe outcome).0 (serve_auth rs outcome.1)

  -- The same of the specification.
  unfoldable pub serve_tickets : List AuthRequest → Tickets → List Text × Tickets
  serve_tickets [] t = ([], t)
  serve_tickets (asked wallet nonce now ∷ rs) t = serve_tickets rs (issue w wallet nonce now t)
  serve_tickets (proved body now ∷ rs) t =
      let outcome = redeem w secret body now t in joined outcome.0 (serve_tickets rs outcome.1)

  observe-tickets : (x : Result SignedIn × Challenges) → tickets x.1 ≡ (observe x).1
  observe-tickets (ok s, m) = refl
  observe-tickets (err e, m) = refl

  -- Whatever requests come in whatever order, the handlers sign in exactly the wallets that the store of
  -- tickets signs in, in the same order, and leave the challenges that stand for its tickets.
  pub serve_auth-refines :
      (rs : List AuthRequest) (m : Challenges) → serve_auth rs m ≡ serve_tickets rs (tickets m)
  unfolding serve_auth serve_tickets
  serve_auth-refines [] m = refl
  serve_auth-refines (asked wallet nonce now ∷ rs) m =
      serve_auth-refines rs (auth_challenge w wallet nonce now m).1
      ∙ ap (serve_tickets rs) (auth_challenge-issues w wallet nonce now m)
  serve_auth-refines (proved body now ∷ rs) m =
      let outcome = auth_verify w jwt secret body now m in
      let same = auth_verify-redeems w jwt secret body now m in
      ap (joined (observe outcome).0)
        (serve_auth-refines rs outcome.1 ∙ ap (serve_tickets rs) (observe-tickets outcome))
      ∙ ap (λ x. joined x.0 (serve_tickets rs x.1)) same
