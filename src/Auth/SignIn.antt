-- ===== src/Auth/SignIn.antt =====
-- When a wallet is signed in, and that a challenge serves once.
use aurora_scholar.Prelude.{
  ℕ, ◌≤◌, ◌+◌, ◌*◌, ◌≡◌, refl, Option, none, some, true, length, arith, truthy, beq_refl, beq_ne,
  truthy-eq-some, truthy_of_ne-nil, nat_eq, list_eq, Bool-cases, ltb, le→ltb-false, inl, inr, ◌≢◌,
  [], eq_of_not_ne, not_ne_of_eq,
}
use aurora_scholar.Text.{Text, units, utf8}
use aurora_scholar.Http.{ok, err, Handler, create_error, ◌>>=◌}
use aurora_scholar.Http.Inversion.{gets-bind, pure-ok, modify-bind, need-bind, throw_if-bind}
use aurora_scholar.JsMap
use aurora_scholar.External.{Wallets, WebTokens}
use aurora_scholar.Canonical.{stable_stringify}
use aurora_scholar.Canonical.Messages.{auth_message}
use aurora_scholar.Auth.{
  Challenge, Challenges, VerifyBody, SignedIn, token_lifetime, check_fresh, auth_verify,
  auth_challenge,
}

module _ (w : Wallets) {B P : Type 0} {m' : Challenges} {b : B} where
  check_fresh-bind :
      (wallet : Text) (challenge : Challenge) (now : ℕ) (f : Unit {0} → Handler Challenges B)
      (m : Challenges)
      → (check_fresh w wallet challenge now >>= f) m ≡ (ok b, m')
      → (now ≤ challenge.expires_at → f tt m ≡ (ok b, m') → P)
      → P
  unfolding check_fresh ◌>>=◌
  check_fresh-bind wallet challenge now f m e k = elim (Bool-cases (ltb challenge.expires_at now)) [
    | inl late ↦ cc (rw late at e)
    | inr fresh ↦ k (ground arith) (rw fresh at e)
  ]

module _ (w : Wallets) where
  -- The wallet's key signed the canonical text of this wallet and nonce.
  pub record IsSigned (wallet nonce signature : Text) : Type 0 where
    pub key : w.Key
    pub parsed : w.public_key wallet ≡ some key
    pub length_64 : length (w.from_base64 signature) ≡ 64
    pub verified :
        w.verify (utf8 (stable_stringify (auth_message wallet nonce))) (w.from_base64 signature) key
        ≡ true

  -- What the open challenges and the clock must allow.
  pub record IsOpen (m : Challenges) (now : ℕ) (wallet nonce : Text) : Type 0 where
    pub challenge : Challenge
    pub found : JsMap.get wallet m ≡ some challenge
    pub fresh : now ≤ challenge.expires_at
    pub same_nonce : challenge.nonce ≡ nonce

  module _ (jwt : WebTokens) (secret_variable : Option Text) (body : VerifyBody) (now : ℕ) where
    pub record IsSignedIn (m m' : Challenges) (s : SignedIn) : Type 0 where
      pub nonce : Text
      pub signature : Text
      pub secret : Text
      pub wallet_given : truthy body.wallet ≡ some s.wallet
      pub nonce_given : truthy body.nonce ≡ some nonce
      pub signature_given : truthy body.signature ≡ some signature
      pub secret_given : truthy secret_variable ≡ some secret
      pub opened : IsOpen m now s.wallet nonce
      pub signed : IsSigned s.wallet nonce signature
      pub token : s.token ≡ jwt.sign secret s.wallet token_lifetime now
      pub consumed : m' ≡ JsMap.delete s.wallet m

    -- If a sign-in succeeds then all the fields were given, the wallet had an unexpired challenge with
    -- the nonce, its key signed the canonical message, the token is the wallet's, and the challenge is
    -- gone.
    pub auth_verify_sound :
        (m m' : Challenges) (s : SignedIn)
        → auth_verify w jwt secret_variable body now m ≡ (ok s, m')
        → IsSignedIn m m' s
    unfolding auth_verify
    auth_verify_sound m m' s e = need-bind _ _ _ _ e λ wallet wallet_given e.
        need-bind _ _ _ _ e λ signature signature_given e.
          need-bind _ _ _ _ e λ nonce nonce_given e. gets-bind _ _ _ e λ e.
            need-bind _ _ _ _ e λ challenge found e.
              check_fresh-bind w wallet challenge now _ _ e λ fresh e.
                throw_if-bind _ _ _ _ e λ same_nonce e. throw_if-bind _ _ _ _ e λ length_64 e.
                  need-bind _ _ _ _ e λ key parsed e. throw_if-bind _ _ _ _ e λ verified e.
                    modify-bind _ _ _ e λ e. need-bind _ _ _ _ e λ secret secret_given e.
                      let (same, consumed) = pure-ok _ _ e in
                      rw (← same, ← consumed)
                        (record {
                          nonce = nonce;
                          signature = signature;
                          secret = secret;
                          wallet_given = wallet_given;
                          nonce_given = nonce_given;
                          signature_given = signature_given;
                          secret_given = secret_given;
                          opened = record {
                            challenge = challenge;
                            found = found;
                            fresh = fresh;
                            same_nonce = eq_of_not_ne challenge.nonce nonce same_nonce;
                          };
                          signed = record {
                            key = key;
                            parsed = parsed;
                            length_64 = eq_of_not_ne _ _ length_64;
                            verified = ground arith;
                          };
                          token = refl;
                          consumed = refl;
                        })

  -- With an open challenge, a valid signature and a configured secret the sign-in succeeds; the
  -- challenge is gone.
  pub auth_verify_complete :
      (jwt : WebTokens) (now : ℕ) (m : Challenges) (wallet nonce signature secret : Text)
      → wallet ≢ []
      → nonce ≢ []
      → signature ≢ []
      → secret ≢ []
      → IsOpen m now wallet nonce
      → IsSigned wallet nonce signature
      → auth_verify w jwt
          (some secret)
          (record { wallet = some wallet; signature = some signature; nonce = some nonce })
          now
          m
        ≡ (
          ok (record {
            token = jwt.sign secret wallet token_lifetime now;
            wallet = wallet;
            expires_in = units "2h";
          }),
          JsMap.delete wallet m,
        )
  unfolding auth_verify ◌>>=◌
  auth_verify_complete jwt now m wallet nonce signature secret hw hn hs hk o i = rw (
    truthy_of_ne-nil wallet hw,
    truthy_of_ne-nil nonce hn,
    truthy_of_ne-nil signature hs,
    truthy_of_ne-nil secret hk,
    o.found,
    le→ltb-false o.fresh,
    not_ne_of_eq o.challenge.nonce nonce o.same_nonce,
    not_ne_of_eq _ _ i.length_64,
    i.parsed,
    i.verified,
  )

  -- A challenge serves once: after a sign-in every further attempt for the wallet is refused, until
  -- a new challenge is asked for.
  pub no_replay :
      (jwt : WebTokens) (secret_variable : Option Text) (body again : VerifyBody) (now later : ℕ)
      (m m' : Challenges) (s : SignedIn) (signature nonce : Text)
      → auth_verify w jwt secret_variable body now m ≡ (ok s, m')
      → truthy again.wallet ≡ some s.wallet
      → truthy again.signature ≡ some signature
      → truthy again.nonce ≡ some nonce
      → auth_verify w jwt secret_variable again later m'
        ≡ (err (create_error "No active challenge for wallet" 400), m')
  no_replay jwt sv body again now later m m' s signature nonce e hw hs hn =
      let done = auth_verify_sound jwt sv body now m m' s e in
      let gone : JsMap.get s.wallet m' ≡ none =
        rw (done.consumed, JsMap.get-delete s.wallet s.wallet m, beq_refl s.wallet) in
      unfold auth_verify ◌>>=◌ in rw (hw, hs, hn, gone)

  pub record IsIssued (asked : ℕ) (wallet nonce : Text) (m m' : Challenges) (c : Challenge)
      : Type 0 where
    pub given : wallet ≢ []
    pub sent_nonce : c.nonce ≡ nonce
    pub expiry : c.expires_at ≡ asked + 5 * 60 * 1000
    pub stored : JsMap.get wallet m' ≡ some c
    pub others : (j : Text) → wallet ≢ j → JsMap.get j m' ≡ JsMap.get j m

  auth_challenge_sound :
      (asked : ℕ) (wallet nonce : Text) (m m' : Challenges) (c : Challenge)
      → auth_challenge w (some wallet) nonce asked m ≡ (ok c, m')
      → IsIssued asked wallet nonce m m' c
  unfolding auth_challenge
  auth_challenge_sound asked wallet nonce m m' c e = need-bind _ _ _ _ e λ wallet' given e.
      need-bind _ _ _ _ e λ key parsed e. modify-bind _ _ _ e λ e.
        let (same, set) = pure-ok _ _ e in
        let (same_wallet, ne) = truthy-eq-some (some wallet) wallet' given in
        let back : wallet' ≡ wallet = cc in
        rw (← same, ← set)
          (record {
            given = λ q. ne (cc);
            sent_nonce = refl;
            expiry = refl;
            stored = rw (back, JsMap.get-set wallet wallet _ m, beq_refl wallet);
            others = λ j d. rw (back, JsMap.get-set wallet j _ m, beq_ne wallet j d);
          })

  -- The round trip of a sign-in: within five minutes of asking for a challenge, the wallet that signs
  -- the nonce it was sent gets a token for itself.
  pub challenge_then_verify :
      (jwt : WebTokens) (asked now : ℕ) (m m' : Challenges) (wallet nonce signature secret : Text)
      (c : Challenge)
      → auth_challenge w (some wallet) nonce asked m ≡ (ok c, m')
      → nonce ≢ []
      → signature ≢ []
      → secret ≢ []
      → now ≤ asked + 5 * 60 * 1000
      → IsSigned wallet nonce signature
      → auth_verify w jwt
          (some secret)
          (record { wallet = some wallet; signature = some signature; nonce = some nonce })
          now
          m'
        ≡ (
          ok (record {
            token = jwt.sign secret wallet token_lifetime now;
            wallet = wallet;
            expires_in = units "2h";
          }),
          JsMap.delete wallet m',
        )
  challenge_then_verify jwt asked now m m' wallet nonce signature secret c e hn hs hk fresh signed =
      let i = auth_challenge_sound asked wallet nonce m m' c e in
      auth_verify_complete jwt now m' wallet nonce signature secret i.given hn hs hk
        (record {
          challenge = c;
          found = i.stored;
          fresh = rw i.expiry fresh;
          same_nonce = i.sent_nonce;
        })
        signed
