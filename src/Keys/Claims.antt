-- ===== src/Keys/Claims.antt =====
-- What a reader must show to receive an article's key, and that nobody else does.
use aurora_scholar.Prelude.{
  ℕ, ◌≤◌, ◌≡◌, ◌≢◌, refl, sym, ◌∙◌, true, Option, none, some, List, length, arith, truthy, beq_refl,
  Bool-cases, inl, inr, ltb, nat_eq, list_eq, pair_eq, eq_of_not_ne,
}
use aurora_scholar.Text.{Text, utf8}
use aurora_scholar.Http.{Handler, ok, err, create_error, ◌>>=◌}
use aurora_scholar.Http.Inversion.{
  need-bind, gets-bind, throw_if-bind, modify-bind, pure-ok, bind-ok,
}
use aurora_scholar.Http.Steps.{bind_fail, need_step}
use aurora_scholar.JsMap
use aurora_scholar.External.{Wallets, Cipher}
use aurora_scholar.Canonical.{stable_stringify}
use aurora_scholar.Canonical.Messages.{access_key_message}
use aurora_scholar.Auth.{Challenge}
use aurora_scholar.Database.{AccessGrant, ArticleSecret, Prisma, Tables}
use aurora_scholar.Guard.{Access, wallet_of}
use aurora_scholar.Grants.{revoke_grant}
use aurora_scholar.Grants.Revocation.{IsActive, revoke_grant_sound, check_grant-bind}
use aurora_scholar.Secrets.{decrypt_article_key}
use aurora_scholar.Secrets.RoundTrip.{decrypt_article_key-keeps}
use aurora_scholar.Keys.{
  challenge_key, ClaimBody, State, set_challenges, check_unexpired, claim_challenge, release_key,
  key_claim,
}

module _ (p : Prisma) {B P : Type 0} {s' : State p} {b : B} where
  check_unexpired-bind :
      (key : Text) (challenge : Challenge) (now : ℕ) (f : Unit {0} → Handler (State p) B)
      (s : State p)
      → (check_unexpired p key challenge now >>= f) s ≡ (ok b, s')
      → (now ≤ challenge.expires_at → f tt s ≡ (ok b, s') → P)
      → P
  unfolding check_unexpired ◌>>=◌
  check_unexpired-bind key challenge now f s e k =
      elim (Bool-cases (ltb challenge.expires_at now)) [
        | inl late ↦ cc (rw late at e)
        | inr fresh ↦ k (ground arith) (rw fresh at e)
      ]

module _ (p : Prisma) (w : Wallets) where
  -- The reader's key signed the canonical text of this reader, article and nonce.
  pub record IsSignedClaim (viewer article_id nonce signature : Text) : Type 0 where
    pub key : w.Key
    pub parsed : w.public_key viewer ≡ some key
    pub length_64 : length (w.from_base64 signature) ≡ 64
    pub verified :
        w.verify
          (utf8 (stable_stringify (access_key_message viewer article_id nonce)))
          (w.from_base64 signature)
          key
        ≡ true

  -- A challenge that the reader has met, and what is left of the state.
  pub record IsMet (viewer : Text) (body : ClaimBody) (now : ℕ) (s s' : State p) (article_id : Text)
      : Type 0 where
    pub nonce : Text
    pub signature : Text
    pub article_given : truthy body.article_id ≡ some article_id
    pub nonce_given : truthy body.nonce ≡ some nonce
    pub signature_given : truthy body.signature ≡ some signature
    pub challenge : Challenge
    pub found : JsMap.get (challenge_key article_id viewer) s.challenges ≡ some challenge
    pub fresh : now ≤ challenge.expires_at
    pub same_nonce : challenge.nonce ≡ nonce
    pub signed : IsSignedClaim viewer article_id nonce signature
    pub consumed :
        s' ≡ set_challenges p s (JsMap.delete (challenge_key article_id viewer) s.challenges)

  claim_challenge_sound :
      (c : Cipher) (viewer : Text) (body : ClaimBody) (now : ℕ) (s s' : State p) (article_id : Text)
      → claim_challenge p w c viewer body now s ≡ (ok article_id, s')
      → IsMet viewer body now s s' article_id
  unfolding claim_challenge
  claim_challenge_sound c viewer body now s s' article_id e =
      need-bind _ _ _ _ e λ article_id' article_given e. need-bind _ _ _ _ e λ nonce nonce_given e.
        need-bind _ _ _ _ e λ signature signature_given e. gets-bind _ _ _ e λ e.
          need-bind _ _ _ _ e λ challenge found e.
            check_unexpired-bind p (challenge_key article_id' viewer) challenge now _ _ e λ fresh e.
              throw_if-bind _ _ _ _ e λ same_nonce e. throw_if-bind _ _ _ _ e λ length_64 e.
                need-bind _ _ _ _ e λ key parsed e. throw_if-bind _ _ _ _ e λ verified e.
                  modify-bind _ _ _ e λ e.
                    let (same, consumed) = pure-ok _ _ e in
                    rw (← same, ← consumed)
                      (record {
                        nonce = nonce;
                        signature = signature;
                        article_given = article_given;
                        nonce_given = nonce_given;
                        signature_given = signature_given;
                        challenge = challenge;
                        found = found;
                        fresh = fresh;
                        same_nonce = eq_of_not_ne challenge.nonce nonce same_nonce;
                        signed = record {
                          key = key;
                          parsed = parsed;
                          length_64 = eq_of_not_ne _ _ length_64;
                          verified = ground arith;
                        };
                        consumed = refl;
                      })

  -- Without a challenge for the pair a claim is refused.
  unanswered :
      (c : Cipher) (viewer : Text) (body : ClaimBody) (now : ℕ) (s : State p)
      (article_id nonce signature : Text)
      → truthy body.article_id ≡ some article_id
      → truthy body.nonce ≡ some nonce
      → truthy body.signature ≡ some signature
      → JsMap.get (challenge_key article_id viewer) s.challenges ≡ none
      → claim_challenge p w c viewer body now s ≡ (err (create_error "No active challenge" 400), s)
  unfolding claim_challenge ◌>>=◌
  unanswered c viewer body now s article_id nonce signature ha hn hs gone = rw (ha, hn, hs, gone)

  module _ (c : Cipher) (secret_variable : Option Text) where
    -- What stands behind a key that was sent.
    pub record IsClaimed (access : Access) (body : ClaimBody) (now later : ℕ) (s s' : State p)
        (sent : Text) : Type 0 where
      pub viewer : Text
      pub article_id : Text
      pub viewer_given : truthy (wallet_of access) ≡ some viewer
      pub met : IsMet viewer body now s s' article_id
      pub active : IsActive (p.grants.find_unique s.tables.grants (article_id, viewer)) later
      pub row : ArticleSecret
      pub secret : p.secrets.find_unique s.tables.secrets article_id ≡ some row
      pub key_bytes : List ℕ
      pub decrypted :
          decrypt_article_key w c secret_variable row.encrypted_key s' ≡ (ok key_bytes, s')
      pub encoded : sent ≡ w.to_base64 key_bytes

    -- If a key is sent then the reader is signed in, has met a fresh challenge for the article by
    -- signing the canonical message, held a grant that was neither revoked nor expired after that,
    -- and the key is the decryption of the article's; the challenge is gone and the database as before.
    pub key_claim_sound :
        (access : Access) (body : ClaimBody) (now later : ℕ) (s s' : State p) (sent : Text)
        → key_claim p w c secret_variable access body now later s ≡ (ok sent, s')
        → IsClaimed access body now later s s' sent
    unfolding key_claim release_key
    key_claim_sound access body now later s s' sent e = need-bind _ _ _ _ e λ viewer viewer_given e.
        bind-ok _ _ s e λ article_id s1 claimed e.
          let met = claim_challenge_sound c viewer body now s s1 article_id claimed in
          gets-bind _ _ _ e λ e. check_grant-bind _ _ _ _ e λ active e. gets-bind _ _ _ e λ e.
            need-bind _ _ _ _ e λ row secret e. bind-ok _ _ s1 e λ key_bytes s2 decrypted e.
              let (encoded, end) = pure-ok _ _ e in
              let same =
                decrypt_article_key-keeps w c secret_variable row.encrypted_key key_bytes s1 s2
                  decrypted in
              let there : s1 ≡ s' = same ∙ end in
              rw (← there) (record {
                viewer = viewer;
                article_id = article_id;
                viewer_given = viewer_given;
                met = met;
                active = rw met.consumed at active;
                row = row;
                secret = rw met.consumed at secret;
                key_bytes = key_bytes;
                decrypted = rw (← same) at decrypted;
                encoded = sym encoded;
              })

    -- A challenge serves once: after a key has been sent, every further claim of the reader for the
    -- article is refused until a new challenge is asked for.
    pub claim_once :
        (access : Access) (body again : ClaimBody) (now later moment after : ℕ) (s s' : State p)
        (sent viewer article_id nonce signature : Text)
        → key_claim p w c secret_variable access body now later s ≡ (ok sent, s')
        → truthy (wallet_of access) ≡ some viewer
        → truthy body.article_id ≡ some article_id
        → truthy again.article_id ≡ some article_id
        → truthy again.nonce ≡ some nonce
        → truthy again.signature ≡ some signature
        → key_claim p w c secret_variable access again moment after s'
          ≡ (err (create_error "No active challenge" 400), s')
    unfolding key_claim
    claim_once access body again now later moment after s s' sent viewer article_id nonce signature
          e hv hb ha hn hs =
        let done = key_claim_sound access body now later s s' sent e in
        let same_viewer : done.viewer ≡ viewer = cc (done.viewer_given, hv) in
        let same_article : done.article_id ≡ article_id = cc (done.met.article_given, hb) in
        let key = challenge_key article_id viewer in
        let gone : JsMap.get key s'.challenges ≡ none = rw (
          done.met.consumed,
          same_viewer,
          same_article,
          JsMap.get-delete key key s.challenges,
          beq_refl key,
        ) in
        need_step _ _ _ _ hv (
          bind_fail _ _ _
            (unanswered c viewer again moment s' article_id nonce signature ha hn hs gone))

    -- A reader whose grant has been revoked gets no key, whatever challenge and signature are shown.
    pub revoked_no_key :
        (owner access : Access) (body : ClaimBody) (article_id viewer : Text)
        (expires_in : Option Text) (time now later : ℕ) (t : Tables p) (g : AccessGrant)
        (s s' : State p) (sent : Text)
        → revoke_grant p owner
            (record {
              article_id = some article_id;
              viewer_wallet = some viewer;
              expires_in = expires_in;
            })
            time
            t
          ≡ (ok g, s.tables)
        → truthy (wallet_of access) ≡ some viewer
        → truthy body.article_id ≡ some article_id
        → key_claim p w c secret_variable access body now later s ≢ (ok sent, s')
    revoked_no_key owner access body article_id viewer expires_in time now later t g s s' sent r hv
          hb e =
        let done = key_claim_sound access body now later s s' sent e in
        let revoked = revoke_grant_sound p owner article_id viewer expires_in time t s.tables g r in
        let same_viewer : done.viewer ≡ viewer = cc (done.viewer_given, hv) in
        let same_article : done.article_id ≡ article_id = cc (done.met.article_given, hb) in
        let at : p.grants.find_unique s.tables.grants (article_id, viewer)
            ≡ some done.active.grant =
          rw (← same_viewer, ← same_article) done.active.row in
        let same_grant : g ≡ done.active.grant = cc (at, revoked.stored) in
        cc (revoked.revoked, rw (← same_grant) at done.active.not_revoked)
