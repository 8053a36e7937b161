-- ===== src/Keys/Delivery.antt =====
-- The way of a key from its challenge to the reader.
use aurora_scholar.Prelude.{
  ℕ, ◌≤◌, ◌+◌, ◌*◌, ◌≡◌, ◌≢◌, refl, Option, some, List, [], length, truthy, truthy-eq-some,
  truthy_of_ne-nil, beq_refl, nat_eq, list_eq, pair_eq, not_ne_of_eq, le→ltb-false, All,
}
use aurora_scholar.Text.{Text}
use aurora_scholar.Http.{ok, ◌>>=◌, pure}
use aurora_scholar.Http.Inversion.{need-bind, gets-bind, modify-bind, pure-ok}
use aurora_scholar.Http.Steps.{bind_step, need_step, gets_step}
use aurora_scholar.JsMap
use aurora_scholar.External.{Wallets, Cipher, IsByte}
use aurora_scholar.Auth.{Challenge}
use aurora_scholar.Database.{ArticleSecret, Prisma}
use aurora_scholar.Guard.{Access, wallet_of}
use aurora_scholar.Grants.Revocation.{IsActive, check_grant-bind, check_grant_complete}
use aurora_scholar.Secrets.{decrypt_article_key, encrypt_article_key}
use aurora_scholar.Secrets.RoundTrip.{decrypt-encrypt_article_key}
use aurora_scholar.Keys.{
  challenge_key, State, set_challenges, key_challenge, check_unexpired, claim_challenge,
  release_key, key_claim,
}
use aurora_scholar.Keys.Claims.{IsSignedClaim}

module _ (p : Prisma) where
  -- A challenge that was sent: only to a reader with an active grant, for five minutes.
  pub record IsChallenged (access : Access) (article_field : Option Text) (nonce : Text)
      (now later : ℕ) (s s' : State p) (sent : Challenge) : Type 0 where
    pub viewer : Text
    pub article_id : Text
    pub viewer_given : truthy (wallet_of access) ≡ some viewer
    pub article_given : truthy article_field ≡ some article_id
    pub active : IsActive (p.grants.find_unique s.tables.grants (article_id, viewer)) now
    pub sent_nonce : sent.nonce ≡ nonce
    pub expiry : sent.expires_at ≡ later + 5 * 60 * 1000
    pub kept :
        s' ≡ set_challenges p s (JsMap.set (challenge_key article_id viewer) sent s.challenges)

  -- A challenge is sent only to a signed-in reader whose grant for the article is active; it is
  -- stored under the pair, lasts five minutes, and the database is as before.
  pub key_challenge_sound :
      (access : Access) (article_field : Option Text) (nonce : Text) (now later : ℕ)
      (s s' : State p) (sent : Challenge)
      → key_challenge p access article_field nonce now later s ≡ (ok sent, s')
      → IsChallenged access article_field nonce now later s s' sent
  unfolding key_challenge
  key_challenge_sound access article_field nonce now later s s' sent e =
      need-bind _ _ _ _ e λ viewer viewer_given e. need-bind _ _ _ _ e λ article_id article_given e.
        gets-bind _ _ _ e λ e. check_grant-bind _ _ _ _ e λ active e. modify-bind _ _ _ e λ e.
          let (same, kept) = pure-ok _ _ e in
          rw (← same, ← kept)
            (record {
              viewer = viewer;
              article_id = article_id;
              viewer_given = viewer_given;
              article_given = article_given;
              active = active;
              sent_nonce = refl;
              expiry = refl;
              kept = refl;
            })

  module _ (w : Wallets) (c : Cipher) where
    -- The claim of a reader who has the challenge, a valid signature and an active grant.
    claim_challenge_complete :
        (viewer article_id nonce signature : Text) (challenge : Challenge) (now : ℕ) (s : State p)
        → article_id ≢ []
        → nonce ≢ []
        → signature ≢ []
        → JsMap.get (challenge_key article_id viewer) s.challenges ≡ some challenge
        → now ≤ challenge.expires_at
        → challenge.nonce ≡ nonce
        → IsSignedClaim p w viewer article_id nonce signature
        → claim_challenge p w c viewer
            (record {
              article_id = some article_id;
              nonce = some nonce;
              signature = some signature;
            })
            now
            s
          ≡ (
            ok article_id,
            set_challenges p s (JsMap.delete (challenge_key article_id viewer) s.challenges),
          )
    unfolding claim_challenge check_unexpired ◌>>=◌
    claim_challenge_complete viewer article_id nonce signature challenge now s ha hn hs found fresh
          same i =
        rw (
          truthy_of_ne-nil article_id ha,
          truthy_of_ne-nil nonce hn,
          truthy_of_ne-nil signature hs,
          found,
          le→ltb-false fresh,
          not_ne_of_eq challenge.nonce nonce same,
          not_ne_of_eq _ _ i.length_64,
          i.parsed,
          i.verified,
        )

    release_key_complete :
        (secret_variable : Option Text) (viewer article_id : Text) (later : ℕ) (s : State p)
        (row : ArticleSecret) (key : List ℕ)
        → IsActive (p.grants.find_unique s.tables.grants (article_id, viewer)) later
        → p.secrets.find_unique s.tables.secrets article_id ≡ some row
        → decrypt_article_key w c secret_variable row.encrypted_key s ≡ (ok key, s)
        → release_key p w c secret_variable viewer article_id later s ≡ (ok (w.to_base64 key), s)
    unfolding release_key
    release_key_complete secret_variable viewer article_id later s row key active secret decrypted =
        gets_step _ _ _ (
          bind_step _ _ _ (check_grant_complete _ later s active) (
            gets_step _ _ _
              (need_step _ _ _ _ secret (bind_step _ _ _ decrypted (unfold pure in refl)))))

    -- A reader with a challenge, whose signature is valid and whose grant is still active when the
    -- claim is answered, receives exactly the key that was encrypted for the article.
    pub challenge_then_claim :
        {T : Type 0} (secret_variable : Option Text) (access : Access)
        (article_id viewer nonce signature : Text) (asked sent_at now later : ℕ) (s s' : State p)
        (challenge : Challenge) (row : ArticleSecret) (iv key : List ℕ) (before after : T)
        → key_challenge p access (some article_id) nonce asked sent_at s ≡ (ok challenge, s')
        → truthy (wallet_of access) ≡ some viewer
        → nonce ≢ []
        → signature ≢ []
        → now ≤ sent_at + 5 * 60 * 1000
        → IsSignedClaim p w viewer article_id nonce signature
        → IsActive (p.grants.find_unique s.tables.grants (article_id, viewer)) later
        → p.secrets.find_unique s.tables.secrets article_id ≡ some row
        → length iv ≡ 12
        → All IsByte iv
        → All IsByte key
        → encrypt_article_key w c secret_variable iv key before ≡ (ok row.encrypted_key, after)
        → key_claim p w c secret_variable access
            (record {
              article_id = some article_id;
              nonce = some nonce;
              signature = some signature;
            })
            now
            later
            s'
          ≡ (
            ok (w.to_base64 key),
            set_challenges p s' (JsMap.delete (challenge_key article_id viewer) s'.challenges),
          )
    unfolding key_claim
    challenge_then_claim sv access article_id viewer nonce signature asked sent_at now later s s'
          challenge row iv key before after e hv hn hs fresh signed active secret h12 iv_bytes
          key_bytes encrypted =
        let i = key_challenge_sound access (some article_id) nonce asked sent_at s s' challenge e in
        let same_viewer : i.viewer ≡ viewer = cc (i.viewer_given, hv) in
        let (given, ha) = truthy-eq-some (some article_id) i.article_id i.article_given in
        let same_article : i.article_id ≡ article_id = cc given in
        let pair = challenge_key article_id viewer in
        let stored : JsMap.get pair s'.challenges ≡ some challenge = rw (
          i.kept,
          same_article,
          same_viewer,
          JsMap.get-set pair pair challenge s.challenges,
          beq_refl pair,
        ) in
        need_step _ _ _ _ hv (
          bind_step _ _ _
            (claim_challenge_complete viewer article_id nonce signature challenge now s'
              (rw (← same_article) ha) hn hs stored (rw i.expiry fresh) i.sent_nonce signed)
            (release_key_complete sv viewer article_id later _ row key (rw i.kept active)
              (rw i.kept secret)
              (decrypt-encrypt_article_key w c sv iv key row.encrypted_key before after _ h12
                iv_bytes key_bytes encrypted)))
