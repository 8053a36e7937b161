-- ===== src/Publish/Sharing.antt =====
-- From the publication of a private article to the reader who opens it.
use aurora_scholar.Prelude.{
  subst, ℕ, ◌≤◌, ◌+◌, ◌*◌, ◌≡◌, ◌≢◌, refl, false, Option, none, some, [], length, truthy, All,
}
use aurora_scholar.Text.{Text}
use aurora_scholar.Http.{ok}
use aurora_scholar.JsMap
use aurora_scholar.External.{IsByte}
use aurora_scholar.Auth.{Challenge}
use aurora_scholar.Database.{AccessGrant, Prisma, Tables}
use aurora_scholar.Guard.{Access, wallet_of}
use aurora_scholar.Expiration.{calculate_expiration, is_expired}
use aurora_scholar.Grants.{create_grant}
use aurora_scholar.Grants.Revocation.{create_grant_sound}
use aurora_scholar.Keys.{challenge_key, State, set_challenges, key_challenge, key_claim}
use aurora_scholar.Keys.Claims.{IsSignedClaim}
use aurora_scholar.Keys.Delivery.{challenge_then_claim}
use aurora_scholar.Publish.{
  PublishBody, EncryptedPayload, Published, Sealed, sealed, sealed_parts, Server, Moment,
  prepare_publish,
}
use aurora_scholar.Publish.Guards.{IsChosen}
use aurora_scholar.Publish.Kept.{IsKept, IsStored}
use aurora_scholar.Publish.Signed.{prepare_publish_sound}

sealed_parts-key :
    (key iv text : Option Text) (e : EncryptedPayload) (s : Sealed)
    → sealed_parts key iv text e ≡ some s
    → key ≡ some s.article_key
sealed_parts-key none iv text e s h = cc
sealed_parts-key (some key) none text e s h = cc
sealed_parts-key (some key) (some iv) none e s h = cc
sealed_parts-key (some key) (some iv) (some text) e s h =
    let same : record { article_key = key; payload = e } ≡ s = cc in rw (← same) refl

sealed-key :
    (key : Option Text) (payload : Option EncryptedPayload) (s : Sealed)
    → sealed key payload ≡ some s
    → truthy key ≡ some s.article_key
unfolding sealed
sealed-key key none s h = cc
sealed-key key (some e) s h = sealed_parts-key (truthy key) _ _ e s h

module _ (p : Prisma) (env : Server p) where
  -- The key that an author published with is what stands encrypted in the database.
  pub record IsSealed (body : PublishBody) (m : Moment) (t' : Tables p) (article_id : Text)
      : Type 0 where
    pub part : Sealed
    pub given : truthy body.article_key ≡ some part.article_key
    pub before : Tables p
    pub kept : IsStored p env part article_id m before t'

  sealed_of :
      (body : PublishBody) (m : Moment) (t t' : Tables p) (article_id : Text) (part : Option Sealed)
      → IsChosen false body part
      → IsKept p env part article_id m t t'
      → IsSealed body m t' article_id
  sealed_of body m t t' article_id part (s, chosen, same) k = record {
    part = s;
    given = sealed-key body.article_key body.encrypted_payload s chosen;
    before = t;
    kept = rw same at k;
  }

  -- A reader to whom the author of a private article grants access, and who answers the challenge in
  -- time, receives the very key that the author published with.
  pub publish_then_claim :
      (body : PublishBody) (m : Moment) (t t1 : Tables p) (s s' : State p) (out : Published)
      (author access : Access) (article_key viewer expires_in row_id nonce signature : Text)
      (granted asked sent_at now later : ℕ) (g : AccessGrant) (challenge : Challenge)
      → prepare_publish p env body m t ≡ (ok out, t1)
      → out.is_public ≡ false
      → truthy body.article_key ≡ some article_key
      → length m.iv ≡ 12
      → All IsByte m.iv
      → create_grant p author
          (record {
            article_id = some out.article_id;
            viewer_wallet = some viewer;
            expires_in = some expires_in;
          })
          row_id
          granted
          t1
        ≡ (ok g, s.tables)
      → key_challenge p access (some out.article_id) nonce asked sent_at s ≡ (ok challenge, s')
      → truthy (wallet_of access) ≡ some viewer
      → nonce ≢ []
      → signature ≢ []
      → now ≤ sent_at + 5 * 60 * 1000
      → IsSignedClaim p env.wallets viewer out.article_id nonce signature
      → is_expired (calculate_expiration expires_in granted) later ≡ false
      → key_claim p env.wallets env.cipher env.secret_variable access
          (record {
            article_id = some out.article_id;
            nonce = some nonce;
            signature = some signature;
          })
          now
          later
          s'
        ≡ (
          ok (env.wallets.to_base64 (env.wallets.from_base64 article_key)),
          set_challenges p s' (JsMap.delete (challenge_key out.article_id viewer) s'.challenges),
        )
  publish_then_claim body m t t1 s s' out author access article_key viewer expires_in row_id nonce
        signature granted asked sent_at now later g challenge e closed key_given h12 iv_bytes
        grant_made challenged hv hn hs fresh signed valid =
      let i = prepare_publish_sound p env body m t t1 out e in
      let c =
        create_grant_sound p author out.article_id viewer expires_in row_id granted t1 s.tables g
          grant_made in
      let hidden =
        sealed_of body m i.middle t1 out.article_id i.part
          (subst (λ b. IsChosen b body i.part) closed i.private_part) i.kept in
      let same_key : hidden.part.article_key ≡ article_key = cc (hidden.given, key_given) in
      challenge_then_claim p env.wallets env.cipher env.secret_variable access out.article_id viewer
        nonce signature asked sent_at now later s s' challenge hidden.kept.secret m.iv
        (env.wallets.from_base64 article_key) hidden.before hidden.before challenged hv hn hs fresh
        signed
        (record {
          grant = g;
          row = c.stored;
          not_revoked = c.not_revoked;
          not_expired = rw c.expiry valid;
        })
        (rw c.same_secrets hidden.kept.stored) h12 iv_bytes
        (env.wallets.from_base64-IsByte article_key) (rw (← same_key) hidden.kept.encrypted)
