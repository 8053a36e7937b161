-- ===== src/Keys.antt =====
-- Delivery of article keys: keyChallenge and keyClaim of
-- apps/api/src/controllers/access-control.controller.ts. Each read of the clock is an argument.
-- `claim_challenge` is the part of keyClaim that runs before its first `await`.
pub mod Claims
pub mod Delivery
pub mod Pairs
use aurora_scholar.Prelude.{
  ℕ, ◌+◌, ◌∷◌, ◌++◌, not, length, ltb, Option, ◌==◌, nat_eq, list_eq, truthy, if◌then◌else◌,
}
use aurora_scholar.Text.{Text, units, utf8}
use aurora_scholar.Http.{
  Handler, create_error, plain_error, pure, throw, gets, need, modify, throw_if, ◌>>=◌, ◌>>◌,
}
use aurora_scholar.JsMap
use aurora_scholar.External.{Wallets, Cipher}
use aurora_scholar.Canonical.{stable_stringify}
use aurora_scholar.Canonical.Messages.{access_key_message}
use aurora_scholar.Auth.{Challenge, Challenges, challenge_lifetime}
use aurora_scholar.Database.{Prisma, Tables}
use aurora_scholar.Guard.{Access}
use aurora_scholar.Grants.{check_grant, need_wallet}
use aurora_scholar.Secrets.{decrypt_article_key}

-- `${articleId}:${viewerWallet}`
unfoldable pub challenge_key : Text → Text → Text
challenge_key article_id viewer = article_id ++ 58 ∷ viewer

pub record ClaimBody : Type 0 where
  pub article_id : Option Text
  pub nonce : Option Text
  pub signature : Option Text

-- The server's state: the database and the challenges in memory.
pub record State (p : Prisma) : Type 0 where
  pub tables : Tables p
  pub challenges : Challenges

module _ (p : Prisma) where
  abbrev pub set_challenges : State p → Challenges → State p
  set_challenges s m = record s { challenges = m }

  unfoldable pub key_challenge :
      Access
      → (article_field : Option Text) (nonce : Text) (now later : ℕ) → Handler (State p) Challenge
  unfolding need_wallet
  key_challenge access article_field nonce now later = do
    viewer ← need_wallet access
    article_id ← need (truthy article_field) (create_error "articleId is required" 400)
    found ← gets (λ s. p.grants.find_unique s.tables.grants (article_id, viewer))
    check_grant found now
    let challenge : Challenge = record { nonce = nonce; expires_at = later + challenge_lifetime }
    modify
        (λ s. set_challenges s (JsMap.set (challenge_key article_id viewer) challenge s.challenges))
    pure challenge

  unfoldable pub check_unexpired : Text → Challenge → ℕ → Handler (State p) (Unit {0})
  check_unexpired key challenge now =
      if ltb challenge.expires_at now
      then (modify (λ s. set_challenges s (JsMap.delete key s.challenges))
          >> throw (create_error "Challenge expired" 400))
      else pure tt

  module _ (w : Wallets) (c : Cipher) where
    -- The article that was asked for, once the challenge has been met and consumed.
    unfoldable pub claim_challenge : Text → ClaimBody → ℕ → Handler (State p) Text
    claim_challenge viewer body now = do
      let missing = create_error "articleId, nonce, signature are required" 400
      article_id ← need (truthy body.article_id) missing
      nonce ← need (truthy body.nonce) missing
      signature ← need (truthy body.signature) missing
      let key = challenge_key article_id viewer
      stored ← gets (λ s. JsMap.get key s.challenges)
      challenge ← need stored (create_error "No active challenge" 400)
      check_unexpired key challenge now
      throw_if (not (challenge.nonce == nonce)) (create_error "Invalid nonce" 400)
      let message = utf8 (stable_stringify (access_key_message viewer article_id nonce))
      let signature_bytes = w.from_base64 signature
      throw_if (not (length signature_bytes == 64)) (create_error "Invalid signature length" 400)
      public_key ← need (w.public_key viewer) (plain_error "Invalid public key input")
      throw_if (not (w.verify message signature_bytes public_key))
          (create_error "Invalid signature" 401)
      modify (λ s. set_challenges s (JsMap.delete key s.challenges))
      pure article_id

    -- The rest of keyClaim: the grant is tested again, and the key decrypted.
    unfoldable pub release_key : Option Text → Text → Text → ℕ → Handler (State p) Text
    release_key secret_variable viewer article_id later = do
      found ← gets (λ s. p.grants.find_unique s.tables.grants (article_id, viewer))
      check_grant found later
      secret ← gets (λ s. p.secrets.find_unique s.tables.secrets article_id)
      row ← need secret (create_error "Article key not found" 404)
      key_bytes ← decrypt_article_key w c secret_variable row.encrypted_key
      pure (w.to_base64 key_bytes)

    unfoldable pub key_claim :
        Option Text → Access → ClaimBody → (now later : ℕ) → Handler (State p) Text
    unfolding need_wallet
    key_claim secret_variable access body now later = do
      viewer ← need_wallet access
      article_id ← claim_challenge viewer body now
      release_key secret_variable viewer article_id later
