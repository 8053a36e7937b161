-- ===== src/Auth.antt =====
-- Sign-in by wallet: apps/api/src/controllers/auth.controller.ts.
-- Randomness and the clock are arguments; the state is the map of open challenges.
pub mod SignIn
pub mod Tickets
use aurora_scholar.Prelude.{
  ℕ, ◌+◌, ◌*◌, Option, not, length, ltb, ◌==◌, nat_eq, list_eq, truthy, if◌then◌else◌,
}
use aurora_scholar.Text.{Text, units, utf8}
use aurora_scholar.Http.{
  Handler, create_error, plain_error, pure, gets, need, modify, throw, throw_if, ◌>>=◌, ◌>>◌,
}
use aurora_scholar.JsMap
use aurora_scholar.JsMap.{JsMap}
use aurora_scholar.External.{Wallets, WebTokens}
use aurora_scholar.Canonical.{stable_stringify}
use aurora_scholar.Canonical.Messages.{auth_message}

pub record Challenge : Type 0 where
  pub nonce : Text
  pub expires_at : ℕ

-- wallet -> challenge
abbrev pub Challenges : Type 0
Challenges = JsMap Challenge

-- `getJwtSecret`, over `process.env.API_JWT_SECRET`.
abbrev pub get_jwt_secret : {S : Type 0} → Option Text → Handler S Text
get_jwt_secret secret = need (truthy secret) (create_error "API_JWT_SECRET is not configured" 500)

pub record VerifyBody : Type 0 where
  pub wallet : Option Text
  pub signature : Option Text
  pub nonce : Option Text

pub record SignedIn : Type 0 where
  pub token : Text
  pub wallet : Text
  pub expires_in : Text

abbrev pub challenge_lifetime : ℕ
challenge_lifetime = 5 * 60 * 1000

-- '2h'
abbrev pub token_lifetime : ℕ
token_lifetime = 2 * 60 * 60

module _ (w : Wallets) where
  open w use {public_key, from_base64, verify}

  unfoldable pub auth_challenge : Option Text → Text → ℕ → Handler Challenges Challenge
  auth_challenge wallet_field nonce now = do
    wallet ← need (truthy wallet_field) (create_error "wallet is required" 400)
    need (public_key wallet) (create_error "Invalid wallet public key" 400)
    let challenge : Challenge = record { nonce = nonce; expires_at = now + challenge_lifetime }
    modify (JsMap.set wallet challenge)
    pure challenge

  -- From the expiry test on; an expired challenge is deleted before the error is thrown.
  unfoldable pub check_fresh : Text → Challenge → ℕ → Handler Challenges (Unit {0})
  check_fresh wallet challenge now =
      if ltb challenge.expires_at now
      then (modify (JsMap.delete wallet) >> throw (create_error "Challenge expired" 400))
      else pure tt

  unfoldable pub auth_verify :
      WebTokens → Option Text → VerifyBody → ℕ → Handler Challenges SignedIn
  unfolding check_fresh
  auth_verify jwt secret_variable body now = do
    let missing = create_error "wallet, signature, and nonce are required" 400
    wallet ← need (truthy body.wallet) missing
    signature ← need (truthy body.signature) missing
    nonce ← need (truthy body.nonce) missing
    open_challenges ← gets (λ m. m)
    challenge ←
        need (JsMap.get wallet open_challenges) (create_error "No active challenge for wallet" 400)
    check_fresh wallet challenge now
    throw_if (not (challenge.nonce == nonce)) (create_error "Invalid nonce" 400)
    let message = utf8 (stable_stringify (auth_message wallet nonce))
    let signature_bytes = from_base64 signature
    throw_if (not (length signature_bytes == 64)) (create_error "Invalid signature length" 400)
    key ← need (public_key wallet) (plain_error "Invalid public key input")
    throw_if (not (verify message signature_bytes key)) (create_error "Invalid signature" 401)
    modify (JsMap.delete wallet)
    secret ← get_jwt_secret secret_variable
    pure (record {
      token = jwt.sign secret wallet token_lifetime now;
      wallet = wallet;
      expires_in = units "2h";
    })
