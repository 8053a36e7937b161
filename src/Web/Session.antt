-- ===== src/Web/Session.antt =====
-- Sign-in from the browser: apps/web/src/lib/auth/api.ts and components/auth/AuthGate.tsx. The value
-- that the page has of the wallet, and whether an effect has been cleaned up, are arguments; a ref
-- follows the state without delay.
pub mod Ready
pub mod Api
pub mod Served
use aurora_scholar.Prelude.{
  Bool, true, false, not, ◌&&◌, Option, none, some, [], ◌∷◌, ◌++◌, ℕ, List, String, if◌then◌else◌,
  or_else, truthy, ◌||◌, ◌==◌, nat_eq, list_eq,
}
use aurora_scholar.Text.{Text, units, utf8}
use aurora_scholar.Http.{
  ApiError, Handler, plain_error, pure, throw, gets, need, modify, recover, ◌>>=◌, ◌>>◌,
}
use aurora_scholar.JsMap.{JsMap}
use aurora_scholar.Canonical.{Value, str, Fields, end, quote, stable_stringify, render_object}
use aurora_scholar.Canonical.Messages.{text_field}
use aurora_scholar.Json.{prop, string_or}
use aurora_scholar.Web.{
  Browser, Page, Signer, Request, post, error, fetch, json_of, check_ok, member_of, optional_field,
  content_type, get_api_base_url, get_auth_token, set_auth_token, clear_auth_token, notify,
  error_notice, success_notice,
}

-- `bytesToBase64`: the units of the text that `btoa` is given are the bytes.
unfoldable pub bytes_to_base64 : Browser → List ℕ → Text
bytes_to_base64 b bytes = b.btoa bytes

-- The text of a member in a template: a missing one is written `undefined`.
abbrev member_text : Option Value → Text
member_text none = units "undefined"
member_text (some v) = stable_stringify v

-- `stableStringify({ domain, action: 'auth', wallet, nonce })`
unfoldable pub auth_text : Text → Option Value → Text
auth_text wallet nonce = render_object (
    (units "domain", quote (units "aurora-scholar"))
    ∷ (units "action", quote (units "auth"))
    ∷ (units "wallet", quote wallet)
    ∷ (units "nonce", member_text nonce)
    ∷ [])

module _ (b : Browser) where
  -- A POST of an object to the API.
  abbrev pub api_post : String → Fields → Request
  api_post path body = record {
    method = post;
    url = get_api_base_url b ++ units path;
    headers = content_type ∷ [];
    body = some body;
  }

module _ (b : Browser) {U : Type 0} where
  unfoldable pub fetch_auth_challenge : (wallet : Text) → Handler (Page b U) (Option Value)
  fetch_auth_challenge wallet = do
    res ← fetch b (api_post b "/api/auth/challenge" (text_field "wallet" wallet end))
    json ← json_of b res
    check_ok b res json
    pure (prop "data" (some json))

  unfoldable pub fetch_auth_verify :
      (wallet : Text) (nonce : Option Value) (signature_bytes : List ℕ) → Handler (Page b U) Text
  fetch_auth_verify wallet nonce signature_bytes = do
    let signature = bytes_to_base64 b signature_bytes
    res ← fetch b (
        api_post b "/api/auth/verify" (
          text_field "wallet" wallet
            (optional_field "nonce" nonce (text_field "signature" signature end))))
    json ← json_of b res
    check_ok b res json
    token ←
        need (truthy (some (string_or (prop "token" (prop "data" (some json))) [])))
          (plain_error "Token inválido")
    set_auth_token b token
    pure token

  -- The challenge, its signature and the token for it, as refreshAuthToken and AuthGate ask for them.
  unfoldable pub sign_in : Signer → Handler (Page b U) Text
  sign_in signer = do
    ch ← fetch_auth_challenge signer.address
    nonce ← member_of b "nonce" ch
    let message = auth_text signer.address nonce
    signature_bytes ← need (signer.sign_message (utf8 message)) (error signer.rejection)
    fetch_auth_verify signer.address nonce signature_bytes

  -- `window.solana`, where it is Phantom's, or the event that AuthGate listens to; `meanwhile` is
  -- what other code has made of the local storage a second later.
  unfoldable pub renew :
      Option Signer → (meanwhile : JsMap Text → JsMap Text) → Handler (Page b U) Text
  renew none meanwhile = do
    modify (λ s. record s { storage = meanwhile s.storage })
    token ← get_auth_token b
    need (truthy token)
        (plain_error "Não foi possível renovar o token. Por favor, reconecte sua wallet.")
  renew (some phantom) meanwhile = do clear_auth_token b; sign_in phantom

  unfoldable pub refresh_auth_token :
      Option Signer → (meanwhile : JsMap Text → JsMap Text) → Handler (Page b U) Text
  refresh_auth_token phantom meanwhile =
      if b.has_window
      then renew phantom meanwhile
      else throw (plain_error "Cannot refresh token on server")

-- The state of AuthGate.
pub record Gate : Type 0 where
  pub is_signing_in : Bool
  pub ready : Bool

-- What `useWallet` gives it: a wallet that cannot sign messages has an address only.
pub record WalletHook : Type 0 where
  pub connected : Bool
  pub address : Option Text
  pub signer : Option Signer

abbrev pub is_some {ℓ} : {A : Type ℓ} → Option A → Bool
is_some none = false
is_some (some a) = true

-- PUBLIC_PATHS
unfoldable pub requires_auth : Text → Bool
requires_auth pathname = not (pathname == units "/" || pathname == units "/journal")

-- The wallet, if all that signing needs is there.
abbrev pub usable : WalletHook → Option Signer
usable h = if h.connected && is_some h.address then h.signer else none

module _ (b : Browser) where
  abbrev pub set_ready : Bool → Handler (Page b Gate) (Unit {0})
  set_ready x = modify λ s. record s { ui = record s.ui { ready = x } }

  abbrev pub set_signing : Bool → Handler (Page b Gate) (Unit {0})
  set_signing x = modify λ s. record s { ui = record s.ui { is_signing_in = x } }

  abbrev pub refuse : ApiError → Handler (Page b Gate) Bool
  refuse e = do
    notify b error_notice "Auth" (or_else (some e.message) (units "Falha no login por wallet."))
        none
    pure false

  unfoldable pub try_sign_in : Signer → Handler (Page b Gate) Bool
  try_sign_in signer = recover (sign_in b signer >> pure true) refuse

  abbrev pub attempt : Option Signer → Bool → Handler (Page b Gate) Bool
  attempt none busy = pure false
  attempt (some signer) true = pure false
  attempt (some signer) false = do
    set_signing true
    success ← try_sign_in signer
    set_signing false
    pure success

  unfoldable pub authenticate : WalletHook → Handler (Page b Gate) Bool
  authenticate h = do busy ← gets (λ s. s.ui.is_signing_in); attempt (usable h) busy

  -- Behind the test for a token.
  unfoldable pub first_sign_in : WalletHook → (cancelled : Bool) → Handler (Page b Gate) (Unit {0})
  first_sign_in h cancelled =
      if is_some h.signer
      then (do success ← authenticate h; if cancelled then pure tt else set_ready success)
      else (do
        notify b error_notice "Wallet"
            (units "Sua wallet não suporta assinatura de mensagem (signMessage).") none
        set_ready false)

  unfoldable pub run_gate :
      (pathname : Text) → WalletHook → (cancelled : Bool) → Handler (Page b Gate) (Unit {0})
  run_gate pathname h cancelled =
      if not (requires_auth pathname)
      then set_ready true
      else if not (h.connected && is_some h.address)
      then set_ready false
      else (do
        existing ← get_auth_token b
        if is_some (truthy existing) then set_ready true else first_sign_in h cancelled)

  abbrev pub renew_with : WalletHook → Option Signer → Handler (Page b Gate) (Unit {0})
  renew_with h none = pure tt
  renew_with h (some signer) = do
    clear_auth_token b
    success ← authenticate h
    if success
        then notify b success_notice "Autenticação" (units "Token renovado com sucesso.") none
        else pure tt

  -- The listener of 'aurora:refresh-auth'.
  unfoldable pub handle_refresh_auth : WalletHook → Handler (Page b Gate) (Unit {0})
  handle_refresh_auth h = renew_with h (usable h)
