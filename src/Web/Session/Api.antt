-- ===== src/Web/Session/Api.antt =====
-- The API behind the browser's sign-in: the two routes of apps/api/src/routes/auth.ts, with the answers
-- that controllers/auth.controller.ts and middleware/error-handler.ts send.
use aurora_scholar.Prelude.{
  ℕ, ◌+◌, true, false, Option, none, some, [], if◌then◌else◌, ◌==◌, nat_eq, list_eq,
}
use aurora_scholar.Text.{Text, units}
use aurora_scholar.Http.{Response, success, failure, async_handler}
use aurora_scholar.External.{Wallets, WebTokens}
use aurora_scholar.Canonical.{bool, num, obj, Fields, end, field}
use aurora_scholar.Canonical.Messages.{text_field}
use aurora_scholar.Json.{text_at}
use aurora_scholar.Auth.{Challenge, Challenges, VerifyBody, SignedIn, auth_challenge, auth_verify}
use aurora_scholar.Web.{Browser, Request, Reply}

-- A handler's answer as a reply: its status, and its JSON.
unfoldable pub reply_of : {A : Type 0} → (A → Fields) → Response A → Reply
reply_of data_of (success a) = record {
  status = 200;
  text = [];
  json =
      some (obj (field (units "success") (bool true) (field (units "data") (obj (data_of a)) end)));
}
reply_of data_of (failure status message) = record {
  status = status;
  text = [];
  json = some (obj (field (units "success") (bool false) (text_field "error" message end)));
}

unfoldable pub challenge_data : Challenge → Fields
challenge_data c = text_field "nonce" c.nonce (field (units "expiresAt") (num c.expires_at) end)

unfoldable pub signed_in_data : SignedIn → Fields
signed_in_data s =
    text_field "token" s.token
      (text_field "wallet" s.wallet (text_field "expiresIn" s.expires_in end))

unfoldable pub read_verify_body : Fields → VerifyBody
read_verify_body fs = record {
  wallet = text_at "wallet" fs;
  signature = text_at "signature" fs;
  nonce = text_at "nonce" fs;
}

-- The server behind the network: the challenges in its memory, and its clock.
pub record Api : Type 0 where
  pub challenges : Challenges
  pub clock : ℕ

module _ (w : Wallets) (jwt : WebTokens) (secret : Option Text) (nonce : Text) (latency : ℕ) where
  abbrev body_of : Request → Fields
  body_of r = given_or r.body
    where
      given_or : Option Fields → Fields
      given_or none = end
      given_or (some fs) = fs

  -- The two routes; every request takes its time to arrive, and `nonce` is what is drawn for it.
  unfoldable pub serve : Request → Api → Option Reply × Api
  serve r api =
      let now = api.clock + latency in
      let asked = auth_challenge w (text_at "wallet" (body_of r)) nonce now api.challenges in
      let proved = auth_verify w jwt secret (read_verify_body (body_of r)) now api.challenges in
      if r.url == units "/api/auth/challenge"
      then (
        some (reply_of challenge_data (async_handler asked.0)),
        record { challenges = asked.1; clock = now },
      )
      else if r.url == units "/api/auth/verify"
      then (
        some (reply_of signed_in_data (async_handler proved.0)),
        record { challenges = proved.1; clock = now },
      )
      else (none, record api { clock = now })

-- A browser whose pages and API have one origin.
abbrev pub api_browser :
    Wallets
    → WebTokens
    → (secret : Option Text) → (nonce : Text) → (latency : ℕ) → (btoa : Text → Text) → Browser
api_browser w jwt secret nonce latency btoa = record {
  Net = Api;
  fetch = serve w jwt secret nonce latency;
  fetch_error = [];
  json_error = [];
  undefined_error = [];
  btoa = btoa;
  atob = λ t. none;
  base64_error = [];
  has_window = true;
  api_variable = none;
  production = true;
}
