-- ===== src/Web/Session/Served.antt =====
-- The browser's sign-in against the API's two handlers.
use aurora_scholar.Prelude.{
  ℕ, ◌+◌, ◌*◌, ◌≤◌, ◌≡◌, ◌≢◌, refl, some, List, [], ◌∷◌, nat_eq, list_eq, list_beq, truthy,
  truthy_of_ne-nil, arith,
}
use aurora_scholar.Text.{Text, units, utf8}
use aurora_scholar.Http.{ok, success, async_handler, pure, throw_if, need, modify, ◌>>=◌}
use aurora_scholar.Http.Steps.{bind_step, need_step}
use aurora_scholar.JsMap
use aurora_scholar.JsMap.{JsMap}
use aurora_scholar.External.{Wallets, WebTokens}
use aurora_scholar.Canonical.{str, obj, end, stable_stringify}
use aurora_scholar.Canonical.Messages.{text_field, auth_message}
use aurora_scholar.Json.{string_or, string_of}
use aurora_scholar.Auth.{Challenge, SignedIn, token_lifetime, auth_challenge}
use aurora_scholar.Auth.SignIn.{IsSigned, challenge_then_verify}
use aurora_scholar.Web.{
  Browser, Page, Request, Reply, post, Signer, token_key, fetch, get_api_base_url, trim_slashes,
  set_auth_token, content_type, member_of,
}
use aurora_scholar.Web.Session.{
  auth_text, bytes_to_base64, fetch_auth_challenge, fetch_auth_verify, sign_in,
}
use aurora_scholar.Web.Session.Api.{
  Api, reply_of, challenge_data, signed_in_data, read_verify_body, serve, api_browser,
}

auth_text-message :
    (wallet nonce : Text)
    → auth_text wallet (some (str nonce)) ≡ stable_stringify (auth_message wallet nonce)
unfolding auth_text auth_message stable_stringify
auth_text-message wallet nonce = refl

string_or-text : (t : Text) → t ≢ [] → string_or (some (str t)) [] ≡ t
unfolding string_of
string_or-text [] h = absurd (h refl)
string_or-text (u ∷ t) h = refl

module _ (b : Browser) {U : Type 0} where
  abbrev after_fetch : Page b U → Request → b.Net → Page b U
  after_fetch s r net = record s { net = net; requests = r ∷ s.requests }

  fetch-answers :
      (r : Request) (s : Page b U) (reply : Reply) (net : b.Net)
      → b.fetch r s.net ≡ (some reply, net)
      → fetch b r s ≡ (ok reply, after_fetch s r net)
  unfolding fetch need
  fetch-answers r s reply net h = rw h refl

module _ (w : Wallets) (jwt : WebTokens) (secret nonce : Text) (latency : ℕ)
    (btoa : Text → Text) where
  abbrev b : Browser
  b = api_browser w jwt (some secret) nonce latency btoa

  -- The server and the page after the challenge.
  abbrev asked_api : Text → Api → Api
  asked_api wallet api = record {
    challenges =
        JsMap.set wallet
          (record { nonce = nonce; expires_at = api.clock + latency + 5 * 60 * 1000 })
          api.challenges;
    clock = api.clock + latency;
  }

  abbrev challenge_request : Text → Request
  challenge_request wallet = record {
    method = post;
    url = units "/api/auth/challenge";
    headers = content_type ∷ [];
    body = some (text_field "wallet" wallet end);
  }

  -- The same of the proof.
  abbrev proof_request : (wallet signature : Text) → Request
  proof_request wallet signature = record {
    method = post;
    url = units "/api/auth/verify";
    headers = content_type ∷ [];
    body = some (
        text_field "wallet" wallet
          (text_field "nonce" nonce (text_field "signature" signature end)));
  }

  module _ {U : Type 0} where
    challenge-answers :
        (wallet : Text) (key : w.Key) (s : Page b U)
        → wallet ≢ []
        → w.public_key wallet ≡ some key
        → auth_challenge w (some wallet) nonce (s.net.clock + latency) s.net.challenges ≡ (
          ok (record { nonce = nonce; expires_at = s.net.clock + latency + 5 * 60 * 1000 }),
          JsMap.set wallet
              (record { nonce = nonce; expires_at = s.net.clock + latency + 5 * 60 * 1000 })
              s.net.challenges,
        )
    unfolding auth_challenge ◌>>=◌
    challenge-answers wallet key s there parsed = rw (truthy_of_ne-nil wallet there, parsed) refl

    abbrev challenge_of : Page b U → Challenge
    challenge_of s = record { nonce = nonce; expires_at = s.net.clock + latency + 5 * 60 * 1000 }

    abbrev asked_page : Text → Page b U → Page b U
    asked_page wallet s = after_fetch b s (challenge_request wallet) (asked_api wallet s.net)

    serve-asked :
        (wallet : Text) (key : w.Key) (s : Page b U)
        → wallet ≢ []
        → w.public_key wallet ≡ some key
        → serve w jwt (some secret) nonce latency (challenge_request wallet) s.net
          ≡ (some (reply_of challenge_data (success (challenge_of s))), asked_api wallet s.net)
    unfolding serve async_handler list_beq
    serve-asked wallet key s there parsed = rw (challenge-answers wallet key s there parsed) refl

    fetch_auth_challenge-answers :
        (wallet : Text) (key : w.Key) (s : Page b U)
        → wallet ≢ []
        → w.public_key wallet ≡ some key
        → fetch_auth_challenge b wallet s
          ≡ (ok (some (obj (challenge_data (challenge_of s)))), asked_page wallet s)
    unfolding fetch_auth_challenge get_api_base_url trim_slashes
    fetch_auth_challenge-answers wallet key s there parsed =
        bind_step _ _ s
          (fetch-answers b (challenge_request wallet) s
            (reply_of challenge_data (success (challenge_of s))) (asked_api wallet s.net)
            (serve-asked wallet key s there parsed))
          (unfold reply_of pure ◌>>=◌ list_beq in refl)

    nonce-read :
        (wallet : Text) (s : Page b U)
        → member_of b "nonce" (some (obj (challenge_data (challenge_of s)))) (asked_page wallet s)
          ≡ (ok (some (str nonce)), asked_page wallet s)
    unfolding challenge_data pure throw_if ◌>>=◌ list_beq
    nonce-read wallet s = refl

    abbrev token_of : Text → Page b U → Text
    token_of wallet s = jwt.sign secret wallet token_lifetime (s.net.clock + latency + latency)

    abbrev signed_in_of : Text → Page b U → SignedIn
    signed_in_of wallet s = record {
      token = token_of wallet s;
      wallet = wallet;
      expires_in = units "2h";
    }

    abbrev proved_api : Text → Page b U → Api
    proved_api wallet s = record {
      challenges = JsMap.delete wallet (asked_api wallet s.net).challenges;
      clock = s.net.clock + latency + latency;
    }

    abbrev pub proved_page : (wallet signature : Text) → Page b U → Page b U
    proved_page wallet signature s =
        after_fetch b (asked_page wallet s) (proof_request wallet signature) (proved_api wallet s)

    module _ (wallet signature : Text) (s : Page b U) (there : wallet ≢ []) (drawn : nonce ≢ [])
        (written : signature ≢ []) (configured : secret ≢ []) (quick : latency ≤ 5 * 60 * 1000)
        (signed : IsSigned w wallet nonce signature) where
      serve-proved :
          serve w jwt
            (some secret)
            nonce
            latency
            (proof_request wallet signature)
            (asked_api wallet s.net)
          ≡ (some (reply_of signed_in_data (success (signed_in_of wallet s))), proved_api wallet s)
      unfolding serve read_verify_body async_handler list_beq
      serve-proved =
          let issued = challenge-answers wallet signed.key s there signed.parsed in
          let done =
            challenge_then_verify w jwt (s.net.clock + latency) (s.net.clock + latency + latency)
              s.net.challenges _ wallet nonce signature secret _ issued drawn written configured
              (omega (arith, quick)) signed in
          rw done refl

      token_given :
          truthy (some (string_or (some (str (token_of wallet s))) [])) ≡ some (token_of wallet s)
      token_given =
          let made =
            jwt.sign-ne-nil secret wallet token_lifetime (s.net.clock + latency + latency) in
          rw (string_or-text (token_of wallet s) made) (truthy_of_ne-nil (token_of wallet s) made)

      fetch_auth_verify-answers :
          (bytes : List ℕ)
          → btoa bytes ≡ signature
          → fetch_auth_verify b wallet (some (str nonce)) bytes (asked_page wallet s) ≡ (
            ok (token_of wallet s),
            record (proved_page wallet signature s) {
              storage = JsMap.set token_key (token_of wallet s) s.storage;
            },
          )
      unfolding fetch_auth_verify get_api_base_url trim_slashes bytes_to_base64
      fetch_auth_verify-answers bytes same =
          bind_step _ _ (asked_page wallet s)
            (fetch-answers b (proof_request wallet (btoa bytes)) (asked_page wallet s)
              (reply_of signed_in_data (success (signed_in_of wallet s))) (proved_api wallet s)
              (rw same serve-proved))
            (unfold reply_of signed_in_data set_auth_token pure modify ◌>>=◌ list_beq in
              rw (same, token_given) refl)

  -- A wallet that signs the canonical text of what it is asked for signs in from the browser: against the
  -- API's handlers, where a request takes at most five minutes, sign_in returns the API's token for this
  -- wallet and keeps it in the browser's storage, after two requests, and the challenge is used up.
  pub sign_in-served :
      {U : Type 0} (signer : Signer) (signature_bytes : List ℕ) (s : Page b U)
      → signer.address ≢ []
      → nonce ≢ []
      → btoa signature_bytes ≢ []
      → secret ≢ []
      → latency ≤ 5 * 60 * 1000
      → signer.sign_message (utf8 (stable_stringify (auth_message signer.address nonce)))
        ≡ some signature_bytes
      → IsSigned w signer.address nonce (btoa signature_bytes)
      → sign_in b signer s ≡ (
        ok (token_of signer.address s),
        record (proved_page signer.address (btoa signature_bytes) s) {
          storage = JsMap.set token_key (token_of signer.address s) s.storage;
        },
      )
  unfolding sign_in
  sign_in-served signer bytes s there drawn written configured quick signs signed =
      bind_step _ _ s (fetch_auth_challenge-answers signer.address signed.key s there signed.parsed)
        (bind_step _ _ (asked_page signer.address s) (nonce-read signer.address s) (
          need_step _ (asked_page signer.address s) _ _
            (rw (auth_text-message signer.address nonce) signs)
            (fetch_auth_verify-answers signer.address (btoa bytes) s there drawn written configured
              quick signed bytes refl)))
