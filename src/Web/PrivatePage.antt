-- ===== src/Web/PrivatePage.antt =====
-- The page of a private article: `run` of apps/web/src/app/private/[articleId]/page.tsx. Whether the
-- effect has been cleaned up is an argument; `encodeURIComponent` is a parameter.
pub mod Stored
use aurora_scholar.Prelude.{
  ℕ, Bool, true, false, not, ◌&&◌, Option, none, some, List, [], ◌∷◌, ◌++◌, if◌then◌else◌, ◌==◌,
  nat_eq, or_else, String,
}
use aurora_scholar.Text.{Text, units, utf8}
use aurora_scholar.Http.{
  Handler, ApiError, plain_error, pure, throw, need, modify, throw_if, recover, ◌>>=◌, ◌>>◌,
}
use aurora_scholar.Canonical.{
  Value, null, bool, num, str, arr, obj, Fields, end, digits, quote, stable_stringify,
  render_object,
}
use aurora_scholar.Canonical.Messages.{text_field}
use aurora_scholar.Json.{prop, given, is_truthy, string_or, string_of}
use aurora_scholar.Web.{
  Browser, Page, Signer, Request, Reply, Method, get, post, error, fetch, json_of, is_ok,
  error_text, content_type, get_api_base_url, get_auth_header, optional_field,
}
use aurora_scholar.Web.Session.{bytes_to_base64}
use aurora_scholar.Web.Crypto.{Subtle, aes_gcm_decrypt, base64_to_bytes}

pub data ErrorKind : Type 0 where
  access_error notfound_error unknown_error : ErrorKind

pub record UiError : Type 0 where
  pub kind : ErrorKind
  pub message : Text

-- The state of the page.
pub record Reader : Type 0 where
  pub title : Text
  pub arweave_id : Text
  pub content : Text
  pub intuition : Text
  pub is_loading : Bool
  pub ui_error : Option UiError

-- `stableStringify({ domain, action: 'access-key', wallet, articleId, nonce })`
unfoldable pub access_key_text : (wallet article_id : Text) → Value → Text
access_key_text wallet article_id nonce = render_object (
    (units "domain", quote (units "aurora-scholar"))
    ∷ (units "action", quote (units "access-key"))
    ∷ (units "wallet", quote wallet)
    ∷ (units "articleId", quote article_id)
    ∷ (units "nonce", stable_stringify nonce)
    ∷ [])

-- What an answer with a status that is not in 200–299 sets; only the first request tells a missing
-- article from other errors.
abbrev pub kind_of : (first : Bool) → ℕ → ErrorKind
kind_of first status =
    if first && status == 404
    then notfound_error
    else if status == 403
    then access_error
    else unknown_error

-- The encrypted text in the article's JSON, if it has the members that are expected.
pub record Cipherparts : Type 0 where
  pub iv : Value
  pub ciphertext : Value

abbrev parts_of : Option Value → Option Value → Option Value → Option Cipherparts
parts_of none iv text = none
parts_of (some flag) none text = none
parts_of (some flag) (some iv) none = none
parts_of (some flag) (some iv) (some text) = some (record { iv = iv; ciphertext = text })

unfoldable pub encrypted_parts : Value → Option Cipherparts
encrypted_parts json =
    let enc = prop "content" (some json) in
    parts_of (given (prop "encrypted" enc)) (given (prop "ivB64" enc))
      (given (prop "ciphertextB64" enc))

abbrev pub arweave_request : (encode_uri : Text → Text) → (arweave_id : Text) → Request
arweave_request encode_uri arweave_id = record {
  method = get;
  url = units "https://arweave.net/" ++ encode_uri arweave_id;
  headers = [];
  body = none;
}

module _ (b : Browser) (c : Subtle) (encode_uri : Text → Text) (cancelled : Bool) where
  abbrev H : Type 0 → Type 0
  H A = Handler (Page b Reader) A

  -- `if (!cancelled) …`
  unfoldable pub update : (Reader → Reader) → H (Unit {0})
  update change = if cancelled then pure tt else modify (λ s. record s { ui = change s.ui })

  unfoldable pub show_error : ErrorKind → Text → H (Unit {0})
  show_error kind message =
      update (λ r. record r { ui_error = some (record { kind = kind; message = message }) })

  abbrev pub api_request : Method → (path : Text) → Option Fields → List (Text × Text) → Request
  api_request method path body headers = record {
    method = method;
    url = get_api_base_url b ++ path;
    headers = headers;
    body = body;
  }

  -- A request of the page: its JSON, or nothing behind an error that is shown.
  unfoldable pub ask : (first : Bool) → Request → H (Option Value)
  ask first request = do
    res ← fetch b request
    json ← json_of b res
    if is_ok res then pure (some json) else (do
      show_error (kind_of first res.status) (error_text (some json) res.status)
      pure none)

  abbrev pub posted : (path : String) → Fields → H (Option Value)
  posted path body = do
    header ← get_auth_header b
    ask false (api_request post (units path) (some body) (content_type ∷ header))

  -- From the answer with the key on: the cipher text from Arweave, decrypted with the key.
  unfoldable pub decrypt_article : (arweave_id : Text) → (key : Value) → H (Unit {0})
  decrypt_article arweave_id key = do
    key_bytes ← need (base64_to_bytes b (string_of key)) (error b.base64_error)
    res ← fetch b (arweave_request encode_uri arweave_id)
    throw_if (not (is_ok res))
        (error (units "Falha ao buscar Arweave (" ++ (digits res.status ++ units ")")))
    json ← json_of b res
    parts ← need (encrypted_parts json) (plain_error "Payload criptografado inválido")
    plain ← aes_gcm_decrypt b c key_bytes (string_of parts.iv) (string_of parts.ciphertext)
    update (λ r. record r {
      content = string_or (prop "content" (some plain)) [];
      intuition = string_or (prop "declaredIntuition" (some plain)) [];
    })

  abbrev pub with_key : (arweave_id : Text) → Option Value → H (Unit {0})
  with_key arweave_id none = pure tt
  with_key arweave_id (some json) = do
    key ← need (given (prop "key" (prop "data" (some json)))) (plain_error "Key ausente")
    decrypt_article arweave_id key

  -- The challenge is signed and the key claimed with it.
  unfoldable pub claim_key : Signer → (article_id arweave_id : Text) → Value → H (Unit {0})
  claim_key signer article_id arweave_id challenge = do
    nonce ←
        need (given (prop "nonce" (prop "data" (some challenge))))
          (plain_error "Challenge inválido")
    let message = utf8 (access_key_text signer.address article_id nonce)
    signature_bytes ← need (signer.sign_message message) (error signer.rejection)
    let signature = bytes_to_base64 b signature_bytes
    claim ← posted "/api/access-control/key/claim" (
        text_field "articleId" article_id
          (optional_field "nonce" (some nonce) (text_field "signature" signature end)))
    with_key arweave_id claim

  abbrev pub with_challenge : Signer → (article_id arweave_id : Text) → Option Value → H (Unit {0})
  with_challenge signer article_id arweave_id none = pure tt
  with_challenge signer article_id arweave_id (some challenge) =
      claim_key signer article_id arweave_id challenge

  -- From the article's metadata on.
  unfoldable pub open_with : Signer → (article_id : Text) → Option Value → H (Unit {0})
  open_with signer article_id meta = do
    id_value ← need (given (prop "arweaveId" meta)) (plain_error "Artigo sem arweaveId")
    let arweave_id = string_of id_value
    update (λ r. record r { title = string_or (prop "title" meta) []; arweave_id = arweave_id })
    challenge ← posted "/api/access-control/key/challenge" (text_field "articleId" article_id end)
    with_challenge signer article_id arweave_id challenge

  abbrev pub with_metadata : Signer → (article_id : Text) → Option Value → H (Unit {0})
  with_metadata signer article_id none = pure tt
  with_metadata signer article_id (some json) =
      open_with signer article_id (prop "data" (some json))

  unfoldable pub open_article : Signer → (article_id : Text) → H (Unit {0})
  open_article signer article_id = do
    header ← get_auth_header b
    meta ← ask true (api_request get (units "/api/articles/" ++ encode_uri article_id) none header)
    with_metadata signer article_id meta

  -- `articleId`, and the wallet where it has a key and signs messages.
  unfoldable pub run_page : Text → Option Signer → H (Unit {0})
  run_page [] signer = pure tt
  run_page (u ∷ id) none = pure tt
  run_page (u ∷ id) (some signer) = do
    modify λ s. record s { ui = record s.ui { is_loading = true; ui_error = none } }
    recover (open_article signer (u ∷ id)) λ e.
        show_error unknown_error (or_else (some e.message) (units "Falha ao abrir artigo privado."))
    update (λ r. record r { is_loading = false })
