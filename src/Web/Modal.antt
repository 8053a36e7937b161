-- ===== src/Web/Modal.antt =====
-- Publication from the editor: handlePublish of apps/web/src/components/editor/PublishModal.tsx. The
-- calls of the Solana connection and of the wallet are parameters, each with its result or its error;
-- `console.error` is left out.
pub mod Outcomes
pub mod Accepted
use aurora_scholar.Prelude.{
  ℕ, ◌+◌, Bool, true, false, not, ◌&&◌, Option, none, some, List, [], ◌∷◌, ◌++◌, String, ltb,
  if◌then◌else◌, or_else, truthy, length, drop, ◌-◌,
}
use aurora_scholar.Text.{Text, units, utf8, is_space, join}
use aurora_scholar.Http.{
  Handler, ApiError, Result, ok, err, plain_error, pure, throw, gets, need, modify, throw_if,
  recover, ◌>>=◌, ◌>>◌,
}
use aurora_scholar.JsMap
use aurora_scholar.Canonical.{
  Value, null, bool, num, str, arr, obj, Fields, end, field, stable_stringify,
}
use aurora_scholar.Canonical.Messages.{Payload, publish_message, text_field}
use aurora_scholar.Json.{prop, either, given, string_of, text_value}
use aurora_scholar.Instruction.{PublishParams, build_publish_article_ix}
use aurora_scholar.Publish.{EncryptedPayload, payload_fields}
use aurora_scholar.Web.{
  Browser, Page, Signer, Request, Reply, post, error, fetch, json_of, is_ok, content_type,
  get_api_base_url, get_auth_header, notify, error_notice, success_notice,
}
use aurora_scholar.Web.Session.{bytes_to_base64}
use aurora_scholar.Web.Crypto.{Subtle, aes_gcm_encrypt, sha256_hex_browser, hex_to_bytes}

pub data Step : Type 0 where
  form uploading publishing published_step : Step

pub record SuccessInfo : Type 0 where
  pub arweave_url : Text
  pub explorer_url : Text

-- The state of the dialog; `redirect` is where the page goes two seconds later, and `called_back`
-- whether `onSuccess` has been called.
pub record Modal : Type 0 where
  pub step : Step
  pub is_publishing : Bool
  pub success_info : Option SuccessInfo
  pub called_back : Bool
  pub redirect : Option Text

pub record Draft : Type 0 where
  pub title : Text
  pub content : Text
  pub declared_intuition : Text
  pub ai_scope : Text
  pub is_public : Bool

-- What `useWallet` gives: the address, whether there is a wallet that sends transactions, and what
-- signs messages.
pub record WalletHook : Type 0 where
  pub address : Option Text
  pub sends : Bool
  pub signer : Option Signer

-- A transaction of one instruction: its article account, its data and its block hash.
pub record Transaction : Type 0 where
  pub article : Text
  pub data_bytes : List ℕ
  pub blockhash : Text

-- What the preflight asks the node for.
pub record Balances : Type 0 where
  pub balance : ℕ
  pub fee : Option ℕ
  pub rent_exempt : ℕ

-- The outcome of a simulation: the JSON of its error, and its logs.
pub record Simulated : Type 0 where
  pub failure : Option Text
  pub logs : List Text

pub record Solana : Type 0 where
  pub derive_article_pda : Text → List ℕ → Text
  pub latest_blockhash : Result Text
  pub compile_message : Transaction → Result (Unit {0})
  -- The balance, the fee and the rent of `Article::SPACE`, behind the compilation to version 0.
  pub balances : Transaction → Result Balances
  pub simulate : Transaction → Result Simulated
  pub send_transaction : Transaction → Result Text
  pub confirm_transaction : Text → Result (Unit {0})

-- `t(key, values)` of next-intl, and `(lamports / 1e9).toFixed(4)`.
pub record Translation : Type 0 where
  pub t : String → List (Text × Text) → Text
  pub sol : ℕ → Text

-- The clock and the random bytes of one publication.
pub record Draw : Type 0 where
  pub created_at : Text
  pub key_bytes : List ℕ
  pub iv : List ℕ

-- `!text.trim()`
unfoldable pub is_blank : Text → Bool
is_blank [] = true
is_blank (u ∷ t) = is_space u && is_blank t

pub data Permit : Type 0 where
  refused : (title key : String) → Permit
  permitted : Signer → Permit

-- The tests in front of the publication, in their order.
unfoldable pub permit : WalletHook → Draft → Permit
unfolding is_blank
permit h d = elim h.address [
  | none ↦ refused "Wallet" "errors.walletRequired"
  | some address ↦
      if not h.sends then refused "Wallet" "errors.walletNoTransaction" else elim h.signer [
        | none ↦ refused "Wallet" "errors.walletNoSignMessage"
        | some signer ↦
            if is_blank d.title
            then refused "Validation" "errors.titleRequired"
            else if is_blank d.content
            then refused "Validation" "errors.contentRequired"
            else if is_blank d.declared_intuition
            then refused "Validation" "errors.intuitionRequired"
            else permitted (record signer { address = address })
      ]
]

-- The payload that the wallet signs.
unfoldable pub payload_of_draft : Subtle → (author : Text) → Draft → (created_at : Text) → Payload
payload_of_draft c author d created_at = record {
  author = author;
  title = d.title;
  content_hash = sha256_hex_browser c d.content;
  intuition_hash = sha256_hex_browser c d.declared_intuition;
  ai_scope = d.ai_scope;
  is_public = d.is_public;
  created_at = created_at;
}

-- The client's key and the encrypted texts of a private article.
pub record Locked : Type 0 where
  pub key_b64 : Text
  pub payload : EncryptedPayload

abbrev private_fields : Option Locked → Fields → Fields
private_fields none fs = fs
private_fields (some l) fs =
    text_field "articleKey" l.key_b64
      (field (units "encryptedPayload") (obj (payload_fields l.payload)) fs)

-- The body of the request to prepare the publication.
unfoldable pub prepare_fields :
    (author : Text) → Draft → Option Locked → (signature created_at : Text) → Fields
prepare_fields author d locked signature created_at = text_field "author" author (
    text_field "title" d.title (
      text_field "content" d.content (
        text_field "declaredIntuition" d.declared_intuition (
          text_field "aiScope" d.ai_scope (
            field (units "isPublic") (bool d.is_public) (
              private_fields locked (
                text_field "signature" signature (
                  field (units "signedPayload") (obj (text_field "createdAt" created_at end))
                    (text_field "signedPayloadSignature" signature end)))))))))

-- What the API has prepared.
pub record Prepared : Type 0 where
  pub arweave_id : Text
  pub arweave_url : Option Text
  pub content_hash : Text
  pub intuition_hash : Text

-- `prep?.data?.key || prep?.key`
abbrev member_either : String → Value → Option Value
member_either key v = either (prop key (prop "data" (some v))) (prop key (some v))

abbrev string_value : Option Value → Option Text
string_value none = none
string_value (some v) = some (string_of v)

-- `feeInfo.value ?? 0`
abbrev pub fee_of : Option ℕ → ℕ
fee_of none = 0
fee_of (some n) = n

-- `logs.slice(-30)`
abbrev last_logs : List Text → List Text
last_logs logs = drop (length logs - 30) logs

module _ (b : Browser) (c : Subtle) (tr : Translation) where
  abbrev H : Type 0 → Type 0
  H A = Handler (Page b Modal) A

  -- An attempt that throws or returns.
  abbrev pub try_of : {A : Type 0} → Result A → H A
  try_of (ok a) = pure a
  try_of (err e) = throw e

  unfoldable pub set_step : Step → H (Unit {0})
  set_step x = modify λ s. record s { ui = record s.ui { step = x } }

  unfoldable pub set_publishing : Bool → H (Unit {0})
  set_publishing x = modify λ s. record s { ui = record s.ui { is_publishing = x } }

  abbrev lock_with : Bool → Draft → Draw → H (Option Locked)
  lock_with true d draw = pure none
  lock_with false d draw = do
    payload ← aes_gcm_encrypt b c draw.key_bytes draw.iv (
        text_field "content" d.content (
          text_field "declaredIntuition" d.declared_intuition
            (text_field "title" d.title (text_field "aiScope" d.ai_scope end))))
    pure (some (record { key_b64 = bytes_to_base64 b draw.key_bytes; payload = payload }))

  unfoldable pub lock : Draft → Draw → H (Option Locked)
  lock d draw = lock_with d.is_public d draw

  -- From the answer of the API, whose hashes are to be texts.
  unfoldable pub read_prepared : Value → H Prepared
  read_prepared json = do
    let invalid = plain_error "Invalid prepare response"
    arweave_id ← need (given (member_either "arweaveId" json)) invalid
    content_value ← need (given (member_either "contentHash" json)) invalid
    intuition_value ← need (given (member_either "intuitionHash" json)) invalid
    content_hash ← need (text_value content_value) (error b.undefined_error)
    intuition_hash ← need (text_value intuition_value) (error b.undefined_error)
    pure (record {
      arweave_id = string_of arweave_id;
      arweave_url = string_value (given (member_either "arweaveUrl" json));
      content_hash = content_hash;
      intuition_hash = intuition_hash;
    })

  -- Up to the answer of `/api/articles/publish/prepare`.
  unfoldable pub upload : Signer → Draft → Draw → H Prepared
  upload signer d draw = do
    let payload = payload_of_draft c signer.address d draw.created_at
    let message = utf8 (stable_stringify (publish_message payload))
    signature_bytes ← need (signer.sign_message message) (error signer.rejection)
    let signature = bytes_to_base64 b signature_bytes
    locked ← lock d draw
    header ← get_auth_header b
    res ← fetch b (record {
      method = post;
      url = get_api_base_url b ++ units "/api/articles/publish/prepare";
      headers = content_type ∷ header;
      body = some (prepare_fields signer.address d locked signature draw.created_at);
    })
    throw_if (not (is_ok res))
        (error (or_else (some res.text) (units "Failed to upload to Arweave")))
    json ← json_of b res
    read_prepared json

  -- The instruction in a transaction that compiles.
  unfoldable pub build_transaction : Solana → (author : Text) → Draft → Prepared → H Transaction
  build_transaction chain author d prep = do
    content_hash ← hex_to_bytes prep.content_hash
    intuition_hash ← hex_to_bytes prep.intuition_hash
    let article = chain.derive_article_pda author content_hash
    bytes ← try_of (
        build_publish_article_ix (record {
          content_hash = content_hash;
          intuition_hash = intuition_hash;
          arweave_id = prep.arweave_id;
          title = d.title;
          ai_scope = d.ai_scope;
          is_public = d.is_public;
        }))
    blockhash ← try_of chain.latest_blockhash
    let tx : Transaction = record { article = article; data_bytes = bytes; blockhash = blockhash }
    try_of (chain.compile_message tx)
    pure tx

  -- `setIsPublishing(false); setStep('form');`, behind a notice.
  unfoldable pub give_up : (title message : Text) → ℕ → H (Unit {0})
  give_up title message duration = do
    modify λ s. record s {
      notices =
          record { kind = error_notice; title = title; message = message; duration = some duration }
          ∷ s.notices;
    }
    set_publishing false
    set_step form

  abbrev pub judge : Option Text → List Text → H Bool
  judge none logs = pure true
  judge (some failure) logs = do
    give_up (tr.t "errors.simulationFailed" [])
        (tr.t "errors.simulationError"
          ((units "error", failure) ∷ (units "logs", join (10 ∷ []) (last_logs logs)) ∷ []))
        12000
    pure false

  -- The balance against the rent and the fee, and the simulation behind it.
  unfoldable pub check_balance : Solana → Transaction → Balances → H Bool
  check_balance chain tx found =
      let need_lamports = found.rent_exempt + fee_of found.fee in
      if ltb found.balance need_lamports
      then (do
        give_up (tr.t "errors.insufficientBalance" [])
            (tr.t "errors.balanceMessage" (
              (units "balance", tr.sol found.balance)
              ∷ (units "estimated", tr.sol need_lamports)
              ∷ []))
            12000
        pure false)
      else (do result ← try_of (chain.simulate tx); judge result.failure result.logs)

  -- Whether the publication goes on: an error of the node does not stop it.
  unfoldable pub preflight : Solana → Transaction → H Bool
  preflight chain tx =
      recover (try_of (chain.balances tx) >>= check_balance chain tx) (λ e. pure true)

  abbrev arweave_link : Prepared → Text
  arweave_link prep =
      or_else (truthy prep.arweave_url) (units "https://arweave.net/" ++ prep.arweave_id)

  -- Behind the confirmation.
  unfoldable pub finish : Draft → Prepared → (signature : Text) → H (Unit {0})
  finish d prep signature = do
    let explorer_url =
        units "https://explorer.solana.com/tx/" ++ (signature ++ units "?cluster=devnet")
    modify λ s. record s {
      ui = record s.ui {
        success_info =
            some (record { arweave_url = arweave_link prep; explorer_url = explorer_url });
      };
    }
    set_step published_step
    modify λ s. record s {
      notices =
          record {
            kind = success_notice;
            title = tr.t "success" [];
            message = tr.t "success" [];
            duration = none;
          }
          ∷ s.notices;
      storage =
          JsMap.delete (units "aurora-editor-intuition")
            (JsMap.delete (units "aurora-editor-content") s.storage);
      ui = record s.ui {
        called_back = true;
        redirect = some (if d.is_public then units "/journal" else units "/dashboard");
      };
    }

  unfoldable pub send_and_confirm : Solana → Transaction → H Text
  send_and_confirm chain tx = do
    signature ← try_of (chain.send_transaction tx)
    try_of (chain.confirm_transaction signature)
    pure signature

  abbrev pub send_if : Solana → Draft → Prepared → Transaction → Bool → H (Unit {0})
  send_if chain d prep tx false = pure tt
  send_if chain d prep tx true = do signature ← send_and_confirm chain tx; finish d prep signature

  unfoldable pub publish_steps : Solana → Signer → Draft → Draw → H (Unit {0})
  publish_steps chain signer d draw = do
    prep ← upload signer d draw
    set_step publishing
    tx ← build_transaction chain signer.address d prep
    goes_on ← preflight chain tx
    send_if chain d prep tx goes_on

  abbrev pub failed_notice : ApiError → H (Unit {0})
  failed_notice e =
      give_up (tr.t "errors.publishFailed" []) (or_else (some e.message) (units "Error")) 8000

  abbrev pub with_permit : Permit → Solana → Draft → Draw → H (Unit {0})
  with_permit (refused title key) chain d draw = notify b error_notice title (tr.t key []) none
  with_permit (permitted signer) chain d draw = do
    set_publishing true
    set_step uploading
    recover (publish_steps chain signer d draw) failed_notice

  unfoldable pub handle_publish : WalletHook → Solana → Draft → Draw → H (Unit {0})
  handle_publish h chain d draw = with_permit (permit h d) chain d draw
