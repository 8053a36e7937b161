-- ===== src/Tests/Client.antt =====
-- The web client against small networks.
use aurora_scholar.Prelude.{
  ◌≡◌, ◌≤◌, ◌+◌, refl, true, false, none, some, [], ◌∷◌, length, arith, list_beq, ℕ,
}
use aurora_scholar.Text.{units, utf8}
use aurora_scholar.Http.{ok, ◌>>=◌}
use aurora_scholar.JsMap
use aurora_scholar.External.{since_epoch, distance}
use aurora_scholar.Canonical.{obj, end}
use aurora_scholar.Canonical.Messages.{text_field}
use aurora_scholar.Storage.{Upload, article_fields}
use aurora_scholar.Publish.{hex_text, Server}
use aurora_scholar.Web.{Browser, Page, Signer, Reply, get_auth_token, token_key}
use aurora_scholar.Web.Session.{Gate, WalletHook, requires_auth, run_gate}
use aurora_scholar.Web.Session.Ready.{HasToken, run_gate-ready}
use aurora_scholar.Web.Crypto.{Subtle, hex_to_bytes, hex_to_bytes-hex_text}
use aurora_scholar.Web.Assistant.{Call, post_json}
use aurora_scholar.Web.Assistant.Requests.{post_json-requests}
use aurora_scholar.Web.Toasts.{
  ToastInput, ToastItem, Toasts, first_toasts, start, toasted, removed, toast, remove,
}
use aurora_scholar.Web.Toasts.Timed.{IsTimed, shown_lem}
use aurora_scholar.Web.PrivatePage.{Reader, run_page}
use aurora_scholar.Web.PrivatePage.Stored.{shown, run_page-shows_nothing}
use aurora_scholar.Web.Modal
use aurora_scholar.Web.Modal.{Modal, form, Draft, Solana, Translation, Draw, payload_of_draft}
use aurora_scholar.Web.Modal.Accepted.{IsAccepted, prepare_publish-accepts}
use aurora_scholar.Prelude.{In}
use aurora_scholar.Tests.World.{copies, copies-IsByte, prisma, cipher, no_rows}
use aurora_scholar.Tests.Publication.{env, moment}

abbrev upload : Upload
upload = record {
  content = units "{}";
  title = units "T";
  declared_intuition = [];
  metadata = record {
    ai_scope = [];
    is_public = false;
    author = units "A";
    content_hash = units "43";
    intuition_hash = units "44";
    encrypted = true;
  };
}

abbrev stored : Reply
stored = record {
  status = 200;
  text = [];
  json = some (obj (article_fields upload (units "2026")));
}

-- Every request is answered with one article.
abbrev browser : Browser
browser = record {
  Net = Unit {0};
  fetch = λ r net. (some stored, net);
  fetch_error = units "Failed to fetch";
  json_error = units "Unexpected token";
  undefined_error = units "Cannot read properties of undefined";
  btoa = λ t. t;
  atob = λ t. some t;
  base64_error = units "InvalidCharacterError";
  has_window = true;
  api_variable = none;
  production = true;
}

abbrev page : {U : Type 0} → U → Page browser U
page ui = record { storage = []; net = tt; requests = []; notices = []; ui = ui }

abbrev signer : Signer
signer = record {
  address = units "A";
  sign_message = λ bytes. some (copies 64 65);
  rejection = units "User rejected the request.";
}

abbrev subtle : Subtle
subtle = record {
  encrypt = λ key iv bytes. bytes;
  decrypt = λ key iv bytes. some bytes;
  decrypt_error = units "OperationError";
  parse = λ bytes. none;
  digest = λ bytes. bytes;
}

hex_to_bytes-hex_text_example :
    hex_to_bytes {S = ℕ} (hex_text (copies 32 0)) 7 ≡ (ok (copies 32 0), 7)
hex_to_bytes-hex_text_example = hex_to_bytes-hex_text (copies 32 0) 7 refl (copies-IsByte 32)

abbrev note : ToastInput
note = record { kind = none; title = none; message = units "m"; duration_ms = none }

abbrev two_notices : Toasts
two_notices = remove (units "x") (toast (units "y") note (toast (units "x") note first_toasts))

shown_lem_example :
    (length two_notices.items ≤ 5)
    × ((t : ToastItem) → In t two_notices.items → IsTimed two_notices t)
shown_lem_example =
    shown_lem two_notices
      (removed (units "x") (toasted (units "y") note (toasted (units "x") note start)))

abbrev call : Call
call = record {
  path = units "/api/ai-assistant/chat";
  body = text_field "question" (units "q") end;
  cookie_locale = some (units "pt");
}

post_json-requests_example :
    length (post_json browser (some signer) (λ m. m) call (page tt)).1.requests ≤ 4 + 0
post_json-requests_example =
    post_json-requests browser (Unit {0}) (some signer) (λ m. m) call (page tt)

abbrev reader : Reader
reader = record {
  title = [];
  arweave_id = [];
  content = [];
  intuition = [];
  is_loading = false;
  ui_error = none;
}

run_page-shows_nothing_example :
    shown (run_page browser subtle (λ t. t) false (units "a1") (some signer) (page reader)).1
    ≡ ([], [])
run_page-shows_nothing_example =
    run_page-shows_nothing browser (λ t. t) subtle false
      (λ id net reply came fine.
        let same : some stored ≡ some reply = came in (upload, units "2026", cc))
      (units "a1") (some signer) (page reader)

abbrev hook : WalletHook
hook = record { connected = true; address = some (units "A"); signer = some signer }

abbrev closed : Page browser Gate
closed = record (page (record { is_signing_in = false; ready = false })) {
  storage = (token_key, units "t") ∷ [];
}

abbrev opened : Page browser Gate
opened = record closed { ui = record { is_signing_in = false; ready = true } }

gate_run : run_gate browser (units "/editor") hook false closed ≡ (ok tt, opened)
unfolding run_gate requires_auth get_auth_token JsMap.get list_beq ◌>>=◌
gate_run = refl

editor_needs : requires_auth (units "/editor") ≡ true
unfolding requires_auth list_beq
editor_needs = refl

run_gate-ready_example : HasToken opened
run_gate-ready_example =
    run_gate-ready browser refl (units "/editor") hook closed opened editor_needs gate_run refl

abbrev draft : Draft
draft = record {
  title = units "T";
  content = units "C";
  declared_intuition = units "D";
  ai_scope = [];
  is_public = true;
}

abbrev draw : Draw
draw = record { created_at = 1000 ∷ []; key_bytes = copies 32 0; iv = copies 12 0 }

abbrev solana : Solana
solana = record {
  derive_article_pda = λ author hash. units "P";
  latest_blockhash = ok (units "B");
  compile_message = λ tx. ok tt;
  balances = λ tx. ok (record { balance = 10; fee = none; rent_exempt = 1 });
  simulate = λ tx. ok (record { failure = none; logs = [] });
  send_transaction = λ tx. ok (units "S");
  confirm_transaction = λ signature. ok tt;
}

abbrev translation : Translation
translation = record { t = λ key values. units key; sol = λ lamports. [] }

abbrev modal : Modal
modal = record {
  step = form;
  is_publishing = false;
  success_info = none;
  called_back = false;
  redirect = none;
}

abbrev wallet : Modal.WalletHook
wallet = record { address = some (units "A"); sends = true; signer = some signer }

-- The server with a digest of bytes.
abbrev server : Server prisma
server = record env { cipher = record cipher { sha256 = utf8 } }

prepare_publish-accepts_example :
    IsAccepted prisma server subtle
      (units "A")
      (copies 64 65)
      (1000 ∷ [])
      draft
      moment
      (units "tx")
      no_rows
prepare_publish-accepts_example =
    prepare_publish-accepts prisma server subtle (λ t. refl) (units "A") (copies 64 65) (1000 ∷ [])
      draft moment (since_epoch 1000) (units "tx") no_rows refl (λ e. cc) (λ e. cc) (λ e. cc)
      (λ e. cc) (λ e. cc)
      (unfold list_beq in
        record { key = units "A"; parsed = refl; length_64 = refl; verified = refl })
      refl (unfold distance in omega arith)
      (record { private_key = units "k"; configured = refl; set_up = refl; answered = refl })
