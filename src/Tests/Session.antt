-- ===== src/Tests/Session.antt =====
-- A browser that signs in against the API.
use aurora_scholar.Prelude.{◌≡◌, refl, some, [], arith, list_beq}
use aurora_scholar.Text.{units}
use aurora_scholar.Http.{ok}
use aurora_scholar.Auth.SignIn.{IsSigned}
use aurora_scholar.Web.{Page, Signer, token_key}
use aurora_scholar.Web.Session.{sign_in}
use aurora_scholar.Web.Session.Api.{api_browser}
use aurora_scholar.Web.Session.Served.{proved_page, sign_in-served}
use aurora_scholar.JsMap
use aurora_scholar.Tests.World.{copies, wallets, tokens}
use aurora_scholar.Web.{Browser}
use aurora_scholar.Text.{Text}

abbrev browser : Browser
browser = api_browser wallets tokens (some (units "s")) (units "n1") 50 (λ t. t)

abbrev page : Page browser (Unit {0})
page = record {
  storage = [];
  net = record { challenges = []; clock = 5 };
  requests = [];
  notices = [];
  ui = tt;
}

abbrev signer : Signer
signer = record { address = units "A"; sign_message = λ bytes. some (copies 64 65); rejection = [] }

abbrev token : Text
token = tokens.sign (units "s") (units "A") 7200 105

signs : IsSigned wallets (units "A") (units "n1") (copies 64 65)
unfolding list_beq
signs = record { key = units "A"; parsed = refl; length_64 = refl; verified = refl }

sign_in-served_example : sign_in browser signer page ≡ (
  ok token,
  record (proved_page wallets tokens
      (units "s")
      (units "n1")
      50
      (λ t. t)
      (units "A")
      (copies 64 65)
      page) { storage = JsMap.set token_key token [] },
)
sign_in-served_example =
    sign_in-served wallets tokens (units "s") (units "n1") 50 (λ t. t) signer (copies 64 65) page
      (λ e. cc) (λ e. cc) (λ e. cc) (λ e. cc) (omega arith) refl signs
