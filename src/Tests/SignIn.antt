-- ===== src/Tests/SignIn.antt =====
-- A sign-in, and the requests that its token opens.
use aurora_scholar.Prelude.{
  ltb, if◌then◌else◌, ◌/◌, ◌*◌, ◌+◌, ◌≡◌, ◌≢◌, refl, true, none, some, [], ◌∷◌, ◌++◌, arith,
  list_beq, List,
}
use aurora_scholar.Text.{strip_prefix_ci, span, Text, units, strip_prefix}
use aurora_scholar.Http.{ok, err, create_error, ◌>>=◌}
use aurora_scholar.JsMap
use aurora_scholar.Auth.{
  Challenge, Challenges, VerifyBody, SignedIn, token_lifetime, auth_challenge, auth_verify,
  check_fresh,
}
use aurora_scholar.Auth.SignIn.{
  IsOpen, IsSigned, IsSignedIn, auth_verify_sound, auth_verify_complete, no_replay,
  challenge_then_verify,
}
use aurora_scholar.Auth.Tickets.{
  AuthRequest, asked, proved, tickets, serve_auth, serve_tickets, serve_auth-refines,
}
use aurora_scholar.Guard.{
  bearer_token, Method, get, post, put, signed_in, anonymous, require_auth, is_public,
  is_article_path, other,
}
use aurora_scholar.Guard.Routes.{IsOpenRequest, listing, is_public_complete}
use aurora_scholar.Guard.Bearer.{Passes, require_auth_sound, require_auth_open, token_opens}
use aurora_scholar.Tests.World.{copies, wallets, tokens}

abbrev wallet : Text
wallet = units "A"

abbrev nonce : Text
nonce = units "n1"

abbrev secret : Text
secret = units "s"

abbrev signature : Text
signature = copies 64 65

abbrev challenge : Challenge
challenge = record { nonce = nonce; expires_at = 300005 }

abbrev waiting : Challenges
waiting = (wallet, challenge) ∷ []

abbrev body : VerifyBody
body = record { wallet = some wallet; signature = some signature; nonce = some nonce }

abbrev answer : SignedIn
answer = record {
  token = tokens.sign secret wallet token_lifetime 7;
  wallet = wallet;
  expires_in = units "2h";
}

waits : IsOpen wallets waiting 7 wallet nonce
unfolding JsMap.get list_beq
waits = record { challenge = challenge; found = refl; fresh = omega arith; same_nonce = refl }

signs : IsSigned wallets wallet nonce signature
unfolding list_beq
signs = record { key = wallet; parsed = refl; length_64 = refl; verified = refl }

wallet-given : wallet ≢ []
wallet-given e = cc

verified_run :
    auth_verify wallets tokens (some secret) body 7 waiting
    ≡ (ok answer, JsMap.delete wallet waiting)
verified_run =
    auth_verify_complete wallets tokens 7 waiting wallet nonce signature secret wallet-given
      (λ e. cc) (λ e. cc) (λ e. cc) waits signs

challenged_run : auth_challenge wallets (some wallet) nonce 5 [] ≡ (ok challenge, waiting)
unfolding auth_challenge ◌>>=◌ JsMap.set
challenged_run = refl

auth_verify_complete_example :
    auth_verify wallets tokens (some secret) body 7 waiting
    ≡ (ok answer, JsMap.delete wallet waiting)
auth_verify_complete_example =
    auth_verify_complete wallets tokens 7 waiting wallet nonce signature secret wallet-given
      (λ e. cc) (λ e. cc) (λ e. cc) waits signs

auth_verify_sound_example :
    IsSignedIn wallets tokens (some secret) body 7 waiting (JsMap.delete wallet waiting) answer
auth_verify_sound_example =
    auth_verify_sound wallets tokens (some secret) body 7 waiting (JsMap.delete wallet waiting)
      answer verified_run

no_replay_example :
    auth_verify wallets tokens (some secret) body 8 (JsMap.delete wallet waiting)
    ≡ (err (create_error "No active challenge for wallet" 400), JsMap.delete wallet waiting)
no_replay_example =
    no_replay wallets tokens (some secret) body body 7 8 waiting (JsMap.delete wallet waiting)
      answer signature nonce verified_run refl refl refl

challenge_then_verify_example :
    auth_verify wallets tokens (some secret) body 7 waiting
    ≡ (ok answer, JsMap.delete wallet waiting)
challenge_then_verify_example =
    challenge_then_verify wallets tokens 5 7 [] waiting wallet nonce signature secret challenge
      challenged_run (λ e. cc) (λ e. cc) (λ e. cc) (omega arith) signs

-- A request that needs a wallet.
grants_path-closed : (m : Method) → ¬ (IsOpenRequest (units "/access-control/grants") m)
unfolding is_public is_article_path strip_prefix list_beq
grants_path-closed m o =
    let h : is_public m (units "/access-control/grants") ≡ true = is_public_complete o in go m h
  where
    go : (m : Method) → ¬ (is_public m (units "/access-control/grants") ≡ true)
    go get h = cc
    go post h = cc
    go put h = cc
    go other h = cc

token_opens_example :
    require_auth tokens
      (some secret)
      9
      post
      (units "/access-control/grants")
      (some (units "Bearer " ++ answer.token))
    ≡ (if ltb (9 / 1000) (7 / 1000 + 2 * 60 * 60)
        then ok (signed_in answer.wallet)
        else err (create_error "jwt expired" 401))
token_opens_example =
    token_opens wallets tokens (some secret) body 7 9 waiting (JsMap.delete wallet waiting) answer
      post (units "/access-control/grants") verified_run (grants_path-closed post)

opened_run :
    require_auth tokens
      (some secret)
      9
      post
      (units "/access-control/grants")
      (some (units "Bearer " ++ tokens.sign secret wallet token_lifetime 7))
    ≡ ok (signed_in wallet)
unfolding require_auth is_public is_article_path bearer_token strip_prefix strip_prefix_ci span
    list_beq
opened_run = refl

require_auth_sound_example :
    Passes tokens
      (some secret)
      9
      post
      (units "/access-control/grants")
      (units "Bearer " ++ tokens.sign secret wallet token_lifetime 7)
      (signed_in wallet)
require_auth_sound_example =
    require_auth_sound tokens (some secret) 9 post (units "/access-control/grants")
      (some (units "Bearer " ++ tokens.sign secret wallet token_lifetime 7)) (signed_in wallet)
      opened_run

require_auth_open_example :
    require_auth tokens none 9 get (units "/articles") (some (units "x")) ≡ ok anonymous
require_auth_open_example =
    require_auth_open tokens none 9 get (units "/articles") (some (units "x")) (listing refl)

-- A challenge, its proof, and the proof again.
abbrev requests : List AuthRequest
requests = asked (some wallet) nonce 5 ∷ proved body 7 ∷ proved body 8 ∷ []

serve_auth-refines_example :
    serve_auth wallets tokens (some secret) requests []
    ≡ serve_tickets wallets tokens (some secret) requests (tickets [])
serve_auth-refines_example = serve_auth-refines wallets tokens (some secret) requests []

-- The wallet is signed in once.
served_once : (serve_auth wallets tokens (some secret) requests []).0 ≡ wallet ∷ []
unfolding serve_auth auth_challenge auth_verify check_fresh ◌>>=◌ JsMap.set JsMap.get list_beq
served_once = refl
