-- ===== src/Web/Assistant.antt =====
-- The web client's calls of the AI assistant: postJson of apps/web/src/lib/api/aiAssistant.ts, with
-- its one retry behind a renewed token.
pub mod Requests
use aurora_scholar.Prelude.{
  ℕ, Bool, true, false, Option, none, some, [], ◌∷◌, ◌++◌, List, map, String, if◌then◌else◌, ◌==◌,
  nat_eq, list_eq, ◌&&◌, ◌||◌, or_else,
}
use aurora_scholar.Text.{Text, units, strip_prefix, includes, to_lower}
use aurora_scholar.Http.{Handler, ApiError, pure, throw, recover, ◌>>=◌, ◌>>◌}
use aurora_scholar.JsMap.{JsMap}
use aurora_scholar.Canonical.{Value, null, bool, num, str, arr, obj, Fields, end, field, digits}
use aurora_scholar.Json.{prop, either, string_or}
use aurora_scholar.Web.{
  Browser, Page, Signer, Request, Reply, post, error, fetch, is_ok, content_type, get_api_base_url,
  get_auth_header,
}
use aurora_scholar.Web.Session.{refresh_auth_token}

-- `{ ...body, key: value }`
abbrev pub set_member : Text → Value → Fields → Fields
set_member key value end = field key value end
set_member key value (field j v fs) =
    if j == key then field key value fs else field j v (set_member key value fs)

abbrev is_true : Option Value → Bool
is_true none = false
is_true (some null) = false
is_true (some (bool x)) = x
is_true (some (num n)) = false
is_true (some (str t)) = false
is_true (some (arr xs)) = false
is_true (some (obj fs)) = false

-- `{ success: true, data }` gives the data, every other value itself.
unfoldable pub data_of : Option Value → Option Value
data_of json = if is_true (prop "success" json) then prop "data" json else json

-- `toLowerCase`, as far as ASCII letters come of it: the Kelvin sign is one of theirs.
abbrev lower_unit : ℕ → ℕ
lower_unit u = if u == 0x212a then 107 else to_lower u

-- The tests of a failed answer for a token that has run out.
unfoldable pub asks_for_token : ℕ → Text → Bool
asks_for_token status message =
    let lower = map lower_unit message in
    status == 401
    || includes (units "jwt") lower
    || includes (units "token") lower
    || includes (units "expired") lower

abbrev leading_slash : Option Text → Text
leading_slash none = 47 ∷ []
leading_slash (some rest) = []

abbrev language : Text → Text
language locale = if locale == units "pt" then units "pt-BR,pt" else units "en"

-- What the page is asked for: the path, the object, and the value of the cookie NEXT_LOCALE.
pub record Call : Type 0 where
  pub path : Text
  pub body : Fields
  pub cookie_locale : Option Text

module _ (b : Browser) where
  unfoldable pub post_url : Text → Text
  post_url path = get_api_base_url b ++ (leading_slash (strip_prefix (units "/") path) ++ path)

  unfoldable pub post_request : Call → List (Text × Text) → Request
  post_request call header =
      let locale = or_else call.cookie_locale (units "en") in
      record {
        method = post;
        url = post_url call.path;
        headers = content_type ∷ (units "Accept-Language", language locale) ∷ header;
        body = some (set_member (units "locale") (str locale) call.body);
      }

abbrev failure_text : Reply → Text
failure_text res =
    string_or (either (prop "message" res.json) (prop "error" res.json))
      (units "HTTP " ++ digits res.status)

-- `{message}. Por favor, reconecte sua wallet.`
abbrev reconnect : ApiError → ApiError
reconnect e = error (
    or_else (some e.message) (units "Falha ao renovar autenticação")
    ++ units ". Por favor, reconecte sua wallet.")

module _ (b : Browser) {U : Type 0} where
  -- The second attempt, `retryOnAuth` being false; it is returned without `await`, so that its error
  -- is not caught.
  unfoldable pub post_again : Call → Handler (Page b U) (Option Value)
  post_again call = do
    header ← get_auth_header b
    res ← fetch b (post_request b call header)
    if is_ok res then pure (data_of res.json) else throw (error (failure_text res))

  unfoldable pub post_json :
      Option Signer
      → (meanwhile : JsMap Text → JsMap Text) → Call
      → Handler (Page b U) (Option Value)
  post_json phantom meanwhile call = do
    header ← get_auth_header b
    res ← fetch b (post_request b call header)
    if is_ok res
        then pure (data_of res.json)
        else if asks_for_token res.status (failure_text res)
        then (do
          recover (refresh_auth_token b phantom meanwhile) (λ e. throw (reconnect e))
          post_again call)
        else throw (error (failure_text res))
