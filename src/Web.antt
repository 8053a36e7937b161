-- ===== src/Web.antt =====
-- The web client's requests (apps/web/src/lib/api/baseUrl.ts, lib/auth/token.ts, and what every page
-- does with `fetch`). The network is a parameter with a state of its own; a page keeps its local
-- storage, the requests it has sent and the notices it has shown, newest first.
pub mod Session
pub mod Crypto
pub mod Assistant
pub mod Modal
pub mod PrivatePage
pub mod Toasts
pub mod Sources
pub mod Draft
pub mod Reopened
use aurora_scholar.Prelude.{
  ℕ, Bool, true, false, Option, none, some, List, [], ◌∷◌, ◌++◌, leb, if◌then◌else◌, ◌==◌, nat_eq,
  ◌&&◌, or_else, truthy, String, list_eq,
}
use aurora_scholar.Text.{Text, units}
use aurora_scholar.Http.{ApiError, Handler, pure, throw, gets, need, modify, throw_if, ◌>>=◌, ◌>>◌}
use aurora_scholar.JsMap
use aurora_scholar.JsMap.{JsMap}
use aurora_scholar.Canonical.{Value, null, bool, num, str, arr, obj, digits, Fields, field}
use aurora_scholar.Json.{prop, either, given, string_or}

-- What `fetch` is given: the method, 'POST' or 'GET', and the object whose `JSON.stringify` is the
-- body. A member that is undefined is left out of it.
pub data Method : Type 0 where
  get post : Method

pub record Request : Type 0 where
  pub method : Method
  pub url : Text
  pub headers : List (Text × Text)
  pub body : Option Fields

-- An answer: its text, and the value that the text is JSON of.
pub record Reply : Type 0 where
  pub status : ℕ
  pub text : Text
  pub json : Option Value

-- The browser and the network behind it.
pub record Browser : Type 1 where
  pub Net : Type 0
  -- `none`: the promise is rejected.
  pub fetch : Request → Net → Option Reply × Net
  -- The messages of the errors that `fetch` and `JSON.parse` reject with, and of a read of a member
  -- of `undefined` or `null`.
  pub fetch_error : Text
  pub json_error : Text
  pub undefined_error : Text
  -- Over texts whose units are bytes; `atob` throws on what is not base64.
  pub btoa : Text → Text
  pub atob : Text → Option Text
  pub base64_error : Text
  -- `typeof window !== 'undefined'`
  pub has_window : Bool
  -- NEXT_PUBLIC_API_URL, and whether NODE_ENV is 'production'.
  pub api_variable : Option Text
  pub production : Bool

pub data NoticeKind : Type 0 where
  success_notice error_notice info_notice : NoticeKind

-- `ToastInput`
pub record Notice : Type 0 where
  pub kind : NoticeKind
  pub title : Text
  pub message : Text
  pub duration : Option ℕ

-- A page, with the state `U` of its component.
pub record Page (b : Browser) (U : Type 0) : Type 0 where
  pub storage : JsMap Text
  pub net : b.Net
  pub requests : List Request
  pub notices : List Notice
  pub ui : U

-- `new Error(message)`
abbrev pub error : Text → ApiError
error message = record { message = message; status_code = none }

-- The wallet of the page: its address, and its signatures, `none` where the user rejects.
pub record Signer : Type 0 where
  pub address : Text
  pub sign_message : List ℕ → Option (List ℕ)
  pub rejection : Text

-- `.replace(/\/+$/, '')`
unfoldable pub trim_slashes : Text → Text
trim_slashes [] = []
trim_slashes (u ∷ t) = let rest = trim_slashes t in if u == 47 && rest == [] then [] else u ∷ rest

-- `res.ok`
abbrev pub is_ok : Reply → Bool
is_ok r = leb 200 r.status && leb r.status 299

abbrev is_null : Value → Bool
is_null null = true
is_null (bool x) = false
is_null (num n) = false
is_null (str t) = false
is_null (arr xs) = false
is_null (obj fs) = false

-- `json?.error || json?.message || `HTTP ${res.status}``
unfoldable pub error_text : Option Value → ℕ → Text
error_text json status =
    string_or (either (prop "error" json) (prop "message" json)) (units "HTTP " ++ digits status)

module _ (b : Browser) where
  unfoldable pub get_api_base_url : Text
  unfolding trim_slashes
  get_api_base_url =
      let local_url = if b.production then [] else units "http://localhost:3001" in
      or_else (some (trim_slashes (or_else b.api_variable []))) local_url

abbrev pub token_key : Text
token_key = units "aurora-auth-token"

abbrev pub bearer : Option Text → List (Text × Text)
bearer none = []
bearer (some token) = (units "Authorization", units "Bearer " ++ token) ∷ []

module _ (b : Browser) {U : Type 0} where
  abbrev received : Option Reply → Handler (Page b U) Reply
  received answer = need answer (error b.fetch_error)

  unfoldable pub fetch : Request → Handler (Page b U) Reply
  fetch r s =
      let (answer, net) = b.fetch r s.net in
      received answer (record s { net = net; requests = r ∷ s.requests })

  -- `res.json()`
  abbrev pub json_of : Reply → Handler (Page b U) Value
  json_of r = need r.json (error b.json_error)

  -- `value.key`
  abbrev pub member_of : String → Option Value → Handler (Page b U) (Option Value)
  member_of key none = throw (error b.undefined_error)
  member_of key (some v) =
      throw_if (is_null v) (error b.undefined_error) >> pure (prop key (some v))

  -- `if (!res.ok) throw new Error(…)`
  abbrev pub check_ok : Reply → Value → Handler (Page b U) (Unit {0})
  check_ok r json = if is_ok r then pure tt else throw (error (error_text (some json) r.status))

  unfoldable pub get_auth_token : Handler (Page b U) (Option Text)
  get_auth_token = if b.has_window then gets (λ s. JsMap.get token_key s.storage) else pure none

  unfoldable pub set_auth_token : Text → Handler (Page b U) (Unit {0})
  set_auth_token token =
      if b.has_window
      then modify (λ s. record s { storage = JsMap.set token_key token s.storage })
      else pure tt

  unfoldable pub clear_auth_token : Handler (Page b U) (Unit {0})
  clear_auth_token =
      if b.has_window
      then modify (λ s. record s { storage = JsMap.delete token_key s.storage })
      else pure tt

  unfoldable pub get_auth_header : Handler (Page b U) (List (Text × Text))
  unfolding get_auth_token
  get_auth_header = do token ← get_auth_token; pure (bearer (truthy token))

  -- `toast(…)`
  unfoldable pub notify : NoticeKind → String → Text → Option ℕ → Handler (Page b U) (Unit {0})
  notify kind title message duration = modify λ s. record s {
    notices =
        record { kind = kind; title = units title; message = message; duration = duration }
        ∷ s.notices;
  }

-- A member that is left out where it is undefined.
abbrev pub optional_field : String → Option Value → Fields → Fields
optional_field key none fs = fs
optional_field key (some v) fs = field (units key) v fs

abbrev pub content_type : Text × Text
content_type = (units "Content-Type", units "application/json")
