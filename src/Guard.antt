-- ===== src/Guard.antt =====
-- The gate before every /api route but /api/auth: apps/api/src/middleware/require-auth.ts.
-- Mounted at /api, so the path begins behind it. The clock and the secret are arguments.
pub mod Routes
pub mod Bearer
use aurora_scholar.Prelude.{
  ℕ, Bool, true, false, not, ◌&&◌, ◌||◌, Option, none, some, [], ◌∷◌, if◌then◌else◌, ◌==◌, nat_eq,
  list_eq, truthy, or_else,
}
use aurora_scholar.Text.{Text, units, strip_prefix, strip_prefix_ci, span, is_space, is_line_end}
use aurora_scholar.Http.{ApiError, Result, ok, err, create_error, create_error_text}
use aurora_scholar.External.{WebTokens, Verdict, claims, invalid}

pub data Method : Type 0 where
  get post put other : Method

abbrev pub slash : ℕ
slash = 47

abbrev pub not_slash : ℕ → Bool
not_slash u = not (u == slash)

abbrev is_empty : Text → Bool
is_empty [] = true
is_empty (u ∷ t) = false

-- The regular expression /^\/articles\/[^/]+SUFFIX$/, for a suffix that begins with a slash.
abbrev one_segment : Text → Option Text → Bool
one_segment suffix none = false
one_segment suffix (some rest) =
    let (segment, tail) = span not_slash rest in not (is_empty segment) && tail == suffix

unfoldable pub is_article_path : Text → Text → Bool
is_article_path suffix path = one_segment suffix (strip_prefix (units "/articles/") path)

-- The allowlist.
unfoldable pub is_public : Method → Text → Bool
is_public get path = path == units "/articles" || is_article_path (units "/content") path
is_public post path = is_article_path (units "/verify") path
is_public _ path = false

abbrev all_visible : Text → Bool
all_visible [] = true
all_visible (u ∷ t) = not (is_line_end u) && all_visible t

-- What `\s+(.+)$` captures where the white space reaches the end: its last unit, if there are two.
abbrev last_space : Text → Option Text
last_space [] = none
last_space (u ∷ []) = none
last_space (u ∷ v ∷ []) = if is_line_end v then none else some (v ∷ [])
last_space (u ∷ v ∷ w ∷ t) = last_space (v ∷ w ∷ t)

abbrev captured : Text × Text → Option Text
captured ([], rest) = none
captured (u ∷ spaces, []) = last_space (u ∷ spaces)
captured (u ∷ spaces, v ∷ rest) = if all_visible (v ∷ rest) then some (v ∷ rest) else none

abbrev behind_bearer : Option Text → Option Text
behind_bearer none = none
behind_bearer (some rest) = captured (span is_space rest)

-- What the group of /^Bearer\s+(.+)$/i captures.
unfoldable pub bearer_token : Text → Option Text
bearer_token header = behind_bearer (strip_prefix_ci (units "bearer") header)

-- `req.auth`: the wallet of the token's claims.
pub data Access : Type 0 where
  anonymous : Access
  signed_in : Text → Access

abbrev pub wallet_of : Access → Option Text
wallet_of anonymous = none
wallet_of (signed_in wallet) = some wallet

abbrev subject_of : Option Text → Result Access
subject_of none = err (create_error "Invalid token" 401)
subject_of (some wallet) = ok (signed_in wallet)

-- A message that `jwt.verify` throws becomes a 401.
abbrev from_verdict : Verdict → Result Access
from_verdict (claims subject) = subject_of (truthy subject)
from_verdict (invalid message) =
    err (create_error_text (or_else (some message) (units "Invalid token")) 401)

-- A missing secret is thrown inside the `try`, so it is a 401 too.
abbrev check_token : WebTokens → Option Text → ℕ → Text → Result Access
check_token jwt none now token = err (create_error "API_JWT_SECRET is not configured" 401)
check_token jwt (some secret) now token = from_verdict (jwt.verify token secret now)

abbrev check_header : WebTokens → Option Text → ℕ → Option Text → Result Access
check_header jwt secret now none = err (create_error "Missing Authorization Bearer token" 401)
check_header jwt secret now (some token) = check_token jwt secret now token

unfoldable pub require_auth :
    WebTokens
    → (secret_variable : Option Text) (now : ℕ) (method : Method) (path : Text)
      (authorization : Option Text)
    → Result Access
require_auth jwt secret_variable now method path authorization =
    if is_public method path
    then ok anonymous
    else check_header jwt (truthy secret_variable) now (bearer_token (or_else authorization []))
