-- ===== src/Gateways.antt =====
-- Retrieval from Arweave: `getContent` of apps/api/src/services/storage.service.ts. The network is a
-- function of the request's number and its address; the pauses between retries are left out.
pub mod Requests
use aurora_scholar.Prelude.{
  ℕ, zero, suc, ◌+◌, Bool, true, false, ◌&&◌, ◌||◌, Option, none, some, List, [], ◌∷◌, ◌++◌, ltb,
  leb, ◌==◌, nat_eq, list_eq, if◌then◌else◌,
}
use aurora_scholar.Text.{Text, units, is_space, includes}
use aurora_scholar.Http.{ApiError, Result, ok, err}
use aurora_scholar.Canonical.{Value, null, bool, num, str, arr, obj, Fields, end, field, digits}
use aurora_scholar.Storage.{get_gateway_url}

-- What a request ends in: an error named AbortError or TypeError, a status outside 200-299 with its
-- text, a body of JSON type (parsed, or the message of the error), or any other body.
pub data Fetched : Type 0 where
  unreachable : Fetched
  refused : (status : ℕ) (status_text : Text) → Fetched
  json : Value → Fetched
  bad_json : (message : Text) → Fetched
  body : Text → Fetched

-- `JSON.parse`; `none`: it throws.
pub record Json : Type 0 where
  pub parse : Text → Option Value

-- What one attempt comes to: the value that is returned, an error that is thrown, or one more try.
pub data Attempt : Type 0 where
  found : Value → Attempt
  thrown : Text → Attempt
  again : Attempt

unfoldable pub is_error_page : Text → Bool
unfolding includes
is_error_page text =
    includes (units "This page cannot be found") text
    || includes (units "might have to wait for it to be mined") text
    || includes (units "<!DOCTYPE html>") text
    || includes (units "<html") text
    || includes (units "expired domains") text && includes (units "GoDaddy") text

-- `text.trim().startsWith('{') || text.trim().startsWith('[')`
unfoldable pub looks_like_json : Text → Bool
looks_like_json [] = false
looks_like_json (u ∷ t) =
    let rest = looks_like_json t in if is_space u then rest else u == 123 || u == 91

unfoldable pub has_field : Text → Fields → Bool
has_field k end = false
has_field k (field j v fs) = j == k || has_field k fs

-- An object with a content or a title.
unfoldable pub is_article : Value → Bool
unfolding has_field
is_article (obj fs) = has_field (units "content") fs || has_field (units "title") fs
is_article _ = false

-- The messages end in the transaction's id and, some of them, in an address to look at.
abbrev with_id : Text → Text → Text
with_id message id = message ++ (units "Transaction ID: " ++ id)

unfoldable pub read_json : Option Value → Text → Attempt
read_json none id = thrown (
    with_id (units "Failed to parse article content. The transaction may still be processing. ") id)
read_json (some v) id =
    if is_article v
    then found v
    else thrown (
        with_id
          (units "Article content structure is invalid. The transaction may still be processing. ")
          id
        ++ (units ". Check status at: https://arweave.net/" ++ id))

unfoldable pub read_text : Json → Text → Text → Attempt
unfolding read_json
read_text j text id =
    if is_error_page text
    then thrown (
        with_id (units "Article not found on Arweave. The transaction may still be processing. ") id
        ++ (units ". Check status at: https://viewblock.io/arweave/tx/"
            ++ (id ++ (units " or https://arweave.net/" ++ id))))
    else if looks_like_json text
    then read_json (j.parse text) id
    else thrown (
        with_id
          (units
            "Article content format is invalid. Expected JSON but received text. The transaction may still be processing. ")
          id
        ++ (units ". Check status at: https://arweave.net/" ++ id))

unfoldable pub read_response : Json → Fetched → Text → Attempt
unfolding read_text
read_response j unreachable id = again
read_response j (refused status status_text) id =
    if status == 404
    then again
    else thrown (units "Failed to fetch content: " ++ (digits status ++ (32 ∷ status_text)))
read_response j (json v) id = found v
read_response j (bad_json message) id = thrown message
read_response j (body text) id = read_text j text id

-- `new Error(message)`
abbrev pub error_of : Text → ApiError
error_of message = record { message = message; status_code = none }

unfoldable pub not_found : Text → ApiError
not_found id = error_of (
    with_id
      (units
        "Article not found on Arweave after trying multiple gateways. It may still be processing (can take a few minutes). ")
      id
    ++ (units ". Check status at: https://viewblock.io/arweave/tx/"
        ++ (id ++ (units " or https://arweave.net/" ++ id))))

unfoldable pub gateways : Option Text → List Text
gateways variable =
    get_gateway_url variable
    ∷ units "https://arweave.net"
    ∷ units "https://ar-io.net"
    ∷ units "https://arweave.live"
    ∷ []

module _ (j : Json) (fetch : ℕ → Text → Fetched) (id : Text) where
  -- The attempts that are left at one gateway, `n` requests made before; `none`: all of them were
  -- in vain, and there is a `lastError`.
  unfoldable pub try_gateway : Text → (left n : ℕ) → Option (Result Value)
  try_gateway g zero n = none
  try_gateway g (suc left) n =
      let rest = try_gateway g left (n + 1) in
      elim (read_response j (fetch n (g ++ 47 ∷ id)) id) [
        | found v ↦ some (ok v)
        | thrown message ↦ some (err (error_of message))
        | again ↦ rest
      ]

  -- `failed` says whether there is a `lastError`; a gateway is given up after three requests.
  unfoldable pub try_gateways : List Text → (failed : Bool) (n : ℕ) → Result Value
  try_gateways [] true n = err (not_found id)
  try_gateways [] false n = err (error_of (units "Failed to get content: Unknown error"))
  try_gateways (g ∷ gs) failed n =
      let rest = try_gateways gs true (n + 3) in
      elim (try_gateway g 3 n) [ none ↦ rest | some r ↦ r ]

unfoldable pub get_content : Json → (ℕ → Text → Fetched) → Option Text → Text → Result Value
get_content j fetch gateway_variable id =
    try_gateways j fetch id (gateways gateway_variable) false 0
