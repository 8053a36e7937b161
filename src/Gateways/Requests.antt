-- ===== src/Gateways/Requests.antt =====
-- The retrieval as one list of at most twelve requests.
use aurora_scholar.Prelude.{
  ℕ, ◌+◌, ◌≡◌, ◌≢◌, ◌↔◌, refl, sym, ap, ◌∙◌, true, false, Option, none, some, List, [], ◌∷◌, ◌++◌,
  In, inl, inr, Bool-cases, Option-cases, length, ◌==◌, nat_eq,
}
use aurora_scholar.Text.{Text}
use aurora_scholar.Http.{ApiError, Result, ok, err}
use aurora_scholar.Canonical.{Value}
use aurora_scholar.Gateways.{
  Fetched, unreachable, refused, json, bad_json, body, Json, Attempt, found, thrown, again,
  is_error_page, is_article, looks_like_json, read_json, read_text, read_response, error_of,
  not_found, gateways, try_gateway, try_gateways, get_content,
}

-- The first attempt that is not repeated decides.
abbrev pub first_outcome : List Attempt → Result Value → Result Value
first_outcome [] otherwise = otherwise
first_outcome (found v ∷ rest) otherwise = ok v
first_outcome (thrown message ∷ rest) otherwise = err (error_of message)
first_outcome (again ∷ rest) otherwise = first_outcome rest otherwise

module _ (j : Json) (fetch : ℕ → Text → Fetched) (id : Text) where
  abbrev pub attempt : Text → ℕ → Attempt
  attempt g n = read_response j (fetch n (g ++ 47 ∷ id)) id

  -- The requests in their order: three at each gateway.
  abbrev pub attempts : List Text → ℕ → List Attempt
  attempts [] n = []
  attempts (g ∷ gs) n =
      attempt g n ∷ attempt g (n + 1) ∷ attempt g (n + 1 + 1) ∷ attempts gs (n + 3)

  three_attempts :
      (a b c : Attempt) (rest : List Attempt) (otherwise later : Result Value)
      → later ≡ first_outcome rest otherwise
      → first_outcome (a ∷ b ∷ c ∷ rest) otherwise
        ≡ elim (elim a as (λ _. Option (Result Value)) [
          | found v ↦ some (ok v)
          | thrown message ↦ some (err (error_of message))
          | again ↦ elim b as (λ _. Option (Result Value)) [
            | found v ↦ some (ok v)
            | thrown message ↦ some (err (error_of message))
            | again ↦ elim c as (λ _. Option (Result Value)) [
              | found v ↦ some (ok v)
              | thrown message ↦ some (err (error_of message))
              | again ↦ none
            ]
          ]
        ])
            as (λ _. Result Value) [ none ↦ later | some r ↦ r ]
  three_attempts (found v) b c rest o l h = refl
  three_attempts (thrown m) b c rest o l h = refl
  three_attempts again (found v) c rest o l h = refl
  three_attempts again (thrown m) c rest o l h = refl
  three_attempts again again (found v) rest o l h = refl
  three_attempts again again (thrown m) rest o l h = refl
  three_attempts again again again rest o l h = sym h

  try_gateways_lem :
      (gs : List Text) (n : ℕ)
      → try_gateways j fetch id gs true n ≡ first_outcome (attempts gs n) (err (not_found id))
  unfolding try_gateways try_gateway
  try_gateways_lem [] n = refl
  try_gateways_lem (g ∷ gs) n = sym (
      three_attempts (attempt g n) (attempt g (n + 1)) (attempt g (n + 1 + 1)) _ _ _
        (try_gateways_lem gs (n + 3)))

  -- What is tried again: no answer at all, and a 404.
  abbrev pub IsRetried : Fetched → Type 0
  IsRetried unreachable = Unit
  IsRetried (refused status text) = status ≡ 404
  IsRetried _ = ⊥

  read_json-ne-again : (value : Option Value) → read_json value id ≢ again
  unfolding read_json
  read_json-ne-again none e = cc
  read_json-ne-again (some v) e = elim (Bool-cases (is_article v)) [
    | inl right ↦ cc (rw right at e)
    | inr wrong ↦ cc (rw wrong at e)
  ]

  read_text-ne-again : (text : Text) → read_text j text id ≢ again
  unfolding read_text
  read_text-ne-again text e = elim (Bool-cases (is_error_page text)) [
    | inl page ↦ cc (rw page at e)
    | inr fine ↦ elim (Bool-cases (looks_like_json text)) [
      | inr other ↦ cc (rw (fine, other) at e)
      | inl object ↦ read_json-ne-again (j.parse text) (rw (fine, object) at e)
    ]
  ]

  read_response-eq-again_iff : (r : Fetched) → (read_response j r id ≡ again) ↔ IsRetried r
  unfolding read_response
  read_response-eq-again_iff unreachable = (λ e. tt, λ i. refl)
  read_response-eq-again_iff (refused status text) = elim (Bool-cases (status == 404)) [
    | inl missing ↦ (λ e. (nat_eq.beq_iff status 404).0 missing, λ i. rw missing refl)
    | inr failed ↦ (λ e. cc (rw failed at e), λ i. cc (failed, (nat_eq.beq_iff status 404).1 i))
  ]
  read_response-eq-again_iff (json v) = (λ e. cc, λ i. absurd i)
  read_response-eq-again_iff (bad_json message) = (λ e. cc, λ i. absurd i)
  read_response-eq-again_iff (body text) = (λ e. absurd (read_text-ne-again text e), λ i. absurd i)

  -- Retrieval is the first decisive one of twelve requests, three at each of four gateways in order: a
  -- 404 and an unreachable gateway, and nothing else, are tried again, and every other outcome is
  -- returned or thrown at once; if all twelve are in vain the article is reported as not found.
  pub get_content_lem :
      (gateway_variable : Option Text)
      → (get_content j fetch gateway_variable id
          ≡ first_outcome (attempts (gateways gateway_variable) 0) (err (not_found id)))
        × (length (attempts (gateways gateway_variable) 0) ≡ 12)
        × ((g : Text) (n : ℕ) → (attempt g n ≡ again) ↔ IsRetried (fetch n (g ++ 47 ∷ id)))
  unfolding get_content gateways try_gateways
  get_content_lem gateway_variable = (
    try_gateways_lem (gateways gateway_variable) 0,
    refl,
    λ g n. read_response-eq-again_iff (fetch n (g ++ 47 ∷ id)),
  )

  -- A value that a response yields: a body of JSON type, or a text that is no error page and parses
  -- to an object with a content or a title.
  abbrev pub IsSource : Fetched → Value → Type 0
  IsSource (json v') v = v' ≡ v
  IsSource (body text) v =
      (is_error_page text ≡ false) × (j.parse text ≡ some v) × (is_article v ≡ true)
  IsSource _ v = ⊥

  read_text-found :
      (text : Text) (v : Value) → read_text j text id ≡ found v → IsSource (body text) v
  unfolding read_text read_json
  read_text-found text v e = elim (Bool-cases (is_error_page text)) [
    | inl page ↦ cc (rw page at e)
    | inr fine ↦ elim (Bool-cases (looks_like_json text)) [
      | inr other ↦ cc (rw (fine, other) at e)
      | inl object ↦ elim (Option-cases (j.parse text)) [
        | inl broken ↦ cc (rw (fine, object, broken) at e)
        | inr (v', parsed) ↦ elim (Bool-cases (is_article v')) [
          | inr wrong ↦ cc (rw (fine, object, parsed, wrong) at e)
          | inl right ↦
              let same : v' ≡ v = cc (rw (fine, object, parsed, right) at e) in
              (fine, parsed ∙ ap some same, rw (← same) right)
        ]
      ]
    ]
  ]

  read_response-found : (r : Fetched) (v : Value) → read_response j r id ≡ found v → IsSource r v
  unfolding read_response
  read_response-found unreachable v e = cc
  read_response-found (refused status text) v e = elim (Bool-cases (status == 404)) [
    | inl missing ↦ cc (rw missing at e)
    | inr failed ↦ cc (rw failed at e)
  ]
  read_response-found (json v') v e = cc
  read_response-found (bad_json message) v e = cc
  read_response-found (body text) v e = read_text-found text v e

  first_outcome-found :
      (rs : List Attempt) (message : ApiError) (v : Value)
      → first_outcome rs (err message) ≡ ok v
      → In (found v) rs
  first_outcome-found [] message v e = cc
  first_outcome-found (found v' ∷ rs) message v e = let same : v' ≡ v = cc in inl (rw same refl)
  first_outcome-found (thrown m ∷ rs) message v e = cc
  first_outcome-found (again ∷ rs) message v e = inr (first_outcome-found rs message v e)

  request_of :
      (gs : List Text) (n : ℕ) (v : Value)
      → In (found v) (attempts gs n)
      → (k : ℕ) × (g : Text) × In g gs × IsSource (fetch k (g ++ 47 ∷ id)) v
  request_of [] n v h = elim h [ ]
  request_of (g ∷ gs) n v (inl e) = (n, g, inl refl, read_response-found _ v e)
  request_of (g ∷ gs) n v (inr (inl e)) = (n + 1, g, inl refl, read_response-found _ v e)
  request_of (g ∷ gs) n v (inr (inr (inl e))) = (n + 1 + 1, g, inl refl, read_response-found _ v e)
  request_of (g ∷ gs) n v (inr (inr (inr i))) =
      let (k, h, at, source) = request_of gs (n + 3) v i in (k, h, inr at, source)

  -- What is returned was sent by one of the four gateways, as JSON, or as a text that parses to an
  -- object with a content or a title; an HTML error page is never returned.
  pub get_content_sound :
      (gateway_variable : Option Text) (v : Value)
      → get_content j fetch gateway_variable id ≡ ok v
      → (k : ℕ) × (g : Text) × In g (gateways gateway_variable)
        × IsSource (fetch k (g ++ 47 ∷ id)) v
  get_content_sound gateway_variable v e =
      request_of (gateways gateway_variable) 0 v
        (first_outcome-found _ (not_found id) v (sym (get_content_lem gateway_variable).0 ∙ e))
