-- ===== src/Web/Assistant/Requests.antt =====
-- How many requests one call of the assistant makes, and what it returns.
use aurora_scholar.Prelude.{
  ℕ, ◌+◌, ◌≤◌, ◌≡◌, refl, Bool, true, false, Option, none, some, List, length, arith, if◌then◌else◌,
  inl, inr, Option-cases, String,
}
use aurora_scholar.Text.{Text}
use aurora_scholar.Http.{
  Handler, ApiError, Result, ok, err, pure, throw, gets, need, modify, throw_if, recover, ◌>>=◌,
}
use aurora_scholar.Canonical.{Value}
use aurora_scholar.JsMap.{JsMap}
use aurora_scholar.Web.{
  Browser, Page, Signer, Request, fetch, get_auth_header, get_auth_token, set_auth_token,
  clear_auth_token, member_of,
}
use aurora_scholar.Web.Session.{
  sign_in, fetch_auth_challenge, fetch_auth_verify, refresh_auth_token, renew,
}
use aurora_scholar.Web.Assistant.{Call, post_again, post_json}

module _ (b : Browser) (U : Type 0) where
  -- The handler sends at most `n` requests.
  unfoldable Sends : {A : Type 0} → ℕ → Handler (Page b U) A → Type 0
  Sends n m = (s : Page b U) → length (m s).1.requests ≤ n + length s.requests

  after_first :
      {A B : Type 0} (r : Result A) (s1 : Page b U) (f : A → Handler (Page b U) B) (m n : ℕ)
      → ((a : A) → length (f a s1).1.requests ≤ n + m)
      → length s1.requests ≤ m
      → length (((λ (_ : Page b U). (r, s1)) >>= f) s1).1.requests ≤ n + m
  unfolding ◌>>=◌
  after_first (ok a) s1 f m n rest first = rest a
  after_first (err e) s1 f m n rest first = omega (arith, first)

  -- The steps of a handler send what each of them sends.
  bind-Sends :
      {A B : Type 0} (m n k : ℕ) (h : Handler (Page b U) A) (f : A → Handler (Page b U) B)
      → Sends m h
      → ((a : A) → Sends n (f a))
      → n + m ≤ k
      → Sends k (h >>= f)
  unfolding ◌>>=◌ Sends
  bind-Sends m n k h f first rest total s =
      let all =
        after_first (h s).0 (h s).1 f (m + length s.requests) n
          (λ a. omega (arith, rest a (h s).1, first s)) (first s) in
      omega (arith, all, total)

  pure-Sends : {A : Type 0} (a : A) → Sends 0 (pure a)
  unfolding Sends pure
  pure-Sends a s = omega arith

  throw-Sends : (A : Type 0) (e : ApiError) → Sends 0 (throw {A = A} e)
  unfolding Sends throw
  throw-Sends A e s = omega arith

  need-Sends : {A : Type 0} (o : Option A) (e : ApiError) → Sends 0 (need o e)
  unfolding Sends need
  need-Sends none e s = omega arith
  need-Sends (some a) e s = omega arith

  throw_if-Sends : (t : Bool) (e : ApiError) → Sends 0 (throw_if t e)
  unfolding Sends throw_if
  throw_if-Sends true e s = omega arith
  throw_if-Sends false e s = omega arith

  fetch-Sends : (r : Request) → Sends 1 (fetch b {U = U} r)
  unfolding Sends fetch need
  fetch-Sends r s = elim (Option-cases (b.fetch r s.net).0) [
    | inl gone ↦ rw gone (omega arith)
    | inr (reply, came) ↦ rw came (omega arith)
  ]

  if-Sends :
      {A : Type 0} (t : Bool) (n : ℕ) (h k : Handler (Page b U) A)
      → Sends n h
      → Sends n k
      → Sends n (if t then h else k)
  if-Sends true n h k x y = x
  if-Sends false n h k x y = y

  fewer : {A : Type 0} (n : ℕ) (h : Handler (Page b U) A) → Sends 0 h → Sends n h
  unfolding Sends
  fewer n h nothing s = omega (arith, nothing s)

  after_failure :
      {A : Type 0} (r : Result A) (s1 : Page b U) (f : ApiError → Handler (Page b U) A) (m n : ℕ)
      → ((e : ApiError) → length (f e s1).1.requests ≤ n + m)
      → length s1.requests ≤ m
      → length (recover (λ (_ : Page b U). (r, s1)) f s1).1.requests ≤ n + m
  unfolding recover
  after_failure (ok a) s1 f m n rest first = omega (arith, first)
  after_failure (err e) s1 f m n rest first = rest e

  recover-Sends :
      {A : Type 0} (n : ℕ) (h : Handler (Page b U) A) (f : ApiError → Handler (Page b U) A)
      → Sends n h
      → ((e : ApiError) → Sends 0 (f e))
      → Sends n (recover h f)
  unfolding recover Sends
  recover-Sends n h f first rest s =
      let all =
        after_failure (h s).0 (h s).1 f (n + length s.requests) 0
          (λ e. omega (arith, rest e (h s).1, first s)) (first s) in
      omega (arith, all)

  modify-Sends :
      (f : Page b U → Page b U)
      → ((s : Page b U) → (f s).requests ≡ s.requests)
      → Sends 0 (modify f)
  unfolding Sends modify
  modify-Sends f same s = rw (same s) (omega arith)

  gets-Sends : {A : Type 0} (f : Page b U → A) → Sends 0 (gets f)
  unfolding Sends gets
  gets-Sends f s = omega arith

  token-Sends : Sends 0 (get_auth_token b {U = U})
  unfolding get_auth_token
  token-Sends = if-Sends b.has_window 0 _ _ (gets-Sends _) (pure-Sends _)

  set_token-Sends : (token : Text) → Sends 0 (set_auth_token b {U = U} token)
  unfolding set_auth_token
  set_token-Sends token = if-Sends b.has_window 0 _ _ (modify-Sends _ (λ s. refl)) (pure-Sends _)

  clear_token-Sends : Sends 0 (clear_auth_token b {U = U})
  unfolding clear_auth_token
  clear_token-Sends = if-Sends b.has_window 0 _ _ (modify-Sends _ (λ s. refl)) (pure-Sends _)

  header-Sends : Sends 0 (get_auth_header b {U = U})
  unfolding get_auth_header
  header-Sends = bind-Sends 0 0 0 _ _ token-Sends (λ token. pure-Sends _) (omega arith)

  challenge-Sends : (wallet : Text) → Sends 1 (fetch_auth_challenge b {U = U} wallet)
  unfolding fetch_auth_challenge
  challenge-Sends wallet =
      bind-Sends 1 0 1 _ _ (fetch-Sends _)
        (λ res.
          bind-Sends 0 0 0 _ _ (need-Sends _ _)
            (λ json.
              bind-Sends 0 0 0 _ _ (if-Sends _ 0 _ _ (pure-Sends _) (throw-Sends _ _))
                (λ u. pure-Sends _) (omega arith))
            (omega arith))
        (omega arith)

  verify-Sends :
      (wallet : Text) (answer : Option Value) (bytes : List ℕ)
      → Sends 1 (fetch_auth_verify b {U = U} wallet answer bytes)
  unfolding fetch_auth_verify
  verify-Sends wallet answer bytes =
      bind-Sends 1 0 1 _ _ (fetch-Sends _)
        (λ res.
          bind-Sends 0 0 0 _ _ (need-Sends _ _)
            (λ json.
              bind-Sends 0 0 0 _ _ (if-Sends _ 0 _ _ (pure-Sends _) (throw-Sends _ _))
                (λ u.
                  bind-Sends 0 0 0 _ _ (need-Sends _ _)
                    (λ token.
                      bind-Sends 0 0 0 _ _ (set_token-Sends token) (λ u. pure-Sends _)
                        (omega arith))
                    (omega arith))
                (omega arith))
            (omega arith))
        (omega arith)

  member-Sends : (o : Option Value) (key : String) → Sends 0 (member_of b {U = U} key o)
  member-Sends none key = throw-Sends _ _
  member-Sends (some v) key =
      bind-Sends 0 0 0 _ _ (throw_if-Sends _ _) (λ u. pure-Sends _) (omega arith)

  sign_in-Sends : (signer : Signer) → Sends 2 (sign_in b {U = U} signer)
  unfolding sign_in
  sign_in-Sends signer =
      bind-Sends 1 1 2 _ _ (challenge-Sends signer.address)
        (λ ch.
          bind-Sends 0 1 1 _ _ (member-Sends ch "nonce")
            (λ answer.
              bind-Sends 0 1 1 _ _ (need-Sends _ _)
                (λ bytes. verify-Sends signer.address answer bytes) (omega arith))
            (omega arith))
        (omega arith)

  renew-Sends :
      (phantom : Option Signer) (meanwhile : JsMap Text → JsMap Text)
      → Sends 2 (renew b {U = U} phantom meanwhile)
  unfolding renew
  renew-Sends none meanwhile =
      bind-Sends 0 0 2 _ _ (modify-Sends _ (λ s. refl))
        (λ u. bind-Sends 0 0 0 _ _ token-Sends (λ token. need-Sends _ _) (omega arith))
        (omega arith)
  renew-Sends (some signer) meanwhile =
      bind-Sends 0 2 2 _ _ clear_token-Sends (λ u. sign_in-Sends signer) (omega arith)

  refresh-Sends :
      (phantom : Option Signer) (meanwhile : JsMap Text → JsMap Text)
      → Sends 2 (refresh_auth_token b {U = U} phantom meanwhile)
  unfolding refresh_auth_token
  refresh-Sends phantom meanwhile =
      if-Sends b.has_window 2 _ _ (renew-Sends phantom meanwhile) (fewer _ _ (throw-Sends _ _))

  again-Sends : (call : Call) → Sends 1 (post_again b {U = U} call)
  unfolding post_again
  again-Sends call =
      bind-Sends 0 1 1 _ _ header-Sends
        (λ header.
          bind-Sends 1 0 1 _ _ (fetch-Sends _)
            (λ res. if-Sends _ 0 _ _ (pure-Sends _) (throw-Sends _ _)) (omega arith))
        (omega arith)

  post-Sends :
      (phantom : Option Signer) (meanwhile : JsMap Text → JsMap Text) (call : Call)
      → Sends 4 (post_json b {U = U} phantom meanwhile call)
  unfolding post_json
  post-Sends phantom meanwhile call =
      bind-Sends 0 4 4 _ _ header-Sends
        (λ header.
          bind-Sends 1 3 4 _ _ (fetch-Sends _)
            (λ res. if-Sends _ 3 _ _ (fewer _ _ (pure-Sends _)) (
              if-Sends _ 3 _ _
                (bind-Sends 2 1 3 _ _
                  (recover-Sends 2 _ _ (refresh-Sends phantom meanwhile) (λ e. throw-Sends _ _))
                  (λ u. again-Sends call) (omega arith))
                (fewer _ _ (throw-Sends _ _))))
            (omega arith))
        (omega arith)

  -- One call of the assistant ends after at most four requests, whatever the server answers: the
  -- call, the challenge and the sign-in for a new token, and the call again.
  pub post_json-requests :
      (phantom : Option Signer) (meanwhile : JsMap Text → JsMap Text) (call : Call) (s : Page b U)
      → length (post_json b phantom meanwhile call s).1.requests ≤ 4 + length s.requests
  unfolding Sends
  post_json-requests phantom meanwhile call s = post-Sends phantom meanwhile call s
