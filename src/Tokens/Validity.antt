-- ===== src/Tokens/Validity.antt =====
-- What a token opens, and for how long.
use mathlib.Core.Option
use aurora_scholar.Prelude.{
  ℕ, ◌≤◌, ◌≡◌, ◌≢◌, refl, ap, ◌∙◌, Option, none, some, [], truthy, truthy-eq-some, truthy_of_ne-nil,
  beq_refl, beq_ne, Bool-cases, Option-cases, inl, inr, if◌then◌else◌, ◌==◌, nat_eq, list_eq,
  le→leb,
}
use aurora_scholar.Text.{Text}
use aurora_scholar.Http.{Result, ok, err, create_error, ◌>>=◌}
use aurora_scholar.Http.Inversion.{need-bind, gets-bind, modify-bind, modify-ok, pure-ok}
use aurora_scholar.Database.{AccessToken, Prisma}
use aurora_scholar.Expiration.{calculate_expiration, is_expired}
use aurora_scholar.Tokens.{
  TokenBody, Generated, TokenTable, generate_token, revoke_token, validate_token,
}

-- The answer to a token whose row is known.
abbrev pub verdict : AccessToken → ℕ → Result Text
verdict row now =
    if is_expired row.expires_at now
    then err (create_error "Token has expired" 403)
    else ok row.article_id

abbrev pub verdict? : Option AccessToken → ℕ → Result Text
verdict? none now = err (create_error "Invalid token" 403)
verdict? (some row) now = verdict row now

module _ (p : Prisma) where
  -- A token is judged by its row alone, and judging changes nothing.
  validate_token_lem :
      (token : Text) (now : ℕ) (t : TokenTable p)
      → token ≢ []
      → validate_token p (some token) now t ≡ (verdict? (p.tokens.find_unique t token) now, t)
  unfolding validate_token ◌>>=◌
  validate_token_lem token now t h = elim (Option-cases (p.tokens.find_unique t token)) [
    | inl unknown ↦ rw (truthy_of_ne-nil token h, unknown)
    | inr (row, found) ↦ elim (Bool-cases (is_expired row.expires_at now)) [
      | inl late ↦ rw (truthy_of_ne-nil token h, found, late)
      | inr fresh ↦ rw (truthy_of_ne-nil token h, found, fresh)
    ]
  ]

  pub record IsGenerated (body : TokenBody) (token : Text) (now : ℕ) (t t' : TokenTable p)
      (g : Generated) : Type 0 where
    pub article_id : Text
    pub expires_in : Text
    pub article_given : truthy body.article_id ≡ some article_id
    pub expires_given : truthy body.expires_in ≡ some expires_in
    pub sent : g.token ≡ token
    pub expiry : g.expires_at ≡ calculate_expiration expires_in now
    pub row : AccessToken
    pub row_article : row.article_id ≡ article_id
    pub row_expiry : row.expires_at ≡ g.expires_at
    pub written : p.tokens.create t token row ≡ some t'

  generate_token_sound :
      (body : TokenBody) (token row_id : Text) (now : ℕ) (t t' : TokenTable p) (g : Generated)
      → generate_token p body token row_id now t ≡ (ok g, t')
      → IsGenerated body token now t t' g
  unfolding generate_token
  generate_token_sound body token row_id now t t' g e =
      need-bind _ _ _ _ e λ article_id article_given e.
        need-bind _ _ _ _ e λ expires_in expires_given e. gets-bind _ _ _ e λ e.
          need-bind _ _ _ _ e λ table written e. modify-bind _ _ _ e λ e.
            let (same, stored) = pure-ok _ _ e in
            rw (← same, ← stored)
              (record {
                article_id = article_id;
                expires_in = expires_in;
                article_given = article_given;
                expires_given = expires_given;
                sent = refl;
                expiry = refl;
                row = _;
                row_article = refl;
                row_expiry = refl;
                written = written;
              })

  -- A generated token opens its article exactly until it expires, and no other token is affected.
  pub generate_then_validate :
      (body : TokenBody) (token row_id article_id expires_in : Text) (now later : ℕ)
      (t t' : TokenTable p) (g : Generated)
      → generate_token p body token row_id now t ≡ (ok g, t')
      → token ≢ []
      → truthy body.article_id ≡ some article_id
      → truthy body.expires_in ≡ some expires_in
      → (validate_token p (some token) later t' ≡ (
        (if is_expired (calculate_expiration expires_in now) later
            then err (create_error "Token has expired" 403)
            else ok article_id),
        t',
      ))
        × ((j : Text)
            → j ≢ []
            → token ≢ j
            → (validate_token p (some j) later t').0 ≡ (validate_token p (some j) later t).0)
  generate_then_validate body token row_id article_id expires_in now later t t' g e h ga ge =
      let i = generate_token_sound body token row_id now t t' g e in
      let found = p.tokens.find-create t token i.row token i.written in
      let row_article : i.row.article_id ≡ article_id = i.row_article ∙ cc (i.article_given, ga) in
      let row_expiry : i.row.expires_at ≡ calculate_expiration expires_in now =
        i.row_expiry ∙ i.expiry ∙ ap (λ x. calculate_expiration x now) (cc (i.expires_given, ge)) in
      (
        rw (validate_token_lem token later t' h, found, beq_refl token, row_expiry, row_article),
        λ j hj d. rw (
          validate_token_lem j later t' hj,
          validate_token_lem j later t hj,
          p.tokens.find-create t token i.row j i.written,
          beq_ne token j d,
        ),
      )

  -- What a token answers after an update of an article's tokens: those of the article take the new
  -- expiry, and the others are as before.
  updated_verdict :
      (article_id token : Text) (expiry : Option ℕ) (later : ℕ) (t : TokenTable p)
      → token ≢ []
      → (validate_token p (some token) later (
          p.tokens.update_many t
            (λ r. r.article_id == article_id)
            (λ r. record r { expires_at = expiry }))).0
        ≡ verdict?
            (Option.map
              (λ r. if r.article_id == article_id then record r { expires_at = expiry } else r)
              (p.tokens.find_unique t token))
            later
  updated_verdict article_id token expiry later t h =
      rw (validate_token_lem token later _ h, p.tokens.find-update_many)

  -- Revoking an article's tokens: from that moment on every one of them is refused as expired, and
  -- the tokens of other articles answer as before.
  pub revoke_then_validate :
      (article_id token : Text) (now later : ℕ) (t t' : TokenTable p) (row : AccessToken)
      → revoke_token p (some article_id) now t ≡ (ok tt, t')
      → token ≢ []
      → p.tokens.find_unique t token ≡ some row
      → now ≤ later
      → (row.article_id ≡ article_id
          → (validate_token p (some token) later t').0 ≡ err (create_error "Token has expired" 403))
        × (row.article_id ≢ article_id
            → (validate_token p (some token) later t').0
              ≡ (validate_token p (some token) later t).0)
  unfolding revoke_token
  revoke_then_validate article_id token now later t t' row e h found early =
      need-bind _ _ _ _ e λ id given e.
        let same : article_id ≡ id = cc ((truthy-eq-some (some article_id) id given).0) in
        let stored = modify-ok _ _ e in
        rw (← stored, ← same)
          (
            (λ own. rw (
              updated_verdict article_id token (some now) later t h,
              found,
              own,
              beq_refl article_id,
              le→leb now later early,
            )),
            (λ foreign. rw (
              updated_verdict article_id token (some now) later t h,
              found,
              beq_ne row.article_id article_id foreign,
              validate_token_lem token later t h,
              found,
            )),
          )
