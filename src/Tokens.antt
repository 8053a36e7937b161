-- ===== src/Tokens.antt =====
-- Access tokens of private articles: generateToken, updateToken, revokeToken and validateToken of
-- apps/api/src/controllers/access-control.controller.ts. Random bytes, row ids and the clock are
-- arguments.
pub mod Validity
use aurora_scholar.Prelude.{ℕ, ◌++◌, Option, none, some, ◌==◌, nat_eq, list_eq, truthy}
use aurora_scholar.Text.{Text, units}
use aurora_scholar.Http.{
  Handler, create_error, plain_error, pure, gets, need, modify, throw_if, ◌>>=◌, ◌>>◌,
}
use aurora_scholar.Database.{AccessToken, Prisma}
use aurora_scholar.Expiration.{calculate_expiration, is_expired}

pub record TokenBody : Type 0 where
  pub article_id : Option Text
  pub expires_in : Option Text

pub record Generated : Type 0 where
  pub token : Text
  pub expires_at : Option ℕ
  pub link : Text

module _ (p : Prisma) where
  abbrev pub TokenTable : Type 0
  TokenTable = p.tokens.Table

  unfoldable pub generate_token :
      TokenBody → (token row_id : Text) → ℕ → Handler TokenTable Generated
  generate_token body token row_id now = do
    let missing = create_error "Article ID and expiration are required" 400
    article_id ← need (truthy body.article_id) missing
    expires_in ← need (truthy body.expires_in) missing
    let expires_at = calculate_expiration expires_in now
    let row : AccessToken = record {
      id = row_id;
      article_id = article_id;
      token = token;
      expires_at = expires_at;
      created_at = now;
    }
    written ← gets (λ t. p.tokens.create t token row)
    table ← need written (plain_error "Constraint failed")
    modify (λ _. table)
    pure (record {
      token = token;
      expires_at = expires_at;
      link = units "http://localhost:3000/article/" ++ (article_id ++ (units "?token=" ++ token));
    })

  unfoldable pub update_token : TokenBody → ℕ → Handler TokenTable (Option ℕ)
  update_token body now = do
    let missing = create_error "Article ID and expiration are required" 400
    article_id ← need (truthy body.article_id) missing
    expires_in ← need (truthy body.expires_in) missing
    let expires_at = calculate_expiration expires_in now
    modify (λ t.
        p.tokens.update_many t (λ r. r.article_id == article_id)
          (λ r. record r { expires_at = expires_at }))
    pure expires_at

  unfoldable pub revoke_token : Option Text → ℕ → Handler TokenTable (Unit {0})
  revoke_token article_field now = do
    article_id ← need (truthy article_field) (create_error "Article ID is required" 400)
    modify (λ t.
        p.tokens.update_many t (λ r. r.article_id == article_id)
          (λ r. record r { expires_at = some now }))

  -- The article that the token opens.
  unfoldable pub validate_token : Option Text → ℕ → Handler TokenTable Text
  validate_token token_field now = do
    token ← need (truthy token_field) (create_error "Token is required" 400)
    found ← gets (λ t. p.tokens.find_unique t token)
    row ← need found (create_error "Invalid token" 403)
    throw_if (is_expired row.expires_at now) (create_error "Token has expired" 403)
    pure row.article_id
