-- ===== src/Grants.antt =====
-- Grants to wallets: createGrant, listGrants and revokeGrant of
-- apps/api/src/controllers/access-control.controller.ts, and the test of a grant that keyChallenge,
-- keyClaim and getArticleById (articles.controller.ts) share.
pub mod Revocation
use aurora_scholar.Prelude.{
  ℕ, Bool, true, false, not, ◌&&◌, take, List, Option, none, some, ◌==◌, nat_eq, list_eq, truthy,
}
use aurora_scholar.Text.{Text}
use aurora_scholar.Http.{Handler, create_error, pure, gets, need, modify, throw_if, ◌>>=◌, ◌>>◌}
use aurora_scholar.Database.{Article, AccessGrant, Prisma, Tables, upserted}
use aurora_scholar.Guard.{Access, wallet_of}
use aurora_scholar.Expiration.{calculate_expiration, is_expired}

pub record GrantBody : Type 0 where
  pub article_id : Option Text
  pub viewer_wallet : Option Text
  pub expires_in : Option Text

abbrev pub is_some {ℓ} : {A : Type ℓ} → Option A → Bool
is_some none = false
is_some (some a) = true

-- `const wallet = req.auth?.wallet; if (!wallet) throw …`
unfoldable pub need_wallet : {S : Type 0} → Access → Handler S Text
need_wallet access = need (truthy (wallet_of access)) (create_error "Unauthorized" 401)

-- The three tests of a grant.
unfoldable pub check_grant : {S : Type 0} → Option AccessGrant → ℕ → Handler S (Unit {0})
check_grant found now = do
  grant ← need found (create_error "Access denied (no grant)" 403)
  throw_if (is_some grant.revoked_at) (create_error "Access revoked" 403)
  throw_if (is_expired grant.expires_at now) (create_error "Access expired" 403)

module _ (p : Prisma) where
  -- `row_id` and `now` are the id and the creation time of a new row.
  unfoldable pub create_grant :
      Access → GrantBody → (row_id : Text) (now : ℕ) → Handler (Tables p) AccessGrant
  unfolding need_wallet
  create_grant access body row_id now = do
    owner ← need_wallet access
    let missing = create_error "articleId, viewerWallet, and expiresIn are required" 400
    article_id ← need (truthy body.article_id) missing
    viewer ← need (truthy body.viewer_wallet) missing
    expires_in ← need (truthy body.expires_in) missing
    let expires_at = calculate_expiration expires_in now
    found ← gets (λ t. p.articles.find_by_id t.articles article_id)
    article ← need found (create_error "Article not found" 404)
    throw_if (not (article.author_wallet == owner)) (create_error "Unauthorized" 403)
    let new : AccessGrant = record {
      id = row_id;
      article_id = article_id;
      owner_wallet = owner;
      viewer_wallet = viewer;
      expires_at = expires_at;
      revoked_at = none;
      created_at = now;
    }
    let change : (AccessGrant → AccessGrant) =
        λ g. record g { owner_wallet = owner; expires_at = expires_at; revoked_at = none }
    before ← gets (λ t. p.grants.find_unique t.grants (article_id, viewer))
    modify (λ t. record t { grants = p.grants.upsert t.grants (article_id, viewer) new change })
    pure (upserted before new change)

  -- The filter of `listGrants`; the first 200 of the rows are sent.
  abbrev pub listed : Text → Option Text → AccessGrant → Bool
  listed owner none g = g.owner_wallet == owner
  listed owner (some article_id) g = g.owner_wallet == owner && g.article_id == article_id

  unfoldable pub list_grants : Access → Option Text → Handler (Tables p) (List AccessGrant)
  unfolding need_wallet
  list_grants access article_field = do
    owner ← need_wallet access
    rows ← gets (λ t. p.grants.find_many t.grants (listed owner (truthy article_field)))
    pure (take 200 rows)

  -- The row's id selects what `update` writes.
  unfoldable pub revoke_grant : Access → GrantBody → ℕ → Handler (Tables p) AccessGrant
  unfolding need_wallet
  revoke_grant access body now = do
    owner ← need_wallet access
    let missing = create_error "articleId and viewerWallet are required" 400
    article_id ← need (truthy body.article_id) missing
    viewer ← need (truthy body.viewer_wallet) missing
    found ← gets (λ t. p.grants.find_unique t.grants (article_id, viewer))
    grant ← need found (create_error "Grant not found" 404)
    throw_if (not (grant.owner_wallet == owner)) (create_error "Unauthorized" 403)
    modify (λ t. record t {
      grants =
          p.grants.update_many t.grants (λ g. g.id == grant.id)
            (λ g. record g { revoked_at = some now });
    })
    pure (record grant { revoked_at = some now })
