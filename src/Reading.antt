-- ===== src/Reading.antt =====
-- Reading from the database: getArticleById and getMyArticles of
-- apps/api/src/controllers/articles.controller.ts.
pub mod Readers
use aurora_scholar.Prelude.{
  ℕ, Bool, Option, none, some, List, map, take, ◌==◌, nat_eq, list_eq, if◌then◌else◌,
}
use aurora_scholar.Text.{Text}
use aurora_scholar.Http.{Handler, create_error, pure, gets, need, ◌>>=◌, ◌>>◌}
use aurora_scholar.Database.{Article, Status, Prisma, Tables}
use aurora_scholar.Guard.{Access}
use aurora_scholar.Grants.{check_grant, need_wallet}

-- The members that `select` names.
pub record ArticleInfo : Type 0 where
  pub id : Text
  pub title : Text
  pub author_wallet : Text
  pub arweave_id : Option Text
  pub is_public : Bool
  pub published_at : Option ℕ

abbrev pub info_of : Article → ArticleInfo
info_of a = record {
  id = a.id;
  title = a.title;
  author_wallet = a.author_wallet;
  arweave_id = a.arweave_id;
  is_public = a.is_public;
  published_at = a.published_at;
}

pub record OwnArticle : Type 0 where
  pub id : Text
  pub title : Text
  pub content_hash : Text
  pub arweave_id : Option Text
  pub is_public : Bool
  pub status : Status
  pub created_at : ℕ
  pub published_at : Option ℕ

abbrev pub own_article : Article → OwnArticle
own_article a = record {
  id = a.id;
  title = a.title;
  content_hash = a.content_hash;
  arweave_id = a.arweave_id;
  is_public = a.is_public;
  status = a.status;
  created_at = a.created_at;
  published_at = a.published_at;
}

module _ (p : Prisma) where
  -- The reader who is neither offered a public article nor its author needs a grant.
  unfoldable pub check_reader : Article → (id wallet : Text) → ℕ → Handler (Tables p) (Unit {0})
  check_reader article id wallet now =
      if article.is_public
      then pure tt
      else if article.author_wallet == wallet
      then pure tt
      else (gets (λ t. p.grants.find_unique t.grants (id, wallet)) >>= λ found.
          check_grant found now)

  unfoldable pub get_article_by_id : Access → (id : Text) → ℕ → Handler (Tables p) ArticleInfo
  unfolding need_wallet
  get_article_by_id access id now = do
    wallet ← need_wallet access
    found ← gets (λ t. p.articles.find_by_id t.articles id)
    article ← need found (create_error "Article not found" 404)
    check_reader article id wallet now
    pure (info_of article)

  unfoldable pub get_my_articles : Access → Handler (Tables p) (List OwnArticle)
  unfolding need_wallet
  get_my_articles access = do
    wallet ← need_wallet access
    rows ← gets (λ t. p.articles.find_many t.articles (λ a. a.author_wallet == wallet))
    pure (map own_article (take 200 rows))
