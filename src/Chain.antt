-- ===== src/Chain.antt =====
-- What the API reads of the Solana program's accounts: getPublicArticles and getArticle of
-- apps/api/src/services/blockchain.service.ts. Timestamps are natural numbers of seconds.
pub mod Newest
pub mod Program
pub mod Service
pub mod Recorded
use aurora_scholar.Prelude.{
  ℕ, min, max, Bool, List, [], ◌∷◌, ◌++◌, Option, none, some, take, select, leb, ◌==◌, nat_eq,
  if◌then◌else◌,
}
use aurora_scholar.Text.{Text, units, includes}
use aurora_scholar.Http.{Result, ok, err}

pub record ArticleData : Type 0 where
  pub author : Text
  pub content_hash : List ℕ
  pub intuition_hash : List ℕ
  pub arweave_id : Text
  pub title : Text
  pub ai_scope : Text
  pub is_public : Bool
  pub timestamp : ℕ
  pub bump : ℕ

-- `.sort((a, b) => b.timestamp - a.timestamp)`, which is stable.
unfoldable pub insert_newest : ArticleData → List ArticleData → List ArticleData
insert_newest a [] = a ∷ []
insert_newest a (b ∷ bs) =
    let rest = insert_newest a bs in if leb b.timestamp a.timestamp then a ∷ b ∷ bs else b ∷ rest

unfoldable pub sort_newest : List ArticleData → List ArticleData
sort_newest [] = []
sort_newest (a ∷ xs) = insert_newest a (sort_newest xs)

-- `Math.max(1, Math.min(Number(_limit) || 100, 500))`
unfoldable pub page_limit : ℕ → ℕ
page_limit limit = max 1 (min (if limit == 0 then 100 else limit) 500)

-- The accounts are what `program.account.article.all()` returns.
unfoldable pub get_public_articles : List ArticleData → ℕ → List ArticleData
get_public_articles accounts limit =
    take (page_limit limit) (sort_newest (select (λ a. a.is_public) accounts))

-- What `program.account.article.fetch` of the address derived from an author and a hash comes to: the
-- account, or the message of an error.
pub data FetchedAccount : Type 0 where
  account : ArticleData → FetchedAccount
  failing : (message : Text) → FetchedAccount

-- `getArticle`
unfoldable pub get_article : FetchedAccount → Result (Option ArticleData)
get_article (account a) = ok (some a)
get_article (failing message) =
    if includes (units "Account does not exist") message
    then ok none
    else err (record { message = units "Failed to get article: " ++ message; status_code = none })
