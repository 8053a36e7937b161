-- ===== src/Chain/Service.antt =====
-- The API's service over the Solana program: publishArticle, getArticle, updateVisibility and
-- verifyArticle of apps/api/src/services/blockchain.service.ts, with the program behind them. `net` is
-- the message of an error that stops the request before the program runs, if there is one.
use aurora_scholar.Prelude.{
  ℕ, Bool, false, not, ◌&&◌, Option, none, some, List, ◌++◌, ◌==◌, nat_eq, list_eq, length, ltb,
  if◌then◌else◌,
}
use aurora_scholar.Text.{Text, units, includes}
use aurora_scholar.JsMap.{get}
use aurora_scholar.External.{Cipher}
use aurora_scholar.Http.{
  ApiError, Handler, plain_error, pure, throw, throw_if, recover, ◌>>=◌, ◌>>◌,
}
use aurora_scholar.Chain.{ArticleData, FetchedAccount, account, failing, get_article}
use aurora_scholar.Chain.Program.{
  Runtime, Accounts, PublishArgs, publish_instruction, update_instruction,
}

pub record PublishArticleParams : Type 0 where
  pub author : Text
  pub content : Text
  pub declared_intuition : Text
  pub arweave_id : Text
  pub title : Text
  pub ai_scope : Text
  pub is_public : Bool
  -- The public key of the pair that signs.
  pub signer : Text

abbrev prefixed : Text → ApiError → ApiError
prefixed text e = record { message = text ++ e.message; status_code = none }

unfoldable pub publish_error : ApiError → ApiError
publish_error e = prefixed (units "Failed to publish article: ") e

abbrev pub reached : Option Text → Handler Accounts (Unit {0})
reached none = pure tt
reached (some message) = throw (record { message = message; status_code = none })

module _ (rt : Runtime) (c : Cipher) where
  unfoldable pub hash_content : Text → List ℕ
  hash_content content = c.sha256 content

  unfoldable pub derive_article_pda : (author : Text) → List ℕ → Text
  derive_article_pda author content_hash = (rt.find_address author content_hash).0

  -- `.rpc()`: the transaction is signed by `signer` only, and the author has to sign.
  unfoldable pub rpc :
      Option Text → (author signer : Text) → Handler Accounts (Unit {0}) → Handler Accounts Text
  rpc net author signer instruction = do
    reached net
    throw_if (not (author == signer)) rt.missing_signature
    instruction
    pure rt.signature

  unfoldable pub publish_args : PublishArticleParams → PublishArgs
  publish_args p = record {
    content_hash = hash_content p.content;
    intuition_hash = hash_content p.declared_intuition;
    arweave_id = p.arweave_id;
    title = p.title;
    ai_scope = p.ai_scope;
    is_public = p.is_public;
  }

  unfoldable pub publish_article : Option Text → PublishArticleParams → Handler Accounts Text
  publish_article net p = do
    throw_if (ltb 128 (length p.title)) (plain_error "Title too long (max 128 chars)")
    throw_if (ltb 256 (length p.ai_scope)) (plain_error "AI scope too long (max 256 chars)")
    let address = derive_article_pda p.author (hash_content p.content)
    recover (rpc net p.author p.signer (publish_instruction rt address p.author (publish_args p)))
        (λ e. throw (publish_error e))

  abbrev pub found_account : Text → Option ArticleData → FetchedAccount
  found_account address none = failing (rt.no_account address)
  found_account address (some a) = account a

  -- `program.account.article.fetch`
  unfoldable pub fetch_account : Option Text → Text → Accounts → FetchedAccount
  fetch_account (some message) address s = failing message
  fetch_account none address s = found_account address (get address s)

  unfoldable pub look_up :
      Option Text → (author : Text) → List ℕ → Handler Accounts (Option ArticleData)
  look_up net author content_hash s =
      (get_article (fetch_account net (derive_article_pda author content_hash) s), s)

  unfoldable pub update_error : ApiError → ApiError
  update_error e =
      if includes (units "Unauthorized") e.message
      then plain_error "You are not authorized to update this article"
      else prefixed (units "Failed to update visibility: ") e

  unfoldable pub update_visibility :
      Option Text → (author : Text) → List ℕ → Bool → (signer : Text) → Handler Accounts Text
  update_visibility net author content_hash is_public signer =
      let address = derive_article_pda author content_hash in
      recover (rpc net author signer (update_instruction rt address author is_public))
        (λ e. throw (update_error e))

  unfoldable pub hashes_match : (content_hash intuition_hash : List ℕ) → Option ArticleData → Bool
  hashes_match content_hash intuition_hash none = false
  hashes_match content_hash intuition_hash (some a) =
      content_hash == a.content_hash && intuition_hash == a.intuition_hash

  -- `verifyArticle`
  unfoldable pub verify_hashes :
      Option Text → (author content declared_intuition : Text) → Handler Accounts Bool
  verify_hashes net author content declared_intuition = do
    let content_hash = hash_content content
    article ← look_up net author content_hash
    pure (hashes_match content_hash (hash_content declared_intuition) article)
