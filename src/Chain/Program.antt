-- ===== src/Chain/Program.antt =====
-- The program on the chain: packages/contracts/programs/aurora_scholar/src/lib.rs. What Anchor and
-- the runtime do around it is a parameter.
use aurora_scholar.Prelude.{
  ℕ, zero, suc, Bool, true, false, not, Option, none, some, List, [], ◌∷◌, ◌==◌, nat_eq, list_eq,
  length, ltb,
}
use aurora_scholar.Text.{Text, utf8}
use aurora_scholar.JsMap.{JsMap, get, set}
use aurora_scholar.Http.{ApiError, Handler, gets, need, modify, throw_if, ◌>>=◌, ◌>>◌}
use aurora_scholar.Chain.{ArticleData}

pub data AuroraError : Type 0 where
  unauthorized invalid_content_hash arweave_id_too_long title_too_long ai_scope_too_long :
      AuroraError

-- Solana and Anchor, at the moment of a call.
pub record Runtime : Type 0 where
  -- `PublicKey.findProgramAddressSync` of an author and a hash: the address and its bump.
  pub find_address : Text → List ℕ → Text × ℕ
  pub unix_timestamp : ℕ
  -- The signature of a transaction that is confirmed.
  pub signature : Text
  -- What the client is told of an error of the program, and of Anchor's own checks.
  pub thrown : AuroraError → ApiError
  pub in_use : Text → ApiError
  pub wrong_seeds : ApiError
  pub not_initialized : Text → ApiError
  pub missing_signature : ApiError
  -- The message of `fetch` for an address without an account.
  pub no_account : Text → Text

-- The accounts of the program by their addresses.
abbrev pub Accounts : Type 0
Accounts = JsMap ArticleData

abbrev pub zeros : ℕ → List ℕ
zeros zero = []
zeros (suc n) = 0 ∷ zeros n

pub record PublishArgs : Type 0 where
  pub content_hash : List ℕ
  pub intuition_hash : List ℕ
  pub arweave_id : Text
  pub title : Text
  pub ai_scope : Text
  pub is_public : Bool

abbrev pub is_free : Option ArticleData → Bool
is_free none = true
is_free (some a) = false

module _ (rt : Runtime) where
  -- The account that an instruction writes.
  unfoldable pub article_of : (author : Text) → PublishArgs → ArticleData
  article_of author args = record {
    author = author;
    content_hash = args.content_hash;
    intuition_hash = args.intuition_hash;
    arweave_id = args.arweave_id;
    title = args.title;
    ai_scope = args.ai_scope;
    is_public = args.is_public;
    timestamp = rt.unix_timestamp;
    bump = (rt.find_address author args.content_hash).1;
  }

  -- `publish_article` under the constraints of `PublishArticle`: the address is the one that the
  -- seeds give, and `init` finds no account there.
  unfoldable pub publish_instruction :
      (address author : Text) → PublishArgs → Handler Accounts (Unit {0})
  publish_instruction address author args = do
    throw_if (not ((rt.find_address author args.content_hash).0 == address)) rt.wrong_seeds
    old ← gets (get address)
    throw_if (not (is_free old)) (rt.in_use address)
    throw_if (args.content_hash == zeros 32) (rt.thrown invalid_content_hash)
    throw_if (ltb 64 (length (utf8 args.arweave_id))) (rt.thrown arweave_id_too_long)
    throw_if (ltb 128 (length (utf8 args.title))) (rt.thrown title_too_long)
    throw_if (ltb 256 (length (utf8 args.ai_scope))) (rt.thrown ai_scope_too_long)
    modify (set address (article_of author args))

  -- `update_visibility`
  unfoldable pub update_instruction : (address author : Text) → Bool → Handler Accounts (Unit {0})
  update_instruction address author is_public = do
    article ← gets (get address)
    article ← need article (rt.not_initialized address)
    throw_if (not (article.author == author)) (rt.thrown unauthorized)
    modify (set address (record article { is_public = is_public }))
