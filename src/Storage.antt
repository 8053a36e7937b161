-- ===== src/Storage.antt =====
-- Uploads to Arweave: `uploadArticle` with `getIrys`, and the gateway's addresses, of
-- apps/api/src/services/storage.service.ts.
pub mod Uploads
use aurora_scholar.Prelude.{ℕ, Bool, Option, none, some, List, [], ◌∷◌, ◌++◌, or_else, truthy}
use aurora_scholar.Text.{Text, units}
use aurora_scholar.Http.{ApiError, Handler, pure, throw, need, ◌>>=◌, ◌>>◌}
use aurora_scholar.External.{Irys, Receipt, receipt, failed, Dates}
use aurora_scholar.Canonical.{bool, Fields, end, field, json_object}
use aurora_scholar.Canonical.Messages.{text_field}

-- The members of `metadata` that preparePublish gives.
pub record Metadata : Type 0 where
  pub ai_scope : Text
  pub is_public : Bool
  pub author : Text
  pub content_hash : Text
  pub intuition_hash : Text
  pub encrypted : Bool

pub record Upload : Type 0 where
  pub content : Text
  pub title : Text
  pub declared_intuition : Text
  pub metadata : Metadata

-- `throw new Error(...)` with a computed message.
unfoldable pub upload_error : Text → ApiError
upload_error message = record {
  message = units "Failed to upload article: " ++ message;
  status_code = none;
}

-- `articleData`
abbrev pub article_fields : Upload → Text → Fields
article_fields u timestamp = text_field "content" u.content (
    text_field "title" u.title (
      text_field "declaredIntuition" u.declared_intuition (
        text_field "timestamp" timestamp (
          text_field "version" (units "1.0.0") (
            text_field "aiScope" u.metadata.ai_scope (
              field (units "isPublic") (bool u.metadata.is_public) (
                text_field "author" u.metadata.author (
                  text_field "contentHash" u.metadata.content_hash (
                    text_field "intuitionHash" u.metadata.intuition_hash
                      (field (units "encrypted") (bool u.metadata.encrypted) end))))))))))

-- The text that is uploaded.
unfoldable pub article_data : Upload → Text → Text
article_data u timestamp = json_object (article_fields u timestamp)

unfoldable pub upload_tags : Text → List (Text × Text)
upload_tags title =
    (units "Content-Type", units "application/json")
    ∷ (units "App-Name", units "Aurora Scholar")
    ∷ (units "Type", units "article")
    ∷ (units "Title", title)
    ∷ []

module _ (irys : Irys) {S : Type 0} where
  abbrev pub connected : Option Text → Handler S (Unit {0})
  connected none = pure tt
  connected (some message) = throw (upload_error (units "Failed to initialize Irys: " ++ message))

  -- `getIrys`, over `process.env.IRYS_PRIVATE_KEY`, whose error `uploadArticle` wraps.
  unfoldable pub get_irys : Option Text → Handler S (Unit {0})
  get_irys private_key = do
    key ←
        need (truthy private_key)
          (upload_error (units "IRYS_PRIVATE_KEY environment variable is required"))
    connected (irys.setup_error key)

  abbrev pub sent : Receipt → Handler S Text
  sent (receipt id) = pure id
  sent (failed message) = throw (upload_error message)

  unfoldable pub upload_article :
      (dates : Dates) → Option Text → Upload → (now : ℕ) → Handler S Text
  upload_article dates private_key u now = do
    get_irys private_key
    sent (irys.upload (article_data u (dates.to_iso_string now)) (upload_tags u.title))

-- `getGatewayUrl`, over `process.env.ARWEAVE_GATEWAY_URL`.
unfoldable pub get_gateway_url : Option Text → Text
get_gateway_url variable = or_else variable (units "https://arweave.net")

unfoldable pub get_arweave_url : Option Text → Text → Text
unfolding get_gateway_url
get_arweave_url variable transaction_id = get_gateway_url variable ++ 47 ∷ transaction_id
