-- ===== src/Publish/Columns.antt =====
-- What a publication uploads and the row that it writes, column by column.
use aurora_scholar.Prelude.{
  ℕ, ◌≡◌, refl, Bool, true, false, Option, none, some, [], nat_eq, list_eq,
}
use aurora_scholar.Text.{Text, units}
use aurora_scholar.Canonical.{Fields, end, field, bool, json_object}
use aurora_scholar.Canonical.Messages.{text_field, Payload}
use aurora_scholar.Database.{Article, published, upserted, upserted-all}
use aurora_scholar.Storage.{article_data}
use aurora_scholar.Publish.{
  Sealed, stored_content, stored_ciphertext, uploaded_intuition, is_sealed, upload_of, new_article,
  renew_article,
}

-- The columns that a new row takes from the upload, and that a row found by its Arweave id keeps.
abbrev pub IsCreated : Option Article → (row_id arweave_id : Text) → ℕ → Article → Type 0
IsCreated none row_id arweave_id time a =
    (a.id ≡ row_id) × (a.arweave_id ≡ some arweave_id) × (a.created_at ≡ time)
IsCreated (some old) row_id arweave_id time a =
    (a.id ≡ old.id) × (a.arweave_id ≡ old.arweave_id) × (a.created_at ≡ old.created_at)

-- The columns of a published article.
pub record IsRowOf (payload : Payload) (text : Text) (time : ℕ) (a : Article) : Type 0 where
  pub title : a.title ≡ payload.title
  pub author : a.author_wallet ≡ payload.author
  pub content : a.content ≡ text
  pub content_hash : a.content_hash ≡ payload.content_hash
  pub is_public : a.is_public ≡ payload.is_public
  pub status : a.status ≡ published
  pub published_at : a.published_at ≡ some time

pub upserted-IsRowOf :
    (payload : Payload) (text arweave_id row_id : Text) (time : ℕ) (before : Option Article)
    → IsRowOf payload text time (
        upserted before
          (new_article payload text arweave_id row_id time)
          (renew_article payload text time))
upserted-IsRowOf payload text arweave_id row_id time before =
    upserted-all (IsRowOf payload text time) before _ _
      (record {
        title = refl;
        author = refl;
        content = refl;
        content_hash = refl;
        is_public = refl;
        status = refl;
        published_at = refl;
      })
      (λ old. record {
        title = refl;
        author = refl;
        content = refl;
        content_hash = refl;
        is_public = refl;
        status = refl;
        published_at = refl;
      })

pub upserted-IsCreated :
    (payload : Payload) (text arweave_id row_id : Text) (time : ℕ) (before : Option Article)
    → IsCreated before row_id arweave_id time (
        upserted before
          (new_article payload text arweave_id row_id time)
          (renew_article payload text time))
upserted-IsCreated payload text arweave_id row_id time none = (refl, refl, refl)
upserted-IsCreated payload text arweave_id row_id time (some old) = (refl, refl, refl)

-- What a publication shows: of a public article its content and declared intuition, of a private one
-- only the cipher text.
abbrev pub IsPublishedText :
    Option Sealed → (content declared text intuition : Text) → (encrypted : Bool) → Type 0
IsPublishedText none content declared text intuition encrypted =
    (text ≡ content) × (intuition ≡ declared) × (encrypted ≡ false)
IsPublishedText (some s) content declared text intuition encrypted =
    (text ≡ stored_ciphertext s.payload) × (intuition ≡ []) × (encrypted ≡ true)

pub stored_content-IsPublishedText :
    (part : Option Sealed) (content declared : Text)
    → IsPublishedText part content declared
        (stored_content part content)
        (uploaded_intuition part declared)
        (is_sealed part)
stored_content-IsPublishedText none content declared = (refl, refl, refl)
stored_content-IsPublishedText (some s) content declared = (refl, refl, refl)

-- The members of the uploaded object.
abbrev pub uploaded_fields :
    Payload → (text intuition timestamp : Text) → (encrypted : Bool) → Fields
uploaded_fields payload text intuition timestamp encrypted = text_field "content" text (
    text_field "title" payload.title (
      text_field "declaredIntuition" intuition (
        text_field "timestamp" timestamp (
          text_field "version" (units "1.0.0") (
            text_field "aiScope" payload.ai_scope (
              field (units "isPublic") (bool payload.is_public) (
                text_field "author" payload.author (
                  text_field "contentHash" payload.content_hash (
                    text_field "intuitionHash" payload.intuition_hash
                      (field (units "encrypted") (bool encrypted) end))))))))))

pub uploaded_data :
    (payload : Payload) (part : Option Sealed) (content declared timestamp : Text)
    → article_data (upload_of payload part content declared) timestamp
      ≡ json_object (
          uploaded_fields payload
            (stored_content part content)
            (uploaded_intuition part declared)
            timestamp
            (is_sealed part))
unfolding article_data
uploaded_data payload part content declared timestamp = refl
