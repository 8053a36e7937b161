-- ===== src/Content.antt =====
-- An article's text for the public: getArticleContent of
-- apps/api/src/controllers/articles.controller.ts.
pub mod Statuses
use aurora_scholar.Prelude.{
  ℕ, Bool, true, false, not, ◌&&◌, ◌||◌, Option, none, some, List, [], ◌∷◌, ◌++◌, ◌==◌, nat_eq,
  if◌then◌else◌, or_else, truthy,
}
use aurora_scholar.Text.{Text, units, includes}
use aurora_scholar.Http.{ApiError, Result, ok, err, create_error, create_error_text}
use aurora_scholar.Canonical.{Value, null, bool, num, str, arr, obj}
use aurora_scholar.Gateways.{Json, Fetched, get_content}
use aurora_scholar.Verification.{is_object, member, flag_or, optional_member, text_member}

pub record Content : Type 0 where
  pub title : Text
  pub content : Text
  pub declared_intuition : Text
  pub author : Text
  pub ai_scope : Text
  pub is_public : Bool
  -- What `Number` is applied to.
  pub timestamp : Option Value
  pub content_hash : Option Text
  pub intuition_hash : Option Text
  pub arweave_id : Text

unfoldable pub is_html : Text → Bool
is_html text =
    includes (units "<!DOCTYPE html>") text
    || includes (units "<html") text
    || includes (units "This page cannot be found") text
    || includes (units "expired domains") text

abbrev parsed_or : Option Value → Text → Result Value
parsed_or none id = err (
    create_error_text
      (units
          "Invalid article content format. The transaction may still be processing. Transaction ID: "
        ++ id)
      404)
parsed_or (some v) id = ok v

-- `articleData`: a JSON text inside the JSON is parsed once more.
unfoldable pub article_value : Json → Value → Text → Result Value
article_value j (str text) id =
    if is_html text
    then err (
        create_error_text
          (units
              "Article not found on Arweave. The transaction may still be processing. Transaction ID: "
            ++ (id ++ (units ". Check status at: https://arweave.net/" ++ id)))
          404)
    else parsed_or (j.parse text) id
article_value j v id = ok v

abbrev is_given : Option Text → Bool
is_given none = false
is_given (some t) = true

abbrev truthy_member : Text → Value → Option Value
truthy_member k v = elim (optional_member k v) [ none ↦ none | some t ↦ member k v ]

unfoldable pub read_article : Value → Text → Result Content
read_article v id =
    if not (is_object v)
    then err (create_error "Invalid Arweave payload: expected JSON object" 400)
    else if is_given (optional_member (units "content") v)
        || is_given (optional_member (units "title") v)
    then ok (record {
      title = text_member (units "title") v;
      content = text_member (units "content") v;
      declared_intuition = text_member (units "declaredIntuition") v;
      author = text_member (units "author") v;
      ai_scope = text_member (units "aiScope") v;
      is_public = flag_or (member (units "isPublic") v) true;
      timestamp = truthy_member (units "timestamp") v;
      content_hash = optional_member (units "contentHash") v;
      intuition_hash = optional_member (units "intuitionHash") v;
      arweave_id = id;
    })
    else err (
        create_error_text
          (units
              "Article content structure is invalid. The transaction may still be processing. Transaction ID: "
            ++ id)
          404)

abbrev is_400 : Option ℕ → Bool
is_400 none = false
is_400 (some code) = code == 400

-- The `catch`: errors are told apart by their message.
unfoldable pub content_error : ApiError → ApiError
content_error e =
    if includes (units "not found") e.message
      || includes (units "404") e.message
      || includes (units "processing") e.message
    then create_error_text e.message 404
    else if is_400 e.status_code
    then e
    else create_error_text (units "Failed to load article content: " ++ e.message) 500

abbrev caught : {A : Type 0} → Result A → Result A
caught (ok a) = ok a
caught (err e) = err (content_error e)

abbrev and_then : {A B : Type 0} → Result A → (A → Result B) → Result B
and_then (ok a) f = f a
and_then (err e) f = err e

unfoldable pub get_article_content :
    Json → (ℕ → Text → Fetched) → (gateway_variable : Option Text) (id : Text) → Result Content
get_article_content j fetch gateway_variable [] = err (create_error "Arweave ID is required" 400)
get_article_content j fetch gateway_variable (u ∷ id) = caught (
    and_then (get_content j fetch gateway_variable (u ∷ id))
      λ v. and_then (article_value j v (u ∷ id)) λ w. read_article w (u ∷ id))
