-- ===== src/Verification/Unverifiable.antt =====
-- What becomes of a private article that preparePublish has uploaded.
use mathlib.Core.List.{append_assoc}
use aurora_scholar.Prelude.{
  some, ℕ, ◌≡◌, ◌≢◌, refl, sym, ap, ◌∙◌, false, Option, none, List, [], ◌∷◌, ◌++◌, drop, map,
  truthy, list_beq,
}
use aurora_scholar.Text.{Text, units, join}
use aurora_scholar.Http.{ok}
use aurora_scholar.External.{receipt}
use aurora_scholar.Canonical.{
  obj, Fields, end, field, bool, quote, json_object, render_entry, entries, stable_stringify,
  escape, escape_all,
}
use aurora_scholar.Canonical.Quote.{quote_prefix}
use aurora_scholar.Canonical.Messages.{text_field}
use aurora_scholar.Database.{Article, Prisma, Tables}
use aurora_scholar.Storage.{Upload, article_fields, article_data}
use aurora_scholar.Chain.{FetchedAccount}
use aurora_scholar.Publish.{PublishBody, Published, Server, Moment, prepare_publish}
use aurora_scholar.Publish.Columns.{IsPublishedText}
use aurora_scholar.Publish.Guards.{IsChosen}
use aurora_scholar.Publish.Signed.{prepare_publish_sound}
use aurora_scholar.Gateways.{Json, Fetched, get_content}
use aurora_scholar.Verification.{
  optional_member, field_at, boolean_of, text_of, arweave_id_of, Report, verify_article,
}
use aurora_scholar.Verification.Verified.{no_intuition_no_report}

-- The members behind the declared intuition.
abbrev later_fields : Upload → Text → Fields
later_fields u timestamp = text_field "timestamp" timestamp (
    text_field "version" (units "1.0.0") (
      text_field "aiScope" u.metadata.ai_scope (
        field (units "isPublic") (bool u.metadata.is_public) (
          text_field "author" u.metadata.author (
            text_field "contentHash" u.metadata.content_hash (
              text_field "intuitionHash" u.metadata.intuition_hash
                (field (units "encrypted") (bool u.metadata.encrypted) end)))))))

abbrev later_text : Upload → Text → Text
later_text u timestamp =
    44 ∷ (join (44 ∷ []) (map render_entry (entries (later_fields u timestamp))) ++ 125 ∷ [])

-- How an upload's text begins.
abbrev upload_text : Upload → Text → Text
upload_text u timestamp =
    units "{\"content\":"
    ++ (quote u.content
        ++ (units ",\"title\":"
            ++ (quote u.title
                ++ (units ",\"declaredIntuition\":"
                    ++ (quote u.declared_intuition ++ later_text u timestamp)))))

article_data_lem :
    (u : Upload) (timestamp : Text) → article_data u timestamp ≡ upload_text u timestamp
unfolding article_data json_object quote stable_stringify escape escape_all
article_data_lem u timestamp = simp append_assoc

-- Two uploads with one text declare one intuition.
article_data-intuition :
    (u v : Upload) (timestamp later : Text)
    → article_data u timestamp ≡ article_data v later
    → u.declared_intuition ≡ v.declared_intuition
article_data-intuition u v timestamp later e =
    let e' : upload_text u timestamp ≡ upload_text v later =
      sym (article_data_lem u timestamp) ∙ e ∙ article_data_lem v later in
    let (_, r1) = quote_prefix u.content v.content _ _ (ap (drop 11) e') in
    let (_, r2) = quote_prefix u.title v.title _ _ (ap (drop 9) r1) in
    (quote_prefix u.declared_intuition v.declared_intuition _ _ (ap (drop 21) r2)).0

unintended :
    (u : Upload) (timestamp : Text)
    → u.declared_intuition ≡ []
    → truthy (optional_member (units "declaredIntuition") (obj (article_fields u timestamp))) ≡ none
unfolding optional_member boolean_of text_of field_at list_beq
unintended u timestamp none_declared = rw none_declared refl

module _ (p : Prisma) (env : Server p) (j : Json) (fetch : ℕ → Text → Fetched)
    (on_chain : env.wallets.Key → List ℕ → FetchedAccount) (gateway_variable : Option Text) where
  private_intuition :
      (body : PublishBody) (m : Moment) (t t' : Tables p) (out : Published) (u : Upload)
      (timestamp : Text) (tags : List (Text × Text))
      → prepare_publish p env body m t ≡ (ok out, t')
      → out.is_public ≡ false
      → ((text other : Text) (its others : List (Text × Text)) (k : Text)
          → env.irys.upload text its ≡ receipt k
          → env.irys.upload other others ≡ receipt k
          → text ≡ other)
      → env.irys.upload (article_data u timestamp) tags ≡ receipt out.arweave_id
      → u.declared_intuition ≡ []
  unfolding article_data
  private_intuition body m t t' out u timestamp tags done hidden unique sent =
      let i = prepare_publish_sound p env body m t t' out done in
      let chosen : IsChosen false body i.part = rw hidden at i.private_part in
      let (s, _, part) = chosen in
      let (_, undeclared, _) : IsPublishedText (some s) i.content i.declared i.text i.intuition
          i.encrypted =
        rw part at i.published_text in
      let made : Upload = record {
        content = i.text;
        title = out.title;
        declared_intuition = i.intuition;
        metadata = record {
          ai_scope = out.ai_scope;
          is_public = out.is_public;
          author = out.author;
          content_hash = out.content_hash;
          intuition_hash = out.intuition_hash;
          encrypted = i.encrypted;
        };
      } in
      let later = env.dates.to_iso_string m.uploaded_at in
      let same : article_data u timestamp ≡ article_data made later =
        unique _ _ tags _ out.arweave_id sent i.uploaded in
      article_data-intuition u made timestamp later same ∙ undeclared

  -- Where one receipt is given for one text only, and the gateways answer a private article's
  -- identifier with an upload that has this receipt, the article that preparePublish has published can
  -- never be verified: verifyArticle gives no report, whatever the chain holds.
  pub published_private_no_report :
      {S : Type 0} (body : PublishBody) (m : Moment) (t t' : Tables p) (out : Published)
      (u : Upload) (timestamp : Text) (tags : List (Text × Text)) (db_article : Option Article)
      (id : Text) (s s' : S) (r : Report)
      → prepare_publish p env body m t ≡ (ok out, t')
      → out.is_public ≡ false
      → ((text other : Text) (its others : List (Text × Text)) (k : Text)
          → env.irys.upload text its ≡ receipt k
          → env.irys.upload other others ≡ receipt k
          → text ≡ other)
      → env.irys.upload (article_data u timestamp) tags ≡ receipt out.arweave_id
      → arweave_id_of db_article id ≡ out.arweave_id
      → get_content j fetch gateway_variable out.arweave_id ≡ ok (obj (article_fields u timestamp))
      → verify_article env.wallets env.cipher j fetch on_chain gateway_variable db_article id s
        ≢ (ok r, s')
  published_private_no_report body m t t' out u timestamp tags db_article id s s' r done hidden
        unique sent asked given =
      no_intuition_no_report env.wallets env.cipher j fetch on_chain gateway_variable db_article id
        s s' r (obj (article_fields u timestamp)) (rw asked given)
        (unintended u timestamp
          (private_intuition body m t t' out u timestamp tags done hidden unique sent))
