-- ===== src/Publish/Signed.antt =====
-- What a publication that succeeds has checked, and what it leaves in the database.
use aurora_scholar.Prelude.{
  ◌≤◌, ◌*◌, ◌≡◌, refl, ◌∙◌, Bool, Option, some, [], arith, nat_eq, truthy, or_else, list_eq,
}
use aurora_scholar.Text.{Text}
use aurora_scholar.Http.{ok}
use aurora_scholar.Http.Inversion.{
  need-bind, gets-bind, throw_if-bind, modify-bind, pure-ok, bind-ok,
}
use aurora_scholar.External.{Instant, distance, receipt}
use aurora_scholar.Canonical.{stable_stringify, json_object}
use aurora_scholar.Canonical.Messages.{Payload, publish_message}
use aurora_scholar.Database.{Article, Prisma, Tables, upserted}
use aurora_scholar.Storage.{upload_tags}
use aurora_scholar.Storage.Uploads.{upload_article-ok}
use aurora_scholar.Publish.{
  PublishBody, Published, flag, Sealed, stored_content, uploaded_intuition, is_sealed, new_article,
  renew_article, sha256_hex, Server, Moment, prepare_publish,
}
use aurora_scholar.Publish.Columns.{
  IsRowOf, IsCreated, IsPublishedText, uploaded_fields, uploaded_data, upserted-IsRowOf,
  upserted-IsCreated, stored_content-IsPublishedText,
}
use aurora_scholar.Publish.Guards.{
  IsChosen, IsSignedBy, verify_signature_sound, require_sealed_sound,
}
use aurora_scholar.Publish.Kept.{IsKept, store_key_sound, kept-articles}

module _ (p : Prisma) (env : Server p) where
  -- The payload that an answer stands for.
  abbrev pub payload_of : Published → Text → Payload
  payload_of out created_at = record {
    author = out.author;
    title = out.title;
    content_hash = out.content_hash;
    intuition_hash = out.intuition_hash;
    ai_scope = out.ai_scope;
    is_public = out.is_public;
    created_at = created_at;
  }

  -- What stands behind a publication.
  pub record IsPrepared (body : PublishBody) (m : Moment) (t t' : Tables p) (out : Published)
      : Type 0 where
    pub content : Text
    pub declared : Text
    pub signature : Text
    pub created_field : Option Text
    pub created : Instant
    pub part : Option Sealed
    pub title_given : truthy body.title ≡ some out.title
    pub content_given : truthy body.content ≡ some content
    pub declared_given : truthy body.declared_intuition ≡ some declared
    pub author_given : truthy body.author ≡ some out.author
    pub signature_given : truthy body.signature ≡ some signature
    pub payload_given : body.signed_payload ≡ some created_field
    pub scope : out.ai_scope ≡ or_else body.ai_scope []
    pub visible : out.is_public ≡ flag body.is_public
    pub content_hash : out.content_hash ≡ sha256_hex env.cipher content
    pub intuition_hash : out.intuition_hash ≡ sha256_hex env.cipher declared
    pub signed :
        IsSignedBy env.wallets out.author
          (stable_stringify (publish_message (payload_of out (or_else created_field []))))
          signature
    pub parsed : env.dates.parse (or_else created_field []) ≡ some created
    pub fresh : distance m.now created ≤ 5 * 60 * 1000
    pub private_part : IsChosen out.is_public body part
    pub text : Text
    pub intuition : Text
    pub encrypted : Bool
    pub published_text : IsPublishedText part content declared text intuition encrypted
    pub uploaded :
        env.irys.upload
          (json_object (
            uploaded_fields
              (payload_of out (or_else created_field []))
              text
              intuition
              (env.dates.to_iso_string m.uploaded_at)
              encrypted))
          (upload_tags out.title)
        ≡ receipt out.arweave_id
    pub row : Article
    pub stored : p.articles.find_by_id t'.articles out.article_id ≡ some row
    pub row_of : IsRowOf (payload_of out (or_else created_field [])) text m.published_at row
    pub row_created :
        IsCreated
          (p.articles.find_by_arweave_id t.articles out.arweave_id)
          m.row_id
          out.arweave_id
          m.published_at
          row
    pub middle : Tables p
    pub middle_secrets : middle.secrets ≡ t.secrets
    pub middle_grants : middle.grants ≡ t.grants
    pub kept : IsKept p env part out.article_id m middle t'

  -- If a publication succeeds then all six fields were given, the author's key signed the canonical
  -- text of exactly the payload that is answered, its date lies within five minutes of the clock, and
  -- the uploaded data and the stored row have that payload's title, author, content hash and
  -- visibility and what is published of the content (of a private article the cipher text); the row is published, and has the Arweave id and
  -- the times of its creation if it is new, or keeps those of the row that was found by that id. A
  -- private article's key of 32 bytes is
  -- stored encrypted, and a public one stores none. Grants are untouched.
  pub prepare_publish_sound :
      (body : PublishBody) (m : Moment) (t t' : Tables p) (out : Published)
      → prepare_publish p env body m t ≡ (ok out, t')
      → IsPrepared body m t t' out
  unfolding prepare_publish
  prepare_publish_sound body m t t' out e = need-bind _ _ _ _ e λ title title_given e.
      need-bind _ _ _ _ e λ content content_given e.
        need-bind _ _ _ _ e λ declared declared_given e.
          need-bind _ _ _ _ e λ author author_given e.
            need-bind _ _ _ _ e λ signature signature_given e.
              need-bind _ _ _ _ e λ created_field payload_given e.
                need-bind _ _ _ _ e λ created parsed e. throw_if-bind _ _ _ _ e λ fresh e.
                  bind-ok _ _ t e λ valid t1 checked e. throw_if-bind _ _ _ _ e λ accepted e.
                    let (signed, same1) =
                      verify_signature_sound env.wallets author _ signature valid t t1 checked
                        (ground arith) in
                    bind-ok _ _ t1 e λ part t2 required e.
                      let (private_part, same2) =
                        require_sealed_sound env.wallets _ body part t1 t2 required in
                      bind-ok _ _ t2 e λ arweave_id t3 uploaded e.
                        let (id, same3) =
                          upload_article-ok env.irys env.dates env.private_key _ m.uploaded_at
                            arweave_id t2 t3 uploaded in
                        let same : t ≡ t3 = same1 ∙ same2 ∙ same3 in
                        gets-bind _ _ _ e λ e. modify-bind _ _ _ e λ e.
                          bind-ok _ _ _ e λ _ t4 keys e.
                            let (answer, left) = pure-ok _ _ e in
                            let payload : Payload = record {
                              author = author;
                              title = title;
                              content_hash = sha256_hex env.cipher content;
                              intuition_hash = sha256_hex env.cipher declared;
                              ai_scope = or_else body.ai_scope [];
                              is_public = flag body.is_public;
                              created_at = or_else created_field [];
                            } in
                            let text = stored_content part content in
                            let new = new_article payload text arweave_id m.row_id m.published_at in
                            let change = renew_article payload text m.published_at in
                            let before = p.articles.find_by_arweave_id t3.articles arweave_id in
                            let row = upserted before new change in
                            let kept = store_key_sound p env part row.id m _ t4 keys in
                            rw (← answer, ← left)
                              (record {
                                content = content;
                                declared = declared;
                                signature = signature;
                                created_field = created_field;
                                created = created;
                                part = part;
                                title_given = title_given;
                                content_given = content_given;
                                declared_given = declared_given;
                                author_given = author_given;
                                signature_given = signature_given;
                                payload_given = payload_given;
                                scope = refl;
                                visible = refl;
                                content_hash = refl;
                                intuition_hash = refl;
                                signed = signed;
                                parsed = parsed;
                                fresh = ground arith;
                                private_part = private_part;
                                text = text;
                                intuition = uploaded_intuition part declared;
                                encrypted = is_sealed part;
                                published_text =
                                    stored_content-IsPublishedText part content declared;
                                uploaded =
                                    rw
                                      (← uploaded_data payload part content declared
                                        (env.dates.to_iso_string m.uploaded_at))
                                      id;
                                row = row;
                                stored = rw (kept-articles p env part row.id m _ t4 kept) (
                                    p.articles.find_by_id-upsert t3.articles arweave_id new change);
                                row_of =
                                    upserted-IsRowOf payload text arweave_id m.row_id m.published_at
                                      before;
                                row_created = rw same (
                                    upserted-IsCreated payload text arweave_id m.row_id
                                      m.published_at before);
                                middle = _;
                                middle_secrets = rw same;
                                middle_grants = rw same;
                                kept = kept;
                              })
