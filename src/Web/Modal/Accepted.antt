-- ===== src/Web/Modal/Accepted.antt =====
-- That the API accepts what the editor sends.
use aurora_scholar.Prelude.{
  ◌≡◌, ◌≢◌, refl, ◌*◌, ◌≤◌, Bool, true, none, some, [], ◌∷◌, length, or_else, truthy,
  truthy_of_ne-nil, le→ltb-false, nat_eq, list_beq, ◌==◌,
}
use aurora_scholar.Text.{Text, utf8}
use aurora_scholar.Http.{ok, pure, ◌>>=◌}
use aurora_scholar.Http.Steps.{bind_step, need_step, gets_step, throw_if_step, modify_step}
use aurora_scholar.External.{Instant, distance, receipt}
use aurora_scholar.Canonical.{stable_stringify}
use aurora_scholar.Canonical.Messages.{Payload, publish_message}
use aurora_scholar.Database.{Prisma, Tables, upserted}
use aurora_scholar.Storage.{article_data, upload_tags, upload_article, get_irys, get_arweave_url}
use aurora_scholar.Publish.{
  PublishBody, Published, Server, Moment, prepare_publish, verify_signature, require_sealed,
  store_key, upload_of, new_article, renew_article, sha256_hex,
}
use aurora_scholar.Publish.Body.{read_publish_body}
use aurora_scholar.Publish.Guards.{IsSignedBy}
use aurora_scholar.Web.Crypto.{Subtle, sha256_hex_browser}
use aurora_scholar.Web.Modal.{Draft, payload_of_draft, prepare_fields}

or_else-nil : (t : Text) → or_else (some t) [] ≡ t
or_else-nil [] = refl
or_else-nil (u ∷ t) = refl

-- The two digests are one function of the text.
abbrev pub SameDigest : {p : Prisma} → Subtle → Server p → Type 0
SameDigest c env = (t : Text) → c.digest (utf8 t) ≡ env.cipher.sha256 t

module _ (p : Prisma) (env : Server p) (c : Subtle) where
  -- The body that the API reads has exactly the members that the editor has sent.
  read_body :
      (author signature created_at : Text) (d : Draft)
      → read_publish_body (prepare_fields author d none signature created_at) ≡ record {
        title = some d.title;
        content = some d.content;
        declared_intuition = some d.declared_intuition;
        ai_scope = some d.ai_scope;
        is_public = some d.is_public;
        author = some author;
        signature = some signature;
        signed_payload = some (some created_at);
        article_key = none;
        encrypted_payload = none;
      }
  unfolding read_publish_body prepare_fields list_beq
  read_body author signature created_at d = refl

  same_hash : SameDigest c env → (t : Text) → sha256_hex_browser c t ≡ sha256_hex env.cipher t
  unfolding sha256_hex_browser sha256_hex
  same_hash same t = rw (same t) refl

  same_payload :
      SameDigest c env
      → (author created_at : Text) (d : Draft)
      → payload_of_draft c author d created_at ≡ record {
        author = author;
        title = d.title;
        content_hash = sha256_hex env.cipher d.content;
        intuition_hash = sha256_hex env.cipher d.declared_intuition;
        ai_scope = or_else (some d.ai_scope) [];
        is_public = d.is_public;
        created_at = or_else (some created_at) [];
      }
  unfolding payload_of_draft
  same_payload same author created_at d = rw (
    same_hash same d.content,
    same_hash same d.declared_intuition,
    or_else-nil d.ai_scope,
    or_else-nil created_at,
  )

  verify_signature-runs :
      {S : Type 0} (author message signature : Text) (s : S)
      → IsSignedBy env.wallets author message signature
      → verify_signature env.wallets author message signature s ≡ (ok true, s)
  unfolding verify_signature ◌>>=◌
  verify_signature-runs author message signature s i =
      let long : (length (env.wallets.from_base64 signature) == 64) ≡ true =
        (nat_eq.beq_iff (length (env.wallets.from_base64 signature)) 64).1 i.length_64 in
      rw (i.parsed, long, i.verified)

  -- The upload of the server is set up, and gives an id.
  pub record IsUploadable (d : Draft) (payload : Payload) (m : Moment) (arweave_id : Text)
      : Type 0 where
    pub private_key : Text
    pub configured : truthy env.private_key ≡ some private_key
    pub set_up : env.irys.setup_error private_key ≡ none
    pub answered :
        env.irys.upload
          (article_data
            (upload_of payload none d.content d.declared_intuition)
            (env.dates.to_iso_string m.uploaded_at))
          (upload_tags payload.title)
        ≡ receipt arweave_id

  get_irys-runs :
      {S : Type 0} (d : Draft) (payload : Payload) (m : Moment) (arweave_id : Text) (s : S)
      → IsUploadable d payload m arweave_id
      → get_irys env.irys env.private_key s ≡ (ok tt, s)
  unfolding get_irys pure
  get_irys-runs d payload m arweave_id s u = need_step _ s _ _ u.configured (rw u.set_up refl)

  upload_article-runs :
      {S : Type 0} (d : Draft) (payload : Payload) (m : Moment) (arweave_id : Text) (s : S)
      → IsUploadable d payload m arweave_id
      → upload_article env.irys env.dates env.private_key
          (upload_of payload none d.content d.declared_intuition)
          m.uploaded_at
          s
        ≡ (ok arweave_id, s)
  unfolding upload_article pure
  upload_article-runs d payload m arweave_id s u =
      bind_step _ _ s (get_irys-runs d payload m arweave_id s u) (rw u.answered refl)

  require_sealed-public :
      {S : Type 0} (x : Bool) (body : PublishBody) (s : S)
      → x ≡ true
      → require_sealed env.wallets x body s ≡ (ok none, s)
  unfolding require_sealed pure
  require_sealed-public x body s h = rw h refl

  store_key-none :
      (article_id : Text) (m : Moment) (t : Tables p)
      → store_key p env none article_id m t ≡ (ok tt, t)
  unfolding store_key pure
  store_key-none article_id m t = refl

  -- What the API has published of a draft.
  pub record IsAccepted (author signature created_at : Text) (d : Draft) (m : Moment)
      (arweave_id : Text) (t : Tables p) : Type 0 where
    pub out : Published
    pub after : Tables p
    pub answered :
        prepare_publish p env
          (read_publish_body (prepare_fields author d none signature created_at))
          m
          t
        ≡ (ok out, after)
    pub id : out.arweave_id ≡ arweave_id
    pub hash : out.content_hash ≡ sha256_hex_browser c d.content
    pub same_author : out.author ≡ author

  module _ (same : SameDigest c env) (author signature created_at : Text) (d : Draft) where
    -- A public draft that the editor sends, signed by its author over the editor's own canonical
    -- text, is accepted by the API within five minutes of its date, where the upload is set up and
    -- answers: the two sides hash and write the payload alike.
    pub prepare_publish-accepts :
        (m : Moment) (created : Instant) (arweave_id : Text) (t : Tables p)
        → d.is_public ≡ true
        → d.title ≢ []
        → d.content ≢ []
        → d.declared_intuition ≢ []
        → author ≢ []
        → signature ≢ []
        → IsSignedBy env.wallets author
            (stable_stringify (publish_message (payload_of_draft c author d created_at)))
            signature
        → env.dates.parse created_at ≡ some created
        → distance m.now created ≤ 5 * 60 * 1000
        → IsUploadable d (payload_of_draft c author d created_at) m arweave_id
        → IsAccepted author signature created_at d m arweave_id t
    unfolding prepare_publish pure
    prepare_publish-accepts m created arweave_id t visible ht hc hi ha hs signed parsed fresh up =
        let signed' =
          verify_signature-runs author _ signature t (rw (same_payload same) at signed) in
        let up' = upload_article-runs d _ m arweave_id t (rw (same_payload same) at up) in
        let parsed' : env.dates.parse (or_else (some created_at) []) ≡ some created =
          rw (or_else-nil created_at) parsed in
        let payload : Payload = record {
          author = author;
          title = d.title;
          content_hash = sha256_hex env.cipher d.content;
          intuition_hash = sha256_hex env.cipher d.declared_intuition;
          ai_scope = or_else (some d.ai_scope) [];
          is_public = d.is_public;
          created_at = or_else (some created_at) [];
        } in
        let new = new_article payload d.content arweave_id m.row_id m.published_at in
        let change = renew_article payload d.content m.published_at in
        let article = upserted (p.articles.find_by_arweave_id t.articles arweave_id) new change in
        record {
          out = record {
            article_id = article.id;
            arweave_id = arweave_id;
            arweave_url = get_arweave_url env.gateway_variable arweave_id;
            content_hash = payload.content_hash;
            intuition_hash = payload.intuition_hash;
            title = d.title;
            ai_scope = payload.ai_scope;
            is_public = payload.is_public;
            author = author;
          };
          after = record t { articles = p.articles.upsert t.articles arweave_id new change };
          answered = rw (read_body author signature created_at d) (
              need_step _ t _ _ (truthy_of_ne-nil d.title ht) (
                need_step _ t _ _ (truthy_of_ne-nil d.content hc) (
                  need_step _ t _ _ (truthy_of_ne-nil d.declared_intuition hi) (
                    need_step _ t _ _ (truthy_of_ne-nil author ha) (
                      need_step _ t _ _ (truthy_of_ne-nil signature hs) (
                        need_step _ t _ _ refl (
                          need_step _ t _ _ parsed' (
                            throw_if_step _ t _ _ (le→ltb-false fresh) (
                              bind_step _ _ t signed' (
                                throw_if_step _ t _ _ refl (
                                  bind_step _ _ t (require_sealed-public d.is_public _ t visible) (
                                    bind_step _ _ t up' (
                                      gets_step _ t _ (
                                        modify_step _ t _ (
                                          bind_step _ _ _ (store_key-none article.id m _)
                                            refl)))))))))))))));
          id = refl;
          hash = rw (same_hash same d.content) refl;
          same_author = refl;
        }
