-- ===== src/Publish.antt =====
-- Publication: preparePublish of apps/api/src/controllers/articles.controller.ts. `signedPayload` is
-- an object whose `createdAt` is a text or missing; `encryptedPayload` has the members of its type.
pub mod Columns
pub mod Guards
pub mod Kept
pub mod Signed
pub mod Sharing
pub mod Body
use aurora_scholar.Prelude.{
  ℕ, ◌*◌, Bool, true, false, not, ◌&&◌, Option, none, some, List, [], ◌∷◌, ◌++◌, map, length, ltb,
  ◌==◌, nat_eq, or_else, truthy, if◌then◌else◌, ◌/◌, ◌%◌,
}
use aurora_scholar.Text.{Text, units, utf8}
use aurora_scholar.Http.{
  Handler, create_error, plain_error, pure, throw, gets, need, modify, throw_if, ◌>>=◌, ◌>>◌,
}
use aurora_scholar.External.{Wallets, Cipher, Irys, Dates, distance}
use aurora_scholar.Canonical.{
  bool, num, Fields, end, field, hex_digit, stable_stringify, json_object,
}
use aurora_scholar.Canonical.Messages.{text_field, Payload, publish_message}
use aurora_scholar.Database.{Article, ArticleSecret, published, Prisma, Tables, upserted}
use aurora_scholar.Secrets.{encrypt_article_key}
use aurora_scholar.Storage.{Upload, upload_article, get_arweave_url}

pub record EncryptedPayload : Type 0 where
  pub iv_b64 : Option Text
  pub ciphertext_b64 : Option Text
  pub alg : Option Text
  pub v : Option ℕ

pub record PublishBody : Type 0 where
  pub title : Option Text
  pub content : Option Text
  pub declared_intuition : Option Text
  pub ai_scope : Option Text
  pub is_public : Option Bool
  pub author : Option Text
  pub signature : Option Text
  -- `some none`: there is a payload, without `createdAt`.
  pub signed_payload : Option (Option Text)
  pub article_key : Option Text
  pub encrypted_payload : Option EncryptedPayload

pub record Published : Type 0 where
  pub article_id : Text
  pub arweave_id : Text
  pub arweave_url : Text
  pub content_hash : Text
  pub intuition_hash : Text
  pub title : Text
  pub ai_scope : Text
  pub is_public : Bool
  pub author : Text

-- `!!isPublic`
abbrev pub flag : Option Bool → Bool
flag none = false
flag (some b) = b

unfoldable pub hex_text : List ℕ → Text
unfolding hex_digit
hex_text [] = []
hex_text (b ∷ bytes) = hex_digit (b / 16) ∷ hex_digit (b % 16) ∷ hex_text bytes

-- The members of `{ ...encryptedPayload }`, those that are missing left out.
abbrev pub payload_fields : EncryptedPayload → Fields
payload_fields e = with_iv e.iv_b64 (with_text e.ciphertext_b64 (with_alg e.alg (with_v e.v)))
  where
    with_v : Option ℕ → Fields
    with_v none = end
    with_v (some n) = field (units "v") (num n) end

    with_alg : Option Text → Fields → Fields
    with_alg none fs = fs
    with_alg (some t) fs = text_field "alg" t fs

    with_text : Option Text → Fields → Fields
    with_text none fs = fs
    with_text (some t) fs = text_field "ciphertextB64" t fs

    with_iv : Option Text → Fields → Fields
    with_iv none fs = fs
    with_iv (some t) fs = text_field "ivB64" t fs

-- What is stored in place of a private text: `JSON.stringify({ encrypted: true, ...encryptedPayload })`.
unfoldable pub stored_ciphertext : EncryptedPayload → Text
stored_ciphertext e = json_object (field (units "encrypted") (bool true) (payload_fields e))

-- The client's key and cipher text, which a private article must bring.
pub record Sealed : Type 0 where
  pub article_key : Text
  pub payload : EncryptedPayload

-- The test `!articleKey || !encryptedPayload?.ivB64 || !encryptedPayload?.ciphertextB64`.
abbrev pub sealed_parts : Option Text → Option Text → Option Text → EncryptedPayload → Option Sealed
sealed_parts none iv text e = none
sealed_parts (some key) none text e = none
sealed_parts (some key) (some iv) none e = none
sealed_parts (some key) (some iv) (some text) e = some (record { article_key = key; payload = e })

unfoldable pub sealed : Option Text → Option EncryptedPayload → Option Sealed
sealed key none = none
sealed key (some e) = sealed_parts (truthy key) (truthy e.iv_b64) (truthy e.ciphertext_b64) e

-- What is uploaded and stored: of a private article the cipher text, and no declared intuition.
abbrev pub stored_content : Option Sealed → Text → Text
stored_content none content = content
stored_content (some s) content = stored_ciphertext s.payload

abbrev pub uploaded_intuition : Option Sealed → Text → Text
uploaded_intuition none declared = declared
uploaded_intuition (some s) declared = []

abbrev pub is_sealed : Option Sealed → Bool
is_sealed none = false
is_sealed (some s) = true

-- The body of the upload.
abbrev pub upload_of : Payload → Option Sealed → (content declared : Text) → Upload
upload_of payload part content declared = record {
  content = stored_content part content;
  title = payload.title;
  declared_intuition = uploaded_intuition part declared;
  metadata = record {
    ai_scope = payload.ai_scope;
    is_public = payload.is_public;
    author = payload.author;
    content_hash = payload.content_hash;
    intuition_hash = payload.intuition_hash;
    encrypted = is_sealed part;
  };
}

-- The row that is created, and what is written over an existing one; `text` is what is stored.
abbrev pub new_article : Payload → (text arweave_id row_id : Text) → ℕ → Article
new_article payload text arweave_id row_id time = record {
  id = row_id;
  title = payload.title;
  content = text;
  content_hash = payload.content_hash;
  author_wallet = payload.author;
  arweave_id = some arweave_id;
  is_public = payload.is_public;
  status = published;
  created_at = time;
  published_at = some time;
}

abbrev pub renew_article : Payload → (text : Text) → ℕ → Article → Article
renew_article payload text time a = record a {
  title = payload.title;
  content = text;
  content_hash = payload.content_hash;
  author_wallet = payload.author;
  is_public = payload.is_public;
  status = published;
  published_at = some time;
}

-- `sha256Hex`
unfoldable pub sha256_hex : Cipher → Text → Text
sha256_hex c input = hex_text (c.sha256 input)

module _ (w : Wallets) {S : Type 0} where
  unfoldable pub verify_signature : (author message signature_b64 : Text) → Handler S Bool
  verify_signature author message signature_b64 = do
    key ← need (w.public_key author) (plain_error "Invalid public key input")
    let bytes = w.from_base64 signature_b64
    pure (length bytes == 64 && w.verify (utf8 message) bytes key)

  -- A public article needs no more; of a private one the client's key and cipher text are required.
  unfoldable pub require_sealed : Bool → PublishBody → Handler S (Option Sealed)
  require_sealed true body = pure none
  require_sealed false body = do
    s ←
        need (sealed body.article_key body.encrypted_payload)
          (create_error "articleKey and encryptedPayload are required for private publish" 400)
    pure (some s)

-- What the handler takes from the server and its environment.
pub record Server (p : Prisma) : Type 1 where
  pub wallets : Wallets
  pub cipher : Cipher
  pub dates : Dates
  pub irys : Irys
  -- IRYS_PRIVATE_KEY, ARWEAVE_GATEWAY_URL and ARTICLE_KEY_ENCRYPTION_SECRET.
  pub private_key : Option Text
  pub gateway_variable : Option Text
  pub secret_variable : Option Text

-- The random and clock values of one request: the ids of new rows, the initialisation vector of the
-- key's encryption, and the times at which the clock is read.
pub record Moment : Type 0 where
  pub row_id : Text
  pub secret_id : Text
  pub iv : List ℕ
  pub now : ℕ
  pub uploaded_at : ℕ
  pub published_at : ℕ

module _ (p : Prisma) (env : Server p) where
  -- The last step: the key of a private article, encrypted at rest.
  unfoldable pub store_key :
      Option Sealed → (article_id : Text) → Moment → Handler (Tables p) (Unit {0})
  store_key none article_id m = pure tt
  store_key (some s) article_id m = do
    let key_bytes = env.wallets.from_base64 s.article_key
    throw_if (not (length key_bytes == 32))
        (create_error "articleKey must be 32 bytes (base64)" 400)
    encrypted ← encrypt_article_key env.wallets env.cipher env.secret_variable m.iv key_bytes
    let new : ArticleSecret = record {
      id = m.secret_id;
      article_id = article_id;
      encrypted_key = encrypted;
    }
    modify (λ t. record t {
      secrets =
          p.secrets.upsert t.secrets article_id new (λ r. record r { encrypted_key = encrypted });
    })

  unfoldable pub prepare_publish : PublishBody → Moment → Handler (Tables p) Published
  prepare_publish body m = do
    let missing =
        create_error
          "title, content, declaredIntuition, author, signature, and signedPayload are required" 400
    title ← need (truthy body.title) missing
    content ← need (truthy body.content) missing
    declared ← need (truthy body.declared_intuition) missing
    author ← need (truthy body.author) missing
    signature ← need (truthy body.signature) missing
    created_field ← need body.signed_payload missing
    let created_at = or_else created_field []
    let payload : Payload = record {
      author = author;
      title = title;
      content_hash = sha256_hex env.cipher content;
      intuition_hash = sha256_hex env.cipher declared;
      ai_scope = or_else body.ai_scope [];
      is_public = flag body.is_public;
      created_at = created_at;
    }
    created ←
        need (env.dates.parse created_at)
          (create_error "signedPayload.createdAt is required (ISO string)" 400)
    throw_if (ltb (5 * 60 * 1000) (distance m.now created))
        (create_error "signedPayload expired" 400)
    valid ←
        verify_signature env.wallets author (stable_stringify (publish_message payload)) signature
    throw_if (not valid) (create_error "Invalid signature" 401)
    private_part ← require_sealed env.wallets payload.is_public body
    arweave_id ←
        upload_article env.irys env.dates env.private_key
          (upload_of payload private_part content declared) m.uploaded_at
    let text = stored_content private_part content
    let new = new_article payload text arweave_id m.row_id m.published_at
    let change = renew_article payload text m.published_at
    before ← gets (λ t. p.articles.find_by_arweave_id t.articles arweave_id)
    modify (λ t. record t { articles = p.articles.upsert t.articles arweave_id new change })
    let article = upserted before new change
    store_key private_part article.id m
    pure (record {
      article_id = article.id;
      arweave_id = arweave_id;
      arweave_url = get_arweave_url env.gateway_variable arweave_id;
      content_hash = payload.content_hash;
      intuition_hash = payload.intuition_hash;
      title = title;
      ai_scope = payload.ai_scope;
      is_public = payload.is_public;
      author = author;
    })
