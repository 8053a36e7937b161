-- ===== src/Publish/Body.antt =====
-- The body of a request to prepare a publication, read as preparePublish of
-- apps/api/src/controllers/articles.controller.ts destructures it.
use aurora_scholar.Prelude.{Option, none, some}
use aurora_scholar.Text.{Text}
use aurora_scholar.Canonical.{Fields}
use aurora_scholar.Json.{text_at, bool_at, number_at, object_at}
use aurora_scholar.Publish.{PublishBody, EncryptedPayload}

abbrev encrypted_payload_of : Option Fields → Option EncryptedPayload
encrypted_payload_of none = none
encrypted_payload_of (some fs) = some (record {
  iv_b64 = text_at "ivB64" fs;
  ciphertext_b64 = text_at "ciphertextB64" fs;
  alg = text_at "alg" fs;
  v = number_at "v" fs;
})

abbrev signed_payload_of : Option Fields → Option (Option Text)
signed_payload_of none = none
signed_payload_of (some fs) = some (text_at "createdAt" fs)

unfoldable pub read_publish_body : Fields → PublishBody
read_publish_body fs = record {
  title = text_at "title" fs;
  content = text_at "content" fs;
  declared_intuition = text_at "declaredIntuition" fs;
  ai_scope = text_at "aiScope" fs;
  is_public = bool_at "isPublic" fs;
  author = text_at "author" fs;
  signature = text_at "signature" fs;
  signed_payload = signed_payload_of (object_at "signedPayload" fs);
  article_key = text_at "articleKey" fs;
  encrypted_payload = encrypted_payload_of (object_at "encryptedPayload" fs);
}
