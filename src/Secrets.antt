-- ===== src/Secrets.antt =====
-- Article keys encrypted at rest: apps/api/src/services/article-secrets.service.ts.
-- The initialisation vector, twelve random bytes, is an argument.
pub mod RoundTrip
use aurora_scholar.Prelude.{
  ℕ, Bool, not, Option, none, some, List, ◌++◌, length, take, drop, ltb, ◌==◌, nat_eq, truthy,
}
use aurora_scholar.Text.{Text}
use aurora_scholar.Http.{Handler, create_error, plain_error, pure, need, throw_if, ◌>>=◌, ◌>>◌}
use aurora_scholar.External.{Wallets, Cipher}

module _ (w : Wallets) (c : Cipher) {S : Type 0} where
  -- `getSecretKey`, over `process.env.ARTICLE_KEY_ENCRYPTION_SECRET`.
  unfoldable pub get_secret_key : Option Text → Handler S (List ℕ)
  get_secret_key secret_variable = do
    raw ←
        need (truthy secret_variable)
          (create_error "ARTICLE_KEY_ENCRYPTION_SECRET is not configured" 500)
    pure (c.sha256 raw)

  unfoldable pub encrypt_article_key : Option Text → List ℕ → List ℕ → Handler S Text
  encrypt_article_key secret_variable iv key_bytes = do
    throw_if (not (length key_bytes == 32)) (plain_error "keyBytes32 must be 32 bytes")
    master ← get_secret_key secret_variable
    let (ciphertext, tag) = c.encrypt master iv key_bytes
    pure (w.to_base64 (iv ++ (tag ++ ciphertext)))

  unfoldable pub decrypt_article_key : Option Text → Text → Handler S (List ℕ)
  decrypt_article_key secret_variable encrypted = do
    master ← get_secret_key secret_variable
    let payload = w.from_base64 encrypted
    throw_if (ltb (length payload) 29) (plain_error "Invalid encrypted key payload")
    let iv = take 12 payload
    let tag = take 16 (drop 12 payload)
    let ciphertext = drop 28 payload
    plain ←
        need (c.decrypt master iv tag ciphertext)
          (plain_error "Unsupported state or unable to authenticate data")
    throw_if (not (length plain == 32)) (plain_error "Decrypted key must be 32 bytes")
    pure plain
