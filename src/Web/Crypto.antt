-- ===== src/Web/Crypto.antt =====
-- Private articles in the browser: apps/web/src/lib/crypto/aesGcm.ts, and the hashes of
-- components/editor/PublishModal.tsx. WebCrypto's AES-GCM appends the tag to the cipher text.
use aurora_scholar.Prelude.{
  ℕ, ◌+◌, ◌*◌, ◌-◌, ◌/◌, ◌%◌, ◌<◌, ◌≡◌, refl, false, not, Option, none, some, List, [], ◌∷◌, length,
  leb, if◌then◌else◌, ◌==◌, nat_eq, All, arith, ◌&&◌, ◌||◌, Bool-cases, inl, inr,
}
use aurora_scholar.Text.{Text, units, utf8, strip_prefix, is_space}
use aurora_scholar.Http.{ok, Handler, plain_error, pure, throw_if, need, ◌>>=◌, ◌>>◌}
use aurora_scholar.External.{IsByte}
use aurora_scholar.Canonical.{Value, Fields, hex_digit, json_object}
use aurora_scholar.Publish.{hex_text, EncryptedPayload}
use aurora_scholar.Web.{Browser, Page, error}
use aurora_scholar.Web.Session.{bytes_to_base64}

-- `base64ToBytes`, where `atob` does not throw: a unit of its result is a byte.
unfoldable pub base64_to_bytes : Browser → Text → Option (List ℕ)
base64_to_bytes b text = b.atob text

-- `crypto.subtle`: the key, the initialisation vector and the data. `none`: the data do not decrypt.
pub record Subtle : Type 0 where
  pub encrypt : List ℕ → List ℕ → List ℕ → List ℕ
  pub decrypt : List ℕ → List ℕ → List ℕ → Option (List ℕ)
  pub decrypt_error : Text
  -- `new TextDecoder().decode(bytes)` and `JSON.parse` of it.
  pub parse : List ℕ → Option Value
  -- SHA-256 of bytes.
  pub digest : List ℕ → List ℕ

module _ (b : Browser) (c : Subtle) {U : Type 0} where
  -- `iv` is what `getRandomValues` fills; the plain object is the one that is turned into JSON.
  unfoldable pub aes_gcm_encrypt :
      (key_bytes iv : List ℕ) (plaintext : Fields) → Handler (Page b U) EncryptedPayload
  aes_gcm_encrypt key_bytes iv plaintext = do
    throw_if (not (length key_bytes == 32)) (plain_error "keyBytes32 must be 32 bytes")
    pure (record {
      iv_b64 = some (bytes_to_base64 b iv);
      ciphertext_b64 =
          some (bytes_to_base64 b (c.encrypt key_bytes iv (utf8 (json_object plaintext))));
      alg = some (units "AES-256-GCM");
      v = some 1;
    })

  unfoldable pub aes_gcm_decrypt :
      (key_bytes : List ℕ) (iv_b64 ciphertext_b64 : Text) → Handler (Page b U) Value
  aes_gcm_decrypt key_bytes iv_b64 ciphertext_b64 = do
    throw_if (not (length key_bytes == 32)) (plain_error "keyBytes32 must be 32 bytes")
    iv ← need (base64_to_bytes b iv_b64) (error b.base64_error)
    ciphertext ← need (base64_to_bytes b ciphertext_b64) (error b.base64_error)
    plain ← need (c.decrypt key_bytes iv ciphertext) (error c.decrypt_error)
    need (c.parse plain) (error b.json_error)

-- The value of one hexadecimal digit.
unfoldable pub hex_value : ℕ → Option ℕ
hex_value u =
    if leb 48 u && leb u 57
    then some (u - 48)
    else if leb 97 u && leb u 102
    then some (u - 87)
    else if leb 65 u && leb u 70
    then some (u - 55)
    else none

-- `parseInt` of two units to the base 16, put into a byte: white space or a sign may stand in front
-- of a digit, what is no digit ends the number, and NaN is stored as 0.
abbrev byte_of : ℕ → Option ℕ → Option ℕ → ℕ
byte_of u none none = 0
byte_of u none (some y) =
    if is_space u || u == 43 then y else if u == 45 then (256 - y) % 256 else 0
byte_of u (some x) none = x
byte_of u (some x) (some y) = 16 * x + y

unfoldable pub hex_bytes : Text → List ℕ
unfolding hex_value
hex_bytes [] = []
hex_bytes (u ∷ []) = byte_of u (hex_value u) none ∷ []
hex_bytes (u ∷ v ∷ t) = byte_of u (hex_value u) (hex_value v) ∷ hex_bytes t

abbrev without_prefix : Text → Option Text → Text
without_prefix hex none = hex
without_prefix hex (some rest) = rest

unfoldable pub hex_to_bytes : {S : Type 0} → Text → Handler S (List ℕ)
unfolding hex_bytes
hex_to_bytes hex = do
  let normalized = without_prefix hex (strip_prefix (units "0x") hex)
  throw_if (not (length normalized == 64))
      (plain_error "Invalid hash length (expected 32 bytes hex)")
  pure (hex_bytes normalized)

-- `sha256HexBrowser`
unfoldable pub sha256_hex_browser : Subtle → Text → Text
sha256_hex_browser c input = hex_text (c.digest (utf8 input))

hex_value-digit : (d : ℕ) → d < 16 → hex_value (hex_digit d) ≡ some d
unfolding hex_value hex_digit
hex_value-digit d h = ground arith

hex_bytes-hex_text : (bytes : List ℕ) → All IsByte bytes → hex_bytes (hex_text bytes) ≡ bytes
unfolding hex_bytes hex_text
hex_bytes-hex_text [] h = refl
hex_bytes-hex_text (b ∷ bytes) (hb, hs) =
    let high : b / 16 < 16 = omega arith in
    let low : b % 16 < 16 = omega arith in
    let whole : 16 * (b / 16) + b % 16 ≡ b = omega arith in
    rw (
      hex_value-digit (b / 16) high,
      hex_value-digit (b % 16) low,
      whole,
      hex_bytes-hex_text bytes hs,
    )

length-hex_text : (bytes : List ℕ) → length (hex_text bytes) ≡ 2 * length bytes
unfolding hex_text
length-hex_text [] = refl
length-hex_text (b ∷ bytes) = omega (arith, length-hex_text bytes)

hex_digit-ne-x : (d : ℕ) → d < 16 → (120 == hex_digit d) ≡ false
unfolding hex_digit
hex_digit-ne-x d h = ground arith

unprefixed : (bytes : List ℕ) → strip_prefix (units "0x") (hex_text bytes) ≡ none
unfolding hex_text strip_prefix
unprefixed [] = refl
unprefixed (b ∷ bytes) =
    let low : b % 16 < 16 = omega arith in
    elim (Bool-cases (48 == hex_digit (b / 16))) [
      | inl zero_first ↦ rw (zero_first, hex_digit-ne-x (b % 16) low)
      | inr other ↦ rw other
    ]

-- The 32 bytes that the page puts into the instruction are those whose hexadecimal text the server
-- sent: for every list of 32 bytes, reading its text gives the list back, without an error.
pub hex_to_bytes-hex_text :
    {S : Type 0} (bytes : List ℕ) (s : S)
    → length bytes ≡ 32
    → All IsByte bytes
    → hex_to_bytes (hex_text bytes) s ≡ (ok bytes, s)
unfolding hex_to_bytes ◌>>=◌
hex_to_bytes-hex_text bytes s h32 hb =
    let h64 : length (hex_text bytes) ≡ 64 = rw (length-hex_text, h32) in
    rw (unprefixed bytes, h64, hex_bytes-hex_text bytes hb)
