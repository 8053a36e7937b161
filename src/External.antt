-- ===== src/External.antt =====
-- What the program takes from packages: wallet signatures, web tokens. Each is a record of
-- operations, with the documented laws that the program relies on.
use aurora_scholar.Prelude.{
  ℕ, ◌+◌, ◌-◌, ◌/◌, ◌<◌, ◌≤◌, ◌≡◌, ◌≢◌, Bool, false, Option, some, none, List, [], All, length,
}
use aurora_scholar.Text.{Text, units, is_space, is_line_end}

abbrev pub IsByte : ℕ → Type 0
IsByte b = b < 256

-- `PublicKey` of @solana/web3.js, `Buffer.from(…, 'base64')`, and tweetnacl's
-- `sign.detached.verify(message, signature, publicKey)`.
pub record Wallets : Type 1 where
  pub Key : Type 0
  -- `none`: the constructor throws.
  pub public_key : Text → Option Key
  pub from_base64 : Text → List ℕ
  pub from_base64-IsByte : (t : Text) → All IsByte (from_base64 t)
  -- `buffer.toString('base64')`
  pub to_base64 : List ℕ → Text
  pub from-to_base64 : (bytes : List ℕ) → All IsByte bytes → from_base64 (to_base64 bytes) ≡ bytes
  pub verify : List ℕ → List ℕ → Key → Bool

-- What `jwt.verify` returns, or the message that it throws.
pub data Verdict : Type 0 where
  claims : Option Text → Verdict
  invalid : Text → Verdict

-- A unit of a token: neither white space nor the end of a line.
abbrev pub IsVisible : ℕ → Type 0
IsVisible u = (is_space u ≡ false) × (is_line_end u ≡ false)

-- jsonwebtoken. Times are in milliseconds, lifetimes in seconds; an expiry is a whole second.
pub record WebTokens : Type 0 where
  pub sign : (secret subject : Text) (lifetime now : ℕ) → Text
  pub verify : (token secret : Text) (now : ℕ) → Verdict
  pub verify-sign :
      (secret subject : Text) (lifetime issued now : ℕ)
      → now / 1000 < issued / 1000 + lifetime
      → verify (sign secret subject lifetime issued) secret now ≡ claims (some subject)
  -- From its expiry on, a token is refused.
  pub verify-expired :
      (secret subject : Text) (lifetime issued now : ℕ)
      → issued / 1000 + lifetime ≤ now / 1000
      → verify (sign secret subject lifetime issued) secret now ≡ invalid (units "jwt expired")
  pub sign-ne-nil :
      (secret subject : Text) (lifetime now : ℕ) → sign secret subject lifetime now ≢ []
  pub sign-IsVisible :
      (secret subject : Text) (lifetime now : ℕ) → All IsVisible (sign secret subject lifetime now)

-- Node's crypto: SHA-256 of a string, and AES-256-GCM with its 16-byte tag.
pub record Cipher : Type 0 where
  pub sha256 : Text → List ℕ
  -- key, initialisation vector and plain text; the cipher text and the tag.
  pub encrypt : List ℕ → List ℕ → List ℕ → List ℕ × List ℕ
  -- key, initialisation vector, tag and cipher text; `none`: the tag does not fit.
  pub decrypt : List ℕ → List ℕ → List ℕ → List ℕ → Option (List ℕ)
  pub decrypt-encrypt :
      (key iv plain : List ℕ)
      → All IsByte plain
      → decrypt key iv (encrypt key iv plain).1 (encrypt key iv plain).0 ≡ some plain
  pub length-ciphertext : (key iv plain : List ℕ) → length (encrypt key iv plain).0 ≡ length plain
  pub length-tag : (key iv plain : List ℕ) → length (encrypt key iv plain).1 ≡ 16
  pub ciphertext-IsByte : (key iv plain : List ℕ) → All IsByte (encrypt key iv plain).0
  pub tag-IsByte : (key iv plain : List ℕ) → All IsByte (encrypt key iv plain).1

-- A point of time in milliseconds: since 1970, or that many before it.
pub data Instant : Type 0 where
  since_epoch before_epoch : ℕ → Instant

-- `Math.abs(now - t)`
unfoldable pub distance : ℕ → Instant → ℕ
distance now (since_epoch t) = (now - t) + (t - now)
distance now (before_epoch t) = now + t

-- `Date` of ECMAScript.
pub record Dates : Type 0 where
  -- `Date.parse`; `none` for NaN.
  pub parse : Text → Option Instant
  pub parse-nil : parse [] ≡ none
  pub to_iso_string : ℕ → Text

-- What `irys.upload` answers: the id of the transaction, or the message of an error.
pub data Receipt : Type 0 where
  receipt failed : Text → Receipt

-- @irys/sdk with a key of the server: the data and the tags that are uploaded.
pub record Irys : Type 0 where
  -- The message of an error while the client is set up from the private key.
  pub setup_error : Text → Option Text
  pub upload : Text → List (Text × Text) → Receipt
