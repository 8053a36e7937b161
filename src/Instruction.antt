-- ===== src/Instruction.antt =====
-- The transaction that the author's wallet signs: the bytes that `buildPublishArticleIx` of
-- apps/web/src/lib/solana/auroraProgram.ts lays out.
pub mod Layout
use aurora_scholar.Prelude.{
  ℕ, ◌+◌, ◌*◌, ◌/◌, ◌%◌, ◌^◌, Bool, true, false, not, List, [], ◌∷◌, ◌++◌, length, ◌==◌, nat_eq,
  if◌then◌else◌,
}
use aurora_scholar.Text.{Text, units, utf8}
use aurora_scholar.Http.{Result, ok, err, plain_error}

abbrev pub discriminator : List ℕ
discriminator = 151 ∷ 40 ∷ 172 ∷ 108 ∷ 86 ∷ 138 ∷ 159 ∷ 171 ∷ []

-- `n >>> 0` is the value modulo 2 ^ 32.
unfoldable pub u32le : ℕ → List ℕ
u32le n =
    let v = n % 4294967296 in
    v % 256 ∷ (v / 256) % 256 ∷ (v / 65536) % 256 ∷ (v / 16777216) % 256 ∷ []

unfoldable pub concat_bytes : List (List ℕ) → List ℕ
concat_bytes [] = []
concat_bytes (chunk ∷ chunks) = chunk ++ concat_bytes chunks

unfoldable pub encode_string : Text → List ℕ
encode_string s = let bytes = utf8 s in concat_bytes (u32le (length bytes) ∷ bytes ∷ [])

pub record PublishParams : Type 0 where
  pub content_hash : List ℕ
  pub intuition_hash : List ℕ
  pub arweave_id : Text
  pub title : Text
  pub ai_scope : Text
  pub is_public : Bool

-- The data of the instruction; its accounts are handed on as they are given.
unfoldable pub build_publish_article_ix : PublishParams → Result (List ℕ)
build_publish_article_ix p =
    if not (length p.content_hash == 32)
    then err (plain_error "contentHash must be 32 bytes")
    else if not (length p.intuition_hash == 32)
    then err (plain_error "intuitionHash must be 32 bytes")
    else ok (
        concat_bytes (
          discriminator
          ∷ p.content_hash
          ∷ p.intuition_hash
          ∷ encode_string p.arweave_id
          ∷ encode_string p.title
          ∷ encode_string p.ai_scope
          ∷ ((if p.is_public then 1 else 0) ∷ [])
          ∷ []))
