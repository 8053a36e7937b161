-- ===== src/Instruction/Layout.antt =====
-- A Borsh reader finds the arguments again.
use aurora_scholar.Prelude.{
  ℕ, ◌+◌, ◌*◌, ◌<◌, ◌≡◌, refl, ap, ◌∙◌, not, List, [], ◌∷◌, ◌++◌, length, take, drop, take-append,
  drop-append, arith, ◌==◌, nat_eq, if◌then◌else◌, eq_of_not_ne, Bool-cases, inl, inr,
}
use mathlib.Core.List.{append_assoc, append-nil}
use aurora_scholar.Text.{Text, utf8}
use aurora_scholar.Http.{ok}
use aurora_scholar.Instruction.{
  discriminator, u32le, concat_bytes, encode_string, PublishParams, build_publish_article_ix,
}

-- Borsh: a length in four bytes, the lowest first.
abbrev pub read_u32 : List ℕ → ℕ
read_u32 (a ∷ b ∷ c ∷ d ∷ rest) = a + 256 * b + 65536 * c + 16777216 * d
read_u32 _ = 0

-- A string, and what is behind it.
abbrev pub read_string : List ℕ → List ℕ × List ℕ
read_string bytes = let n = read_u32 bytes in (take n (drop 4 bytes), drop n (drop 4 bytes))

read_u32_lem : (n : ℕ) (rest : List ℕ) → n < 4294967296 → read_u32 (u32le n ++ rest) ≡ n
unfolding u32le
read_u32_lem n rest h = omega arith

drop-u32le : (n : ℕ) (rest : List ℕ) → drop 4 (u32le n ++ rest) ≡ rest
unfolding u32le
drop-u32le n rest = refl

encode_string_lem :
    (s : Text) (rest : List ℕ)
    → encode_string s ++ rest ≡ u32le (length (utf8 s)) ++ (utf8 s ++ rest)
unfolding encode_string concat_bytes
encode_string_lem s rest =
    rw (append-nil (utf8 s)) (append_assoc (u32le (length (utf8 s))) (utf8 s) rest)

read_string_lem :
    (s : Text) (rest : List ℕ)
    → length (utf8 s) < 4294967296
    → read_string (encode_string s ++ rest) ≡ (utf8 s, rest)
read_string_lem s rest h = rw (
  encode_string_lem s rest,
  read_u32_lem (length (utf8 s)) (utf8 s ++ rest) h,
  drop-u32le (length (utf8 s)) (utf8 s ++ rest),
  take-append (utf8 s) rest,
  drop-append (utf8 s) rest,
)

-- What a reader of the layout finds: the two hashes, the three strings as UTF-8, and the flag.
pub record IsLaidOut (p : PublishParams) (bytes : List ℕ) : Type 0 where
  pub head : take 8 bytes ≡ discriminator
  pub content_hash : take 32 (drop 8 bytes) ≡ p.content_hash
  pub intuition_hash : take 32 (drop 32 (drop 8 bytes)) ≡ p.intuition_hash
  pub rest : List ℕ
  pub behind_hashes : drop 32 (drop 32 (drop 8 bytes)) ≡ rest
  pub arweave_id : (read_string rest).0 ≡ utf8 p.arweave_id
  pub title : (read_string (read_string rest).1).0 ≡ utf8 p.title
  pub ai_scope : (read_string (read_string (read_string rest).1).1).0 ≡ utf8 p.ai_scope
  pub is_public :
      (read_string (read_string (read_string rest).1).1).1 ≡ (if p.is_public then 1 else 0) ∷ []

take_32 : (hash rest : List ℕ) → length hash ≡ 32 → take 32 (hash ++ rest) ≡ hash
take_32 hash rest h = rw (← h) (take-append hash rest)

drop_32 : (hash rest : List ℕ) → length hash ≡ 32 → drop 32 (hash ++ rest) ≡ rest
drop_32 hash rest h = rw (← h) (drop-append hash rest)

module _ (p : PublishParams) where
  abbrev flag_bytes : List ℕ
  flag_bytes = (if p.is_public then 1 else 0) ∷ []

  abbrev strings : List ℕ
  strings =
      encode_string p.arweave_id
      ++ (encode_string p.title ++ (encode_string p.ai_scope ++ flag_bytes))

  -- If the instruction is built, and no string reaches 2 ^ 32 bytes, then a Borsh reader finds the
  -- discriminator, both hashes, the three strings and the flag again, and nothing behind them.
  pub build_publish_article_ix_lem :
      (bytes : List ℕ)
      → build_publish_article_ix p ≡ ok bytes
      → length (utf8 p.arweave_id) < 4294967296
      → length (utf8 p.title) < 4294967296
      → length (utf8 p.ai_scope) < 4294967296
      → IsLaidOut p bytes
  unfolding build_publish_article_ix concat_bytes
  build_publish_article_ix_lem bytes e ha ht hs =
      elim (Bool-cases (not (length p.content_hash == 32))) [
        | inl wrong ↦ cc (rw wrong at e)
        | inr content ↦ elim (Bool-cases (not (length p.intuition_hash == 32))) [
          | inl wrong ↦ cc (rw (content, wrong) at e)
          | inr intuition ↦
              let h1 = eq_of_not_ne (length p.content_hash) 32 content in
              let h2 = eq_of_not_ne (length p.intuition_hash) 32 intuition in
              let same : discriminator ++ (p.content_hash ++ (p.intuition_hash ++ strings))
                  ≡ bytes =
                cc (rw (content, intuition) at e) in
              let first =
                read_string_lem p.arweave_id
                  (encode_string p.title ++ (encode_string p.ai_scope ++ flag_bytes)) ha in
              let second = read_string_lem p.title (encode_string p.ai_scope ++ flag_bytes) ht in
              let third = read_string_lem p.ai_scope flag_bytes hs in
              let tail1 = ap (λ x. x.1) first in
              let tail2 = ap (λ x. (read_string x).1) tail1 ∙ ap (λ x. x.1) second in
              rw (← same) (record {
                head = refl;
                content_hash = take_32 p.content_hash (p.intuition_hash ++ strings) h1;
                intuition_hash =
                    rw (drop_32 p.content_hash (p.intuition_hash ++ strings) h1)
                      (take_32 p.intuition_hash strings h2);
                rest = strings;
                behind_hashes =
                    rw (drop_32 p.content_hash (p.intuition_hash ++ strings) h1)
                      (drop_32 p.intuition_hash strings h2);
                arweave_id = ap (λ x. x.0) first;
                title = ap (λ x. (read_string x).0) tail1 ∙ ap (λ x. x.0) second;
                ai_scope = ap (λ x. (read_string x).0) tail2 ∙ ap (λ x. x.0) third;
                is_public = ap (λ x. (read_string x).1) tail2 ∙ ap (λ x. x.1) third;
              })
        ]
      ]
