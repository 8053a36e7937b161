-- ===== src/Verification.antt =====
-- Verification of an article against the chain: verifyArticle of
-- apps/api/src/controllers/articles.controller.ts. What `prisma.article.findFirst` answers for the id
-- (`none` also where the database fails), and what the Solana program's account answers, are arguments.
pub mod Verified
pub mod Unverifiable
use aurora_scholar.Prelude.{
  ℕ, Bool, true, false, not, ◌&&◌, ◌||◌, Option, none, some, List, [], ◌∷◌, ◌==◌, nat_eq, list_eq,
  if◌then◌else◌, truthy, or_else,
}
use aurora_scholar.Text.{Text, units, join}
use aurora_scholar.Http.{
  Result, Handler, create_error, plain_error, pure, need, throw_if, ◌>>=◌, ◌>>◌,
}
use aurora_scholar.External.{Wallets, Cipher}
use aurora_scholar.Canonical.{
  Value, null, bool, num, str, arr, obj, Items, nil, cons, Fields, end, field, digits,
}
use aurora_scholar.Database.{Article}
use aurora_scholar.Chain.{ArticleData, FetchedAccount, get_article}
use aurora_scholar.Publish.{sha256_hex, hex_text}
use aurora_scholar.Gateways.{Json, Fetched, get_content}

-- `String(value)`
unfoldable mutual
  pub text_of : Value → Text
  text_of null = units "null"
  text_of (bool true) = units "true"
  text_of (bool false) = units "false"
  text_of (num n) = digits n
  text_of (str t) = t
  text_of (arr xs) = join (44 ∷ []) (item_texts xs)
  text_of (obj fs) = units "[object Object]"

  pub item_texts : Items → List Text
  item_texts nil = []
  item_texts (cons null xs) = [] ∷ item_texts xs
  item_texts (cons v xs) = text_of v ∷ item_texts xs

-- `Boolean(value)`
unfoldable pub boolean_of : Value → Bool
boolean_of null = false
boolean_of (bool b) = b
boolean_of (num n) = not (n == 0)
boolean_of (str []) = false
boolean_of (str (u ∷ t)) = true
boolean_of (arr xs) = true
boolean_of (obj fs) = true

-- The value of a key: the last one that was set.
unfoldable pub field_at : Text → Fields → Option Value
field_at k end = none
field_at k (field j v fs) = elim (field_at k fs) [
  | none ↦ if j == k then some v else none
  | some w ↦ some w
]

-- `value[key]`; an array has none of the keys that are asked for.
abbrev pub member : Text → Value → Option Value
member k (obj fs) = field_at k fs
member k _ = none

abbrev pub text_or : Option Value → Option Text
text_or none = none
text_or (some v) = if boolean_of v then some (text_of v) else none

-- `value[key] ? String(value[key]) : null`, and `String(value[key] || '')`.
unfoldable pub optional_member : Text → Value → Option Text
unfolding boolean_of
optional_member k v = text_or (member k v)

unfoldable pub text_member : Text → Value → Text
unfolding optional_member
text_member k v = or_else (optional_member k v) []

abbrev pub given_or : Option Text → Text → Text
given_or none default = default
given_or (some t) default = t

-- `a ?? b`
abbrev pub flag_or : Option Value → Bool → Bool
flag_or none default = default
flag_or (some null) default = default
flag_or (some v) default = boolean_of v

abbrev pub is_object : Value → Bool
is_object (arr xs) = true
is_object (obj fs) = true
is_object _ = false

abbrev pub arweave_id_of : Option Article → Text → Text
arweave_id_of none id = id
arweave_id_of (some a) id = or_else a.arweave_id id

abbrev pub author_of : Option Article → Text
author_of none = []
author_of (some a) = a.author_wallet

abbrev pub visibility_of : Option Article → Bool
visibility_of none = true
visibility_of (some a) = a.is_public

pub record Matches : Type 0 where
  pub content_hash : Bool
  pub intuition_hash : Bool
  pub arweave_id : Bool
  pub title : Bool
  pub ai_scope : Bool
  pub is_public : Bool

pub record Report : Type 0 where
  pub verified : Bool
  pub message : Text
  pub arweave_id : Text
  pub author : Text
  pub ai_scope : Text
  pub content_hash : Text
  pub intuition_hash : Text
  pub arweave_content_hash : Option Text
  pub arweave_intuition_hash : Option Text
  pub content_hash_matches : Option Bool
  pub intuition_hash_matches : Option Bool
  pub on_chain : Option (ArticleData × Matches)

-- What the stored data says of the article.
pub record Claimed : Type 0 where
  pub content_hash : Text
  pub intuition_hash : Text
  pub arweave_id : Text
  pub title : Text
  pub ai_scope : Text
  pub is_public : Bool

abbrev pub bool_eq : Bool → Bool → Bool
bool_eq true b = b
bool_eq false b = not b

abbrev pub matches : Claimed → ArticleData → Matches
matches c a = record {
  content_hash = hex_text a.content_hash == c.content_hash;
  intuition_hash = hex_text a.intuition_hash == c.intuition_hash;
  arweave_id = a.arweave_id == c.arweave_id;
  title = a.title == c.title;
  ai_scope = a.ai_scope == c.ai_scope;
  is_public = bool_eq a.is_public c.is_public;
}

-- The title and the scope do not count.
abbrev pub all_match : Matches → Bool
all_match m = m.content_hash && (m.intuition_hash && (m.arweave_id && m.is_public))

abbrev pub with_matches : Claimed → Option ArticleData → Option (ArticleData × Matches)
with_matches c none = none
with_matches c (some a) = some (a, matches c a)

abbrev pub is_verified : Option (ArticleData × Matches) → Bool
is_verified none = false
is_verified (some (a, m)) = all_match m

abbrev pub message_of : Option (ArticleData × Matches) → Text
message_of none =
    units
      "Não verificado: registro on-chain não encontrado (programa/cluster incorreto ou artigo não registrado)."
message_of (some (a, m)) =
    if all_match m
    then units "Verificado: conteúdo do Arweave bate com o registro on-chain."
    else units "Não verificado: divergência entre Arweave e on-chain."

-- `hash ? hash === calculated : null`
abbrev pub compared : Option Text → Text → Option Bool
compared none calculated = none
compared (some hash) calculated = some (hash == calculated)

-- A call that returns or throws.
unfoldable pub answered : {S A : Type 0} → Result A → Handler S A
answered r s = (r, s)

module _ (w : Wallets) (c : Cipher) (j : Json) (fetch : ℕ → Text → Fetched) where
  unfoldable pub verify_article :
      {S : Type 0} (on_chain : w.Key → List ℕ → FetchedAccount) (gateway_variable : Option Text)
      (db_article : Option Article) (id : Text)
      → Handler S Report
  verify_article on_chain gateway_variable db_article id = do
    let arweave_id = arweave_id_of db_article id
    ar ← answered (get_content j fetch gateway_variable arweave_id)
    throw_if (not (is_object ar)) (create_error "Invalid Arweave payload" 400)
    let title = text_member (units "title") ar
    let ai_scope = text_member (units "aiScope") ar
    let is_public = flag_or (member (units "isPublic") ar) (visibility_of db_article)
    author ←
        need (truthy (some (given_or (optional_member (units "author") ar) (author_of db_article))))
          (create_error "Missing author in Arweave payload" 400)
    content ←
        need (truthy (optional_member (units "content") ar))
          (create_error "Missing content in Arweave payload" 400)
    declared ←
        need (truthy (optional_member (units "declaredIntuition") ar))
          (create_error "Missing declaredIntuition in Arweave payload" 400)
    let claimed : Claimed = record {
      content_hash = sha256_hex c content;
      intuition_hash = sha256_hex c declared;
      arweave_id = arweave_id;
      title = title;
      ai_scope = ai_scope;
      is_public = is_public;
    }
    key ← need (w.public_key author) (plain_error "Invalid public key input")
    record_found ← answered (get_article (on_chain key (c.sha256 content)))
    let compared_with = with_matches claimed record_found
    let content_field = optional_member (units "contentHash") ar
    let intuition_field = optional_member (units "intuitionHash") ar
    pure (record {
      verified = is_verified compared_with;
      message = message_of compared_with;
      arweave_id = arweave_id;
      author = author;
      ai_scope = ai_scope;
      content_hash = claimed.content_hash;
      intuition_hash = claimed.intuition_hash;
      arweave_content_hash = content_field;
      arweave_intuition_hash = intuition_field;
      content_hash_matches = compared (truthy content_field) claimed.content_hash;
      intuition_hash_matches = compared (truthy intuition_field) claimed.intuition_hash;
      on_chain = compared_with;
    })
