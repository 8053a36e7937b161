-- ===== src/Tests/Journal.antt =====
-- Canonical texts and the public journal.
use mathlib.Core.List.{Nodup, Perm, Permᴰ, Nodup-cons, Nodup-nil, mem-singleton, not-mem-nil}
use aurora_scholar.Prelude.{
  ℕ, ap, arith, ◌≤◌, ◌≡◌, ◌≢◌, refl, true, false, none, some, List, [], ◌∷◌, ◌++◌, map, length, min,
  In, select, ◌⊎◌,
}
use aurora_scholar.Text.{Text, units, utf8}
use aurora_scholar.Canonical.{str, obj, Fields, end, field, members, stable_stringify}
use aurora_scholar.Canonical.KeyOrder.{keys, stable_stringify-perm}
use aurora_scholar.Canonical.Messages.{
  auth_message, access_key_message, publish_message, Payload, publish_message_injective,
  messages_separate,
}
use aurora_scholar.Http.{ok}
use aurora_scholar.Instruction.{
  PublishParams, discriminator, u32le, concat_bytes, encode_string, build_publish_article_ix,
}
use aurora_scholar.Instruction.Layout.{IsLaidOut, build_publish_article_ix_lem}
use aurora_scholar.Tests.World.{copies}
use aurora_scholar.Chain.{ArticleData, get_public_articles}
use aurora_scholar.Chain.Newest.{IsNewestFirst, IsNoNewer, get_public_articles_lem}
use aurora_scholar.Catalogue.{get_articles, page_size, by_author, item_of}
use aurora_scholar.Catalogue.Pages.{gathered, get_articles-pages}

abbrev wallet : Text
wallet = units "A"

abbrev payload : Payload
payload = record {
  author = wallet;
  title = units "T";
  content_hash = units "43";
  intuition_hash = units "44";
  ai_scope = [];
  is_public = true;
  created_at = units "2025-01-01T00:00:00.000Z";
}

publish_message_injective_example : payload ≡ payload
publish_message_injective_example = publish_message_injective payload payload refl

messages_separate_example :
    (stable_stringify (auth_message wallet (units "n"))
      ≢ stable_stringify (access_key_message wallet (units "a1") (units "n")))
    × (stable_stringify (auth_message wallet (units "n"))
        ≢ stable_stringify (publish_message payload))
    × (stable_stringify (access_key_message wallet (units "a1") (units "n"))
        ≢ stable_stringify (publish_message payload))
messages_separate_example =
    messages_separate wallet (units "n") wallet (units "a1") (units "n") payload

abbrev entry : ArticleData
entry = record {
  author = wallet;
  content_hash = 1 ∷ [];
  intuition_hash = 2 ∷ [];
  arweave_id = units "tx";
  title = units "T";
  ai_scope = [];
  is_public = true;
  timestamp = 5;
  bump = 255;
}

abbrev accounts : List ArticleData
accounts = entry ∷ record entry { timestamp = 9 } ∷ record entry { is_public = false } ∷ []

get_public_articles_lem_example :
    IsNewestFirst (get_public_articles accounts 0)
    × (length (get_public_articles accounts 0)
        ≡ min 100 (length (select (λ a. a.is_public) accounts)))
    × ((a : ArticleData)
        → In a (get_public_articles accounts 0)
        → In a accounts × (a.is_public ≡ true))
    × ((a : ArticleData)
        → In a accounts
        → a.is_public ≡ true
        → In a (get_public_articles accounts 0) ⊎ IsNoNewer a (get_public_articles accounts 0))
get_public_articles_lem_example = get_public_articles_lem accounts 0

get_articles-pages_example :
    (gathered accounts (some 1) none (get_articles accounts none (some 1) none).total_pages
      ≡ map item_of (by_author none (get_public_articles accounts 500)))
    × ((get_articles accounts none (some 1) none).total
        ≡ length (
            gathered accounts (some 1) none (get_articles accounts none (some 1) none).total_pages))
    × (length (get_articles accounts none (some 1) none).items ≤ page_size (some 1))
get_articles-pages_example = get_articles-pages accounts none (some 1) none

abbrev given_order : Fields
given_order = field (units "b") (str wallet) (field (units "a") (str (units "n")) end)

abbrev other_order : Fields
other_order = field (units "a") (str (units "n")) (field (units "b") (str wallet) end)

abbrev head_unit : Text → ℕ
head_unit [] = 0
head_unit (u ∷ t) = u

Text-set : IsSet Text
Text-set = hlevel

keys-Nodup : Nodup (keys (members given_order))
keys-Nodup = Nodup-cons.1 (
  (λ m.
      let e : units "b" ≡ units "a" = (mem-singleton Text-set).0 m in
      let first : 98 ≡ 97 = ap head_unit e in omega arith),
  Nodup-cons.1 (not-mem-nil, Nodup-nil),
)

swapped : Perm (members given_order) (members other_order)
swapped = ∣ Permᴰ.swap refl refl ∣₁

stable_stringify-perm_example :
    stable_stringify (obj given_order) ≡ stable_stringify (obj other_order)
stable_stringify-perm_example = stable_stringify-perm given_order other_order keys-Nodup swapped

abbrev params : PublishParams
params = record {
  content_hash = copies 32 1;
  intuition_hash = copies 32 2;
  arweave_id = units "tx";
  title = units "Té";
  ai_scope = [];
  is_public = true;
}

abbrev instruction : List ℕ
instruction =
    discriminator
    ++ (copies 32 1
        ++ (copies 32 2
            ++ (2 ∷ 0 ∷ 0 ∷ 0 ∷ 116 ∷ 120 ∷ 3 ∷ 0 ∷ 0 ∷ 0 ∷ 84 ∷ 195 ∷ 169 ∷ 0 ∷ 0 ∷ 0 ∷ 0 ∷ 1
                ∷ [])))

instruction_run : build_publish_article_ix params ≡ ok instruction
unfolding build_publish_article_ix concat_bytes encode_string u32le utf8
instruction_run = refl

build_publish_article_ix_lem_example : IsLaidOut params instruction
unfolding utf8
build_publish_article_ix_lem_example =
    build_publish_article_ix_lem params instruction instruction_run (omega arith) (omega arith)
      (omega arith)
