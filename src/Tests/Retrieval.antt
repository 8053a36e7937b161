-- ===== src/Tests/Retrieval.antt =====
-- An article that is retrieved from a gateway and verified.
use aurora_scholar.Prelude.{
  ℕ, zero, suc, ◌≡◌, ◌↔◌, refl, true, none, some, List, [], ◌∷◌, ◌++◌, length, In, list_beq,
}
use aurora_scholar.Text.{Text, units}
use aurora_scholar.Http.{ok, err, ◌>>=◌}
use aurora_scholar.Canonical.{Value, bool, obj, Fields, end, field}
use aurora_scholar.Canonical.Messages.{text_field}
use aurora_scholar.Chain.{ArticleData, FetchedAccount, account, get_article}
use aurora_scholar.Publish.{sha256_hex, hex_text}
use aurora_scholar.Gateways.{
  Json, Fetched, again, json, refused, read_response, gateways, try_gateway, try_gateways,
  get_content, not_found,
}
use aurora_scholar.Gateways.Requests.{
  first_outcome, attempt, IsRetried, attempts, IsSource, get_content_lem, get_content_sound,
}
use aurora_scholar.Verification.{
  Report, Claimed, text_of, boolean_of, field_at, optional_member, text_member, answered,
  verify_article,
}
use aurora_scholar.Verification.Verified.{IsReported, verify_article_sound}
use aurora_scholar.Tests.World.{wallets, cipher}

abbrev pub parser : Json
parser = record { parse = λ t. none }

abbrev members_before : Text → Fields
members_before intuition = text_field "content" (units "C") (
    text_field "title" (units "T") (
      text_field "declaredIntuition" intuition
        (text_field "author" (units "A") (field (units "isPublic") (bool true) end))))

abbrev stored : Value
stored = obj (members_before (units "D"))

-- The first request is answered 404, the second with the article.
abbrev network : Value → ℕ → Text → Fetched
network v zero url = refused 404 (units "Not Found")
network v (suc n) url = json v

get_content_lem_example :
    (get_content parser (network stored) none (units "tx")
      ≡ first_outcome
          (attempts parser (network stored) (units "tx") (gateways none) 0)
          (err (not_found (units "tx"))))
    × (length (attempts parser (network stored) (units "tx") (gateways none) 0) ≡ 12)
    × ((g : Text) (n : ℕ)
        → (attempt parser (network stored) (units "tx") g n ≡ again)
          ↔ IsRetried parser
              (network stored)
              (units "tx")
              (network stored n (g ++ 47 ∷ units "tx")))
get_content_lem_example = get_content_lem parser (network stored) (units "tx") none

retrieval_run : (v : Value) → get_content parser (network v) none (units "tx") ≡ ok v
unfolding get_content gateways try_gateways try_gateway read_response
retrieval_run v = refl

get_content_sound_example :
    (k : ℕ) × (g : Text) × In g (gateways none)
    × IsSource parser (network stored) (units "tx") (network stored k (g ++ 47 ∷ units "tx")) stored
get_content_sound_example =
    get_content_sound parser (network stored) (units "tx") none stored (retrieval_run stored)

abbrev entry : ArticleData
entry = record {
  author = units "A";
  content_hash = 67 ∷ [];
  intuition_hash = 68 ∷ [];
  arweave_id = units "tx";
  title = units "T";
  ai_scope = [];
  is_public = true;
  timestamp = 5;
  bump = 255;
}

abbrev pub on_chain : Text → List ℕ → FetchedAccount
on_chain key hash = account entry

abbrev claimed : Claimed
claimed = record {
  content_hash = units "43";
  intuition_hash = units "44";
  arweave_id = units "tx";
  title = units "T";
  ai_scope = [];
  is_public = true;
}

abbrev pub report : Report
report = record {
  verified = true;
  message = units "Verificado: conteúdo do Arweave bate com o registro on-chain.";
  arweave_id = units "tx";
  author = units "A";
  ai_scope = [];
  content_hash = units "43";
  intuition_hash = units "44";
  arweave_content_hash = none;
  arweave_intuition_hash = none;
  content_hash_matches = none;
  intuition_hash_matches = none;
  on_chain = some (
    entry,
    record {
      content_hash = true;
      intuition_hash = true;
      arweave_id = true;
      title = true;
      ai_scope = true;
      is_public = true;
    },
  );
}

verification_run :
    verify_article wallets cipher parser (network stored) on_chain none none (units "tx") tt
    ≡ (ok report, tt)
unfolding verify_article answered get_article get_content gateways try_gateways try_gateway
    read_response optional_member text_member boolean_of text_of field_at sha256_hex hex_text ◌>>=◌
    list_beq
verification_run = refl

verify_article_sound_example :
    IsReported wallets cipher parser (network stored) on_chain none none (units "tx") report
verify_article_sound_example =
    verify_article_sound wallets cipher parser (network stored) on_chain none none (units "tx") tt
      tt report verification_run
