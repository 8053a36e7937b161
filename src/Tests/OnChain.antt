-- ===== src/Tests/OnChain.antt =====
-- A publication on the chain.
use aurora_scholar.Prelude.{
  ◌≡◌, ◌≢◌, ◌++◌, refl, [], none, true, Option, ◌==◌, list_eq, nat_eq, list_beq,
}
use aurora_scholar.Text.{Text, units, utf8}
use aurora_scholar.JsMap.{get}
use aurora_scholar.Http.{ok, plain_error, recover, ◌>>=◌}
use aurora_scholar.Chain.Program.{Runtime, Accounts, publish_instruction}
use aurora_scholar.Chain.Service.{
  PublishArticleParams, publish_article, rpc, publish_args, verify_hashes, derive_article_pda,
  hash_content,
}
use aurora_scholar.Chain.Recorded.{publish-then-verify}
use aurora_scholar.Tests.World.{cipher}

abbrev runtime : Runtime
runtime = record {
  find_address = λ author hash. (author ++ hash, 255);
  unix_timestamp = 9;
  signature = units "sig";
  thrown = λ e. plain_error "program";
  in_use = λ address. plain_error "in use";
  wrong_seeds = plain_error "seeds";
  not_initialized = λ address. plain_error "missing";
  missing_signature = plain_error "unsigned";
  no_account = λ address. units "Account does not exist";
}

abbrev params : PublishArticleParams
params = record {
  author = units "ana";
  content = units "text";
  declared_intuition = units "why";
  arweave_id = units "tx";
  title = units "Title";
  ai_scope = [];
  is_public = true;
  signer = units "ana";
}

abbrev published : Accounts
published = (publish_article runtime cipher none params []).1

published_test : publish_article runtime cipher none params [] ≡ (ok (units "sig"), published)
unfolding publish_article ◌>>=◌ recover rpc list_beq publish_instruction derive_article_pda
    publish_args hash_content get utf8
published_test = refl

publish-then-verify_example :
    ((declared : Text)
      → verify_hashes runtime cipher none (units "ana") (units "text") declared published
        ≡ (ok (cipher.sha256 declared == cipher.sha256 (units "why")), published))
    × ((other : Text)
        → other
          ≢ derive_article_pda runtime cipher
              (units "ana")
              (hash_content runtime cipher (units "text"))
        → get other published ≡ get other [])
    × ((net' : Option Text) (q : PublishArticleParams) (signature' : Text) (s'' : Accounts)
        → q.author ≡ units "ana"
        → q.content ≡ units "text"
        → ¬ (publish_article runtime cipher net' q published ≡ (ok signature', s'')))
publish-then-verify_example =
    publish-then-verify runtime cipher none params (units "sig") [] published published_test
