-- ===== src/Tests/Hidden.antt =====
-- A private article that is published, and then asked to be verified. The identifier that Arweave gives
-- is the uploaded text itself.
use aurora_scholar.Prelude.{◌≡◌, ◌≢◌, ◌++◌, refl, ℕ, none, some, [], ◌∷◌, list_beq}
use aurora_scholar.Text.{Text, units}
use aurora_scholar.Http.{ok, ◌>>=◌}
use aurora_scholar.External.{Irys, receipt, distance}
use aurora_scholar.Canonical.{obj}
use aurora_scholar.Database.{Tables}
use aurora_scholar.Secrets.{encrypt_article_key, get_secret_key}
use aurora_scholar.Storage.{
  Upload, article_fields, article_data, upload_article, get_irys, get_arweave_url, get_gateway_url,
}
use aurora_scholar.Publish.{
  Published, Server, prepare_publish, upload_of, sha256_hex, hex_text, sealed, verify_signature,
  require_sealed, store_key,
}
use aurora_scholar.Publish.Signed.{payload_of}
use aurora_scholar.Gateways.{
  Fetched, json, gateways, try_gateway, try_gateways, read_response, get_content,
}
use aurora_scholar.Verification.{verify_article}
use aurora_scholar.Verification.Unverifiable.{published_private_no_report}
use aurora_scholar.Tests.World.{wallets, cipher, prisma, no_rows}
use aurora_scholar.Tests.Publication.{env, body, moment, out, sealed_text, article_key}
use aurora_scholar.Tests.Retrieval.{parser, on_chain, report}

abbrev archive : Irys
archive = record { setup_error = λ key. none; upload = λ text tags. receipt text }

abbrev server : Server prisma
server = record env { irys = archive }

abbrev article : Upload
article =
    upload_of (payload_of prisma server out (1000 ∷ []))
      (some (record { article_key = article_key; payload = sealed_text })) (units "C") (units "D")

abbrev stored : Text
stored = article_data article (1002 ∷ [])

abbrev hidden_out : Published
hidden_out = record out {
  arweave_id = stored;
  arweave_url = units "https://arweave.net/" ++ stored;
}

abbrev after : Tables prisma
after = (prepare_publish prisma server body moment no_rows).1

hidden_run : prepare_publish prisma server body moment no_rows ≡ (ok hidden_out, after)
unfolding prepare_publish verify_signature require_sealed sealed store_key upload_article get_irys
    get_arweave_url get_gateway_url sha256_hex hex_text distance encrypt_article_key get_secret_key
    ◌>>=◌ list_beq
hidden_run = refl

abbrev gateway : ℕ → Text → Fetched
gateway n url = json (obj (article_fields article (1002 ∷ [])))

retrieved : get_content parser gateway none stored ≡ ok (obj (article_fields article (1002 ∷ [])))
unfolding get_content gateways try_gateways try_gateway read_response
retrieved = refl

published_private_no_report_example :
    verify_article wallets cipher parser gateway on_chain none none stored tt ≢ (ok report, tt)
published_private_no_report_example =
    published_private_no_report prisma server parser gateway on_chain none body moment no_rows after
      hidden_out article (1002 ∷ []) [] none stored tt tt report hidden_run refl
      (λ text other its others k h k'. cc) refl refl retrieved
