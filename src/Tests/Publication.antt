-- ===== src/Tests/Publication.antt =====
-- A private publication from the author's signature to its reader, and the public journal.
use aurora_scholar.Prelude.{◌≡◌, refl, false, none, some, [], ◌∷◌, ◌++◌, arith, list_beq}
use aurora_scholar.Text.{Text, units}
use aurora_scholar.Http.{ok, ◌>>=◌}
use aurora_scholar.JsMap
use aurora_scholar.External.{distance}
use aurora_scholar.Auth.{Challenge}
use aurora_scholar.Database.{Article, ArticleSecret, Tables}
use aurora_scholar.Guard.{signed_in}
use aurora_scholar.Expiration.{calculate_expiration, is_expired}
use aurora_scholar.Secrets.{encrypt_article_key, get_secret_key}
use aurora_scholar.Storage.{upload_article, get_irys, get_arweave_url, get_gateway_url}
use aurora_scholar.Publish.{
  PublishBody, EncryptedPayload, Published, Server, Moment, prepare_publish, stored_ciphertext,
  new_article, hex_text, sha256_hex, sealed, verify_signature, require_sealed, store_key,
}
use aurora_scholar.Publish.Signed.{IsPrepared, payload_of, prepare_publish_sound}
use aurora_scholar.Publish.Sharing.{publish_then_claim}
use aurora_scholar.Grants.{create_grant, check_grant}
use aurora_scholar.Keys.{challenge_key, State, set_challenges, key_challenge, key_claim}
use aurora_scholar.Keys.Claims.{IsSignedClaim}
use aurora_scholar.Tests.World.{
  copies, prisma, wallets, cipher, dates, irys, no_rows, copies-IsByte,
}
use aurora_scholar.Tests.Access.{author, reader, article_id, secret_row, grant, grant_body}

abbrev pub env : Server prisma
env = record {
  wallets = wallets;
  cipher = cipher;
  dates = dates;
  irys = irys;
  private_key = some (units "k");
  gateway_variable = none;
  secret_variable = some (units "s");
}

abbrev pub sealed_text : EncryptedPayload
sealed_text = record {
  iv_b64 = some (units "i");
  ciphertext_b64 = some (units "x");
  alg = none;
  v = some 1;
}

abbrev pub article_key : Text
article_key = copies 32 7

abbrev pub body : PublishBody
body = record {
  title = some (units "T");
  content = some (units "C");
  declared_intuition = some (units "D");
  ai_scope = none;
  is_public = none;
  author = some author;
  signature = some (copies 64 65);
  signed_payload = some (some (1000 ∷ []));
  article_key = some article_key;
  encrypted_payload = some sealed_text;
}

abbrev pub moment : Moment
moment = record {
  row_id = article_id;
  secret_id = units "s1";
  iv = copies 12 0;
  now = 1001;
  uploaded_at = 1002;
  published_at = 1003;
}

abbrev pub out : Published
out = record {
  article_id = article_id;
  arweave_id = units "tx";
  arweave_url = units "https://arweave.net/tx";
  content_hash = units "43";
  intuition_hash = units "44";
  title = units "T";
  ai_scope = [];
  is_public = false;
  author = author;
}

abbrev row : Article
row =
    new_article (payload_of prisma env out (1000 ∷ [])) (stored_ciphertext sealed_text) (units "tx")
      article_id 1003

abbrev stored_secret : ArticleSecret
stored_secret = record secret_row { encrypted_key = copies 12 0 ++ (copies 16 0 ++ copies 32 7) }

abbrev after_publication : Tables prisma
after_publication = record no_rows {
  articles = (units "tx", row) ∷ [];
  secrets = (article_id, stored_secret) ∷ [];
}

publish_run : prepare_publish prisma env body moment no_rows ≡ (ok out, after_publication)
unfolding prepare_publish verify_signature require_sealed sealed store_key upload_article get_irys
    get_arweave_url get_gateway_url sha256_hex hex_text distance encrypt_article_key get_secret_key
    ◌>>=◌ list_beq
publish_run = refl

prepare_publish_sound_example : IsPrepared prisma env body moment no_rows after_publication out
prepare_publish_sound_example =
    prepare_publish_sound prisma env body moment no_rows after_publication out publish_run

abbrev shared : Tables prisma
shared = record after_publication { grants = ((article_id, reader), grant) ∷ [] }

share_run :
    create_grant prisma (signed_in author) grant_body (units "g1") 10 after_publication
    ≡ (ok grant, shared)
unfolding create_grant ◌>>=◌ calculate_expiration list_beq
share_run = refl

abbrev challenge : Challenge
challenge = record { nonce = units "n"; expires_at = 300012 }

abbrev asking : State prisma
asking = record { tables = shared; challenges = [] }

abbrev waiting : State prisma
waiting = record { tables = shared; challenges = (units "a1:R", challenge) ∷ [] }

challenge_run :
    key_challenge prisma (signed_in reader) (some article_id) (units "n") 11 12 asking
    ≡ (ok challenge, waiting)
unfolding key_challenge check_grant challenge_key JsMap.set ◌>>=◌ list_beq
challenge_run = refl

signs : IsSignedClaim prisma wallets reader article_id (units "n") (copies 64 82)
unfolding list_beq
signs = record { key = reader; parsed = refl; length_64 = refl; verified = refl }

not_yet : is_expired (calculate_expiration (units "24h") 10) 20 ≡ false
unfolding calculate_expiration list_beq
not_yet = refl

publish_then_claim_example :
    key_claim prisma wallets cipher
      (some (units "s"))
      (signed_in reader)
      (record {
        article_id = some article_id;
        nonce = some (units "n");
        signature = some (copies 64 82);
      })
      19
      20
      waiting
    ≡ (
      ok article_key,
      set_challenges prisma waiting
          (JsMap.delete (challenge_key article_id reader) waiting.challenges),
    )
publish_then_claim_example =
    publish_then_claim prisma env body moment no_rows after_publication asking waiting out
      (signed_in author) (signed_in reader) article_key reader (units "24h") (units "g1")
      (units "n") (copies 64 82) 10 11 12 19 20 grant challenge publish_run refl refl refl
      (copies-IsByte 12) share_run challenge_run refl (λ e. cc) (λ e. cc) (omega arith) signs
      not_yet
