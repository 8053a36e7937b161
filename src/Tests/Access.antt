-- ===== src/Tests/Access.antt =====
-- Durations, access tokens, grants and the readers they make.
use aurora_scholar.Prelude.{
  ◌≡◌, ◌≢◌, ◌↔◌, refl, false, none, some, [], ◌∷◌, ◌++◌, list_beq, if◌then◌else◌,
}
use aurora_scholar.Text.{Text, units}
use aurora_scholar.Http.{ok, err, create_error, ◌>>=◌}
use aurora_scholar.Database.{Article, AccessToken, AccessGrant, ArticleSecret, published, Tables}
use aurora_scholar.Guard.{signed_in}
use aurora_scholar.Expiration.{calculate_expiration, is_expired}
use aurora_scholar.Expiration.Agreement.{calculate_expiration-eq-none_iff, IsFinite}
use aurora_scholar.Tokens.{TokenBody, Generated, generate_token, revoke_token, validate_token}
use aurora_scholar.Tokens.Validity.{generate_then_validate}
use aurora_scholar.Grants.{GrantBody, create_grant, check_grant, revoke_grant}
use aurora_scholar.Grants.Revocation.{
  IsActive, IsCreated, create_grant_sound, revoke_then_check, grant_at,
}
use aurora_scholar.Reading.{info_of, get_article_by_id}
use aurora_scholar.Reading.Readers.{IsReader, get_article_by_id_iff}
use aurora_scholar.Tests.World.{copies, prisma}

abbrev pub author : Text
author = units "A"

abbrev pub reader : Text
reader = units "R"

abbrev pub article_id : Text
article_id = units "a1"

-- A private article of the author.
abbrev pub article : Article
article = record {
  id = article_id;
  title = units "T";
  content = units "C";
  content_hash = units "00";
  author_wallet = author;
  arweave_id = some (units "tx0");
  is_public = false;
  status = published;
  created_at = 1;
  published_at = some 1;
}

abbrev pub secret_row : ArticleSecret
secret_row = record {
  id = units "s1";
  article_id = article_id;
  encrypted_key = copies 12 1 ++ (copies 16 0 ++ copies 32 7);
}

abbrev pub before_grant : Tables prisma
before_grant = record {
  articles = (units "tx0", article) ∷ [];
  tokens = [];
  grants = [];
  secrets = (article_id, secret_row) ∷ [];
}

abbrev pub grant : AccessGrant
grant = record {
  id = units "g1";
  article_id = article_id;
  owner_wallet = author;
  viewer_wallet = reader;
  expires_at = some 86400010;
  revoked_at = none;
  created_at = 10;
}

abbrev pub granted : Tables prisma
granted = record before_grant { grants = ((article_id, reader), grant) ∷ [] }

abbrev pub grant_body : GrantBody
grant_body = record {
  article_id = some article_id;
  viewer_wallet = some reader;
  expires_in = some (units "24h");
}

pub grant_run :
    create_grant prisma (signed_in author) grant_body (units "g1") 10 before_grant
    ≡ (ok grant, granted)
unfolding create_grant ◌>>=◌ calculate_expiration list_beq
grant_run = refl

create_grant_sound_example :
    IsCreated prisma
      (signed_in author)
      article_id
      reader
      (units "24h")
      10
      before_grant
      granted
      grant
create_grant_sound_example =
    create_grant_sound prisma (signed_in author) article_id reader (units "24h") (units "g1") 10
      before_grant granted grant grant_run

abbrev pub revoked_grant : AccessGrant
revoked_grant = record grant { revoked_at = some 30 }

abbrev pub revoked : Tables prisma
revoked = record before_grant { grants = ((article_id, reader), revoked_grant) ∷ [] }

pub revoke_run :
    revoke_grant prisma (signed_in author) grant_body 30 granted ≡ (ok revoked_grant, revoked)
unfolding revoke_grant ◌>>=◌ list_beq
revoke_run = refl

revoke_then_check_example :
    check_grant (grant_at prisma revoked article_id reader) 40 revoked
    ≡ (err (create_error "Access revoked" 403), revoked)
revoke_then_check_example =
    revoke_then_check prisma (signed_in author) article_id reader (some (units "24h")) 30 40 granted
      revoked revoked_grant revoked revoke_run

pub reads : IsActive (some grant) 20
unfolding list_beq
reads = record { grant = grant; row = refl; not_revoked = refl; not_expired = refl }

article_found : prisma.articles.find_by_id granted.articles article_id ≡ some article
unfolding list_beq
article_found = refl

get_article_by_id_iff_example :
    (get_article_by_id prisma (signed_in reader) article_id 20 granted
      ≡ (ok (info_of article), granted))
    ↔ IsReader prisma granted article article_id reader 20
get_article_by_id_iff_example =
    get_article_by_id_iff prisma (signed_in reader) article_id reader 20 granted article refl
      article_found

-- An access token.
abbrev token_body : TokenBody
token_body = record { article_id = some article_id; expires_in = some (units "24h") }

abbrev token_row : AccessToken
token_row = record {
  id = units "t1";
  article_id = article_id;
  token = units "k";
  expires_at = some 86400010;
  created_at = 10;
}

abbrev generated : Generated
generated = record {
  token = units "k";
  expires_at = some 86400010;
  link = units "http://localhost:3000/article/a1?token=k";
}

token_run :
    generate_token prisma token_body (units "k") (units "t1") 10 []
    ≡ (ok generated, (units "k", token_row) ∷ [])
unfolding generate_token ◌>>=◌ calculate_expiration list_beq
token_run = refl

generate_then_validate_example :
    (validate_token prisma (some (units "k")) 20 ((units "k", token_row) ∷ []) ≡ (
      (if is_expired (calculate_expiration (units "24h") 10) 20
          then err (create_error "Token has expired" 403)
          else ok article_id),
      (units "k", token_row) ∷ [],
    ))
    × ((j : Text)
        → j ≢ []
        → units "k" ≢ j
        → (validate_token prisma (some j) 20 ((units "k", token_row) ∷ [])).0
          ≡ (validate_token prisma (some j) 20 []).0)
generate_then_validate_example =
    generate_then_validate prisma token_body (units "k") (units "t1") article_id (units "24h") 10 20
      [] ((units "k", token_row) ∷ []) generated token_run (λ e. cc) refl refl

abbrev ended_row : AccessToken
ended_row = record token_row { expires_at = some 30 }

ended_run :
    revoke_token prisma (some article_id) 30 ((units "k", token_row) ∷ [])
    ≡ (ok tt, (units "k", ended_row) ∷ [])
unfolding revoke_token ◌>>=◌ list_beq
ended_run = refl

token_found : prisma.tokens.find_unique ((units "k", token_row) ∷ []) (units "k") ≡ some token_row
unfolding list_beq
token_found = refl

-- A duration that no client offers.
calculate_expiration-eq-none_iff_example :
    (calculate_expiration (units "1h") 10 ≡ none) ↔ (¬ IsFinite (units "1h"))
calculate_expiration-eq-none_iff_example = calculate_expiration-eq-none_iff (units "1h") 10
