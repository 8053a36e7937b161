-- ===== src/Tests/Delivery.antt =====
-- The way of an article's key to its reader.
use aurora_scholar.Prelude.{
  ℕ, zero, suc, ◌≡◌, ◌≢◌, refl, Option, some, List, [], ◌∷◌, arith, list_beq, All,
}
use aurora_scholar.Text.{Text, units}
use aurora_scholar.Http.{ok, err, create_error, ◌>>=◌}
use aurora_scholar.JsMap
use aurora_scholar.External.{IsByte}
use aurora_scholar.Auth.{Challenge}
use aurora_scholar.Guard.{signed_in}
use aurora_scholar.Secrets.{encrypt_article_key, decrypt_article_key, get_secret_key}
use aurora_scholar.Secrets.RoundTrip.{decrypt-encrypt_article_key}
use aurora_scholar.Grants.{check_grant}
use aurora_scholar.Grants.Revocation.{IsActive}
use aurora_scholar.Keys.{challenge_key, ClaimBody, State, set_challenges, key_challenge, key_claim}
use aurora_scholar.Keys.Claims.{
  IsSignedClaim, IsClaimed, key_claim_sound, claim_once, revoked_no_key,
}
use aurora_scholar.Keys.Delivery.{challenge_then_claim}
use aurora_scholar.Tests.World.{copies, prisma, wallets, cipher}
use aurora_scholar.Tests.Access.{
  author, reader, article_id, secret_row, granted, reads, revoked, revoked_grant, revoke_run,
}

abbrev nonce : Text
nonce = units "n"

abbrev signature : Text
signature = copies 64 82

abbrev secret : Option Text
secret = some (units "s")

abbrev iv : List ℕ
iv = copies 12 1

abbrev key : List ℕ
key = copies 32 7

abbrev challenge : Challenge
challenge = record { nonce = nonce; expires_at = 300012 }

abbrev asking : State prisma
asking = record { tables = granted; challenges = [] }

abbrev waiting : State prisma
waiting = record { tables = granted; challenges = (units "a1:R", challenge) ∷ [] }

abbrev body : ClaimBody
body = record { article_id = some article_id; nonce = some nonce; signature = some signature }

abbrev served : State prisma
served =
    set_challenges prisma waiting
      (JsMap.delete (challenge_key article_id reader) waiting.challenges)

challenge_run :
    key_challenge prisma (signed_in reader) (some article_id) nonce 11 12 asking
    ≡ (ok challenge, waiting)
unfolding key_challenge check_grant challenge_key JsMap.set ◌>>=◌ list_beq
challenge_run = refl

signs : IsSignedClaim prisma wallets reader article_id nonce signature
unfolding list_beq
signs = record { key = reader; parsed = refl; length_64 = refl; verified = refl }

encrypt_run :
    encrypt_article_key wallets cipher secret iv key tt ≡ (ok secret_row.encrypted_key, tt)
unfolding encrypt_article_key get_secret_key ◌>>=◌
encrypt_run = refl

found : prisma.secrets.find_unique granted.secrets article_id ≡ some secret_row
unfolding list_beq
found = refl

All-bytes : (n : ℕ) (b : ℕ) → IsByte b → All IsByte (copies n b)
All-bytes zero b h = tt
All-bytes (suc n) b h = (h, All-bytes n b h)

iv-bytes : All IsByte iv
iv-bytes = All-bytes 12 1 (omega arith)

key-bytes : All IsByte key
key-bytes = All-bytes 32 7 (omega arith)

active : IsActive (prisma.grants.find_unique asking.tables.grants (article_id, reader)) 20
unfolding list_beq
active = reads

decrypt-encrypt_article_key_example :
    decrypt_article_key wallets cipher secret secret_row.encrypted_key granted ≡ (ok key, granted)
decrypt-encrypt_article_key_example =
    decrypt-encrypt_article_key wallets cipher secret iv key secret_row.encrypted_key tt tt granted
      refl iv-bytes key-bytes encrypt_run

claim_run :
    key_claim prisma wallets cipher secret (signed_in reader) body 19 20 waiting ≡ (ok key, served)
claim_run =
    challenge_then_claim prisma wallets cipher secret (signed_in reader) article_id reader nonce
      signature 11 12 19 20 asking waiting challenge secret_row iv key tt tt challenge_run refl
      (λ e. cc) (λ e. cc) (omega arith) signs active found refl iv-bytes key-bytes encrypt_run

challenge_then_claim_example :
    key_claim prisma wallets cipher secret (signed_in reader) body 19 20 waiting ≡ (ok key, served)
challenge_then_claim_example =
    challenge_then_claim prisma wallets cipher secret (signed_in reader) article_id reader nonce
      signature 11 12 19 20 asking waiting challenge secret_row iv key tt tt challenge_run refl
      (λ e. cc) (λ e. cc) (omega arith) signs active found refl iv-bytes key-bytes encrypt_run

key_claim_sound_example :
    IsClaimed prisma wallets cipher secret (signed_in reader) body 19 20 waiting served key
key_claim_sound_example =
    key_claim_sound prisma wallets cipher secret (signed_in reader) body 19 20 waiting served key
      claim_run

claim_once_example :
    key_claim prisma wallets cipher secret (signed_in reader) body 21 22 served
    ≡ (err (create_error "No active challenge" 400), served)
claim_once_example =
    claim_once prisma wallets cipher secret (signed_in reader) body body 19 20 21 22 waiting served
      key reader article_id nonce signature claim_run refl refl refl refl refl

abbrev after_revocation : State prisma
after_revocation = record waiting { tables = revoked }

revoked_no_key_example :
    key_claim prisma wallets cipher secret (signed_in reader) body 39 40 after_revocation
    ≢ (ok key, after_revocation)
revoked_no_key_example =
    revoked_no_key prisma wallets cipher secret (signed_in author) (signed_in reader) body
      article_id reader (some (units "24h")) 30 39 40 granted revoked_grant after_revocation
      after_revocation key revoke_run refl refl

-- An id that contains a colon.
