-- ===== src/Verification/Verified.antt =====
-- What a positive verification means, and what can never be verified.
use aurora_scholar.Prelude.{
  ℕ, ◌≡◌, ◌≢◌, refl, sym, Bool, true, false, ◌&&◌, Option, none, some, List, [], truthy,
  truthy-eq-some, list_eq, list_beq_iff, nat_eq, ◌==◌,
}
use aurora_scholar.Text.{Text, units}
use aurora_scholar.Http.{Result, ok, err, Handler, ◌>>=◌}
use aurora_scholar.Http.Inversion.{need-bind, throw_if-bind, pure-ok}
use aurora_scholar.External.{Wallets, Cipher}
use aurora_scholar.Canonical.{Value}
use aurora_scholar.Database.{Article}
use aurora_scholar.Chain.{ArticleData, FetchedAccount, get_article}
use aurora_scholar.Publish.{sha256_hex, hex_text}
use aurora_scholar.Gateways.{Json, Fetched, get_content}
use aurora_scholar.Verification.{
  optional_member, arweave_id_of, member, flag_or, visibility_of, bool_eq, with_matches,
  is_verified, Claimed, Report, answered, verify_article,
}

and_true : (a b : Bool) → (a && b) ≡ true → (a ≡ true) × (b ≡ true)
and_true true b h = (refl, h)
and_true false b h = cc

bool_eq_lem : (a b : Bool) → bool_eq a b ≡ true → a ≡ b
bool_eq_lem true b h = sym h
bool_eq_lem false true h = cc
bool_eq_lem false false h = refl

-- The account that a verified report rests on.
pub record IsRecorded (c : Claimed) (found : Option ArticleData) : Type 0 where
  pub account : ArticleData
  pub exists : found ≡ some account
  pub same_content : hex_text account.content_hash ≡ c.content_hash
  pub same_intuition : hex_text account.intuition_hash ≡ c.intuition_hash
  pub same_arweave_id : account.arweave_id ≡ c.arweave_id
  pub same_visibility : account.is_public ≡ c.is_public

is_verified_sound :
    (c : Claimed) (found : Option ArticleData)
    → is_verified (with_matches c found) ≡ true
    → IsRecorded c found
is_verified_sound c none h = cc
is_verified_sound c (some a) h =
    let (content, rest) = and_true (hex_text a.content_hash == c.content_hash) _ h in
    let (intuition, rest) = and_true (hex_text a.intuition_hash == c.intuition_hash) _ rest in
    let (arweave, visible) = and_true (a.arweave_id == c.arweave_id) _ rest in
    record {
      account = a;
      exists = refl;
      same_content = (list_beq_iff _ _).0 content;
      same_intuition = (list_beq_iff _ _).0 intuition;
      same_arweave_id = (list_beq_iff _ _).0 arweave;
      same_visibility = bool_eq_lem a.is_public c.is_public visible;
    }

module _ {S B P : Type 0} {s' : S} {b : B} where
  answered-bind :
      {A : Type 0} (r : Result A) (f : A → Handler S B) (s : S)
      → (answered r >>= f) s ≡ (ok b, s')
      → ((a : A) → r ≡ ok a → f a s ≡ (ok b, s') → P)
      → P
  unfolding answered ◌>>=◌
  answered-bind (ok a) f s e k = k a refl e
  answered-bind (err x) f s e k = cc

module _ (w : Wallets) (c : Cipher) (j : Json) (fetch : ℕ → Text → Fetched)
    (on_chain : w.Key → List ℕ → FetchedAccount) (gateway_variable : Option Text)
    (db_article : Option Article) (id : Text) where
  -- What stands behind a report.
  pub record IsReported (r : Report) : Type 0 where
    pub ar : Value
    pub content : Text
    pub declared : Text
    pub title : Text
    pub key : w.Key
    pub found : Option ArticleData
    pub retrieved : get_content j fetch gateway_variable (arweave_id_of db_article id) ≡ ok ar
    pub content_given : optional_member (units "content") ar ≡ some content
    pub declared_given : optional_member (units "declaredIntuition") ar ≡ some declared
    pub declared_ne : declared ≢ []
    pub parsed : w.public_key r.author ≡ some key
    pub looked_up : get_article (on_chain key (c.sha256 content)) ≡ ok found
    pub positive :
        r.verified ≡ true
        → IsRecorded
            (record {
              content_hash = sha256_hex c content;
              intuition_hash = sha256_hex c declared;
              arweave_id = arweave_id_of db_article id;
              title = title;
              ai_scope = r.ai_scope;
              is_public = flag_or (member (units "isPublic") ar) (visibility_of db_article);
            })
            found

  -- A report rests on the object that was retrieved; if it says verified then the author's account on
  -- the chain, looked up by the hash of the retrieved content, has the hashes of the retrieved content
  -- and declared intuition, this Arweave id and this visibility.
  pub verify_article_sound :
      {S : Type 0} (s s' : S) (r : Report)
      → verify_article w c j fetch on_chain gateway_variable db_article id s ≡ (ok r, s')
      → IsReported r
  unfolding verify_article
  verify_article_sound s s' r e = answered-bind _ _ _ e λ ar retrieved e.
      throw_if-bind _ _ _ _ e λ object e. need-bind _ _ _ _ e λ author author_given e.
        need-bind _ _ _ _ e λ content content_given e.
          need-bind _ _ _ _ e λ declared declared_given e. need-bind _ _ _ _ e λ key parsed e.
            answered-bind _ _ _ e λ found looked_up e.
              let (same, _) = pure-ok _ _ e in
              let (declared_at, declared_ne) = truthy-eq-some _ declared declared_given in
              rw (← same) (record {
                ar = ar;
                content = content;
                declared = declared;
                title = _;
                key = key;
                found = found;
                retrieved = retrieved;
                content_given = (truthy-eq-some _ content content_given).0;
                declared_given = declared_at;
                declared_ne = declared_ne;
                parsed = parsed;
                looked_up = looked_up;
                positive = is_verified_sound _ found;
              })

  -- An object whose declared intuition is missing or empty gets no report.
  pub no_intuition_no_report :
      {S : Type 0} (s s' : S) (r : Report) (ar : Value)
      → get_content j fetch gateway_variable (arweave_id_of db_article id) ≡ ok ar
      → truthy (optional_member (units "declaredIntuition") ar) ≡ none
      → verify_article w c j fetch on_chain gateway_variable db_article id s ≢ (ok r, s')
  unfolding verify_article
  no_intuition_no_report s s' r ar retrieved missing e = answered-bind _ _ _ e λ ar' retrieved' e.
      throw_if-bind _ _ _ _ e λ object e. need-bind _ _ _ _ e λ author author_given e.
        need-bind _ _ _ _ e λ content content_given e.
          need-bind _ _ _ _ e λ declared declared_given e.
            let same : ar' ≡ ar = cc (retrieved, retrieved') in
            cc (rw same at declared_given, missing)
