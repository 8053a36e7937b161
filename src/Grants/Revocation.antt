-- ===== src/Grants/Revocation.antt =====
-- Who may grant, and what granting and revoking do to the three tests of a grant.
use aurora_scholar.Prelude.{
  ℕ, ◌≡◌, ◌≢◌, refl, Bool, true, false, Option, none, some, truthy-eq-some, beq_refl, beq_ne,
  Bool-cases, inl, inr, if◌then◌else◌, nat_eq, list_eq, pair_eq, eq_of_not_ne,
}
use aurora_scholar.Text.{Text}
use aurora_scholar.Http.{ApiError, Handler, ok, err, create_error, pure, throw_if, ◌>>=◌, ◌>>◌}
use aurora_scholar.Http.Inversion.{need-bind, gets-bind, throw_if-bind, modify-bind, pure-ok}
use aurora_scholar.Http.Steps.{bind_step}
use aurora_scholar.Database.{Article, AccessGrant, Prisma, Tables, upserted-all}
use aurora_scholar.Expiration.{calculate_expiration, is_expired}
use aurora_scholar.Guard.{Access, wallet_of}
use aurora_scholar.Grants.{is_some, check_grant, create_grant, revoke_grant}

-- A grant that opens its article at `now`: neither revoked nor expired.
pub record IsActive (found : Option AccessGrant) (now : ℕ) : Type 0 where
  pub grant : AccessGrant
  pub row : found ≡ some grant
  pub not_revoked : grant.revoked_at ≡ none
  pub not_expired : is_expired grant.expires_at now ≡ false

is_some-false {ℓ} : {A : Type ℓ} (o : Option A) → is_some o ≡ false → o ≡ none
is_some-false none h = refl
is_some-false (some a) h = cc

-- The three tests pass exactly on an active grant, and change nothing.
pub check_grant_complete :
    {S : Type 0} (found : Option AccessGrant) (now : ℕ) (s : S)
    → IsActive found now
    → check_grant found now s ≡ (ok tt, s)
unfolding check_grant ◌>>=◌
check_grant_complete found now s a = rw (a.row, a.not_revoked, a.not_expired)

module _ {S B P : Type 0} {s' : S} {b : B} where
  tests-bind :
      (t u : Bool) (e1 e2 : ApiError) (f : Unit {0} → Handler S B) (s : S)
      → ((throw_if t e1 >> throw_if u e2) >>= f) s ≡ (ok b, s')
      → (t ≡ false → u ≡ false → f tt s ≡ (ok b, s') → P)
      → P
  unfolding ◌>>=◌
  tests-bind true u e1 e2 f s e k = cc
  tests-bind false true e1 e2 f s e k = cc
  tests-bind false false e1 e2 f s e k = k refl refl e

  pub check_grant-bind :
      (found : Option AccessGrant) (now : ℕ) (f : Unit {0} → Handler S B) (s : S)
      → (check_grant found now >>= f) s ≡ (ok b, s')
      → (IsActive found now → f tt s ≡ (ok b, s') → P)
      → P
  unfolding check_grant ◌>>=◌
  check_grant-bind none now f s e k = cc
  check_grant-bind (some g) now f s e k =
      tests-bind (is_some g.revoked_at) (is_expired g.expires_at now) _ _ f s e λ kept fresh e.
        k
          (record {
            grant = g;
            row = refl;
            not_revoked = is_some-false g.revoked_at kept;
            not_expired = fresh;
          })
          e

-- A grant that passes is active, and passing changes nothing.
pub check_grant_sound :
    {S : Type 0} (found : Option AccessGrant) (now : ℕ) (s s' : S)
    → check_grant found now s ≡ (ok tt, s')
    → IsActive found now × (s ≡ s')
unfolding pure
check_grant_sound found now s s' e =
    check_grant-bind found now (λ _. pure tt) s (bind_step _ _ _ e refl)
      λ active e. (active, (pure-ok _ _ e).1)

module _ (p : Prisma) where
  abbrev pub grant_at : Tables p → Text → Text → Option AccessGrant
  grant_at t article_id viewer = p.grants.find_unique t.grants (article_id, viewer)

  -- A grant that was created: by the article's author, for the pair that was named.
  pub record IsCreated (access : Access) (article_id viewer expires_in : Text) (now : ℕ)
      (t t' : Tables p) (g : AccessGrant) : Type 0 where
    pub article : Article
    pub exists : p.articles.find_by_id t.articles article_id ≡ some article
    pub by_author : wallet_of access ≡ some article.author_wallet
    pub stored : grant_at t' article_id viewer ≡ some g
    pub owned : g.owner_wallet ≡ article.author_wallet
    pub not_revoked : g.revoked_at ≡ none
    pub expiry : g.expires_at ≡ calculate_expiration expires_in now
    pub others :
        (a v : Text)
        → ◌≢◌ {A = Text × Text} (article_id, viewer) (a, v)
        → grant_at t' a v ≡ grant_at t a v
    pub same_articles : t'.articles ≡ t.articles
    pub same_secrets : t'.secrets ≡ t.secrets
    pub same_tokens : t'.tokens ≡ t.tokens

  -- Only the author of an article can grant access to it; what is granted is not revoked, whatever
  -- stood there before, lasts as long as was asked for, and no other pair is affected.
  pub create_grant_sound :
      (access : Access) (article_id viewer expires_in row_id : Text) (now : ℕ) (t t' : Tables p)
      (g : AccessGrant)
      → create_grant p access
          (record {
            article_id = some article_id;
            viewer_wallet = some viewer;
            expires_in = some expires_in;
          })
          row_id
          now
          t
        ≡ (ok g, t')
      → IsCreated access article_id viewer expires_in now t t' g
  unfolding create_grant
  create_grant_sound access article_id viewer expires_in row_id now t t' g e =
      need-bind _ _ _ _ e λ owner owner_given e. need-bind _ _ _ _ e λ article_id' article_given e.
        need-bind _ _ _ _ e λ viewer' viewer_given e.
          need-bind _ _ _ _ e λ expires_in' expires_given e. gets-bind _ _ _ e λ e.
            need-bind _ _ _ _ e λ article exists e. throw_if-bind _ _ _ _ e λ by_author e.
              gets-bind _ _ _ e λ e. modify-bind _ _ _ e λ e.
                let (same, stored) = pure-ok _ _ e in
                let same_article : article_id' ≡ article_id =
                  cc ((truthy-eq-some (some article_id) article_id' article_given).0) in
                let same_viewer : viewer' ≡ viewer =
                  cc ((truthy-eq-some (some viewer) viewer' viewer_given).0) in
                let same_expiry : expires_in' ≡ expires_in =
                  cc ((truthy-eq-some (some expires_in) expires_in' expires_given).0) in
                let author_same = eq_of_not_ne article.author_wallet owner by_author in
                let row : AccessGrant → Type 0 = λ r.
                  (r.owner_wallet ≡ owner)
                  × (r.revoked_at ≡ none)
                  × (r.expires_at ≡ calculate_expiration expires_in' now) in
                let (owned, not_revoked, expiry) =
                  upserted-all row (grant_at t article_id' viewer') _ _ (refl, refl, refl)
                    (λ old. (refl, refl, refl)) in
                rw (← same, ← stored)
                  (record {
                    article = article;
                    exists = rw (← same_article) exists;
                    by_author =
                        rw author_same ((truthy-eq-some (wallet_of access) owner owner_given).0);
                    stored = rw (
                      ← same_article,
                      ← same_viewer,
                      p.grants.find-upsert,
                      beq_refl {A = Text × Text} (article_id', viewer'),
                    );
                    owned = rw author_same owned;
                    not_revoked = not_revoked;
                    expiry = rw (← same_expiry) expiry;
                    others = λ a v d. rw (
                      p.grants.find-upsert,
                      same_article,
                      same_viewer,
                      beq_ne {A = Text × Text} (article_id, viewer) (a, v) d,
                    );
                    same_articles = refl;
                    same_secrets = refl;
                    same_tokens = refl;
                  })

  -- A grant that was just created lets its reader in exactly until the expiry that was asked for,
  -- even where an earlier grant of the pair had been revoked.
  pub create_then_check :
      {S : Type 0} (access : Access) (article_id viewer expires_in row_id : Text) (now later : ℕ)
      (t t' : Tables p) (g : AccessGrant) (s : S)
      → create_grant p access
          (record {
            article_id = some article_id;
            viewer_wallet = some viewer;
            expires_in = some expires_in;
          })
          row_id
          now
          t
        ≡ (ok g, t')
      → check_grant (grant_at t' article_id viewer) later s ≡ (
        (if is_expired (calculate_expiration expires_in now) later
            then err (create_error "Access expired" 403)
            else ok tt),
        s,
      )
  unfolding check_grant ◌>>=◌
  create_then_check access article_id viewer expires_in row_id now later t t' g s e =
      let i = create_grant_sound access article_id viewer expires_in row_id now t t' g e in
      elim (Bool-cases (is_expired (calculate_expiration expires_in now) later)) [
        | inl late ↦ rw (i.stored, i.not_revoked, i.expiry, late)
        | inr fresh ↦ rw (i.stored, i.not_revoked, i.expiry, fresh)
      ]

  -- A grant that was revoked: by its owner, at this time, and no row of another id is touched.
  pub record IsRevoked (access : Access) (article_id viewer : Text) (now : ℕ) (t t' : Tables p)
      (g : AccessGrant) : Type 0 where
    pub by_owner : wallet_of access ≡ some g.owner_wallet
    pub revoked : g.revoked_at ≡ some now
    pub stored : grant_at t' article_id viewer ≡ some g
    pub others :
        (a v : Text) (r : AccessGrant)
        → grant_at t a v ≡ some r
        → r.id ≢ g.id
        → grant_at t' a v ≡ some r
    pub same_articles : t'.articles ≡ t.articles

  -- Only the owner of a grant can revoke it, and the grants with other ids stay as they are.
  pub revoke_grant_sound :
      (access : Access) (article_id viewer : Text) (expires_in : Option Text) (now : ℕ)
      (t t' : Tables p) (g : AccessGrant)
      → revoke_grant p access
          (record {
            article_id = some article_id;
            viewer_wallet = some viewer;
            expires_in = expires_in;
          })
          now
          t
        ≡ (ok g, t')
      → IsRevoked access article_id viewer now t t' g
  unfolding revoke_grant
  revoke_grant_sound access article_id viewer expires_in now t t' g e =
      need-bind _ _ _ _ e λ owner owner_given e. need-bind _ _ _ _ e λ article_id' article_given e.
        need-bind _ _ _ _ e λ viewer' viewer_given e. gets-bind _ _ _ e λ e.
          need-bind _ _ _ _ e λ grant found e. throw_if-bind _ _ _ _ e λ by_owner e.
            modify-bind _ _ _ e λ e.
              let (same, stored) = pure-ok _ _ e in
              let same_article : article_id' ≡ article_id =
                cc ((truthy-eq-some (some article_id) article_id' article_given).0) in
              let same_viewer : viewer' ≡ viewer =
                cc ((truthy-eq-some (some viewer) viewer' viewer_given).0) in
              rw (← same, ← stored)
                (record {
                  by_owner =
                      rw (eq_of_not_ne grant.owner_wallet owner by_owner)
                        ((truthy-eq-some (wallet_of access) owner owner_given).0);
                  revoked = refl;
                  stored = rw (
                    ← same_article,
                    ← same_viewer,
                    p.grants.find-update_many,
                    found,
                    beq_refl grant.id,
                  );
                  others = λ a v r at d. rw (p.grants.find-update_many, at, beq_ne r.id grant.id d);
                  same_articles = refl;
                })

  -- From a revocation on the pair is refused as revoked, at any time, whatever the expiry was.
  pub revoke_then_check :
      {S : Type 0} (access : Access) (article_id viewer : Text) (expires_in : Option Text)
      (now later : ℕ) (t t' : Tables p) (g : AccessGrant) (s : S)
      → revoke_grant p access
          (record {
            article_id = some article_id;
            viewer_wallet = some viewer;
            expires_in = expires_in;
          })
          now
          t
        ≡ (ok g, t')
      → check_grant (grant_at t' article_id viewer) later s
        ≡ (err (create_error "Access revoked" 403), s)
  unfolding check_grant ◌>>=◌
  revoke_then_check access article_id viewer expires_in now later t t' g s e =
      let i = revoke_grant_sound access article_id viewer expires_in now t t' g e in
      rw (i.stored, i.revoked)
