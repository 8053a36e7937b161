-- ===== src/Publish/Kept.antt =====
-- What is left of an article's key.
use aurora_scholar.Prelude.{◌≡◌, refl, Option, none, some, length, nat_eq, beq_refl, list_eq}
use aurora_scholar.Text.{Text}
use aurora_scholar.Http.{ok}
use aurora_scholar.Http.Inversion.{throw_if-bind, modify-ok, pure-ok, bind-ok}
use aurora_scholar.Database.{ArticleSecret, Prisma, Tables, upserted, upserted-all}
use aurora_scholar.Secrets.{encrypt_article_key}
use aurora_scholar.Secrets.RoundTrip.{encrypt_article_key-keeps}
use aurora_scholar.Publish.{Sealed, Server, Moment, store_key}

module _ (p : Prisma) (env : Server p) where
  pub record IsStored (s : Sealed) (article_id : Text) (m : Moment) (t t' : Tables p) : Type 0 where
    pub length_32 : length (env.wallets.from_base64 s.article_key) ≡ 32
    pub secret : ArticleSecret
    pub stored : p.secrets.find_unique t'.secrets article_id ≡ some secret
    pub encrypted :
        encrypt_article_key env.wallets env.cipher env.secret_variable m.iv
          (env.wallets.from_base64 s.article_key)
          t
        ≡ (ok secret.encrypted_key, t)
    pub same_articles : t'.articles ≡ t.articles
    pub same_grants : t'.grants ≡ t.grants

  -- What is left of the key of an article: of a public one nothing is touched.
  abbrev pub IsKept : Option Sealed → Text → Moment → Tables p → Tables p → Type 0
  IsKept none article_id m t t' = t ≡ t'
  IsKept (some s) article_id m t t' = IsStored s article_id m t t'

  pub store_key_sound :
      (part : Option Sealed) (article_id : Text) (m : Moment) (t t' : Tables p)
      → store_key p env part article_id m t ≡ (ok tt, t')
      → IsKept part article_id m t t'
  unfolding store_key
  store_key_sound none article_id m t t' e = (pure-ok _ _ e).1
  store_key_sound (some s) article_id m t t' e = throw_if-bind _ _ _ _ e λ size e.
      bind-ok _ _ t e λ text t1 encrypted e.
        let (same, length_32) =
          encrypt_article_key-keeps env.wallets env.cipher env.secret_variable m.iv _ text t t1
            encrypted in
        let stored = modify-ok _ _ e in
        let new : ArticleSecret = record {
          id = m.secret_id;
          article_id = article_id;
          encrypted_key = text;
        } in
        let change : (ArticleSecret → ArticleSecret) = λ r. record r { encrypted_key = text } in
        let before = p.secrets.find_unique t.secrets article_id in
        let field =
          upserted-all (λ r. text ≡ r.encrypted_key) before new change refl (λ old. refl) in
        rw (← stored, ← same)
          (record {
            length_32 = length_32;
            secret = upserted before new change;
            stored = rw (p.secrets.find-upsert, beq_refl article_id);
            encrypted = rw (← field) (rw (← same) at encrypted);
            same_articles = refl;
            same_grants = refl;
          })

  pub kept-articles :
      (part : Option Sealed) (article_id : Text) (m : Moment) (t t' : Tables p)
      → IsKept part article_id m t t'
      → t'.articles ≡ t.articles
  kept-articles none article_id m t t' k = rw k
  kept-articles (some s) article_id m t t' k = k.same_articles
