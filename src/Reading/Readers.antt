-- ===== src/Reading/Readers.antt =====
-- Who may read an article's entry.
use aurora_scholar.Prelude.{
  ℕ, ◌≡◌, ◌⊎◌, ◌↔◌, refl, true, some, truthy, Bool-cases, inl, inr, beq_refl, ◌==◌, list_eq, nat_eq,
}
use aurora_scholar.Text.{Text}
use aurora_scholar.Http.{ok, pure}
use aurora_scholar.Http.Inversion.{need-bind, gets-bind, pure-ok, bind-ok}
use aurora_scholar.Http.Steps.{bind_step, need_step, gets_step}
use aurora_scholar.Database.{Article, Prisma, Tables}
use aurora_scholar.Guard.{Access, wallet_of}
use aurora_scholar.Grants.{check_grant}
use aurora_scholar.Grants.Revocation.{IsActive, check_grant_complete, check_grant_sound}
use aurora_scholar.Reading.{info_of, check_reader, get_article_by_id}

module _ (p : Prisma) where
  -- A reader of an article: anyone if it is public, its author, and who has an active grant.
  abbrev pub IsReader : Tables p → Article → (id wallet : Text) → ℕ → Type 0
  IsReader t article id wallet now =
      (article.is_public ≡ true)
      ⊎ ((article.author_wallet ≡ wallet)
          ⊎ IsActive (p.grants.find_unique t.grants (id, wallet)) now)

  check_reader_sound :
      (article : Article) (id wallet : Text) (now : ℕ) (t t' : Tables p)
      → check_reader p article id wallet now t ≡ (ok tt, t')
      → IsReader t article id wallet now × (t ≡ t')
  unfolding check_reader
  check_reader_sound article id wallet now t t' e = elim (Bool-cases article.is_public) [
    | inl open_to_all ↦ (inl open_to_all, (pure-ok _ _ (rw open_to_all at e)).1)
    | inr closed ↦ elim (Bool-cases (article.author_wallet == wallet)) [
      | inl own ↦ (
        inr (inl ((list_eq.beq_iff article.author_wallet wallet).0 own)),
        (pure-ok _ _ (rw (closed, own) at e)).1,
      )
      | inr foreign ↦
          gets-bind _ _ _ (rw (closed, foreign) at e)
            λ e. let (active, same) = check_grant_sound _ now t t' e in (inr (inr active), same)
    ]
  ]

  check_reader_complete :
      (article : Article) (id wallet : Text) (now : ℕ) (t : Tables p)
      → IsReader t article id wallet now
      → check_reader p article id wallet now t ≡ (ok tt, t)
  unfolding check_reader pure
  check_reader_complete article id wallet now t (inl open_to_all) = rw open_to_all
  check_reader_complete article id wallet now t (inr (inl own)) =
      elim (Bool-cases article.is_public) [
        | inl open_to_all ↦ rw open_to_all
        | inr closed ↦ rw (closed, own, beq_refl wallet)
      ]
  check_reader_complete article id wallet now t (inr (inr active)) =
      let by_grant =
        gets_step (λ found. check_grant found now) t
          (λ (t : Tables p). p.grants.find_unique t.grants (id, wallet))
          (check_grant_complete _ now t active) in
      elim (Bool-cases article.is_public) [
        | inl open_to_all ↦ rw open_to_all
        | inr closed ↦ elim (Bool-cases (article.author_wallet == wallet)) [
          | inl own ↦ rw (closed, own)
          | inr foreign ↦ rw (closed, foreign) by_grant
        ]
      ]

  -- An article's entry is answered exactly to its readers: to a signed-in wallet the answer is the
  -- entry if and only if the article is public, the wallet is its author's, or the wallet has a grant
  -- that is neither revoked nor expired; and reading changes nothing.
  pub get_article_by_id_iff :
      (access : Access) (id wallet : Text) (now : ℕ) (t : Tables p) (article : Article)
      → truthy (wallet_of access) ≡ some wallet
      → p.articles.find_by_id t.articles id ≡ some article
      → (get_article_by_id p access id now t ≡ (ok (info_of article), t))
        ↔ IsReader t article id wallet now
  unfolding get_article_by_id
  get_article_by_id_iff access id wallet now t article hw found = (
    λ e. need-bind _ _ _ _ e λ wallet' given e. gets-bind _ _ _ e λ e.
        need-bind _ _ _ _ e λ article' there e. bind-ok _ _ t e λ _ t1 checked e.
          let same_wallet : wallet' ≡ wallet = cc (given, hw) in
          let same_article : article' ≡ article = cc (there, found) in
          rw (← same_wallet, ← same_article)
            (check_reader_sound article' id wallet' now t t1 checked).0,
    λ r. need_step _ _ _ _ hw (
        gets_step _ _ _ (
          need_step _ _ _ _ found (
            bind_step _ _ _ (check_reader_complete article id wallet now t r)
              (unfold pure in refl)))),
  )
