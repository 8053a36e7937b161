-- ===== src/Chain/Recorded.antt =====
-- What the service reads of an article that it has published.
use aurora_scholar.Prelude.{
  ◌≡◌, ◌≢◌, refl, ap, ◌∙◌, ℕ, false, not, Option, none, some, List, ◌==◌, nat_eq, list_eq,
  list_beq_iff,
}
use aurora_scholar.Text.{Text}
use aurora_scholar.JsMap.{get, set, get-set_same, get-set_other}
use aurora_scholar.External.{Cipher}
use aurora_scholar.Http.{ApiError, ok, pure, throw, recover}
use aurora_scholar.Http.Inversion.{
  bind-ok, pure-ok, throw_if-bind, gets-bind, modify-ok, recover-ok,
}
use aurora_scholar.Http.Steps.{bind_step}
use aurora_scholar.Chain.{ArticleData, get_article}
use aurora_scholar.Chain.Program.{
  Runtime, is_free, Accounts, PublishArgs, article_of, publish_instruction,
}
use aurora_scholar.Chain.Service.{
  PublishArticleParams, publish_article, publish_args, rpc, reached, verify_hashes,
  derive_article_pda, hash_content, fetch_account, found_account, look_up, publish_error,
  hashes_match,
}

is_free-eq-none : (o : Option ArticleData) → not (is_free o) ≡ false → o ≡ none
is_free-eq-none none h = refl
is_free-eq-none (some a) h = cc

reached-ok : (net : Option Text) (s s' : Accounts) → reached net s ≡ (ok tt, s') → s ≡ s'
unfolding pure throw
reached-ok none s s' h = cc
reached-ok (some message) s s' h = cc

throw-ne-ok : {P : Type 0} (e : ApiError) (a : Text) (s s' : Accounts) → throw e s ≡ (ok a, s') → P
unfolding throw
throw-ne-ok e a s s' h = cc

module _ (rt : Runtime) where
  publish_instruction-stores :
      (address author : Text) (args : PublishArgs) (s s' : Accounts)
      → publish_instruction rt address author args s ≡ (ok tt, s')
      → (get address s ≡ none) × (set address (article_of rt author args) s ≡ s')
  unfolding publish_instruction
  publish_instruction-stores address author args s s' h = throw_if-bind _ _ _ s h λ seeds e.
      gets-bind _ _ s e λ e. throw_if-bind _ _ _ s e λ free e. throw_if-bind _ _ _ s e λ nonzero e.
        throw_if-bind _ _ _ s e λ short e. throw_if-bind _ _ _ s e λ short_title e.
          throw_if-bind _ _ _ s e
            λ short_scope e. (is_free-eq-none (get address s) free, modify-ok _ s e)

module _ (rt : Runtime) (c : Cipher) where
  abbrev address_of : (author content : Text) → Text
  address_of author content = derive_article_pda rt c author (hash_content rt c content)

  abbrev stored : PublishArticleParams → ArticleData
  stored p = article_of rt p.author (publish_args rt c p)

  rpc-stores :
      (net : Option Text) (signer address author : Text) (args : PublishArgs) (signature : Text)
      (s s' : Accounts)
      → rpc rt c net author signer (publish_instruction rt address author args) s
        ≡ (ok signature, s')
      → (get address s ≡ none) × (set address (article_of rt author args) s ≡ s')
  unfolding rpc
  rpc-stores net signer address author args signature s s' h = bind-ok _ _ s h λ u s1 sent e.
      throw_if-bind _ _ _ s1 e λ signed e. bind-ok _ _ s1 e λ u s2 ran e.
        let (_, same) = pure-ok _ _ e in
        rw (reached-ok net s s1 sent, ← same)
          (publish_instruction-stores rt address author args s1 s2 ran)

  publish_article-stores :
      (net : Option Text) (p : PublishArticleParams) (signature : Text) (s s' : Accounts)
      → publish_article rt c net p s ≡ (ok signature, s')
      → (get (address_of p.author p.content) s ≡ none)
        × (set (address_of p.author p.content) (stored p) s ≡ s')
  unfolding publish_article recover
  publish_article-stores net p signature s s' h = throw_if-bind _ _ _ s h λ short e.
      throw_if-bind _ _ _ s e λ short_scope e.
        let address = address_of p.author p.content in
        let x =
          rpc rt c net p.author p.signer
            (publish_instruction rt address p.author (publish_args rt c p)) s in
        recover-ok x.0 x.1 (λ e. throw (publish_error e)) e
          (λ done.
            rpc-stores net p.signer address p.author (publish_args rt c p) signature s s' done)
          (λ e met answered. throw-ne-ok (publish_error e) signature x.1 s' answered)

  look_up_step :
      (author : Text) (content_hash : List ℕ) (a : ArticleData) (s : Accounts)
      → get (derive_article_pda rt c author content_hash) s ≡ some a
      → look_up rt c none author content_hash s ≡ (ok (some a), s)
  unfolding look_up fetch_account get_article
  look_up_step author content_hash a s found =
      let address = derive_article_pda rt c author content_hash in
      ap (λ o. (get_article (found_account rt c address o), s)) found

  verify_hashes_step :
      (author content declared : Text) (a : ArticleData) (s : Accounts)
      → get (address_of author content) s ≡ some a
      → verify_hashes rt c none author content declared s ≡ (
        ok (hashes_match rt c (hash_content rt c content) (hash_content rt c declared) (some a)),
        s,
      )
  unfolding verify_hashes
  verify_hashes_step author content declared a s found =
      bind_step _ _ s (look_up_step author (hash_content rt c content) a s found)
        (unfold pure in refl)

  published-matches :
      (p : PublishArticleParams) (declared : Text)
      → hashes_match rt c
          (hash_content rt c p.content)
          (hash_content rt c declared)
          (some (stored p))
        ≡ (c.sha256 declared == c.sha256 p.declared_intuition)
  unfolding hashes_match hash_content article_of publish_args
  published-matches p declared =
      rw ((list_beq_iff (c.sha256 p.content) (c.sha256 p.content)).1 refl) refl

  -- After a publication has succeeded, and as long as the request reaches the node, the verification
  -- at its author and content answers whether the given intuition has the hash of the declared one; no
  -- other account of the program has changed; and from that state no publication of the same content by
  -- the same author succeeds, whatever its other parameters.
  pub publish-then-verify :
      (net : Option Text) (p : PublishArticleParams) (signature : Text) (s s' : Accounts)
      → publish_article rt c net p s ≡ (ok signature, s')
      → ((declared : Text)
          → verify_hashes rt c none p.author p.content declared s'
            ≡ (ok (c.sha256 declared == c.sha256 p.declared_intuition), s'))
        × ((other : Text) → other ≢ address_of p.author p.content → get other s' ≡ get other s)
        × ((net' : Option Text) (q : PublishArticleParams) (signature' : Text) (s'' : Accounts)
            → q.author ≡ p.author
            → q.content ≡ p.content
            → ¬ (publish_article rt c net' q s' ≡ (ok signature', s'')))
  publish-then-verify net p signature s s' h =
      let (free, made) = publish_article-stores net p signature s s' h in
      let address = address_of p.author p.content in
      let found : get address s' ≡ some (stored p) =
        rw (← made) (get-set_same address (stored p) s) in
      (
        λ declared.
            verify_hashes_step p.author p.content declared (stored p) s' found
            ∙ ap (λ b. (ok b, s')) (published-matches p declared),
        λ other apart. rw (← made) (get-set_other address other (stored p) s apart),
        λ net' q signature' s'' author content again.
            let (absent, _) = publish_article-stores net' q signature' s' s'' again in
            let gone : get address s' ≡ none = rw (← author, ← content) absent in cc,
      )
