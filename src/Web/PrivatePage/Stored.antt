-- ===== src/Web/PrivatePage/Stored.antt =====
-- What the page of a private article makes of what preparePublish has stored.
use aurora_scholar.Prelude.{
  ◌≡◌, refl, Bool, true, false, Option, none, some, [], ◌∷◌, String, Option-cases, inl, inr, arith,
  list_beq,
}
use aurora_scholar.Text.{Text}
use aurora_scholar.Http.{Handler, need, ◌>>=◌}
use aurora_scholar.Http.Keeps.{
  Keeps, bind-Keeps, need-Keeps, throw_if-Keeps, pure-Keeps, gets-Keeps, modify-Keeps, if-Keeps,
  recover-Keeps,
}
use aurora_scholar.Canonical.{Value, obj, Fields}
use aurora_scholar.Storage.{Upload, article_fields}
use aurora_scholar.Web.{
  Browser, Page, Signer, Request, Reply, fetch, is_ok, get_auth_header, get_auth_token, error,
}
use aurora_scholar.Web.Crypto.{Subtle}
use aurora_scholar.Web.PrivatePage.{
  Reader, ErrorKind, encrypted_parts, update, show_error, ask, posted, with_key, decrypt_article,
  claim_key, with_challenge, open_with, with_metadata, open_article, run_page, arweave_request,
}

-- The cipher text is stored as a text, so that its members are not found.
encrypted_parts-article_fields :
    (u : Upload) (timestamp : Text) → encrypted_parts (obj (article_fields u timestamp)) ≡ none
unfolding encrypted_parts list_beq
encrypted_parts-article_fields u timestamp = refl

-- What the page shows of the article.
abbrev pub shown : {b : Browser} → Page b Reader → Text × Text
shown s = (s.ui.content, s.ui.intuition)

module _ (b : Browser) (encode_uri : Text → Text) where
  -- Arweave answers with what the API has uploaded.
  abbrev pub GivesUploads : Type 0
  GivesUploads =
      (id : Text) (net : b.Net) (reply : Reply)
      → (b.fetch (arweave_request encode_uri id) net).0 ≡ some reply
      → is_ok reply ≡ true
      → (u : Upload) × (timestamp : Text) × (reply.json ≡ some (obj (article_fields u timestamp)))

  module _ (c : Subtle) (cancelled : Bool) (gives : GivesUploads) where
    abbrev K : {A : Type 0} → Handler (Page b Reader) A → Type 0
    K m = Keeps shown m

    fetch-Keeps : (r : Request) → K (fetch b r)
    unfolding Keeps fetch need
    fetch-Keeps r s = elim (Option-cases (b.fetch r s.net).0) [
      | inl gone ↦ rw gone refl
      | inr (reply, came) ↦ rw came refl
    ]

    reply-Keeps :
        {C : Type 0} (r : Request) (f : Reply → Handler (Page b Reader) C)
        → ((net : b.Net) (reply : Reply) → (b.fetch r net).0 ≡ some reply → K (f reply))
        → K (fetch b r >>= f)
    unfolding Keeps fetch need ◌>>=◌
    reply-Keeps r f rest s =
        need-Keeps shown (b.fetch r s.net).0 (error b.fetch_error) f
          (λ reply came. rest s.net reply came)
          (record s { net = (b.fetch r s.net).1; requests = r ∷ s.requests })

    header-Keeps : K (get_auth_header b)
    unfolding get_auth_header get_auth_token
    header-Keeps =
        bind-Keeps _ _ _ (if-Keeps _ b.has_window _ _ (gets-Keeps _ _) (pure-Keeps _ _))
          (λ token. pure-Keeps _ _)

    update-Keeps :
        (change : Reader → Reader)
        → ((r : Reader) → (change r).content ≡ r.content)
        → ((r : Reader) → (change r).intuition ≡ r.intuition)
        → K (update b c encode_uri cancelled change)
    unfolding update
    update-Keeps change same also =
        if-Keeps _ cancelled _ _ (pure-Keeps _ _)
          (modify-Keeps _ _ (λ s. rw (same s.ui, also s.ui)))

    decrypt-Keeps :
        (arweave_id : Text) (key : Value)
        → K (decrypt_article b c encode_uri cancelled arweave_id key)
    unfolding decrypt_article
    decrypt-Keeps arweave_id key = need-Keeps _ _ _ _ λ key_bytes decoded.
        reply-Keeps _ _ λ net reply came. throw_if-Keeps _ _ _ _ λ fine.
          need-Keeps _ _ _ _ λ json parsed. need-Keeps _ _ _ _ λ parts found.
            let (u, timestamp, stored) = gives arweave_id net reply came (ground arith) in
            absurd (cc (encrypted_parts-article_fields u timestamp))

    error-Keeps :
        (kind : ErrorKind) (message : Text) → K (show_error b c encode_uri cancelled kind message)
    unfolding show_error
    error-Keeps kind message = update-Keeps _ (λ r. refl) (λ r. refl)

    ask-Keeps : (first : Bool) (r : Request) → K (ask b c encode_uri cancelled first r)
    unfolding ask
    ask-Keeps first r = bind-Keeps _ _ _ (fetch-Keeps r) λ reply. need-Keeps _ _ _ _ λ json parsed.
        if-Keeps _ _ _ _ (pure-Keeps _ _) (bind-Keeps _ _ _ (error-Keeps _ _) (λ u. pure-Keeps _ _))

    posted-Keeps : (path : String) (body : Fields) → K (posted b c encode_uri cancelled path body)
    posted-Keeps path body = bind-Keeps _ _ _ header-Keeps (λ header. ask-Keeps false _)

    with_key-Keeps :
        (arweave_id : Text) (json : Option Value)
        → K (with_key b c encode_uri cancelled arweave_id json)
    with_key-Keeps arweave_id none = pure-Keeps _ _
    with_key-Keeps arweave_id (some json) =
        need-Keeps _ _ _ _ (λ key found. decrypt-Keeps arweave_id key)

    with_challenge-Keeps :
        (signer : Signer) (article_id arweave_id : Text) (json : Option Value)
        → K (with_challenge b c encode_uri cancelled signer article_id arweave_id json)
    unfolding claim_key
    with_challenge-Keeps signer article_id arweave_id none = pure-Keeps _ _
    with_challenge-Keeps signer article_id arweave_id (some json) =
        need-Keeps _ _ _ _ λ challenge given. need-Keeps _ _ _ _ λ bytes signed.
          bind-Keeps _ _ _ (posted-Keeps "/api/access-control/key/claim" _)
            (λ claim. with_key-Keeps arweave_id claim)

    with_metadata-Keeps :
        (signer : Signer) (article_id : Text) (json : Option Value)
        → K (with_metadata b c encode_uri cancelled signer article_id json)
    unfolding open_with
    with_metadata-Keeps signer article_id none = pure-Keeps _ _
    with_metadata-Keeps signer article_id (some json) = need-Keeps _ _ _ _ λ id_value found.
        bind-Keeps _ _ _ (update-Keeps _ (λ r. refl) (λ r. refl)) λ u.
          bind-Keeps _ _ _ (posted-Keeps "/api/access-control/key/challenge" _)
            (λ challenge. with_challenge-Keeps signer article_id _ challenge)

    open-Keeps :
        (signer : Signer) (article_id : Text)
        → K (open_article b c encode_uri cancelled signer article_id)
    unfolding open_article
    open-Keeps signer article_id = bind-Keeps _ _ _ header-Keeps λ header.
        bind-Keeps _ _ _ (ask-Keeps true _) (λ meta. with_metadata-Keeps signer article_id meta)

    run-Keeps :
        (article_id : Text) (signer : Option Signer)
        → K (run_page b c encode_uri cancelled article_id signer)
    unfolding run_page
    run-Keeps [] signer = pure-Keeps _ _
    run-Keeps (u ∷ id) none = pure-Keeps _ _
    run-Keeps (u ∷ id) (some signer) = bind-Keeps _ _ _ (modify-Keeps _ _ (λ s. refl)) λ u.
        bind-Keeps _ _ _ (recover-Keeps _ _ _ (open-Keeps signer _) (λ e. error-Keeps _ _))
          (λ u. update-Keeps _ (λ r. refl) (λ r. refl))

    -- Where Arweave answers with what the API has uploaded, the page never shows the text of an
    -- article, whatever the API answers and whichever key it hands out: the content and the intuition
    -- on the page stay as they were.
    pub run_page-shows_nothing :
        (article_id : Text) (signer : Option Signer) (s : Page b Reader)
        → shown (run_page b c encode_uri cancelled article_id signer s).1 ≡ shown s
    unfolding Keeps
    run_page-shows_nothing article_id signer s = run-Keeps article_id signer s
