-- ===== src/Secrets/RoundTrip.antt =====
-- A key that was encrypted is decrypted to itself.
use mathlib.Core.List.{append_assoc}
use aurora_scholar.Prelude.{
  All-append, ℕ, ◌≡◌, ◌+◌, Option, some, List, ◌++◌, length, take, drop, take-append, drop-append,
  length-append, All, arith, le→ltb-false, nat_eq, not_ne_of_eq, eq_of_not_ne, truthy, Option-cases,
  inl, inr, ◌≤◌,
}
use aurora_scholar.Text.{Text}
use aurora_scholar.Http.{Handler, ok, ◌>>=◌}
use aurora_scholar.Http.Inversion.{need-bind, throw_if-bind, pure-ok}
use aurora_scholar.External.{Wallets, Cipher, IsByte}
use aurora_scholar.Secrets.{encrypt_article_key, decrypt_article_key, get_secret_key}

-- The three parts of a payload are found again at the offsets that the code uses.
module _ (iv tag ct : List ℕ) (h12 : length iv ≡ 12) (h16 : length tag ≡ 16) where
  payload_iv : take 12 (iv ++ (tag ++ ct)) ≡ iv
  payload_iv = rw (← h12) (take-append iv (tag ++ ct))

  payload_rest : drop 12 (iv ++ (tag ++ ct)) ≡ tag ++ ct
  payload_rest = rw (← h12) (drop-append iv (tag ++ ct))

  payload_tag : take 16 (drop 12 (iv ++ (tag ++ ct))) ≡ tag
  payload_tag = rw (payload_rest, ← h16) (take-append tag ct)

  payload_ciphertext : drop 28 (iv ++ (tag ++ ct)) ≡ ct
  payload_ciphertext =
      let e : length (iv ++ tag) ≡ 28 = omega (arith, length-append iv tag) in
      rw (← append_assoc iv tag ct, ← e) (drop-append (iv ++ tag) ct)

  payload_length : length (iv ++ (tag ++ ct)) ≡ 28 + length ct
  payload_length = omega (arith, length-append iv (tag ++ ct), length-append tag ct)

  long_enough :
      (key : List ℕ) → length ct ≡ length key → length key ≡ 32 → 29 ≤ length (iv ++ (tag ++ ct))
  long_enough key h h32 = omega (arith, payload_length)

module _ (w : Wallets) (c : Cipher) {S B P : Type 0} {s' : S} {b : B} where
  get_secret_key-bind :
      (secret : Option Text) (f : List ℕ → Handler S B) (s : S)
      → (get_secret_key w c secret >>= f) s ≡ (ok b, s')
      → ((raw : Text) → truthy secret ≡ some raw → f (c.sha256 raw) s ≡ (ok b, s') → P)
      → P
  unfolding get_secret_key ◌>>=◌
  get_secret_key-bind secret f s e k = elim (Option-cases (truthy secret)) [
    | inl missing ↦ cc (rw missing at e)
    | inr (raw, given) ↦ k raw given (rw given at e)
  ]

module _ (w : Wallets) (c : Cipher) {T : Type 0} where
  decrypt_payload :
      (secret : Option Text) (raw : Text) (iv key : List ℕ) (text : Text) (t : T)
      → truthy secret ≡ some raw
      → length iv ≡ 12
      → length key ≡ 32
      → All IsByte key
      → w.from_base64 text
        ≡ iv ++ ((c.encrypt (c.sha256 raw) iv key).1 ++ (c.encrypt (c.sha256 raw) iv key).0)
      → decrypt_article_key w c secret text t ≡ (ok key, t)
  unfolding decrypt_article_key get_secret_key ◌>>=◌
  decrypt_payload secret raw iv key text t configured h12 h32 bytes e =
      let master = c.sha256 raw in
      let tag = (c.encrypt master iv key).1 in
      let ct = (c.encrypt master iv key).0 in
      let h16 = c.length-tag master iv key in
      rw (
        configured,
        e,
        le→ltb-false (long_enough iv tag ct h12 h16 key (c.length-ciphertext master iv key) h32),
        payload_tag iv tag ct h12 h16,
        payload_iv iv tag ct h12 h16,
        payload_ciphertext iv tag ct h12 h16,
        c.decrypt-encrypt master iv key bytes,
        not_ne_of_eq _ _ h32,
      )

module _ (w : Wallets) (c : Cipher) {S : Type 0} where
  -- A stored key is decrypted, under the same secret, to the key that was encrypted.
  pub decrypt-encrypt_article_key :
      {T : Type 0} (secret : Option Text) (iv key : List ℕ) (text : Text) (s s' : S) (t : T)
      → length iv ≡ 12
      → All IsByte iv
      → All IsByte key
      → encrypt_article_key w c secret iv key s ≡ (ok text, s')
      → decrypt_article_key w c secret text t ≡ (ok key, t)
  unfolding encrypt_article_key
  decrypt-encrypt_article_key secret iv key text s s' t h12 iv_bytes key_bytes e =
      throw_if-bind _ _ _ _ e λ size e. get_secret_key-bind w c secret _ s e λ raw configured e.
        let (same, _) = pure-ok _ _ e in
        decrypt_payload w c secret raw iv key text t configured h12
          (eq_of_not_ne (length key) 32 size) key_bytes
          (rw (← same) (
            w.from-to_base64 _ (
              All-append IsByte iv _ iv_bytes
                (All-append IsByte _ _ (c.tag-IsByte _ iv key) (c.ciphertext-IsByte _ iv key)))))

module _ (w : Wallets) (c : Cipher) {S : Type 0} where
  -- Decrypting changes nothing.
  pub decrypt_article_key-keeps :
      (secret : Option Text) (text : Text) (key : List ℕ) (s s' : S)
      → decrypt_article_key w c secret text s ≡ (ok key, s')
      → s ≡ s'
  unfolding decrypt_article_key
  decrypt_article_key-keeps secret text key s s' e =
      get_secret_key-bind w c secret _ s e λ raw configured e. throw_if-bind _ _ _ _ e λ long e.
        need-bind _ _ _ _ e λ plain opened e. throw_if-bind _ _ _ _ e λ size e. (pure-ok _ _ e).1

  -- Encrypting changes nothing, and takes keys of 32 bytes alone.
  pub encrypt_article_key-keeps :
      (secret : Option Text) (iv key : List ℕ) (text : Text) (s s' : S)
      → encrypt_article_key w c secret iv key s ≡ (ok text, s')
      → (s ≡ s') × (length key ≡ 32)
  unfolding encrypt_article_key
  encrypt_article_key-keeps secret iv key text s s' e = throw_if-bind _ _ _ _ e λ size e.
      get_secret_key-bind w c secret _ s e
        λ raw configured e. ((pure-ok _ _ e).1, eq_of_not_ne (length key) 32 size)
