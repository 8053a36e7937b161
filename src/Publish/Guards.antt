-- ===== src/Publish/Guards.antt =====
-- What preparePublish checks of the signature, and what it takes of a private article.
use aurora_scholar.Prelude.{
  ◌≡◌, refl, sym, ◌∙◌, Bool, true, false, ◌&&◌, Option, none, some, length, ◌==◌, nat_eq, list_eq,
}
use aurora_scholar.Text.{Text, utf8}
use aurora_scholar.Http.{ok}
use aurora_scholar.Http.Inversion.{need-bind, pure-ok}
use aurora_scholar.External.{Wallets}
use aurora_scholar.Publish.{PublishBody, Sealed, sealed, verify_signature, require_sealed}

and_true : (a b : Bool) → (a && b) ≡ true → (a ≡ true) × (b ≡ true)
and_true true b h = (refl, h)
and_true false b h = cc

-- A private article must bring its key and cipher text; a public one brings none.
abbrev pub IsChosen : Bool → PublishBody → Option Sealed → Type 0
IsChosen true body part = none ≡ part
IsChosen false body part =
    (s : Sealed) × (sealed body.article_key body.encrypted_payload ≡ some s) × (part ≡ some s)

module _ (w : Wallets) where
  -- The author's key signed the message.
  pub record IsSignedBy (author message signature : Text) : Type 0 where
    pub key : w.Key
    pub parsed : w.public_key author ≡ some key
    pub length_64 : length (w.from_base64 signature) ≡ 64
    pub verified : w.verify (utf8 message) (w.from_base64 signature) key ≡ true

  pub verify_signature_sound :
      {S : Type 0} (author message signature : Text) (valid : Bool) (s s' : S)
      → verify_signature w author message signature s ≡ (ok valid, s')
      → valid ≡ true
      → IsSignedBy author message signature × (s ≡ s')
  unfolding verify_signature
  verify_signature_sound author message signature valid s s' e h =
      need-bind _ _ _ _ e λ key parsed e.
        let (same, kept) = pure-ok _ _ e in
        let (long, verified) = and_true (length (w.from_base64 signature) == 64) _ (same ∙ h) in
        (
          record {
            key = key;
            parsed = parsed;
            length_64 = (nat_eq.beq_iff (length (w.from_base64 signature)) 64).0 long;
            verified = verified;
          },
          kept,
        )

  pub require_sealed_sound :
      {S : Type 0} (is_public : Bool) (body : PublishBody) (part : Option Sealed) (s s' : S)
      → require_sealed w is_public body s ≡ (ok part, s')
      → IsChosen is_public body part × (s ≡ s')
  unfolding require_sealed
  require_sealed_sound true body part s s' e = pure-ok _ _ e
  require_sealed_sound false body part s s' e =
      need-bind _ _ _ _ e
        λ x given e. let (same, kept) = pure-ok _ _ e in ((x, given, sym same), kept)
