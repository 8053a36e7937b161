-- ===== src/Keys/Pairs.antt =====
-- Two readers, or two articles, never share a challenge.
use aurora_scholar.Prelude.{◌≡◌, ◌≢◌, refl, [], ◌∷◌, ◌++◌, All}
use aurora_scholar.Text.{Text}
use aurora_scholar.Keys.{challenge_key}

-- A text without a colon, as every base58 wallet is.
abbrev pub HasNoColon : Text → Type 0
HasNoColon = All (λ u. u ≢ 58)

colon_inside : (xs ys : Text) → ¬ HasNoColon (xs ++ 58 ∷ ys)
colon_inside [] ys (h, rest) = h refl
colon_inside (x ∷ xs) ys (h, rest) = colon_inside xs ys rest

split_at_colon :
    (xs xs' ys ys' : Text)
    → HasNoColon ys
    → HasNoColon ys'
    → xs ++ 58 ∷ ys ≡ xs' ++ 58 ∷ ys'
    → (xs ≡ xs') × (ys ≡ ys')
split_at_colon [] [] ys ys' h h' e = (refl, cc)
split_at_colon [] (x ∷ xs') ys ys' h h' e =
    let same : ys ≡ xs' ++ 58 ∷ ys' = cc in absurd (colon_inside xs' ys' (rw same at h))
split_at_colon (x ∷ xs) [] ys ys' h h' e =
    let same : ys' ≡ xs ++ 58 ∷ ys = cc in absurd (colon_inside xs ys (rw same at h'))
split_at_colon (x ∷ xs) (x' ∷ xs') ys ys' h h' e =
    let head : x ≡ x' = cc in
    let tail : xs ++ 58 ∷ ys ≡ xs' ++ 58 ∷ ys' = cc in
    let (same, rest) = split_at_colon xs xs' ys ys' h h' tail in (cc, rest)

-- The key of a challenge determines the article and the reader, whatever the article's id contains,
-- provided that wallets contain no colon.
pub challenge_key_injective :
    (article_id article_id' viewer viewer' : Text)
    → HasNoColon viewer
    → HasNoColon viewer'
    → challenge_key article_id viewer ≡ challenge_key article_id' viewer'
    → (article_id ≡ article_id') × (viewer ≡ viewer')
unfolding challenge_key
challenge_key_injective article_id article_id' viewer viewer' h h' e =
    split_at_colon article_id article_id' viewer viewer' h h' e
