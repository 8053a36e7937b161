-- ===== src/Guard/Routes.antt =====
-- Which requests pass without a token.
use aurora_scholar.Prelude.{
  ◌≡◌, ◌≢◌, ◌↔◌, inl, inr, refl, true, some, [], ◌∷◌, ◌++◌, arith, All, ◌==◌, nat_eq, list_eq,
  list_beq_iff, Option-cases, beq_refl, Bool-cases,
}
use aurora_scholar.Text.{Text, units, strip_prefix, span}
use aurora_scholar.Guard.{
  Method, get, post, put, other, slash, not_slash, one_segment, is_article_path, is_public,
}

strip_prefix_iff : (p t r : Text) → (strip_prefix p t ≡ some r) ↔ (t ≡ p ++ r)
unfolding strip_prefix
strip_prefix_iff [] t r = (λ e. cc, λ e. cc)
strip_prefix_iff (u ∷ p) [] r = (λ e. cc, λ e. cc)
strip_prefix_iff (u ∷ p) (v ∷ t) r = ground (arith, strip_prefix_iff p t r)

abbrev IsSegment : Text → Type 0
IsSegment id = (id ≢ []) × All (λ u. u ≢ slash) id

span-append : (t : Text) → (span not_slash t).0 ++ (span not_slash t).1 ≡ t
unfolding span
span-append [] = refl
span-append (u ∷ t) = ground (arith, span-append t)

span-All : (t : Text) → All (λ u. u ≢ slash) (span not_slash t).0
unfolding span
span-All [] = tt
span-All (u ∷ t) = ground (arith, span-All t)

span_segment :
    (id s : Text) → All (λ u. u ≢ slash) id → span not_slash (id ++ slash ∷ s) ≡ (id, slash ∷ s)
unfolding span
span_segment [] s h = refl
span_segment (u ∷ id) s h = ground (arith, span_segment id s h.1)

-- A path of the pattern: /articles/, one segment with no slash in it, and the suffix.
pub record IsArticlePath (suffix path : Text) : Type 0 where
  pub id : Text
  pub segment : IsSegment id
  pub shape : path ≡ units "/articles/" ++ (id ++ suffix)

one_segment_sound :
    (suffix rest : Text)
    → one_segment suffix (some rest) ≡ true
    → (id : Text) × IsSegment id × (rest ≡ id ++ suffix)
one_segment_sound suffix rest h = (
  (span not_slash rest).0,
  ((λ e. ground arith), span-All rest),
  ground (arith, span-append rest, list_beq_iff (span not_slash rest).1 suffix),
)

is_article_path_sound :
    (suffix path : Text) → is_article_path suffix path ≡ true → IsArticlePath suffix path
unfolding is_article_path
is_article_path_sound suffix path h = elim (Option-cases (strip_prefix (units "/articles/") path)) [
  | inl missing ↦ cc (rw missing at h)
  | inr (rest, found) ↦
      let (id, segment, shape) = one_segment_sound suffix rest (rw found at h) in
      record {
        id = id;
        segment = segment;
        shape = rw (← shape) ((strip_prefix_iff (units "/articles/") path rest).0 found);
      }
]

is_article_path_complete :
    (s path : Text) → IsArticlePath (slash ∷ s) path → is_article_path (slash ∷ s) path ≡ true
unfolding is_article_path
is_article_path_complete s path p =
    let found = (strip_prefix_iff (units "/articles/") path (p.id ++ slash ∷ s)).1 p.shape in
    rw (found, span_segment p.id s p.segment.1, beq_refl (slash ∷ s)) (ground arith)

-- The requests that need no wallet: the journal's list, an article's content, its verification.
pub data IsOpenRequest (path : Text) : Method → Type 0 where
  listing : path ≡ units "/articles" → IsOpenRequest path get
  content : IsArticlePath (units "/content") path → IsOpenRequest path get
  verification : IsArticlePath (units "/verify") path → IsOpenRequest path post

pub is_public_sound : (m : Method) (path : Text) → is_public m path ≡ true → IsOpenRequest path m
unfolding is_public
is_public_sound get path h = elim (Bool-cases (path == units "/articles")) [
  | inl same ↦ listing ((list_beq_iff path (units "/articles")).0 same)
  | inr elsewhere ↦ content (is_article_path_sound (units "/content") path (rw elsewhere at h))
]
is_public_sound post path h = verification (is_article_path_sound (units "/verify") path h)
is_public_sound put path h = cc
is_public_sound other path h = cc

pub is_public_complete : {m : Method} {path : Text} → IsOpenRequest path m → is_public m path ≡ true
unfolding is_public
is_public_complete {path} (listing e) = rw ((list_beq_iff path (units "/articles")).1 e)
is_public_complete {path} (content p) =
    rw (is_article_path_complete (units "content") path p) (ground arith)
is_public_complete {path} (verification p) = is_article_path_complete (units "verify") path p
