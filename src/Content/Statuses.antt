-- ===== src/Content/Statuses.antt =====
-- The statuses of getArticleContent.
use aurora_scholar.Prelude.{
  ℕ, ◌≡◌, ◌≢◌, ◌⊎◌, refl, ap, true, Option, none, some, [], ◌∷◌, inl, inr, Bool-cases, ◌||◌, nat_eq,
}
use aurora_scholar.Text.{Text, units, includes, strip_prefix}
use aurora_scholar.Http.{ApiError, Result, ok, err, create_error, create_error_text}
use aurora_scholar.Gateways.{Json, Fetched, get_content, not_found}
use aurora_scholar.Content.{Content, content_error, is_400, caught, get_article_content}

abbrev pub IsFailure : Option ℕ → Type 0
IsFailure code = (code ≡ some 400) ⊎ ((code ≡ some 404) ⊎ (code ≡ some 500))

is_400_sound : (code : Option ℕ) → is_400 code ≡ true → code ≡ some 400
is_400_sound none h = cc
is_400_sound (some code) h = ap some ((nat_eq.beq_iff code 400).0 h)

content_error-IsFailure : (e : ApiError) → IsFailure (content_error e).status_code
unfolding content_error create_error_text
content_error-IsFailure e =
    elim (Bool-cases (
      includes (units "not found") e.message
      || includes (units "404") e.message
      || includes (units "processing") e.message)) [
        | inl missing ↦ rw missing (inr (inl refl))
        | inr found ↦ elim (Bool-cases (is_400 e.status_code)) [
          | inl bad ↦ rw (found, bad) (inl (is_400_sound e.status_code bad))
          | inr failed ↦ rw (found, failed) (inr (inr refl))
        ]
      ]

caught_sound : (r : Result Content) (e : ApiError) → caught r ≡ err e → IsFailure e.status_code
caught_sound (ok a) e h = cc
caught_sound (err x) e h =
    let same : content_error x ≡ e = cc in rw (← same) (content_error-IsFailure x)

-- Every failure is answered with the status 400, 404 or 500, never without a status.
pub get_article_content_statuses :
    (j : Json) (fetch : ℕ → Text → Fetched) (gateway_variable : Option Text) (id : Text)
    (e : ApiError)
    → get_article_content j fetch gateway_variable id ≡ err e
    → IsFailure e.status_code
unfolding get_article_content create_error
get_article_content_statuses j fetch gateway_variable [] e h =
    let same : create_error "Arweave ID is required" 400 ≡ e = cc in rw (← same) (inl refl)
get_article_content_statuses j fetch gateway_variable (u ∷ id) e h = caught_sound _ e h

-- An article that no gateway has after twelve requests is answered 404, with the retrieval's message.
pub get_article_content_missing :
    (j : Json) (fetch : ℕ → Text → Fetched) (gateway_variable : Option Text) (id : Text)
    → id ≢ []
    → get_content j fetch gateway_variable id ≡ err (not_found id)
    → get_article_content j fetch gateway_variable id
      ≡ err (create_error_text (not_found id).message 404)
unfolding get_article_content content_error not_found includes strip_prefix
get_article_content_missing j fetch gateway_variable [] given h = absurd (given refl)
get_article_content_missing j fetch gateway_variable (u ∷ id) given h = rw h
