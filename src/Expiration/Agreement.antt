-- ===== src/Expiration/Agreement.antt =====
-- The server's durations are the SDK's, and which durations never end.
use aurora_scholar.Prelude.{
  ℕ, ◌≡◌, ◌↔◌, ◌⊎◌, refl, none, arith, list_beq, list_beq_iff, nat_eq, list_eq,
}
use aurora_scholar.Text.{Text, units}
use aurora_scholar.Expiration.{
  calculate_expiration, AccessExpiration, day, week, month, unlimited, literal,
  calculate_expiration_date,
}

-- On each of the four durations that the SDK's type allows, the server and the SDK compute the same
-- expiry.
pub calculate_expiration-eq-date :
    (a : AccessExpiration) (now : ℕ)
    → calculate_expiration (literal a) now ≡ calculate_expiration_date a now
unfolding calculate_expiration calculate_expiration_date list_beq
calculate_expiration-eq-date day now = refl
calculate_expiration-eq-date week now = refl
calculate_expiration-eq-date month now = refl
calculate_expiration-eq-date unlimited now = refl

abbrev pub IsFinite : Text → Type 0
IsFinite t = (t ≡ units "24h") ⊎ (t ≡ units "7d") ⊎ (t ≡ units "30d")

-- The server gives access without end for every duration but three: also for a misspelt one.
pub calculate_expiration-eq-none_iff :
    (expires_in : Text) (now : ℕ)
    → (calculate_expiration expires_in now ≡ none) ↔ (¬ IsFinite expires_in)
unfolding calculate_expiration
calculate_expiration-eq-none_iff e now =
    ground (
      arith,
      list_beq_iff e (units "24h"),
      list_beq_iff e (units "7d"),
      list_beq_iff e (units "30d"),
    )
