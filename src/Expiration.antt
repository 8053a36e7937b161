-- ===== src/Expiration.antt =====
-- How long access lasts: `calculateExpiration` of
-- apps/api/src/controllers/access-control.controller.ts, and `calculateExpirationDate` of
-- packages/sdk/src/index.ts. `none` is `null`, access without end.
pub mod Agreement
use aurora_scholar.Prelude.{
  ℕ, ◌+◌, ◌*◌, ◌≤◌, ◌≡◌, refl, Bool, false, Option, none, some, ◌==◌, nat_eq, list_eq, leb,
  if◌then◌else◌,
}
use aurora_scholar.Text.{Text, units}

abbrev hour : ℕ
hour = 60 * 60 * 1000

unfoldable pub calculate_expiration : Text → ℕ → Option ℕ
calculate_expiration expires_in now =
    if expires_in == units "24h"
    then some (now + 24 * hour)
    else if expires_in == units "7d"
    then some (now + 7 * 24 * hour)
    else if expires_in == units "30d"
    then some (now + 30 * 24 * hour)
    else if expires_in == units "unlimited"
    then none
    else none

-- `AccessExpiration` of the SDK.
pub data AccessExpiration : Type 0 where
  day week month unlimited : AccessExpiration

abbrev pub literal : AccessExpiration → Text
literal day = units "24h"
literal week = units "7d"
literal month = units "30d"
literal unlimited = units "unlimited"

unfoldable pub calculate_expiration_date : AccessExpiration → ℕ → Option ℕ
calculate_expiration_date unlimited now = none
calculate_expiration_date day now = some (now + 24 * hour)
calculate_expiration_date week now = some (now + 7 * 24 * hour)
calculate_expiration_date month now = some (now + 30 * 24 * hour)

-- `expiresAt && expiresAt.getTime() <= Date.now()`
abbrev pub is_expired : Option ℕ → ℕ → Bool
is_expired none now = false
is_expired (some t) now = leb t now
