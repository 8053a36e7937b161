-- ===== src/Prelude/Tests.antt =====
-- Boolean tests on numbers and texts, the conditional, and JavaScript's truthiness of strings.
use Prim.Native.Nat.{ℕ, ◌≤◌, ◌<◌, compare, Ordering}
use mathlib.Core.List.{List, [], ◌∷◌}
use mathlib.Core.Path.{◌≡◌, refl}
use mathlib.Core.Logic.{◌↔◌, ◌⊎◌, inl, inr, ◌≢◌}
use mathlib.Core.Bool.{Bool, true, false, not, ◌&&◌}
use mathlib.Core.Option.{Option, none, some}
use native.Mathlib.Omega.{arith}

abbrev pub ltb : ℕ → ℕ → Bool
ltb a b = elim (compare a b) [ Ordering.lt ↦ true | _ ↦ false ]

abbrev pub leb : ℕ → ℕ → Bool
leb a b = elim (compare a b) [ Ordering.gt ↦ false | _ ↦ true ]

abbrev pub nat_beq : ℕ → ℕ → Bool
nat_beq a b = elim (compare a b) [ Ordering.eq ↦ true | _ ↦ false ]

infix 1 if◌then◌else◌
abbrev pub if◌then◌else◌ {ℓ} : {A : Type ℓ} → Bool → A → A → A
if true then x else y = x
if false then x else y = y

pub nat_beq_iff : (a b : ℕ) → (nat_beq a b ≡ true) ↔ (a ≡ b)
nat_beq_iff a b = ground arith

pub ltb→lt : (a b : ℕ) → ltb a b ≡ true → a < b
ltb→lt a b h = ground arith

pub lt→ltb : (a b : ℕ) → a < b → ltb a b ≡ true
lt→ltb a b h = ground arith

pub leb→le : (a b : ℕ) → leb a b ≡ true → a ≤ b
leb→le a b h = ground arith

pub le→leb : (a b : ℕ) → a ≤ b → leb a b ≡ true
le→leb a b h = ground arith

pub le→ltb-false : {a b : ℕ} → a ≤ b → ltb b a ≡ false
le→ltb-false h = ground arith

pub Bool-cases : (b : Bool) → (b ≡ true) ⊎ (b ≡ false)
Bool-cases true = inl refl
Bool-cases false = inr refl

pub Option-cases {ℓ} : {A : Type ℓ} (o : Option A) → (o ≡ none) ⊎ ((a : A) × (o ≡ some a))
Option-cases none = inl refl
Option-cases (some a) = inr (a, refl)

-- Equality tests, as an interface: one operator for every type that has an instance.
pub record EqTest {ℓ} (A : Type ℓ) : Type ℓ where
  pub beq : A → A → Bool
  pub beq_iff : (x y : A) → (beq x y ≡ true) ↔ (x ≡ y)

abbrev pub ◌==◌ {ℓ} : {A : Type ℓ} ⦃t : EqTest A⦄ → A → A → Bool
◌==◌ ⦃t⦄ x y = t.beq x y

infix 50 ◌==◌
instance abbrev pub nat_eq : EqTest ℕ
nat_eq = record { beq = nat_beq; beq_iff = nat_beq_iff }

-- Not an `abbrev`: a comparison of texts stays whole in goals, and is read by `beq_iff`.
unfoldable pub list_beq {ℓ} : {A : Type ℓ} ⦃e : EqTest A⦄ → List A → List A → Bool
list_beq [] [] = true
list_beq [] (y ∷ ys) = false
list_beq (x ∷ xs) [] = false
list_beq (x ∷ xs) (y ∷ ys) = x == y && list_beq xs ys

pub list_beq_iff {ℓ} :
    {A : Type ℓ} ⦃e : EqTest A⦄ (xs ys : List A) → (list_beq xs ys ≡ true) ↔ (xs ≡ ys)
unfolding list_beq
list_beq_iff [] [] = ground arith
list_beq_iff [] (y ∷ ys) = ground arith
list_beq_iff (x ∷ xs) [] = ground arith
list_beq_iff ⦃e⦄ (x ∷ xs) (y ∷ ys) = ground (arith, e.beq_iff x y, list_beq_iff xs ys)

instance abbrev pub list_eq {ℓ} : {A : Type ℓ} ⦃e : EqTest A⦄ → EqTest (List A)
list_eq = record { beq = list_beq; beq_iff = list_beq_iff }

abbrev pub pair_beq {ℓ κ} :
    {A : Type ℓ} {B : Type κ} ⦃a : EqTest A⦄ ⦃b : EqTest B⦄ → A × B → A × B → Bool
pair_beq (x, y) (u, v) = x == u && y == v

pub pair_beq_iff {ℓ κ} :
    {A : Type ℓ} {B : Type κ} ⦃a : EqTest A⦄ ⦃b : EqTest B⦄ (p q : A × B)
    → (pair_beq p q ≡ true) ↔ (p ≡ q)
pair_beq_iff ⦃a⦄ ⦃b⦄ (x, y) (u, v) = ground (arith, a.beq_iff x u, b.beq_iff y v)

instance abbrev pub pair_eq {ℓ κ} :
    {A : Type ℓ} {B : Type κ} ⦃a : EqTest A⦄ ⦃b : EqTest B⦄ → EqTest (A × B)
pair_eq = record { beq = pair_beq; beq_iff = pair_beq_iff }

module _ {ℓ} {A : Type ℓ} ⦃e : EqTest A⦄ where
  pub beq_refl : (a : A) → (a == a) ≡ true
  beq_refl a = (e.beq_iff a a).1 refl

  pub eq_of_not_ne : (a b : A) → not (a == b) ≡ false → a ≡ b
  eq_of_not_ne a b h = ground (arith, e.beq_iff a b)

  pub not_ne_of_eq : (a b : A) → a ≡ b → not (a == b) ≡ false
  not_ne_of_eq a b h = ground (arith, e.beq_iff a b)

  pub beq_ne : (a b : A) → a ≢ b → (a == b) ≡ false
  beq_ne a b h = ground (arith, e.beq_iff a b)

-- `s || other`, for a string that may be missing.
abbrev pub or_else {ℓ} : {A : Type ℓ} → Option (List A) → List A → List A
or_else none other = other
or_else (some []) other = other
or_else (some (x ∷ xs)) other = x ∷ xs

-- `!s` is true of `undefined`, `null` and the empty string.
abbrev pub truthy {ℓ} : {A : Type ℓ} → Option (List A) → Option (List A)
truthy none = none
truthy (some []) = none
truthy (some (x ∷ xs)) = some (x ∷ xs)

pub truthy-eq-some {ℓ} :
    {A : Type ℓ} (o : Option (List A)) (t : List A) → truthy o ≡ some t → (o ≡ some t) × (t ≢ [])
truthy-eq-some none t h = cc
truthy-eq-some (some []) t h = cc
truthy-eq-some (some (x ∷ xs)) t h = (h, λ e. cc)

pub truthy_of_ne-nil {ℓ} : {A : Type ℓ} (t : List A) → t ≢ [] → truthy (some t) ≡ some t
truthy_of_ne-nil [] h = absurd (h refl)
truthy_of_ne-nil (x ∷ xs) h = refl
