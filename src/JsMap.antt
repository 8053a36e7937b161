-- ===== src/JsMap.antt =====
-- JavaScript's `Map` with string keys, as the in-memory challenge stores use it. The program never
-- iterates over one, so the order of entries does not matter.
use aurora_scholar.Prelude.{
  ◌≡◌, ◌≢◌, Option, none, some, List, [], ◌∷◌, if◌then◌else◌, ◌==◌, nat_eq, list_eq, list_beq_iff,
  arith,
}
use aurora_scholar.Text.{Text}

abbrev pub JsMap {ℓ} : Type ℓ → Type ℓ
JsMap V = List (Text × V)

module _ {ℓ} {V : Type ℓ} where
  unfoldable pub get : Text → JsMap V → Option V
  get k [] = none
  get k ((j, v) ∷ m) = if j == k then some v else get k m

  unfoldable pub delete : Text → JsMap V → JsMap V
  delete k [] = []
  delete k ((j, v) ∷ m) = let rest = delete k m in if j == k then rest else (j, v) ∷ rest

  unfoldable pub set : Text → V → JsMap V → JsMap V
  unfolding delete
  set k v m = (k, v) ∷ delete k m

  pub get-delete :
      (k j : Text) (m : JsMap V) → get j (delete k m) ≡ (if k == j then none else get j m)
  unfolding get delete
  get-delete k j [] = ground arith
  get-delete k j ((i, v) ∷ m) =
      ground (arith, get-delete k j m, list_beq_iff i k, list_beq_iff i j, list_beq_iff k j)

  pub get-set :
      (k j : Text) (v : V) (m : JsMap V) → get j (set k v m) ≡ (if k == j then some v else get j m)
  unfolding get set
  get-set k j v m = ground (arith, get-delete k j m)

  pub get-set_same : (k : Text) (v : V) (m : JsMap V) → get k (set k v m) ≡ some v
  get-set_same k v m = ground (arith, get-set k k v m, list_beq_iff k k)

  pub get-set_other : (k j : Text) (v : V) (m : JsMap V) → j ≢ k → get j (set k v m) ≡ get j m
  get-set_other k j v m apart = ground (arith, get-set k j v m, list_beq_iff k j)

pub ruleset map_laws = (get-delete, get-set)
