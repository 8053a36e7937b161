-- ===== src/Canonical/Order.antt =====
-- The order of keys is total, and sorting is insensitive to the order of distinct keys.
use aurora_scholar.Prelude.{◌≡◌, ◌≢◌, ◌⊎◌, inl, inr, refl, true, List, [], ◌∷◌, arith}
use aurora_scholar.Text.{Text}
use aurora_scholar.Canonical.{le_text, insert_entry}

le_text-total : (s t : Text) → (le_text s t ≡ true) ⊎ (le_text t s ≡ true)
unfolding le_text
le_text-total [] t = inl refl
le_text-total (u ∷ s) [] = inr refl
le_text-total (u ∷ s) (v ∷ t) = ground (arith, le_text-total s t)

le_text_antisymm : (s t : Text) → le_text s t ≡ true → le_text t s ≡ true → s ≡ t
unfolding le_text
le_text_antisymm [] [] h k = refl
le_text_antisymm [] (v ∷ t) h k = cc
le_text_antisymm (u ∷ s) [] h k = cc
le_text_antisymm (u ∷ s) (v ∷ t) h k = ground (arith, le_text_antisymm s t)

le_text_trans : (r s t : Text) → le_text r s ≡ true → le_text s t ≡ true → le_text r t ≡ true
unfolding le_text
le_text_trans [] s t h k = refl
le_text_trans (u ∷ r) [] t h k = cc
le_text_trans (u ∷ r) (v ∷ s) [] h k = cc
le_text_trans (u ∷ r) (v ∷ s) (w ∷ t) h k = ground (arith, le_text_trans r s t)

pub insert_entry_comm :
    (a b : Text × Text) (es : List (Text × Text))
    → a.0 ≢ b.0
    → insert_entry a (insert_entry b es) ≡ insert_entry b (insert_entry a es)
unfolding insert_entry
insert_entry_comm a b [] ne = ground (arith, le_text-total a.0 b.0, le_text_antisymm a.0 b.0)
insert_entry_comm a b (c ∷ es) ne = ground (
  arith,
  insert_entry_comm a b es ne,
  le_text-total a.0 b.0,
  le_text_antisymm a.0 b.0,
  le_text_trans a.0 b.0 c.0,
  le_text_trans b.0 a.0 c.0,
  le_text_trans a.0 c.0 b.0,
  le_text_trans b.0 c.0 a.0,
  le_text-total a.0 c.0,
  le_text-total b.0 c.0,
)
