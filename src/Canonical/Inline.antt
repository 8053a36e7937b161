-- ===== src/Canonical/Inline.antt =====
-- The JSON of a value stands on one line.
use aurora_scholar.Prelude.{
  ℕ, zero, suc, ◌/◌, ◌≢◌, List, [], ◌∷◌, All, All-append, arith, ltb, nat_eq, Bool-cases, inl, inr,
}
use aurora_scholar.Text.{Text, join}
use aurora_scholar.Canonical.{hex_digit, escape, escape_all, quote, digits_from, digits}

-- A unit that ends no line of the kind `\n`.
abbrev pub IsInline : ℕ → Type 0
IsInline u = u ≢ 10

escape-IsInline : (u : ℕ) → All IsInline (escape u)
unfolding escape hex_digit
escape-IsInline u = ground arith

escape_all-IsInline : (t : Text) → All IsInline (escape_all t)
unfolding escape_all
escape_all-IsInline [] = tt
escape_all-IsInline (u ∷ t) = All-append IsInline _ _ (escape-IsInline u) (escape_all-IsInline t)

pub quote-IsInline : (t : Text) → All IsInline (quote t)
unfolding quote
quote-IsInline t = (
  (λ e. omega (arith, e)),
  All-append IsInline _ _ (escape_all-IsInline t) ((λ e. omega (arith, e)), tt),
)

digits_from-IsInline : (fuel n : ℕ) → All IsInline (digits_from fuel n)
unfolding digits_from
digits_from-IsInline zero n = tt
digits_from-IsInline (suc fuel) n = elim (Bool-cases (ltb n 10)) [
  | inl small ↦ rw small ((λ e. omega (arith, e)), tt)
  | inr large ↦
      rw large
        (All-append IsInline _ _ (digits_from-IsInline fuel (n / 10)) ((λ e. omega (arith, e)), tt))
]

pub digits-IsInline : (n : ℕ) → All IsInline (digits n)
unfolding digits
digits-IsInline n = digits_from-IsInline (suc n) n

pub join-IsInline :
    (separator : Text) (ts : List Text)
    → All IsInline separator
    → All (λ t. All IsInline t) ts
    → All IsInline (join separator ts)
join-IsInline separator [] hs h = tt
join-IsInline separator (t ∷ []) hs (h, _) = h
join-IsInline separator (t ∷ u ∷ ts) hs (h, rest) =
    All-append IsInline _ _ h
      (All-append IsInline _ _ hs (join-IsInline separator (u ∷ ts) hs rest))
