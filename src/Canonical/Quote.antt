-- ===== src/Canonical/Quote.antt =====
-- A quoted string can be read back from the front of any text.
use aurora_scholar.Prelude.{
  ℕ, ◌+◌, ◌-◌, ◌*◌, ◌≡◌, refl, sym, ap, ◌∙◌, Bool, true, false, Option, none, some, [], ◌∷◌, ◌++◌,
  arith, ltb, if◌then◌else◌, ◌==◌, nat_eq,
}
use mathlib.Core.List.{append_assoc}
use aurora_scholar.Text.{Text}
use aurora_scholar.Canonical.{escape, escape_all, quote}

abbrev unhex : ℕ → ℕ
unhex c = if ltb c 58 then c - 48 else c - 87

abbrev unescape_hex : Text → Option (ℕ × Text)
unescape_hex (a ∷ b ∷ c ∷ d ∷ r) = some (unhex c * 16 + unhex d, r)
unescape_hex _ = none

abbrev unescape_tail : Text → Option (ℕ × Text)
unescape_tail [] = none
unescape_tail (c ∷ r) =
    if c == 117
    then unescape_hex r
    else if c == 98
    then some (8, r)
    else if c == 102
    then some (12, r)
    else if c == 110
    then some (10, r)
    else if c == 114
    then some (13, r)
    else if c == 116
    then some (9, r)
    else some (c, r)

-- Reads one escaped code unit.
unescape : Text → Option (ℕ × Text)
unescape [] = none
unescape (c ∷ r) = if c == 92 then unescape_tail r else some (c, r)

unescape-escape : (u : ℕ) (r : Text) → unescape (escape u ++ r) ≡ some (u, r)
unfolding unescape escape
unescape-escape u r = ground arith

abbrev closes : Text → Bool
closes [] = false
closes (c ∷ r) = c == 34

closes-escape : (u : ℕ) (r : Text) → closes (escape u ++ r) ≡ false
unfolding escape
closes-escape u r = ground arith

-- Two texts that begin with an escaped unit begin with the same one if they are equal.
escape_prefix : (u v : ℕ) (x y : Text) → escape u ++ x ≡ escape v ++ y → (u ≡ v) × (x ≡ y)
escape_prefix u v x y e = (
  cc (ap unescape e, unescape-escape u x, unescape-escape v y),
  cc (ap unescape e, unescape-escape u x, unescape-escape v y),
)

abbrev body : Text → Text → Text
body t r = escape_all t ++ 34 ∷ r

body-cons : (u : ℕ) (t r : Text) → body (u ∷ t) r ≡ escape u ++ body t r
unfolding escape_all
body-cons u t r = append_assoc (escape u) (escape_all t) (34 ∷ r)

closes-body : (u : ℕ) (t r : Text) → closes (body (u ∷ t) r) ≡ false
closes-body u t r = rw body-cons (closes-escape u (body t r))

closes_quote : (r : Text) → closes (body [] r) ≡ true
unfolding escape_all
closes_quote r = refl

body_prefix : (s t r q : Text) → body s r ≡ body t q → (s ≡ t) × (r ≡ q)
body_prefix [] [] r q e = unfold escape_all in (refl, cc)
body_prefix [] (v ∷ t) r q e = cc (ap closes e, closes-body v t q, closes_quote r)
body_prefix (u ∷ s) [] r q e = cc (ap closes e, closes-body u s r, closes_quote q)
body_prefix (u ∷ s) (v ∷ t) r q e =
    let (head, rest) =
      escape_prefix u v (body s r) (body t q) (sym (body-cons u s r) ∙ e ∙ body-cons v t q) in
    let (same, after) = body_prefix s t r q rest in (cc, after)

quote-append : (t r : Text) → quote t ++ r ≡ 34 ∷ body t r
unfolding quote
quote-append t r = ap (λ (x : Text). 34 ∷ x) (append_assoc (escape_all t) (34 ∷ []) r)

-- If two texts that begin with a quoted string are equal, the strings are equal and so are the
-- texts behind them.
pub quote_prefix : (s t r q : Text) → quote s ++ r ≡ quote t ++ q → (s ≡ t) × (r ≡ q)
quote_prefix s t r q e = body_prefix s t r q (cc (e, quote-append s r, quote-append t q))
