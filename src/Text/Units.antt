-- ===== src/Text/Units.antt =====
-- A string is determined by its code units.
use Prim.Native.Char.{Char, char, code}
use text.Mathlib.TextEquality.{Char-path}
use aurora_scholar.Prelude.{
  ℕ, ◌+◌, ◌-◌, ◌*◌, ◌<◌, ◌≡◌, ◌⊎◌, ◌≢◌, refl, sym, ap, ap₂, Option, none, some, [], ◌∷◌, ◌++◌,
  String, if◌then◌else◌, arith,
}
use aurora_scholar.Text.{Text, units, encode_point, is_high}

abbrev IsPoint : ℕ → Type 0
IsPoint n = (n < 0xd800) ⊎ ((0xdfff < n) × (n < 0x110000))

code-IsPoint : (c : Char) → IsPoint (code c)
code-IsPoint (char n h) = ground arith

abbrev decode_pair : ℕ → Text → Option (ℕ × Text)
decode_pair u [] = none
decode_pair u (v ∷ t) = some (0x10000 + (u - 0xd800) * 0x400 + (v - 0xdc00), t)

abbrev decode_point : Text → Option (ℕ × Text)
decode_point [] = none
decode_point (u ∷ t) = if is_high u then decode_pair u t else some (u, t)

decode-encode : (n : ℕ) (t : Text) → IsPoint n → decode_point (encode_point n ++ t) ≡ some (n, t)
decode-encode n t h = ground arith

encode_prefix :
    (m n : ℕ) (x y : Text)
    → IsPoint m
    → IsPoint n
    → encode_point m ++ x ≡ encode_point n ++ y
    → (m ≡ n) × (x ≡ y)
encode_prefix m n x y p q e = (
  cc (ap decode_point e, decode-encode m x p, decode-encode n y q),
  cc (ap decode_point e, decode-encode m x p, decode-encode n y q),
)

encode-ne-nil : (n : ℕ) (t : Text) → IsPoint n → encode_point n ++ t ≢ []
encode-ne-nil n t h e = cc (ap decode_point e, decode-encode n t h)

-- Strings with the same code units are equal.
pub units_injective : (s t : String) → units s ≡ units t → s ≡ t
units_injective String.[] String.[] e = refl
units_injective String.[] (String.◌∷◌ d t) e =
    absurd (encode-ne-nil (code d) (units t) (code-IsPoint d) (sym e))
units_injective (String.◌∷◌ c s) String.[] e =
    absurd (encode-ne-nil (code c) (units s) (code-IsPoint c) e)
units_injective (String.◌∷◌ c s) (String.◌∷◌ d t) e =
    let (same, rest) =
      encode_prefix (code c) (code d) (units s) (units t) (code-IsPoint c) (code-IsPoint d) e in
    ap₂ String.◌∷◌ (Char-path c d same) (units_injective s t rest)
