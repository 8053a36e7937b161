-- ===== src/Text.antt =====
-- JavaScript strings where the program walks them: lists of UTF-16 code units.
pub mod Units
use Prim.Native.Char.{code}
use aurora_scholar.Prelude.{
  true, false, ℕ, ◌+◌, ◌-◌, ◌*◌, ◌/◌, ◌%◌, String, Bool, ◌&&◌, ◌||◌, ◌==◌, nat_eq, Option, none,
  some, List, [], ◌∷◌, ◌++◌, ltb, leb, if◌then◌else◌,
}

abbrev pub Text : Type 0
Text = List ℕ

-- One code point as one or two code units.
abbrev encode_point : ℕ → Text
encode_point c =
    if ltb c 0x10000
    then c ∷ []
    else (0xd800 + (c - 0x10000) / 0x400) ∷ (0xdc00 + (c - 0x10000) % 0x400) ∷ []

abbrev pub units : String → Text
units String.[] = []
units (String.◌∷◌ c s) = encode_point (code c) ++ units s

-- `parts.join(separator)`
abbrev pub join : Text → List Text → Text
join separator [] = []
join separator (t ∷ []) = t
join separator (t ∷ u ∷ ts) = t ++ (separator ++ join separator (u ∷ ts))

abbrev is_high : ℕ → Bool
is_high u = leb 0xd800 u && ltb u 0xdc00

abbrev is_low : ℕ → Bool
is_low u = leb 0xdc00 u && ltb u 0xe000

-- The bytes of one code unit that stands alone; a surrogate becomes U+FFFD.
encode_unit : ℕ → List ℕ
encode_unit u =
    if ltb u 0x80
    then u ∷ []
    else if ltb u 0x800
    then (0xc0 + u / 0x40) ∷ (0x80 + u % 0x40) ∷ []
    else if is_high u
    then 0xef ∷ 0xbf ∷ 0xbd ∷ []
    else if is_low u
    then 0xef ∷ 0xbf ∷ 0xbd ∷ []
    else (0xe0 + u / 0x1000) ∷ (0x80 + u / 0x40 % 0x40) ∷ (0x80 + u % 0x40) ∷ []

encode_four : ℕ → List ℕ
encode_four c =
    (0xf0 + c / 0x40000)
    ∷ (0x80 + c / 0x1000 % 0x40)
    ∷ (0x80 + c / 0x40 % 0x40)
    ∷ (0x80 + c % 0x40)
    ∷ []

-- `new TextEncoder().encode(text)`
unfoldable pub utf8 : Text → List ℕ
unfolding encode_unit encode_four
utf8 [] = []
utf8 (u ∷ []) = encode_unit u
utf8 (u ∷ v ∷ t) =
    let pair = encode_four (0x10000 + (u - 0xd800) * 0x400 + (v - 0xdc00)) ++ utf8 t in
    let alone = encode_unit u ++ utf8 (v ∷ t) in if is_high u && is_low v then pair else alone

-- What `\s` matches in a regular expression, and what `trim` takes off.
abbrev pub is_space : ℕ → Bool
is_space u =
    leb 9 u && leb u 13
    || u == 32
    || u == 0xa0
    || u == 0x1680
    || leb 0x2000 u && leb u 0x200a
    || u == 0x2028
    || u == 0x2029
    || u == 0x202f
    || u == 0x205f
    || u == 0x3000
    || u == 0xfeff

-- What `.` does not match.
abbrev pub is_line_end : ℕ → Bool
is_line_end u = u == 10 || u == 13 || u == 0x2028 || u == 0x2029

-- `text.startsWith(prefix)`, with the text behind the prefix.
unfoldable pub strip_prefix : Text → Text → Option Text
strip_prefix [] t = some t
strip_prefix (u ∷ p) [] = none
strip_prefix (u ∷ p) (v ∷ t) = if u == v then strip_prefix p t else none

abbrev pub to_lower : ℕ → ℕ
to_lower u = if leb 65 u && leb u 90 then u + 32 else u

-- The same under the flag `i`; `prefix` is in lower case, ASCII, without `k` and `s`.
unfoldable pub strip_prefix_ci : Text → Text → Option Text
strip_prefix_ci [] t = some t
strip_prefix_ci (u ∷ p) [] = none
strip_prefix_ci (u ∷ p) (v ∷ t) = if u == to_lower v then strip_prefix_ci p t else none

-- The longest beginning of units that pass the test, and the rest.
unfoldable pub span : (ℕ → Bool) → Text → Text × Text
span test [] = ([], [])
span test (u ∷ t) = let (a, b) = span test t in if test u then (u ∷ a, b) else ([], u ∷ t)

-- `text.includes(part)`
unfoldable pub includes : Text → Text → Bool
includes part [] = elim (strip_prefix part []) [ none ↦ false | some t ↦ true ]
includes part (u ∷ t) =
    let rest = includes part t in elim (strip_prefix part (u ∷ t)) [ none ↦ rest | some t' ↦ true ]
