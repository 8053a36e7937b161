-- ===== src/Regex.antt =====
-- The regular expressions of JavaScript that the assistant uses: the first match by backtracking, as
-- it is tested for, counted, replaced and split at. No expression of the program matches the empty text.
use aurora_scholar.Prelude.{
  ℕ, zero, suc, ◌-◌, ◌+◌, Bool, true, false, not, ◌&&◌, ◌||◌, Option, none, some, List, [], ◌∷◌,
  ◌++◌, String, ltb, leb, if◌then◌else◌, ◌==◌, nat_eq, length, take,
}
use aurora_scholar.Text.{Text, units, is_space, is_line_end}

pub data Regex : Type 0 where
  one : (ℕ → Bool) → Regex
  seq alt : Regex → Regex → Regex
  empty : Regex
  -- `r*` and `r*?`
  many few : Regex → Regex
  -- `^`, `^` under the flag `m`, and `\b`
  text_start line_start word_edge : Regex

-- A place in a text: the unit in front of it, and the rest.
abbrev pub Place : Type 0
Place = Option ℕ × Text

abbrev is_word : ℕ → Bool
is_word u = leb 48 u && leb u 57 || leb 65 u && leb u 90 || leb 97 u && leb u 122 || u == 95

abbrev before_is_word : Option ℕ → Bool
before_is_word none = false
before_is_word (some u) = is_word u

abbrev next_is_word : Text → Bool
next_is_word [] = false
next_is_word (u ∷ t) = is_word u

abbrev after_line_end : Option ℕ → Bool
after_line_end none = true
after_line_end (some u) = is_line_end u

abbrev at_start : Option ℕ → Bool
at_start none = true
at_start (some u) = false

abbrev each : (Place → List Place) → List Place → List Place
each f [] = []
each f (p ∷ ps) = f p ++ each f ps

abbrev here_if : Bool → Place → List Place
here_if true p = p ∷ []
here_if false p = []

-- The places behind any number of rounds, the longest first or last; a round that reads nothing ends.
abbrev rounds : (Place → List Place) → (greedy : Bool) → ℕ → Place → List Place
rounds f greedy zero p = p ∷ []
rounds f greedy (suc n) p =
    let more =
      each (λ q. if ltb (length q.1) (length p.1) then rounds f greedy n q else []) (f p) in
    if greedy then more ++ p ∷ [] else p ∷ more

-- The places at which a match from a place can end, in the order in which they are tried.
unfoldable pub ends : Regex → Place → List Place
ends (one test) (b, []) = []
ends (one test) (b, u ∷ t) = here_if (test u) (some u, t)
ends (seq r s) p = each (ends s) (ends r p)
ends (alt r s) p = ends r p ++ ends s p
ends empty p = p ∷ []
ends (many r) p = rounds (ends r) true (suc (length p.1)) p
ends (few r) p = rounds (ends r) false (suc (length p.1)) p
ends text_start p = here_if (at_start p.0) p
ends line_start p = here_if (after_line_end p.0) p
ends word_edge p =
    let next = next_is_word p.1 in here_if (if before_is_word p.0 then not next else next) p

-- A text in pieces: units that no match covers, and matches.
pub data Piece : Type 0 where
  kept : ℕ → Piece
  found : Text → Piece

abbrev pub first_end : List Place → Option Place
first_end [] = none
first_end (p ∷ ps) = some p

-- The pieces from a unit on, by the end of the match that starts at it.
abbrev pub piece_at :
    ℕ → Text → (next : List Piece) → (Place → List Piece) → Option Place → List Piece
piece_at u t next behind none = kept u ∷ next
piece_at u t next behind (some p) = found (take (suc (length t) - length p.1) (u ∷ t)) ∷ behind p

unfoldable pub pieces_from : Regex → ℕ → Option ℕ → Text → List Piece
unfolding ends
pieces_from r zero b t = []
pieces_from r (suc n) b [] = []
pieces_from r (suc n) b (u ∷ t) =
    piece_at u t (pieces_from r n (some u) t) (λ p. pieces_from r n p.0 p.1)
      (first_end (ends r (b, u ∷ t)))

-- Each piece reads at least one unit, so that the length of the text is enough.
unfoldable pub pieces : Regex → Text → List Piece
unfolding pieces_from
pieces r t = pieces_from r (length t) none t

abbrev found_in : List Piece → ℕ
found_in [] = 0
found_in (kept u ∷ ps) = found_in ps
found_in (found t ∷ ps) = suc (found_in ps)

-- `(text.match(/r/g) || []).length`
unfoldable pub count : Regex → Text → ℕ
unfolding pieces
count r t = found_in (pieces r t)

-- `/r/.test(text)`
unfoldable pub test : Regex → Text → Bool
unfolding count
test r t = ltb 0 (count r t)

abbrev replaced : Text → List Piece → Text
replaced new [] = []
replaced new (kept u ∷ ps) = u ∷ replaced new ps
replaced new (found t ∷ ps) = new ++ replaced new ps

-- `text.replace(/r/g, new)`
unfoldable pub replace : Regex → Text → Text → Text
unfolding pieces
replace r new t = replaced new (pieces r t)

abbrev into_first : ℕ → List Text → List Text
into_first u [] = (u ∷ []) ∷ []
into_first u (w ∷ ws) = (u ∷ w) ∷ ws

abbrev pub parted : List Piece → List Text
parted [] = [] ∷ []
parted (kept u ∷ ps) = into_first u (parted ps)
parted (found t ∷ ps) = [] ∷ parted ps

-- `text.split(/r/)`
unfoldable pub split : Regex → Text → List Text
unfolding pieces
split r t = parted (pieces r t)

-- Building expressions.
abbrev pub plain : Text → Regex
plain [] = empty
plain (u ∷ t) = seq (one (λ v. u == v)) (plain t)

-- What the flag `i` takes for one letter: among the letters of the program's expressions.
abbrev fold_case : ℕ → ℕ
fold_case u =
    if leb 65 u && leb u 90
    then u + 32
    else if leb 0xc0 u && leb u 0xde && not (u == 0xd7)
    then u + 32
    else u

abbrev plain_ci : Text → Regex
plain_ci [] = empty
plain_ci (u ∷ t) = seq (one (λ v. fold_case u == fold_case v)) (plain_ci t)

abbrev pub word : String → Regex
word s = plain (units s)

abbrev pub word_ci : String → Regex
word_ci s = plain_ci (units s)

-- `(a|b|…)` of texts.
abbrev pub words_ci : String → List String → Regex
words_ci s [] = word_ci s
words_ci s (t ∷ ts) = alt (word_ci s) (words_ci t ts)

abbrev pub some_of : Regex → Regex
some_of r = seq r (many r)

abbrev pub space : Regex
space = one is_space

abbrev pub anything : Regex
anything = one (λ u. true)

abbrev pub word_unit : Regex
word_unit = one is_word

abbrev pub digit : Regex
digit = one (λ u. leb 48 u && leb u 57)
