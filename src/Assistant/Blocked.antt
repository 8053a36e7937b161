-- ===== src/Assistant/Blocked.antt =====
-- That the gate blocks every analysis whose JSON is longer than a paragraph may be.
use aurora_scholar.Prelude.{
  ℕ, zero, suc, ◌≤◌, ◌<◌, ◌≡◌, ◌≢◌, refl, ap, ◌∙◌, Bool, true, false, ◌||◌, ◌&&◌, Option, none,
  some, List, [], ◌∷◌, ◌++◌, map, length, All, All-append, arith, if◌then◌else◌, ◌==◌, list_eq,
  nat_eq, select, beq_ne,
}
use aurora_scholar.Text.{Text, join, is_space}
use aurora_scholar.Canonical.{
  Value, null, bool, num, str, arr, obj, Items, nil, cons, Fields, end, field,
}
use aurora_scholar.Canonical.Inline.{IsInline, quote-IsInline, digits-IsInline, join-IsInline}
use aurora_scholar.Json.{stringify, item_texts, member_texts}
use aurora_scholar.Regex.{
  Place, ends, Piece, kept, first_end, piece_at, pieces_from, pieces, parted, split, test,
}
use aurora_scholar.Assistant.{
  trim, trim_start, trim_end, is_nonempty, paragraph_break, paragraphs, some_longer, written,
  looks_like_final_text, reasons_of, detect_ghostwriting, GhostwritingGate,
}
use aurora_scholar.Assistant.Analysis.{
  Analysis, safe_data, combined_text, analysis_fields, harden_analysis, hardened_by,
}

four : (a b c d : ℕ) → a ≢ 10 → b ≢ 10 → c ≢ 10 → d ≢ 10 → All IsInline (a ∷ b ∷ c ∷ d ∷ [])
four a b c d ha hb hc hd = (ha, (hb, (hc, (hd, tt))))

bracketed :
    (o c : ℕ) (ts : List Text)
    → o ≢ 10
    → c ≢ 10
    → All (λ t. All IsInline t) ts
    → All IsInline (o ∷ (join (44 ∷ []) ts ++ c ∷ []))
bracketed o c ts ho hc h = (
  ho,
  All-append IsInline (join (44 ∷ []) ts) (c ∷ [])
      (join-IsInline (44 ∷ []) ts ((λ e. omega (arith, e)), tt) h) (hc, tt),
)

mutual
  unfolding stringify

  stringify-IsInline : (v : Value) → All IsInline (stringify v)
  stringify-IsInline null =
      four 110 117 108 108 (λ e. omega (arith, e)) (λ e. omega (arith, e)) (λ e. omega (arith, e))
        (λ e. omega (arith, e))
  stringify-IsInline (bool true) =
      four 116 114 117 101 (λ e. omega (arith, e)) (λ e. omega (arith, e)) (λ e. omega (arith, e))
        (λ e. omega (arith, e))
  stringify-IsInline (bool false) = (
    (λ e. omega (arith, e)),
    four 97 108 115 101 (λ e. omega (arith, e)) (λ e. omega (arith, e)) (λ e. omega (arith, e))
        (λ e. omega (arith, e)),
  )
  stringify-IsInline (num n) = digits-IsInline n
  stringify-IsInline (str t) = quote-IsInline t
  stringify-IsInline (arr xs) =
      bracketed 91 93 _ (λ e. omega (arith, e)) (λ e. omega (arith, e)) (item_texts-IsInline xs)
  stringify-IsInline (obj fs) =
      bracketed 123 125 _ (λ e. omega (arith, e)) (λ e. omega (arith, e)) (member_texts-IsInline fs)

  item_texts-IsInline : (xs : Items) → All (λ t. All IsInline t) (item_texts xs)
  item_texts-IsInline nil = tt
  item_texts-IsInline (cons v xs) = (stringify-IsInline v, item_texts-IsInline xs)

  member_texts-IsInline : (fs : Fields) → All (λ t. All IsInline t) (member_texts fs)
  member_texts-IsInline end = tt
  member_texts-IsInline (field k v fs) = (
    All-append IsInline _ _ (quote-IsInline k) ((λ e. omega (arith, e)), stringify-IsInline v),
    member_texts-IsInline fs,
  )

-- A text of one line is its only paragraph.
no_break : (b : Option ℕ) (u : ℕ) (t : Text) → u ≢ 10 → ends paragraph_break (b, u ∷ t) ≡ []
unfolding ends
no_break b u t h = let other : (10 == u) ≡ false = ground arith in rw other refl

piece_at-none :
    (u : ℕ) (t : Text) (next : List Piece) (behind : Place → List Piece) (ps : List Place)
    → ps ≡ []
    → piece_at u t next behind (first_end ps) ≡ kept u ∷ next
piece_at-none u t next behind ps h = rw h refl

inline_kept :
    (t : Text) (n : ℕ) (b : Option ℕ)
    → length t ≤ n
    → All IsInline t
    → pieces_from paragraph_break n b t ≡ map kept t
unfolding pieces_from
inline_kept [] zero b h inline = refl
inline_kept [] (suc n) b h inline = refl
inline_kept (u ∷ t) zero b h inline = absurd (omega (arith, h))
inline_kept (u ∷ t) (suc n) b h (hu, inline) =
    piece_at-none u t _ _ _ (no_break b u t hu)
    ∙ ap (λ ps. kept u ∷ ps) (inline_kept t n (some u) (omega (arith, h)) inline)

parted-kept : (t : Text) → parted (map kept t) ≡ t ∷ []
parted-kept [] = refl
parted-kept (u ∷ t) = rw (parted-kept t)

split-inline : (t : Text) → All IsInline t → split paragraph_break t ≡ t ∷ []
unfolding split pieces
split-inline t inline = rw (inline_kept t (length t) none (omega arith) inline) (parted-kept t)

unspaced : (x y : Bool) (s t : Text) → y ≡ false → (if x && y then s else t) ≡ t
unspaced true y s t h = rw h refl
unspaced false y s t h = refl

-- Nothing is trimmed of a text that starts and ends with a brace.
trim_end-brace : (t : Text) → trim_end (t ++ 125 ∷ []) ≡ t ++ 125 ∷ []
unfolding trim_end
trim_end-brace [] = refl
trim_end-brace (u ∷ t) =
    let more : ((t ++ 125 ∷ []) == []) ≡ false = beq_ne (t ++ 125 ∷ []) [] (append_ne t) in
    rw (trim_end-brace t) (unspaced (is_space u) _ _ _ more)
  where
    append_ne : (t : Text) → t ++ 125 ∷ [] ≢ []
    append_ne [] e = cc
    append_ne (v ∷ t) e = cc

trim-object : (t : Text) → trim (123 ∷ (t ++ 125 ∷ [])) ≡ 123 ∷ (t ++ 125 ∷ [])
unfolding trim trim_start
trim-object t = trim_end-brace (123 ∷ t)

-- A text of one line that is trimmed and longer than a paragraph may be looks final.
or_true : (x y z : Bool) → y ≡ true → (x || y || z) ≡ true
or_true true y z h = refl
or_true false y z h = rw h refl

long_line :
    (t : Text) → trim t ≡ t → All IsInline t → 450 < length t → looks_like_final_text t ≡ true
unfolding looks_like_final_text paragraphs some_longer
long_line [] trimmed inline h = absurd (omega (arith, h))
long_line (u ∷ t) trimmed inline h =
    let one_part : select is_nonempty (split paragraph_break (u ∷ t)) ≡ (u ∷ t) ∷ [] =
      rw (split-inline (u ∷ t) inline) refl in
    let there : ((u ∷ t) == []) ≡ false = beq_ne (u ∷ t) [] (λ e. cc) in
    let longer : some_longer 450 ((u ∷ t) ∷ []) ≡ true = ground arith in
    rw (trimmed, there, one_part)
      (or_true (test written (u ∷ t)) (some_longer 450 ((u ∷ t) ∷ [])) _ longer)

detect_ghostwriting-blocks :
    (t : Text)
    → t ≢ []
    → trim t ≡ t
    → looks_like_final_text t ≡ true
    → (detect_ghostwriting t).blocked ≡ true
unfolding detect_ghostwriting reasons_of
detect_ghostwriting-blocks t some_text trimmed final =
    rw (trimmed, beq_ne t [] some_text, final) refl

hardened_by-blocked :
    (gate : GhostwritingGate) (a : Analysis)
    → gate.blocked ≡ true
    → (hardened_by gate a).suggestions ≡ []
hardened_by-blocked gate a h = rw h refl

combined-trimmed : (a : Analysis) → trim (combined_text a) ≡ combined_text a
unfolding stringify
combined-trimmed a = trim-object (join (44 ∷ []) (member_texts (analysis_fields a)))

combined-there : (a : Analysis) → combined_text a ≢ []
unfolding stringify
combined-there a e = cc

-- An analysis whose JSON has more than 450 units is taken for a final text, since its JSON is one
-- line: it is answered as blocked, without any of its suggestions.
pub harden_analysis-blocks :
    (a : Analysis) (now : ℕ)
    → 450 < length (combined_text (safe_data a))
    → ((harden_analysis a now).blocked ≡ true) × ((harden_analysis a now).analysis.suggestions ≡ [])
unfolding harden_analysis
harden_analysis-blocks a now h =
    let safe = safe_data a in
    let trimmed = combined-trimmed safe in
    let final =
      long_line (combined_text safe) trimmed (stringify-IsInline (obj (analysis_fields safe))) h in
    let blocked =
      detect_ghostwriting-blocks (combined_text safe) (combined-there safe) trimmed final in
    (blocked, hardened_by-blocked (detect_ghostwriting (combined_text safe)) safe blocked)
