-- ===== src/Assistant/Bounds.antt =====
-- What an answer of the chat can be.
use aurora_scholar.Prelude.{
  ℕ, ◌≤◌, ◌<◌, ◌≡◌, ◌⊎◌, inl, inr, refl, Bool, true, false, ◌||◌, Option, none, some, List, [], ◌∷◌,
  String, length, All, ltb, arith, ◌==◌, list_eq, nat_eq, Bool-cases, truthy,
}
use aurora_scholar.Text.{Text, units}
use aurora_scholar.Http.{ok}
use aurora_scholar.Http.Inversion.{need-bind, bind-ok, pure-ok}
use aurora_scholar.Regex.{test, count, split}
use aurora_scholar.Assistant.{
  trim, paragraphs, some_longer, looks_like_final_text, reasons_of, gate_of, pushed, signs_of,
  safe_text, GhostwritingGate, detect_ghostwriting, sentence_end, written,
}
use aurora_scholar.Assistant.Gemini.{Gemini, Params, gemini_generate_text}
use aurora_scholar.Assistant.Sources.{Web}
use aurora_scholar.Assistant.Chat.{
  ChatBody, ChatAnswer, chat, chat_prompt, is_portuguese, system_prompt,
}

-- A text that may be shown: none of the signs of a final text that can be counted.
pub record IsShort (a : Text) : Type 0 where
  pub total : length a ≤ 1600
  pub by_paragraph : All (λ p. length p ≤ 450) (paragraphs (trim a))
  pub by_sentence : count sentence_end (trim a) < 6

pushed-nil : (tests : List (Bool × String)) → pushed tests ≡ [] → All (λ t. t.0 ≡ false) tests
pushed-nil [] h = tt
pushed-nil ((true, reason) ∷ tests) h = cc
pushed-nil ((false, reason) ∷ tests) h = (refl, pushed-nil tests h)

-- No reason to block: the text does not look final, and is not too long.
reasons_of-nil :
    (a : Text)
    → reasons_of a ≡ []
    → (looks_like_final_text a ≡ false) × (ltb 1600 (length a) ≡ false)
unfolding reasons_of
reasons_of-nil a h =
    let signs : All (λ t. t.0 ≡ false) (signs_of a) = pushed-nil (signs_of a) h in
    (signs.0, signs.1.1.1.1.1.1.0)

some_longer-false :
    (limit : ℕ) (ps : List Text) → some_longer limit ps ≡ false → All (λ p. length p ≤ limit) ps
unfolding some_longer
some_longer-false limit [] h = tt
some_longer-false limit (p ∷ ps) h = (ground arith, some_longer-false limit ps (ground arith))

or_false : (x y z : Bool) → (x || y || z) ≡ false → (y ≡ false) × (z ≡ false)
or_false true y z h = cc
or_false false true z h = cc
or_false false false z h = (refl, h)

nothing : (All (λ p. length p ≤ 450) (paragraphs [])) × (count sentence_end [] < 6)
unfolding paragraphs count split
nothing = (tt, omega arith)

looks_short :
    (a : Text)
    → looks_like_final_text a ≡ false
    → (All (λ p. length p ≤ 450) (paragraphs (trim a))) × (count sentence_end (trim a) < 6)
unfolding looks_like_final_text
looks_short a h = elim (Bool-cases (trim a == [])) [
  | inl blank ↦ let gone = (list_eq.beq_iff (trim a) []).0 blank in rw gone nothing
  | inr there ↦
      let (long, many) = or_false (test written (trim a)) _ _ (rw there at h) in
      (some_longer-false 450 (paragraphs (trim a)) long, ground arith)
]

IsShort-nil : IsShort []
unfolding paragraphs count split trim
IsShort-nil = record { total = omega arith; by_paragraph = tt; by_sentence = omega arith }

-- How the gate answers.
pub record IsGated (a : Text) (gate : GhostwritingGate) : Type 0 where
  pub outcome :
      ((gate.blocked ≡ true) × (gate.safe_answer ≡ safe_text))
      ⊎ ((gate.blocked ≡ false) × (gate.safe_answer ≡ trim a) × IsShort (trim a))

gate_of-IsGated :
    (a : Text) (rs : List Text) → reasons_of (trim a) ≡ rs → IsGated a (gate_of (trim a) rs)
gate_of-IsGated a [] h =
    let (final, long) = reasons_of-nil (trim a) h in
    let (by_paragraph, by_sentence) = looks_short (trim a) final in
    record {
      outcome = inr (
        refl,
        refl,
        record { total = ground arith; by_paragraph = by_paragraph; by_sentence = by_sentence },
      );
    }
gate_of-IsGated a (r ∷ rs) h = record { outcome = inl (refl, refl) }

-- The gate blocks an answer and puts the fixed text in its place, or lets it through trimmed, and then
-- it has at most 1,600 units, no paragraph of more than 450 and fewer than six sentences.
pub detect_ghostwriting-IsGated : (a : Text) → IsGated a (detect_ghostwriting a)
unfolding detect_ghostwriting
detect_ghostwriting-IsGated a = elim (Bool-cases (trim a == [])) [
  | inl blank ↦
      let gone = (list_eq.beq_iff (trim a) []).0 blank in
      rw blank (record { outcome = inr (refl, rw gone refl, rw gone IsShort-nil) })
  | inr there ↦ rw there (gate_of-IsGated a (reasons_of (trim a)) refl)
]

module _ (g : Gemini) (web : Web) {S : Type 0} where
  -- What stands behind an answer of the chat.
  pub record IsAnswered (body : ChatBody) (header : Option Text) (s s' : S) (r : ChatAnswer)
      : Type 0 where
    pub question : Text
    pub given : truthy body.question ≡ some question
    pub params : Params
    pub asked : params.user ≡ chat_prompt web (is_portuguese body.locale header) question body
    pub model_text : Text
    pub generated : gemini_generate_text g params s ≡ (ok model_text, s')
    pub outcome :
        ((r.blocked ≡ true) × (r.answer ≡ safe_text))
        ⊎ ((r.blocked ≡ false) × (r.answer ≡ trim model_text) × IsShort (trim model_text))

  -- If the chat answers then a question was given and the model was asked with it, and what is sent is
  -- either the fixed refusal or the trimmed text of the model, which then is short: at most 1,600
  -- units, no paragraph of more than 450, fewer than six sentences.
  pub chat_sound :
      (body : ChatBody) (header : Option Text) (now : ℕ) (s s' : S) (r : ChatAnswer)
      → chat g web body header now s ≡ (ok r, s')
      → IsAnswered body header s s' r
  unfolding chat
  chat_sound body header now s s' r h = need-bind _ _ _ _ h λ question given e.
      bind-ok _ _ s e λ model_text s1 generated e.
        let (same, kept) = pure-ok _ _ e in
        rw (← same, ← kept)
          (record {
            question = question;
            given = given;
            params = record {
              system = system_prompt (is_portuguese body.locale header);
              user = chat_prompt web (is_portuguese body.locale header) question body;
              temperature = some (units "0.3");
              max_output_tokens = some 1024;
              response_mime_type = none;
            };
            asked = refl;
            model_text = model_text;
            generated = generated;
            outcome = (detect_ghostwriting-IsGated model_text).outcome;
          })
