-- ===== src/Assistant.antt =====
-- The assistant's gate against ghostwriting: detectGhostwriting of
-- apps/api/src/controllers/ai-assistant.controller.ts, with the texts it cuts.
pub mod Gemini
pub mod Sources
pub mod Chat
pub mod Analysis
pub mod Bounds
pub mod Blocked
use aurora_scholar.Prelude.{
  ℕ, ◌+◌, Bool, true, false, not, ◌&&◌, ◌||◌, List, [], ◌∷◌, ◌++◌, String, ltb, leb, length, take,
  select, if◌then◌else◌, ◌==◌, nat_eq, list_eq, Option, none, some,
}
use aurora_scholar.Text.{Text, units, is_space, join}
use aurora_scholar.Regex.{
  Regex, one, seq, alt, empty, many, few, text_start, line_start, word_edge, count, test, split,
  word, word_ci, words_ci, some_of, space, anything, word_unit, digit,
}

unfoldable pub trim_end : Text → Text
trim_end [] = []
trim_end (u ∷ t) = let rest = trim_end t in if is_space u && rest == [] then [] else u ∷ rest

unfoldable pub trim_start : Text → Text
trim_start [] = []
trim_start (u ∷ t) = let rest = trim_start t in if is_space u then rest else u ∷ t

-- `text.trim()`
unfoldable pub trim : Text → Text
unfolding trim_end trim_start
trim t = trim_end (trim_start t)

unfoldable pub truncate : Text → ℕ → Text
truncate s limit = if ltb limit (length s) then take limit s ++ units "…" else s

-- `/\n\s*\n/`
abbrev pub paragraph_break : Regex
paragraph_break = seq (word "\n") (seq (many space) (word "\n"))

-- `/[.!?]\s/`
abbrev pub sentence_end : Regex
sentence_end = seq (one (λ u. u == 46 || u == 33 || u == 63)) space

-- The three alternatives of `explicitlyWrites`.
abbrev pub written : Regex
written = alt (seq (word_ci "aqui ") (words_ci "está" ("está um" ∷ []))) (
    alt
      (seq (word_ci "here") (
        seq (words_ci " is" ("’s" ∷ [])) (
          seq (word_ci " ") (
            seq (words_ci "a" ("the" ∷ []))
              (seq (word_ci " ") (words_ci "paragraph" ("introduction" ∷ "section" ∷ [])))))))
      (seq (word_ci "segue ") (
        seq (words_ci "uma" ("o" ∷ []))
          (seq (word_ci " ") (words_ci "introdução" ("parágrafo" ∷ []))))))

abbrev pub is_nonempty : Text → Bool
is_nonempty [] = false
is_nonempty (u ∷ t) = true

-- `.some((p) => p.length > 450)`
unfoldable pub some_longer : ℕ → List Text → Bool
some_longer limit [] = false
some_longer limit (p ∷ ps) = let rest = some_longer limit ps in ltb limit (length p) || rest

-- `a.split(/\n\s*\n/).filter(Boolean)`
unfoldable pub paragraphs : Text → List Text
paragraphs a = select is_nonempty (split paragraph_break a)

unfoldable pub looks_like_final_text : Text → Bool
unfolding some_longer paragraphs
looks_like_final_text answer =
    let a = trim answer in
    if a == []
    then false
    else test written a || some_longer 450 (paragraphs a) || leb 6 (count sentence_end a)

-- `/^(\s*)(introdução|conclus(ão|ao)|resumo|abstract|metodologia|refer(ê|e)ncias)\b/i`
abbrev section_start : Regex
section_start = seq text_start (
    seq (many space) (
      seq
        (alt (word_ci "introdução") (
          alt (seq (word_ci "conclus") (words_ci "ão" ("ao" ∷ []))) (
            alt (words_ci "resumo" ("abstract" ∷ "metodologia" ∷ []))
              (seq (word_ci "refer") (seq (words_ci "ê" ("e" ∷ [])) (word_ci "ncias"))))))
        word_edge))

-- `/^\s*(#|##|\d+\.)\s+\w+/m`
abbrev heading : Regex
heading = seq line_start (
    seq (many space) (
      seq (alt (word "#") (alt (word "##") (seq (some_of digit) (word "."))))
        (seq (some_of space) (some_of word_unit))))

-- `/```[\s\S]*?```/`
abbrev code_block : Regex
code_block = seq (word "```") (seq (few anything) (word "```"))

-- `/(aqui está|segue( abaixo)?|vou escrever|eu escrevi|here is|i wrote)/i`
abbrev delivered : Regex
delivered = alt (word_ci "aqui está") (
    alt (seq (word_ci "segue") (alt (word_ci " abaixo") empty))
      (words_ci "vou escrever" ("eu escrevi" ∷ "here is" ∷ "i wrote" ∷ [])))

pub data Level : Type 0 where
  none_level warn_level block_level : Level

pub record GhostwritingGate : Type 0 where
  pub blocked : Bool
  pub level : Level
  pub reasons : List Text
  pub safe_answer : Text

-- `if (test) reasons.push(reason)`, for each test.
abbrev pub pushed : List (Bool × String) → List Text
pushed [] = []
pushed ((true, reason) ∷ tests) = units reason ∷ pushed tests
pushed ((false, reason) ∷ tests) = pushed tests

abbrev pub signs_of : Text → List (Bool × String)
signs_of a =
    (looks_like_final_text a, "parece texto final (parágrafos longos / muitas frases)")
    ∷ (test section_start a, "estrutura típica de seção final (introdução/conclusão/etc)")
    ∷ (test heading a && ltb 900 (length a), "formatação de documento + tamanho alto")
    ∷ (leb 12 (count (word "\n") a) && ltb 1200 (length a), "muitas linhas + tamanho alto")
    ∷ (test code_block a && ltb 700 (length a), "bloco de texto/código longo")
    ∷ (test delivered a, "frase sugere entrega de texto pronto")
    ∷ (ltb 1600 (length a), "resposta muito longa")
    ∷ []

unfoldable pub reasons_of : Text → List Text
reasons_of a = pushed (signs_of a)

-- The lines of the answer that is sent in place of a blocked one.
abbrev pub safe_text : Text
safe_text = join (units "\n") (
    units "Eu não posso escrever o texto final por você."
    ∷ []
    ∷ units "Posso, porém, te ajudar sem ghostwriting:"
    ∷ units "- Checklist de estrutura (em tópicos)"
    ∷ units "- Perguntas-guia para você escrever com suas palavras"
    ∷ units "- Sugestões de clareza/coerência e pontos a citar com base nas fontes"
    ∷ []
    ∷ units "Para eu te orientar melhor, me diga:"
    ∷ units "1) Qual é a tese em 1 frase?"
    ∷ units "2) Qual seção você está escrevendo (introdução/metodologia/etc)?"
    ∷ units "3) Cole um parágrafo SEU (mesmo rascunho) e eu aponto melhorias sem reescrever."
    ∷ [])

abbrev pub gate_of : Text → List Text → GhostwritingGate
gate_of a [] = record { blocked = false; level = none_level; reasons = []; safe_answer = a }
gate_of a (r ∷ rs) = record {
  blocked = true;
  level = block_level;
  reasons = r ∷ rs;
  safe_answer = safe_text;
}

unfoldable pub detect_ghostwriting : Text → GhostwritingGate
detect_ghostwriting answer =
    let a = trim answer in
    if a == []
    then record { blocked = false; level = none_level; reasons = []; safe_answer = [] }
    else gate_of a (reasons_of a)
