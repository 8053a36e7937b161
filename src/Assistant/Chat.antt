-- ===== src/Assistant/Chat.antt =====
-- The assistant's chat: `chat` of apps/api/src/controllers/ai-assistant.controller.ts. The model's
-- answer passes the gate against ghostwriting before it is sent.
use aurora_scholar.Prelude.{
  ℕ, Bool, true, false, Option, none, some, List, [], ◌∷◌, ◌++◌, map, String, or_else, truthy,
  if◌then◌else◌, ◌==◌, nat_eq,
}
use aurora_scholar.Text.{Text, units, join, strip_prefix}
use aurora_scholar.Http.{Handler, create_error, pure, need, ◌>>=◌}
use aurora_scholar.Canonical.{Value}
use aurora_scholar.Assistant.{Level, detect_ghostwriting}
use aurora_scholar.Assistant.Gemini.{Gemini, gemini_generate_text}
use aurora_scholar.Assistant.Sources.{Web, build_sources_context, build_chat_history_context}

abbrev pub lines : List String → Text
lines ls = join (units "\n") (map units ls)

-- ETHICAL_SYSTEM_PROMPT, and its Portuguese text.
abbrev ethical_system_prompt : Text
ethical_system_prompt = lines (
    "You are Aurora Scholar's ethical academic assistant." ∷ "" ∷ "NON-NEGOTIABLE RULES:"
    ∷ "- NEVER write full paragraphs/sections for the user."
    ∷ "- NEVER produce \"final text\" that could be pasted as-is."
    ∷ "- You may ONLY provide: critiques, checklists, structure suggestions, questions, and small examples (<= 2 sentences) clearly marked as examples."
    ∷ "- If the user asks you to write content, refuse and instead guide them with steps/questions."
    ∷ "- Keep advice grounded in the user's provided text; do not invent facts or citations." ∷ ""
    ∷ "OUTPUT FORMAT:"
    ∷ "- For analysis endpoints: return STRICT JSON only (no markdown, no prose outside JSON)."
    ∷ [])

abbrev portuguese_system_prompt : Text
portuguese_system_prompt = lines (
    "Você é o assistente acadêmico ético da Aurora Scholar." ∷ "" ∷ "REGRAS NÃO NEGOCIÁVEIS:"
    ∷ "- NUNCA escreva parágrafos/seções completas para o usuário."
    ∷ "- NUNCA produza \"texto final\" que possa ser colado como está."
    ∷ "- Você pode APENAS fornecer: críticas, checklists, sugestões de estrutura, perguntas e pequenos exemplos (<= 2 frases) claramente marcados como exemplos."
    ∷ "- Se o usuário pedir para escrever conteúdo, recuse e oriente com passos/perguntas."
    ∷ "- Mantenha conselhos fundamentados no texto fornecido pelo usuário; não invente fatos ou citações."
    ∷ "" ∷ "TODAS as respostas devem estar em PORTUGUÊS BRASILEIRO." ∷ [])

pub record ChatBody : Type 0 where
  pub question : Option Text
  pub text : Option Text
  pub sources : Option Value
  pub chat_history : Option Value
  pub locale : Option Text

-- `text.split(separator)[0]`, for a separator of one unit.
unfoldable pub before_unit : ℕ → Text → Text
before_unit separator [] = []
before_unit separator (u ∷ t) = if u == separator then [] else u ∷ before_unit separator t

abbrev header_language : Option Text → Option Text
header_language none = none
header_language (some header) = some (before_unit 45 (before_unit 44 header))

abbrev is_prefix : Option Text → Bool
is_prefix none = false
is_prefix (some rest) = true

-- `isPortuguese`, of the body's locale and the Accept-Language header.
unfoldable pub is_portuguese : Option Text → Option Text → Bool
unfolding before_unit
is_portuguese locale header =
    let user_locale = or_else locale (or_else (header_language header) (units "en")) in
    is_prefix (strip_prefix (units "pt") user_locale)

abbrev language_instruction : Bool → Text
language_instruction true =
    units "IMPORTANTE: Responda em PORTUGUÊS BRASILEIRO. Use termos acadêmicos em português."
language_instruction false = units "IMPORTANT: Respond in ENGLISH. Use academic terms in English."

abbrev language_name : Bool → Text
language_name true = units "PORTUGUÊS BRASILEIRO"
language_name false = units "ENGLISH"

abbrev pub system_prompt : Bool → Text
system_prompt true = portuguese_system_prompt
system_prompt false = ethical_system_prompt

abbrev text_or_nil : Option Text → Text
text_or_nil none = []
text_or_nil (some t) = t

unfoldable pub chat_prompt : Web → Bool → (question : Text) → ChatBody → Text
chat_prompt web portuguese question body =
    language_instruction portuguese
    ++ (units "\n\nLANGUAGE: "
        ++ (language_name portuguese
            ++ (units "\n\nUser question:\n"
                ++ (question
                    ++ (units "\n\nContext (draft excerpt):\n\"\"\""
                        ++ (text_or_nil body.text
                            ++ (units "\"\"\"\n"
                                ++ (build_sources_context web body.sources
                                    ++ (build_chat_history_context body.chat_history
                                        ++ lines (
                                            "" ∷ ""
                                            ∷ "Respond ethically per rules. Provide guidance, not final writing."
                                            ∷ "When making factual claims, cite sources inline using [1], [2], etc (only if supported by provided sources)."
                                            ∷ "Return your answer as plain text." ∷ []))))))))))

-- What is sent; `suggestions` and `references` are always empty.
pub record ChatAnswer : Type 0 where
  pub answer : Text
  pub blocked : Bool
  pub level : Level
  pub reasons : List Text
  pub timestamp : ℕ

module _ (g : Gemini) (web : Web) {S : Type 0} where
  unfoldable pub chat :
      ChatBody → (accept_language : Option Text) → (now : ℕ) → Handler S ChatAnswer
  chat body accept_language now = do
    let portuguese = is_portuguese body.locale accept_language
    question ← need (truthy body.question) (create_error "Question is required" 400)
    answer ← gemini_generate_text g (record {
      system = system_prompt portuguese;
      user = chat_prompt web portuguese question body;
      temperature = some (units "0.3");
      max_output_tokens = some 1024;
      response_mime_type = none;
    })
    let gate = detect_ghostwriting answer
    pure (record {
      answer = gate.safe_answer;
      blocked = gate.blocked;
      level = gate.level;
      reasons = gate.reasons;
      timestamp = now;
    })
