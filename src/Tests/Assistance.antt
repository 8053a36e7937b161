-- ===== src/Tests/Assistance.antt =====
-- The assistant with a model that answers one text.
use aurora_scholar.Prelude.{
  ◌≡◌, ◌<◌, refl, true, false, none, some, [], ◌∷◌, length, ltb→lt, list_beq, ℕ,
}
use aurora_scholar.Text.{units}
use aurora_scholar.Http.{ok, ◌>>=◌}
use aurora_scholar.Canonical.{arr, obj, nil, cons, end, field, quote, escape, escape_all}
use aurora_scholar.Canonical.Messages.{text_field}
use aurora_scholar.Json.{stringify, string_of}
use aurora_scholar.Regex.{ends, count, pieces, test, split}
use aurora_scholar.Assistant.{
  trim, truncate, none_level, looks_like_final_text, paragraphs, some_longer, reasons_of,
  detect_ghostwriting,
}
use aurora_scholar.Assistant.Gemini.{
  Gemini, GeminiReply, gemini_generate_text, get_gemini_api_key, read_gemini,
}
use aurora_scholar.Assistant.Sources.{Web}
use aurora_scholar.Assistant.Chat.{ChatBody, ChatAnswer, chat}
use aurora_scholar.Assistant.Bounds.{IsAnswered, chat_sound}
use aurora_scholar.Assistant.Analysis.{
  Analysis, Suggestion, safe_data, combined_text, harden_analysis,
}
use aurora_scholar.Assistant.Blocked.{harden_analysis-blocks}
use aurora_scholar.Tests.World.{copies}

abbrev model_reply : GeminiReply
model_reply = record {
  status = 200;
  json = some (
      obj (
        field (units "candidates")
          (arr (
            cons
              (obj (
                field (units "content")
                  (obj (
                    field (units "parts")
                      (arr (cons (obj (text_field "text" (units " Why? ") end)) nil)) end))
                  end))
              nil))
          end));
}

abbrev gemini : Gemini
gemini = record {
  api_key = some (units "k");
  model = none;
  encode_uri = λ t. t;
  fetch = λ url body. some model_reply;
}

abbrev nowhere : Web
nowhere = λ url. none

abbrev question : ChatBody
question = record {
  question = some (units "Is this clear?");
  text = none;
  sources = none;
  chat_history = none;
  locale = some (units "en");
}

abbrev answer : ChatAnswer
answer = record {
  answer = units "Why?";
  blocked = false;
  level = none_level;
  reasons = [];
  timestamp = 9;
}

chat_run : chat gemini nowhere {S = ℕ} question none 9 7 ≡ (ok answer, 7)
unfolding string_of chat gemini_generate_text get_gemini_api_key read_gemini detect_ghostwriting
    reasons_of looks_like_final_text paragraphs some_longer trim count test split pieces ends
    list_beq ◌>>=◌
chat_run = refl

chat_sound_example : IsAnswered gemini nowhere {S = ℕ} question none 7 7 answer
chat_sound_example = chat_sound gemini nowhere question none 9 7 7 answer chat_run

abbrev suggestion : Suggestion
suggestion = record {
  id = units "1";
  type = units "clarity";
  text = copies 460 97;
  priority = units "high";
}

abbrev analysis : Analysis
analysis = record {
  suggestions = suggestion ∷ [];
  corrections = nil;
  references = nil;
  warnings = [];
  authenticity_alerts = [];
}

long : 450 < length (combined_text (safe_data analysis))
unfolding safe_data truncate stringify quote escape_all escape
long = ltb→lt 450 _ refl

harden_analysis-blocks_example :
    ((harden_analysis analysis 9).blocked ≡ true)
    × ((harden_analysis analysis 9).analysis.suggestions ≡ [])
harden_analysis-blocks_example = harden_analysis-blocks analysis 9 long
