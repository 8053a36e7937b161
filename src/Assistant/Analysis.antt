-- ===== src/Assistant/Analysis.antt =====
-- The hardening of an analysis: analyzeText of apps/api/src/controllers/ai-assistant.controller.ts, from
-- the model's parsed data on.
use aurora_scholar.Prelude.{
  Bool, not, List, [], ◌∷◌, ◌++◌, map, select, if◌then◌else◌, ◌==◌, list_eq, nat_eq, ℕ,
}
use aurora_scholar.Text.{Text, units, join}
use aurora_scholar.Canonical.{Value, str, arr, obj, Items, nil, cons, Fields, end, field}
use aurora_scholar.Canonical.Messages.{text_field}
use aurora_scholar.Json.{stringify}
use aurora_scholar.Assistant.{truncate, detect_ghostwriting, GhostwritingGate, Level}

pub record Suggestion : Type 0 where
  pub id : Text
  pub type : Text
  pub text : Text
  pub priority : Text

-- `AnalyzeResponseSchema`
pub record Analysis : Type 0 where
  pub suggestions : List Suggestion
  pub corrections : Items
  pub references : Items
  pub warnings : List Text
  pub authenticity_alerts : List Text

unfoldable pub shorten : Suggestion → Suggestion
shorten s = record s { text = truncate s.text 500 }

-- `safeData`
unfoldable pub safe_data : Analysis → Analysis
unfolding shorten
safe_data a = record a { suggestions = map shorten a.suggestions }

abbrev texts : List Text → Items
texts [] = nil
texts (t ∷ ts) = cons (str t) (texts ts)

abbrev suggestion_value : Suggestion → Value
suggestion_value s = obj (
    text_field "id" s.id
      (text_field "type" s.type (text_field "text" s.text (text_field "priority" s.priority end))))

abbrev suggestion_values : List Suggestion → Items
suggestion_values [] = nil
suggestion_values (s ∷ ss) = cons (suggestion_value s) (suggestion_values ss)

abbrev pub analysis_fields : Analysis → Fields
analysis_fields a = field (units "suggestions") (arr (suggestion_values a.suggestions)) (
    field (units "corrections") (arr a.corrections) (
      field (units "references") (arr a.references) (
        field (units "warnings") (arr (texts a.warnings))
          (field (units "authenticityAlerts") (arr (texts a.authenticity_alerts)) end))))

-- `combinedText`
abbrev pub combined_text : Analysis → Text
combined_text a = stringify (obj (analysis_fields a))

abbrev differs : Text → Text → Bool
differs t u = not (t == u)

-- `Array.from(new Set(texts))`: the first of equal texts stays.
unfoldable pub unique : List Text → List Text
unique [] = []
unique (t ∷ ts) = t ∷ select (differs t) (unique ts)

-- `hardened`
abbrev pub hardened_by : GhostwritingGate → Analysis → Analysis
hardened_by gate a =
    if gate.blocked
    then record a {
      authenticity_alerts = unique (
          a.authenticity_alerts
          ++ units "Resposta do modelo parecia texto final; foi bloqueada automaticamente." ∷ []);
      suggestions = [];
      warnings =
          unique
            (a.warnings ++ (units "Anti-ghostwriting: " ++ join (units "; ") gate.reasons) ∷ []);
    }
    else a

pub record AnalysisAnswer : Type 0 where
  pub analysis : Analysis
  pub blocked : Bool
  pub level : Level
  pub reasons : List Text
  pub timestamp : ℕ

-- What is sent of the parsed data.
unfoldable pub harden_analysis : Analysis → (now : ℕ) → AnalysisAnswer
harden_analysis data_found now =
    let safe = safe_data data_found in
    let gate = detect_ghostwriting (combined_text safe) in
    record {
      analysis = hardened_by gate safe;
      blocked = gate.blocked;
      level = gate.level;
      reasons = gate.reasons;
      timestamp = now;
    }
