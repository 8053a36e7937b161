-- ===== src/Assistant/Gemini.antt =====
-- The call of the language model: apps/api/src/services/gemini.service.ts. The network is a function
-- of the address and the body; `encodeURIComponent` is a parameter, and console output is left out.
use aurora_scholar.Prelude.{
  ℕ, Bool, ◌||◌, Option, none, some, List, [], ◌∷◌, ◌++◌, String, or_else, truthy, if◌then◌else◌,
  leb, ◌&&◌, ◌==◌, list_eq, nat_eq,
}
use aurora_scholar.Text.{Text, units, join, includes}
use aurora_scholar.Http.{
  Handler, create_error, create_error_text, plain_error, pure, throw, need, throw_if, ◌>>=◌, ◌>>◌,
}
use aurora_scholar.Canonical.{Value, null, bool, num, str, arr, obj, Items, nil, cons, end, digits}
use aurora_scholar.Json.{prop, given, string_or, string_of}
use aurora_scholar.Assistant.{trim}

-- `temperature` is a decimal fraction, kept as the text of the number.
pub record Params : Type 0 where
  pub system : Text
  pub user : Text
  pub temperature : Option Text
  pub max_output_tokens : Option ℕ
  pub response_mime_type : Option Text

-- The body of the request, whose JSON is sent.
pub record GeminiBody : Type 0 where
  pub system_instruction : Text
  pub contents : Text
  pub temperature : Text
  pub max_output_tokens : ℕ
  pub response_mime_type : Option Text

-- The answer; `none` where the text is no JSON.
pub record GeminiReply : Type 0 where
  pub status : ℕ
  pub json : Option Value

-- GEMINI_API_KEY and GEMINI_MODEL, and the network; `none`: `fetch` is rejected.
pub record Gemini : Type 0 where
  pub api_key : Option Text
  pub model : Option Text
  pub encode_uri : Text → Text
  pub fetch : Text → GeminiBody → Option GeminiReply

abbrev default {ℓ} : {A : Type ℓ} → Option A → A → A
default none a = a
default (some b) a = b

unfoldable pub gemini_body : Params → GeminiBody
gemini_body p = record {
  system_instruction = p.system;
  contents = p.user;
  temperature = default p.temperature (units "0.3");
  max_output_tokens = default p.max_output_tokens 1024;
  response_mime_type = truthy p.response_mime_type;
}

abbrev first_item : Value → Option Value
first_item null = none
first_item (bool x) = none
first_item (num n) = none
first_item (str t) = none
first_item (arr nil) = none
first_item (arr (cons v xs)) = some v
first_item (obj fs) = none

abbrev first_of : Option Value → Option Value
first_of none = none
first_of (some v) = first_item v

-- `p.text || ''` of each part, joined.
abbrev part_texts : Items → Text
part_texts nil = []
part_texts (cons v xs) = string_or (prop "text" (some v)) [] ++ part_texts xs

-- `parts?.map(…).join('')`, for a list of parts; what is no list counts as missing.
abbrev parts_text : Option Value → Text
parts_text none = []
parts_text (some null) = []
parts_text (some (bool x)) = []
parts_text (some (num n)) = []
parts_text (some (str t)) = []
parts_text (some (arr xs)) = part_texts xs
parts_text (some (obj fs)) = []

-- `{label}{value}` of a truthy value.
abbrev labelled : String → Option Value → List Text
labelled label none = []
labelled label (some v) = (units label ++ string_of v) ∷ []

-- The message where no text came back.
unfoldable pub no_text_message : Option Value → Text
no_text_message json = join (units " ") (
    units "Gemini returned no text"
    ∷ (labelled "blockReason=" (given (prop "blockReason" (prop "promptFeedback" json)))
        ++ labelled "finishReason="
            (given (prop "finishReason" (first_of (prop "candidates" json))))))

abbrev is_fine : ℕ → Bool
is_fine status = leb 200 status && leb status 299

unfoldable pub names_length : Text → Bool
names_length msg =
    includes (units "MAX_TOKENS") msg
    || includes (units "token") msg
    || includes (units "length") msg

abbrev or_empty : Option Value → Value
or_empty none = obj end
or_empty (some v) = v

unfoldable pub gemini_url : Gemini → Text → Text
gemini_url g key =
    units "https://generativelanguage.googleapis.com/v1beta/models/"
    ++ (g.encode_uri (or_else g.model (units "gemini-1.5-pro-latest"))
        ++ (units ":generateContent?key=" ++ g.encode_uri key))

module _ (g : Gemini) {S : Type 0} where
  unfoldable pub get_gemini_api_key : Handler S Text
  get_gemini_api_key = need (truthy g.api_key) (create_error "GEMINI_API_KEY is not configured" 500)

  -- What an answer with an error status throws.
  unfoldable pub throw_gemini : ℕ → Value → Handler S Text
  throw_gemini status json =
      let msg =
        string_or (prop "message" (prop "error" (some json)))
          (units "Gemini API error (HTTP " ++ (digits status ++ units ")")) in
      if names_length msg
      then throw (
          create_error
            "Response exceeds maximum length. Please try with shorter input or reduce maxOutputTokens."
            400)
      else throw (create_error_text msg 502)

  unfoldable pub read_gemini : Value → Handler S Text
  read_gemini json = do
    let candidate = first_of (prop "candidates" (some json))
    let text = parts_text (prop "parts" (prop "content" candidate))
    throw_if (trim text == []) (create_error_text (no_text_message (some json)) 502)
    pure (trim text)

  unfoldable pub gemini_generate_text : Params → Handler S Text
  gemini_generate_text p = do
    key ← get_gemini_api_key
    res ← need (g.fetch (gemini_url g key) (gemini_body p)) (plain_error "fetch failed")
    let json = or_empty res.json
    if is_fine res.status then read_gemini json else throw_gemini res.status json
