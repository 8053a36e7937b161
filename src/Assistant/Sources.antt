-- ===== src/Assistant/Sources.antt =====
-- What the assistant is told of the declared sources and the chat: normalizeSources,
-- buildSourcesContext, buildChatHistoryContext and fetchUrlText with stripHtmlToText, of
-- apps/api/src/controllers/ai-assistant.controller.ts. A page of the web is a function of its address.
use aurora_scholar.Prelude.{
  ℕ, suc, ◌-◌, Bool, false, not, ◌||◌, ◌&&◌, Option, none, some, List, [], ◌∷◌, ◌++◌, map, or_else,
  if◌then◌else◌, ltb, leb, take, drop, length, select, ◌==◌, list_eq, nat_eq,
}
use aurora_scholar.Text.{Text, units, join}
use aurora_scholar.Canonical.{
  Value, null, bool, num, str, arr, obj, Items, nil, cons, Fields, digits,
}
use aurora_scholar.Json.{text_at}
use aurora_scholar.Regex.{
  Regex, one, seq, alt, empty, few, text_start, replace, test, word, word_ci, words_ci, some_of,
  anything, space, digit,
}
use aurora_scholar.Assistant.{trim, truncate}

pub record DeclaredSource : Type 0 where
  pub type : Option Text
  pub name : Option Text
  pub url : Option Text
  pub text : Option Text

abbrev source_of : Fields → DeclaredSource
source_of o = record {
  type = text_at "type" o;
  name = text_at "name" o;
  url = text_at "url" o;
  text = text_at "text" o;
}

-- An array is an object without these members.
abbrev no_source : DeclaredSource
no_source = record { type = none; name = none; url = none; text = none }

abbrev source_list : Items → List DeclaredSource
source_list nil = []
source_list (cons null xs) = source_list xs
source_list (cons (bool x) xs) = source_list xs
source_list (cons (num n) xs) = source_list xs
source_list (cons (str t) xs) = source_list xs
source_list (cons (arr ys) xs) = no_source ∷ source_list xs
source_list (cons (obj fs) xs) = source_of fs ∷ source_list xs

abbrev items_of : Option Value → Items
items_of none = nil
items_of (some null) = nil
items_of (some (bool x)) = nil
items_of (some (num n)) = nil
items_of (some (str t)) = nil
items_of (some (arr xs)) = xs
items_of (some (obj fs)) = nil

unfoldable pub normalize_sources : Option Value → List DeclaredSource
normalize_sources raw = source_list (items_of raw)

-- The expressions of stripHtmlToText, in their order, each with what replaces its matches.
abbrev script_element : Regex
script_element = seq (word_ci "<script") (seq (few anything) (word_ci "</script>"))

abbrev style_element : Regex
style_element = seq (word_ci "<style") (seq (few anything) (word_ci "</style>"))

abbrev block_end : Regex
block_end = seq (word_ci "</") (
    seq
      (alt (words_ci "p" ("div" ∷ []))
        (alt (seq (word_ci "h") digit) (words_ci "li" ("br" ∷ "tr" ∷ []))))
      (word_ci ">"))

abbrev tag : Regex
tag = seq (word "<") (seq (some_of (one (λ u. not (u == 62)))) (word ">"))

abbrev blank : Regex
blank = one (λ u. u == 32 || u == 9)

unfoldable pub strip_html_to_text : Text → Text
strip_html_to_text html =
    let h1 = replace script_element (units " ") html in
    let h2 = replace style_element (units " ") h1 in
    let h3 = replace block_end (units "\n") h2 in
    let h4 = replace tag (units " ") h3 in
    let h5 = replace (word "&nbsp;") (units " ") h4 in
    let h6 = replace (word "&amp;") (units "&") h5 in
    let h7 = replace (word "&lt;") (units "<") h6 in
    let h8 = replace (word "&gt;") (units ">") h7 in
    let h9 = replace (word "&#39;") (units "'") h8 in
    let h10 = replace (word "&quot;") (units "\"") h9 in
    let h11 = replace (seq (some_of space) (word "\n")) (units "\n") h10 in
    let h12 = replace (seq (word "\n\n") (some_of (word "\n"))) (units "\n\n") h11 in
    let h13 = replace (seq blank (some_of blank)) (units " ") h12 in trim h13

-- What a request to a page of the web brings: its status, its content type, the bytes' number and
-- their text; for JSON, the text that is made of it.
pub record WebPage : Type 0 where
  pub status : ℕ
  pub content_type : Option Text
  pub size : ℕ
  pub raw : Text
  -- `none`: the text is no JSON; else `j` itself if it is a text, or `JSON.stringify(j)`.
  pub json_text : Option Text

abbrev pub Web : Type 0
Web = Text → Option WebPage

abbrev http_url : Regex
http_url = seq text_start (seq (word_ci "http") (seq (alt (word_ci "s") empty) (word_ci "://")))

abbrev text_type : Regex
text_type = words_ci "text/html" ("text/plain" ∷ "application/json" ∷ [])

unfoldable pub page_text : WebPage → Option Text
unfolding strip_html_to_text
page_text p =
    let ct = or_else p.content_type [] in
    if not (leb 200 p.status && leb p.status 299)
    then none
    else if not (test text_type ct)
    then none
    else if ltb 200000 p.size
    then none
    else if test (word_ci "application/json") ct
    then some (or_raw p.json_text p.raw)
    else if test (word_ci "text/html") ct
    then some (strip_html_to_text p.raw)
    else some (trim p.raw)
  where
    or_raw : Option Text → Text → Text
    or_raw none raw = raw
    or_raw (some t) raw = t

abbrev page_text_of : Option WebPage → Option Text
page_text_of none = none
page_text_of (some p) = page_text p

-- A page that cannot be had within eight seconds is missing.
unfoldable pub fetch_url_text : Web → Text → Option Text
fetch_url_text web url = let u = trim url in if test http_url u then page_text_of (web u) else none

abbrev pub has_text : Option Text → Bool
has_text none = false
has_text (some t) = not (t == [])

abbrev trimmed : Option Text → Text
trimmed none = []
trimmed (some t) = trim t

-- `/^(link|video)$/i`
abbrev is_link : Option Text → Bool
is_link none = false
is_link (some t) =
    (length t == 4 && test (seq text_start (word_ci "link")) t)
    || (length t == 5 && test (seq text_start (word_ci "video")) t)

abbrev with_fetched : DeclaredSource → Option Text → DeclaredSource
with_fetched s none = s
with_fetched s (some []) = s
with_fetched s (some (u ∷ t)) = record s { text = some (u ∷ t) }

unfoldable pub hydrate : Web → DeclaredSource → DeclaredSource
unfolding fetch_url_text
hydrate web s =
    if not (trimmed s.text == [])
    then s
    else if has_text s.url && is_link s.type
    then with_fetched s (fetch_url_text web (or_else s.url []))
    else s

abbrev nonempty : Text → Bool
nonempty t = not (t == [])

abbrev url_line : Option Text → Text
url_line none = []
url_line (some t) = if t == [] then [] else units "URL: " ++ t

abbrev excerpt_line : Option Text → Text
excerpt_line none = []
excerpt_line (some t) = if t == [] then [] else units "EXCERPT: " ++ truncate (trim t) 1200

abbrev note_line : DeclaredSource → Text → Text
note_line s text =
    if or_else s.type [] == units "pdf"
    then units
        "NOTE: PDF content not parsed yet (MVP). Para grounding, use \"Paste Text\" ou cole trechos relevantes."
    else if text == [] && has_text s.url
    then units "NOTE: Não consegui importar o texto desta URL (paywall/anti-bot/limit)."
    else []

-- One source, with its number.
unfoldable pub source_lines : ℕ → DeclaredSource → Text
source_lines n s =
    let head =
      units "["
      ++ (digits n
          ++ (units "] "
              ++ (or_else s.type (units "source")
                  ++ (units ": " ++ or_else s.name (or_else s.url (units "(unnamed)")))))) in
    let text = excerpt_line s.text in
    join (units "\n") (select nonempty (head ∷ url_line s.url ∷ text ∷ note_line s text ∷ []))

abbrev numbered : ℕ → List DeclaredSource → List Text
numbered n [] = []
numbered n (s ∷ ss) = source_lines n s ∷ numbered (suc n) ss

-- The sources that are told, at most twelve.
unfoldable pub told_sources : Web → Option Value → List Text
told_sources web sources = numbered 1 (map (hydrate web) (take 12 (normalize_sources sources)))

abbrev sources_text : List Text → Text
sources_text [] = []
sources_text (l ∷ ls) =
    units "\n\nSOURCES PROVIDED BY USER (use ONLY these; do not invent citations):\n"
    ++ (join (units "\n\n") (l ∷ ls) ++ units "\n")

unfoldable pub build_sources_context : Web → Option Value → Text
build_sources_context web sources = sources_text (told_sources web sources)

pub record ChatHistoryItem : Type 0 where
  pub role : Text
  pub content : Text

abbrev item_of : Option Text → Option Text → List ChatHistoryItem → List ChatHistoryItem
item_of none content rest = rest
item_of (some role) none rest = rest
item_of (some role) (some content) rest = record { role = role; content = content } ∷ rest

-- The items with a role and a content that are texts.
unfoldable pub history_items : Items → List ChatHistoryItem
history_items nil = []
history_items (cons null xs) = history_items xs
history_items (cons (bool x) xs) = history_items xs
history_items (cons (num n) xs) = history_items xs
history_items (cons (str t) xs) = history_items xs
history_items (cons (arr ys) xs) = history_items xs
history_items (cons (obj fs) xs) =
    item_of (text_at "role" fs) (text_at "content" fs) (history_items xs)

unfoldable pub history_line : ChatHistoryItem → Text
history_line m =
    (if m.role == units "assistant" then units "assistant" else units "user")
    ++ (units ": " ++ truncate (trim m.content) 500)

-- `slice(-8)`
abbrev last_eight : List ChatHistoryItem → List ChatHistoryItem
last_eight items = drop (length items - 8) items

abbrev history_text : List Text → Text
history_text [] = []
history_text (l ∷ ls) =
    units "\n\nCHAT HISTORY (most recent last):\n" ++ (join (units "\n") (l ∷ ls) ++ units "\n")

unfoldable pub build_chat_history_context : Option Value → Text
unfolding history_items
build_chat_history_context chat_history =
    history_text (map history_line (last_eight (history_items (items_of chat_history))))
