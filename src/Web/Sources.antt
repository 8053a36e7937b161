-- ===== src/Web/Sources.antt =====
-- The declared sources of an article: the handlers of
-- apps/web/src/components/editor/DeclaredSources.tsx over the list that apps/web/src/app/editor/page.tsx
-- keeps. The translated messages of `alert` are arguments.
use aurora_scholar.Prelude.{
  ℕ, suc, Bool, true, false, not, ◌&&◌, ◌||◌, Option, none, some, List, [], ◌∷◌, ◌++◌,
  if◌then◌else◌, ◌==◌, nat_eq, list_eq, take, select, length, ltb,
}
use aurora_scholar.Text.{Text, units, is_space, strip_prefix, includes}
use aurora_scholar.Canonical.{digits}

pub data SourceType : Type 0 where
  pdf link video audio text_source : SourceType

pub record Source : Type 0 where
  pub id : Text
  pub type : SourceType
  pub name : Text
  pub url : Option Text
  pub text : Option Text
  -- The id of the file object in the browser.
  pub file : Option ℕ
  pub uploaded : Bool

pub data ModalStep : Type 0 where
  main_step link_step youtube_step text_step : ModalStep

-- The state of the list's dialog, and the sources of the page behind it.
pub record Sources : Type 0 where
  pub sources : List Source
  pub show_add_modal : Bool
  pub modal_step : ModalStep
  pub link_url : Text
  pub link_urls : Text
  pub pasted_text : Text
  -- What `alert` has shown, newest first.
  pub alerts : List Text

-- `text.trim()` is not empty.
unfoldable pub has_text : Text → Bool
has_text [] = false
has_text (u ∷ t) = not (is_space u) || has_text t

abbrev cons_first : ℕ → List Text → List Text
cons_first u [] = (u ∷ []) ∷ []
cons_first u (w ∷ ws) = (u ∷ w) ∷ ws

-- The words of `split(/[\n\s]+/)`; between two spaces of one run stands an empty word, which the
-- test of the length takes out. No word has a space to trim.
unfoldable pub split_spaces : Text → List Text
split_spaces [] = [] ∷ []
split_spaces (u ∷ t) =
    let rest = split_spaces t in if is_space u then [] ∷ rest else cons_first u rest

abbrev found : Option Text → Bool
found none = false
found (some rest) = true

unfoldable pub is_url : Text → Bool
is_url url =
    ltb 0 (length url)
    && (found (strip_prefix (units "http://") url) || found (strip_prefix (units "https://") url))

-- `handleAddSource` and `handleRemoveSource` of the page.
unfoldable pub add_source : Source → List Source → List Source
add_source source sources = sources ++ source ∷ []

abbrev is_other : Text → Source → Bool
is_other id s = not (s.id == id)

unfoldable pub remove_source : Text → List Source → List Source
remove_source id sources = select (is_other id) sources

abbrev alerted : Text → Sources → Sources
alerted message s = record s { alerts = message ∷ s.alerts }

-- `{label} é obrigatório`
abbrev required : Text → Text
required label = label ++ units " é obrigatório"

-- `${Date.now()}-${index}`
abbrev pub link_id : ℕ → ℕ → Text
link_id now index = digits now ++ (45 ∷ digits index)

unfoldable pub link_source : (now index : ℕ) → Text → Source
link_source now index url = record {
  id = link_id now index;
  type = link;
  name = url;
  url = some url;
  text = none;
  file = none;
  uploaded = false;
}

-- `urls.forEach(…)`, from an index on; `now` is the clock at each of them.
unfoldable pub add_links : (now : ℕ → ℕ) (index : ℕ) → List Text → List Source → List Source
add_links now index [] sources = sources
add_links now index (url ∷ urls) sources =
    add_links now (suc index) urls (add_source (link_source (now index) index url) sources)

unfoldable pub handle_add_multiple_links : (label : Text) (now : ℕ → ℕ) → Sources → Sources
handle_add_multiple_links label now s =
    let urls = select is_url (split_spaces s.link_urls) in
    if not (has_text s.link_urls)
    then alerted (required label) s
    else if length urls == 0
    then alerted (units "Por favor, forneça URLs válidas") s
    else record s {
      sources = add_links now 0 urls s.sources;
      link_urls = [];
      modal_step = main_step;
      show_add_modal = false;
    }

unfoldable pub handle_add_youtube : (label : Text) (now : ℕ) → Sources → Sources
handle_add_youtube label now s =
    if not (has_text s.link_url) then alerted (required label) s else record s {
      sources =
          add_source
            (record {
              id = digits now;
              type = video;
              name = units "YouTube: " ++ s.link_url;
              url = some s.link_url;
              text = none;
              file = none;
              uploaded = false;
            })
            s.sources;
      link_url = [];
      modal_step = main_step;
      show_add_modal = false;
    }

-- `Text: ` and at most fifty units of the text.
unfoldable pub text_name : Text → Text
text_name t = units "Text: " ++ (take 50 t ++ (if ltb 50 (length t) then units "..." else []))

unfoldable pub handle_add_text : (label : Text) (now : ℕ) → Sources → Sources
handle_add_text label now s =
    if not (has_text s.pasted_text) then alerted (required label) s else record s {
      sources =
          add_source
            (record {
              id = digits now;
              type = text_source;
              name = text_name s.pasted_text;
              url = none;
              text = some s.pasted_text;
              file = none;
              uploaded = false;
            })
            s.sources;
      pasted_text = [];
      modal_step = main_step;
      show_add_modal = false;
    }

-- A file of the browser: its MIME type and its name, under an id.
pub record File : Type 0 where
  pub id : ℕ
  pub type : Text
  pub name : Text

unfoldable pub file_type : Text → SourceType
file_type mime =
    if includes (units "pdf") mime
    then pdf
    else if includes (units "video") mime
    then video
    else if includes (units "audio") mime
    then audio
    else text_source

unfoldable pub file_source : ℕ → File → Source
file_source now f = record {
  id = digits now ++ (45 ∷ f.name);
  type = file_type f.type;
  name = f.name;
  url = none;
  text = none;
  file = some f.id;
  uploaded = false;
}

unfoldable pub add_files : (now : ℕ) → List File → List Source → List Source
add_files now [] sources = sources
add_files now (f ∷ fs) sources = add_files now fs (add_source (file_source now f) sources)

-- `files` is null or a list; `now` is the clock, which stands still during the loop.
unfoldable pub handle_file_upload : (now : ℕ) → Option (List File) → Sources → Sources
handle_file_upload now none s = s
handle_file_upload now (some []) s = s
handle_file_upload now (some (f ∷ fs)) s = record s {
  sources = add_files now (f ∷ fs) s.sources;
  show_add_modal = false;
}
