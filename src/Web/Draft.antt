-- ===== src/Web/Draft.antt =====
-- The draft that the editor keeps in the browser: the effects of apps/web/src/app/editor/page.tsx over
-- `localStorage`. The JSON of the declared sources is a parameter.
use aurora_scholar.Prelude.{Option, none, some, List, [], ◌∷◌, nat_eq, list_eq}
use aurora_scholar.Text.{Text, units}
use aurora_scholar.JsMap.{JsMap, get, set, delete}
use aurora_scholar.Web.Sources.{Source}

-- `JSON.stringify` of the sources, and `JSON.parse`; `none`: it throws.
pub record SourcesJson : Type 0 where
  pub stringify : List Source → Text
  pub parse : Text → Option (List Source)

abbrev pub Storage : Type 0
Storage = JsMap Text

-- The state of the page that it saves.
pub record EditorDraft : Type 0 where
  pub content : Text
  pub declared_intuition : Text
  pub sources : List Source
  pub article_title : Text

-- The state of a page that has just been opened.
abbrev pub blank : EditorDraft
blank = record { content = []; declared_intuition = []; sources = []; article_title = [] }

abbrev pub content_key : Text
content_key = units "aurora-editor-content"

abbrev pub intuition_key : Text
intuition_key = units "aurora-editor-intuition"

abbrev pub sources_key : Text
sources_key = units "aurora-editor-sources"

abbrev pub title_key : Text
title_key = units "aurora-editor-title"

-- `if (saved) setText(saved)`
abbrev pub restored : Option Text → Text → Text
restored none old = old
restored (some []) old = old
restored (some (u ∷ t)) old = u ∷ t

-- `if (text) localStorage.setItem(key, text)`
unfoldable pub save_text : (key : Text) → Text → Storage → Storage
save_text key [] m = m
save_text key (u ∷ t) m = set key (u ∷ t) m

module _ (j : SourcesJson) where
  abbrev pub parsed : List Source → Option (List Source) → List Source
  parsed old none = old
  parsed old (some sources) = sources

  abbrev pub restored_sources : Option Text → List Source → List Source
  restored_sources none old = old
  restored_sources (some []) old = old
  restored_sources (some (u ∷ t)) old = parsed old (j.parse (u ∷ t))

  -- The effect that runs once, when the page is opened.
  unfoldable pub load_draft : Storage → EditorDraft → EditorDraft
  load_draft m d = record {
    content = restored (get content_key m) d.content;
    declared_intuition = restored (get intuition_key m) d.declared_intuition;
    sources = restored_sources (get sources_key m) d.sources;
    article_title = restored (get title_key m) d.article_title;
  }

  unfoldable pub save_sources : List Source → Storage → Storage
  save_sources [] m = delete sources_key m
  save_sources (s ∷ ss) m = set sources_key (j.stringify (s ∷ ss)) m

  -- The four effects that save: the content is written last, a second after it has changed.
  unfoldable pub save_draft : EditorDraft → Storage → Storage
  save_draft d m = save_text content_key d.content (
      save_text title_key d.article_title
        (save_sources d.sources (save_text intuition_key d.declared_intuition m)))
