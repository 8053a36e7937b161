-- ===== src/Tests/Reopening.antt =====
-- A draft that is opened again.
use aurora_scholar.Prelude.{◌≡◌, some, [], ◌∷◌}
use aurora_scholar.Text.{units}
use aurora_scholar.JsMap.{get}
use aurora_scholar.Web.Draft.{
  SourcesJson, Storage, EditorDraft, blank, load_draft, save_draft, content_key, intuition_key,
  title_key,
}
use aurora_scholar.Web.Reopened.{kept_text, kept_sources, load-save_draft}

abbrev sources_json : SourcesJson
sources_json = record { stringify = λ sources. units "[]"; parse = λ text. some [] }

-- The title has been cleared since it was saved.
abbrev cleared : EditorDraft
cleared = record {
  content = units "text";
  declared_intuition = [];
  sources = [];
  article_title = [];
}

abbrev older : Storage
older = (title_key, units "Old title") ∷ []

load-save_draft_example :
    load_draft sources_json (save_draft sources_json cleared older) blank ≡ record {
      content = kept_text (units "text") (get content_key older);
      declared_intuition = kept_text [] (get intuition_key older);
      sources = kept_sources sources_json [];
      article_title = kept_text [] (get title_key older);
    }
load-save_draft_example = load-save_draft sources_json cleared older
