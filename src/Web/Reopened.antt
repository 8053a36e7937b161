-- ===== src/Web/Reopened.antt =====
-- What a page shows of the draft that an earlier page has saved.
use aurora_scholar.Prelude.{
  ◌≡◌, refl, ap, Option, none, some, List, [], ◌∷◌, arith, ◌==◌, list_beq, list_beq_iff, nat_eq,
  list_eq, false, ◌≢◌,
}
use aurora_scholar.Text.{Text}
use aurora_scholar.JsMap.{get, delete, get-set_same, get-set_other, get-delete}
use aurora_scholar.Web.Sources.{Source}
use aurora_scholar.Web.Draft.{
  SourcesJson, Storage, EditorDraft, blank, restored, restored_sources, save_text, save_sources,
  save_draft, load_draft, content_key, intuition_key, sources_key, title_key,
}

-- The text that is saved over an older one: an empty text leaves the older one.
unfoldable pub kept_text : Text → Option Text → Text
kept_text [] old = restored old []
kept_text (u ∷ t) old = u ∷ t

differ : (x y : Text) → (x == y) ≡ false → x ≢ y
differ x y h e = ground (arith, list_beq_iff x y)

restored-save_text :
    (key text : Text) (m : Storage)
    → restored (get key (save_text key text m)) [] ≡ kept_text text (get key m)
unfolding save_text kept_text
restored-save_text key [] m = refl
restored-save_text key (u ∷ t) m = ap (λ o. restored o []) (get-set_same key (u ∷ t) m)

get-save_text :
    (key other text : Text) (m : Storage)
    → other ≢ key
    → get other (save_text key text m) ≡ get other m
unfolding save_text
get-save_text key other [] m apart = refl
get-save_text key other (u ∷ t) m apart = get-set_other key other (u ∷ t) m apart

module _ (j : SourcesJson) where
  get-save_sources :
      (other : Text) (ss : List Source) (m : Storage)
      → other ≢ sources_key
      → get other (save_sources j ss m) ≡ get other m
  unfolding save_sources
  get-save_sources other [] m apart =
      ground (arith, get-delete sources_key other m, list_beq_iff sources_key other)
  get-save_sources other (s ∷ ss) m apart =
      get-set_other sources_key other (j.stringify (s ∷ ss)) m apart

  -- What a page restores of the sources that were saved.
  unfoldable pub kept_sources : List Source → List Source
  kept_sources [] = []
  kept_sources (s ∷ ss) = restored_sources j (some (j.stringify (s ∷ ss))) []

  restored-save_sources :
      (ss : List Source) (m : Storage)
      → restored_sources j (get sources_key (save_sources j ss m)) [] ≡ kept_sources ss
  unfolding save_sources kept_sources
  restored-save_sources [] m =
      let gone : get sources_key (delete sources_key m) ≡ none =
        ground
          (arith, get-delete sources_key sources_key m, list_beq_iff sources_key sources_key) in
      ap (λ o. restored_sources j o []) gone
  restored-save_sources (s ∷ ss) m =
      ap (λ o. restored_sources j o []) (get-set_same sources_key (j.stringify (s ∷ ss)) m)

  -- A page that is opened after the draft was saved over an older one shows the sources that the JSON
  -- of the saved ones gives, none if there were none; each text that was not empty as it was; and in
  -- place of a text that was empty, the older one that the storage still has.
  pub load-save_draft :
      (d : EditorDraft) (m : Storage)
      → load_draft j (save_draft j d m) blank ≡ record {
        content = kept_text d.content (get content_key m);
        declared_intuition = kept_text d.declared_intuition (get intuition_key m);
        sources = kept_sources d.sources;
        article_title = kept_text d.article_title (get title_key m);
      }
  unfolding load_draft save_draft list_beq
  load-save_draft d m =
      let m1 = save_text intuition_key d.declared_intuition m in
      let m2 = save_sources j d.sources m1 in
      let m3 = save_text title_key d.article_title m2 in
      let m4 = save_text content_key d.content m3 in
      let content : restored (get content_key m4) [] ≡ kept_text d.content (get content_key m) =
        rw
          (
            restored-save_text content_key d.content m3,
            get-save_text title_key content_key d.article_title m2 (differ _ _ refl),
            get-save_sources content_key d.sources m1 (differ _ _ refl),
            get-save_text intuition_key content_key d.declared_intuition m (differ _ _ refl),
          )
          refl in
      let intuition : restored (get intuition_key m4) []
          ≡ kept_text d.declared_intuition (get intuition_key m) =
        rw
          (
            get-save_text content_key intuition_key d.content m3 (differ _ _ refl),
            get-save_text title_key intuition_key d.article_title m2 (differ _ _ refl),
            get-save_sources intuition_key d.sources m1 (differ _ _ refl),
          )
          (restored-save_text intuition_key d.declared_intuition m) in
      let sources : restored_sources j (get sources_key m4) [] ≡ kept_sources d.sources =
        rw
          (
            get-save_text content_key sources_key d.content m3 (differ _ _ refl),
            get-save_text title_key sources_key d.article_title m2 (differ _ _ refl),
          )
          (restored-save_sources d.sources m1) in
      let title : restored (get title_key m4) [] ≡ kept_text d.article_title (get title_key m) =
        rw
          (
            get-save_text content_key title_key d.content m3 (differ _ _ refl),
            restored-save_text title_key d.article_title m2,
            get-save_sources title_key d.sources m1 (differ _ _ refl),
            get-save_text intuition_key title_key d.declared_intuition m (differ _ _ refl),
          )
          refl in
      rw (content, intuition, sources, title) refl
