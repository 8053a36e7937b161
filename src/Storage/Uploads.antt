-- ===== src/Storage/Uploads.antt =====
-- What an upload that succeeds has done.
use aurora_scholar.Prelude.{ℕ, ◌≡◌, Option, none, some}
use aurora_scholar.Text.{Text}
use aurora_scholar.Http.{ok, ◌>>=◌}
use aurora_scholar.Http.Inversion.{need-bind, bind-ok}
use aurora_scholar.External.{Irys, Receipt, receipt, failed, Dates}
use aurora_scholar.Storage.{
  Upload, article_data, upload_tags, connected, get_irys, sent, upload_article,
}

module _ (irys : Irys) {S : Type 0} where
  connected-keeps : (e : Option Text) (s s' : S) → connected irys e s ≡ (ok tt, s') → s ≡ s'
  unfolding ◌>>=◌
  connected-keeps none s s' h = cc
  connected-keeps (some message) s s' h = cc

  sent-ok :
      (r : Receipt) (id : Text) (s s' : S)
      → sent irys r s ≡ (ok id, s')
      → (r ≡ receipt id) × (s ≡ s')
  unfolding ◌>>=◌
  sent-ok (receipt id') id s s' h = (cc, cc)
  sent-ok (failed message) id s s' h = cc

  -- The id is that of the transaction with exactly this data, and nothing else changes.
  pub upload_article-ok :
      (dates : Dates) (private_key : Option Text) (u : Upload) (now : ℕ) (id : Text) (s s' : S)
      → upload_article irys dates private_key u now s ≡ (ok id, s')
      → (irys.upload (article_data u (dates.to_iso_string now)) (upload_tags u.title) ≡ receipt id)
        × (s ≡ s')
  unfolding upload_article get_irys
  upload_article-ok dates private_key u now id s s' e = bind-ok _ _ _ e λ _ s1 set_up e.
      need-bind _ _ _ _ set_up λ key given connected.
        rw (connected-keeps (irys.setup_error key) s s1 connected) (sent-ok _ id s1 s' e)
