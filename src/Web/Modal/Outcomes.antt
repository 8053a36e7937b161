-- ===== src/Web/Modal/Outcomes.antt =====
-- How a publication from the editor ends.
use aurora_scholar.Prelude.{◌≡◌, false, ℕ, List, ◌⊎◌}
use aurora_scholar.Text.{Text}
use aurora_scholar.Http.{Result, ok}
use aurora_scholar.Instruction.{build_publish_article_ix}
use aurora_scholar.Web.{Browser, Page, Signer}
use aurora_scholar.Web.Crypto.{Subtle, hex_to_bytes}
use aurora_scholar.Web.Modal.{
  Modal, form, published_step, Draft, Transaction, Solana, Translation, Draw, Prepared, upload,
}

module _ (b : Browser) (c : Subtle) (tr : Translation) where
  -- The form is shown again and can be sent again.
  pub record IsStopped (s : Page b Modal) : Type 0 where
    pub step : s.ui.step ≡ form
    pub is_idle : s.ui.is_publishing ≡ false

  -- The API has taken the draft's upload, and the transaction holds the draft's instruction, with
  -- the two hashes and the identifier that the API answered.
  pub record IsBuilt (chain : Solana) (d : Draft) (tx : Transaction) : Type 0 where
    pub signer : Signer
    pub draw : Draw
    pub before : Page b Modal
    pub after : Page b Modal
    pub prep : Prepared
    pub uploaded : upload b c tr signer d draw before ≡ (ok prep, after)
    pub content_hash : List ℕ
    pub intuition_hash : List ℕ
    pub read_content : (s : Page b Modal) → hex_to_bytes prep.content_hash s ≡ (ok content_hash, s)
    pub read_intuition :
        (s : Page b Modal) → hex_to_bytes prep.intuition_hash s ≡ (ok intuition_hash, s)
    pub instruction :
        build_publish_article_ix (record {
          content_hash = content_hash;
          intuition_hash = intuition_hash;
          arweave_id = prep.arweave_id;
          title = d.title;
          ai_scope = d.ai_scope;
          is_public = d.is_public;
        })
        ≡ ok tx.data_bytes
    pub compiled : chain.compile_message tx ≡ ok tt

  -- A transaction of the draft was sent and confirmed.
  pub record IsConfirmed (chain : Solana) (d : Draft) (s : Page b Modal) : Type 0 where
    pub transaction : Transaction
    pub built : IsBuilt chain d transaction
    pub signature : Text
    pub sent : chain.send_transaction transaction ≡ ok signature
    pub confirmed : chain.confirm_transaction signature ≡ ok tt
    pub step : s.ui.step ≡ published_step

  -- How the dialog is left: free again, or with a transaction that is confirmed.
  pub record IsSettled (chain : Solana) (d : Draft) (outcome : Result (Unit {0}) × Page b Modal)
      : Type 0 where
    pub returned : outcome.0 ≡ ok tt
    pub ending : IsStopped outcome.1 ⊎ IsConfirmed chain d outcome.1
