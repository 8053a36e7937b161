-- ===== src/Database.antt =====
-- The rows of apps/api/prisma/schema.prisma that the handlers use, and the Prisma client as an
-- interface: for each model the calls that the program makes, with their documented effect on what
-- a later query finds. Times are milliseconds; `updatedAt` is never read and left out.
use aurora_scholar.Prelude.{
  ℕ, Bool, true, ◌≡◌, Option, none, some, List, if◌then◌else◌, ◌==◌, EqTest, nat_eq, list_eq,
  pair_eq,
}
use mathlib.Core.Option
use mathlib.Core.List.{Mem}
use aurora_scholar.Text.{Text}

pub data Status : Type 0 where
  draft published : Status

pub record Article : Type 0 where
  pub id : Text
  pub title : Text
  pub content : Text
  pub content_hash : Text
  pub author_wallet : Text
  pub arweave_id : Option Text
  pub is_public : Bool
  pub status : Status
  pub created_at : ℕ
  pub published_at : Option ℕ

pub record AccessToken : Type 0 where
  pub id : Text
  pub article_id : Text
  pub token : Text
  pub expires_at : Option ℕ
  pub created_at : ℕ

pub record AccessGrant : Type 0 where
  pub id : Text
  pub article_id : Text
  pub owner_wallet : Text
  pub viewer_wallet : Text
  pub expires_at : Option ℕ
  pub revoked_at : Option ℕ
  pub created_at : ℕ

pub record ArticleSecret : Type 0 where
  pub id : Text
  pub article_id : Text
  pub encrypted_key : Text

-- The row that an upsert leaves.
abbrev pub upserted : {R : Type 0} → Option R → R → (R → R) → R
upserted none new change = new
upserted (some old) new change = change old

pub upserted-all :
    {R : Type 0} (P : R → Type 0) (o : Option R) (new : R) (change : R → R)
    → P new
    → ((old : R) → P (change old))
    → P (upserted o new change)
upserted-all P none new change hn hc = hn
upserted-all P (some old) new change hn hc = hc old

-- One model: rows `R` under a unique key `K`. The functions given to `upsert` and `update_many`
-- leave the key as it is.
pub record Delegate (K R : Type 0) (e : EqTest K) : Type 1 where
  pub Table : Type 0
  pub find_unique : Table → K → Option R
  -- `none`: a constraint of the schema is violated, and nothing is written.
  pub create : Table → K → R → Option Table
  pub upsert : Table → K → R → (R → R) → Table
  pub update_many : Table → (R → Bool) → (R → R) → Table
  -- The rows that pass the test, newest first.
  pub find_many : Table → (R → Bool) → List R
  pub find-create :
      (t : Table) (k : K) (r : R) {t' : Table} (j : K)
      → create t k r ≡ some t'
      → find_unique t' j ≡ (if e.beq k j then some r else find_unique t j)
  pub find-upsert :
      (t : Table) (k : K) (new : R) (change : R → R) (j : K)
      → find_unique (upsert t k new change) j
        ≡ (if e.beq k j then some (upserted (find_unique t k) new change) else find_unique t j)
  pub find-update_many :
      (t : Table) (test : R → Bool) (change : R → R) (k : K)
      → find_unique (update_many t test change) k
        ≡ Option.map (λ r. if test r then change r else r) (find_unique t k)
  pub find_many_sound :
      (t : Table) (test : R → Bool) (r : R) → Mem r (find_many t test) → test r ≡ true

-- The articles, which are found by their id and by their Arweave id.
pub record Articles : Type 1 where
  pub Table : Type 0
  pub find_by_id : Table → Text → Option Article
  pub find_by_arweave_id : Table → Text → Option Article
  -- `upsert` where the Arweave id is `k`; the new row's is `k` too.
  pub upsert : (t : Table) (k : Text) (new : Article) (change : Article → Article) → Table
  -- The rows that pass the test, newest first.
  pub find_many : Table → (Article → Bool) → List Article
  pub find_many_sound :
      (t : Table) (test : Article → Bool) (a : Article) → Mem a (find_many t test) → test a ≡ true
  pub find-upsert :
      (t : Table) (k : Text) (new : Article) (change : Article → Article) (j : Text)
      → find_by_arweave_id (upsert t k new change) j ≡ (
          if k == j
          then some (upserted (find_by_arweave_id t k) new change)
          else find_by_arweave_id t j)
  -- The row that was written is found by its id.
  pub find_by_id-upsert :
      (t : Table) (k : Text) (new : Article) (change : Article → Article)
      → find_by_id (upsert t k new change) (upserted (find_by_arweave_id t k) new change).id
        ≡ some (upserted (find_by_arweave_id t k) new change)

pub record Prisma : Type 1 where
  pub articles : Articles
  pub tokens : Delegate Text AccessToken list_eq
  pub grants : Delegate (Text × Text) AccessGrant pair_eq
  pub secrets : Delegate Text ArticleSecret list_eq

-- The tables that access control reads and writes.
pub record Tables (p : Prisma) : Type 0 where
  pub articles : p.articles.Table
  pub tokens : p.tokens.Table
  pub grants : p.grants.Table
  pub secrets : p.secrets.Table
