-- ===== src/Tests/World.antt =====
-- Small packages and databases that keep the laws of External and Database.
use mathlib.Core.Option
use mathlib.Core.List.{not-mem-nil}
use aurora_scholar.Prelude.{
  ◌/◌, ltb, false, true, ℕ, zero, suc, ◌+◌, ◌-◌, ◌%◌, ◌≡◌, refl, Bool, Option, none, some, List, [],
  ◌∷◌, length, All, arith, if◌then◌else◌, ◌==◌, EqTest, nat_eq, list_eq, pair_eq, beq_refl,
  Bool-cases, inl, inr,
}
use aurora_scholar.Text.{Text, units}
use aurora_scholar.External.{
  Verdict, invalid, Wallets, WebTokens, Cipher, IsByte, IsVisible, claims, Dates, Instant,
  since_epoch, Irys, receipt,
}
use aurora_scholar.Database.{Article, Delegate, Articles, Prisma, Tables, upserted}

abbrev pub copies : ℕ → ℕ → List ℕ
copies zero b = []
copies (suc n) b = b ∷ copies n b

abbrev pub bytes_of : Text → List ℕ
bytes_of [] = []
bytes_of (u ∷ t) = u % 256 ∷ bytes_of t

pub bytes_of-IsByte : (t : Text) → All IsByte (bytes_of t)
bytes_of-IsByte [] = tt
bytes_of-IsByte (u ∷ t) = (omega arith, bytes_of-IsByte t)

pub bytes_of_lem : (bytes : List ℕ) → All IsByte bytes → bytes_of bytes ≡ bytes
bytes_of_lem [] h = refl
bytes_of_lem (b ∷ bytes) (h, hs) =
    let same : b % 256 ≡ b = omega arith in rw (same, bytes_of_lem bytes hs)

pub length-bytes_of : (t : Text) → length (bytes_of t) ≡ length t
length-bytes_of [] = refl
length-bytes_of (u ∷ t) = rw (length-bytes_of t)

pub copies-IsByte : (n : ℕ) → All IsByte (copies n 0)
copies-IsByte zero = tt
copies-IsByte (suc n) = (omega arith, copies-IsByte n)

abbrev pub first_unit : Text → ℕ
first_unit [] = 0
first_unit (u ∷ t) = u

-- A signature is 64 copies of the first unit of the wallet.
abbrev pub wallets : Wallets
wallets = record {
  Key = Text;
  public_key = λ t. some t;
  from_base64 = bytes_of;
  from_base64-IsByte = bytes_of-IsByte;
  to_base64 = λ bytes. bytes;
  from-to_base64 = bytes_of_lem;
  verify = λ message signature key. signature == copies 64 (first_unit key);
}

abbrev pub shift : Text → Text
shift [] = []
shift (u ∷ t) = (u + 0x10000) ∷ shift t

abbrev pub unshift : Text → Text
unshift [] = []
unshift (u ∷ t) = (u - 0x10000) ∷ unshift t

pub unshift-shift : (t : Text) → unshift (shift t) ≡ t
unshift-shift [] = refl
unshift-shift (u ∷ t) =
    let same : u + 0x10000 - 0x10000 ≡ u = omega arith in rw (same, unshift-shift t)

pub shift-IsVisible : (t : Text) → All IsVisible (shift t)
shift-IsVisible [] = tt
shift-IsVisible (u ∷ t) = ((ground arith, ground arith), shift-IsVisible t)

abbrev pub read_token : ℕ → Text → Verdict
read_token second [] = invalid (units "jwt malformed")
read_token second (e ∷ t) =
    if ltb second (e - 0x10000) then claims (some (unshift t)) else invalid (units "jwt expired")

-- A token is its expiry and its subject, each unit moved out of the range of spaces.
abbrev pub tokens : WebTokens
tokens = record {
  sign = λ secret subject lifetime now. (now / 1000 + lifetime + 0x10000) ∷ shift subject;
  verify = λ token secret now. read_token (now / 1000) token;
  verify-sign = λ secret subject lifetime issued now h.
      let early : ltb (now / 1000) (issued / 1000 + lifetime + 0x10000 - 0x10000) ≡ true =
        ground arith in
      rw (early, unshift-shift subject);
  verify-expired = λ secret subject lifetime issued now h.
      let late : ltb (now / 1000) (issued / 1000 + lifetime + 0x10000 - 0x10000) ≡ false =
        ground arith in
      rw late refl;
  sign-ne-nil = λ secret subject lifetime now h. cc;
  sign-IsVisible =
      λ secret subject lifetime now. ((ground arith, ground arith), shift-IsVisible subject);
}

-- The cipher text is the plain text, the tag sixteen zeros.
abbrev pub cipher : Cipher
cipher = record {
  sha256 = bytes_of;
  encrypt = λ key iv plain. (bytes_of plain, copies 16 0);
  decrypt = λ key iv tag ct. some ct;
  decrypt-encrypt = λ key iv plain h. rw (bytes_of_lem plain h);
  length-ciphertext = λ key iv plain. length-bytes_of plain;
  length-tag = λ key iv plain. refl;
  ciphertext-IsByte = λ key iv plain. bytes_of-IsByte plain;
  tag-IsByte = λ key iv plain. copies-IsByte 16;
}

abbrev pub parse_date : Text → Option Instant
parse_date [] = none
parse_date (u ∷ t) = some (since_epoch u)

-- A date is its first unit.
abbrev pub dates : Dates
dates = record { parse = parse_date; parse-nil = refl; to_iso_string = λ t. t ∷ [] }

abbrev pub irys : Irys
irys = record { setup_error = λ key. none; upload = λ data_text tags. receipt (units "tx") }

-- A table under a unique key: its rows, each with its key.
module _ {K R : Type 0} (e : EqTest K) where
  abbrev pub row_at : List (K × R) → K → Option R
  row_at [] k = none
  row_at ((j, r) ∷ t) k = if e.beq j k then some r else row_at t k

  abbrev pub changed : List (K × R) → (R → Bool) → (R → R) → List (K × R)
  changed [] test change = []
  changed ((j, r) ∷ t) test change = (j, (if test r then change r else r)) ∷ changed t test change

  pub row_at-changed :
      (t : List (K × R)) (test : R → Bool) (change : R → R) (k : K)
      → row_at (changed t test change) k
        ≡ Option.map (λ r. if test r then change r else r) (row_at t k)
  row_at-changed [] test change k = refl
  row_at-changed ((j, r) ∷ t) test change k = elim (Bool-cases (e.beq j k)) [
    | inl same ↦ rw same
    | inr different ↦ rw (different, row_at-changed t test change k)
  ]

  -- No query of many rows is made of this table.
  abbrev pub table : Delegate K R e
  table = record {
    Table = List (K × R);
    find_unique = row_at;
    create = λ t k r. some ((k, r) ∷ t);
    upsert = λ t k new change. (k, upserted (row_at t k) new change) ∷ t;
    update_many = changed;
    find_many = λ t test. [];
    find-create = λ t k r {t'} j h. let same : (k, r) ∷ t ≡ t' = cc in rw (← same);
    find-upsert = λ t k new change j. refl;
    find-update_many = row_at-changed;
    find_many_sound = λ t test r h. absurd (not-mem-nil h);
  }

abbrev pub ArticleRows : Type 0
ArticleRows = List (Text × Article)

abbrev pub article_at : ArticleRows → Text → Option Article
article_at [] k = none
article_at ((j, a) ∷ t) k = if j == k then some a else article_at t k

abbrev pub article_by_id : ArticleRows → Text → Option Article
article_by_id [] id = none
article_by_id ((j, a) ∷ t) id = if a.id == id then some a else article_by_id t id

-- Articles, each with its Arweave id.
abbrev pub articles : Articles
articles = record {
  Table = ArticleRows;
  find_by_id = article_by_id;
  find_by_arweave_id = article_at;
  upsert = λ t k new change. (k, upserted (article_at t k) new change) ∷ t;
  find_many = λ t test. [];
  find_many_sound = λ t test a h. absurd (not-mem-nil h);
  find-upsert = λ t k new change j. refl;
  find_by_id-upsert = λ t k new change. rw (beq_refl (upserted (article_at t k) new change).id);
}

abbrev pub prisma : Prisma
prisma = record {
  articles = articles;
  tokens = table list_eq;
  grants = table pair_eq;
  secrets = table list_eq;
}

abbrev pub no_rows : Tables prisma
no_rows = record { articles = []; tokens = []; grants = []; secrets = [] }
