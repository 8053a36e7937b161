-- ===== src/Catalogue.antt =====
-- The pages of the journal: getArticles of apps/api/src/controllers/articles.controller.ts. `page`
-- and `limit` are the natural numbers that the query gives, `none` where it gives none.
pub mod Pages
use aurora_scholar.Prelude.{
  ℕ, ◌+◌, ◌-◌, ◌*◌, ◌/◌, min, max, Bool, Option, none, some, List, [], map, length, take, drop,
  select, ◌==◌, nat_eq, list_eq, if◌then◌else◌, truthy,
}
use aurora_scholar.Text.{Text}
use aurora_scholar.Chain.{ArticleData, get_public_articles}
use aurora_scholar.Publish.{hex_text}

-- `Number(value) || default`
unfoldable pub number_or : Option ℕ → ℕ → ℕ
number_or none default = default
number_or (some n) default = if n == 0 then default else n

unfoldable pub page_number : Option ℕ → ℕ
unfolding number_or
page_number page = max 1 (number_or page 1)

unfoldable pub page_size : Option ℕ → ℕ
unfolding number_or
page_size limit = max 1 (min (number_or limit 20) 100)

-- `Math.ceil(total / pageSize)`
unfoldable pub total_pages : (total size : ℕ) → ℕ
total_pages total size = (total + (size - 1)) / size

-- `filtered.slice(start, start + pageSize)` of the page with this number.
unfoldable pub page_items : (page size : ℕ) → List ArticleData → List ArticleData
page_items page size xs = take size (drop ((page - 1) * size) xs)

abbrev pub by_author : Option Text → List ArticleData → List ArticleData
by_author none xs = xs
by_author (some author) xs = select (λ a. a.author == author) xs

pub record Item : Type 0 where
  pub title : Text
  pub author : Text
  pub timestamp : ℕ
  pub content_hash : Text
  pub arweave_id : Text
  pub ai_scope : Text

abbrev pub item_of : ArticleData → Item
item_of a = record {
  title = a.title;
  author = a.author;
  timestamp = a.timestamp;
  content_hash = hex_text a.content_hash;
  arweave_id = a.arweave_id;
  ai_scope = a.ai_scope;
}

pub record Page : Type 0 where
  pub items : List Item
  pub total : ℕ
  pub page : ℕ
  pub page_size : ℕ
  pub total_pages : ℕ

unfoldable pub get_articles :
    List ArticleData → (page limit : Option ℕ) → (author : Option Text) → Page
get_articles accounts page limit author =
    let filtered = by_author (truthy author) (get_public_articles accounts 500) in
    let number = page_number page in
    let size = page_size limit in
    record {
      items = map item_of (page_items number size filtered);
      total = length filtered;
      page = number;
      page_size = size;
      total_pages = total_pages (length filtered) size;
    }
