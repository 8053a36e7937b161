-- ===== src/Catalogue/Pages.antt =====
-- That the pages together are the whole list.
use native.Mathlib.Nat.{lt-div-mul-add}
use aurora_scholar.Prelude.{
  ℕ, zero, suc, ◌+◌, ◌-◌, ◌*◌, ◌/◌, ◌≤◌, ◌<◌, ◌≡◌, refl, Option, some, List, [], ◌∷◌, ◌++◌, map,
  length, take, drop, arith, length-take, truthy,
}
use aurora_scholar.Text.{Text}
use aurora_scholar.Chain.{ArticleData, get_public_articles}
use aurora_scholar.Catalogue.{
  page_number, page_size, total_pages, page_items, by_author, Item, item_of, get_articles,
  number_or,
}

take_nil : (n : ℕ) → take {A = ArticleData} n [] ≡ []
take_nil zero = refl
take_nil (suc n) = refl

length-map : (xs : List ArticleData) → length (map item_of xs) ≡ length xs
length-map [] = refl
length-map (x ∷ xs) = rw (length-map xs)

take_add : (n k : ℕ) (xs : List ArticleData) → take (n + k) xs ≡ take n xs ++ take k (drop n xs)
take_add zero k xs = let e : 0 + k ≡ k = omega arith in rw e refl
take_add (suc n) k [] = let e : suc n + k ≡ suc (n + k) = omega arith in rw (e, take_nil k)
take_add (suc n) k (x ∷ xs) =
    let e : suc n + k ≡ suc (n + k) = omega arith in rw (e, take_add n k xs)

take_all : (n : ℕ) (xs : List ArticleData) → length xs ≤ n → take n xs ≡ xs
take_all zero [] h = refl
take_all zero (x ∷ xs) h = absurd (omega arith)
take_all (suc n) [] h = refl
take_all (suc n) (x ∷ xs) h = rw (take_all n xs (omega arith))

map_append : (xs ys : List ArticleData) → map item_of (xs ++ ys) ≡ map item_of xs ++ map item_of ys
map_append [] ys = refl
map_append (x ∷ xs) ys = rw (map_append xs ys)

-- The items of the first `n` pages, one after the other.
abbrev pub gathered : List ArticleData → (limit : Option ℕ) → (author : Option Text) → ℕ → List Item
gathered accounts limit author zero = []
gathered accounts limit author (suc n) =
    gathered accounts limit author n ++ (get_articles accounts (some (suc n)) limit author).items

gathered_lem :
    (accounts : List ArticleData) (limit : Option ℕ) (author : Option Text) (n : ℕ)
    → gathered accounts limit author n
      ≡ map item_of (
          take (n * page_size limit) (by_author (truthy author) (get_public_articles accounts 500)))
unfolding get_articles page_items page_number number_or
gathered_lem accounts limit author zero = let e : 0 * page_size limit ≡ 0 = omega arith in rw e refl
gathered_lem accounts limit author (suc n) =
    let xs = by_author (truthy author) (get_public_articles accounts 500) in
    let size = page_size limit in
    let start : page_number (some (suc n)) - 1 ≡ n = ground arith in
    let next : suc n * size ≡ n * size + size = omega arith in
    rw (
      gathered_lem accounts limit author n,
      start,
      next,
      take_add (n * size) size xs,
      map_append (take (n * size) xs),
    )

-- `ceil` gives pages enough.
enough_pages : (total size : ℕ) → 1 ≤ size → total ≤ total_pages total size * size
unfolding total_pages
enough_pages total size h =
    let positive : 0 < size = omega arith in
    let above : total + (size - 1) < (total + (size - 1)) / size * size + size =
      lt-div-mul-add positive in
    omega arith

page_size-positive : (limit : Option ℕ) → 1 ≤ page_size limit
unfolding page_size
page_size-positive limit = omega arith

-- The pages from the first to the last that the answer announces are, one after the other, the
-- articles of the author that was asked for (of every author, if none was) among the newest 500 public
-- ones: an author's older articles are on no page. The announced total is the number of their items,
-- and no page has more items than its size.
pub get_articles-pages :
    (accounts : List ArticleData) (page limit : Option ℕ) (author : Option Text)
    → (gathered accounts limit author (get_articles accounts page limit author).total_pages
        ≡ map item_of (by_author (truthy author) (get_public_articles accounts 500)))
      × ((get_articles accounts page limit author).total
          ≡ length (
              gathered accounts limit author (get_articles accounts page limit author).total_pages))
      × (length (get_articles accounts page limit author).items ≤ page_size limit)
unfolding get_articles page_items
get_articles-pages accounts page limit author =
    let xs = by_author (truthy author) (get_public_articles accounts 500) in
    let size = page_size limit in
    let positive : 1 ≤ size = page_size-positive limit in
    let n = total_pages (length xs) size in
    let all : gathered accounts limit author n ≡ map item_of xs = rw (
      gathered_lem accounts limit author n,
      take_all (n * size) xs (enough_pages (length xs) size positive),
    ) in
    (
      all,
      rw (all, length-map xs) refl,
      omega (
        arith,
        length-map (page_items (page_number page) size xs),
        length-take size (drop ((page_number page - 1) * size) xs),
      ),
    )
