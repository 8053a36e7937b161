-- ===== src/Chain/Newest.antt =====
-- The list of public articles: the newest ones, newest first.
use aurora_scholar.Prelude.{
  ℕ, zero, suc, ◌≤◌, ◌≡◌, min, true, List, [], ◌∷◌, take, length, length-take, ◌==◌, nat_eq, refl,
  if◌then◌else◌, ◌∙◌, select, In, In-select, select-In, In-take, All, leb, Bool-cases, arith, ◌⊎◌,
  inl, inr,
}
use aurora_scholar.Chain.{ArticleData, insert_newest, sort_newest, page_limit, get_public_articles}

-- No item of the list is newer than the given one.
abbrev pub IsBound : ArticleData → List ArticleData → Type 0
IsBound a = All (λ b. b.timestamp ≤ a.timestamp)

abbrev pub IsNewestFirst : List ArticleData → Type 0
IsNewestFirst [] = Unit
IsNewestFirst (a ∷ xs) = IsBound a xs × IsNewestFirst xs

IsBound-weaken :
    (a b : ArticleData) (xs : List ArticleData)
    → b.timestamp ≤ a.timestamp
    → IsBound b xs
    → IsBound a xs
IsBound-weaken a b [] h k = tt
IsBound-weaken a b (x ∷ xs) h (k, ks) = (omega arith, IsBound-weaken a b xs h ks)

insert-IsBound :
    (a b : ArticleData) (xs : List ArticleData)
    → a.timestamp ≤ b.timestamp
    → IsBound b xs
    → IsBound b (insert_newest a xs)
unfolding insert_newest
insert-IsBound a b [] h k = (h, tt)
insert-IsBound a b (x ∷ xs) h (k, ks) = elim (Bool-cases (leb x.timestamp a.timestamp)) [
  | inl first ↦ rw first (h, (k, ks))
  | inr after ↦ rw after (k, insert-IsBound a b xs h ks)
]

insert-IsNewestFirst :
    (a : ArticleData) (xs : List ArticleData)
    → IsNewestFirst xs
    → IsNewestFirst (insert_newest a xs)
unfolding insert_newest
insert-IsNewestFirst a [] h = (tt, tt)
insert-IsNewestFirst a (x ∷ xs) (b, h) = elim (Bool-cases (leb x.timestamp a.timestamp)) [
  | inl first ↦
      let le : x.timestamp ≤ a.timestamp = ground arith in
      rw first ((le, IsBound-weaken a x xs le b), (b, h))
  | inr after ↦
      let le : a.timestamp ≤ x.timestamp = ground arith in
      rw after (insert-IsBound a x xs le b, insert-IsNewestFirst a xs h)
]

pub sort_newest_first : (xs : List ArticleData) → IsNewestFirst (sort_newest xs)
unfolding sort_newest
sort_newest_first [] = tt
sort_newest_first (a ∷ xs) = insert-IsNewestFirst a (sort_newest xs) (sort_newest_first xs)

-- Sorting neither adds nor drops an item.
In-insert :
    (c a : ArticleData) (xs : List ArticleData) → In c (insert_newest a xs) → (a ≡ c) ⊎ In c xs
unfolding insert_newest
In-insert c a [] (inl e) = inl e
In-insert c a [] (inr h) = elim h [ ]
In-insert c a (x ∷ xs) h = elim (Bool-cases (leb x.timestamp a.timestamp)) [
  | inl first ↦ rw first at h
  | inr after ↦ elim (rw after at h) [
    | inl e ↦ inr (inl e)
    | inr i ↦ elim (In-insert c a xs i) [ inl e ↦ inl e | inr j ↦ inr (inr j) ]
  ]
]

insert-In :
    (c a : ArticleData) (xs : List ArticleData) → (a ≡ c) ⊎ In c xs → In c (insert_newest a xs)
unfolding insert_newest
insert-In c a [] h = h
insert-In c a (x ∷ xs) h = elim (Bool-cases (leb x.timestamp a.timestamp)) [
  | inl first ↦ rw first h
  | inr after ↦ rw after (elim h [
    | inl e ↦ inr (insert-In c a xs (inl e))
    | inr i ↦ elim i [ inl e ↦ inl e | inr j ↦ inr (insert-In c a xs (inr j)) ]
  ])
]

In-sort : (c : ArticleData) (xs : List ArticleData) → In c (sort_newest xs) → In c xs
unfolding sort_newest
In-sort c [] h = h
In-sort c (a ∷ xs) h = elim (In-insert c a (sort_newest xs) h) [
  | inl e ↦ inl e
  | inr i ↦ inr (In-sort c xs i)
]

sort-In : (c : ArticleData) (xs : List ArticleData) → In c xs → In c (sort_newest xs)
unfolding sort_newest
sort-In c [] h = h
sort-In c (a ∷ xs) (inl e) = insert-In c a (sort_newest xs) (inl e)
sort-In c (a ∷ xs) (inr i) = insert-In c a (sort_newest xs) (inr (sort-In c xs i))

take-IsBound :
    (n : ℕ) (a : ArticleData) (xs : List ArticleData) → IsBound a xs → IsBound a (take n xs)
take-IsBound zero a xs h = tt
take-IsBound (suc n) a [] h = tt
take-IsBound (suc n) a (x ∷ xs) (h, hs) = (h, take-IsBound n a xs hs)

take-IsNewestFirst : (n : ℕ) (xs : List ArticleData) → IsNewestFirst xs → IsNewestFirst (take n xs)
take-IsNewestFirst zero xs h = tt
take-IsNewestFirst (suc n) [] h = tt
take-IsNewestFirst (suc n) (x ∷ xs) (b, h) = (take-IsBound n x xs b, take-IsNewestFirst n xs h)

-- An item that no item of the list is older than.
abbrev pub IsNoNewer : ArticleData → List ArticleData → Type 0
IsNoNewer a = All (λ b. a.timestamp ≤ b.timestamp)

bound-In :
    (a c : ArticleData) (xs : List ArticleData) → IsBound a xs → In c xs → c.timestamp ≤ a.timestamp
bound-In a c [] h i = elim i [ ]
bound-In a c (x ∷ xs) (h, hs) (inl e) = rw (← e) h
bound-In a c (x ∷ xs) (h, hs) (inr i) = bound-In a c xs hs i

taken_or_IsNoNewer :
    (n : ℕ) (c : ArticleData) (xs : List ArticleData)
    → IsNewestFirst xs
    → In c xs
    → In c (take n xs) ⊎ IsNoNewer c (take n xs)
taken_or_IsNoNewer zero c xs h i = inr tt
taken_or_IsNoNewer (suc n) c [] h i = elim i [ ]
taken_or_IsNoNewer (suc n) c (x ∷ xs) (b, h) (inl e) = inl (inl e)
taken_or_IsNoNewer (suc n) c (x ∷ xs) (b, h) (inr i) = elim (taken_or_IsNoNewer n c xs h i) [
  | inl j ↦ inl (inr j)
  | inr older ↦ inr (bound-In x c xs b i, older)
]

length-insert :
    (a : ArticleData) (xs : List ArticleData) → length (insert_newest a xs) ≡ suc (length xs)
unfolding insert_newest
length-insert a [] = refl
length-insert a (x ∷ xs) = elim (Bool-cases (leb x.timestamp a.timestamp)) [
  | inl first ↦ rw first refl
  | inr after ↦ rw (after, length-insert a xs) refl
]

length-sort : (xs : List ArticleData) → length (sort_newest xs) ≡ length xs
unfolding sort_newest
length-sort [] = refl
length-sort (a ∷ xs) = rw (length-insert a (sort_newest xs), length-sort xs) refl

page_limit_lem : (limit : ℕ) → page_limit limit ≡ (if limit == 0 then 100 else min limit 500)
unfolding page_limit
page_limit_lem limit = ground arith

-- The answer is ordered newest first. It has all the public accounts, or as many of them as were asked
-- for: a limit of 0 asks for 100, and more than 500 are never given. Every item is a public account,
-- and a public account that is missing is no newer than any item of the answer.
pub get_public_articles_lem :
    (accounts : List ArticleData) (limit : ℕ)
    → IsNewestFirst (get_public_articles accounts limit)
      × (length (get_public_articles accounts limit)
          ≡ min
              (if limit == 0 then 100 else min limit 500)
              (length (select (λ a. a.is_public) accounts)))
      × ((a : ArticleData)
          → In a (get_public_articles accounts limit)
          → In a accounts × (a.is_public ≡ true))
      × ((a : ArticleData)
          → In a accounts
          → a.is_public ≡ true
          → In a (get_public_articles accounts limit)
            ⊎ IsNoNewer a (get_public_articles accounts limit))
unfolding get_public_articles
get_public_articles_lem accounts limit =
    let public = select (λ a. a.is_public) accounts in
    let sorted = sort_newest_first public in
    (
      take-IsNewestFirst (page_limit limit) (sort_newest public) sorted,
      length-take (page_limit limit) (sort_newest public)
          ∙ (rw (page_limit_lem limit, length-sort public) refl),
      λ a i.
          In-select (λ a. a.is_public) a accounts
            (In-sort a public (In-take (page_limit limit) a (sort_newest public) i)),
      λ a i shown.
          taken_or_IsNoNewer (page_limit limit) a (sort_newest public) sorted
            (sort-In a public (select-In (λ a. a.is_public) a accounts i shown)),
    )
