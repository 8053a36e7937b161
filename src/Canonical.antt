-- ===== src/Canonical.antt =====
-- `stableStringify`, the canonical text of a JSON value that wallets sign. The same function stands
-- in apps/api/src/controllers/{auth,access-control,articles}.controller.ts and in
-- apps/web/src/lib/auth/api.ts. Texts are well formed UTF-16, numbers are natural.
pub mod Order
pub mod KeyOrder
pub mod Quote
pub mod Messages
pub mod Inline
use aurora_scholar.Prelude.{
  ℕ, zero, suc, ◌+◌, ◌/◌, ◌%◌, Bool, true, false, List, [], ◌∷◌, ◌++◌, map, String, ltb, leb,
  if◌then◌else◌, ◌==◌, nat_eq,
}
use aurora_scholar.Text.{Text, units, join}

mutual
  pub data Value : Type 0 where
    null : Value
    bool : Bool → Value
    num : ℕ → Value
    str : Text → Value
    arr : Items → Value
    obj : Fields → Value

  pub data Items : Type 0 where
    nil : Items
    cons : Value → Items → Items

  pub data Fields : Type 0 where
    end : Fields
    field : Text → Value → Fields → Fields

-- The members of an object, in the order in which they were set.
abbrev pub members : Fields → List (Text × Value)
members end = []
members (field k v fs) = (k, v) ∷ members fs

unfoldable pub hex_digit : ℕ → ℕ
hex_digit d = if ltb d 10 then 48 + d else 87 + d

-- How `JSON.stringify` writes one code unit of a string.
unfoldable pub escape : ℕ → Text
unfolding hex_digit
escape u =
    if u == 34
    then 92 ∷ 34 ∷ []
    else if u == 92
    then 92 ∷ 92 ∷ []
    else if u == 8
    then 92 ∷ 98 ∷ []
    else if u == 12
    then 92 ∷ 102 ∷ []
    else if u == 10
    then 92 ∷ 110 ∷ []
    else if u == 13
    then 92 ∷ 114 ∷ []
    else if u == 9
    then 92 ∷ 116 ∷ []
    else if ltb u 32
    then 92 ∷ 117 ∷ 48 ∷ 48 ∷ hex_digit (u / 16) ∷ hex_digit (u % 16) ∷ []
    else u ∷ []

unfoldable pub escape_all : Text → Text
escape_all [] = []
escape_all (u ∷ t) = escape u ++ escape_all t

-- `JSON.stringify` of a string.
unfoldable pub quote : Text → Text
quote t = 34 ∷ (escape_all t ++ 34 ∷ [])

digits_from : ℕ → ℕ → Text
digits_from zero n = []
digits_from (suc fuel) n =
    let more = digits_from fuel (n / 10) ++ (48 + n % 10) ∷ [] in
    if ltb n 10 then (48 + n) ∷ [] else more

-- A number in decimal; `n + 1` rounds are more than its digits.
unfoldable pub digits : ℕ → Text
unfolding digits_from
digits n = digits_from (suc n) n

-- The order in which `sort` puts strings: by code units.
unfoldable pub le_text : Text → Text → Bool
le_text [] t = true
le_text (u ∷ s) [] = false
le_text (u ∷ s) (v ∷ t) = if ltb u v then true else if ltb v u then false else le_text s t

unfoldable pub insert_entry : Text × Text → List (Text × Text) → List (Text × Text)
insert_entry e [] = e ∷ []
insert_entry e (f ∷ es) = if le_text e.0 f.0 then e ∷ f ∷ es else f ∷ insert_entry e es

-- `Object.keys(obj).sort()`, each key with the text of its value.
unfoldable pub sort_entries : List (Text × Text) → List (Text × Text)
sort_entries [] = []
sort_entries (e ∷ es) = insert_entry e (sort_entries es)

abbrev pub render_entry : Text × Text → Text
render_entry (k, t) = quote k ++ 58 ∷ t

-- An object from its members, each with the text of its value.
unfoldable pub render_object : List (Text × Text) → Text
render_object es = 123 ∷ (join (44 ∷ []) (map render_entry (sort_entries es)) ++ 125 ∷ [])

unfoldable mutual
  pub stable_stringify : Value → Text
  stable_stringify null = units "null"
  stable_stringify (bool true) = units "true"
  stable_stringify (bool false) = units "false"
  stable_stringify (num n) = digits n
  stable_stringify (str t) = quote t
  stable_stringify (arr xs) = 91 ∷ (join (44 ∷ []) (elements xs) ++ 93 ∷ [])
  stable_stringify (obj fs) = render_object (entries fs)

  pub elements : Items → List Text
  elements nil = []
  elements (cons v xs) = stable_stringify v ∷ elements xs

  pub entries : Fields → List (Text × Text)
  entries end = []
  entries (field k v fs) = (k, stable_stringify v) ∷ entries fs

-- `JSON.stringify` of an object that holds texts, numbers and truth values: no member is moved.
unfoldable pub json_object : Fields → Text
json_object fs = 123 ∷ (join (44 ∷ []) (map render_entry (entries fs)) ++ 125 ∷ [])
