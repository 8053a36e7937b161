-- ===== src/Json.antt =====
-- How the web client reads parsed JSON: optional chaining, `||`, `String(…)`. A missing value is
-- `none`; the members of a parsed object have distinct names.
use aurora_scholar.Prelude.{
  ℕ, Bool, true, false, Option, none, some, List, [], ◌∷◌, ◌++◌, String, if◌then◌else◌, ◌==◌,
  nat_eq, list_eq, not,
}
use aurora_scholar.Text.{Text, units, join}
use aurora_scholar.Canonical.{
  Value, null, bool, num, str, arr, obj, Items, nil, cons, Fields, end, field, digits, quote,
}

abbrev lookup : Text → Fields → Option Value
lookup k end = none
lookup k (field j v fs) = if j == k then some v else lookup k fs

abbrev value_member : Text → Value → Option Value
value_member k null = none
value_member k (bool b) = none
value_member k (num n) = none
value_member k (str t) = none
value_member k (arr xs) = none
value_member k (obj fs) = lookup k fs

-- `value?.key`, for keys that texts and arrays do not have.
abbrev pub prop : String → Option Value → Option Value
prop key none = none
prop key (some v) = value_member (units key) v

abbrev value_is_truthy : Value → Bool
value_is_truthy null = false
value_is_truthy (bool b) = b
value_is_truthy (num n) = not (n == 0)
value_is_truthy (str []) = false
value_is_truthy (str (u ∷ t)) = true
value_is_truthy (arr xs) = true
value_is_truthy (obj fs) = true

abbrev pub is_truthy : Option Value → Bool
is_truthy none = false
is_truthy (some v) = value_is_truthy v

-- The value, if it is truthy: `x || …` goes on where this is `none`.
abbrev pub given : Option Value → Option Value
given none = none
given (some v) = if value_is_truthy v then some v else none

-- `x || y`
abbrev pub either : Option Value → Option Value → Option Value
either x y = if is_truthy x then x else y

-- `String(value)`; the elements of an array are joined, `null` among them is empty.
unfoldable mutual
  pub string_of : Value → Text
  string_of null = units "null"
  string_of (bool true) = units "true"
  string_of (bool false) = units "false"
  string_of (num n) = digits n
  string_of (str t) = t
  string_of (arr xs) = join (44 ∷ []) (strings_of xs)
  string_of (obj fs) = units "[object Object]"

  pub strings_of : Items → List Text
  strings_of nil = []
  strings_of (cons v xs) = item_string v ∷ strings_of xs

  pub item_string : Value → Text
  item_string null = []
  item_string (bool true) = units "true"
  item_string (bool false) = units "false"
  item_string (num n) = digits n
  item_string (str t) = t
  item_string (arr xs) = join (44 ∷ []) (strings_of xs)
  item_string (obj fs) = units "[object Object]"

-- `String(value || other)`
abbrev pub string_or : Option Value → Text → Text
string_or none other = other
string_or (some v) other = if value_is_truthy v then string_of v else other

-- A value of the type that the code declares; another one is taken for a missing one.
abbrev pub text_value : Value → Option Text
text_value null = none
text_value (bool x) = none
text_value (num n) = none
text_value (str t) = some t
text_value (arr xs) = none
text_value (obj fs) = none

abbrev bool_value : Value → Option Bool
bool_value null = none
bool_value (bool x) = some x
bool_value (num n) = none
bool_value (str t) = none
bool_value (arr xs) = none
bool_value (obj fs) = none

abbrev number_value : Value → Option ℕ
number_value null = none
number_value (bool x) = none
number_value (num n) = some n
number_value (str t) = none
number_value (arr xs) = none
number_value (obj fs) = none

abbrev object_value : Value → Option Fields
object_value null = none
object_value (bool x) = none
object_value (num n) = none
object_value (str t) = none
object_value (arr xs) = none
object_value (obj fs) = some fs

abbrev chain : {A B : Type 0} → Option A → (A → Option B) → Option B
chain none f = none
chain (some a) f = f a

abbrev pub text_at : String → Fields → Option Text
text_at key fs = chain (lookup (units key) fs) text_value

abbrev pub bool_at : String → Fields → Option Bool
bool_at key fs = chain (lookup (units key) fs) bool_value

abbrev pub number_at : String → Fields → Option ℕ
number_at key fs = chain (lookup (units key) fs) number_value

abbrev pub object_at : String → Fields → Option Fields
object_at key fs = chain (lookup (units key) fs) object_value

-- `JSON.stringify(value)`: the members of an object stay in their order.
unfoldable mutual
  pub stringify : Value → Text
  stringify null = units "null"
  stringify (bool true) = units "true"
  stringify (bool false) = units "false"
  stringify (num n) = digits n
  stringify (str t) = quote t
  stringify (arr xs) = 91 ∷ (join (44 ∷ []) (item_texts xs) ++ 93 ∷ [])
  stringify (obj fs) = 123 ∷ (join (44 ∷ []) (member_texts fs) ++ 125 ∷ [])

  pub item_texts : Items → List Text
  item_texts nil = []
  item_texts (cons v xs) = stringify v ∷ item_texts xs

  pub member_texts : Fields → List Text
  member_texts end = []
  member_texts (field k v fs) = (quote k ++ 58 ∷ stringify v) ∷ member_texts fs
