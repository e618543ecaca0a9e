-- ===== src/Filter.antt =====
-- crates/rustbase-core/src/filter.rs: the filter expressions of the records endpoints, and their
-- evaluation against a record in memory. The fields of a record are a table by name. `serde_json`'s
-- numbers are a parameter `N`, with its equality and the comparison of the `f64` values; its arrays
-- and objects are a parameter `J`, with their equality. A text is compared by code points, which
-- orders texts as their UTF-8 bytes do.
pub mod Like
pub mod Substring
pub mod Ends
use rustbase.Base.{
  ℕ, ◌==◌, ltb, Bool, true, false, not, ◌&&◌, ◌||◌, bool_eq, Str, str_eq, lookup, Option, none,
  some, List, [], ◌∷◌, ◌++◌, any, is_empty, if◌then◌else◌,
}

pub data Value (N J : Type 0) : Type 0 where
  null : Value N J
  boolean : Bool → Value N J
  number : N → Value N J
  string : Str → Value N J
  compound : J → Value N J

pub data FilterNode (N J : Type 0) : Type 0 where
  and or : FilterNode N J → FilterNode N J → FilterNode N J
  negated : FilterNode N J → FilterNode N J
  eq ne gt gte lt lte : Str → Value N J → FilterNode N J
  like : Str → Str → FilterNode N J
  one_of : Str → List (Value N J) → FilterNode N J

-- `std::cmp::Ordering`.
pub data Ordering : Type 0 where
  less equal greater : Ordering

unfoldable pub is_lt : Ordering → Bool
is_lt less = true
is_lt equal = false
is_lt greater = false

unfoldable pub is_gt : Ordering → Bool
is_gt less = false
is_gt equal = false
is_gt greater = true

-- `Ord for str`.
unfoldable pub str_cmp : Str → Str → Ordering
str_cmp [] [] = equal
str_cmp [] (b ∷ t) = less
str_cmp (a ∷ s) [] = greater
str_cmp (a ∷ s) (b ∷ t) = if a == b then str_cmp s t else if ltb a b then less else greater

unfoldable pub bool_cmp : Bool → Bool → Ordering
bool_cmp false false = equal
bool_cmp true true = equal
bool_cmp false true = less
bool_cmp true false = greater

-- The inner `go`: a `%` stands for any run of characters, a `_` for one.
unfoldable pub like_match : Str → Str → Bool
like_match v [] = is_empty v
like_match [] (ch ∷ p) = if ch == b'%' then like_match [] p else false
like_match (c ∷ v) (ch ∷ p) =
    let tail = like_match (c ∷ v) p || like_match v (ch ∷ p) in
    let one = like_match v p in
    if ch == b'%' then tail else if ch == b'_' then one else c == ch && one

-- `fields.get(k).unwrap_or(&Value::Null)`.
abbrev pub or_null : {N J : Type 0} → Option (Value N J) → Value N J
or_null none = null
or_null (some v) = v

-- The answer of a comparison to a test of its outcome, and false where there is none.
abbrev pub decided : (Ordering → Bool) → Option Ordering → Bool
decided test none = false
decided test (some o) = test o

module _ {N J : Type 0} where
  -- The arm of `Like`.
  unfoldable pub like_value : Option (Value N J) → Str → Bool
  unfolding like_match
  like_value (some (string s)) pat = like_match s pat
  like_value (some null) pat = false
  like_value (some (boolean b)) pat = false
  like_value (some (number n)) pat = false
  like_value (some (compound j)) pat = false
  like_value none pat = false

module _ {N J : Type 0} (num_eq : N → N → Bool) (json_eq : J → J → Bool) where
  -- `PartialEq for Value`.
  unfoldable pub values_equal : Value N J → Value N J → Bool
  values_equal null null = true
  values_equal (boolean a) (boolean b) = bool_eq a b
  values_equal (number a) (number b) = num_eq a b
  values_equal (string a) (string b) = str_eq a b
  values_equal (compound a) (compound b) = json_eq a b
  values_equal a b = false

module _ {N J : Type 0} (num_cmp : N → N → Option Ordering) where
  unfoldable pub cmp_values : Value N J → Value N J → Option Ordering
  unfolding str_cmp bool_cmp
  cmp_values (number x) (number y) = num_cmp x y
  cmp_values (string x) (string y) = some (str_cmp x y)
  cmp_values (boolean x) (boolean y) = some (bool_cmp x y)
  cmp_values a b = none

module _ {N J : Type 0} (num_eq : N → N → Bool) (json_eq : J → J → Bool)
    (num_cmp : N → N → Option Ordering) where
  unfoldable pub matches : FilterNode N J → List (Str × Value N J) → Bool
  unfolding values_equal cmp_values is_lt is_gt like_value
  matches (and l r) fields = matches l fields && matches r fields
  matches (or l r) fields = matches l fields || matches r fields
  matches (negated inner) fields = not (matches inner fields)
  matches (eq k v) fields = values_equal num_eq json_eq (or_null (lookup k fields)) v
  matches (ne k v) fields = not (values_equal num_eq json_eq (or_null (lookup k fields)) v)
  matches (gt k v) fields = decided is_gt (cmp_values num_cmp (or_null (lookup k fields)) v)
  matches (gte k v) fields =
      decided (λ o. not (is_lt o)) (cmp_values num_cmp (or_null (lookup k fields)) v)
  matches (lt k v) fields = decided is_lt (cmp_values num_cmp (or_null (lookup k fields)) v)
  matches (lte k v) fields =
      decided (λ o. not (is_gt o)) (cmp_values num_cmp (or_null (lookup k fields)) v)
  matches (like k pat) fields = like_value (lookup k fields) pat
  matches (one_of k list) fields =
      any (values_equal num_eq json_eq (or_null (lookup k fields))) list

-- The fields that a filter names, in the order of its text.
unfoldable pub fields_of : {N J : Type 0} → FilterNode N J → List Str
fields_of (and l r) = fields_of l ++ fields_of r
fields_of (or l r) = fields_of l ++ fields_of r
fields_of (negated inner) = fields_of inner
fields_of (eq f v) = f ∷ []
fields_of (ne f v) = f ∷ []
fields_of (gt f v) = f ∷ []
fields_of (gte f v) = f ∷ []
fields_of (lt f v) = f ∷ []
fields_of (lte f v) = f ∷ []
fields_of (like f pat) = f ∷ []
fields_of (one_of f vs) = f ∷ []
