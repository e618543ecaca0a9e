-- ===== src/Records.antt =====
-- The records of a collection: `list_records` of
-- crates/rustbase-db/src/records.rs, and the authorisation and the reading endpoints of
-- crates/rustbase-api/src/records.rs. A row of a table is the record that `row_to_record` makes of
-- it. What SQLite selects by the text and the bindings of a fragment, and the order that it gives the
-- rows of one time in, are parameters, as is the parser of filters, crates/rustbase-core's
-- `parse_filter`. A page's numbers are `u32`, so the offset fits an `i64`.
pub mod Passing
pub mod Rules
pub mod Pages
pub mod Stored
pub mod Writes
pub mod Found
pub mod Patched
pub mod Kept
pub mod Permitted
pub mod Written
pub mod Requests
pub mod Failed
use rustbase.Base.{
  ℕ, zero, suc, ◌+◌, ◌-◌, ◌*◌, ◌/◌, min, max, ◌==◌, Bool, true, false, not, ◌&&◌, ◌||◌, Str, codes,
  str_eq, contains, lookup, Option, none, some, List, [], ◌∷◌, ◌++◌, length, keep, is_empty, trim,
  if◌then◌else◌,
}
use rustbase.Error.{
  CoreError, DbError, sqlx, core_error, Result, ok, err, ◌>>=◌, ◌>>◌, ok_or, require, forbidden,
  not_found, validation,
}
use rustbase.Auth.{Claims, claim_is, is_admin_for_app, user_workspace}
use rustbase.Filter.{
  Value, string, FilterNode, and, or, negated, eq, ne, gt, gte, lt, lte, like, one_of,
}
use rustbase.FilterSql.{SqlFragment, filter_to_sql}
use rustbase.RuleTemplate.{RuleContext, substitute}
use rustbase.Schema.{Schema, field_names}
use rustbase.Collections.{Table, AppDb}
use rustbase.AppData.{Site, open_app_and_schema}
use rustbase.AccessRules.{
  AccessAction, RuleDecision, deny, allow, evaluate, get_rule, classify_rule,
}

pub record Record (N J : Type 0) : Type 0 where
  pub id : Str
  pub collection : Str
  pub fields : List (Str × Value N J)
  pub created_at : ℕ
  pub updated_at : ℕ

pub record ListPage : Type 0 where
  pub page : ℕ
  pub per_page : ℕ

pub record ListedRecords (N J : Type 0) : Type 0 where
  pub items : List (Record N J)
  pub page : ℕ
  pub per_page : ℕ
  pub total_items : ℕ

pub record ListResponse (N J : Type 0) : Type 0 where
  pub items : List (Record N J)
  pub page : ℕ
  pub per_page : ℕ
  pub total_items : ℕ
  pub total_pages : ℕ

-- LIMIT and OFFSET.
abbrev pub take : {A : Type 0} → ℕ → List A → List A
take n [] = []
take zero (x ∷ xs) = []
take (suc n) (x ∷ xs) = x ∷ take n xs

abbrev pub drop : {A : Type 0} → ℕ → List A → List A
drop zero xs = xs
drop (suc n) [] = []
drop (suc n) (x ∷ xs) = drop n xs

-- `ListResponse::from`, with `u64::div_ceil`.
unfoldable pub div_ceil : ℕ → ℕ → ℕ
div_ceil total per = (total + (per - 1)) / per

unfoldable pub list_response : {N J : Type 0} → ListedRecords N J → ListResponse N J
unfolding div_ceil
list_response l = record {
  items = l.items;
  page = l.page;
  per_page = l.per_page;
  total_items = l.total_items;
  total_pages = div_ceil l.total_items (max l.per_page 1);
}

-- `check_field` and `walk`.
unfoldable pub check_field : Str → List Str → Result (Unit {0})
unfolding contains
check_field name known =
    require (contains known name) (validation (codes "unknown field in filter: " ++ name))

unfoldable pub walk : {N J : Type 0} → FilterNode N J → List Str → Result (Unit {0})
unfolding check_field
walk (and l r) known = walk l known >> walk r known
walk (or l r) known = walk l known >> walk r known
walk (negated inner) known = walk inner known
walk (eq f v) known = check_field f known
walk (ne f v) known = check_field f known
walk (gt f v) known = check_field f known
walk (gte f v) known = check_field f known
walk (lt f v) known = check_field f known
walk (lte f v) known = check_field f known
walk (like f pat) known = check_field f known
walk (one_of f vs) known = check_field f known

module _ {N J F : Type 0} where
  unfoldable pub validate_filter_columns : FilterNode N J → Schema F → Result (Unit {0})
  unfolding walk
  validate_filter_columns node schema =
      walk node (codes "id" ∷ codes "created_at" ∷ codes "updated_at" ∷ field_names schema.fields)

-- The principal's context of a template rule.
unfoldable pub rule_context : Claims → RuleContext
unfolding user_workspace
rule_context auth = record {
  user_id = some auth.sub;
  user_email = none;
  user_workspace = user_workspace auth;
}

unfoldable pub both :
    {N J : Type 0} → Option (FilterNode N J) → Option (FilterNode N J) → Option (FilterNode N J)
both (some r) (some u) = some (and r u)
both (some r) none = some r
both none u = u

-- `auth.user_workspace() != Some(workspace)`.
abbrev pub is_user_of : Claims → Str → Bool
is_user_of auth workspace = claim_is (user_workspace auth) workspace

-- `id = :id`, with the rule where there is one.
unfoldable pub lookup_filter : {N J : Type 0} → Str → Option (FilterNode N J) → FilterNode N J
lookup_filter id none = eq (codes "id") (string id)
lookup_filter id (some r) = and (eq (codes "id") (string id)) r

abbrev pub first : {N J : Type 0} → List (Record N J) → Option (Record N J)
first [] = none
first (r ∷ rs) = some r

-- The parameters of a query: the rows that SQLite selects by a fragment, and their order.
module _ {N J : Type 0} (selects : SqlFragment N J → Record N J → Bool)
    (newest_first : List (Record N J) → List (Record N J)) where
  -- The rows of a `WHERE` clause, and all rows where there is none.
  unfoldable pub select_rows :
      Option (FilterNode N J) → List (Record N J) → Result (List (Record N J))
  unfolding filter_to_sql
  select_rows none rows = ok rows
  select_rows (some f) rows = do fragment ← filter_to_sql f; ok (keep (selects fragment) rows)

  unfoldable pub list_records :
      {F : Type 0}
      → AppDb F (Record N J)
      → Schema F
      → ListPage
      → Option (FilterNode N J)
      → Result (ListedRecords N J)
  unfolding select_rows
  list_records db schema page filter = do
    let per_page = min (max page.per_page 1) 200
    let page_num = max page.page 1
    let offset = (page_num - 1) * per_page
    table ← ok_or (lookup schema.id db.tables) (core_error (sqlx (codes "no such table")))
    selected ← select_rows filter table.rows
    ok (record {
      items = take per_page (drop offset (newest_first selected));
      page = page_num;
      per_page = per_page;
      total_items = length selected;
    })

module _ {N J F : Type 0} (to_json : Str → Option Str)
    (parse_filter : Str → Result (FilterNode N J)) where
  -- The decision on an end user of the workspace.
  unfoldable pub apply_rule : Claims → Schema F → RuleDecision → Result (Option (FilterNode N J))
  unfolding rule_context substitute validate_filter_columns
  apply_rule auth schema deny = err forbidden
  apply_rule auth schema allow = ok none
  apply_rule auth schema (evaluate template) = do
    resolved ← substitute to_json template (rule_context auth)
    node ← parse_filter resolved
    known ← validate_filter_columns node schema
    ok (some node)

  unfoldable pub authorize_record_action :
      {R : Type 0}
      → Claims
      → AppDb F R
      → Str
      → Str
      → Str
      → AccessAction
      → Schema F
      → Result (Option (FilterNode N J))
  unfolding is_admin_for_app user_workspace get_rule classify_rule apply_rule
  authorize_record_action auth db workspace app coll action schema =
      if is_admin_for_app auth workspace app
      then ok none
      else if not (is_user_of auth workspace)
      then err forbidden
      else apply_rule auth schema (classify_rule (get_rule db.rules coll action))

module _ {N J F : Type 0} (parse_filter : Str → Result (FilterNode N J)) where
  -- The filter of the query string.
  unfoldable pub user_filter : Option Str → Schema F → Result (Option (FilterNode N J))
  unfolding validate_filter_columns trim
  user_filter none schema = ok none
  user_filter (some s) schema =
      if is_empty (trim s)
      then ok none
      else do node ← parse_filter s; known ← validate_filter_columns node schema; ok (some node)

module _ {N J F W : Type 0} (to_json : Str → Option Str)
    (parse_filter : Str → Result (FilterNode N J)) (selects : SqlFragment N J → Record N J → Bool)
    (newest_first : List (Record N J) → List (Record N J)) where
  unfoldable pub list :
      Claims
      → Site W F (Record N J)
      → Str
      → Str
      → Str
      → ListPage
      → Option Str
      → Result (ListResponse N J)
  unfolding open_app_and_schema authorize_record_action user_filter both list_records list_response
  list auth site workspace app coll page filter = do
    opened ← open_app_and_schema site workspace app coll
    let schema = opened.1.schema
    rule_filter ←
        authorize_record_action to_json parse_filter auth (opened.0) workspace app coll
          AccessAction.list schema
    asked ← user_filter parse_filter filter schema
    listed ← list_records selects newest_first (opened.0) schema page (both rule_filter asked)
    ok (list_response listed)

  unfoldable pub get : Claims → Site W F (Record N J) → Str → Str → Str → Str → Result (Record N J)
  unfolding open_app_and_schema authorize_record_action lookup_filter list_records
  get auth site workspace app coll id = do
    opened ← open_app_and_schema site workspace app coll
    let schema = opened.1.schema
    rule_filter ←
        authorize_record_action to_json parse_filter auth (opened.0) workspace app coll
          AccessAction.view schema
    listed ←
        list_records selects newest_first (opened.0) schema (record { page = 1; per_page = 1 })
          (some (lookup_filter id rule_filter))
    ok_or (first listed.items) (not_found coll id)
