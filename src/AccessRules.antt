-- ===== src/AccessRules.antt =====
-- crates/rustbase-db/src/access_rules.rs: what the rows of `_access_rules` allow an end user, by the
-- collection and the action. The foreign key of a row is not checked here: the handlers that write
-- a rule have just read its collection.
pub mod Stored
pub mod Api
use rustbase.Base.{
  Bool, true, false, not, ◌&&◌, ◌||◌, Str, codes, str_eq, Option, none, some, List, [], ◌∷◌, ◌++◌,
  keep, is_empty, trim, eq_ignore_ascii_case, if◌then◌else◌,
}
use rustbase.Filter.{str_cmp, is_lt}
use rustbase.Collections.{RuleRow}

pub data AccessAction : Type 0 where
  list view create update delete : AccessAction

unfoldable pub as_str : AccessAction → Str
as_str list = codes "list"
as_str view = codes "view"
as_str create = codes "create"
as_str update = codes "update"
as_str delete = codes "delete"

unfoldable pub from_str : Str → Option AccessAction
from_str s =
    if str_eq s (codes "list")
    then some list
    else if str_eq s (codes "view")
    then some view
    else if str_eq s (codes "create")
    then some create
    else if str_eq s (codes "update")
    then some update
    else if str_eq s (codes "delete")
    then some delete
    else none

pub record AccessRule : Type 0 where
  pub collection : Str
  pub action : AccessAction
  pub filter : Option Str

-- WHERE collection_id = ? AND action = ?, of which the primary key allows one row.
abbrev pub is_row : Str → AccessAction → RuleRow → Bool
is_row collection action r = str_eq r.collection_id collection && str_eq r.action (as_str action)

unfoldable pub get_rule : List RuleRow → Str → AccessAction → Option (Option Str)
unfolding as_str
get_rule [] collection action = none
get_rule (r ∷ rs) collection action =
    if is_row collection action r then some r.filter else get_rule rs collection action

-- INSERT … ON CONFLICT(collection_id, action) DO UPDATE.
unfoldable pub set_rule : List RuleRow → Str → AccessAction → Option Str → List RuleRow
unfolding as_str
set_rule [] collection action filter =
    record { collection_id = collection; action = as_str action; filter = filter } ∷ []
set_rule (r ∷ rs) collection action filter =
    if is_row collection action r
    then record r { filter = filter } ∷ rs
    else r ∷ set_rule rs collection action filter

-- DELETE FROM _access_rules, in crates/rustbase-api/src/access_rules.rs.
unfoldable pub remove_rule : List RuleRow → Str → AccessAction → List RuleRow
unfolding as_str
remove_rule rs collection action = keep (λ r. not (is_row collection action r)) rs

-- ORDER BY action.
unfoldable pub order_by_action : List RuleRow → List RuleRow
unfolding str_cmp is_lt
order_by_action [] = []
order_by_action (r ∷ rs) = insert r (order_by_action rs)
  where
    insert : RuleRow → List RuleRow → List RuleRow
    insert r [] = r ∷ []
    insert r (s ∷ ss) = if is_lt (str_cmp s.action r.action) then s ∷ insert r ss else r ∷ s ∷ ss

unfoldable pub decode_rules : Str → List RuleRow → List AccessRule
unfolding from_str
decode_rules collection [] = []
decode_rules collection (r ∷ rs) = elim (from_str r.action) [
  | none ↦ decode_rules collection rs
  | some action ↦
      record { collection = collection; action = action; filter = r.filter }
      ∷ decode_rules collection rs
]

unfoldable pub list_rules : List RuleRow → Str → List AccessRule
unfolding order_by_action decode_rules
list_rules rs collection =
    decode_rules collection (order_by_action (keep (λ r. str_eq r.collection_id collection) rs))

pub data RuleDecision : Type 0 where
  deny allow : RuleDecision
  evaluate : Str → RuleDecision

unfoldable pub classify_rule : Option (Option Str) → RuleDecision
unfolding trim eq_ignore_ascii_case
classify_rule none = deny
classify_rule (some none) = deny
classify_rule (some (some s)) =
    if is_empty (trim s) || eq_ignore_ascii_case (trim s) (codes "true") then allow else evaluate s

-- `matches!(classify_rule(rule), RuleDecision::Allow)`.
unfoldable pub rule_allows_user : Option (Option Str) → Bool
unfolding classify_rule
rule_allows_user rule = elim (classify_rule rule) [
  | deny ↦ false
  | allow ↦ true
  | evaluate s ↦ false
]
