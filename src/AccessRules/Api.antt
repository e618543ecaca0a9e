-- ===== src/AccessRules/Api.antt =====
-- crates/rustbase-api/src/access_rules.rs: the endpoints for the rules of a collection. Each returns
-- the new state, or an error before which nothing is written.
use rustbase.Base.{Str, codes, Option, List, ◌++◌}
use rustbase.Error.{Result, ok, ◌>>=◌, ok_or, validation, not_found}
use rustbase.Auth.{Claims, require_app_access}
use rustbase.AppData.{Site, open_app_and_schema, write_app}
use rustbase.AccessRules.{AccessRule, as_str, from_str, get_rule, set_rule, remove_rule, list_rules}

abbrev unknown_action : Str → Str
unknown_action action = codes "unknown access action: " ++ action

module _ {J F R : Type 0} where
  unfoldable pub list : Claims → Site J F R → Str → Str → Str → Result (List AccessRule)
  unfolding require_app_access open_app_and_schema list_rules
  list auth site workspace app coll = do
    allowed ← require_app_access auth workspace app
    opened ← open_app_and_schema site workspace app coll
    ok (list_rules opened.0.rules coll)

  unfoldable pub put :
      Claims → Site J F R → Str → Str → Str → Str → Option Str → Result (Site J F R × AccessRule)
  unfolding require_app_access from_str open_app_and_schema set_rule write_app
  put auth site workspace app coll action filter = do
    allowed ← require_app_access auth workspace app
    a ← ok_or (from_str action) (validation (unknown_action action))
    opened ← open_app_and_schema site workspace app coll
    let db = record (opened.0) { rules = set_rule opened.0.rules coll a filter }
    ok (write_app site workspace app db, record { collection = coll; action = a; filter = filter })

  unfoldable pub delete : Claims → Site J F R → Str → Str → Str → Str → Result (Site J F R)
  unfolding require_app_access from_str open_app_and_schema get_rule remove_rule write_app as_str
  delete auth site workspace app coll action = do
    allowed ← require_app_access auth workspace app
    a ← ok_or (from_str action) (validation (unknown_action action))
    opened ← open_app_and_schema site workspace app coll
    row ← ok_or (get_rule opened.0.rules coll a) (not_found coll (as_str a))
    let db = record (opened.0) { rules = remove_rule opened.0.rules coll a }
    ok (write_app site workspace app db)
