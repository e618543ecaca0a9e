-- ===== src/Records/Permitted.antt =====
-- Whom the writing endpoints of crates/rustbase-api/src/records.rs let pass, and to which row.
use rustbase.Base.{
  ◌≡◌, ◌≢◌, refl, subst, Bool, arith, true, false, Str, codes, Option, none, some, List, [], ◌∷◌,
}
use rustbase.Error.{Result, ok, ok_or, bind-ok, ok-same, ok_or-ok, not_found}
use rustbase.Auth.{Claims, is_admin_for_app, user_workspace}
use rustbase.Filter.{string, FilterNode, eq}
use rustbase.FilterSql.{SqlFragment, filter_to_sql}
use rustbase.Schema.{Schema}
use rustbase.Collections.{AppDb, Collection}
use rustbase.AppData.{Site, open_app_and_schema}
use rustbase.AccessRules.{
  AccessAction, deny, allow, evaluate, RuleDecision, get_rule, classify_rule,
}
use rustbase.RuleTemplate.{substitute}
use rustbase.Records.{
  Record, ListPage, rule_context, validate_filter_columns, apply_rule, authorize_record_action,
  list_records, lookup_filter, first,
}
use rustbase.Records.Rules.{authorize_record_action-ok}
use rustbase.Records.Passing.{Orders, SelectsBoth, Ruled, looked_up-Ruled, first-Ruled}
use rustbase.Records.Writes.{no_filter, creatable, permitted_row}

module _ {N J F : Type 0} (to_json : Str → Option Str)
    (parse_filter : Str → Result (FilterNode N J)) where
  -- A rule that asks for a filter gives one.
  apply_rule-evaluate :
      (auth : Claims) (schema : Schema F) (t : Str)
      → apply_rule to_json parse_filter auth schema (evaluate t) ≢ ok none
  unfolding apply_rule
  apply_rule-evaluate auth schema t h =
      let (resolved, a, h1) = bind-ok (substitute to_json t (rule_context auth)) _ none h in
      let (node, b, h2) = bind-ok (parse_filter resolved) _ none h1 in
      let (known, c, h3) = bind-ok (validate_filter_columns node schema) _ none h2 in absurd (cc)

module _ {N J F W : Type 0} (to_json : Str → Option Str)
    (parse_filter : Str → Result (FilterNode N J)) where
  -- An end user of the workspace creates by an open rule of the collection.
  pub record Open (auth : Claims) (site : Site W F (Record N J)) (workspace app coll : Str)
      (db : AppDb F (Record N J)) (schema : Schema F) : Type 0 where
    pub collection : Collection F
    pub opened : open_app_and_schema site workspace app coll ≡ ok (db, collection)
    pub its : collection.schema ≡ schema
    pub mine : user_workspace auth ≡ some workspace
    pub is_open : classify_rule (get_rule db.rules coll AccessAction.create) ≡ allow

  pub creatable-Open :
      (auth : Claims) (site : Site W F (Record N J)) (workspace app coll : Str)
      (db : AppDb F (Record N J)) (schema : Schema F)
      → is_admin_for_app auth workspace app ≡ false
      → creatable to_json parse_filter auth site workspace app coll ≡ ok (db, schema)
      → Open auth site workspace app coll db schema
  unfolding creatable
  creatable-Open auth site workspace app coll db schema n h =
      let ((db', c), opened, h1) =
        bind-ok (open_app_and_schema site workspace app coll) _ (db, schema) h in
      let (rule, allowed, h2) =
        bind-ok
          (authorize_record_action to_json parse_filter auth db' workspace app coll
            AccessAction.create c.schema)
          _ (db, schema) h1 in
      let (u, no_rule, h3) = bind-ok (no_filter rule) _ (db, schema) h2 in
      let (mine, applied, unlocked) =
        authorize_record_action-ok to_json parse_filter auth db' workspace app coll
          AccessAction.create c.schema rule allowed n in
      let same : ◌≡◌ {A = AppDb F (Record N J) × Schema F} (db', c.schema) (db, schema) =
        ok-same h3 in
      let base : Open auth site workspace app coll db' c.schema = record {
        collection = c;
        opened = opened;
        its = refl;
        mine = mine;
        is_open =
            only_open c.schema (classify_rule (get_rule db'.rules coll AccessAction.create)) rule
              no_rule applied unlocked;
      } in
      subst (λ (x : AppDb F (Record N J) × Schema F). Open auth site workspace app coll (x.0) (x.1))
        same base
    where
      only_open :
          (schema : Schema F) (d : RuleDecision) (rule : Option (FilterNode N J)) {u : Unit {0}}
          → no_filter rule ≡ ok u
          → apply_rule to_json parse_filter auth schema d ≡ ok rule
          → d ≢ deny
          → d ≡ allow
      only_open schema deny rule e h n = absurd (n refl)
      only_open schema allow rule e h n = refl
      only_open schema (evaluate t) none e h n =
          absurd (apply_rule-evaluate to_json parse_filter auth schema t h)
      only_open schema (evaluate t) (some r) e h n = absurd (cc)

module _ {N J : Type 0} (selects : SqlFragment N J → Record N J → Bool) where
  -- `id = :id` selects the rows of that id alone.
  abbrev pub SelectsId : Type 0
  SelectsId =
      (id : Str) (f : SqlFragment N J) (row : Record N J)
      → filter_to_sql (eq (codes "id") (string id)) ≡ ok f
      → selects f row ≡ true
      → row.id ≡ id

module _ {N J F W : Type 0} (to_json : Str → Option Str)
    (parse_filter : Str → Result (FilterNode N J)) (selects : SqlFragment N J → Record N J → Bool)
    (newest_first : List (Record N J) → List (Record N J)) where
  -- An end user of the workspace acts by a rule that does not lock the action on the row of the id,
  -- which passes the filter of the rule.
  pub record Permitted (auth : Claims) (site : Site W F (Record N J)) (workspace app coll id : Str)
      (action : AccessAction) (db : AppDb F (Record N J)) (schema : Schema F)
      (existing : Record N J) : Type 0 where
    pub collection : Collection F
    pub opened : open_app_and_schema site workspace app coll ≡ ok (db, collection)
    pub its : collection.schema ≡ schema
    pub mine : user_workspace auth ≡ some workspace
    pub unlocked : classify_rule (get_rule db.rules coll action) ≢ deny
    pub rule : Option (FilterNode N J)
    pub applied :
        apply_rule to_json parse_filter auth schema (classify_rule (get_rule db.rules coll action))
        ≡ ok rule
    pub ruled : Ruled selects newest_first rule (existing ∷ [])
    pub same_id : existing.id ≡ id

  pub permitted_row-Permitted :
      (auth : Claims) (site : Site W F (Record N J)) (workspace app coll id : Str)
      (action : AccessAction) (db : AppDb F (Record N J)) (schema : Schema F)
      (existing : Record N J)
      → Orders selects newest_first
      → SelectsBoth selects newest_first
      → SelectsId selects
      → is_admin_for_app auth workspace app ≡ false
      → permitted_row to_json parse_filter selects newest_first auth site workspace app coll id
          action
        ≡ ok (db, (schema, existing))
      → Permitted auth site workspace app coll id action db schema existing
  unfolding permitted_row
  permitted_row-Permitted auth site workspace app coll id action db schema existing ordered both
        only_id n h =
      let all_ : AppDb F (Record N J) × (Schema F × Record N J) = (db, (schema, existing)) in
      let ((db', c), opened, h1) = bind-ok (open_app_and_schema site workspace app coll) _ all_ h in
      let (rule, allowed, h2) =
        bind-ok
          (authorize_record_action to_json parse_filter auth db' workspace app coll action c.schema)
          _ all_ h1 in
      let page : ListPage = record { page = 1; per_page = 1 } in
      let (l, listed, h3) =
        bind-ok (list_records selects newest_first db' c.schema page (some (lookup_filter id rule)))
          _ all_ h2 in
      let (row, it, h4) = bind-ok (ok_or (first l.items) (not_found coll id)) _ all_ h3 in
      let (mine, applied, unlocked) =
        authorize_record_action-ok to_json parse_filter auth db' workspace app coll action c.schema
          rule allowed n in
      let is_first = ok_or-ok (first l.items) _ row it in
      let (by_id, ruled) =
        looked_up-Ruled selects newest_first db' c.schema page id rule l ordered both listed in
      let (f, translated, passes) =
        first-Ruled selects newest_first (some (eq (codes "id") (string id))) l.items row by_id
          is_first in
      let base : Permitted auth site workspace app coll id action db' c.schema row = record {
        collection = c;
        opened = opened;
        its = refl;
        mine = mine;
        unlocked = unlocked;
        rule = rule;
        applied = applied;
        ruled = first-Ruled selects newest_first rule l.items row ruled is_first;
        same_id = only_id id f row translated (ground arith);
      } in
      let same : (db', (c.schema, row)) ≡ all_ = ok-same h4 in
      subst
        (λ (x : AppDb F (Record N J) × (Schema F × Record N J)).
          Permitted auth site workspace app coll id action (x.0) (x.1.0) (x.1.1))
        same base
