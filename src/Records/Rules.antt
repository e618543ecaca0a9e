-- ===== src/Records/Rules.antt =====
-- Who passes the authorisation of crates/rustbase-api/src/records.rs, and which records a user sees.
use rustbase.Records.Passing.{
  Orders, SelectsBoth, Ruled, list_records-Ruled, looked_up-Ruled, first-Ruled,
}
use rustbase.Base.{
  ◌≡◌, ◌≢◌, inl, inr, subst, Bool, false, Bool-cases, Str, Option, some, List, [], ◌∷◌,
}
use rustbase.Error.{Result, ok, err, forbidden, bind-ok, ok-same, ok_or-ok}
use rustbase.Auth.Scope.{claim_is_iff}
use rustbase.Auth.{Claims, is_admin_for_app, user_workspace}
use rustbase.Filter.{FilterNode}
use rustbase.FilterSql.{SqlFragment}
use rustbase.Schema.{Schema}
use rustbase.Collections.{AppDb, Collection}
use rustbase.AppData.{Site, open_app_and_schema}
use rustbase.AccessRules.{AccessAction, RuleDecision, deny, get_rule, classify_rule}
use rustbase.Records.{
  Record, ListPage, ListResponse, is_user_of, apply_rule, authorize_record_action, list_records,
  list_response, both, user_filter, list, lookup_filter, first, get,
}

module _ {N J F : Type 0} (to_json : Str → Option Str)
    (parse_filter : Str → Result (FilterNode N J)) where
  -- An end user passes only in the workspace of the token, and by the stored rule of the collection
  -- and the action: there must be one, and not one that locks the action.
  pub authorize_record_action-ok :
      {R : Type 0} (auth : Claims) (db : AppDb F R) (workspace app coll : Str)
      (action : AccessAction) (schema : Schema F) (filter : Option (FilterNode N J))
      → authorize_record_action to_json parse_filter auth db workspace app coll action schema
        ≡ ok filter
      → is_admin_for_app auth workspace app ≡ false
      → (user_workspace auth ≡ some workspace)
        × (apply_rule to_json parse_filter auth schema
              (classify_rule (get_rule db.rules coll action))
            ≡ ok filter)
        × (classify_rule (get_rule db.rules coll action) ≢ deny)
  unfolding authorize_record_action
  authorize_record_action-ok auth db workspace app coll action schema filter h n =
      elim (Bool-cases (is_user_of auth workspace)) [
        | inl u ↦
            let passes = rw (n, u) at h in
            ((claim_is_iff (user_workspace auth) workspace).0 u, passes, not_locked _ passes)
        | inr u ↦ absurd (not_ok (rw (n, u) at h))
      ]
    where
      not_ok : ◌≢◌ {A = Result (Option (FilterNode N J))} (err forbidden) (ok filter)
      not_ok h = cc

      not_locked :
          (d : RuleDecision) → apply_rule to_json parse_filter auth schema d ≡ ok filter → d ≢ deny
      not_locked d passes locked = cc

module _ {N J F W : Type 0} (to_json : Str → Option Str)
    (parse_filter : Str → Result (FilterNode N J)) (selects : SqlFragment N J → Record N J → Bool)
    (newest_first : List (Record N J) → List (Record N J)) where
  -- An end user who is answered with a list is a user of the workspace, and the rule for listing
  -- either is open or names a filter that every record of the list passes, whatever filter the
  -- request adds.
  pub list-Passes :
      (auth : Claims) (site : Site W F (Record N J)) (workspace app coll : Str) (page : ListPage)
      (filter : Option Str) (resp : ListResponse N J)
      → Orders selects newest_first
      → SelectsBoth selects newest_first
      → is_admin_for_app auth workspace app ≡ false
      → list to_json parse_filter selects newest_first auth site workspace app coll page filter
        ≡ ok resp
      → (db : AppDb F (Record N J)) × (c : Collection F) × (open_app_and_schema site workspace app
            coll
          ≡ ok (db, c))
        × (user_workspace auth ≡ some workspace)
        × (rule : Option (FilterNode N J)) × (apply_rule to_json parse_filter auth c.schema
              (classify_rule (get_rule db.rules coll AccessAction.list))
            ≡ ok rule)
        × Ruled selects newest_first rule resp.items
  unfolding list
  list-Passes auth site workspace app coll page filter resp ordered selects_both n h =
      let ((db, c), opened, h1) = bind-ok (open_app_and_schema site workspace app coll) _ resp h in
      let (rule, allowed, h2) =
        bind-ok
          (authorize_record_action to_json parse_filter auth db workspace app coll AccessAction.list
            c.schema)
          _ resp h1 in
      let (asked, parsed, h3) = bind-ok (user_filter parse_filter filter c.schema) _ resp h2 in
      let (l, listed, h4) =
        bind-ok (list_records selects newest_first db c.schema page (both rule asked)) _ resp h3 in
      let (mine, applied, unlocked) =
        authorize_record_action-ok to_json parse_filter auth db workspace app coll AccessAction.list
          c.schema rule allowed n in
      let ruled =
        list_records-Ruled selects newest_first db c.schema page rule asked l ordered selects_both
          listed in
      let same : list_response l ≡ resp = ok-same h4 in
      (
        db,
        c,
        opened,
        mine,
        rule,
        applied,
        subst (λ (x : ListResponse N J). Ruled selects newest_first rule x.items) same
            (unfold list_response in ruled),
      )

  -- An end user who is answered with one record is a user of the workspace, and the record passes
  -- the rule for viewing, where that asks for a filter.
  get-Passes :
      (auth : Claims) (site : Site W F (Record N J)) (workspace app coll id : Str)
      (record_ : Record N J)
      → Orders selects newest_first
      → SelectsBoth selects newest_first
      → is_admin_for_app auth workspace app ≡ false
      → get to_json parse_filter selects newest_first auth site workspace app coll id ≡ ok record_
      → (db : AppDb F (Record N J)) × (c : Collection F) × (open_app_and_schema site workspace app
            coll
          ≡ ok (db, c))
        × (user_workspace auth ≡ some workspace)
        × (rule : Option (FilterNode N J)) × (apply_rule to_json parse_filter auth c.schema
              (classify_rule (get_rule db.rules coll AccessAction.view))
            ≡ ok rule)
        × Ruled selects newest_first rule (record_ ∷ [])
  unfolding get
  get-Passes auth site workspace app coll id record_ ordered selects_both n h =
      let ((db, c), opened, h1) =
        bind-ok (open_app_and_schema site workspace app coll) _ record_ h in
      let (rule, allowed, h2) =
        bind-ok
          (authorize_record_action to_json parse_filter auth db workspace app coll AccessAction.view
            c.schema)
          _ record_ h1 in
      let page : ListPage = record { page = 1; per_page = 1 } in
      let (l, listed, h3) =
        bind-ok (list_records selects newest_first db c.schema page (some (lookup_filter id rule)))
          _ record_ h2 in
      let (mine, applied, unlocked) =
        authorize_record_action-ok to_json parse_filter auth db workspace app coll AccessAction.view
          c.schema rule allowed n in
      (
        db,
        c,
        opened,
        mine,
        rule,
        applied,
        first-Ruled selects newest_first rule l.items record_
            (looked_up-Ruled selects newest_first db c.schema page id rule l ordered selects_both
              listed).1
            (ok_or-ok (first l.items) _ record_ h3),
      )
