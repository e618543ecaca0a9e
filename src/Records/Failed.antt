-- ===== src/Records/Failed.antt =====
-- What a request to the writing endpoints of crates/rustbase-api/src/records.rs leaves where it
-- fails.
use rustbase.Base.{
  ℕ, ◌≡◌, refl, sym, ap, subst, ◌∙◌, Bool, Str, str_eq_iff, Option, some, List, arith,
}
use rustbase.Error.{CoreError, DbError, Result, ok, err, bind-ok, ok-same, ok_or, not_found}
use rustbase.Auth.{Claims}
use rustbase.Filter.{FilterNode}
use rustbase.FilterSql.{SqlFragment}
use rustbase.Schema.{Schema}
use rustbase.Collections.{AppDb, Collection, DbResult, done, failed, find_collection}
use rustbase.Collections.Requests.{open_app_pool-ok}
use rustbase.AppData.{Site, write_app, open_app_pool, open_app_and_schema}
use rustbase.AccessRules.{AccessAction}
use rustbase.Records.{Record, ListPage, authorize_record_action, list_records, lookup_filter, first}
use rustbase.Records.Stored.{Codecs}
use rustbase.Records.Writes.{
  SubscriptionKey, subscription_key, Live, HookRequest, hook_request, Fields, Hooks, WriteSteps,
  create_steps, update_steps, delete_steps, leave, hooked, finish_write, run, no_filter, creatable,
  permitted_row, create, update, delete,
}
use rustbase.Records.Kept.{create_record-failed, delete_record-failed}
use rustbase.Records.Patched.{update_record-failed}
use rustbase.Records.Requests.{
  RecordRequest, creates, updates, deletes, Answer, answered_with, handle,
}

module _ {N J F W : Type 0} where
  -- The databases of the apps and what is published are the same.
  pub record Same (live live' : Live N J F W) : Type 0 where
    pub app_db : (w a : Str) → live'.site.app_db w a ≡ live.site.app_db w a
    pub published : live'.published ≡ live.published

  -- A write of what the database has is none.
  write_app-same :
      (site : Site W F (Record N J)) (w a v b : Str) (db : AppDb F (Record N J))
      → db ≡ site.app_db w a
      → (write_app site w a db).app_db v b ≡ site.app_db v b
  unfolding write_app
  write_app-same site w a v b db same = ground (arith, str_eq_iff v w, str_eq_iff b a)

  open_app_and_schema-ok :
      (site : Site W F (Record N J)) (w a coll : Str) (db : AppDb F (Record N J)) (c : Collection F)
      → open_app_and_schema site w a coll ≡ ok (db, c)
      → db ≡ site.app_db w a
  unfolding open_app_and_schema
  open_app_and_schema-ok site w a coll db c h =
      let (db', opened, h1) = bind-ok (open_app_pool site w a) _ (db, c) h in
      let (c', found, h2) = bind-ok (ok_or (find_collection db' coll) _) _ (db, c) h1 in
      let same : ◌≡◌ {A = AppDb F (Record N J) × Collection F} (db', c') (db, c) = ok-same h2 in
      sym (ap (λ p. p.0) same) ∙ open_app_pool-ok site w a db' opened

module _ {N J F : Type 0} (hooks : Hooks N J F) where
  -- The hooks before a write do not write themselves.
  pub record Silent : Type 0 where
    pub creating :
        (q : HookRequest) (db : AppDb F (Record N J)) (fields : Fields N J)
        → (hooks.before_create q db fields).0 ≡ db
    pub updating :
        (q : HookRequest) (db : AppDb F (Record N J)) (r : Record N J) (fields : Fields N J)
        → (hooks.before_update q db r fields).0 ≡ db
    pub deleting :
        (q : HookRequest) (db : AppDb F (Record N J)) (r : Record N J)
        → (hooks.before_delete q db r).0 ≡ db

module _ {N J F W G B A : Type 0} (live : Live N J F W) (key : SubscriptionKey)
    (steps : WriteSteps N J F G B A) where
  run-failed :
      {C : Type 0} (f : A → C) (guarded : Result (AppDb F (Record N J) × G)) (live' : Live N J F W)
      (e : CoreError)
      → ((db : AppDb F (Record N J)) (g : G) → (steps.before db g).0 ≡ db)
      → ((db db' : AppDb F (Record N J)) (g : G) (b : B) (x : DbError)
          → steps.write db g b ≡ (db', failed x)
          → db' ≡ db)
      → ((db : AppDb F (Record N J)) (g : G)
          → guarded ≡ ok (db, g)
          → db ≡ live.site.app_db key.workspace key.app)
      → answered_with f (run live key steps guarded) ≡ (live', err e)
      → Same live live'
  run-failed f (err x) live' e silent atomic opened h =
      let same : live ≡ live' = ap (λ p. p.0) h in
      subst (Same live) same (record { app_db = λ w a. refl; published = refl })
  run-failed f (ok (db, g)) live' e silent atomic opened h =
      on_hooked (steps.before db g) (silent db g ∙ opened db g refl) h
    where
      left :
          (x : AppDb F (Record N J))
          → x ≡ live.site.app_db key.workspace key.app
          → leave live key x ≡ live'
          → Same live live'
      left x same here = subst (Same live) here (record {
        app_db = λ w a. write_app-same live.site key.workspace key.app w a x same;
        published = refl;
      })

      on_written :
          (db1 : AppDb F (Record N J)) (r : AppDb F (Record N J) × DbResult A)
          → ((db2 : AppDb F (Record N J)) (x : DbError) → r ≡ (db2, failed x) → db2 ≡ db1)
          → db1 ≡ live.site.app_db key.workspace key.app
          → answered_with f (finish_write live key steps r) ≡ (live', err e)
          → Same live live'
      on_written db1 (db2, done a) keeps same h = absurd (cc)
      on_written db1 (db2, failed x) keeps same h =
          left db2 (keeps db2 x refl ∙ same) (ap (λ p. p.0) h)

      on_hooked :
          (r : AppDb F (Record N J) × Result B)
          → r.0 ≡ live.site.app_db key.workspace key.app
          → answered_with f (hooked live key steps g r) ≡ (live', err e)
          → Same live live'
      on_hooked (db1, err x) same h = left db1 same (ap (λ p. p.0) h)
      on_hooked (db1, ok b) same h =
          on_written db1 (steps.write db1 g b) (λ db2 x. atomic db1 db2 g b x) same h

module _ {N J F W : Type 0} (to_json : Str → Option Str)
    (parse_filter : Str → Result (FilterNode N J)) where
  creatable-opened :
      (auth : Claims) (site : Site W F (Record N J)) (w a coll : Str) (db : AppDb F (Record N J))
      (schema : Schema F)
      → creatable to_json parse_filter auth site w a coll ≡ ok (db, schema)
      → db ≡ site.app_db w a
  unfolding creatable
  creatable-opened auth site w a coll db schema h =
      let ((db', c), opened, h1) = bind-ok (open_app_and_schema site w a coll) _ (db, schema) h in
      let (rule, allowed, h2) =
        bind-ok
          (authorize_record_action to_json parse_filter auth db' w a coll AccessAction.create
            c.schema)
          _ (db, schema) h1 in
      let (u, no_rule, h3) = bind-ok (no_filter rule) _ (db, schema) h2 in
      let same : ◌≡◌ {A = AppDb F (Record N J) × Schema F} (db', c.schema) (db, schema) =
        ok-same h3 in
      sym (ap (λ p. p.0) same) ∙ open_app_and_schema-ok site w a coll db' c opened

module _ {N J F W : Type 0} (to_json : Str → Option Str)
    (parse_filter : Str → Result (FilterNode N J)) (selects : SqlFragment N J → Record N J → Bool)
    (newest_first : List (Record N J) → List (Record N J)) where
  permitted_row-opened :
      (auth : Claims) (site : Site W F (Record N J)) (w a coll id : Str) (action : AccessAction)
      (db : AppDb F (Record N J)) (row : Schema F × Record N J)
      → permitted_row to_json parse_filter selects newest_first auth site w a coll id action
        ≡ ok (db, row)
      → db ≡ site.app_db w a
  unfolding permitted_row
  permitted_row-opened auth site w a coll id action db row h =
      let all_ : AppDb F (Record N J) × (Schema F × Record N J) = (db, row) in
      let ((db', c), opened, h1) = bind-ok (open_app_and_schema site w a coll) _ all_ h in
      let (rule, allowed, h2) =
        bind-ok (authorize_record_action to_json parse_filter auth db' w a coll action c.schema) _
          all_ h1 in
      let page : ListPage = record { page = 1; per_page = 1 } in
      let (l, listed, h3) =
        bind-ok (list_records selects newest_first db' c.schema page (some (lookup_filter id rule)))
          _ all_ h2 in
      let (r, it, h4) = bind-ok (ok_or (first l.items) (not_found coll id)) _ all_ h3 in
      let same : (db', (c.schema, r)) ≡ all_ = ok-same h4 in
      sym (ap (λ p. p.0) same) ∙ open_app_and_schema-ok site w a coll db' c opened

  -- Where the hooks before a write do not write to the databases themselves, a request that fails,
  -- at whatever step, leaves the databases of all apps as they were and publishes nothing.
  pub handle-failed :
      (hooks : Hooks N J F) (codecs : Codecs N J)
      (refuses_row : AppDb F (Record N J) → Str → Record N J → Option Str)
      (refuses_patch : AppDb F (Record N J) → Str → Fields N J → Option Str) (auth : Claims)
      (now : ℕ) (r : RecordRequest N J) (live live' : Live N J F W) (e : CoreError)
      → Silent hooks
      → handle to_json parse_filter selects newest_first hooks codecs refuses_row refuses_patch auth
          now r live
        ≡ (live', err e)
      → Same live live'
  unfolding handle create update delete
  handle-failed hooks codecs refuses_row refuses_patch auth now (creates w a coll fields id) live
        live' e silent h =
      run-failed live (subscription_key w a coll)
        (create_steps hooks codecs refuses_row (hook_request auth w a coll) fields id now)
        Answer.created (creatable to_json parse_filter auth live.site w a coll) live' e
        (λ db g. silent.creating _ db fields)
        (λ db db' schema given x.
          create_record-failed codecs refuses_row db db' schema given id now x)
        (creatable-opened to_json parse_filter auth live.site w a coll) h
  handle-failed hooks codecs refuses_row refuses_patch auth now (updates w a coll id fields) live
        live' e silent h =
      run-failed live (subscription_key w a coll)
        (update_steps hooks codecs refuses_patch (hook_request auth w a coll) id fields now)
        Answer.updated
        (permitted_row to_json parse_filter selects newest_first auth live.site w a coll id
          AccessAction.update)
        live' e (λ db g. silent.updating _ db (g.1) fields)
        (λ db db' g patch x. update_record-failed codecs refuses_patch db db' (g.0) id patch now x)
        (permitted_row-opened auth live.site w a coll id AccessAction.update) h
  handle-failed hooks codecs refuses_row refuses_patch auth now (deletes w a coll id) live live' e
        silent h =
      run-failed live (subscription_key w a coll)
        (delete_steps hooks (hook_request auth w a coll) id) (λ u. Answer.no_content)
        (permitted_row to_json parse_filter selects newest_first auth live.site w a coll id
          AccessAction.delete)
        live' e (λ db g. silent.deleting _ db (g.1))
        (λ db db' g u x. delete_record-failed db db' (g.0) id x)
        (permitted_row-opened auth live.site w a coll id AccessAction.delete) h
