-- ===== src/Records/Writes.antt =====
-- The endpoints of crates/rustbase-api/src/records.rs that write: create, update and delete. A
-- handler returns the new state with its answer. The state has the databases and what the broker of
-- crates/rustbase-realtime was given to publish, in order. The hooks are parameters.
use rustbase.Base.{ℕ, Bool, Str, Option, none, some, List, [], ◌∷◌, ◌++◌}
use rustbase.Error.{
  CoreError, DbError, invalid_identifier, row_not_found, sqlx, core_error, Result, ok, err, ◌>>=◌,
  ok_or, forbidden, not_found,
}
use rustbase.Auth.{Claims, TokenRole}
use rustbase.Filter.{Value, FilterNode}
use rustbase.FilterSql.{SqlFragment}
use rustbase.Schema.{Schema}
use rustbase.Collections.{AppDb, DbResult, done, failed}
use rustbase.AppData.{Site, open_app_and_schema, write_app}
use rustbase.AccessRules.{AccessAction}
use rustbase.Records.{Record, authorize_record_action, lookup_filter, list_records, first}
use rustbase.Records.Stored.{Codecs, create_record, update_record, delete_record}

pub record SubscriptionKey : Type 0 where
  pub workspace : Str
  pub app : Str
  pub collection : Str

pub data RealtimeEvent (N J : Type 0) : Type 0 where
  record_created record_updated : Record N J → RealtimeEvent N J
  record_deleted : Str → RealtimeEvent N J

pub record Live (N J F W : Type 0) : Type 0 where
  pub site : Site W F (Record N J)
  pub published : List (SubscriptionKey × RealtimeEvent N J)

-- `HookRequest`, with the principal.
pub record HookRequest : Type 0 where
  pub id : Str
  pub role : TokenRole
  pub token_workspace : Option Str
  pub workspace : Str
  pub app : Str
  pub collection : Str

unfoldable pub hook_request : Claims → Str → Str → Str → HookRequest
hook_request auth workspace app coll = record {
  id = auth.sub;
  role = auth.role;
  token_workspace = auth.workspace;
  workspace = workspace;
  app = app;
  collection = coll;
}

abbrev pub Fields : Type 0 → Type 0 → Type 0
Fields N J = List (Str × Value N J)

-- The hooks of the collections. A hook may write to the database of its app; one before a write may
-- change the fields or object, and what one after it answers is only logged.
pub record Hooks (N J F : Type 0) : Type 0 where
  pub before_create :
      HookRequest → AppDb F (Record N J) → Fields N J → AppDb F (Record N J) × Result (Fields N J)
  pub before_update :
      HookRequest
      → AppDb F (Record N J)
      → Record N J
      → Fields N J
      → AppDb F (Record N J) × Result (Fields N J)
  pub before_delete :
      HookRequest → AppDb F (Record N J) → Record N J → AppDb F (Record N J) × Result (Unit {0})
  pub after_create : HookRequest → AppDb F (Record N J) → Record N J → AppDb F (Record N J)
  pub after_update : HookRequest → AppDb F (Record N J) → Record N J → AppDb F (Record N J)
  pub after_delete : HookRequest → AppDb F (Record N J) → Str → AppDb F (Record N J)

-- The closures that `map_err` takes in `update` and `delete`.
unfoldable pub write_error : Str → Str → DbError → CoreError
write_error coll id row_not_found = not_found coll id
write_error coll id (invalid_identifier name) = core_error (invalid_identifier name)
write_error coll id (sqlx s) = core_error (sqlx s)

-- A rule that asks for a filter does not apply to a creation.
abbrev pub no_filter : {N J : Type 0} → Option (FilterNode N J) → Result (Unit {0})
no_filter none = ok tt
no_filter (some f) = err forbidden

-- What the schema and the guards of a handler leave to do: the hook before the write, the write, its
-- event, the hook after it, and the errors of the write.
pub record WriteSteps (N J F G B A : Type 0) : Type 0 where
  pub before : AppDb F (Record N J) → G → AppDb F (Record N J) × Result B
  pub write : AppDb F (Record N J) → G → B → AppDb F (Record N J) × DbResult A
  pub event : A → RealtimeEvent N J
  pub after : AppDb F (Record N J) → A → AppDb F (Record N J)
  pub on_error : DbError → CoreError

module _ {N J F W : Type 0} (live : Live N J F W) (key : SubscriptionKey) where
  abbrev pub leave : AppDb F (Record N J) → Live N J F W
  leave db = record live { site = write_app live.site key.workspace key.app db }

  abbrev pub publish : AppDb F (Record N J) → RealtimeEvent N J → Live N J F W
  publish db event = record {
    site = write_app live.site key.workspace key.app db;
    published = live.published ++ (key, event) ∷ [];
  }

module _ {N J F W G B A : Type 0} (live : Live N J F W) (key : SubscriptionKey)
    (steps : WriteSteps N J F G B A) where
  abbrev pub finish_write : AppDb F (Record N J) × DbResult A → Live N J F W × Result A
  finish_write (db, failed e) = (leave live key db, err (steps.on_error e))
  finish_write (db, done a) = (publish live key (steps.after db a) (steps.event a), ok a)

  abbrev pub hooked : G → AppDb F (Record N J) × Result B → Live N J F W × Result A
  hooked g (db, err e) = (leave live key db, err e)
  hooked g (db, ok b) = finish_write (steps.write db g b)

  -- A handler behind its guards.
  abbrev pub run : Result (AppDb F (Record N J) × G) → Live N J F W × Result A
  run (err e) = (live, err e)
  run (ok (db, g)) = hooked g (steps.before db g)

abbrev pub subscription_key : Str → Str → Str → SubscriptionKey
subscription_key workspace app coll = record { workspace = workspace; app = app; collection = coll }

-- The three handlers behind their guards.
module _ {N J F : Type 0} (hooks : Hooks N J F) where
  abbrev pub create_steps :
      Codecs N J
      → (AppDb F (Record N J) → Str → Record N J → Option Str)
      → HookRequest
      → Fields N J
      → Str
      → ℕ
      → WriteSteps N J F (Schema F) (Fields N J) (Record N J)
  create_steps codecs refuses request fields id now = record {
    before = λ db schema. hooks.before_create request db fields;
    write = λ db schema given. create_record codecs refuses db schema given id now;
    event = record_created;
    after = hooks.after_create request;
    on_error = core_error;
  }

  abbrev pub update_steps :
      Codecs N J
      → (AppDb F (Record N J) → Str → Fields N J → Option Str)
      → HookRequest
      → Str
      → Fields N J
      → ℕ
      → WriteSteps N J F (Schema F × Record N J) (Fields N J) (Record N J)
  update_steps codecs refuses request id fields now = record {
    before = λ db row. hooks.before_update request db (row.1) fields;
    write = λ db row patch. update_record codecs refuses db (row.0) id patch now;
    event = record_updated;
    after = hooks.after_update request;
    on_error = write_error request.collection id;
  }

  abbrev pub delete_steps :
      HookRequest → Str → WriteSteps N J F (Schema F × Record N J) (Unit {0}) (Unit {0})
  delete_steps request id = record {
    before = λ db row. hooks.before_delete request db (row.1);
    write = λ db row agreed. delete_record db (row.0) id;
    event = λ u. record_deleted id;
    after = λ db u. hooks.after_delete request db id;
    on_error = write_error request.collection id;
  }

module _ {N J F W : Type 0} (to_json : Str → Option Str)
    (parse_filter : Str → Result (FilterNode N J)) where
  -- The collection, for a principal who may create a record there.
  unfoldable pub creatable :
      Claims → Site W F (Record N J) → Str → Str → Str → Result (AppDb F (Record N J) × Schema F)
  unfolding open_app_and_schema authorize_record_action
  creatable auth site workspace app coll = do
    opened ← open_app_and_schema site workspace app coll
    let schema = opened.1.schema
    rule_filter ←
        authorize_record_action to_json parse_filter auth (opened.0) workspace app coll
          AccessAction.create schema
    open_rule ← no_filter rule_filter
    ok (opened.0, schema)

  module _ (hooks : Hooks N J F) where
    unfoldable pub create :
        Codecs N J
        → (AppDb F (Record N J) → Str → Record N J → Option Str)
        → Claims
        → Live N J F W
        → Str
        → Str
        → Str
        → Fields N J
        → Str
        → ℕ
        → Live N J F W × Result (Record N J)
    unfolding creatable hook_request
    create codecs refuses auth live workspace app coll fields id now =
        run live (subscription_key workspace app coll)
          (create_steps hooks codecs refuses (hook_request auth workspace app coll) fields id now)
          (creatable auth live.site workspace app coll)

module _ {N J F W : Type 0} (to_json : Str → Option Str)
    (parse_filter : Str → Result (FilterNode N J)) (selects : SqlFragment N J → Record N J → Bool)
    (newest_first : List (Record N J) → List (Record N J)) where
  -- The row that a principal may update or delete: the one with the id, if the rule lets it pass.
  unfoldable pub permitted_row :
      Claims
      → Site W F (Record N J)
      → Str
      → Str
      → Str
      → Str
      → AccessAction
      → Result (AppDb F (Record N J) × (Schema F × Record N J))
  unfolding open_app_and_schema authorize_record_action lookup_filter list_records
  permitted_row auth site workspace app coll id action = do
    opened ← open_app_and_schema site workspace app coll
    let schema = opened.1.schema
    rule_filter ←
        authorize_record_action to_json parse_filter auth (opened.0) workspace app coll action
          schema
    listed ←
        list_records selects newest_first (opened.0) schema (record { page = 1; per_page = 1 })
          (some (lookup_filter id rule_filter))
    existing ← ok_or (first listed.items) (not_found coll id)
    ok (opened.0, (schema, existing))

  module _ (hooks : Hooks N J F) where
    unfoldable pub update :
        Codecs N J
        → (AppDb F (Record N J) → Str → Fields N J → Option Str)
        → Claims
        → Live N J F W
        → Str
        → Str
        → Str
        → Str
        → Fields N J
        → ℕ
        → Live N J F W × Result (Record N J)
    unfolding permitted_row hook_request
    update codecs refuses auth live workspace app coll id fields now =
        run live (subscription_key workspace app coll)
          (update_steps hooks codecs refuses (hook_request auth workspace app coll) id fields now)
          (permitted_row auth live.site workspace app coll id AccessAction.update)

    unfoldable pub delete :
        Claims → Live N J F W → Str → Str → Str → Str → Live N J F W × Result (Unit {0})
    unfolding permitted_row hook_request
    delete auth live workspace app coll id =
        run live (subscription_key workspace app coll)
          (delete_steps hooks (hook_request auth workspace app coll) id)
          (permitted_row auth live.site workspace app coll id AccessAction.delete)
