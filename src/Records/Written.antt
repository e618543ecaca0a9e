-- ===== src/Records/Written.antt =====
-- What a write through crates/rustbase-api/src/records.rs leaves behind where it succeeds: the rows,
-- and what is published.
use rustbase.Base.{ℕ, ◌≡◌, refl, sym, ap, ◌∙◌, Bool, false, Str, Option, none, some, List}
use rustbase.Error.{Result, ok, err}
use rustbase.Auth.{Claims, is_admin_for_app}
use rustbase.Filter.{FilterNode}
use rustbase.FilterSql.{SqlFragment}
use rustbase.Schema.{Schema}
use rustbase.Collections.{AppDb, DbResult, done, failed}
use rustbase.AccessRules.{AccessAction}
use rustbase.Records.{Record}
use rustbase.Records.Passing.{Orders, SelectsBoth}
use rustbase.Records.Stored.{Codecs, stored_fields, patched_fields}
use rustbase.Records.Writes.{
  SubscriptionKey, RealtimeEvent, record_created, record_updated, record_deleted, Live,
  hook_request, Fields, Hooks, WriteSteps, subscription_key, create_steps, update_steps,
  delete_steps, publish, hooked, finish_write, run, creatable, permitted_row, create, update,
  delete,
}
use rustbase.Records.Found.{found, Wrote}
use rustbase.Records.Kept.{create_record-Wrote, delete_record-Wrote}
use rustbase.Records.Patched.{update_record-Wrote}
use rustbase.Records.Permitted.{Open, creatable-Open, Permitted, SelectsId, permitted_row-Permitted}

module _ {N J F W G B A : Type 0} (live : Live N J F W) (key : SubscriptionKey)
    (steps : WriteSteps N J F G B A) where
  -- A handler that succeeds has passed its guards, its hook and its statement, and has published.
  run-ok :
      (guarded : Result (AppDb F (Record N J) × G)) (live' : Live N J F W) (a : A)
      → run live key steps guarded ≡ (live', ok a)
      → (db : AppDb F (Record N J)) × (g : G) × (guarded ≡ ok (db, g))
        × (db1 : AppDb F (Record N J)) × (b : B) × (steps.before db g ≡ (db1, ok b))
        × (db2 : AppDb F (Record N J)) × (steps.write db1 g b ≡ (db2, done a))
        × (live' ≡ publish live key (steps.after db2 a) (steps.event a))
  run-ok (err e) live' a h = absurd (cc)
  run-ok (ok (db, g)) live' a h = on_hooked (steps.before db g) refl h
    where
      on_written :
          (r : AppDb F (Record N J) × DbResult A)
          → finish_write live key steps r ≡ (live', ok a)
          → (db2 : AppDb F (Record N J)) × (r ≡ (db2, done a))
            × (live' ≡ publish live key (steps.after db2 a) (steps.event a))
      on_written (db2, failed e) h = absurd (cc)
      on_written (db2, done x) h =
          let same : x ≡ a = cc in
          (
            db2,
            ap (λ y. (db2, done y)) same,
            sym (ap (λ p. p.0) h)
                ∙ ap (λ y. publish live key (steps.after db2 y) (steps.event y)) same,
          )

      on_hooked :
          (r : AppDb F (Record N J) × Result B)
          → steps.before db g ≡ r
          → hooked live key steps g r ≡ (live', ok a)
          → (x : AppDb F (Record N J)) × (y : G) × (◌≡◌ {A = Result (AppDb F (Record N J) × G)}
              (ok (db, g))
              (ok (x, y)))
            × (db1 : AppDb F (Record N J)) × (b : B) × (steps.before x y ≡ (db1, ok b))
            × (db2 : AppDb F (Record N J)) × (steps.write db1 y b ≡ (db2, done a))
            × (live' ≡ publish live key (steps.after db2 a) (steps.event a))
      on_hooked (db1, err e) s h = absurd (cc)
      on_hooked (db1, ok b) s h =
          let (db2, w, p) = on_written (steps.write db1 g b) h in
          (db, g, refl, db1, b, s, db2, w, p)

module _ {N J F W : Type 0} where
  -- After a write the database is what the hook before it left, but for the record of the id, and
  -- then what the hook after it makes of that; one event is published.
  pub record Left (live live' : Live N J F W) (key : SubscriptionKey) (schema : Schema F) (id : Str)
      (stored : Option (Record N J)) (event : RealtimeEvent N J)
      (after : AppDb F (Record N J) → AppDb F (Record N J)) (hooked_db : AppDb F (Record N J))
      : Type 0 where
    pub db : AppDb F (Record N J)
    pub wrote : Wrote hooked_db db schema.id id stored
    pub state : live' ≡ publish live key (after db) event

module _ {N J F W : Type 0} (to_json : Str → Option Str)
    (parse_filter : Str → Result (FilterNode N J)) (hooks : Hooks N J F) where
  -- Where SQLite refuses a second row of one id: an end user whose creation is answered is of the
  -- workspace, and the rule for creation is open. The fields are those that the hook before it
  -- left. A record of the new id then has exactly the columns of the schema, everything else is as
  -- the hook left it, and the answer, with the fields themselves, is published once.
  pub create-Left :
      (codecs : Codecs N J) (refuses : AppDb F (Record N J) → Str → Record N J → Option Str)
      (auth : Claims) (live live' : Live N J F W) (workspace app coll : Str) (fields : Fields N J)
      (id : Str) (now : ℕ) (r : Record N J)
      → ((x : AppDb F (Record N J)) (name : Str) (row : Record N J)
          → refuses x name row ≡ none
          → found x name row.id ≡ none)
      → is_admin_for_app auth workspace app ≡ false
      → create to_json parse_filter hooks codecs refuses auth live workspace app coll fields id now
        ≡ (live', ok r)
      → (db : AppDb F (Record N J)) × (schema : Schema F) × Open to_json parse_filter auth live.site
          workspace app coll db schema
        × (db1 : AppDb F (Record N J)) × (given : Fields N J) × (hooks.before_create
              (hook_request auth workspace app coll)
              db
              fields
            ≡ (db1, ok given))
        × (r.id ≡ id)
        × (r.fields ≡ given)
        × Left live live'
            (subscription_key workspace app coll)
            schema
            id
            (some (record r { fields = stored_fields codecs schema.fields given }))
            (record_created r)
            (λ x. hooks.after_create (hook_request auth workspace app coll) x r)
            db1
  unfolding create
  create-Left codecs refuses auth live live' workspace app coll fields id now r unique n h =
      let (db, schema, guarded, db1, given, before, db2, wrote, state) =
        run-ok live (subscription_key workspace app coll)
          (create_steps hooks codecs refuses (hook_request auth workspace app coll) fields id now)
          (creatable to_json parse_filter auth live.site workspace app coll) live' r h in
      let (free, there, same_id, same_fields) =
        create_record-Wrote codecs refuses db1 db2 schema given id now r unique wrote in
      (
        db,
        schema,
        creatable-Open to_json parse_filter auth live.site workspace app coll db schema n guarded,
        db1,
        given,
        before,
        same_id,
        same_fields,
        record { db = db2; wrote = there; state = state },
      )

module _ {N J F W : Type 0} (to_json : Str → Option Str)
    (parse_filter : Str → Result (FilterNode N J)) (selects : SqlFragment N J → Record N J → Bool)
    (newest_first : List (Record N J) → List (Record N J)) (hooks : Hooks N J F) where
  -- Where an order only permutes rows, a conjunction selects what both of its parts do, and `id = x`
  -- selects rows of the id x: an end user whose update is answered is of the workspace, the rule
  -- does not lock it, and the row of the id passes the filter of the rule. The record of the id is
  -- then the answer, the old one with the columns of the hook's patch; everything else is as the
  -- hook left it, and the answer is published once.
  pub update-Left :
      (codecs : Codecs N J) (refuses : AppDb F (Record N J) → Str → Fields N J → Option Str)
      (auth : Claims) (live live' : Live N J F W) (workspace app coll id : Str)
      (fields : Fields N J) (now : ℕ) (r : Record N J)
      → Orders selects newest_first
      → SelectsBoth selects newest_first
      → SelectsId selects
      → is_admin_for_app auth workspace app ≡ false
      → update to_json parse_filter selects newest_first hooks codecs refuses auth live workspace
          app coll id fields now
        ≡ (live', ok r)
      → (db : AppDb F (Record N J)) × (schema : Schema F) × (existing : Record N J) × Permitted
          to_json parse_filter selects newest_first auth live.site workspace app coll id
          AccessAction.update db schema existing
        × (db1 : AppDb F (Record N J)) × (patch : Fields N J) × (hooks.before_update
              (hook_request auth workspace app coll)
              db
              existing
              fields
            ≡ (db1, ok patch))
        × (old : Record N J) × (found db1 schema.id id ≡ some old)
        × (r ≡ record old {
          fields = patched_fields codecs schema.fields patch old.fields;
          updated_at = now;
        })
        × Left live live'
            (subscription_key workspace app coll)
            schema
            id
            (some r)
            (record_updated r)
            (λ x. hooks.after_update (hook_request auth workspace app coll) x r)
            db1
  unfolding update
  update-Left codecs refuses auth live live' workspace app coll id fields now r ordered both only_id
        n h =
      let (db, row, guarded, db1, patch, before, db2, wrote, state) =
        run-ok live (subscription_key workspace app coll)
          (update_steps hooks codecs refuses (hook_request auth workspace app coll) id fields now)
          (permitted_row to_json parse_filter selects newest_first auth live.site workspace app coll
            id AccessAction.update)
          live' r h in
      let (old, was, there, answer) =
        update_record-Wrote codecs refuses db1 db2 (row.0) id patch now r wrote in
      (
        db,
        row.0,
        row.1,
        permitted_row-Permitted to_json parse_filter selects newest_first auth live.site workspace
            app coll id AccessAction.update db (row.0) (row.1) ordered both only_id n guarded,
        db1,
        patch,
        before,
        old,
        was,
        answer,
        record { db = db2; wrote = there; state = state },
      )

  -- Under the same hypotheses: an end user whose deletion is answered is of the workspace, the rule
  -- does not lock it, and the row of the id passes the filter of the rule. The id then has no
  -- record; everything else is as the hook left it, and the deletion is published once.
  delete-Left :
      (auth : Claims) (live live' : Live N J F W) (workspace app coll id : Str)
      → Orders selects newest_first
      → SelectsBoth selects newest_first
      → SelectsId selects
      → is_admin_for_app auth workspace app ≡ false
      → delete to_json parse_filter selects newest_first hooks auth live workspace app coll id
        ≡ (live', ok tt)
      → (db : AppDb F (Record N J)) × (schema : Schema F) × (existing : Record N J) × Permitted
          to_json parse_filter selects newest_first auth live.site workspace app coll id
          AccessAction.delete db schema existing
        × (db1 : AppDb F (Record N J)) × (hooks.before_delete
              (hook_request auth workspace app coll)
              db
              existing
            ≡ (db1, ok tt))
        × Left live live'
            (subscription_key workspace app coll)
            schema
            id
            none
            (record_deleted id)
            (λ x. hooks.after_delete (hook_request auth workspace app coll) x id)
            db1
  unfolding delete
  delete-Left auth live live' workspace app coll id ordered both only_id n h =
      let (db, row, guarded, db1, agreed, before, db2, wrote, state) =
        run-ok live (subscription_key workspace app coll)
          (delete_steps hooks (hook_request auth workspace app coll) id)
          (permitted_row to_json parse_filter selects newest_first auth live.site workspace app coll
            id AccessAction.delete)
          live' tt h in
      let (old, was, there) = delete_record-Wrote db1 db2 (row.0) id wrote in
      (
        db,
        row.0,
        row.1,
        permitted_row-Permitted to_json parse_filter selects newest_first auth live.site workspace
            app coll id AccessAction.delete db (row.0) (row.1) ordered both only_id n guarded,
        db1,
        before,
        record { db = db2; wrote = there; state = state },
      )
