-- ===== src/Records/Stored.antt =====
-- create_record, find_record, update_record and delete_record of
-- crates/rustbase-db/src/records.rs: the statements on the rows of a collection's table. What becomes
-- of a number in a REAL column, of a value as JSON text, and what SQLite refuses by a constraint are
-- parameters. A new row stands behind the others.
use rustbase.Base.{
  ℕ, ◌==◌, Bool, not, Str, codes, str_eq, lookup, upsert, Option, none, some, List, [], ◌∷◌, ◌++◌,
  map, keep, length, if◌then◌else◌,
}
use rustbase.Error.{row_not_found, sqlx}
use rustbase.Filter.{or_null, Value, null, boolean, number, string}
use rustbase.Schema.{FieldType, text, bool, email, url, date, json, relation, file, Field, Schema}
use rustbase.Collections.{Table, AppDb, DbResult, done, failed}
use rustbase.Records.{Record}

-- The codecs of the columns.
pub record Codecs (N J : Type 0) : Type 0 where
  pub through_real : N → Option N
  pub through_json : Value N J → Value N J
  pub to_string : Value N J → Str

module _ {N J : Type 0} where
  abbrev number_or_null : Option N → Value N J
  number_or_null none = null
  number_or_null (some n) = number n

module _ {N J : Type 0} (codecs : Codecs N J) where
  -- What `extract_field` reads of what `push_field_value` wrote.
  unfoldable as_text : Value N J → Value N J
  as_text (string s) = string s
  as_text null = null
  as_text v = string (codecs.to_string v)

  unfoldable as_bool : Value N J → Value N J
  as_bool (boolean b) = boolean b
  as_bool v = null

  unfoldable as_number : Value N J → Value N J
  as_number (number n) = number_or_null (codecs.through_real n)
  as_number v = null

  unfoldable as_json : Value N J → Value N J
  as_json null = null
  as_json v = codecs.through_json v

  unfoldable kept_as : {F : Type 0} → FieldType F → Value N J → Value N J
  unfolding as_text as_bool as_number as_json
  kept_as bool v = as_bool v
  kept_as (FieldType.number lo hi) v = as_number v
  kept_as json v = as_json v
  kept_as (text lo hi) v = as_text v
  kept_as email v = as_text v
  kept_as url v = as_text v
  kept_as date v = as_text v
  kept_as (relation c many) v = as_text v
  kept_as (file size types) v = as_text v

  -- The columns of a new row, by the fields of the schema.
  unfoldable pub stored_fields :
      {F : Type 0} → List (Field F) → List (Str × Value N J) → List (Str × Value N J)
  unfolding kept_as
  stored_fields [] given = []
  stored_fields (f ∷ fs) given =
      (f.name, kept_as f.ty (or_null (lookup f.name given))) ∷ stored_fields fs given

  abbrev patched_value : {F : Type 0} → FieldType F → Option (Value N J) → Value N J → Value N J
  patched_value ty none old = old
  patched_value ty (some v) old = kept_as ty v

  -- The columns of a row after an update: those that the patch names are set.
  unfoldable pub patched_fields :
      {F : Type 0}
      → List (Field F)
      → List (Str × Value N J)
      → List (Str × Value N J)
      → List (Str × Value N J)
  unfolding kept_as
  patched_fields [] patch old = []
  patched_fields (f ∷ fs) patch old =
      (f.name, patched_value f.ty (lookup f.name patch) (or_null (lookup f.name old)))
      ∷ patched_fields fs patch old

  abbrev pub patched_row :
      {F : Type 0} → Schema F → Str → List (Str × Value N J) → ℕ → Record N J → Record N J
  patched_row schema id patch now r =
      if str_eq r.id id
      then record r { fields = patched_fields schema.fields patch r.fields; updated_at = now }
      else r

module _ {N J : Type 0} where
  unfoldable pub find_record : List (Record N J) → Str → Option (Record N J)
  find_record [] id = none
  find_record (r ∷ rs) id = if str_eq r.id id then some r else find_record rs id

  abbrev reread : Option (Record N J) → DbResult (Record N J)
  reread none = failed row_not_found
  reread (some r) = done r

  abbrev pub row_has_id : Str → Record N J → Bool
  row_has_id id r = str_eq r.id id

module _ {N J F : Type 0} where
  abbrev pub set_rows :
      AppDb F (Record N J) → Str → Table (Record N J) → List (Record N J) → AppDb F (Record N J)
  set_rows db name t rows = record db { tables = upsert name (record t { rows = rows }) db.tables }

module _ {N J F : Type 0} (codecs : Codecs N J)
    (refuses : AppDb F (Record N J) → Str → Record N J → Option Str) where
  abbrev pub inserted_row :
      AppDb F (Record N J)
      → Schema F
      → List (Str × Value N J)
      → Record N J
      → Option Str
      → Option (Table (Record N J))
      → AppDb F (Record N J) × DbResult (Record N J)
  inserted_row db schema fields row refusal none = (db, failed (sqlx (codes "no such table")))
  inserted_row db schema fields row (some why) (some t) = (db, failed (sqlx why))
  inserted_row db schema fields row none (some t) =
      (set_rows db schema.id t (t.rows ++ row ∷ []), done (record row { fields = fields }))

  -- The answer has the fields as they were given, the row those of the schema.
  unfoldable pub create_record :
      AppDb F (Record N J)
      → Schema F
      → List (Str × Value N J)
      → Str
      → ℕ
      → AppDb F (Record N J) × DbResult (Record N J)
  unfolding stored_fields
  create_record db schema fields id now =
      let row : Record N J = record {
        id = id;
        collection = schema.id;
        fields = stored_fields codecs schema.fields fields;
        created_at = now;
        updated_at = now;
      } in
      inserted_row db schema fields row (refuses db schema.id row) (lookup schema.id db.tables)

module _ {N J F : Type 0} (codecs : Codecs N J)
    (refuses : AppDb F (Record N J) → Str → List (Str × Value N J) → Option Str) where
  abbrev pub updated :
      AppDb F (Record N J)
      → Schema F
      → Str
      → List (Str × Value N J)
      → ℕ
      → Option Str
      → Option (Table (Record N J))
      → AppDb F (Record N J) × DbResult (Record N J)
  updated db schema id patch now refusal none = (db, failed (sqlx (codes "no such table")))
  updated db schema id patch now (some why) (some t) = (db, failed (sqlx why))
  updated db schema id patch now none (some t) =
      let rows = map (patched_row codecs schema id patch now) t.rows in
      if length (keep (row_has_id id) t.rows) == 0
      then (db, failed row_not_found)
      else (set_rows db schema.id t rows, reread (find_record rows id))

  unfoldable pub update_record :
      AppDb F (Record N J)
      → Schema F
      → Str
      → List (Str × Value N J)
      → ℕ
      → AppDb F (Record N J) × DbResult (Record N J)
  unfolding patched_fields find_record
  update_record db schema id patch now =
      updated db schema id patch now (refuses db schema.id patch) (lookup schema.id db.tables)

module _ {N J F : Type 0} where
  abbrev pub deleted :
      AppDb F (Record N J)
      → Schema F
      → Str
      → Option (Table (Record N J))
      → AppDb F (Record N J) × DbResult (Unit {0})
  deleted db schema id none = (db, failed (sqlx (codes "no such table")))
  deleted db schema id (some t) =
      if length (keep (row_has_id id) t.rows) == 0
      then (db, failed row_not_found)
      else (set_rows db schema.id t (keep (λ r. not (row_has_id id r)) t.rows), done tt)

  unfoldable pub delete_record :
      AppDb F (Record N J) → Schema F → Str → AppDb F (Record N J) × DbResult (Unit {0})
  delete_record db schema id = deleted db schema id (lookup schema.id db.tables)
