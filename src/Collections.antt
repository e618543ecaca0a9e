-- ===== src/Collections.antt =====
-- crates/rustbase-db/src/collections.rs: the collections of an app's database. The database is its
-- tables by name, with their columns and rows, the rows of `_collections`, and those of
-- `_access_rules`. A row of `_collections` is the collection that it decodes to. What SQLite
-- refuses of the DDL statements beyond a name that is taken or missing, the text of its errors and
-- the print of a number are parameters. Each statement commits on its own: an operation returns
-- the database as its last statement left it, with its result or error. But for the deletion, which
-- may drop them, the operations take `_collections` and `_access_rules` to be there.
pub mod Patch
pub mod Columns
pub mod Patched
pub mod Lined
pub mod Drops
pub mod Api
pub mod Requests
use rustbase.Base.{
  ℕ, ◌≡◌, refl, Bool, true, false, not, ◌&&◌, ◌||◌, Str, codes, str_eq, contains, lookup, upsert,
  remove, Option, none, some, List, [], ◌∷◌, ◌++◌, map, length, keep, is_empty, if◌then◌else◌,
}
use rustbase.Error.{DbError, invalid_identifier, row_not_found, sqlx}
use rustbase.Filter.{Ordering, less, equal, greater, str_cmp, is_lt}
use rustbase.Schema.{
  CollectionKind, Field, Schema, same_kind, sql_type, field_types_compatible, is_valid_ident,
  validate_schema, field_names,
}

pub record Collection (F : Type 0) : Type 0 where
  pub id : Str
  pub kind : CollectionKind
  pub schema : Schema F
  pub created_at : ℕ
  pub updated_at : ℕ

-- A table: its columns with their types, and its rows.
pub record Table (R : Type 0) : Type 0 where
  pub columns : List (Str × Str)
  pub rows : List R

pub record RuleRow : Type 0 where
  pub collection_id : Str
  pub action : Str
  pub filter : Option Str

pub record AppDb (F R : Type 0) : Type 0 where
  pub tables : List (Str × Table R)
  pub collections : List (Str × Collection F)
  pub rules : List RuleRow

-- A result of an operation of this module.
pub data DbResult (A : Type 0) : Type 0 where
  done : A → DbResult A
  failed : DbError → DbResult A

infixl 5 ◌>>=◌
abbrev pub ◌>>=◌ : {A B : Type 0} → DbResult A → (A → DbResult B) → DbResult B
failed e >>= next = failed e
done a >>= next = next a

abbrev pub require : Bool → DbError → DbResult (Unit {0})
require true e = done tt
require false e = failed e

-- The error of a check, where it has one.
abbrev pub passed : Option DbError → DbResult (Unit {0})
passed none = done tt
passed (some e) = failed e

abbrev pub ok_or : {A : Type 0} → Option A → DbError → DbResult A
ok_or none e = failed e
ok_or (some a) e = done a

pub bind-done :
    {A B : Type 0} (m : DbResult A) (f : A → DbResult B) (b : B)
    → (m >>= f) ≡ done b
    → (a : A) × (m ≡ done a) × (f a ≡ done b)
bind-done (done a) f b h = (a, refl, h)
bind-done (failed e) f b h = absurd (cc)

pub require-done : (b : Bool) (e : DbError) (u : Unit {0}) → require b e ≡ done u → b ≡ true
require-done true e u h = refl
require-done false e u h = cc

pub passed-done : (o : Option DbError) (u : Unit {0}) → passed o ≡ done u → o ≡ none
passed-done none u h = refl
passed-done (some e) u h = cc

pub ok_or-done : {A : Type 0} (o : Option A) (e : DbError) (a : A) → ok_or o e ≡ done a → o ≡ some a
ok_or-done none e a h = cc
ok_or-done (some b) e a h = cc

abbrev pub reserved_collection_ids : List Str
reserved_collection_ids =
    codes "_collections"
    ∷ codes "_access_rules"
    ∷ codes "_migrations"
    ∷ codes "policies"
    ∷ codes "audit_log"
    ∷ codes "_files"
    ∷ codes "users"
    ∷ codes "oauth_providers"
    ∷ codes "user_oauth_links"
    ∷ codes "_refresh_tokens"
    ∷ codes "_email_verifications"
    ∷ codes "_password_resets"
    ∷ codes "_email_otps"
    ∷ codes "_oauth_states"
    ∷ codes "_user_totp"
    ∷ codes "_mfa_challenges"
    ∷ []

-- `columns_sql`: the names and types of the columns, without their constraints.
abbrev pub field_columns : {F : Type 0} → List (Field F) → List (Str × Str)
field_columns = map (λ f. (f.name, sql_type f.ty))

unfoldable pub columns_sql : {F : Type 0} → Schema F → List (Str × Str)
unfolding sql_type
columns_sql schema =
    (codes "id", codes "TEXT")
    ∷ (codes "created_at", codes "TEXT")
    ∷ (codes "updated_at", codes "TEXT")
    ∷ field_columns schema.fields

-- ALTER TABLE of a table that is there.
unfoldable pub alter :
    {R : Type 0}
    → Str
    → (List (Str × Str) → List (Str × Str))
    → List (Str × Table R)
    → List (Str × Table R)
alter name f [] = []
alter name f ((n, t) ∷ ts) =
    if str_eq n name then (n, record t { columns = f t.columns }) ∷ ts else (n, t) ∷ alter name f ts

module _ {F R : Type 0} where
  unfoldable pub find_collection : AppDb F R → Str → Option (Collection F)
  find_collection db id = lookup id db.collections

  -- DELETE FROM _collections, with the cascade of `_access_rules`.
  unfoldable pub delete_row : Str → AppDb F R → AppDb F R
  delete_row id db = record db {
    collections = remove id db.collections;
    rules = keep (λ r. not (str_eq r.collection_id id)) db.rules;
  }

  -- DROP TABLE IF EXISTS. The rows of `_collections` and `_access_rules` go with their tables, and
  -- those of `_access_rules`, by its foreign key, also with `_collections`.
  unfoldable pub drop_table : Str → AppDb F R → AppDb F R
  drop_table name db = record db {
    tables = remove name db.tables;
    collections = if str_eq name (codes "_collections") then [] else db.collections;
    rules =
        if str_eq name (codes "_collections") || str_eq name (codes "_access_rules")
        then []
        else db.rules;
  }

module _ {F R : Type 0} where
  -- CREATE TABLE, by its refusal and the table that has the name.
  abbrev pub put_table :
      Schema F → AppDb F R → Option Str → Option (Table R) → AppDb F R × Option DbError
  put_table schema db (some e) old = (db, some (sqlx e))
  put_table schema db none (some t) = (db, some (sqlx (codes "table already exists")))
  put_table schema db none none = (
    record db {
      tables = (schema.id, record { columns = columns_sql schema; rows = [] }) ∷ db.tables;
    },
    none,
  )

  -- INSERT INTO _collections, by the row that has the id.
  abbrev pub put_row :
      Schema F → ℕ → AppDb F R → Option (Collection F) → AppDb F R × DbResult (Collection F)
  put_row schema now db (some old) = (db, failed (sqlx (codes "UNIQUE constraint failed")))
  put_row schema now db none =
      let c : Collection F = record {
        id = schema.id;
        kind = schema.kind;
        schema = schema;
        created_at = now;
        updated_at = now;
      } in
      (record db { collections = (schema.id, c) ∷ db.collections }, done c)

  -- The INSERT where CREATE TABLE did not fail.
  abbrev pub then_insert :
      Schema F → ℕ → AppDb F R × Option DbError → AppDb F R × DbResult (Collection F)
  then_insert schema now (db, some e) = (db, failed e)
  then_insert schema now (db, none) = put_row schema now db (lookup schema.id db.collections)

-- The checks before the first statement.
unfoldable pub checked_create : {F : Type 0} → Schema F → DbResult (Unit {0})
unfolding validate_schema
checked_create schema = do
  valid ← passed (validate_schema schema)
  require (not (contains reserved_collection_ids schema.id))
      (invalid_identifier (codes "collection id '" ++ (schema.id ++ codes "' is reserved")))

module _ {F R : Type 0} (refuses_create : Schema F → Option Str) where
  abbrev pub create_checked :
      AppDb F R → Schema F → ℕ → DbResult (Unit {0}) → AppDb F R × DbResult (Collection F)
  create_checked db schema now (failed e) = (db, failed e)
  create_checked db schema now (done u) =
      then_insert schema now
        (put_table schema db (refuses_create schema) (lookup schema.id db.tables))

  unfoldable pub create_collection : AppDb F R → Schema F → ℕ → AppDb F R × DbResult (Collection F)
  unfolding checked_create columns_sql
  create_collection db schema now = create_checked db schema now (checked_create schema)

module _ {F R : Type 0} where
  -- The DELETE from `_collections` in the database without the data table, by whether that table
  -- and the row of the collection are there.
  unfoldable pub delete_meta :
      AppDb F R → Str → Option (Table R) → Option (Collection F) → AppDb F R × DbResult (Unit {0})
  unfolding delete_row
  delete_meta db id none c = (db, failed (sqlx (codes "no such table: _collections")))
  delete_meta db id (some t) none = (db, failed row_not_found)
  delete_meta db id (some t) (some c) = (delete_row id db, done tt)

  unfoldable pub delete_collection : AppDb F R → Str → AppDb F R × DbResult (Unit {0})
  unfolding is_valid_ident delete_meta drop_table
  delete_collection db id =
      if not (is_valid_ident id)
      then (db, failed (invalid_identifier id))
      else delete_meta (drop_table id db) id
          (lookup (codes "_collections") (drop_table id db).tables)
          (lookup id (drop_table id db).collections)
