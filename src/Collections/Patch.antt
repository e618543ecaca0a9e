-- ===== src/Collections/Patch.antt =====
-- `patch_collection` of crates/rustbase-db/src/collections.rs: the change of a collection's schema.
use rustbase.Base.{
  ℕ, Bool, true, not, Str, codes, contains, upsert, remove, Option, none, some, List, [], ◌∷◌, ◌++◌,
  length, keep, is_empty, if◌then◌else◌, ◌||◌, str_eq,
}
use rustbase.Error.{DbError, invalid_identifier, row_not_found, sqlx}
use rustbase.Filter.{str_cmp, is_lt}
use rustbase.Schema.{
  Field, Schema, same_kind, sql_type, field_types_compatible, validate_schema, field_names,
}
use rustbase.Collections.{
  Collection, AppDb, DbResult, done, failed, ◌>>=◌, require, passed, ok_or, alter, find_collection,
}

pub record SchemaDiff : Type 0 where
  pub added : List Str
  pub dropped : List Str

module _ {F : Type 0} where
  -- The order of a `BTreeMap` with the names for its keys.
  unfoldable pub put_in_order : Field F → List (Field F) → List (Field F)
  unfolding str_cmp is_lt
  put_in_order f [] = f ∷ []
  put_in_order f (g ∷ gs) =
      if is_lt (str_cmp f.name g.name) then f ∷ g ∷ gs else g ∷ put_in_order f gs

  unfoldable pub by_name : List (Field F) → List (Field F)
  unfolding put_in_order
  by_name [] = []
  by_name (f ∷ fs) = put_in_order f (by_name fs)

  unfoldable pub find_field : Str → List (Field F) → Option (Field F)
  find_field name [] = none
  find_field name (f ∷ fs) = if str_eq f.name name then some f else find_field name fs

  abbrev pub keeps_type : Field F → Option (Field F) → Bool
  keeps_type f none = true
  keeps_type f (some old) = field_types_compatible old.ty f.ty

  -- The first field of the new schema, by name, whose type is not that of the old one.
  unfoldable pub first_changed : List (Field F) → List (Field F) → Option Str
  unfolding find_field field_types_compatible
  first_changed old [] = none
  first_changed old (f ∷ fs) =
      let rest = first_changed old fs in
      if keeps_type f (find_field f.name old) then rest else some f.name

  -- The fields of the first list that have no namesake in the second.
  unfoldable pub without : List (Field F) → List (Field F) → List (Field F)
  unfolding contains
  without fs others = keep (λ f. not (contains (field_names others) f.name)) fs

  -- The column of an ALTER TABLE … ADD COLUMN, as `col` spells it.
  unfoldable pub column_ddl : Field F → Str
  unfolding sql_type
  column_ddl f =
      let col = b'"' ∷ (f.name ++ (codes "\" " ++ sql_type f.ty)) in
      if f.unique then col ++ codes " UNIQUE" else col

module _ {F R : Type 0} where
  unfoldable pub add_column : Str → Field F → AppDb F R → AppDb F R
  unfolding alter sql_type
  add_column table f db = record db {
    tables = alter table (λ cols. cols ++ ((f.name, sql_type f.ty) ∷ [])) db.tables;
  }

  -- What SQLite refuses of an added column, by the database, the table and the text of the column.
  abbrev pub refuses_column :
      (AppDb F R → Str → Str → Option Str) → AppDb F R → Str → Field F → Option Str
  refuses_column refuses db table f = refuses db table (column_ddl f)

  unfoldable pub drop_column : Str → Field F → AppDb F R → AppDb F R
  unfolding alter
  drop_column table f db = record db { tables = alter table (remove f.name) db.tables }

-- What SQLite refuses of an ALTER TABLE, by the database, the table and the field.
module _ {F R : Type 0} (refuses : AppDb F R → Str → Field F → Option Str)
    (change : Str → Field F → AppDb F R → AppDb F R) where
  -- A loop of ALTER TABLE statements, up to the first that is refused.
  unfoldable pub alter_each : Str → List (Field F) → AppDb F R → AppDb F R × Option DbError
  alter_each table [] db = (db, none)
  alter_each table (f ∷ fs) db = elim (refuses db table f) [
    | some e ↦ (db, some (sqlx e))
    | none ↦ alter_each table fs (change table f db)
  ]

module _ {F R : Type 0} (refuses_add : AppDb F R → Str → Str → Option Str)
    (refuses_drop : AppDb F R → Str → Field F → Option Str) where
  -- The DDL of the added fields and, where none of it failed, of the dropped ones.
  abbrev pub then_drop :
      Str → List (Field F) → AppDb F R × Option DbError → AppDb F R × Option DbError
  then_drop table dropped (db, some e) = (db, some e)
  then_drop table dropped (db, none) = alter_each refuses_drop drop_column table dropped db

  unfoldable pub apply_ddl :
      Str → List (Field F) → List (Field F) → AppDb F R → AppDb F R × Option DbError
  unfolding alter_each add_column drop_column column_ddl
  apply_ddl table added dropped db =
      then_drop table dropped (alter_each (refuses_column refuses_add) add_column table added db)

  -- UPDATE _collections, and the answer.
  abbrev pub then_update :
      Collection F
      → Schema F
      → List (Field F)
      → List (Field F)
      → ℕ
      → AppDb F R × Option DbError
      → AppDb F R × DbResult (Collection F × SchemaDiff)
  then_update existing desired added dropped now (db, some e) = (db, failed e)
  then_update existing desired added dropped now (db, none) =
      let c : Collection F = record existing { schema = desired; updated_at = now } in
      (
        record db { collections = upsert desired.id c db.collections },
        done (c, record { added = field_names added; dropped = field_names dropped }),
      )

  abbrev pub carry_out :
      AppDb F R
      → Schema F
      → ℕ
      → DbResult (Collection F)
      → AppDb F R × DbResult (Collection F × SchemaDiff)
  carry_out db desired now (failed e) = (db, failed e)
  carry_out db desired now (done existing) =
      let added = without desired.fields existing.schema.fields in
      let dropped = without existing.schema.fields desired.fields in
      then_update existing desired added dropped now (apply_ddl desired.id added dropped db)

abbrev pub type_error : Option Str → Option DbError
type_error none = none
type_error (some name) = some (
    invalid_identifier
      (codes "changing the type of field '" ++ (name ++ codes "' is not supported")))

module _ {F R : Type 0} (show : ℕ → Str) where
  -- The checks before the first statement that writes, and the collection to change.
  unfoldable pub checked_patch : AppDb F R → Schema F → Bool → DbResult (Collection F)
  unfolding validate_schema find_collection same_kind by_name first_changed without
  checked_patch db desired force = do
    valid ← passed (validate_schema desired)
    existing ← ok_or (find_collection db desired.id) row_not_found
    same ←
        require (same_kind existing.kind desired.kind)
          (invalid_identifier (codes "changing collection kind is not supported"))
    typed ← passed (type_error (first_changed existing.schema.fields (by_name desired.fields)))
    let dropped = without existing.schema.fields desired.fields
    agreed ← require (is_empty dropped || force) (
        invalid_identifier (
          codes "schema patch would drop "
          ++ (show (length dropped) ++ codes " field(s); pass force=true to confirm")))
    done existing

module _ {F R : Type 0} (refuses_add : AppDb F R → Str → Str → Option Str)
    (refuses_drop : AppDb F R → Str → Field F → Option Str) (show : ℕ → Str) where
  unfoldable pub patch_collection :
      AppDb F R → Schema F → Bool → ℕ → AppDb F R × DbResult (Collection F × SchemaDiff)
  unfolding checked_patch apply_ddl
  patch_collection db desired force now =
      carry_out refuses_add refuses_drop db desired now (checked_patch show db desired force)
