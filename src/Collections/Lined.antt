-- ===== src/Collections/Lined.antt =====
-- The tables of an app's database are in line with the schemas of its collections, before and after
-- the operations of crates/rustbase-db/src/collections.rs.
use rustbase.Base.{
  ℕ, ◌≡◌, ◌≢◌, refl, sym, ap, ◌∙◌, inl, inr, Bool, true, false, not, ◌&&◌, ◌||◌, Bool-cases, Str,
  codes, str_eq_refl, contains, all-contains, lookup, lookup-upsert, Option, none, some, List, [],
  ◌∷◌, ◌++◌, any, is_empty, if◌then◌else◌, arith,
}
use rustbase.Error.{DbError}
use rustbase.Schema.{Field, Schema, sql_type, reserved_field_names, validate_schema, field_names}
use rustbase.Schema.Valid.{validate_schema_iff, is_field_name}
use rustbase.Collections.{
  Collection, Table, AppDb, done, find_collection, columns_sql, field_columns,
}
use rustbase.Collections.Columns.{
  or_else, lookup-append, lookup-without, contains-without, lookup-field_columns_iff,
  first_changed-lookup, added-Altered, dropped-Altered, alter_each-next, alter_each-refusal,
}
use rustbase.Collections.Patch.{
  refuses_column, column_ddl, SchemaDiff, by_name, first_changed, without, add_column, alter_each,
  patch_collection,
}
use rustbase.Collections.Patched.{patch_collection-Steps}

-- A collection has a schema that passes the checks, and a table of exactly its columns.
pub record InLine {F R : Type 0} (db : AppDb F R) (id : Str) : Type 0 where
  pub collection : Collection F
  pub row : find_collection db id ≡ some collection
  pub valid : validate_schema collection.schema ≡ none
  pub table : Table R
  pub found : lookup id db.tables ≡ some table
  pub lined : (n : Str) → lookup n table.columns ≡ lookup n (columns_sql collection.schema)

-- The columns that every table has.
abbrev own_columns : List (Str × Str)
own_columns =
    (codes "id", codes "TEXT")
    ∷ (codes "created_at", codes "TEXT")
    ∷ (codes "updated_at", codes "TEXT")
    ∷ []

module _ {F : Type 0} where
  lookup-columns_sql :
      (n : Str) (schema : Schema F)
      → lookup n (columns_sql schema)
        ≡ or_else (lookup n own_columns) (lookup n (field_columns schema.fields))
  unfolding columns_sql
  lookup-columns_sql n schema = lookup-append n own_columns (field_columns schema.fields)

  -- A field of a valid schema has none of the names that every table has.
  own_columns-apart :
      (n : Str) (schema : Schema F)
      → validate_schema schema ≡ none
      → contains (field_names schema.fields) n ≡ true
      → lookup n own_columns ≡ none
  own_columns-apart n schema valid h = own_reserved n (ground (arith, name))
    where
      name : is_field_name n ≡ true
      name =
          all-contains is_field_name (field_names schema.fields) n
            ((validate_schema_iff schema).0 valid).1 h

      own_reserved :
          (n : Str) → contains reserved_field_names n ≡ false → lookup n own_columns ≡ none
      own_reserved n h = unfold contains lookup in (ground arith)

-- The columns after the statements of a patch, by what they were before.
patched_columns :
    (own old new : Option Str) (in_old in_new : Bool)
    → (old ≡ none → in_old ≡ false)
    → (in_old ≡ false → old ≡ none)
    → (new ≡ none → in_new ≡ false)
    → (in_new ≡ false → new ≡ none)
    → (in_old ≡ true → own ≡ none)
    → (in_new ≡ true → own ≡ none)
    → ((a b : Str) → old ≡ some a → new ≡ some b → a ≡ b)
    → (if in_old && not in_new
        then none
        else or_else (or_else own old) (if in_old then none else new))
      ≡ or_else own new
patched_columns (some x) (some a) new true in_new p q r s t u same = absurd (ground (arith, t refl))
patched_columns (some x) (some a) new false in_new p q r s t u same =
    absurd (ground (arith, q refl))
patched_columns (some x) none new true in_new p q r s t u same = absurd (ground (arith, p refl))
patched_columns (some x) none new false in_new p q r s t u same = refl
patched_columns none (some a) (some b) true true p q r s t u same = ap some (same a b refl refl)
patched_columns none (some a) none true true p q r s t u same = absurd (ground (arith, r refl))
patched_columns none (some a) (some b) true false p q r s t u same = absurd (ground (arith, s refl))
patched_columns none (some a) none true false p q r s t u same = refl
patched_columns none (some a) new false in_new p q r s t u same = absurd (ground (arith, q refl))
patched_columns none none new true in_new p q r s t u same = absurd (ground (arith, p refl))
patched_columns none none new false in_new p q r s t u same = refl

-- The columns of the old schema, with the added ones and without the dropped, are the new ones.
columns_sql-patched :
    {F : Type 0} (n : Str) (old new : Schema F)
    → validate_schema old ≡ none
    → validate_schema new ≡ none
    → first_changed old.fields (by_name new.fields) ≡ none
    → (if contains (field_names (without old.fields new.fields)) n
        then none
        else or_else
            (lookup n (columns_sql old))
            (lookup n (field_columns (without new.fields old.fields))))
      ≡ lookup n (columns_sql new)
columns_sql-patched n old new v w same =
    let a = lookup-field_columns_iff n old.fields in
    let b = lookup-field_columns_iff n new.fields in
    rw
      (
        contains-without n old.fields new.fields,
        lookup-columns_sql n old,
        lookup-columns_sql n new,
        lookup-without n new.fields old.fields,
      )
      (patched_columns (lookup n own_columns) (lookup n (field_columns old.fields))
        (lookup n (field_columns new.fields)) (contains (field_names old.fields) n)
        (contains (field_names new.fields) n) a.0 a.1 b.0 b.1 (own_columns-apart n old v)
        (own_columns-apart n new w) (λ x y. first_changed-lookup n old.fields new.fields x y same))

-- The text of the column of a unique field ends in UNIQUE.
column_ddl-unique :
    {F : Type 0} (f : Field F) → f.unique ≡ true → (s : Str) × (column_ddl f ≡ s ++ codes " UNIQUE")
unfolding column_ddl
column_ddl-unique f u = (b'"' ∷ (f.name ++ (codes "\" " ++ sql_type f.ty)), rw u refl)

module _ {F R : Type 0} (refuses_add : AppDb F R → Str → Str → Option Str)
    (refuses_drop : AppDb F R → Str → Field F → Option Str) (show : ℕ → Str) where
  -- Where a collection has a table in line with its schema, a patch that succeeds leaves the table
  -- in line with the desired schema, which is then the collection's, whatever columns it added and
  -- dropped.
  pub patch_collection-InLine :
      (db after : AppDb F R) (desired : Schema F) (force : Bool) (now : ℕ)
      (answer : Collection F × SchemaDiff)
      → InLine db desired.id
      → patch_collection refuses_add refuses_drop show db desired force now ≡ (after, done answer)
      → (line : InLine after desired.id) × (line.collection.schema ≡ desired)
  patch_collection-InLine db after desired force now answer line h =
      let s =
        patch_collection-Steps refuses_add refuses_drop show db after desired force now answer h in
      let (valid, row, same_types, agreed) = s.checks in
      let same : line.collection ≡ s.existing = cc in
      let old = s.existing.schema in
      let adds =
        added-Altered (refuses_column refuses_add) desired.id (without desired.fields old.fields) db
          s.added line.table line.found s.adds in
      let drops =
        dropped-Altered refuses_drop desired.id (without old.fields desired.fields) s.added
          s.dropped adds.table adds.found s.drops in
      let c : Collection F = record s.existing { schema = desired; updated_at = now } in
      (
        record {
          collection = c;
          row =
              unfold find_collection in
              (ap (lookup desired.id) s.written
                ∙ lookup-upsert desired.id desired.id c s.dropped.collections
                ∙ ap (λ b. if b then some c else lookup desired.id s.dropped.collections)
                    (str_eq_refl desired.id));
          valid = valid;
          table = drops.table;
          found = ap (lookup desired.id) s.same_tables ∙ drops.found;
          lined = λ n.
              drops.lined n
              ∙ ap
                  (λ o.
                    if contains (field_names (without old.fields desired.fields)) n
                    then none
                    else o)
                  (adds.lined n
                    ∙ ap
                        (λ o.
                          or_else o (lookup n (field_columns (without desired.fields old.fields))))
                        (line.lined n
                          ∙ ap (λ (d : Collection F). lookup n (columns_sql d.schema)) same))
              ∙ columns_sql-patched n old desired
                  (ap (λ (d : Collection F). validate_schema d.schema) (sym same) ∙ line.valid)
                  valid same_types;
        },
        refl,
      )

  -- Without `force` a patch that succeeds drops no column.
  pub patch_collection-unforced :
      (db after : AppDb F R) (desired : Schema F) (now : ℕ) (answer : Collection F × SchemaDiff)
      → patch_collection refuses_add refuses_drop show db desired false now ≡ (after, done answer)
      → answer.1.dropped ≡ []
  patch_collection-unforced db after desired now answer h =
      let s =
        patch_collection-Steps refuses_add refuses_drop show db after desired false now answer h in
      s.same_diff ∙ none_left (without s.existing.schema.fields desired.fields) s.checks.3
    where
      none_left : (fs : List (Field F)) → (is_empty fs || false) ≡ true → field_names fs ≡ []
      none_left [] h = refl
      none_left (f ∷ fs) h = cc

  -- Where SQLite refuses every added column whose text ends in UNIQUE, no patch that adds a unique
  -- field to a collection succeeds.
  pub patch_collection-unique :
      ((db : AppDb F R) (t s : Str)
        → (e : Str) × (refuses_add db t (s ++ codes " UNIQUE") ≡ some e))
      → (db after : AppDb F R) (desired : Schema F) (force : Bool) (now : ℕ) (old : Collection F)
        (answer : Collection F × SchemaDiff)
      → find_collection db desired.id ≡ some old
      → any (λ f. f.unique) (without desired.fields old.schema.fields) ≡ true
      → patch_collection refuses_add refuses_drop show db desired force now ≢ (after, done answer)
  patch_collection-unique refuses db after desired force now old answer found unique h =
      let s =
        patch_collection-Steps refuses_add refuses_drop show db after desired force now answer h in
      let same : s.existing ≡ old = cc in
      alter_each-refused desired.id (without desired.fields old.schema.fields) db s.added unique (
        ap
          (λ (c : Collection F).
            alter_each (refuses_column refuses_add) add_column desired.id
              (without desired.fields c.schema.fields) db)
          (sym same)
        ∙ s.adds)
    where
      none_left : {e : DbError} → ◌≡◌ {A = Option DbError} (some e) none → ⊥
      none_left k = cc

      unique_refused :
          (db : AppDb F R) (t : Str) (f : Field F)
          → f.unique ≡ true
          → (e : Str) × (refuses_column refuses_add db t f ≡ some e)
      unique_refused db t f u =
          let (s, e) = column_ddl-unique f u in
          let (x, r) = refuses db t s in (x, ap (refuses_add db t) e ∙ r)

      alter_each-refused :
          (t : Str) (fs : List (Field F)) (db after : AppDb F R)
          → any (λ f. f.unique) fs ≡ true
          → alter_each (refuses_column refuses_add) add_column t fs db ≢ (after, none)
      alter_each-refused t [] db after u h = cc
      alter_each-refused t (f ∷ fs) db after u h = elim (Bool-cases f.unique) [
        | inl e ↦
            let (x, r) = unique_refused db t f e in
            let k =
              sym (alter_each-refusal (refuses_column refuses_add) add_column t f fs db x r) ∙ h in
            none_left (ap (λ (p : AppDb F R × Option DbError). p.1) k)
        | inr e ↦
            alter_each-refused t fs (add_column t f db) after (ground arith)
              (alter_each-next (refuses_column refuses_add) add_column t f fs db after h)
      ]
