-- ===== src/Collections/Drops.antt =====
-- The creation and the deletion of collections in crates/rustbase-db/src/collections.rs.
use rustbase.Base.{
  ℕ, ◌≡◌, ◌≢◌, refl, sym, ap, subst, ◌∙◌, inl, inr, Bool, true, false, not, Bool-cases, Str, codes,
  str_eq, str_eq_iff, str_eq_refl, contains, all-contains, lookup, lookup-remove, Option, none,
  some, List, [], ◌∷◌, all, if◌then◌else◌, arith,
}
use rustbase.Schema.{Schema, is_valid_ident, validate_schema}
use rustbase.Collections.{
  Collection, Table, AppDb, DbResult, done, failed, reserved_collection_ids, find_collection,
  columns_sql, put_table, put_row, then_insert, checked_create, create_checked, create_collection,
  passed, passed-done, require-done, bind-done, delete_row, delete_meta, drop_table,
  delete_collection,
}
use rustbase.Collections.Lined.{InLine}

-- Every reserved name is an identifier.
is_valid_ident-reserved : all is_valid_ident reserved_collection_ids ≡ true
unfolding is_valid_ident
is_valid_ident-reserved = refl

abbrev pub fails : {A : Type 0} → DbResult A → Bool
fails (done a) = false
fails (failed e) = true

first_row : {V : Type 0} (k : Str) (v : V) (m : List (Str × V)) → lookup k ((k, v) ∷ m) ≡ some v
unfolding lookup
first_row k v m = ap (λ b. if b then some v else lookup k m) (str_eq_refl k)

later_row :
    {V : Type 0} (k j : Str) (v : V) (m : List (Str × V))
    → k ≢ j
    → lookup j ((k, v) ∷ m) ≡ lookup j m
unfolding lookup
later_row k j v m n = ground (arith, str_eq_iff k j)

module _ {F R : Type 0} where
  delete_meta-tables :
      (db : AppDb F R) (id : Str) (t : Option (Table R)) (c : Option (Collection F))
      → (delete_meta db id t c).0.tables ≡ db.tables
  unfolding delete_meta delete_row
  delete_meta-tables db id none c = refl
  delete_meta-tables db id (some t) none = refl
  delete_meta-tables db id (some t) (some c) = refl

  -- What a deletion leaves in the tables, by the name, whatever it answers.
  pub delete_collection-tables :
      (db : AppDb F R) (id name : Str)
      → is_valid_ident id ≡ true
      → lookup name (delete_collection db id).0.tables
        ≡ (if str_eq id name then none else lookup name db.tables)
  unfolding delete_collection
  delete_collection-tables db id name v = rw v (
      ap (lookup name)
        (delete_meta-tables (drop_table id db) id _ (lookup id (drop_table id db).collections))
      ∙ unfold drop_table in (lookup-remove id name db.tables))

  delete_meta-fails :
      (db : AppDb F R) (id : Str) (t : Option (Table R)) → fails (delete_meta db id t none).1 ≡ true
  unfolding delete_meta
  delete_meta-fails db id none = refl
  delete_meta-fails db id (some t) = refl

  -- A row that is not there is not there after a table is dropped.
  drop_table-absent :
      (db : AppDb F R) (id : Str)
      → lookup id db.collections ≡ none
      → lookup id (drop_table id db).collections ≡ none
  unfolding drop_table lookup
  drop_table-absent db id e = elim (Bool-cases (str_eq id (codes "_collections"))) [
    | inl c ↦ rw c refl
    | inr c ↦ rw c e
  ]

  -- A deletion under one of the reserved names, under which there is no collection, drops that
  -- table of the app, although it answers with an error.
  pub delete_collection-reserved :
      (db : AppDb F R) (id : Str)
      → contains reserved_collection_ids id ≡ true
      → lookup id db.collections ≡ none
      → (lookup id (delete_collection db id).0.tables ≡ none)
        × (fails (delete_collection db id).1 ≡ true)
  delete_collection-reserved db id r e =
      let v = all-contains is_valid_ident reserved_collection_ids id is_valid_ident-reserved r in
      (
        delete_collection-tables db id id v
            ∙ ap (λ b. if b then none else lookup id db.tables) (str_eq_refl id),
        unfold delete_collection in
            (rw (v, drop_table-absent db id e) (delete_meta-fails (drop_table id db) id _)),
      )

  delete_meta-other :
      (db : AppDb F R) (id name : Str) (t : Option (Table R)) (c : Option (Collection F))
      → str_eq id name ≡ false
      → lookup name (delete_meta db id t c).0.collections ≡ lookup name db.collections
  unfolding delete_meta delete_row
  delete_meta-other db id name none c n = refl
  delete_meta-other db id name (some t) none n = refl
  delete_meta-other db id name (some t) (some c) n =
      lookup-remove id name db.collections
      ∙ ap (λ b. if b then none else lookup name db.collections) n

  -- A deletion under the name `_collections` leaves no collection and no access rule of the app,
  -- although it answers with an error.
  delete_collection-all :
      (db : AppDb F R)
      → ((delete_collection db (codes "_collections")).0.collections ≡ [])
        × ((delete_collection db (codes "_collections")).0.rules ≡ [])
        × (fails (delete_collection db (codes "_collections")).1 ≡ true)
  unfolding delete_collection drop_table delete_meta is_valid_ident str_eq lookup
  delete_collection-all db =
      without_row (lookup (codes "_collections") (drop_table (codes "_collections") db).tables)
    where
      dropped : AppDb F R
      dropped = drop_table (codes "_collections") db

      without_row :
          (t : Option (Table R))
          → ((delete_meta dropped (codes "_collections") t none).0.collections ≡ [])
            × ((delete_meta dropped (codes "_collections") t none).0.rules ≡ [])
            × (fails (delete_meta dropped (codes "_collections") t none).1 ≡ true)
      without_row none = (refl, refl, refl)
      without_row (some t) = (refl, refl, refl)

  InLine-move :
      (db db' : AppDb F R) (name : Str)
      → lookup name db'.tables ≡ lookup name db.tables
      → lookup name db'.collections ≡ lookup name db.collections
      → InLine db name
      → InLine db' name
  InLine-move db db' name e d line = record {
    collection = line.collection;
    row = unfold find_collection in (d ∙ line.row);
    valid = line.valid;
    table = line.table;
    found = e ∙ line.found;
    lined = line.lined;
  }

  delete_collection-unchanged :
      (db : AppDb F R) (id : Str) → is_valid_ident id ≡ false → (delete_collection db id).0 ≡ db
  unfolding delete_collection
  delete_collection-unchanged db id v = rw v refl

  delete_collection-collections :
      (db : AppDb F R) (id name : Str)
      → is_valid_ident id ≡ true
      → str_eq id (codes "_collections") ≡ false
      → str_eq id name ≡ false
      → lookup name (delete_collection db id).0.collections ≡ lookup name db.collections
  unfolding delete_collection drop_table
  delete_collection-collections db id name v c n = rw v (
      delete_meta-other (drop_table id db) id name _ (lookup id (drop_table id db).collections) n
      ∙ rw c refl)

  -- A deletion leaves every other collection in line with its table, unless it is one of
  -- `_collections`, the table of the collections themselves.
  pub delete_collection-InLine :
      (db : AppDb F R) (id name : Str)
      → id ≢ codes "_collections"
      → id ≢ name
      → InLine db name
      → InLine (delete_collection db id).0 name
  delete_collection-InLine db id name c n line =
      let apart : str_eq id (codes "_collections") ≡ false =
        ground (arith, str_eq_iff id (codes "_collections")) in
      let differ : str_eq id name ≡ false = ground (arith, str_eq_iff id name) in
      elim (Bool-cases (is_valid_ident id)) [
        | inl v ↦
            InLine-move db (delete_collection db id).0 name
              (delete_collection-tables db id name v
                ∙ ap (λ b. if b then none else lookup name db.tables) differ)
              (delete_collection-collections db id name v apart differ) line
        | inr v ↦ subst (λ d. InLine d name) (sym (delete_collection-unchanged db id v)) line
      ]

module _ {F R : Type 0} (schema : Schema F) (now : ℕ) (db after : AppDb F R)
    (c : Collection F) where
  -- What a creation that went through found and left.
  abbrev Created : Type 0
  Created =
      (lookup schema.id db.tables ≡ none)
      × (after.tables ≡ (schema.id, record { columns = columns_sql schema; rows = [] }) ∷ db.tables)
      × (after.collections ≡ (schema.id, c) ∷ db.collections)
      × (c.schema ≡ schema)

  put_row-Created :
      (mid : AppDb F R) (o : Option (Collection F))
      → lookup schema.id db.tables ≡ none
      → mid.tables ≡ (schema.id, record { columns = columns_sql schema; rows = [] }) ∷ db.tables
      → mid.collections ≡ db.collections
      → put_row schema now mid o ≡ (after, done c)
      → Created
  put_row-Created mid (some old) e t d h = absurd (cc)
  put_row-Created mid none e t d h =
      let k : c ≡ record {
        id = schema.id;
        kind = schema.kind;
        schema = schema;
        created_at = now;
        updated_at = now;
      } =
        cc in
      (e, cc, cc, ap (λ (x : Collection F). x.schema) k)

  put_table-Created :
      (refusal : Option Str) (old : Option (Table R))
      → lookup schema.id db.tables ≡ old
      → then_insert schema now (put_table schema db refusal old) ≡ (after, done c)
      → Created
  put_table-Created (some x) old e h = absurd (cc)
  put_table-Created none (some t) e h = absurd (cc)
  put_table-Created none none e h =
      put_row-Created _ (lookup schema.id db.collections) e refl refl h

module _ {F R : Type 0} (refuses_create : Schema F → Option Str) where
  create_checked-Created :
      (db after : AppDb F R) (schema : Schema F) (now : ℕ) (c : Collection F)
      (r : DbResult (Unit {0}))
      → checked_create schema ≡ r
      → create_checked refuses_create db schema now r ≡ (after, done c)
      → (validate_schema schema ≡ none)
        × (contains reserved_collection_ids schema.id ≡ false)
        × Created schema now db after c
  unfolding checked_create
  create_checked-Created db after schema now c (failed e) k h = absurd (cc)
  create_checked-Created db after schema now c (done u) k h =
      let (v, valid, free) = bind-done (passed (validate_schema schema)) _ u k in
      (
        passed-done (validate_schema schema) v valid,
        not_true (contains reserved_collection_ids schema.id) (require-done _ _ u free),
        put_table-Created schema now db after c (refuses_create schema) (lookup schema.id db.tables)
            refl h,
      )
    where
      not_true : (b : Bool) → not b ≡ true → b ≡ false
      not_true b h = ground arith

  -- A collection that was created has a name that is not reserved and a table in line with its
  -- schema, where no table stood before; every other table and collection is as it was.
  pub create_collection-InLine :
      (db after : AppDb F R) (schema : Schema F) (now : ℕ) (c : Collection F) (name : Str)
      → schema.id ≢ name
      → create_collection refuses_create db schema now ≡ (after, done c)
      → (InLine after schema.id)
        × (contains reserved_collection_ids schema.id ≡ false)
        × (lookup schema.id db.tables ≡ none)
        × (lookup name after.tables ≡ lookup name db.tables)
        × (find_collection after name ≡ find_collection db name)
  create_collection-InLine db after schema now c name n h =
      let (valid, free, created) =
        create_checked-Created db after schema now c (checked_create schema) refl
          (unfold create_collection in h) in
      let (fresh, tables, rows, same) = created in
      (
        record {
          collection = c;
          row =
              unfold find_collection in
              (ap (lookup schema.id) rows ∙ first_row schema.id c db.collections);
          valid = ap validate_schema same ∙ valid;
          table = record { columns = columns_sql schema; rows = [] };
          found = ap (lookup schema.id) tables ∙ first_row schema.id _ db.tables;
          lined = λ n. ap (λ s. lookup n (columns_sql s)) (sym same);
        },
        free,
        fresh,
        ap (lookup name) tables ∙ later_row schema.id name _ db.tables n,
        unfold find_collection in
            (ap (lookup name) rows ∙ later_row schema.id name c db.collections n),
      )
