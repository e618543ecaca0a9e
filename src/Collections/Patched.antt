-- ===== src/Collections/Patched.antt =====
-- What a successful `patch_collection` of crates/rustbase-db/src/collections.rs did.
use rustbase.Base.{
  ℕ, ◌≡◌, refl, sym, ap, subst, Bool, true, ◌||◌, Str, upsert, Option, none, some, is_empty,
}
use rustbase.Error.{DbError, row_not_found}
use rustbase.Schema.{Field, Schema, same_kind, validate_schema, field_names}
use rustbase.Collections.{
  Collection, AppDb, DbResult, done, failed, bind-done, passed, passed-done, require, require-done,
  ok_or, ok_or-done, find_collection,
}
use rustbase.Collections.Patch.{
  SchemaDiff, by_name, first_changed, without, add_column, refuses_column, drop_column, alter_each,
  apply_ddl, type_error, checked_patch, patch_collection, carry_out, then_update, then_drop,
}

no_type_error : (o : Option Str) → type_error o ≡ none → o ≡ none
no_type_error none h = refl
no_type_error (some name) h = cc

answer_of : {A : Type 0} {a b : A} → ◌≡◌ {A = DbResult A} (done a) (done b) → a ≡ b
answer_of h = cc

module _ {F R : Type 0} (refuses_add : AppDb F R → Str → Str → Option Str)
    (refuses_drop : AppDb F R → Str → Field F → Option Str) (show : ℕ → Str) (db after : AppDb F R)
    (desired : Schema F) (force : Bool) (now : ℕ) (answer : Collection F × SchemaDiff) where
  -- The checks of a patch that went through.
  abbrev pub Checked : Collection F → Type 0
  Checked existing =
      (validate_schema desired ≡ none)
      × (find_collection db desired.id ≡ some existing)
      × (first_changed existing.schema.fields (by_name desired.fields) ≡ none)
      × ((is_empty (without existing.schema.fields desired.fields) || force) ≡ true)

  -- The steps of a patch that went through.
  pub record Steps : Type 0 where
    pub existing : Collection F
    pub checks : Checked existing
    pub added : AppDb F R
    pub dropped : AppDb F R
    pub adds :
        alter_each
          (refuses_column refuses_add)
          add_column
          desired.id
          (without desired.fields existing.schema.fields)
          db
        ≡ (added, none)
    pub drops :
        alter_each refuses_drop drop_column desired.id
          (without existing.schema.fields desired.fields)
          added
        ≡ (dropped, none)
    pub same_tables : after.tables ≡ dropped.tables
    pub written :
        after.collections
        ≡ upsert desired.id
            (record existing { schema = desired; updated_at = now })
            dropped.collections
    pub same_diff : answer.1.dropped ≡ field_names (without existing.schema.fields desired.fields)

  checked_patch-Checked :
      (existing : Collection F)
      → checked_patch show db desired force ≡ done existing
      → Checked existing
  unfolding checked_patch
  checked_patch-Checked existing h =
      let (u, valid, h1) = bind-done (passed (validate_schema desired)) _ existing h in
      let (c, found, h2) =
        bind-done (ok_or (find_collection db desired.id) row_not_found) _ existing h1 in
      let (v, kind, h3) = bind-done (require (same_kind c.kind desired.kind) _) _ existing h2 in
      let (w, typed, h4) =
        bind-done (passed (type_error (first_changed c.schema.fields (by_name desired.fields)))) _
          existing h3 in
      let (x, agreed, h5) =
        bind-done (require (is_empty (without c.schema.fields desired.fields) || force) _) _
          existing h4 in
      let same : c ≡ existing = cc in
      subst Checked same (
        passed-done (validate_schema desired) u valid,
        ok_or-done (find_collection db desired.id) row_not_found c found,
        no_type_error (first_changed c.schema.fields (by_name desired.fields))
            (passed-done (type_error _) w typed),
        require-done _ _ x agreed,
      )

  module _ (existing : Collection F) (checks : Checked existing) where
    Steps-drops :
        (mid : AppDb F R) (r : AppDb F R × Option DbError)
        → alter_each
            (refuses_column refuses_add)
            add_column
            desired.id
            (without desired.fields existing.schema.fields)
            db
          ≡ (mid, none)
        → alter_each refuses_drop drop_column desired.id
            (without existing.schema.fields desired.fields)
            mid
          ≡ r
        → then_update refuses_add refuses_drop existing desired
            (without desired.fields existing.schema.fields)
            (without existing.schema.fields desired.fields)
            now
            r
          ≡ (after, done answer)
        → Steps
    Steps-drops mid (d, some e) adds drops h = absurd (cc)
    Steps-drops mid (d, none) adds drops h = record {
      existing = existing;
      checks = checks;
      added = mid;
      dropped = d;
      adds = adds;
      drops = drops;
      same_tables = sym (ap (λ r. r.0.tables) h);
      written = sym (ap (λ r. r.0.collections) h);
      same_diff =
          sym (ap (λ (p : Collection F × SchemaDiff). p.1.dropped) (answer_of (ap (λ r. r.1) h)));
    }

    Steps-adds :
        (r : AppDb F R × Option DbError)
        → alter_each
            (refuses_column refuses_add)
            add_column
            desired.id
            (without desired.fields existing.schema.fields)
            db
          ≡ r
        → then_update refuses_add refuses_drop existing desired
            (without desired.fields existing.schema.fields)
            (without existing.schema.fields desired.fields)
            now
            (then_drop refuses_add refuses_drop desired.id
              (without existing.schema.fields desired.fields)
              r)
          ≡ (after, done answer)
        → Steps
    Steps-adds (d, some e) adds h = absurd (cc)
    Steps-adds (d, none) adds h = Steps-drops d _ adds refl h

  carried_out :
      (r : DbResult (Collection F))
      → checked_patch show db desired force ≡ r
      → carry_out refuses_add refuses_drop db desired now r ≡ (after, done answer)
      → Steps
  unfolding apply_ddl
  carried_out (failed e) c h = absurd (cc)
  carried_out (done existing) c h = Steps-adds existing (checked_patch-Checked existing c) _ refl h

  -- A patch that went through went through all of its steps.
  pub patch_collection-Steps :
      patch_collection refuses_add refuses_drop show db desired force now ≡ (after, done answer)
      → Steps
  unfolding patch_collection
  patch_collection-Steps h = carried_out _ refl h
