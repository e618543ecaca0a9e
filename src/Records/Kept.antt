-- ===== src/Records/Kept.antt =====
-- What create_record, update_record and delete_record of crates/rustbase-db/src/records.rs leave in
-- the database of an app, told by what a search for a record then finds.
use rustbase.Base.{
  ℕ, ◌≡◌, inl, inr, refl, sym, ap, subst, ◌∙◌, not, Bool-cases, ◌==◌, Str, lookup, Option, none,
  some, List, [], ◌∷◌, ◌++◌, keep, length,
}
use rustbase.Error.{DbError}
use rustbase.Filter.{Value}
use rustbase.Schema.{Schema}
use rustbase.Collections.{Table, AppDb, done, failed}
use rustbase.Records.{Record}
use rustbase.Records.Stored.{
  Codecs, stored_fields, row_has_id, set_rows, inserted_row, create_record, deleted, delete_record,
}
use rustbase.Records.Found.{
  in_table, found, Wrote, find_record-keep, find_record-append, counted, set_rows-Wrote,
}

module _ {N J F : Type 0} where
  -- A deletion that succeeds removes the record of the id, which was there, and changes nothing else.
  pub delete_record-Wrote :
      (db db' : AppDb F (Record N J)) (schema : Schema F) (id : Str)
      → delete_record db schema id ≡ (db', done tt)
      → (old : Record N J) × (found db schema.id id ≡ some old) × Wrote db db' schema.id id none
  unfolding delete_record
  delete_record-Wrote db db' schema id h = on_table (lookup schema.id db.tables) refl h
    where
      on_table :
          (o : Option (Table (Record N J)))
          → lookup schema.id db.tables ≡ o
          → deleted db schema id o ≡ (db', done tt)
          → (old : Record N J) × (found db schema.id id ≡ some old) × Wrote db db' schema.id id none
      on_table none e h = absurd (cc)
      on_table (some t) e h = elim (Bool-cases (length (keep (row_has_id id) t.rows) == 0)) [
        | inl z ↦ absurd (let h' = rw z at h in cc)
        | inr z ↦
            let (old, f, same) = counted id t.rows z in
            let left : set_rows db schema.id t (keep (λ r. not (row_has_id id r)) t.rows) ≡ db' =
              ap (λ p. p.0) (rw z at h) in
            (
              old,
              ap (in_table id) e ∙ f,
              subst (λ x. Wrote db x schema.id id none) left
                  (set_rows-Wrote db schema.id id t _ none e (λ i. find_record-keep id i t.rows)),
            )
      ]

  -- A deletion that fails changes nothing.
  pub delete_record-failed :
      (db db' : AppDb F (Record N J)) (schema : Schema F) (id : Str) (e : DbError)
      → delete_record db schema id ≡ (db', failed e)
      → db' ≡ db
  unfolding delete_record
  delete_record-failed db db' schema id e h = on_table (lookup schema.id db.tables) h
    where
      on_table :
          (o : Option (Table (Record N J))) → deleted db schema id o ≡ (db', failed e) → db' ≡ db
      on_table none h = sym (ap (λ p. p.0) h)
      on_table (some t) h = elim (Bool-cases (length (keep (row_has_id id) t.rows) == 0)) [
        | inl z ↦ sym (ap (λ p. p.0) (rw z at h))
        | inr z ↦ absurd (let h' = rw z at h in cc)
      ]

module _ {N J F : Type 0} (codecs : Codecs N J)
    (refuses : AppDb F (Record N J) → Str → Record N J → Option Str) where
  -- Where SQLite refuses a second row of one id, a creation that succeeds makes a record of the new
  -- id that has exactly the columns of the schema, and changes nothing else; its answer has the
  -- fields as they were given.
  pub create_record-Wrote :
      (db db' : AppDb F (Record N J)) (schema : Schema F) (fields : List (Str × Value N J))
      (id : Str) (now : ℕ) (r : Record N J)
      → ((x : AppDb F (Record N J)) (name : Str) (row : Record N J)
          → refuses x name row ≡ none
          → found x name row.id ≡ none)
      → create_record codecs refuses db schema fields id now ≡ (db', done r)
      → (found db schema.id id ≡ none)
        × Wrote db db' schema.id id
            (some (record r { fields = stored_fields codecs schema.fields fields }))
        × (r.id ≡ id)
        × (r.fields ≡ fields)
  unfolding create_record
  create_record-Wrote db db' schema fields id now r unique h =
      on_table (refuses db schema.id row) (lookup schema.id db.tables) refl refl h
    where
      row : Record N J
      row = record {
        id = id;
        collection = schema.id;
        fields = stored_fields codecs schema.fields fields;
        created_at = now;
        updated_at = now;
      }

      on_table :
          (refusal : Option Str) (o : Option (Table (Record N J)))
          → refuses db schema.id row ≡ refusal
          → lookup schema.id db.tables ≡ o
          → inserted_row codecs refuses db schema fields row refusal o ≡ (db', done r)
          → (found db schema.id id ≡ none)
            × Wrote db db' schema.id id
                (some (record r { fields = stored_fields codecs schema.fields fields }))
            × (r.id ≡ id)
            × (r.fields ≡ fields)
      on_table refusal none s e h = absurd (cc)
      on_table (some why) (some t) s e h = absurd (cc)
      on_table none (some t) s e h =
          let free = unique db schema.id row s in
          let answer : ◌≡◌ {A = Record N J} (record row { fields = fields }) r = cc in
          (
            free,
            subst
                (λ x.
                  Wrote db x schema.id id
                    (some (record r { fields = stored_fields codecs schema.fields fields })))
                (ap (λ p. p.0) h)
                (subst
                  (λ (x : Record N J).
                    Wrote db (set_rows db schema.id t (t.rows ++ row ∷ [])) schema.id id
                      (some (record x { fields = stored_fields codecs schema.fields fields })))
                  answer
                  (set_rows-Wrote db schema.id id t _ (some row) e
                    (λ i. find_record-append t.rows row i (sym (ap (in_table id) e) ∙ free)))),
            sym (ap (λ (x : Record N J). x.id) answer),
            sym (ap (λ (x : Record N J). x.fields) answer),
          )

  -- A creation that fails changes nothing.
  pub create_record-failed :
      (db db' : AppDb F (Record N J)) (schema : Schema F) (fields : List (Str × Value N J))
      (id : Str) (now : ℕ) (e : DbError)
      → create_record codecs refuses db schema fields id now ≡ (db', failed e)
      → db' ≡ db
  unfolding create_record
  create_record-failed db db' schema fields id now e h =
      on_table _ (refuses db schema.id _) (lookup schema.id db.tables) h
    where
      on_table :
          (row : Record N J) (refusal : Option Str) (o : Option (Table (Record N J)))
          → inserted_row codecs refuses db schema fields row refusal o ≡ (db', failed e)
          → db' ≡ db
      on_table row refusal none h = sym (ap (λ p. p.0) h)
      on_table row (some why) (some t) h = sym (ap (λ p. p.0) h)
      on_table row none (some t) h = absurd (cc)
