-- ===== src/Records/Patched.antt =====
-- What update_record of crates/rustbase-db/src/records.rs leaves in the database of an app.
use rustbase.Base.{
  ℕ, ◌≡◌, inl, inr, refl, sym, ap, subst, ◌∙◌, false, Bool-cases, ◌==◌, Str, str_eq, str_eq_iff,
  str_eq_refl, lookup, Option, none, some, List, [], ◌∷◌, map, keep, length, if◌then◌else◌, arith,
}
use rustbase.Error.{DbError}
use rustbase.Filter.{Value}
use rustbase.Schema.{Schema}
use rustbase.Collections.{Table, AppDb, done, failed}
use rustbase.Records.{Record}
use rustbase.Records.Stored.{
  Codecs, patched_fields, patched_row, find_record, row_has_id, set_rows, updated, update_record,
}
use rustbase.Records.Found.{in_table, found, Wrote, counted, set_rows-Wrote}

module _ {N J F : Type 0} (codecs : Codecs N J) where
  patch_found : Schema F → List (Str × Value N J) → ℕ → Option (Record N J) → Option (Record N J)
  patch_found schema patch now none = none
  patch_found schema patch now (some r) =
      some
        (record r { fields = patched_fields codecs schema.fields patch r.fields; updated_at = now })

  find_record-patched_row :
      (schema : Schema F) (id i : Str) (patch : List (Str × Value N J)) (now : ℕ)
      (rows : List (Record N J))
      → find_record (map (patched_row codecs schema id patch now) rows) i ≡ (
          if str_eq i id
          then patch_found schema patch now (find_record rows i)
          else find_record rows i)
  unfolding find_record patch_found
  find_record-patched_row schema id i patch now [] = ground arith
  find_record-patched_row schema id i patch now (r ∷ rows) = ground (
    arith,
    str_eq_iff r.id id,
    str_eq_iff r.id i,
    str_eq_iff i id,
    find_record-patched_row schema id i patch now rows,
  )

module _ {N J F : Type 0} (codecs : Codecs N J)
    (refuses : AppDb F (Record N J) → Str → List (Str × Value N J) → Option Str) where
  -- What is found after the statement of an update whose row is there.
  find_record-updated :
      (schema : Schema F) (id i : Str) (patch : List (Str × Value N J)) (now : ℕ)
      (rows : List (Record N J)) (old : Record N J)
      → find_record rows id ≡ some old
      → find_record (map (patched_row codecs schema id patch now) rows) i ≡ (
          if str_eq i id
          then some (record old {
            fields = patched_fields codecs schema.fields patch old.fields;
            updated_at = now;
          })
          else find_record rows i)
  unfolding patch_found
  find_record-updated schema id i patch now rows old f =
      ground (arith, find_record-patched_row codecs schema id i patch now rows, str_eq_iff i id)

  -- An update of a row that is there is answered with the row.
  updated-there :
      (db : AppDb F (Record N J)) (schema : Schema F) (id : Str) (patch : List (Str × Value N J))
      (now : ℕ) (t : Table (Record N J))
      → (length (keep (row_has_id id) t.rows) == 0) ≡ false
      → (old : Record N J) × (find_record t.rows id ≡ some old)
        × (updated codecs refuses db schema id patch now none (some t) ≡ (
          set_rows db schema.id t (map (patched_row codecs schema id patch now) t.rows),
          done (record old {
            fields = patched_fields codecs schema.fields patch old.fields;
            updated_at = now;
          }),
        ))
  updated-there db schema id patch now t z =
      let (old, f, same) = counted id t.rows z in
      let hit = find_record-updated schema id id patch now t.rows old f in
      (old, f, rw (z, hit, str_eq_refl id))

  -- An update that succeeds answers with the record that is then found under the id, the old one
  -- with the fields of the patch that the schema has and a new time, and changes nothing else.
  pub update_record-Wrote :
      (db db' : AppDb F (Record N J)) (schema : Schema F) (id : Str)
      (patch : List (Str × Value N J)) (now : ℕ) (r : Record N J)
      → update_record codecs refuses db schema id patch now ≡ (db', done r)
      → (old : Record N J) × (found db schema.id id ≡ some old)
        × Wrote db db' schema.id id (some r)
        × (r ≡ record old {
          fields = patched_fields codecs schema.fields patch old.fields;
          updated_at = now;
        })
  unfolding update_record
  update_record-Wrote db db' schema id patch now r h =
      on_table (refuses db schema.id patch) (lookup schema.id db.tables) refl h
    where
      on_table :
          (refusal : Option Str) (o : Option (Table (Record N J)))
          → lookup schema.id db.tables ≡ o
          → updated codecs refuses db schema id patch now refusal o ≡ (db', done r)
          → (old : Record N J) × (found db schema.id id ≡ some old)
            × Wrote db db' schema.id id (some r)
            × (r ≡ record old {
              fields = patched_fields codecs schema.fields patch old.fields;
              updated_at = now;
            })
      on_table refusal none e h = absurd (cc)
      on_table (some why) (some t) e h = absurd (cc)
      on_table none (some t) e h = elim (Bool-cases (length (keep (row_has_id id) t.rows) == 0)) [
        | inl z ↦ absurd (let h' = rw z at h in cc)
        | inr z ↦
            let (old, f, hit) = updated-there db schema id patch now t z in
            let same = sym hit ∙ h in
            let rows = map (patched_row codecs schema id patch now) t.rows in
            let answer : ◌≡◌ {A = Record N J}
                (record old {
                  fields = patched_fields codecs schema.fields patch old.fields;
                  updated_at = now;
                })
                r =
              cc in
            (
              old,
              ap (in_table id) e ∙ f,
              subst (λ x. Wrote db x schema.id id (some r)) (ap (λ p. p.0) same)
                  (subst (λ x. Wrote db (set_rows db schema.id t rows) schema.id id (some x)) answer
                    (set_rows-Wrote db schema.id id t rows _ e
                      (λ i. find_record-updated schema id i patch now t.rows old f))),
              sym answer,
            )
      ]

  -- An update that fails changes nothing.
  pub update_record-failed :
      (db db' : AppDb F (Record N J)) (schema : Schema F) (id : Str)
      (patch : List (Str × Value N J)) (now : ℕ) (e : DbError)
      → update_record codecs refuses db schema id patch now ≡ (db', failed e)
      → db' ≡ db
  unfolding update_record
  update_record-failed db db' schema id patch now e h =
      on_table (refuses db schema.id patch) (lookup schema.id db.tables) h
    where
      on_table :
          (refusal : Option Str) (o : Option (Table (Record N J)))
          → updated codecs refuses db schema id patch now refusal o ≡ (db', failed e)
          → db' ≡ db
      on_table refusal none h = sym (ap (λ p. p.0) h)
      on_table (some why) (some t) h = sym (ap (λ p. p.0) h)
      on_table none (some t) h = elim (Bool-cases (length (keep (row_has_id id) t.rows) == 0)) [
        | inl z ↦ sym (ap (λ p. p.0) (rw z at h))
        | inr z ↦
            let (old, f, hit) = updated-there db schema id patch now t z in
            absurd (let h' = sym hit ∙ h in cc)
      ]
