-- ===== src/Records/Found.antt =====
-- What a search for a record finds in the database of an app: the statements of
-- crates/rustbase-db/src/records.rs told by their effect on it.
use rustbase.Base.{
  ◌≡◌, inl, inr, refl, false, not, ◌&&◌, Bool-cases, ◌==◌, Str, str_eq, str_eq_iff, lookup,
  lookup-upsert, Option, none, some, List, [], ◌∷◌, ◌++◌, keep, length, if◌then◌else◌, arith,
}
use rustbase.Collections.{Table, AppDb}
use rustbase.Records.{Record}
use rustbase.Records.Stored.{find_record, row_has_id, set_rows}

module _ {N J : Type 0} where
  abbrev pub in_table : Str → Option (Table (Record N J)) → Option (Record N J)
  in_table id none = none
  in_table id (some t) = find_record t.rows id

module _ {N J F : Type 0} where
  abbrev pub found : AppDb F (Record N J) → Str → Str → Option (Record N J)
  found db name id = in_table id (lookup name db.tables)

  -- The second database has `o` as the record of the table and the id, and is the first elsewhere.
  abbrev pub Wrote :
      AppDb F (Record N J) → AppDb F (Record N J) → Str → Str → Option (Record N J) → Type 0
  Wrote db db' name id o =
      ((n i : Str) → found db' n i ≡ (if str_eq n name && str_eq i id then o else found db n i))
      × (db'.collections ≡ db.collections)
      × (db'.rules ≡ db.rules)

  found-set_rows :
      (db : AppDb F (Record N J)) (name n i : Str) (t : Table (Record N J))
      (rows : List (Record N J))
      → found (set_rows db name t rows) n i
        ≡ (if str_eq n name then find_record rows i else found db n i)
  found-set_rows db name n i t rows = ground (
    arith,
    str_eq_iff name n,
    str_eq_iff n name,
    lookup-upsert name n (record t { rows = rows }) db.tables,
  )

module _ {N J : Type 0} where
  pub find_record-keep :
      (id i : Str) (rows : List (Record N J))
      → find_record (keep (λ r. not (row_has_id id r)) rows) i
        ≡ (if str_eq i id then none else find_record rows i)
  unfolding find_record
  find_record-keep id i [] = ground arith
  find_record-keep id i (r ∷ rows) =
      ground
        (arith, str_eq_iff r.id id, str_eq_iff r.id i, str_eq_iff i id, find_record-keep id i rows)

  pub find_record-append :
      (rows : List (Record N J)) (r : Record N J) (i : Str)
      → find_record rows r.id ≡ none
      → find_record (rows ++ r ∷ []) i ≡ (if str_eq i r.id then some r else find_record rows i)
  unfolding find_record
  find_record-append [] r i h = ground (arith, str_eq_iff r.id i, str_eq_iff i r.id)
  find_record-append (x ∷ rows) r i h = ground (
    arith,
    str_eq_iff x.id r.id,
    str_eq_iff x.id i,
    str_eq_iff i r.id,
    find_record-append rows r i,
  )

  -- A search finds a record exactly where the count is not zero.
  pub counted :
      (id : Str) (rows : List (Record N J))
      → (length (keep (row_has_id id) rows) == 0) ≡ false
      → (r : Record N J) × (find_record rows id ≡ some r) × (r.id ≡ id)
  unfolding find_record
  counted id [] h = absurd (cc)
  counted id (r ∷ rows) h = elim (Bool-cases (str_eq r.id id)) [
    | inl e ↦ (r, ground arith, (str_eq_iff r.id id).0 e)
    | inr n ↦ let (x, f, same) = counted id rows (ground arith) in (x, ground arith, same)
  ]

module _ {N J F : Type 0} where
  -- The rows of one table are replaced by rows that differ in what is found under one id.
  pub set_rows-Wrote :
      (db : AppDb F (Record N J)) (name id : Str) (t : Table (Record N J))
      (rows : List (Record N J)) (o : Option (Record N J))
      → lookup name db.tables ≡ some t
      → ((i : Str) → find_record rows i ≡ (if str_eq i id then o else find_record t.rows i))
      → Wrote db (set_rows db name t rows) name id o
  set_rows-Wrote db name id t rows o e h =
      (λ n i. ground (arith, found-set_rows db name n i t rows, h i, str_eq_iff n name), refl, refl)
