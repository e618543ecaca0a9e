-- ===== src/Records/Pages.antt =====
-- The pages of `list_records` in crates/rustbase-db/src/records.rs, and their count in
-- crates/rustbase-api/src/records.rs.
use rustbase.Base.{
  ℕ, zero, suc, ◌+◌, ◌-◌, ◌*◌, ◌%◌, ◌≤◌, ◌<◌, max, ◌≡◌, refl, ap, subst, ◌⊎◌, inl, inr, leb,
  Bool-cases, Bool, lookup, Option, List, [], ◌∷◌, length, arith,
}
use native.Mathlib.Nat.{div-add-mod', mod-lt, mul-le-mul_right}
use rustbase.Error.{ok, ok_or, bind-ok, ok-same}
use rustbase.Filter.{FilterNode}
use rustbase.FilterSql.{SqlFragment}
use rustbase.Schema.{Schema}
use rustbase.Collections.{AppDb}
use rustbase.Records.{
  Record, ListPage, ListedRecords, take, drop, div_ceil, select_rows, list_records,
}

length-take : {A : Type 0} (n : ℕ) (xs : List A) → length (take n xs) ≤ n
length-take n [] = omega arith
length-take zero (x ∷ xs) = omega arith
length-take (suc n) (x ∷ xs) = omega (arith, length-take n xs)

drop-all : {A : Type 0} (n : ℕ) (xs : List A) → length xs ≤ n → drop n xs ≡ []
drop-all zero [] h = refl
drop-all zero (x ∷ xs) h = absurd (omega arith)
drop-all (suc n) [] h = refl
drop-all (suc n) (x ∷ xs) h = drop-all n xs (omega arith)

-- As many pages as `div_ceil` counts hold all rows.
div_ceil-covers : (total per : ℕ) → 0 < per → total ≤ div_ceil total per * per
unfolding div_ceil
div_ceil-covers total per h =
    let e = div-add-mod' (total + (per - 1)) per in
    let m : (total + (per - 1)) % per < per = mod-lt (total + (per - 1)) h in omega arith

behind-last :
    {A : Type 0} (per page total : ℕ) (rows : List A)
    → 1 ≤ per
    → length rows ≡ total
    → (page ≤ div_ceil total (max per 1)) ⊎ (take per (drop ((page - 1) * per) rows) ≡ [])
behind-last per page total rows one e = elim (Bool-cases (leb page (div_ceil total (max per 1)))) [
  | inl p ↦ inl (ground arith)
  | inr p ↦
      let m : max per 1 ≡ per = ground arith in
      let c = div_ceil-covers total per one in
      let b : div_ceil total per < page = subst (λ k. div_ceil total k < page) m (ground arith) in
      let q : div_ceil total per * per ≤ (page - 1) * per = mul-le-mul_right per (omega arith) in
      inr (ap (take per) (drop-all ((page - 1) * per) rows (omega arith)))
]

module _ {N J F : Type 0} (selects : SqlFragment N J → Record N J → Bool)
    (newest_first : List (Record N J) → List (Record N J)) where
  -- Where the order keeps the number of rows, a page holds between none and its size of records, the
  -- size is between 1 and 200 whatever was asked for, and a page behind the last is empty.
  pub list_records-bounds :
      (db : AppDb F (Record N J)) (schema : Schema F) (page : ListPage)
      (filter : Option (FilterNode N J)) (l : ListedRecords N J)
      → ((rows : List (Record N J)) → length (newest_first rows) ≡ length rows)
      → list_records selects newest_first db schema page filter ≡ ok l
      → (1 ≤ l.per_page)
        × (l.per_page ≤ 200)
        × (length l.items ≤ l.per_page)
        × ((l.page ≤ div_ceil l.total_items (max l.per_page 1)) ⊎ (l.items ≡ []))
  unfolding list_records
  list_records-bounds db schema page filter l same h =
      let (t, found, h1) = bind-ok (ok_or (lookup schema.id db.tables) _) _ l h in
      let (rows, selected, h2) = bind-ok (select_rows selects newest_first filter t.rows) _ l h1 in
      subst
        (λ (x : ListedRecords N J).
          (1 ≤ x.per_page)
          × (x.per_page ≤ 200)
          × (length x.items ≤ x.per_page)
          × ((x.page ≤ div_ceil x.total_items (max x.per_page 1)) ⊎ (x.items ≡ [])))
        (ok-same h2)
        (
          ground arith,
          ground arith,
          length-take _ (drop _ (newest_first rows)),
          behind-last _ _ (length rows) (newest_first rows) (ground arith) (same rows),
        )
