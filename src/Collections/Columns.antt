-- ===== src/Collections/Columns.antt =====
-- The columns of a table as a table by name, through the statements of `patch_collection` in
-- crates/rustbase-db/src/collections.rs.
use rustbase.Base.{
  ◌≡◌, ◌↔◌, refl, sym, ap, ◌∙◌, inl, inr, Bool, true, false, not, Bool-cases, ◌&&◌, Str, str_eq,
  str_eq_iff, contains, lookup, lookup-remove, remove, Option, none, some, List, [], ◌∷◌, ◌++◌, all,
  if◌then◌else◌, arith,
}
use rustbase.Error.{sqlx}
use rustbase.Schema.{Field, sql_type, field_types_compatible, field_names}
use rustbase.Collections.{Table, AppDb, alter, field_columns}
use rustbase.Collections.Patch.{
  put_in_order, by_name, find_field, keeps_type, first_changed, without, add_column, drop_column,
  alter_each,
}

abbrev pub or_else {ℓ} : {A : Type ℓ} → Option A → Option A → Option A
or_else none b = b
or_else (some a) b = some a

or_else-none {ℓ} : {A : Type ℓ} (a : Option A) → or_else a none ≡ a
or_else-none none = refl
or_else-none (some a) = refl

or_else-step {ℓ} :
    {V : Type ℓ} (n m : Str) (v : V) (xs ys : List (Str × V))
    → or_else (lookup n (xs ++ ((m, v) ∷ []))) (lookup n ys)
      ≡ or_else (lookup n xs) (lookup n ((m, v) ∷ ys))
unfolding lookup
or_else-step n m v [] ys = ground arith
or_else-step n m v ((k, w) ∷ xs) ys = ground (arith, or_else-step n m v xs ys)

removed-step {ℓ} :
    {V : Type ℓ} (n m : Str) (ns : List Str) (xs : List (Str × V))
    → (if contains ns n then none else lookup n (remove m xs))
      ≡ (if contains (m ∷ ns) n then none else lookup n xs)
unfolding contains
removed-step n m ns xs = ground (arith, lookup-remove m n xs)

pub lookup-append {ℓ} :
    {V : Type ℓ} (n : Str) (xs ys : List (Str × V))
    → lookup n (xs ++ ys) ≡ or_else (lookup n xs) (lookup n ys)
unfolding lookup
lookup-append n [] ys = refl
lookup-append n ((k, v) ∷ xs) ys = ground (arith, lookup-append n xs ys)

abbrev pub lookup_columns : {R : Type 0} → Str → Option (Table R) → Option Str
lookup_columns n none = none
lookup_columns n (some t) = lookup n t.columns

module _ {F : Type 0} where
  pub lookup-without :
      (n : Str) (fs others : List (Field F))
      → lookup n (field_columns (without fs others))
        ≡ (if contains (field_names others) n then none else lookup n (field_columns fs))
  unfolding without lookup
  lookup-without n [] others = ground arith
  lookup-without n (f ∷ fs) others = elim (Bool-cases (str_eq f.name n)) [
    | inl e ↦ rw ((str_eq_iff f.name n).0 e) (ground (arith, lookup-without n fs others))
    | inr e ↦ ground (arith, lookup-without n fs others)
  ]

  pub contains-without :
      (n : Str) (fs others : List (Field F))
      → contains (field_names (without fs others)) n
        ≡ (contains (field_names fs) n && not (contains (field_names others) n))
  unfolding without contains
  contains-without n [] others = refl
  contains-without n (f ∷ fs) others = elim (Bool-cases (str_eq f.name n)) [
    | inl e ↦ rw ((str_eq_iff f.name n).0 e) (ground (arith, contains-without n fs others))
    | inr e ↦ ground (arith, contains-without n fs others)
  ]

  -- A name has a column exactly when a field has the name.
  pub lookup-field_columns_iff :
      (n : Str) (fs : List (Field F))
      → (lookup n (field_columns fs) ≡ none) ↔ (contains (field_names fs) n ≡ false)
  unfolding lookup contains
  lookup-field_columns_iff n [] = ground arith
  lookup-field_columns_iff n (f ∷ fs) = ground (arith, lookup-field_columns_iff n fs)

  -- A field with its namesake has the type of the namesake's column.
  keeps_type-lookup :
      (f : Field F) (n : Str) (old : List (Field F)) (a : Str)
      → f.name ≡ n
      → keeps_type f (find_field f.name old) ≡ true
      → lookup n (field_columns old) ≡ some a
      → a ≡ sql_type f.ty
  unfolding find_field field_types_compatible lookup
  keeps_type-lookup f n [] a e h k = cc
  keeps_type-lookup f n (g ∷ old) a e h k =
      let same : str_eq g.name f.name ≡ str_eq g.name n = ap (str_eq g.name) e in
      ground
        (arith, same, str_eq_iff (sql_type g.ty) (sql_type f.ty), keeps_type-lookup f n old a e)

  all-put_in_order :
      (p : Field F → Bool) (f : Field F) (fs : List (Field F))
      → all p (put_in_order f fs) ≡ (p f && all p fs)
  unfolding put_in_order
  all-put_in_order p f [] = refl
  all-put_in_order p f (g ∷ gs) = ground (arith, all-put_in_order p f gs)

  all-by_name : (p : Field F → Bool) (fs : List (Field F)) → all p (by_name fs) ≡ all p fs
  unfolding by_name
  all-by_name p [] = refl
  all-by_name p (f ∷ fs) = all-put_in_order p f (by_name fs) ∙ ap (λ b. p f && b) (all-by_name p fs)

  all-first_changed :
      (old fs : List (Field F))
      → first_changed old fs ≡ none
      → all (λ f. keeps_type f (find_field f.name old)) fs ≡ true
  unfolding first_changed
  all-first_changed old [] h = refl
  all-first_changed old (f ∷ fs) h = ground (arith, all-first_changed old fs)

  kept-lookup :
      (n : Str) (old fs : List (Field F)) (a b : Str)
      → all (λ f. keeps_type f (find_field f.name old)) fs ≡ true
      → lookup n (field_columns old) ≡ some a
      → lookup n (field_columns fs) ≡ some b
      → a ≡ b
  unfolding lookup
  kept-lookup n old [] a b h k l = cc
  kept-lookup n old (f ∷ fs) a b h k l = elim (Bool-cases (str_eq f.name n)) [
    | inl e ↦
        let d : sql_type f.ty ≡ b = cc (rw e at l) in
        keeps_type-lookup f n old a ((str_eq_iff f.name n).0 e) (ground arith) k ∙ d
    | inr e ↦ kept-lookup n old fs a b (ground arith) k (rw e at l)
  ]

  -- Where no kept field changes its type, a column of both schemas has one type.
  pub first_changed-lookup :
      (n : Str) (old new : List (Field F)) (a b : Str)
      → first_changed old (by_name new) ≡ none
      → lookup n (field_columns old) ≡ some a
      → lookup n (field_columns new) ≡ some b
      → a ≡ b
  first_changed-lookup n old new a b h =
      kept-lookup n old new a b (sym (all-by_name _ new) ∙ all-first_changed old (by_name new) h)

lookup-alter :
    {R : Type 0} (t : Str) (f : List (Str × Str) → List (Str × Str)) (ts : List (Str × Table R))
    (x : Table R)
    → lookup t ts ≡ some x
    → lookup t (alter t f ts) ≡ some (record x { columns = f x.columns })
unfolding alter lookup
lookup-alter t f [] x h = cc
lookup-alter t f ((k, y) ∷ ts) x h = ground (arith, lookup-alter t f ts x)

-- What a loop of ALTER TABLE that went through leaves of a table, by the columns before.
pub record Altered {F R : Type 0} (t : Str) (before after : AppDb F R) (columns : Str → Option Str)
    : Type 0 where
  pub table : Table R
  pub found : lookup t after.tables ≡ some table
  pub lined : (n : Str) → lookup n table.columns ≡ columns n
  pub same_rows : after.collections ≡ before.collections

module _ {F R : Type 0} (refuses : AppDb F R → Str → Field F → Option Str) where
  pub alter_each-next :
      (change : Str → Field F → AppDb F R → AppDb F R) (t : Str) (f : Field F) (fs : List (Field F))
      (db after : AppDb F R)
      → alter_each refuses change t (f ∷ fs) db ≡ (after, none)
      → alter_each refuses change t fs (change t f db) ≡ (after, none)
  unfolding alter_each
  alter_each-next change t f fs db after h = ground arith

  pub alter_each-refusal :
      (change : Str → Field F → AppDb F R → AppDb F R) (t : Str) (f : Field F) (fs : List (Field F))
      (db : AppDb F R) (e : Str)
      → refuses db t f ≡ some e
      → alter_each refuses change t (f ∷ fs) db ≡ (db, some (sqlx e))
  unfolding alter_each
  alter_each-refusal change t f fs db e r = ground arith

  pub added-Altered :
      (t : Str) (fs : List (Field F)) (db after : AppDb F R) (x : Table R)
      → lookup t db.tables ≡ some x
      → alter_each refuses add_column t fs db ≡ (after, none)
      → Altered t db after (λ n. or_else (lookup n x.columns) (lookup n (field_columns fs)))
  added-Altered t [] db after x found h =
      let e : db ≡ after = unfold alter_each in (ap (λ r. r.0) h) in
      record {
        table = x;
        found = ap (λ d. lookup t d.tables) (sym e) ∙ found;
        lined = λ n. unfold lookup in (sym (or_else-none (lookup n x.columns)));
        same_rows = ap (λ d. d.collections) (sym e);
      }
  added-Altered t (f ∷ fs) db after x found h =
      let g : List (Str × Str) → List (Str × Str) =
        λ cols. cols ++ ((f.name, sql_type f.ty) ∷ []) in
      let rest =
        added-Altered t fs (add_column t f db) after (record x { columns = g x.columns })
          (unfold add_column in (lookup-alter t g db.tables x found))
          (alter_each-next add_column t f fs db after h) in
      record {
        table = rest.table;
        found = rest.found;
        lined =
            λ n. rest.lined n ∙ or_else-step n f.name (sql_type f.ty) x.columns (field_columns fs);
        same_rows = rest.same_rows ∙ unfold add_column in refl;
      }

  pub dropped-Altered :
      (t : Str) (fs : List (Field F)) (db after : AppDb F R) (x : Table R)
      → lookup t db.tables ≡ some x
      → alter_each refuses drop_column t fs db ≡ (after, none)
      → Altered t db after (λ n. if contains (field_names fs) n then none else lookup n x.columns)
  dropped-Altered t [] db after x found h =
      let e : db ≡ after = unfold alter_each in (ap (λ r. r.0) h) in
      record {
        table = x;
        found = ap (λ d. lookup t d.tables) (sym e) ∙ found;
        lined = λ n. unfold contains in refl;
        same_rows = ap (λ d. d.collections) (sym e);
      }
  dropped-Altered t (f ∷ fs) db after x found h =
      let rest =
        dropped-Altered t fs (drop_column t f db) after
          (record x { columns = remove f.name x.columns })
          (unfold drop_column in (lookup-alter t (remove f.name) db.tables x found))
          (alter_each-next drop_column t f fs db after h) in
      record {
        table = rest.table;
        found = rest.found;
        lined = λ n. rest.lined n ∙ removed-step n f.name (field_names fs) x.columns;
        same_rows = rest.same_rows ∙ unfold drop_column in refl;
      }
