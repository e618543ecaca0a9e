-- ===== src/Records/Passing.antt =====
-- The rows that a filter lets pass in crates/rustbase-db/src/records.rs.
use rustbase.Base.{
  ℕ, zero, suc, ◌≡◌, refl, sym, ap, subst, ◌∙◌, Bool, true, ◌&&◌, Str, codes, lookup, Option, none,
  some, List, [], ◌∷◌, all, all_mono, all-keep, arith,
}
use rustbase.Error.{
  Result, ok, err, ◌>>◌, ok_or, outcome, bind-ok, ok-same, check_each, check_each-append,
}
use rustbase.Filter.{string, FilterNode, eq, and, fields_of}
use rustbase.FilterSql.{SqlFragment, filter_to_sql, is_ident, refused}
use rustbase.FilterSql.Fields.{outcome-filter_to_sql}
use rustbase.Schema.{Schema}
use rustbase.Collections.{AppDb}
use rustbase.Records.{
  Record, ListPage, ListedRecords, take, drop, select_rows, list_records, both, lookup_filter,
  first,
}

all-take :
    {A : Type 0} (p : A → Bool) (n : ℕ) (xs : List A) → all p xs ≡ true → all p (take n xs) ≡ true
all-take p n [] h = refl
all-take p zero (x ∷ xs) h = refl
all-take p (suc n) (x ∷ xs) h = ground (arith, all-take p n xs)

all-drop :
    {A : Type 0} (p : A → Bool) (n : ℕ) (xs : List A) → all p xs ≡ true → all p (drop n xs) ≡ true
all-drop p zero xs h = h
all-drop p (suc n) [] h = refl
all-drop p (suc n) (x ∷ xs) h = all-drop p n xs (ground arith)

-- The parts of a conjunction that is translated are.
filter_to_sql-and :
    {N J : Type 0} (l r : FilterNode N J) (f : SqlFragment N J)
    → filter_to_sql (and l r) ≡ ok f
    → (outcome (filter_to_sql l) ≡ ok tt) × (outcome (filter_to_sql r) ≡ ok tt)
unfolding fields_of
filter_to_sql-and l r f h =
    let names = outcome-filter_to_sql (and l r) in
    let whole : outcome (filter_to_sql (and l r)) ≡ ok tt = ap outcome h in
    let (a, b) =
      then-ok (check_each is_ident refused (fields_of l))
        (check_each is_ident refused (fields_of r))
        (sym (check_each-append is_ident refused (fields_of l) (fields_of r))
          ∙ sym names
          ∙ whole) in
    (outcome-filter_to_sql l ∙ a, outcome-filter_to_sql r ∙ b)
  where
    then-ok : (m n : Result (Unit {0})) → (m >> n) ≡ ok tt → (m ≡ ok tt) × (n ≡ ok tt)
    then-ok (ok u) n h = (refl, h)
    then-ok (err e) n h = absurd (cc)

outcome-ok : {A : Type 0} (m : Result A) → outcome m ≡ ok tt → (a : A) × (m ≡ ok a)
outcome-ok (ok a) h = (a, refl)
outcome-ok (err e) h = absurd (cc)

module _ {N J : Type 0} (selects : SqlFragment N J → Record N J → Bool)
    (newest_first : List (Record N J) → List (Record N J)) where
  -- The rows of a query with a filter all pass it.
  abbrev Passes : FilterNode N J → List (Record N J) → Type 0
  Passes node items =
      (f : SqlFragment N J) × (filter_to_sql node ≡ ok f) × (all (selects f) items ≡ true)

  -- ORDER BY changes the order of the rows alone.
  abbrev pub Orders : Type 0
  Orders =
      (p : Record N J → Bool) (rows : List (Record N J))
      → all p rows ≡ true
      → all p (newest_first rows) ≡ true

  -- A row that `(x AND y)` selects is selected by `x` and by `y`.
  abbrev pub SelectsBoth : Type 0
  SelectsBoth =
      (l r : FilterNode N J) (f a b : SqlFragment N J) (row : Record N J)
      → filter_to_sql (and l r) ≡ ok f
      → filter_to_sql l ≡ ok a
      → filter_to_sql r ≡ ok b
      → selects f row ≡ true
      → (selects a row ≡ true) × (selects b row ≡ true)

  list_records-Passes :
      {F : Type 0} (db : AppDb F (Record N J)) (schema : Schema F) (page : ListPage)
      (node : FilterNode N J) (l : ListedRecords N J)
      → Orders
      → list_records selects newest_first db schema page (some node) ≡ ok l
      → Passes node l.items
  unfolding list_records select_rows
  list_records-Passes db schema page node l ordered h =
      let (t, found, h1) = bind-ok (ok_or (lookup schema.id db.tables) _) _ l h in
      let (rows, selected, h2) =
        bind-ok (select_rows selects newest_first (some node) t.rows) _ l h1 in
      let (f, translated, h3) = bind-ok (filter_to_sql node) _ rows selected in
      let kept : all (selects f) rows ≡ true =
        subst (λ xs. all (selects f) xs ≡ true) (ok-same h3) (all-keep (selects f) t.rows) in
      (
        f,
        translated,
        subst (λ (x : ListedRecords N J). all (selects f) x.items ≡ true) (ok-same h2)
            (all-take (selects f) _ _ (all-drop (selects f) _ _ (ordered (selects f) rows kept))),
      )

  -- The rows pass the filter of a rule, where it has one.
  abbrev pub Ruled : Option (FilterNode N J) → List (Record N J) → Type 0
  Ruled none items = Unit
  Ruled (some node) items = Passes node items

  -- What passes a conjunction passes its parts.
  Passes-and :
      (l r : FilterNode N J) (items : List (Record N J))
      → SelectsBoth
      → Passes (and l r) items
      → Passes l items × Passes r items
  Passes-and l r items selects_both (f, e, h) =
      let (ol, or') = filter_to_sql-and l r f e in
      let (a, ea) = outcome-ok (filter_to_sql l) ol in
      let (b, eb) = outcome-ok (filter_to_sql r) or' in
      (
        (
          a,
          ea,
          all_mono (selects f) (selects a) items (λ row k. (selects_both l r f a b row e ea eb k).0)
              h,
        ),
        (
          b,
          eb,
          all_mono (selects f) (selects b) items (λ row k. (selects_both l r f a b row e ea eb k).1)
              h,
        ),
      )

  pub list_records-Ruled :
      {F : Type 0} (db : AppDb F (Record N J)) (schema : Schema F) (page : ListPage)
      (rule asked : Option (FilterNode N J)) (l : ListedRecords N J)
      → Orders
      → SelectsBoth
      → list_records selects newest_first db schema page (both rule asked) ≡ ok l
      → Ruled rule l.items
  unfolding both
  list_records-Ruled db schema page none asked l ordered selects_both h = tt
  list_records-Ruled db schema page (some r) none l ordered selects_both h =
      list_records-Passes db schema page r l ordered h
  list_records-Ruled db schema page (some r) (some u) l ordered selects_both h =
      (Passes-and r u l.items selects_both
        (list_records-Passes db schema page (and r u) l ordered h)).0

  -- A row that is looked up has passed the test of its id, and the filter of the rule.
  pub looked_up-Ruled :
      {F : Type 0} (db : AppDb F (Record N J)) (schema : Schema F) (page : ListPage) (id : Str)
      (rule : Option (FilterNode N J)) (l : ListedRecords N J)
      → Orders
      → SelectsBoth
      → list_records selects newest_first db schema page (some (lookup_filter id rule)) ≡ ok l
      → Passes (eq (codes "id") (string id)) l.items × Ruled rule l.items
  unfolding lookup_filter
  looked_up-Ruled db schema page id none l ordered selects_both h =
      (list_records-Passes db schema page _ l ordered h, tt)
  looked_up-Ruled db schema page id (some r) l ordered selects_both h =
      Passes-and _ r l.items selects_both (list_records-Passes db schema page _ l ordered h)

  pub first-Ruled :
      (rule : Option (FilterNode N J)) (items : List (Record N J)) (r : Record N J)
      → Ruled rule items
      → first items ≡ some r
      → Ruled rule (r ∷ [])
  first-Ruled none items r h e = tt
  first-Ruled (some node) [] r h e = absurd (cc)
  first-Ruled (some node) (x ∷ xs) r (f, t, h) e =
      let same : x ≡ r = cc in
      let head : selects f x ≡ true = ground arith in
      (f, t, subst (λ y. (selects f y && true) ≡ true) same (ap (λ b. b && true) head))
