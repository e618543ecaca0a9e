-- ===== src/FilterSql/Erased.antt =====
-- What the text of a translated filter of crates/rustbase-db/src/filter_sql.rs depends on.
use rustbase.Base.{◌≡◌, refl, ap, Bool, true, false, Str, codes, List, [], ◌∷◌, ◌++◌, map, arith}
use rustbase.Error.{Result, ok, err, ◌>>=◌}
use rustbase.Filter.{
  Value, null, FilterNode, and, or, negated, eq, ne, gt, gte, lt, lte, like, one_of,
}
use rustbase.FilterSql.{
  SqlFragment, empty, quote_ident, push_str, compare, placeholders, translate, filter_to_sql,
}

-- A filter with its values and patterns struck out.
unfoldable pub erase : {N J : Type 0} → FilterNode N J → FilterNode N J
erase (and l r) = and (erase l) (erase r)
erase (or l r) = or (erase l) (erase r)
erase (negated inner) = negated (erase inner)
erase (eq f v) = eq f null
erase (ne f v) = ne f null
erase (gt f v) = gt f null
erase (gte f v) = gte f null
erase (lt f v) = lt f null
erase (lte f v) = lte f null
erase (like f pat) = like f []
erase (one_of f vs) = one_of f (map (λ v. null) vs)

module _ {N J : Type 0} where
  abbrev pub sql_text : Result (SqlFragment N J) → Result Str
  sql_text (ok f) = ok f.sql
  sql_text (err e) = err e

  sql_text-bind :
      (m m' : Result (SqlFragment N J)) (f f' : SqlFragment N J → Result (SqlFragment N J))
      → sql_text m ≡ sql_text m'
      → ((a a' : SqlFragment N J) → a.sql ≡ a'.sql → sql_text (f a) ≡ sql_text (f' a'))
      → sql_text (m >>= f) ≡ sql_text (m' >>= f')
  sql_text-bind (ok a) (ok a') f f' e h = h a a' (cc)
  sql_text-bind (ok a) (err x) f f' e h = cc
  sql_text-bind (err x) (ok a) f f' e h = cc
  sql_text-bind (err x) (err y) f f' e h = e

  compare-sql_text :
      (o o' : SqlFragment N J) (field op : Str) (v v' : Value N J)
      → o.sql ≡ o'.sql
      → sql_text (compare o field op v) ≡ sql_text (compare o' field op v')
  unfolding compare quote_ident
  compare-sql_text o o' field op v v' e = ground arith

  placeholders-sql :
      (first : Bool) (vs : List (Value N J)) (o o' : SqlFragment N J)
      → o.sql ≡ o'.sql
      → (placeholders first vs o).sql ≡ (placeholders first (map (λ v. null) vs) o').sql
  unfolding placeholders
  placeholders-sql first [] o o' e = e
  placeholders-sql true (v ∷ vs) o o' e = placeholders-sql false vs _ _ (ap (λ s. s ++ codes "?") e)
  placeholders-sql false (v ∷ vs) o o' e =
      placeholders-sql false vs _ _ (ap (λ s. (s ++ codes ", ") ++ codes "?") e)

  like-sql_text :
      (o o' : SqlFragment N J) (field pat : Str)
      → o.sql ≡ o'.sql
      → sql_text (translate (like field pat) o) ≡ sql_text (translate (like field []) o')
  unfolding translate quote_ident
  like-sql_text o o' field pat e = ground arith

  one_of-sql_text :
      (o o' : SqlFragment N J) (field : Str) (vs : List (Value N J))
      → o.sql ≡ o'.sql
      → sql_text (translate (one_of field vs) o)
        ≡ sql_text (translate (one_of field (map (λ v. null) vs)) o')
  unfolding translate
  one_of-sql_text o o' field vs e = after_column (quote_ident field)
    where
      after_column :
          (m : Result Str)
          → sql_text (
              m >>= λ col. ok (
                push_str (codes "))") (
                  placeholders true vs
                    (push_str (codes " IN (") (push_str col (push_str (codes "(") o))))))
            ≡ sql_text (
                m >>= λ col. ok (
                  push_str (codes "))") (
                    placeholders true
                      (map (λ v. null) vs)
                      (push_str (codes " IN (") (push_str col (push_str (codes "(") o'))))))
      after_column (ok col) =
          ap (λ s. ok (s ++ codes "))"))
            (placeholders-sql true vs _ _ (ap (λ s. ((s ++ codes "(") ++ col) ++ codes " IN (") e))
      after_column (err x) = refl

  translate-erase :
      (node : FilterNode N J) (o o' : SqlFragment N J)
      → o.sql ≡ o'.sql
      → sql_text (translate node o) ≡ sql_text (translate (erase node) o')
  unfolding translate erase
  translate-erase (and l r) o o' e =
      sql_text-bind _ _ _ _ (translate-erase l _ _ (ap (λ s. s ++ codes "(") e)) λ a a' d.
        sql_text-bind _ _ _ _
          (translate-erase r _ _ (ap (λ s. ((s ++ codes " ") ++ codes "AND") ++ codes " ") d))
          λ b b' c. ap (λ s. ok (s ++ codes ")")) c
  translate-erase (or l r) o o' e =
      sql_text-bind _ _ _ _ (translate-erase l _ _ (ap (λ s. s ++ codes "(") e)) λ a a' d.
        sql_text-bind _ _ _ _
          (translate-erase r _ _ (ap (λ s. ((s ++ codes " ") ++ codes "OR") ++ codes " ") d))
          λ b b' c. ap (λ s. ok (s ++ codes ")")) c
  translate-erase (negated inner) o o' e =
      sql_text-bind _ _ _ _ (translate-erase inner _ _ (ap (λ s. s ++ codes "(NOT ") e))
        λ b b' c. ap (λ s. ok (s ++ codes ")")) c
  translate-erase (eq f v) o o' e = compare-sql_text o o' f (codes "=") v null e
  translate-erase (ne f v) o o' e = compare-sql_text o o' f (codes "<>") v null e
  translate-erase (gt f v) o o' e = compare-sql_text o o' f (codes ">") v null e
  translate-erase (gte f v) o o' e = compare-sql_text o o' f (codes ">=") v null e
  translate-erase (lt f v) o o' e = compare-sql_text o o' f (codes "<") v null e
  translate-erase (lte f v) o o' e = compare-sql_text o o' f (codes "<=") v null e
  translate-erase (like f pat) o o' e = like-sql_text o o' f pat e
  translate-erase (one_of f vs) o o' e = one_of-sql_text o o' f vs e

  -- The SQL that a filter is translated to, or its error, is that of the filter with all its values
  -- and patterns struck out: no value reaches the text.
  pub filter_to_sql-erase :
      (filter : FilterNode N J)
      → sql_text (filter_to_sql filter) ≡ sql_text (filter_to_sql (erase filter))
  unfolding filter_to_sql
  filter_to_sql-erase filter = translate-erase filter empty empty refl
