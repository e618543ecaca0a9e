-- ===== src/FilterSql/Fields.antt =====
-- When crates/rustbase-db/src/filter_sql.rs refuses a filter, and with which error.
use rustbase.Base.{◌≡◌, ◌∙◌, refl, sym, ap, Str, [], ◌∷◌, ◌++◌, arith}
use rustbase.Error.{
  Result, ok, err, ◌>>=◌, ◌>>◌, outcome, outcome-bind, check_each, check_each-append,
}
use rustbase.Filter.{
  FilterNode, and, or, negated, eq, ne, gt, gte, lt, lte, like, one_of, fields_of,
}
use rustbase.FilterSql.{
  SqlFragment, empty, refused, is_ident, quote_ident, compare, translate, filter_to_sql,
}

-- The columns of a filter, checked in turn.
abbrev check_columns : {N J : Type 0} → FilterNode N J → Result (Unit {0})
check_columns node = check_each is_ident refused (fields_of node)

outcome-column {ℓ} :
    {A : Type ℓ} (field : Str) (f : Str → Result A)
    → ((col : Str) → outcome (f col) ≡ ok tt)
    → outcome (quote_ident field >>= f) ≡ check_each is_ident refused (field ∷ [])
unfolding quote_ident check_each
outcome-column field f h = ground (arith, h (b'"' ∷ (field ++ (b'"' ∷ []))))

outcome-close {ℓ} :
    {A : Type ℓ} (m : Result A) (close : A → A) → outcome (m >>= λ a. ok (close a)) ≡ outcome m
outcome-close (ok a) close = refl
outcome-close (err e) close = refl

module _ {N J : Type 0} where
  outcome-binary :
      (l r : FilterNode N J) (start : SqlFragment N J) (middle : SqlFragment N J → SqlFragment N J)
      (close : SqlFragment N J → SqlFragment N J)
      → outcome (translate l start) ≡ check_columns l
      → ((o : SqlFragment N J) → outcome (translate r o) ≡ check_columns r)
      → outcome (translate l start >>= λ a. translate r (middle a) >>= λ b. ok (close b))
        ≡ check_each is_ident refused (fields_of l ++ fields_of r)
  outcome-binary l r start middle close h k =
      outcome-bind (translate l start) _ (check_columns r)
        (λ a. outcome-close (translate r (middle a)) close ∙ k (middle a))
      ∙ ap (λ m. m >> check_columns r) h
      ∙ sym (check_each-append is_ident refused (fields_of l) (fields_of r))

  outcome-translate :
      (node : FilterNode N J) (out : SqlFragment N J)
      → outcome (translate node out) ≡ check_columns node
  unfolding translate fields_of compare
  outcome-translate (and l r) out =
      outcome-binary l r _ _ _ (outcome-translate l _) (outcome-translate r)
  outcome-translate (or l r) out =
      outcome-binary l r _ _ _ (outcome-translate l _) (outcome-translate r)
  outcome-translate (negated inner) out =
      outcome-close (translate inner _) _ ∙ outcome-translate inner _
  outcome-translate (eq f v) out = outcome-column f _ (λ col. refl)
  outcome-translate (ne f v) out = outcome-column f _ (λ col. refl)
  outcome-translate (gt f v) out = outcome-column f _ (λ col. refl)
  outcome-translate (gte f v) out = outcome-column f _ (λ col. refl)
  outcome-translate (lt f v) out = outcome-column f _ (λ col. refl)
  outcome-translate (lte f v) out = outcome-column f _ (λ col. refl)
  outcome-translate (like f pat) out = outcome-column f _ (λ col. refl)
  outcome-translate (one_of f vs) out = outcome-column f _ (λ col. refl)

  -- A filter is translated where every field it names is an identifier, and otherwise refused for
  -- the first that is none.
  pub outcome-filter_to_sql :
      (filter : FilterNode N J)
      → outcome (filter_to_sql filter) ≡ check_each is_ident refused (fields_of filter)
  unfolding filter_to_sql
  outcome-filter_to_sql filter = outcome-translate filter empty
