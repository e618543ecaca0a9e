-- ===== src/FilterSql/Bindings.antt =====
-- The bindings of the fragments of crates/rustbase-db/src/filter_sql.rs.
use rustbase.Base.{
  ◌≡◌, refl, sym, ap, ◌∙◌, Bool, true, false, Str, codes, List, [], ◌∷◌, ◌++◌, append_assoc,
  append-nil,
}
use rustbase.Error.{ok, ◌>>=◌, OnOk, OnOk-bind, OnOk-ok}
use rustbase.Filter.{
  Value, string, FilterNode, and, or, negated, eq, ne, gt, gte, lt, lte, like, one_of,
}
use rustbase.FilterSql.{
  SqlFragment, empty, quote_ident, push_str, compare, placeholders, translate, filter_to_sql,
}

module _ {N J : Type 0} where
  -- The values of a filter from left to right, with a pattern between percent signs.
  unfoldable pub values_of : FilterNode N J → List (Value N J)
  values_of (and l r) = values_of l ++ values_of r
  values_of (or l r) = values_of l ++ values_of r
  values_of (negated inner) = values_of inner
  values_of (eq f v) = v ∷ []
  values_of (ne f v) = v ∷ []
  values_of (gt f v) = v ∷ []
  values_of (gte f v) = v ∷ []
  values_of (lt f v) = v ∷ []
  values_of (lte f v) = v ∷ []
  values_of (like f pat) = string (b'%' ∷ (pat ++ (b'%' ∷ []))) ∷ []
  values_of (one_of f vs) = vs

  abbrev Binds : SqlFragment N J → List (Value N J) → SqlFragment N J → Type 0
  Binds out vs f = f.bindings ≡ out.bindings ++ vs

  compare-Binds :
      (out : SqlFragment N J) (field op : Str) (value : Value N J)
      → OnOk (Binds out (value ∷ [])) (compare out field op value)
  unfolding compare
  compare-Binds out field op value =
      OnOk-bind (Binds out (value ∷ [])) (quote_ident field) _ λ col e. refl

  placeholders-Binds :
      (first : Bool) (values : List (Value N J)) (out : SqlFragment N J)
      → Binds out values (placeholders first values out)
  unfolding placeholders
  placeholders-Binds first [] out = sym (append-nil out.bindings)
  placeholders-Binds true (v ∷ vs) out =
      placeholders-Binds false vs _ ∙ append_assoc out.bindings (v ∷ []) vs
  placeholders-Binds false (v ∷ vs) out =
      placeholders-Binds false vs _ ∙ append_assoc out.bindings (v ∷ []) vs

  binary-Binds :
      (lhs rhs : FilterNode N J) (op : Str) (out : SqlFragment N J)
      → ((o : SqlFragment N J) → OnOk (Binds o (values_of lhs)) (translate lhs o))
      → ((o : SqlFragment N J) → OnOk (Binds o (values_of rhs)) (translate rhs o))
      → OnOk (Binds out (values_of lhs ++ values_of rhs)) (
          translate lhs (push_str (codes "(") out) >>= λ left.
          translate rhs (push_str (codes " ") (push_str op (push_str (codes " ") left)))
          >>= λ right. ok (push_str (codes ")") right))
  binary-Binds lhs rhs op out l r =
      let start = push_str (codes "(") out in
      let P = Binds out (values_of lhs ++ values_of rhs) in
      OnOk-bind P (translate lhs start) _ λ left e.
        let middle = push_str (codes " ") (push_str op (push_str (codes " ") left)) in
        OnOk-bind P (translate rhs middle) _ λ right d.
          OnOk-ok (Binds middle (values_of rhs)) (translate rhs middle) right (r middle) d
          ∙ ap (λ xs. xs ++ values_of rhs)
              (OnOk-ok (Binds start (values_of lhs)) (translate lhs start) left (l start) e)
          ∙ append_assoc out.bindings (values_of lhs) (values_of rhs)

  translate-Binds :
      (node : FilterNode N J) (out : SqlFragment N J)
      → OnOk (Binds out (values_of node)) (translate node out)
  unfolding translate values_of
  translate-Binds (and lhs rhs) out =
      binary-Binds lhs rhs (codes "AND") out (translate-Binds lhs) (translate-Binds rhs)
  translate-Binds (or lhs rhs) out =
      binary-Binds lhs rhs (codes "OR") out (translate-Binds lhs) (translate-Binds rhs)
  translate-Binds (negated inner) out =
      let start = push_str (codes "(NOT ") out in
      OnOk-bind (Binds out (values_of inner)) (translate inner start) _ λ done e.
        OnOk-ok (Binds start (values_of inner)) (translate inner start) done
          (translate-Binds inner start) e
  translate-Binds (eq field value) out = compare-Binds out field (codes "=") value
  translate-Binds (ne field value) out = compare-Binds out field (codes "<>") value
  translate-Binds (gt field value) out = compare-Binds out field (codes ">") value
  translate-Binds (gte field value) out = compare-Binds out field (codes ">=") value
  translate-Binds (lt field value) out = compare-Binds out field (codes "<") value
  translate-Binds (lte field value) out = compare-Binds out field (codes "<=") value
  translate-Binds (like field pat) out =
      OnOk-bind (Binds out (values_of (like field pat))) (quote_ident field) _ λ col e. refl
  translate-Binds (one_of field values) out =
      OnOk-bind (Binds out values) (quote_ident field) _ λ col e.
        placeholders-Binds true values
          (push_str (codes " IN (") (push_str col (push_str (codes "(") out)))

  -- The bindings of a filter that is translated are its values from left to right, each pattern
  -- between two percent signs.
  pub filter_to_sql-values_of :
      (filter : FilterNode N J) (f : SqlFragment N J)
      → filter_to_sql filter ≡ ok f
      → f.bindings ≡ values_of filter
  unfolding filter_to_sql
  filter_to_sql-values_of filter f h =
      OnOk-ok (Binds empty (values_of filter)) (translate filter empty) f
        (translate-Binds filter empty) h
