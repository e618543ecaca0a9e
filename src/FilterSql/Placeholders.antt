-- ===== src/FilterSql/Placeholders.antt =====
-- The fragments of crates/rustbase-db/src/filter_sql.rs are whole: a placeholder for each binding,
-- and every parenthesis closed.
use rustbase.Base.{
  ◌+◌, ◌≡◌, refl, Bool, true, false, Str, codes, List, [], ◌∷◌, ◌++◌, length, length-append, count,
  count-append, count-word, arith,
}
use rustbase.Error.{ok, ◌>>=◌, OnOk, OnOk-bind, OnOk-mono, OnOk-ok}
use rustbase.Filter.{
  Value, string, FilterNode, and, or, negated, eq, ne, gt, gte, lt, lte, like, one_of,
}
use rustbase.FilterSql.{
  SqlFragment, empty, is_ident, quote_ident, push_str, compare, placeholders, translate,
  filter_to_sql,
}

module _ {N J : Type 0} where
  -- What was added to a fragment has a placeholder for each binding, and closes its parentheses.
  abbrev pub Adds : SqlFragment N J → SqlFragment N J → Type 0
  Adds out f =
      (count b'?' f.sql + length out.bindings ≡ count b'?' out.sql + length f.bindings)
      × (count b'(' f.sql + count b')' out.sql ≡ count b'(' out.sql + count b')' f.sql)

-- A text without the marks that are counted.
abbrev Plain : Str → Type 0
Plain s = (count b'?' s ≡ 0) × (count b'(' s ≡ 0) × (count b')' s ≡ 0)

quote_ident-Plain : (field : Str) → OnOk Plain (quote_ident field)
unfolding quote_ident is_ident count
quote_ident-Plain [] = tt
quote_ident-Plain (first ∷ rest) = ground (
  arith,
  count-append b'?' rest (b'"' ∷ []),
  count-word b'?' rest,
  count-append b'(' rest (b'"' ∷ []),
  count-word b'(' rest,
  count-append b')' rest (b'"' ∷ []),
  count-word b')' rest,
)

module _ {N J : Type 0} where
  Adds-trans : (a b c : SqlFragment N J) → Adds a b → Adds b c → Adds a c
  Adds-trans a b c h k = (omega arith, omega arith)

  compare-Adds :
      (out : SqlFragment N J) (field op : Str) (value : Value N J)
      → Plain op
      → OnOk (Adds out) (compare out field op value)
  unfolding compare count
  compare-Adds out field op value h = OnOk-bind (Adds out) (quote_ident field) _ λ col e.
      let k = OnOk-ok Plain (quote_ident field) col (quote_ident-Plain field) e in
      let l = length-append out.bindings (value ∷ []) in simp count-append (ground arith)

  like-Adds :
      (out : SqlFragment N J) (field pat : Str) → OnOk (Adds out) (translate (like field pat) out)
  unfolding translate count
  like-Adds out field pat = OnOk-bind (Adds out) (quote_ident field) _ λ col e.
      let k = OnOk-ok Plain (quote_ident field) col (quote_ident-Plain field) e in
      let l = length-append out.bindings (string (b'%' ∷ (pat ++ (b'%' ∷ []))) ∷ []) in
      simp count-append (ground arith)

  placeholders-Adds :
      (first : Bool) (values : List (Value N J)) (out : SqlFragment N J)
      → Adds out (placeholders first values out)
  unfolding placeholders count
  placeholders-Adds first [] out = (refl, refl)
  placeholders-Adds true (v ∷ vs) out =
      let l = length-append out.bindings (v ∷ []) in
      Adds-trans out _ _ (simp count-append (ground arith)) (placeholders-Adds false vs _)
  placeholders-Adds false (v ∷ vs) out =
      let l = length-append out.bindings (v ∷ []) in
      Adds-trans out _ _ (simp count-append (ground arith)) (placeholders-Adds false vs _)

  one_of-Adds :
      (out : SqlFragment N J) (field : Str) (values : List (Value N J))
      → OnOk (Adds out) (translate (one_of field values) out)
  unfolding translate count
  one_of-Adds out field values = OnOk-bind (Adds out) (quote_ident field) _ λ col e.
      let k = OnOk-ok Plain (quote_ident field) col (quote_ident-Plain field) e in
      let l =
        placeholders-Adds true values
          (push_str (codes " IN (") (push_str col (push_str (codes "(") out))) in
      let m = simp count-append at l in simp count-append (ground arith)

  binary-Adds :
      (lhs rhs : FilterNode N J) (op : Str) (out : SqlFragment N J)
      → ((o : SqlFragment N J) → OnOk (Adds o) (translate lhs o))
      → ((o : SqlFragment N J) → OnOk (Adds o) (translate rhs o))
      → Plain op
      → OnOk (Adds out) (
          translate lhs (push_str (codes "(") out) >>= λ left.
          translate rhs (push_str (codes " ") (push_str op (push_str (codes " ") left)))
          >>= λ right. ok (push_str (codes ")") right))
  unfolding count
  binary-Adds lhs rhs op out l r h =
      let start = push_str (codes "(") out in
      OnOk-bind (Adds out) (translate lhs start) _ λ left e.
        let middle = push_str (codes " ") (push_str op (push_str (codes " ") left)) in
        OnOk-bind (Adds out) (translate rhs middle) _ λ right d.
          let a = OnOk-ok (Adds start) (translate lhs start) left (l start) e in
          let b = OnOk-ok (Adds middle) (translate rhs middle) right (r middle) d in
          let a' = simp count-append at a in
          let b' = simp count-append at b in simp count-append (ground arith)

  translate-Adds :
      (node : FilterNode N J) (out : SqlFragment N J) → OnOk (Adds out) (translate node out)
  unfolding translate count
  translate-Adds (and lhs rhs) out =
      binary-Adds lhs rhs (codes "AND") out (translate-Adds lhs) (translate-Adds rhs)
        (refl, refl, refl)
  translate-Adds (or lhs rhs) out =
      binary-Adds lhs rhs (codes "OR") out (translate-Adds lhs) (translate-Adds rhs)
        (refl, refl, refl)
  translate-Adds (negated inner) out =
      let start = push_str (codes "(NOT ") out in
      OnOk-bind (Adds out) (translate inner start) _ λ done e.
        let a = OnOk-ok (Adds start) (translate inner start) done (translate-Adds inner start) e in
        let a' = simp count-append at a in simp count-append (ground arith)
  translate-Adds (eq field value) out = compare-Adds out field (codes "=") value (refl, refl, refl)
  translate-Adds (ne field value) out = compare-Adds out field (codes "<>") value (refl, refl, refl)
  translate-Adds (gt field value) out = compare-Adds out field (codes ">") value (refl, refl, refl)
  translate-Adds (gte field value) out =
      compare-Adds out field (codes ">=") value (refl, refl, refl)
  translate-Adds (lt field value) out = compare-Adds out field (codes "<") value (refl, refl, refl)
  translate-Adds (lte field value) out =
      compare-Adds out field (codes "<=") value (refl, refl, refl)
  translate-Adds (like field pat) out = like-Adds out field pat
  translate-Adds (one_of field values) out = one_of-Adds out field values

  -- A translated filter has as many placeholders as bindings, and as many opening as closing
  -- parentheses.
  pub filter_to_sql-Adds :
      (filter : FilterNode N J)
      → OnOk
          (λ f. (count b'?' f.sql ≡ length f.bindings) × (count b'(' f.sql ≡ count b')' f.sql))
          (filter_to_sql filter)
  unfolding filter_to_sql count
  filter_to_sql-Adds filter =
      OnOk-mono (Adds empty) _ (translate filter empty) (λ f h. (omega arith, omega arith))
        (translate-Adds filter empty)
