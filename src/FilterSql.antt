-- ===== src/FilterSql.antt =====
-- crates/rustbase-db/src/filter_sql.rs: the translation of a filter expression into the text of a
-- `WHERE` clause and the values bound to its placeholders. The error `InvalidIdentifier` stands as
-- the `CoreError` that crates/rustbase-db/src/error.rs makes of it.
pub mod Placeholders
pub mod Bindings
pub mod Fields
pub mod Erased
use rustbase.Base.{
  ◌==◌, Bool, true, false, ◌&&◌, ◌||◌, Str, codes, List, [], ◌∷◌, ◌++◌, all, is_ascii_alphabetic,
  is_word, if◌then◌else◌,
}
use rustbase.Error.{CoreError, invalid_identifier, core_error, Result, ok, err, ◌>>=◌}
use rustbase.Filter.{
  Value, string, FilterNode, and, or, negated, eq, ne, gt, gte, lt, lte, like, one_of,
}

-- `CoreError::from(DbError::InvalidIdentifier(name))`.
abbrev pub refused : Str → CoreError
refused name = core_error (invalid_identifier name)

pub record SqlFragment (N J : Type 0) : Type 0 where
  pub sql : Str
  pub bindings : List (Value N J)

unfoldable pub is_ident : Str → Bool
is_ident [] = false
is_ident (first ∷ rest) = (is_ascii_alphabetic first || first == b'_') && all is_word rest

unfoldable pub quote_ident : Str → Result Str
unfolding is_ident
quote_ident field =
    if is_ident field then ok (b'"' ∷ (field ++ (b'"' ∷ []))) else err (refused field)

module _ {N J : Type 0} where
  abbrev pub empty : SqlFragment N J
  empty = record { sql = []; bindings = [] }

  -- `out.sql.push_str` and `out.bindings.push`.
  abbrev pub push_str : Str → SqlFragment N J → SqlFragment N J
  push_str s out = record out { sql = out.sql ++ s }

  abbrev pub bind : Value N J → SqlFragment N J → SqlFragment N J
  bind v out = record out { bindings = out.bindings ++ (v ∷ []) }

  unfoldable pub compare : SqlFragment N J → Str → Str → Value N J → Result (SqlFragment N J)
  unfolding quote_ident
  compare out field op value = do
    col ← quote_ident field
    ok (
        bind value (
          push_str (codes " ?)")
            (push_str op (push_str (codes " ") (push_str col (push_str (codes "(") out))))))

  -- The loop over the members of `In`, which puts a comma before each but the first.
  unfoldable pub placeholders : Bool → List (Value N J) → SqlFragment N J → SqlFragment N J
  placeholders first [] out = out
  placeholders first (v ∷ vs) out =
      placeholders false vs
        (bind v (push_str (codes "?") (if first then out else push_str (codes ", ") out)))

  unfoldable pub translate : FilterNode N J → SqlFragment N J → Result (SqlFragment N J)
  unfolding quote_ident compare placeholders
  translate (and lhs rhs) out = do
    left ← translate lhs (push_str (codes "(") out)
    right ←
        translate rhs (push_str (codes " ") (push_str (codes "AND") (push_str (codes " ") left)))
    ok (push_str (codes ")") right)
  translate (or lhs rhs) out = do
    left ← translate lhs (push_str (codes "(") out)
    right ← translate rhs (push_str (codes " ") (push_str (codes "OR") (push_str (codes " ") left)))
    ok (push_str (codes ")") right)
  translate (negated inner) out = do
    done ← translate inner (push_str (codes "(NOT ") out)
    ok (push_str (codes ")") done)
  translate (eq field value) out = compare out field (codes "=") value
  translate (ne field value) out = compare out field (codes "<>") value
  translate (gt field value) out = compare out field (codes ">") value
  translate (gte field value) out = compare out field (codes ">=") value
  translate (lt field value) out = compare out field (codes "<") value
  translate (lte field value) out = compare out field (codes "<=") value
  translate (like field pat) out = do
    col ← quote_ident field
    ok (
        bind (string (b'%' ∷ (pat ++ (b'%' ∷ []))))
          (push_str (codes " LIKE ?)") (push_str col (push_str (codes "(") out))))
  translate (one_of field values) out = do
    col ← quote_ident field
    ok (
        push_str (codes "))") (
          placeholders true values
            (push_str (codes " IN (") (push_str col (push_str (codes "(") out)))))

  unfoldable pub filter_to_sql : FilterNode N J → Result (SqlFragment N J)
  unfolding translate
  filter_to_sql filter = translate filter empty
