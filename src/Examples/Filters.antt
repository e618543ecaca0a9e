-- ===== src/Examples/Filters.antt =====
-- The theorems on filters and rule templates at concrete inputs.
use rustbase.Base.{
  ℕ, ◌+◌, ◌==◌, ◌≡◌, ◌↔◌, refl, true, Str, codes, str_eq, Option, none, some, List, [], ◌∷◌, ◌++◌,
  length,
}
use rustbase.Filter.{
  Ordering, matches, number, string, FilterNode, and, eq, one_of, like, like_match,
}
use rustbase.Filter.Like.{Matches, like_match_iff}
use rustbase.Filter.Substring.{Within, like-readings}
use rustbase.FilterSql.{SqlFragment, filter_to_sql}
use rustbase.FilterSql.Erased.{erase, sql_text, filter_to_sql-erase}
use rustbase.RuleTemplate.{RuleContext, loop, substitute}
use rustbase.RuleTemplate.Ends.{substitute-loop}
use rustbase.RuleTemplate.Pieces.{Piece, chunk, slot, render, expand, substitute-render}

abbrev alice : Str
alice = codes "alice"

abbrev any_ali : Str
any_ali = codes "ali_e%"

like_match_iff_example : (like_match alice any_ali ≡ true) ↔ Matches alice any_ali
like_match_iff_example = like_match_iff alice any_ali

abbrev no_order : ℕ → ℕ → Option Ordering
no_order a b = none

abbrev lic_sql : SqlFragment ℕ (Unit {0})
lic_sql = record { sql = codes "(\"title\" LIKE ?)"; bindings = string (codes "%lic%") ∷ [] }

like-readings_example :
    (p : Str) × (lic_sql.bindings ≡ string p ∷ [])
    × ((v : Str)
        → (matches ◌==◌
              (λ (a b : Unit {0}). true)
              no_order
              (like (codes "title") (codes "lic"))
              ((codes "title", string v) ∷ [])
            ≡ str_eq v (codes "lic"))
          × ((like_match v p ≡ true) ↔ Within (codes "lic") v))
unfolding filter_to_sql
like-readings_example =
    like-readings ◌==◌ (λ (a b : Unit {0}). true) no_order (codes "title") (codes "lic") lic_sql
      refl refl

-- status = "open" && kind in (1, 2) && title ~ "x"
abbrev asked : FilterNode ℕ (Unit {0})
asked =
    and
      (and (eq (codes "status") (string (codes "open")))
        (one_of (codes "kind") (number 1 ∷ number 2 ∷ [])))
      (like (codes "title") (codes "x"))

abbrev dotted : FilterNode ℕ (Unit {0})
dotted = and (eq (codes "status") (number 1)) (eq (codes "user.email") (number 2))

filter_to_sql-erase_example :
    sql_text (filter_to_sql asked) ≡ sql_text (filter_to_sql (erase asked))
filter_to_sql-erase_example = filter_to_sql-erase asked

-- A function in the place of the JSON encoder.
abbrev quoted : Str → Option Str
quoted s = some (b'"' ∷ (s ++ (b'"' ∷ [])))

abbrev of_ada : RuleContext
of_ada = record {
  user_id = some (codes "ada");
  user_email = none;
  user_workspace = some (codes "acme");
}

abbrev owner_rule : List Piece
owner_rule = chunk (codes "owner = ") ∷ slot (codes " request.auth.id ") ∷ []

substitute-loop_example :
    loop quoted of_ada
      (length (codes "owner = {{request.auth.id}}") + 1 + 5)
      (codes "owner = {{request.auth.id}}")
      []
    ≡ some (substitute quoted (codes "owner = {{request.auth.id}}") of_ada)
substitute-loop_example = substitute-loop quoted of_ada (codes "owner = {{request.auth.id}}") 5

substitute-render_example :
    substitute quoted (render owner_rule) of_ada ≡ expand quoted of_ada owner_rule
substitute-render_example = substitute-render quoted of_ada owner_rule refl
