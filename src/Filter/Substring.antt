-- ===== src/Filter/Substring.antt =====
-- The two readings of a `~` filter: the pattern alone in crates/rustbase-core/src/filter.rs, and
-- the pattern between two `%` in crates/rustbase-db/src/filter_sql.rs.
use rustbase.Base.{
  ◌≡◌, refl, ◌↔◌, ap, ap₂, ◌∙◌, Bool, true, Str, str_eq, str_eq_refl, lookup, Option, none, some,
  if◌then◌else◌, [], ◌∷◌, ◌++◌, arith,
}
use rustbase.Error.{ok}
use rustbase.Filter.{Ordering, string, like, like_match, like_value, matches}
use rustbase.FilterSql.{SqlFragment, filter_to_sql}
use rustbase.FilterSql.Bindings.{values_of, filter_to_sql-values_of}
use rustbase.Filter.Like.{
  Matches, run, same, is_literal, like_match_iff, run-match, like_match-literal,
}

-- `format!("%{pat}%")`.
abbrev wrapped : Str → Str
wrapped pat = b'%' ∷ (pat ++ (b'%' ∷ []))

-- A text is a part of another.
abbrev pub Within : Str → Str → Type 0
Within pat v = (before : Str) × (after : Str) × (v ≡ before ++ (pat ++ after))

run-all : (v : Str) → like_match v (b'%' ∷ []) ≡ true
unfolding like_match
run-all [] = ground arith
run-all (c ∷ v) = ground (arith, run-all v)

-- A literal with a `%` behind it is a beginning of the text.
Begins-literal :
    (v pat : Str)
    → is_literal pat ≡ true
    → like_match v (pat ++ (b'%' ∷ [])) ≡ true
    → (after : Str) × (v ≡ pat ++ after)
unfolding like_match
Begins-literal v [] lit h = (v, refl)
Begins-literal [] (ch ∷ pat) lit h = absurd (ground arith)
Begins-literal (c ∷ v) (ch ∷ pat) lit h =
    let (after, e) = Begins-literal v pat (ground arith) (ground arith) in
    let d : c ≡ ch = ground arith in (after, ap₂ (λ x y. x ∷ y) d e)

literal-Begins :
    (pat after : Str)
    → is_literal pat ≡ true
    → like_match (pat ++ after) (pat ++ (b'%' ∷ [])) ≡ true
unfolding like_match
literal-Begins [] after lit = run-all after
literal-Begins (ch ∷ pat) after lit = ground (arith, literal-Begins pat after)

-- A `%` first: some end of the text is left for the rest of the pattern.
run-inv :
    (v p : Str)
    → Matches v (b'%' ∷ p)
    → (before : Str) × (rest : Str) × (v ≡ before ++ rest) × Matches rest p
run-inv _ _ (run before v p m) = (before, v, refl, m)
run-inv _ _ (same c v p other m) = absurd (other refl)

wrapped_iff :
    (v pat : Str) → is_literal pat ≡ true → (like_match v (wrapped pat) ≡ true) ↔ Within pat v
wrapped_iff v pat lit = (there, back)
  where
    there : like_match v (wrapped pat) ≡ true → Within pat v
    there h =
        let (before, rest, e, m) = run-inv v _ ((like_match_iff v _).0 h) in
        let (after, d) = Begins-literal rest pat lit ((like_match_iff rest _).1 m) in
        (before, after, e ∙ ap (λ x. before ++ x) d)

    back : Within pat v → like_match v (wrapped pat) ≡ true
    back (before, after, e) =
        rw e (run-match before (pat ++ after) (pat ++ (b'%' ∷ [])) (literal-Begins pat after lit))

module _ {N J : Type 0} (num_eq : N → N → Bool) (json_eq : J → J → Bool)
    (num_cmp : N → N → Option Ordering) where
  -- Where a field has a text and a pattern has neither `%` nor `_` in it: in memory the filter `~`
  -- matches the text exactly if it is the pattern, whereas the one value that the SQL translation
  -- binds, read by the same rules, matches the texts that the pattern is a part of.
  pub like-readings :
      (field pat : Str) (f : SqlFragment N J)
      → is_literal pat ≡ true
      → filter_to_sql (like field pat) ≡ ok f
      → (p : Str) × (f.bindings ≡ string p ∷ [])
        × ((v : Str)
            → (matches num_eq json_eq num_cmp (like field pat) ((field, string v) ∷ [])
                ≡ str_eq v pat)
              × ((like_match v p ≡ true) ↔ Within pat v))
  unfolding matches like_value lookup
  like-readings field pat f lit h = (
    wrapped pat,
    unfold values_of in (filter_to_sql-values_of (like field pat) f h),
    λ v. (
      ap (λ b. like_value {N = N} {J = J} (if b then some (string v) else none) pat)
            (str_eq_refl field)
          ∙ like_match-literal v pat lit,
      wrapped_iff v pat lit,
    ),
  )
