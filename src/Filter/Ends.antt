-- ===== src/Filter/Ends.antt =====
-- The comparisons of crates/rustbase-core/src/filter.rs on texts: ranges and their ends.
use rustbase.Base.{
  ◌≡◌, refl, Bool, true, false, not, ◌&&◌, Str, str_eq, lookup, Option, List, [], ◌∷◌, arith,
}
use rustbase.Filter.{
  Value, null, boolean, number, string, compound, and, eq, gte, lt, lte, Ordering, is_lt, is_gt,
  str_cmp, or_null, decided, values_equal, cmp_values, matches,
}

-- Neither below nor above is the same text.
str_cmp-ends : (s t : Str) → (not (is_lt (str_cmp s t)) && not (is_gt (str_cmp s t))) ≡ str_eq s t
unfolding str_cmp is_lt is_gt str_eq
str_cmp-ends [] [] = refl
str_cmp-ends [] (b ∷ t) = refl
str_cmp-ends (a ∷ s) [] = refl
str_cmp-ends (a ∷ s) (b ∷ t) = ground (arith, str_cmp-ends s t)

str_cmp_trans :
    (r s t : Str)
    → is_lt (str_cmp r s) ≡ true
    → is_gt (str_cmp s t) ≡ false
    → is_lt (str_cmp r t) ≡ true
unfolding str_cmp is_lt is_gt
str_cmp_trans [] [] t h k = cc
str_cmp_trans [] (b ∷ s) [] h k = cc
str_cmp_trans [] (b ∷ s) (c ∷ t) h k = refl
str_cmp_trans (a ∷ r) [] t h k = cc
str_cmp_trans (a ∷ r) (b ∷ s) [] h k = cc
str_cmp_trans (a ∷ r) (b ∷ s) (c ∷ t) h k = ground (arith, str_cmp_trans r s t)

module _ {N J : Type 0} (num_eq : N → N → Bool) (json_eq : J → J → Bool)
    (num_cmp : N → N → Option Ordering) where
  ends-values :
      (v : Value N J) (s : Str)
      → (decided (λ o. not (is_lt o)) (cmp_values num_cmp v (string s))
          && decided (λ o. not (is_gt o)) (cmp_values num_cmp v (string s)))
        ≡ values_equal num_eq json_eq v (string s)
  unfolding cmp_values values_equal
  ends-values null s = refl
  ends-values (boolean b) s = refl
  ends-values (number n) s = refl
  ends-values (string t) s = str_cmp-ends t s
  ends-values (compound j) s = refl

  -- Whatever a record holds in a field, `k >= s && k <= s` and `k = s` agree on it where `s` is a
  -- text.
  pub matches-ends :
      (k s : Str) (fields : List (Str × Value N J))
      → matches num_eq json_eq num_cmp (and (gte k (string s)) (lte k (string s))) fields
        ≡ matches num_eq json_eq num_cmp (eq k (string s)) fields
  unfolding matches
  matches-ends k s fields = ends-values (or_null (lookup k fields)) s

  below-values :
      (v : Value N J) (s t : Str)
      → is_gt (str_cmp s t) ≡ false
      → decided is_lt (cmp_values num_cmp v (string s)) ≡ true
      → decided is_lt (cmp_values num_cmp v (string t)) ≡ true
  unfolding cmp_values
  below-values null s t o h = h
  below-values (boolean b) s t o h = h
  below-values (number n) s t o h = h
  below-values (string r) s t o h = str_cmp_trans r s t h o
  below-values (compound j) s t o h = h

  -- Every record that `k < s` matches is matched by `k < t` where the text `t` is not below `s`.
  pub matches-lt_mono :
      (k s t : Str) (fields : List (Str × Value N J))
      → is_gt (str_cmp s t) ≡ false
      → matches num_eq json_eq num_cmp (lt k (string s)) fields ≡ true
      → matches num_eq json_eq num_cmp (lt k (string t)) fields ≡ true
  unfolding matches
  matches-lt_mono k s t fields o h = below-values (or_null (lookup k fields)) s t o h
