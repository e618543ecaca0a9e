-- ===== src/AccessRules/Stored.antt =====
-- The rows of crates/rustbase-db/src/access_rules.rs after a write.
use rustbase.Base.{
  ◌≡◌, refl, sym, ap₂, ◌∙◌, inl, inr, Bool-cases, Bool, true, false, ◌&&◌, Str, str_eq, str_eq_iff,
  Option, some, List, [], ◌∷◌, if◌then◌else◌, arith,
}
use rustbase.Collections.{RuleRow}
use rustbase.AccessRules.{
  AccessAction, list, view, create, update, delete, is_row, as_str, from_str, get_rule, set_rule,
}

-- The name of an action is read back as the action.
pub from_str-as_str : (a : AccessAction) → from_str (as_str a) ≡ some a
unfolding from_str as_str str_eq
from_str-as_str list = refl
from_str-as_str view = refl
from_str-as_str create = refl
from_str-as_str update = refl
from_str-as_str delete = refl

abbrev pub same_rule : Str → AccessAction → Str → AccessAction → Bool
same_rule c a d b = str_eq c d && str_eq (as_str a) (as_str b)

str_eq_sym : (s t : Str) → str_eq s t ≡ str_eq t s
str_eq_sym s t = ground (arith, str_eq_iff s t, str_eq_iff t s)

-- A row that has one key has another exactly where the keys are the same.
row_key :
    (x y c s d t : Str)
    → (str_eq x c && str_eq y s) ≡ true
    → (str_eq x d && str_eq y t) ≡ (str_eq c d && str_eq s t)
row_key x y c s d t h =
    let p : x ≡ c = (str_eq_iff x c).0 (ground arith) in
    let q : y ≡ s = (str_eq_iff y s).0 (ground arith) in ap₂ (λ u v. str_eq u d && str_eq v t) p q

row_key_back :
    (x y c s d t : Str)
    → (str_eq x c && str_eq y s) ≡ false
    → (str_eq x d && str_eq y t) ≡ true
    → (str_eq c d && str_eq s t) ≡ false
row_key_back x y c s d t h k =
    let p : x ≡ d = (str_eq_iff x d).0 (ground arith) in
    let q : y ≡ t = (str_eq_iff y t).0 (ground arith) in
    ap₂ (λ u v. str_eq c u && str_eq s v) (sym p) (sym q)
    ∙ ap₂ (λ a b. a && b) (str_eq_sym c x) (str_eq_sym s y)
    ∙ h

tested_once {ℓ} :
    {A : Type ℓ} (t : Bool) (x y z : A)
    → (if t then x else z) ≡ (if t then x else if t then y else z)
tested_once true x y z = refl
tested_once false x y z = refl

-- After a write the rule of its collection and action is the one written, and every other rule is
-- as it was.
pub get_rule-set_rule :
    (rs : List RuleRow) (c d : Str) (a b : AccessAction) (filter : Option Str)
    → get_rule (set_rule rs c a filter) d b
      ≡ (if same_rule c a d b then some filter else get_rule rs d b)
unfolding get_rule set_rule
get_rule-set_rule [] c d a b filter = refl
get_rule-set_rule (r ∷ rs) c d a b filter = elim (Bool-cases (is_row c a r)) [
  | inl e ↦
      rw (e, row_key r.collection_id r.action c (as_str a) d (as_str b) e)
        (tested_once (same_rule c a d b) (some filter) (some r.filter) (get_rule rs d b))
  | inr e ↦ elim (Bool-cases (is_row d b r)) [
    | inl k ↦ rw (e, k, row_key_back r.collection_id r.action c (as_str a) d (as_str b) e k) refl
    | inr k ↦ rw (e, k) (get_rule-set_rule rs c d a b filter)
  ]
]
