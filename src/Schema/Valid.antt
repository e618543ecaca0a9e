-- ===== src/Schema/Valid.antt =====
-- What `validate_schema` of crates/rustbase-db/src/collections.rs lets pass.
use rustbase.Base.{
  ◌≡◌, ◌↔◌, refl, Bool, true, false, not, ◌&&◌, Str, str_eq_iff, contains, Option, none, some, List,
  [], ◌∷◌, all, if◌then◌else◌, arith,
}
use rustbase.Error.{DbError}
use rustbase.Schema.{
  Field, Schema, is_valid_ident, reserved_field_names, check_fields, validate_schema, field_names,
}

-- No text stands in the list twice.
unfoldable pub distinct : List Str → Bool
distinct [] = true
distinct (s ∷ ss) = not (contains ss s) && distinct ss

abbrev pub is_field_name : Str → Bool
is_field_name s = is_valid_ident s && not (contains reserved_field_names s)

-- No text of one list stands in the other.
abbrev pub apart : List Str → List Str → Bool
apart seen names = all (λ s. not (contains seen s)) names

apart-cons :
    (n : Str) (seen names : List Str)
    → apart (n ∷ seen) names ≡ (not (contains names n) && apart seen names)
unfolding contains
apart-cons n seen [] = refl
apart-cons n seen (s ∷ ss) = ground (arith, apart-cons n seen ss, str_eq_iff n s, str_eq_iff s n)

apart-nothing : (names : List Str) → apart [] names ≡ true
unfolding contains
apart-nothing [] = refl
apart-nothing (s ∷ ss) = apart-nothing ss

-- A chain of three checks before the rest.
passes_iff :
    (a b c : Bool) (x y z : DbError) (rest : Option DbError)
    → ((if not a then some x else if b then some y else if c then some z else rest) ≡ none)
      ↔ ((a ≡ true) × (b ≡ false) × (c ≡ false) × (rest ≡ none))
passes_iff true true c x y z rest = ground arith
passes_iff true false true x y z rest = ground arith
passes_iff true false false x y z rest = ground arith
passes_iff false b c x y z rest = ground arith

-- The checks of one field and of those behind it, put together.
joined :
    {P Q : Type 0} (v r s n a d k : Bool) {k' : Bool}
    → P ↔ ((v ≡ true) × (r ≡ false) × (s ≡ false) × Q)
    → Q ↔ ((a && (d && k')) ≡ true)
    → k' ≡ (not n && k)
    → P ↔ ((((v && not r) && a) && ((not n && d) && (not s && k))) ≡ true)
joined v r s n a d k step rest e = (
  λ p. let h = step.0 p in ground (arith, rest.0 h.3),
  λ h. step.1 (ground arith, ground arith, ground arith, rest.1 (ground arith)),
)

module _ {F : Type 0} where
  check_fields_iff :
      (seen : List Str) (fs : List (Field F))
      → (check_fields seen fs ≡ none) ↔ (
          (all is_field_name (field_names fs)
            && (distinct (field_names fs) && apart seen (field_names fs)))
          ≡ true)
  unfolding check_fields distinct
  check_fields_iff seen [] = ground arith
  check_fields_iff seen (f ∷ fs) =
      let names = field_names fs in
      let step =
        passes_iff (is_valid_ident f.name) (contains reserved_field_names f.name)
          (contains seen f.name) _ _ _ (check_fields (f.name ∷ seen) fs) in
      joined (is_valid_ident f.name) (contains reserved_field_names f.name) (contains seen f.name)
        (contains names f.name) (all is_field_name names) (distinct names) (apart seen names) step
        (check_fields_iff (f.name ∷ seen) fs) (apart-cons f.name seen names)

  -- A schema passes exactly when its id is an identifier, and its fields have names that are
  -- identifiers, that are not reserved, and of which no two are the same.
  pub validate_schema_iff :
      (schema : Schema F)
      → (validate_schema schema ≡ none) ↔ (
          (is_valid_ident schema.id ≡ true)
          × (all is_field_name (field_names schema.fields) ≡ true)
          × (distinct (field_names schema.fields) ≡ true))
  unfolding validate_schema
  validate_schema_iff schema =
      ground (arith, check_fields_iff [] schema.fields, apart-nothing (field_names schema.fields))
