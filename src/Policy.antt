-- ===== src/Policy.antt =====
-- crates/rustbase-core/src/config.rs: the specification of a configurable knob at one scope, what a
-- parent scope allows, how a child is clamped, and chains of scopes from the top down.
pub mod Refinement
pub mod Chain
pub mod Cascade
use rustbase.Base.{
  ℕ, Str, codes, Bool, true, false, not, ◌&&◌, Option, none, some, List, [], ◌∷◌, ◌++◌,
  if◌then◌else◌, bool_eq, all, keep, contains,
}
use rustbase.Base.Int.{ℤ, leb_ℤ, ltb_ℤ, min_ℤ, max_ℤ}

-- `min` and `max` are `i64`; they are only compared, so no operation can leave the width.
pub record RangePolicy : Type 0 where
  pub min : ℤ
  pub max : ℤ

pub data TogglePolicy : Type 0 where
  open_default : Bool → TogglePolicy
  locked : Bool → TogglePolicy

-- A `BTreeSet`, as the list of its members.
pub record EnumSetPolicy : Type 0 where
  pub allowed : List Str

-- `J` is `serde_json::Value`, which a free policy carries and nothing here reads.
pub data PolicySpec (J : Type 0) : Type 0 where
  range : RangePolicy → PolicySpec J
  toggle : TogglePolicy → PolicySpec J
  enum_set : EnumSetPolicy → PolicySpec J
  free : J → PolicySpec J

-- `RangePolicy::new`; `none` is the validation error.
unfoldable pub range_new : ℤ → ℤ → Option RangePolicy
range_new lo hi = if ltb_ℤ hi lo then none else some (record { min = lo; max = hi })

unfoldable pub range_allows : RangePolicy → RangePolicy → Bool
range_allows p c = leb_ℤ p.min c.min && leb_ℤ c.max p.max && leb_ℤ c.min c.max

unfoldable pub range_clamp : RangePolicy → RangePolicy → RangePolicy
range_clamp p c =
    let lo = max_ℤ c.min p.min in
    let hi = min_ℤ c.max p.max in if ltb_ℤ hi lo then p else record { min = lo; max = hi }

unfoldable pub toggle_allows : TogglePolicy → TogglePolicy → Bool
toggle_allows (locked p) (locked c) = bool_eq p c
toggle_allows (locked p) (open_default c) = bool_eq p c
toggle_allows (open_default p) c = true

unfoldable pub toggle_clamp : TogglePolicy → TogglePolicy → TogglePolicy
toggle_clamp (locked v) c = locked v
toggle_clamp (open_default p) c = c

unfoldable pub effective : TogglePolicy → Bool
effective (open_default d) = d
effective (locked v) = v

-- `is_subset` and `intersection`; a `BTreeSet` lists its members in ascending order, which the
-- filtered list of the child keeps.
unfoldable pub enum_set_allows : EnumSetPolicy → EnumSetPolicy → Bool
enum_set_allows p c = all (contains p.allowed) c.allowed

unfoldable pub enum_set_clamp : EnumSetPolicy → EnumSetPolicy → EnumSetPolicy
enum_set_clamp p c = record { allowed = keep (contains p.allowed) c.allowed }

module _ {J : Type 0} where
  unfoldable pub allows : PolicySpec J → PolicySpec J → Bool
  unfolding range_allows toggle_allows enum_set_allows
  allows (range p) (range c) = range_allows p c
  allows (toggle p) (toggle c) = toggle_allows p c
  allows (enum_set p) (enum_set c) = enum_set_allows p c
  allows (free p) (free c) = true
  allows _ _ = false

  unfoldable pub clamp : PolicySpec J → PolicySpec J → PolicySpec J
  unfolding range_clamp toggle_clamp enum_set_clamp
  clamp (range p) (range c) = range (range_clamp p c)
  clamp (toggle p) (toggle c) = toggle (toggle_clamp p c)
  clamp (enum_set p) (enum_set c) = enum_set (enum_set_clamp p c)
  clamp _ c = c

-- `CoreError::PolicyViolation`: the field's text, and the value and the bound that it prints. The
-- bound of a chain also names the level that it comes from.
pub record PolicyViolation (J : Type 0) : Type 0 where
  pub field : Str
  pub value : PolicySpec J
  pub bound : PolicySpec J
  pub bound_level : Str

pub data Validated (J : Type 0) : Type 0 where
  valid : Validated J
  violation : PolicyViolation J → Validated J

pub record PolicyLevel (J : Type 0) : Type 0 where
  pub level : Str
  pub spec : PolicySpec J

pub record PolicyChange (J : Type 0) : Type 0 where
  pub field : Str
  pub level : Str
  pub before : PolicySpec J
  pub after : PolicySpec J

-- `format!("{field} ({})", child.level)`.
unfoldable pub field_at_level : Str → Str → Str
field_at_level field level = field ++ (codes " (" ++ (level ++ codes ")"))

module _ {J : Type 0} where
  -- `PolicySpec::validate`; its bound names no level.
  unfoldable pub validate : PolicySpec J → Str → PolicySpec J → Validated J
  validate parent field child =
      if allows parent child
      then valid
      else violation (record { field = field; value = child; bound = parent; bound_level = [] })

  unfoldable pub chain_violation : Str → PolicyLevel J → PolicyLevel J → PolicyViolation J
  unfolding field_at_level
  chain_violation field parent child = record {
    field = field_at_level field child.level;
    value = child.spec;
    bound = parent.spec;
    bound_level = parent.level;
  }

  -- The loop over `levels.windows(2)`, which returns at the first pair that is refused.
  unfoldable pub validate_chain : Str → List (PolicyLevel J) → Validated J
  unfolding chain_violation
  validate_chain field [] = valid
  validate_chain field (parent ∷ []) = valid
  validate_chain field (parent ∷ child ∷ rest) =
      if not (allows parent.spec child.spec)
      then violation (chain_violation field parent child)
      else validate_chain field (child ∷ rest)

  -- One round of the loop of `cascade_clamp`: the level as it is pushed on `out`.
  unfoldable pub clamp_level : PolicySpec J → PolicyLevel J → PolicyLevel J
  clamp_level parent level =
      if allows parent level.spec
      then level
      else record { level = level.level; spec = clamp parent level.spec }

  -- The change that the round pushes on `changes`, if any.
  unfoldable pub level_change : Str → PolicySpec J → PolicyLevel J → List (PolicyChange J)
  level_change field parent level =
      if allows parent level.spec
      then []
      else record {
        field = field;
        level = level.level;
        before = level.spec;
        after = clamp parent level.spec;
      }
        ∷ []

  -- The rounds from index 1 on; `parent` is `out[idx - 1].spec`.
  unfoldable pub clamp_below :
      Str → PolicySpec J → List (PolicyLevel J) → List (PolicyLevel J) × List (PolicyChange J)
  unfolding clamp_level level_change
  clamp_below field parent [] = ([], [])
  clamp_below field parent (level ∷ rest) =
      let out = clamp_level parent level in
      let (levels, changes) = clamp_below field out.spec rest in
      (out ∷ levels, level_change field parent level ++ changes)

  unfoldable pub cascade_clamp :
      Str → List (PolicyLevel J) → List (PolicyLevel J) × List (PolicyChange J)
  unfolding clamp_below
  cascade_clamp field [] = ([], [])
  cascade_clamp field (top ∷ rest) =
      let (levels, changes) = clamp_below field top.spec rest in (top ∷ levels, changes)
