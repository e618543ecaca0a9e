-- ===== src/Policy/Refinement.antt =====
-- What `allows` and `clamp` of crates/rustbase-core/src/config.rs promise of each other.
use rustbase.Base.{
  Str, ◌≡◌, refl, ap, Bool, true, false, some, List, [], ◌∷◌, arith, all, keep, contains, all-keep,
  keep-of-all, all_mono, all-contains, contains-keep,
}
use rustbase.Base.Int.{ℤ, ◌≤ℤ◌, ◌<ℤ◌, eq_of_le_le}
use rustbase.Policy.{
  RangePolicy, TogglePolicy, EnumSetPolicy, PolicySpec, range, toggle, enum_set, free, open_default,
  locked, range_new, range_allows, range_clamp, toggle_allows, effective, enum_set_allows,
  enum_set_clamp, allows, clamp,
}

-- A range of a well formed specification is not empty, as `RangePolicy::new` makes it.
abbrev pub IsWellFormed : {J : Type 0} → PolicySpec J → Type 0
IsWellFormed (range r) = r.min ≤ℤ r.max
IsWellFormed _ = Unit

abbrev pub SameKind : {J : Type 0} → PolicySpec J → PolicySpec J → Type 0
SameKind (range _) (range _) = Unit
SameKind (toggle _) (toggle _) = Unit
SameKind (enum_set _) (enum_set _) = Unit
SameKind (free _) (free _) = Unit
SameKind _ _ = ⊥

abbrev pub is_toggle : {J : Type 0} → PolicySpec J → Bool
is_toggle (toggle _) = true
is_toggle _ = false

range_new-some : (lo hi : ℤ) (r : RangePolicy) → range_new lo hi ≡ some r → r.min ≤ℤ r.max
unfolding range_new
range_new-some lo hi r h = ground arith

-- Ranges.
range_allows-clamp : (p c : RangePolicy) → p.min ≤ℤ p.max → range_allows p (range_clamp p c) ≡ true
unfolding range_allows range_clamp
range_allows-clamp p c h = ground arith

range_clamp-of-allows : (p c : RangePolicy) → range_allows p c ≡ true → range_clamp p c ≡ c
unfolding range_allows range_clamp
range_clamp-of-allows p c h = ground (arith, eq_of_le_le c.min p.min, eq_of_le_le c.max p.max)

range_allows_trans :
    (p c d : RangePolicy)
    → range_allows p c ≡ true
    → range_allows c d ≡ true
    → range_allows p d ≡ true
unfolding range_allows
range_allows_trans p c d h k = ground arith

range_clamp_greatest :
    (p c d : RangePolicy)
    → range_allows p d ≡ true
    → range_allows c d ≡ true
    → range_allows (range_clamp p c) d ≡ true
unfolding range_allows range_clamp
range_clamp_greatest p c d h k = ground arith

-- Sets.
enum_set_allows_trans :
    (p c d : EnumSetPolicy)
    → enum_set_allows p c ≡ true
    → enum_set_allows c d ≡ true
    → enum_set_allows p d ≡ true
unfolding enum_set_allows
enum_set_allows_trans p c d h k =
    all_mono (contains c.allowed) (contains p.allowed) d.allowed
      (λ s m. all-contains (contains p.allowed) c.allowed s h m) k

enum_set_clamp_greatest :
    (p c d : EnumSetPolicy)
    → enum_set_allows p d ≡ true
    → enum_set_allows c d ≡ true
    → enum_set_allows (enum_set_clamp p c) d ≡ true
unfolding enum_set_allows enum_set_clamp
enum_set_clamp_greatest p c d h k = all-both d.allowed h k
  where
    all-both :
        (xs : List Str)
        → all (contains p.allowed) xs ≡ true
        → all (contains c.allowed) xs ≡ true
        → all (contains (keep (contains p.allowed) c.allowed)) xs ≡ true
    all-both [] h k = refl
    all-both (x ∷ xs) h k =
        ground (arith, contains-keep (contains p.allowed) c.allowed x, all-both xs)

module _ {J : Type 0} where
  -- Clamping a child into a well formed parent of its kind gives a specification that the parent
  -- allows.
  pub allows-clamp :
      (p c : PolicySpec J) → IsWellFormed p → SameKind p c → allows p (clamp p c) ≡ true
  unfolding allows clamp
  allows-clamp (range p) (range c) w s = range_allows-clamp p c w
  allows-clamp (toggle (open_default p)) (toggle c) w s = refl
  allows-clamp (toggle (locked p)) (toggle c) w s = ground arith
  allows-clamp (enum_set p) (enum_set c) w s = all-keep (contains p.allowed) c.allowed
  allows-clamp (free p) (free c) w s = refl
  allows-clamp p c w s = absurd s

  -- What a parent allows is of the parent's kind.
  pub allows-SameKind : (p c : PolicySpec J) → allows p c ≡ true → SameKind p c
  unfolding allows
  allows-SameKind (range p) (range c) h = tt
  allows-SameKind (toggle p) (toggle c) h = tt
  allows-SameKind (enum_set p) (enum_set c) h = tt
  allows-SameKind (free p) (free c) h = tt
  allows-SameKind p c h = cc

  pub allows-IsWellFormed : (p c : PolicySpec J) → allows p c ≡ true → IsWellFormed c
  unfolding allows range_allows
  allows-IsWellFormed (range p) (range c) h = ground arith
  allows-IsWellFormed p (toggle c) h = tt
  allows-IsWellFormed p (enum_set c) h = tt
  allows-IsWellFormed p (free c) h = tt
  allows-IsWellFormed p (range c) h = cc

  -- Whatever both the parent and the child allow is allowed after the clamp: `clamp` cuts away no
  -- more than the parent's bound asks for.
  pub clamp_greatest :
      (p c d : PolicySpec J) → allows p d ≡ true → allows c d ≡ true → allows (clamp p c) d ≡ true
  unfolding allows clamp
  clamp_greatest (range p) (range c) (range d) h k = range_clamp_greatest p c d h k
  clamp_greatest (toggle (open_default p)) (toggle c) (toggle d) h k = k
  clamp_greatest (toggle (locked p)) (toggle c) (toggle d) h k = h
  clamp_greatest (enum_set p) (enum_set c) (enum_set d) h k = enum_set_clamp_greatest p c d h k
  clamp_greatest (free p) (free c) (free d) h k = refl
  clamp_greatest p c d h k = cc

  -- Refinement is transitive over specifications that are no toggles.
  pub allows_trans :
      (p c d : PolicySpec J)
      → is_toggle p ≡ false
      → allows p c ≡ true
      → allows c d ≡ true
      → allows p d ≡ true
  unfolding allows
  allows_trans (range p) (range c) (range d) t h k = range_allows_trans p c d h k
  allows_trans (enum_set p) (enum_set c) (enum_set d) t h k = enum_set_allows_trans p c d h k
  allows_trans (free p) (free c) (free d) t h k = refl
  allows_trans p c d t h k = cc

  -- A clamp changes nothing that fits, but for an open toggle, which it locks.
  pub clamp-of-allows :
      (p c : PolicySpec J) → is_toggle p ≡ false → allows p c ≡ true → clamp p c ≡ c
  unfolding allows clamp
  clamp-of-allows (range p) (range c) t h = ap range (range_clamp-of-allows p c h)
  clamp-of-allows (enum_set p) (enum_set c) t h =
      ap enum_set (λ i. record { allowed = keep-of-all (contains p.allowed) c.allowed h i })
  clamp-of-allows (free p) (free c) t h = refl
  clamp-of-allows p c t h = cc

  -- Clamping a child twice is clamping it once.
  pub clamp_idem :
      (p c : PolicySpec J) → IsWellFormed p → SameKind p c → clamp p (clamp p c) ≡ clamp p c
  clamp_idem (toggle (open_default p)) (toggle c) w s = unfold clamp in refl
  clamp_idem (toggle (locked p)) (toggle c) w s = unfold clamp in refl
  clamp_idem (range p) c w s =
      clamp-of-allows (range p) (clamp (range p) c) refl (allows-clamp (range p) c w s)
  clamp_idem (enum_set p) c w s =
      clamp-of-allows (enum_set p) (clamp (enum_set p) c) refl (allows-clamp (enum_set p) c w s)
  clamp_idem (free p) c w s =
      clamp-of-allows (free p) (clamp (free p) c) refl (allows-clamp (free p) c w s)
  clamp_idem p c w s = absurd s

  -- An empty range allows no specification, and a clamp into it replaces every range by it.
  pub inverted_range :
      (p : RangePolicy) (c : PolicySpec J) (d : RangePolicy)
      → p.max <ℤ p.min
      → (allows (range p) c ≡ false) × (clamp {J = J} (range p) (range d) ≡ range p)
  unfolding allows clamp range_allows range_clamp
  inverted_range p (range c) d h = ground arith
  inverted_range p _ d h = ground arith

-- A toggle that a locked parent allows has the locked value for its effect.
pub effective-locked :
    (v : Bool) (c : TogglePolicy) → toggle_allows (locked v) c ≡ true → effective c ≡ v
unfolding toggle_allows effective
effective-locked v c h = ground arith

pub SameKind-trans :
    {J : Type 0} (p c d : PolicySpec J) → SameKind p c → SameKind p d → SameKind c d
SameKind-trans (range _) (range _) d h k = k
SameKind-trans (toggle _) (toggle _) d h k = k
SameKind-trans (enum_set _) (enum_set _) d h k = k
SameKind-trans (free _) (free _) d h k = k
SameKind-trans p c d h k = absurd h

pub SameKind-refl : {J : Type 0} (p : PolicySpec J) → SameKind p p
SameKind-refl (range _) = tt
SameKind-refl (toggle _) = tt
SameKind-refl (enum_set _) = tt
SameKind-refl (free _) = tt
