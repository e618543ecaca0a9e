-- ===== src/Policy/Cascade.antt =====
-- `cascade_clamp` of crates/rustbase-core/src/config.rs restores a chain whose top has changed.
use rustbase.Base.{
  Str, ◌≡◌, refl, ap, ap₂, ◌↔◌, inl, inr, true, Bool-cases, List, [], ◌∷◌, map, arith, All,
}
use rustbase.Policy.{
  PolicySpec, allows, PolicyLevel, PolicyChange, valid, validate_chain, clamp_level, level_change,
  clamp_below, cascade_clamp,
}
use rustbase.Policy.Refinement.{
  IsWellFormed, SameKind, allows-clamp, allows-SameKind, allows-IsWellFormed, SameKind-trans,
}
use rustbase.Policy.Chain.{Descends, validate_chain-valid_iff}

module _ {J : Type 0} where
  clamp_level-allows :
      (p : PolicySpec J) (l : PolicyLevel J)
      → IsWellFormed p
      → SameKind p l.spec
      → allows p (clamp_level p l).spec ≡ true
  unfolding clamp_level
  clamp_level-allows p l w s = elim (Bool-cases (allows p l.spec)) [
    | inl h ↦ rw h h
    | inr h ↦ rw h (allows-clamp p l.spec w s)
  ]

  level-clamp_level : (p : PolicySpec J) (l : PolicyLevel J) → (clamp_level p l).level ≡ l.level
  unfolding clamp_level
  level-clamp_level p l = ground arith

  SameKinds-below :
      (p q : PolicySpec J) (rest : List (PolicyLevel J))
      → SameKind p q
      → All (λ l. SameKind p l.spec) rest
      → All (λ l. SameKind q l.spec) rest
  SameKinds-below p q [] h s = tt
  SameKinds-below p q (l ∷ rest) h s =
      (SameKind-trans p q l.spec h s.0, SameKinds-below p q rest h s.1)

  -- The hypothesis of the cascade: every level holds a specification of the top's kind.
  clamp_below-Descends :
      (field : Str) (top : PolicyLevel J) (rest : List (PolicyLevel J))
      → IsWellFormed top.spec
      → All (λ l. SameKind top.spec l.spec) rest
      → Descends (top ∷ (clamp_below field top.spec rest).0)
  unfolding clamp_below
  clamp_below-Descends field top [] w s = tt
  clamp_below-Descends field top (l ∷ rest) w s =
      let fits = clamp_level-allows top.spec l w s.0 in
      let kind = allows-SameKind top.spec (clamp_level top.spec l).spec fits in
      (
        fits,
        clamp_below-Descends field (clamp_level top.spec l) rest
            (allows-IsWellFormed top.spec (clamp_level top.spec l).spec fits)
            (SameKinds-below top.spec (clamp_level top.spec l).spec rest kind s.1),
      )

  levels-clamp_below :
      (field : Str) (p : PolicySpec J) (rest : List (PolicyLevel J))
      → map (λ (l : PolicyLevel J). l.level) (clamp_below field p rest).0
        ≡ map (λ (l : PolicyLevel J). l.level) rest
  unfolding clamp_below
  levels-clamp_below field p [] = refl
  levels-clamp_below field p (l ∷ rest) =
      ap₂ ◌∷◌ (level-clamp_level p l) (levels-clamp_below field (clamp_level p l).spec rest)

  -- No change is reported exactly when each level is allowed by the one above it, and then the
  -- levels are as they were.
  clamp_below-quiet :
      (field : Str) (top : PolicyLevel J) (rest : List (PolicyLevel J))
      → Descends (top ∷ rest)
      → clamp_below field top.spec rest ≡ (rest, [])
  unfolding clamp_below clamp_level level_change
  clamp_below-quiet field top [] d = refl
  clamp_below-quiet field top (l ∷ rest) d = rw d.0 (cc (clamp_below-quiet field l rest d.1))

  clamp_below-unchanged :
      (field : Str) (top : PolicyLevel J) (rest : List (PolicyLevel J))
      → (clamp_below field top.spec rest).1 ≡ []
      → Descends (top ∷ rest)
  unfolding clamp_below clamp_level level_change
  clamp_below-unchanged field top [] e = tt
  clamp_below-unchanged field top (l ∷ rest) e = elim (Bool-cases (allows top.spec l.spec)) [
    | inl h ↦ (h, clamp_below-unchanged field l rest (rw h at e))
    | inr h ↦ cc (rw h at e)
  ]

  -- Cascading a new top, well formed and of the kind of every level below, leaves a chain that
  -- validates and that has the levels it had, in their order.
  pub cascade_clamp-validates :
      (field : Str) (top : PolicyLevel J) (rest : List (PolicyLevel J))
      → IsWellFormed top.spec
      → All (λ l. SameKind top.spec l.spec) rest
      → (validate_chain field (cascade_clamp field (top ∷ rest)).0 ≡ valid)
        × (map (λ (l : PolicyLevel J). l.level) (cascade_clamp field (top ∷ rest)).0
            ≡ map (λ (l : PolicyLevel J). l.level) (top ∷ rest))
  unfolding cascade_clamp
  cascade_clamp-validates field top rest w s = (
    (validate_chain-valid_iff field _).1 (clamp_below-Descends field top rest w s),
    ap (◌∷◌ top.level) (levels-clamp_below field top.spec rest),
  )

  -- The cascade reports no change exactly on the chains that validate, and those it leaves alone.
  pub cascade_clamp-quiet_iff :
      (field : Str) (levels : List (PolicyLevel J))
      → ((cascade_clamp field levels).1 ≡ [])
        ↔ ((validate_chain field levels ≡ valid) × (cascade_clamp field levels ≡ (levels, [])))
  unfolding cascade_clamp
  cascade_clamp-quiet_iff field [] =
      (λ e. ((validate_chain-valid_iff field []).1 tt, refl), λ h. refl)
  cascade_clamp-quiet_iff field (top ∷ rest) = (
    λ e.
        let d = clamp_below-unchanged field top rest e in
        (
          (validate_chain-valid_iff field (top ∷ rest)).1 d,
          ap (λ (r : List (PolicyLevel J) × List (PolicyChange J)). (top ∷ r.0, r.1))
              (clamp_below-quiet field top rest d),
        ),
    λ h. cc,
  )
