-- ===== src/Policy/Chain.antt =====
-- What `validate_chain` of crates/rustbase-core/src/config.rs accepts and what it reports.
use rustbase.Base.{
  Str, ◌≡◌, refl, ap, subst, ◌↔◌, inl, inr, Bool, true, false, Bool-cases, List, [], ◌∷◌, ◌++◌,
  arith, All,
}
use rustbase.Policy.{
  TogglePolicy, toggle, locked, open_default, allows, toggle_allows, PolicyLevel, Validated, valid,
  violation, validate_chain, chain_violation,
}
use rustbase.Policy.Refinement.{is_toggle, allows_trans}

module _ {J : Type 0} where
  -- Each level is allowed by the level above it.
  abbrev pub Descends : List (PolicyLevel J) → Type 0
  Descends [] = Unit
  Descends (parent ∷ []) = Unit
  Descends (parent ∷ child ∷ rest) =
      (allows parent.spec child.spec ≡ true) × Descends (child ∷ rest)

  -- The first pair of neighbours that is refused, with what stands before it and after it.
  pub record FirstRefused (levels : List (PolicyLevel J)) : Type 0 where
    pub before : List (PolicyLevel J)
    pub parent : PolicyLevel J
    pub child : PolicyLevel J
    pub rest : List (PolicyLevel J)
    pub split : levels ≡ before ++ parent ∷ child ∷ rest
    pub descends : Descends (before ++ parent ∷ [])
    pub refused : allows parent.spec child.spec ≡ false

  abbrev pub Verdict : Str → List (PolicyLevel J) → Validated J → Type 0
  Verdict field levels valid = Descends levels
  Verdict field levels (violation v) =
      (r : FirstRefused levels) × (v ≡ chain_violation field r.parent r.child)

  Descends-cons :
      (p : PolicyLevel J) (before : List (PolicyLevel J)) (q : PolicyLevel J) (c : PolicyLevel J)
      (rest tail : List (PolicyLevel J))
      → allows p.spec q.spec ≡ true
      → q ∷ tail ≡ before ++ c ∷ rest
      → Descends (before ++ c ∷ [])
      → Descends (p ∷ before ++ c ∷ [])
  Descends-cons p [] q c rest tail h e d = ground arith
  Descends-cons p (b ∷ before) q c rest tail h e d = ground arith

  Verdict-cons :
      (field : Str) (p q : PolicyLevel J) (tail : List (PolicyLevel J)) (v : Validated J)
      → allows p.spec q.spec ≡ true
      → Verdict field (q ∷ tail) v
      → Verdict field (p ∷ q ∷ tail) v
  Verdict-cons field p q tail valid h d = (h, d)
  Verdict-cons field p q tail (violation v) h (r, e) = (
    record {
      before = p ∷ r.before;
      parent = r.parent;
      child = r.child;
      rest = r.rest;
      split = ap (◌∷◌ p) r.split;
      descends = Descends-cons p r.before q r.parent (r.child ∷ r.rest) tail h r.split r.descends;
      refused = r.refused;
    },
    e,
  )

  -- The result of `validate_chain` on every chain: it accepts one in which each level is allowed by
  -- the level above it, and otherwise reports the first pair that is refused.
  pub validate_chain-Verdict :
      (field : Str) (levels : List (PolicyLevel J))
      → Verdict field levels (validate_chain field levels)
  unfolding validate_chain
  validate_chain-Verdict field [] = tt
  validate_chain-Verdict field (p ∷ []) = tt
  validate_chain-Verdict field (p ∷ q ∷ tail) = elim (Bool-cases (allows p.spec q.spec)) [
    | inl h ↦ rw h (Verdict-cons field p q tail _ h (validate_chain-Verdict field (q ∷ tail)))
    | inr h ↦ rw h (
      record {
        before = [];
        parent = p;
        child = q;
        rest = tail;
        split = refl;
        descends = tt;
        refused = h;
      },
      refl,
    )
  ]

  validate_chain-of-Descends :
      (field : Str) (levels : List (PolicyLevel J))
      → Descends levels
      → validate_chain field levels ≡ valid
  unfolding validate_chain
  validate_chain-of-Descends field [] d = refl
  validate_chain-of-Descends field (p ∷ []) d = refl
  validate_chain-of-Descends field (p ∷ q ∷ tail) d =
      rw d.0 (validate_chain-of-Descends field (q ∷ tail) d.1)

  -- `validate_chain` accepts a chain exactly when each level is allowed by the one above it.
  pub validate_chain-valid_iff :
      (field : Str) (levels : List (PolicyLevel J))
      → (validate_chain field levels ≡ valid) ↔ Descends levels
  validate_chain-valid_iff field levels = (
    λ e. subst (Verdict field levels) e (validate_chain-Verdict field levels),
    validate_chain-of-Descends field levels,
  )

  Descends-allows :
      (top c : PolicyLevel J) (rest : List (PolicyLevel J))
      → is_toggle top.spec ≡ false
      → allows top.spec c.spec ≡ true
      → Descends (c ∷ rest)
      → All (λ l. allows top.spec l.spec ≡ true) rest
  Descends-allows top c [] t h d = tt
  Descends-allows top c (b ∷ rest) t h d =
      let onward = allows_trans top.spec c.spec b.spec t h d.0 in
      (onward, Descends-allows top b rest t onward d.1)

  Descends-top :
      (top : PolicyLevel J) (rest : List (PolicyLevel J))
      → is_toggle top.spec ≡ false
      → Descends (top ∷ rest)
      → All (λ l. allows top.spec l.spec ≡ true) rest
  Descends-top top [] t d = tt
  Descends-top top (c ∷ rest) t d = (d.0, Descends-allows top c rest t d.0 d.1)

  -- Below a top level that is no toggle, an accepted chain holds only specifications that the top
  -- level allows.
  pub validate_chain-top :
      (field : Str) (top : PolicyLevel J) (rest : List (PolicyLevel J))
      → is_toggle top.spec ≡ false
      → validate_chain field (top ∷ rest) ≡ valid
      → All (λ l. allows top.spec l.spec ≡ true) rest
  validate_chain-top field top rest t e =
      Descends-top top rest t ((validate_chain-valid_iff field (top ∷ rest)).0 e)

-- A toggle that is locked at the top is not binding two levels below: a level in between that is
-- open with the locked value for its default passes, and lets every toggle below it pass.
pub lock_escape :
    {J : Type 0} (field top middle bottom : Str) (v : Bool) (t : TogglePolicy)
    → validate_chain {J = J} field (
        record { level = top; spec = toggle (locked v) }
        ∷ record { level = middle; spec = toggle (open_default v) }
        ∷ record { level = bottom; spec = toggle t }
        ∷ [])
      ≡ valid
unfolding validate_chain allows toggle_allows
lock_escape field top middle bottom v t = ground arith
