-- ===== src/PolicyEngine/Master.antt =====
-- After the cascade of a master specification, crates/rustbase-db/src/policy_engine.rs, every
-- workspace and every app fits.
use rustbase.Base.{
  Str, codes, str_eq, ◌≡◌, refl, ap, Bool, true, false, not, Bool-cases, inl, inr, Option, none,
  some, List, [], ◌∷◌, arith, All, subst,
}
use rustbase.Policy.{PolicySpec, allows}
use rustbase.Policy.Refinement.{
  IsWellFormed, allows-clamp, allows-SameKind, allows-IsWellFormed, SameKind-trans,
}
use rustbase.Tenancy.{ScopeDb, App, Workspace, master_workspace_id, get_policy}
use rustbase.PolicyEngine.{
  ClampOutcome, clamp_apps, clamp_workspace, cascade_workspace, cascade_master_to_realms_and_apps,
}
use rustbase.PolicyEngine.Fits.{
  FitsOption, KindOption, bound_below, AppsFit, AppsKind, Fits, Kind, clamp_apps-fit,
  get_policy-clamp_stored_self,
}

-- The master workspace is not swept.
abbrev pub is_swept : {J : Type 0} → Workspace J → Bool
is_swept w = not (str_eq w.id master_workspace_id)

module _ {J : Type 0} (actor : Option Str) (field : Str) where
  -- What the first half of a round establishes: the database it writes fits, and `current` is the
  -- bound that its stored specification sets for the apps.
  record Clamped (bound : PolicySpec J) (r : ScopeDb J × PolicySpec J × List (ClampOutcome J))
      : Type 0 where
    own : FitsOption bound (get_policy r.0 field)
    current : bound_below bound (get_policy r.0 field) ≡ r.1

  clamp_workspace-Clamped :
      (bound : PolicySpec J) (w : Workspace J)
      → IsWellFormed bound
      → KindOption bound (get_policy w.db field)
      → Clamped bound (clamp_workspace actor field bound w)
  unfolding clamp_workspace get_policy
  clamp_workspace-Clamped bound w wf k = by_stored (get_policy w.db field) refl
    where
      by_stored :
          (o : Option (PolicySpec J))
          → get_policy w.db field ≡ o
          → Clamped bound (clamp_workspace actor field bound w)
      by_stored none e = rw (e, clamp_workspace) (record { own = rw e tt; current = rw e })
      by_stored (some s) e = elim (Bool-cases (allows bound s)) [
        | inl h ↦ rw (e, clamp_workspace) (rw h (record { own = rw e h; current = rw e }))
        | inr h ↦
            let stored =
              get_policy-clamp_stored_self actor (codes "master_tightened") field bound s w.db in
            rw (e, clamp_workspace)
              (rw h (record {
                own = rw stored (allows-clamp bound s wf (subst (KindOption bound) e k));
                current = rw stored;
              }))
      ]

  bound_below-good :
      (bound : PolicySpec J) (o : Option (PolicySpec J))
      → IsWellFormed bound
      → FitsOption bound o
      → IsWellFormed (bound_below bound o)
  bound_below-good bound none wf f = wf
  bound_below-good bound (some s) wf f = allows-IsWellFormed bound s f

  AppsKind-below :
      (bound : PolicySpec J) (o : Option (PolicySpec J)) (apps : List (App J))
      → FitsOption bound o
      → AppsKind field bound apps
      → AppsKind field (bound_below bound o) apps
  AppsKind-below bound none apps f k = k
  AppsKind-below bound (some s) [] f k = tt
  AppsKind-below bound (some s) (a ∷ rest) f k =
      (kind (get_policy a.db field) k.0, AppsKind-below bound (some s) rest f k.1)
    where
      kind : (o : Option (PolicySpec J)) → KindOption bound o → KindOption s o
      kind none h = tt
      kind (some t) h = SameKind-trans bound s t (allows-SameKind bound s f) h

  cascade_workspace-Fits :
      (bound : PolicySpec J) (w : Workspace J)
      → IsWellFormed bound
      → Kind field bound w
      → str_eq w.id master_workspace_id ≡ false
      → Fits field bound (cascade_workspace actor field bound w).0
  unfolding cascade_workspace
  cascade_workspace-Fits bound w wf k m =
      let r = clamp_workspace actor field bound w in
      let c = clamp_workspace-Clamped bound w wf k.own in
      let o = get_policy r.0 field in
      let trigger = codes "master_tightened" in
      rw m (record {
        own = c.own;
        below =
            subst
              (λ b.
                AppsFit field (bound_below bound o)
                  (clamp_apps actor trigger field w.id b w.apps).0)
              c.current
              (clamp_apps-fit actor trigger field w.id (bound_below bound o) w.apps
                (bound_below-good bound o wf c.own) (AppsKind-below bound o w.apps c.own k.below));
      })

  -- After the master specification has become `bound`, well formed and of the kind of everything
  -- stored for the field in the workspaces but the master one, the cascade leaves every workspace
  -- but the master one fitting: what it stores for the field is allowed by `bound`, and what its
  -- apps store is allowed by the workspace's specification, or by `bound` where the workspace
  -- stores none.
  pub cascade_master-Fits :
      (bound : PolicySpec J) (ws : List (Workspace J))
      → IsWellFormed bound
      → All (λ w. is_swept w ≡ true → Kind field bound w) ws
      → All
          (λ w. is_swept w ≡ true → Fits field bound w)
          (cascade_master_to_realms_and_apps actor field bound ws).0
  unfolding cascade_master_to_realms_and_apps
  cascade_master-Fits bound [] wf k = tt
  cascade_master-Fits bound (w ∷ rest) wf k = (
    λ m. let n = swept w m in cascade_workspace-Fits bound w wf (k.0 (ap not n)) n,
    cascade_master-Fits bound rest wf k.1,
  )
    where
      swept :
          (w : Workspace J)
          → is_swept (cascade_workspace actor field bound w).0 ≡ true
          → str_eq w.id master_workspace_id ≡ false
      swept w m = unfold cascade_workspace in (ground arith)
