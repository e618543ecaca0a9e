-- ===== src/PolicyEngine/Quiet.antt =====
-- The cascades of crates/rustbase-db/src/policy_engine.rs leave alone what fits, so that a second
-- run changes and logs nothing.
use rustbase.Base.{
  Str, codes, str_eq, ◌≡◌, refl, ap, ◌∙◌, true, not, Bool-cases, inl, inr, Option, none, some, List,
  [], ◌∷◌, All, subst,
}
use rustbase.Policy.{PolicySpec}
use rustbase.Policy.Refinement.{IsWellFormed}
use rustbase.Tenancy.{App, Workspace, master_workspace_id, get_policy}
use rustbase.PolicyEngine.{
  ClampOutcome, clamp_app, clamp_apps, clamp_workspace, sweep_apps, cascade_workspace,
  cascade_master_to_realms_and_apps,
}
use rustbase.PolicyEngine.Fits.{FitsOption, bound_below, AppsFit, Fits, Kind}
use rustbase.PolicyEngine.Master.{is_swept, cascade_master-Fits}

module _ {J : Type 0} (actor : Option Str) (trigger field : Str) where
  clamp_app-quiet :
      (ws : Str) (bound : PolicySpec J) (a : App J)
      → FitsOption bound (get_policy a.db field)
      → clamp_app actor trigger field ws bound a ≡ (a, [])
  unfolding clamp_app get_policy
  clamp_app-quiet ws bound a f = by_stored (get_policy a.db field) refl
    where
      by_stored :
          (o : Option (PolicySpec J))
          → get_policy a.db field ≡ o
          → clamp_app actor trigger field ws bound a ≡ (a, [])
      by_stored none e = rw (e, clamp_app)
      by_stored (some s) e = rw (e, clamp_app) (rw (subst (FitsOption bound) e f))

  clamp_apps-quiet :
      (ws : Str) (bound : PolicySpec J) (apps : List (App J))
      → AppsFit field bound apps
      → clamp_apps actor trigger field ws bound apps ≡ (apps, [])
  unfolding clamp_apps
  clamp_apps-quiet ws bound [] f = refl
  clamp_apps-quiet ws bound (a ∷ rest) f =
      rw (clamp_app-quiet ws bound a f.0, clamp_apps-quiet ws bound rest f.1)

module _ {J : Type 0} (actor : Option Str) (field : Str) where
  clamp_workspace-quiet :
      (bound : PolicySpec J) (w : Workspace J)
      → FitsOption bound (get_policy w.db field)
      → clamp_workspace actor field bound w ≡ (w.db, bound_below bound (get_policy w.db field), [])
  unfolding clamp_workspace get_policy
  clamp_workspace-quiet bound w f = by_stored (get_policy w.db field) refl
    where
      by_stored :
          (o : Option (PolicySpec J))
          → get_policy w.db field ≡ o
          → clamp_workspace actor field bound w
            ≡ (w.db, bound_below bound (get_policy w.db field), [])
      by_stored none e = rw (e, clamp_workspace)
      by_stored (some s) e = rw (e, clamp_workspace) (rw (subst (FitsOption bound) e f))

  cascade_workspace-quiet :
      (bound : PolicySpec J) (w : Workspace J)
      → (is_swept w ≡ true → Fits field bound w)
      → cascade_workspace actor field bound w ≡ (w, [])
  unfolding cascade_workspace
  cascade_workspace-quiet bound w f = elim (Bool-cases (str_eq w.id master_workspace_id)) [
    | inl m ↦ rw m
    | inr m ↦ rw m (
        ap (sweep_apps actor field w) (clamp_workspace-quiet bound w (f (ap not m)).own)
        ∙ ap (λ (r : List (App J) × List (ClampOutcome J)). (record w { apps = r.0 }, r.1))
            (clamp_apps-quiet actor (codes "master_tightened") field w.id
              (bound_below bound (get_policy w.db field)) w.apps (f (ap not m)).below))
  ]

  cascade_master-quiet :
      (bound : PolicySpec J) (ws : List (Workspace J))
      → All (λ w. is_swept w ≡ true → Fits field bound w) ws
      → cascade_master_to_realms_and_apps actor field bound ws ≡ (ws, [])
  unfolding cascade_master_to_realms_and_apps
  cascade_master-quiet bound [] f = refl
  cascade_master-quiet bound (w ∷ rest) f =
      rw (cascade_workspace-quiet bound w f.0, cascade_master-quiet bound rest f.1)

  -- Running the cascade of a well formed master specification once more changes no database and
  -- reports no outcome, if what the workspaces but the master one store for the field is of its
  -- kind.
  pub cascade_master_idem :
      (bound : PolicySpec J) (ws : List (Workspace J))
      → IsWellFormed bound
      → All (λ w. is_swept w ≡ true → Kind field bound w) ws
      → let (once, _) = cascade_master_to_realms_and_apps actor field bound ws in
        cascade_master_to_realms_and_apps actor field bound once ≡ (once, [])
  cascade_master_idem bound ws wf k =
      cascade_master-quiet bound _ (cascade_master-Fits actor field bound ws wf k)
