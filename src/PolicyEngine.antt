-- ===== src/PolicyEngine.antt =====
-- crates/rustbase-db/src/policy_engine.rs: when a scope's specification of a field changes, every
-- stored specification below that no longer fits is clamped, with an entry in the audit log of its
-- own database and an outcome in the answer.
pub mod Fits
pub mod Master
pub mod Quiet
use rustbase.Base.{
  Str, codes, str_eq, Bool, true, false, Option, none, some, List, [], ◌∷◌, ◌++◌, if◌then◌else◌,
}
use rustbase.Policy.{PolicySpec, allows, clamp}
use rustbase.Tenancy.{
  clamp_details, ScopeDb, App, Workspace, System, master_workspace_id, get_policy, upsert_policy,
  append,
}

pub record ClampOutcome (J : Type 0) : Type 0 where
  pub workspace : Str
  pub app : Option Str
  pub field : Str
  pub before : PolicySpec J
  pub after : PolicySpec J

-- What the code says again at each of the three places: the stored specification is `stored`, the
-- bound does not allow it, and `trigger` is the word of the audit entry.
module _ {J : Type 0} (actor : Option Str) (trigger field : Str) where
  unfoldable pub clamp_stored : PolicySpec J → PolicySpec J → ScopeDb J → ScopeDb J
  unfolding upsert_policy append
  clamp_stored bound stored db =
      append (upsert_policy db field (clamp bound stored)) actor (codes "policy_clamped")
        (some field) (clamp_details trigger stored (clamp bound stored))

  -- One round of the loop over the apps of a workspace.
  unfoldable pub clamp_app : Str → PolicySpec J → App J → App J × List (ClampOutcome J)
  unfolding get_policy clamp_stored
  clamp_app workspace bound a = elim (get_policy a.db field) [
    | none ↦ (a, [])
    | some stored ↦ if allows bound stored then (a, []) else (
      record a { db = clamp_stored bound stored a.db },
      record {
        workspace = workspace;
        app = some a.id;
        field = field;
        before = stored;
        after = clamp bound stored;
      }
          ∷ [],
    )
  ]

  unfoldable pub clamp_apps :
      Str → PolicySpec J → List (App J) → List (App J) × List (ClampOutcome J)
  unfolding clamp_app
  clamp_apps workspace bound [] = ([], [])
  clamp_apps workspace bound (a ∷ rest) =
      let (a', outcome) = clamp_app workspace bound a in
      let (rest', outcomes) = clamp_apps workspace bound rest in (a' ∷ rest', outcome ++ outcomes)

module _ {J : Type 0} (actor : Option Str) (field : Str) where
  unfoldable pub cascade_realm_to_apps :
      PolicySpec J → Workspace J → Workspace J × List (ClampOutcome J)
  unfolding clamp_apps
  cascade_realm_to_apps bound w =
      let (apps, outcomes) =
        clamp_apps actor (codes "workspace_tightened") field w.id bound w.apps in
      (record w { apps = apps }, outcomes)

  -- The first half of a round of the loop over the workspaces: the workspace's database, the bound
  -- `workspace_current` of its apps, and the outcome.
  unfoldable pub clamp_workspace :
      PolicySpec J → Workspace J → ScopeDb J × PolicySpec J × List (ClampOutcome J)
  unfolding get_policy clamp_stored
  clamp_workspace bound w = elim (get_policy w.db field) [
    | none ↦ (w.db, bound, [])
    | some stored ↦ if allows bound stored then (w.db, stored, []) else (
      clamp_stored actor (codes "master_tightened") field bound stored w.db,
      clamp bound stored,
      record {
        workspace = w.id;
        app = none;
        field = field;
        before = stored;
        after = clamp bound stored;
      }
          ∷ [],
    )
  ]

  -- The second half: the sweep of the workspace's apps.
  unfoldable pub sweep_apps :
      Workspace J
      → ScopeDb J × PolicySpec J × List (ClampOutcome J)
      → Workspace J × List (ClampOutcome J)
  unfolding clamp_apps
  sweep_apps w (db, current, outcome) =
      let (apps, outcomes) =
        clamp_apps actor (codes "master_tightened") field w.id current w.apps in
      (record w { db = db; apps = apps }, outcome ++ outcomes)

  -- A round: the master workspace is skipped.
  unfoldable pub cascade_workspace :
      PolicySpec J → Workspace J → Workspace J × List (ClampOutcome J)
  unfolding clamp_workspace sweep_apps
  cascade_workspace bound w =
      if str_eq w.id master_workspace_id then (w, []) else sweep_apps w (clamp_workspace bound w)

  unfoldable pub cascade_master_to_realms_and_apps :
      PolicySpec J → List (Workspace J) → List (Workspace J) × List (ClampOutcome J)
  unfolding cascade_workspace
  cascade_master_to_realms_and_apps bound [] = ([], [])
  cascade_master_to_realms_and_apps bound (w ∷ rest) =
      let (w', outcome) = cascade_workspace bound w in
      let (rest', outcomes) = cascade_master_to_realms_and_apps bound rest in
      (w' ∷ rest', outcome ++ outcomes)
