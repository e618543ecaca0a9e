-- ===== src/PolicyApi.antt =====
-- crates/rustbase-api/src/policies.rs: the endpoints that read, write and delete the policies of the
-- three scopes. A handler takes the claims that the extractor accepted and the state of all
-- databases; it returns the new state, or an error, before which no handler here writes.
pub mod Isolation
pub mod Hierarchy
pub mod Keeps
pub mod KeepsBelow
pub mod Requests
use rustbase.Base.{Str, codes, Bool, Option, none, some, List, [], ◌∷◌, ◌++◌, if◌then◌else◌}
use rustbase.Error.{
  CoreError, Result, ok, err, ◌>>=◌, ◌>>◌, ok_or, not_found, workspace_not_found, app_not_found,
  policy_violation, internal,
}
use rustbase.Policy.{
  PolicySpec, PolicyLevel, PolicyViolation, Validated, valid, violation, validate_chain,
}
use rustbase.Auth.{Claims, require_master, require_workspace_access, require_app_access}
use rustbase.Tenancy.{
  set_details, scope_details, ScopeDb, App, Workspace, System, get_policy, upsert_policy,
  delete_policy, append, find_workspace, find_app, put_workspace, put_app,
}
use rustbase.PolicyEngine.{ClampOutcome, cascade_realm_to_apps, cascade_master_to_realms_and_apps}

pub record PutPolicyResponse (J : Type 0) : Type 0 where
  pub field : Str
  pub spec : PolicySpec J
  pub cascaded : List (ClampOutcome J)

abbrev pub Put : Type 0 → Type 0
Put J = Result (System J × PutPolicyResponse J)

-- `debug` is the derived `Debug` of a specification, which an error prints. `no_tables` is the
-- message of SQLite for a query of a database that was created empty.
module _ {J : Type 0} (debug : PolicySpec J → Str) (no_tables : Str) where
  -- `map_err(ApiError::Core)` with the texts of `PolicyViolation`.
  unfoldable pub checked : Validated J → Result (Unit {0})
  checked valid = ok tt
  checked (violation v) = err (
      policy_violation v.field (debug v.value)
        (debug v.bound ++ (codes " (from " ++ (v.bound_level ++ codes ")"))))

  -- `chain.push(PolicyLevel::new(level, s))` where the scope stores a specification.
  unfoldable pub push_level :
      Str → Option (PolicySpec J) → List (PolicyLevel J) → List (PolicyLevel J)
  push_level level none chain = chain
  push_level level (some s) chain = record { level = level; spec = s } ∷ chain

  unfoldable pub set_and_log : Claims → Str → Str → PolicySpec J → ScopeDb J → ScopeDb J
  unfolding upsert_policy append
  set_and_log claims scope field spec db =
      append (upsert_policy db field spec) (some claims.sub) (codes "policy_set") (some field)
        (set_details scope spec)

  unfoldable pub delete_and_log : Claims → Str → Str → ScopeDb J → Result (ScopeDb J)
  unfolding delete_policy append
  delete_and_log claims scope field db = do
    db' ← ok_or (delete_policy db field) (not_found (codes "policy") field)
    ok (append db' (some claims.sub) (codes "policy_deleted") (some field) (scope_details scope))

  unfoldable pub system_get : Claims → System J → Str → Result (PolicySpec J)
  system_get claims sys field = do
    require_master claims
    ok_or (get_policy sys.db field) (not_found (codes "policy") field)

  unfoldable pub system_put : Claims → System J → Str → PolicySpec J → Put J
  unfolding set_and_log
  system_put claims sys field spec = do
    require_master claims
    let db = set_and_log claims (codes "system") field spec sys.db
    let (workspaces, cascaded) =
        cascade_master_to_realms_and_apps (some claims.sub) field spec sys.workspaces
    ok (
      record { workspaces = workspaces; db = db },
      record { field = field; spec = spec; cascaded = cascaded },
    )

  unfoldable pub system_delete : Claims → System J → Str → Result (System J)
  unfolding delete_and_log
  system_delete claims sys field = do
    require_master claims
    db ← delete_and_log claims (codes "system") field sys.db
    ok (record sys { db = db })

  unfoldable pub require_realm_exists : System J → Str → Result (Workspace J)
  require_realm_exists sys workspace =
      ok_or (find_workspace workspace sys.workspaces) (workspace_not_found workspace)

  unfoldable pub workspace_get : Claims → System J → Str → Str → Result (PolicySpec J)
  unfolding require_realm_exists
  workspace_get claims sys workspace field = do
    require_workspace_access claims workspace
    w ← require_realm_exists sys workspace
    ok_or (get_policy w.db field) (not_found (codes "policy") field)

  unfoldable pub workspace_put : Claims → System J → Str → Str → PolicySpec J → Put J
  unfolding require_realm_exists checked push_level set_and_log
  workspace_put claims sys workspace field spec = do
    require_workspace_access claims workspace
    w ← require_realm_exists sys workspace
    let chain =
        push_level (codes "master") (get_policy sys.db field)
          (record { level = codes "workspace"; spec = spec } ∷ [])
    checked (validate_chain field chain)
    let w₁ = record w { db = set_and_log claims (codes "workspace") field spec w.db }
    let (w₂, cascaded) = cascade_realm_to_apps (some claims.sub) field spec w₁
    ok (
      record sys { workspaces = put_workspace w₂ sys.workspaces },
      record { field = field; spec = spec; cascaded = cascaded },
    )

  unfoldable pub workspace_delete : Claims → System J → Str → Str → Result (System J)
  unfolding require_realm_exists delete_and_log
  workspace_delete claims sys workspace field = do
    require_workspace_access claims workspace
    w ← require_realm_exists sys workspace
    db ← delete_and_log claims (codes "workspace") field w.db
    ok (record sys { workspaces = put_workspace (record w { db = db }) sys.workspaces })

  unfoldable pub open_app_pool : System J → Str → Str → Result (Workspace J × App J)
  unfolding require_realm_exists
  open_app_pool sys workspace app = do
    w ← require_realm_exists sys workspace
    a ← ok_or (find_app app w.apps) (app_not_found workspace app)
    ok (w, a)

  unfoldable pub app_get : Claims → System J → Str → Str → Str → Result (PolicySpec J)
  unfolding open_app_pool
  app_get claims sys workspace app field = do
    require_app_access claims workspace app
    (w, a) ← open_app_pool sys workspace app
    ok_or (get_policy a.db field) (not_found (codes "policy") field)

  -- This handler does not ask whether the workspace exists: the database that it then opens for it
  -- is new and has no tables.
  unfoldable pub app_put : Claims → System J → Str → Str → Str → PolicySpec J → Put J
  unfolding checked push_level set_and_log
  app_put claims sys workspace app field spec = do
    require_app_access claims workspace app
    w ← ok_or (find_workspace workspace sys.workspaces) (internal no_tables)
    a ← ok_or (find_app app w.apps) (app_not_found workspace app)
    let chain = push_level (codes "master") (get_policy sys.db field) (
        push_level (codes "workspace") (get_policy w.db field)
          (record { level = codes "app"; spec = spec } ∷ []))
    checked (validate_chain field chain)
    let a' = record a { db = set_and_log claims (codes "app") field spec a.db }
    let w' = record w { apps = put_app a' w.apps }
    ok (
      record sys { workspaces = put_workspace w' sys.workspaces },
      record { field = field; spec = spec; cascaded = [] },
    )

  unfoldable pub app_delete : Claims → System J → Str → Str → Str → Result (System J)
  unfolding open_app_pool delete_and_log
  app_delete claims sys workspace app field = do
    require_app_access claims workspace app
    (w, a) ← open_app_pool sys workspace app
    db ← delete_and_log claims (codes "app") field a.db
    let w' = record w { apps = put_app (record a { db = db }) w.apps }
    ok (record sys { workspaces = put_workspace w' sys.workspaces })
