-- ===== src/PolicyApi/Isolation.antt =====
-- The writing endpoints of crates/rustbase-api/src/policies.rs keep the tenants apart: what an
-- administrator below the master tier does stays in the workspace of the token.
use rustbase.Base.{Str, codes, ◌≡◌, ◌≢◌, refl, sym, ◌∙◌, some, arith}
use rustbase.Error.{ok, err, OnOk, OnOk-bind, OnOk-ok, ok_or, ok_or-ok, app_not_found, internal}
use rustbase.Policy.{PolicySpec, validate_chain}
use rustbase.Auth.{
  Claims, master_admin, require_master, require_workspace_access, require_app_access,
}
use rustbase.Auth.Scope.{claim_is_iff}
use rustbase.Tenancy.{Workspace, System, find_workspace, find_app, put_workspace}
use rustbase.Tenancy.Rows.{id-find_workspace, find_workspace-put_workspace_ne}
use rustbase.PolicyEngine.{cascade_realm_to_apps}
use rustbase.PolicyApi.{
  PutPolicyResponse, Put, system_put, system_delete, workspace_put, workspace_delete, app_put,
  app_delete, delete_and_log, checked, require_realm_exists, open_app_pool,
}
use rustbase.PolicyApi.KeepsBelow.{open_app_pool-ok}
use rustbase.PolicyApi.Requests.{
  Request, puts_system, deletes_system, puts_workspace, deletes_workspace, puts_app, deletes_app,
  new_state, perform,
}

not_master : (c : Claims) (u : Unit {0}) → c.role ≢ master_admin → require_master c ≢ ok u
unfolding require_master
not_master c u n e = ground arith

own_workspace :
    (c : Claims) (w v : Str) (u : Unit {0})
    → c.role ≢ master_admin
    → c.workspace ≢ some v
    → require_workspace_access c w ≡ ok u
    → w ≢ v
unfolding require_workspace_access
own_workspace c w v u n m e p = ground (arith, claim_is_iff c.workspace w)

own_app :
    (c : Claims) (w a v : Str) (u : Unit {0})
    → c.role ≢ master_admin
    → c.workspace ≢ some v
    → require_app_access c w a ≡ ok u
    → w ≢ v
unfolding require_app_access
own_app c w a v u n m e p = ground (arith, claim_is_iff c.workspace w)

module _ {J : Type 0} (debug : PolicySpec J → Str) (no_tables field v : Str) (sys : System J) where
  -- The workspace `v`, its apps and the system database are as they were.
  abbrev pub Untouched : System J → Type 0
  Untouched sys' =
      (find_workspace v sys'.workspaces ≡ find_workspace v sys.workspaces) × (sys'.db ≡ sys.db)

  abbrev PutUntouched : System J × PutPolicyResponse J → Type 0
  PutUntouched r = Untouched r.0

  written_elsewhere :
      (id : Str) (w w' : Workspace J)
      → find_workspace id sys.workspaces ≡ some w
      → w'.id ≡ w.id
      → id ≢ v
      → Untouched (record sys { workspaces = put_workspace w' sys.workspaces })
  written_elsewhere id w w' found same n = (
    find_workspace-put_workspace_ne w' v sys.workspaces
        (λ p. n (sym (id-find_workspace id sys.workspaces w found) ∙ sym same ∙ p)),
    refl,
  )

  new_state-Untouched :
      (m : Put J) → OnOk PutUntouched m → OnOk Untouched (new_state debug no_tables field m)
  new_state-Untouched (ok r) h = h
  new_state-Untouched (err e) h = tt

module _ {J : Type 0} (debug : PolicySpec J → Str) (no_tables field v : Str) (sys : System J)
    (c : Claims) (n : c.role ≢ master_admin) (m : c.workspace ≢ some v) where
  system_put-Untouched :
      (spec : PolicySpec J)
      → OnOk
          (PutUntouched debug no_tables field v sys)
          (system_put debug no_tables c sys field spec)
  unfolding system_put
  system_put-Untouched spec =
      OnOk-bind (PutUntouched debug no_tables field v sys) (require_master c) _
        λ u e. absurd (not_master c u n e)

  workspace_put-Untouched :
      (w : Str) (spec : PolicySpec J)
      → OnOk
          (PutUntouched debug no_tables field v sys)
          (workspace_put debug no_tables c sys w field spec)
  unfolding workspace_put cascade_realm_to_apps
  workspace_put-Untouched id spec =
      let P = PutUntouched debug no_tables field v sys in
      OnOk-bind P (require_workspace_access c id) _ λ u allowed.
        OnOk-bind P (require_realm_exists debug no_tables sys id) _ λ w found.
          OnOk-bind P (checked debug no_tables (validate_chain field _)) _ λ _ _.
            written_elsewhere debug no_tables field v sys id w _ (ok_or-ok _ _ w found) refl
              (own_workspace c id v u n m allowed)

  workspace_delete-Untouched :
      (w : Str)
      → OnOk
          (Untouched debug no_tables field v sys)
          (workspace_delete debug no_tables c sys w field)
  unfolding workspace_delete
  workspace_delete-Untouched id =
      let P = Untouched debug no_tables field v sys in
      OnOk-bind P (require_workspace_access c id) _ λ u allowed.
        OnOk-bind P (require_realm_exists debug no_tables sys id) _ λ w found.
          OnOk-bind P (delete_and_log debug no_tables c (codes "workspace") field w.db) _ λ _ _.
            written_elsewhere debug no_tables field v sys id w _ (ok_or-ok _ _ w found) refl
              (own_workspace c id v u n m allowed)

  app_put-Untouched :
      (w a : Str) (spec : PolicySpec J)
      → OnOk
          (PutUntouched debug no_tables field v sys)
          (app_put debug no_tables c sys w a field spec)
  unfolding app_put
  app_put-Untouched id app spec =
      let P = PutUntouched debug no_tables field v sys in
      OnOk-bind P (require_app_access c id app) _ λ u allowed.
        OnOk-bind P (ok_or (find_workspace id sys.workspaces) (internal no_tables)) _ λ w found.
          OnOk-bind P (ok_or (find_app app w.apps) (app_not_found id app)) _ λ a _.
            OnOk-bind P (checked debug no_tables (validate_chain field _)) _ λ _ _.
              written_elsewhere debug no_tables field v sys id w _ (ok_or-ok _ _ w found) refl
                (own_app c id app v u n m allowed)

  app_delete-Untouched :
      (w a : Str)
      → OnOk (Untouched debug no_tables field v sys) (app_delete debug no_tables c sys w a field)
  unfolding app_delete
  app_delete-Untouched id app =
      let P = Untouched debug no_tables field v sys in
      OnOk-bind P (require_app_access c id app) _ λ u allowed.
        OnOk-bind P (open_app_pool debug no_tables sys id app) _ λ (w, a) opened.
          OnOk-bind P (delete_and_log debug no_tables c (codes "app") field a.db) _ λ _ _.
            written_elsewhere debug no_tables field v sys id w _
              (open_app_pool-ok debug no_tables sys id app w a opened) refl
              (own_app c id app v u n m allowed)

  -- A request about the policies that succeeds for a principal below the master tier leaves the
  -- system database as it was, and every workspace other than the one in the principal's token,
  -- with its apps.
  pub perform-Untouched :
      (r : Request J) (sys' : System J)
      → perform debug no_tables field c r sys ≡ ok sys'
      → Untouched debug no_tables field v sys sys'
  perform-Untouched r sys' e = OnOk-ok (Untouched debug no_tables field v sys) _ sys' (each r) e
    where
      each :
          (r : Request J)
          → OnOk (Untouched debug no_tables field v sys) (perform debug no_tables field c r sys)
      each (puts_system spec) =
          unfold perform in
          (new_state-Untouched debug no_tables field v sys _ (system_put-Untouched spec))
      each deletes_system =
          unfold perform system_delete in
          (OnOk-bind (Untouched debug no_tables field v sys) (require_master c) _
            λ u e. absurd (not_master c u n e))
      each (puts_workspace w spec) =
          unfold perform in
          (new_state-Untouched debug no_tables field v sys _ (workspace_put-Untouched w spec))
      each (deletes_workspace w) = unfold perform in (workspace_delete-Untouched w)
      each (puts_app w a spec) =
          unfold perform in
          (new_state-Untouched debug no_tables field v sys _ (app_put-Untouched w a spec))
      each (deletes_app w a) = unfold perform in (app_delete-Untouched w a)
