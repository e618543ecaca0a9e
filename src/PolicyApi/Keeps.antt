-- ===== src/PolicyApi/Keeps.antt =====
-- Each writing endpoint of crates/rustbase-api/src/policies.rs keeps the hierarchy of its field.
use rustbase.Base.{
  Str, codes, str_eq_refl, lookup-upsert, lookup-remove, ◌≡◌, refl, true, Option, none, some, List,
  [], ◌∷◌, arith, All,
}
use rustbase.Error.{ok, OnOk, OnOk-bind, ok_or-ok}
use rustbase.Policy.{PolicySpec, Validated, valid, violation, validate_chain}
use rustbase.Policy.Chain.{validate_chain-valid_iff}
use rustbase.Auth.{Claims, require_master, require_workspace_access}
use rustbase.Tenancy.{ScopeDb, App, Workspace, System, get_policy}
use rustbase.Tenancy.Rows.{All-find_workspace, All-put_workspace}
use rustbase.PolicyEngine.{cascade_realm_to_apps}
use rustbase.PolicyEngine.Fits.{Fits, Kind, clamp_apps-fit}
use rustbase.PolicyEngine.Master.{is_swept, cascade_master-Fits}
use rustbase.PolicyApi.{
  PutPolicyResponse, system_put, system_delete, workspace_put, set_and_log, delete_and_log,
  push_level, checked, require_realm_exists,
}
use rustbase.PolicyApi.Hierarchy.{
  IsGood, Within, bound_of_apps, AppGoverned, Governed, Hierarchy, Kind-of-Good,
  AppsKind-of-governed, governed-of-AppsFit, Governed-of-Fits,
}

module _ {J : Type 0} (debug : PolicySpec J → Str) (no_tables : Str) where
  pub get_policy-set_and_log :
      (claims : Claims) (scope field : Str) (spec : PolicySpec J) (db : ScopeDb J)
      → get_policy (set_and_log debug no_tables claims scope field spec db) field ≡ some spec
  unfolding set_and_log get_policy
  get_policy-set_and_log claims scope field spec db =
      ground (arith, lookup-upsert field field spec db.policies, str_eq_refl field)

  pub get_policy-delete_and_log :
      (claims : Claims) (scope field : Str) (db db' : ScopeDb J)
      → delete_and_log debug no_tables claims scope field db ≡ ok db'
      → get_policy db' field ≡ none
  unfolding delete_and_log get_policy
  get_policy-delete_and_log claims scope field db db' e =
      ground (arith, lookup-remove field field db.policies, str_eq_refl field)

module _ {J : Type 0} (debug : PolicySpec J → Str) (no_tables : Str) (kind : PolicySpec J)
    (field : Str) where
  Kinds-of-Governed :
      (master : Option (PolicySpec J)) (b : PolicySpec J) (ws : List (Workspace J))
      → IsGood kind b
      → All (λ w. is_swept w ≡ true → Governed kind field master w) ws
      → All (λ w. is_swept w ≡ true → Kind field b w) ws
  Kinds-of-Governed master b [] g h = tt
  Kinds-of-Governed master b (w ∷ rest) g h = (
    λ m. record {
      own = Kind-of-Good kind b (get_policy w.db field) g (h.0 m).good;
      below =
          AppsKind-of-governed kind field (bound_of_apps master (get_policy w.db field)) b w.apps g
            (h.0 m).apps;
    },
    Kinds-of-Governed master b rest g h.1,
  )

  Governeds-of-Fits :
      (b : PolicySpec J) (ws : List (Workspace J))
      → IsGood kind b
      → All (λ w. is_swept w ≡ true → Fits field b w) ws
      → All (λ w. is_swept w ≡ true → Governed kind field (some b) w) ws
  Governeds-of-Fits b [] g h = tt
  Governeds-of-Fits b (w ∷ rest) g h =
      (λ m. Governed-of-Fits kind field b w g (h.0 m), Governeds-of-Fits b rest g h.1)

  -- The state that a successful request leaves is in the hierarchy.
  abbrev pub PutKeeps : System J × PutPolicyResponse J → Type 0
  PutKeeps r = Hierarchy kind field r.0

  pub system_put-keeps :
      (claims : Claims) (sys : System J) (spec : PolicySpec J)
      → IsGood kind spec
      → Hierarchy kind field sys
      → OnOk PutKeeps (system_put debug no_tables claims sys field spec)
  unfolding system_put
  system_put-keeps claims sys spec g h = OnOk-bind PutKeeps (require_master claims) _ λ _ _.
      let e = get_policy-set_and_log debug no_tables claims (codes "system") field spec sys.db in
      record {
        top = rw e g;
        below = rw e (
            Governeds-of-Fits spec _ g (
              cascade_master-Fits (some claims.sub) field spec sys.workspaces g.1
                (Kinds-of-Governed (get_policy sys.db field) spec sys.workspaces g h.below)));
      }

  -- Without a master specification less is asked.
  Governed-none :
      (master : Option (PolicySpec J)) (w : Workspace J)
      → Governed kind field master w
      → Governed kind field none w
  Governed-none master w g = record {
    good = g.good;
    within = tt;
    apps = below (get_policy w.db field) w.apps g.apps;
  }
    where
      below :
          (o : Option (PolicySpec J)) (apps : List (App J))
          → All (AppGoverned kind field (bound_of_apps master o)) apps
          → All (AppGoverned kind field (bound_of_apps none o)) apps
      below (some s) apps h = h
      below none [] h = tt
      below none (a ∷ rest) h = (record { good = h.0.good; within = tt }, below none rest h.1)

  Governeds-none :
      (master : Option (PolicySpec J)) (ws : List (Workspace J))
      → All (λ w. is_swept w ≡ true → Governed kind field master w) ws
      → All (λ w. is_swept w ≡ true → Governed kind field none w) ws
  Governeds-none master [] h = tt
  Governeds-none master (w ∷ rest) h =
      (λ m. Governed-none master w (h.0 m), Governeds-none master rest h.1)

  pub system_delete-keeps :
      (claims : Claims) (sys : System J)
      → Hierarchy kind field sys
      → OnOk (Hierarchy kind field) (system_delete debug no_tables claims sys field)
  unfolding system_delete
  system_delete-keeps claims sys h =
      OnOk-bind (Hierarchy kind field) (require_master claims) _ λ _ _.
        OnOk-bind (Hierarchy kind field)
          (delete_and_log debug no_tables claims (codes "system") field sys.db) _
          λ db e.
            let gone =
              get_policy-delete_and_log debug no_tables claims (codes "system") field sys.db db e in
            record {
              top = rw gone tt;
              below = rw gone (Governeds-none (get_policy sys.db field) sys.workspaces h.below);
            }

  -- What an accepted chain says of the specification at its end.
  Within-of-valid :
      (master : Option (PolicySpec J)) (spec : PolicySpec J) (level : Str)
      → validate_chain field (
          push_level debug no_tables
            (codes "master")
            master
            (record { level = level; spec = spec } ∷ []))
        ≡ valid
      → Within master (some spec)
  unfolding push_level
  Within-of-valid none spec level e = tt
  Within-of-valid (some b) spec level e = ((validate_chain-valid_iff field _).0 e).0

  pub Within-of-valid_app :
      (master own : Option (PolicySpec J)) (spec : PolicySpec J)
      → validate_chain field (
          push_level debug no_tables (codes "master") master (
            push_level debug no_tables
              (codes "workspace")
              own
              (record { level = codes "app"; spec = spec } ∷ [])))
        ≡ valid
      → Within (bound_of_apps master own) (some spec)
  unfolding push_level
  Within-of-valid_app none none spec e = tt
  Within-of-valid_app (some b) none spec e = ((validate_chain-valid_iff field _).0 e).0
  Within-of-valid_app none (some s) spec e = ((validate_chain-valid_iff field _).0 e).0
  Within-of-valid_app (some b) (some s) spec e = ((validate_chain-valid_iff field _).0 e).1.0

  pub checked-ok : (v : Validated J) (u : Unit {0}) → checked debug no_tables v ≡ ok u → v ≡ valid
  unfolding checked
  checked-ok valid u e = refl
  checked-ok (violation v) u e = cc

  workspace_written :
      (claims : Claims) (w : Workspace J) (master : Option (PolicySpec J)) (spec : PolicySpec J)
      → IsGood kind spec
      → Within master (some spec)
      → (is_swept w ≡ true → Governed kind field master w)
      → let w₁ = record w {
        db = set_and_log debug no_tables claims (codes "workspace") field spec w.db;
      } in
        let (w₂, _) = cascade_realm_to_apps (some claims.sub) field spec w₁ in
        is_swept w₂ ≡ true → Governed kind field master w₂
  unfolding cascade_realm_to_apps
  workspace_written claims w master spec g within h m =
      let e = get_policy-set_and_log debug no_tables claims (codes "workspace") field spec w.db in
      record {
        good = rw e g;
        within = rw e within;
        apps = rw e (
            governed-of-AppsFit kind field spec _ g (
              clamp_apps-fit (some claims.sub) (codes "workspace_tightened") field w.id spec w.apps
                g.1
                (AppsKind-of-governed kind field (bound_of_apps master (get_policy w.db field)) spec
                  w.apps g (h m).apps)));
      }

  pub workspace_put-keeps :
      (claims : Claims) (sys : System J) (workspace : Str) (spec : PolicySpec J)
      → IsGood kind spec
      → Hierarchy kind field sys
      → OnOk PutKeeps (workspace_put debug no_tables claims sys workspace field spec)
  unfolding workspace_put
  workspace_put-keeps claims sys workspace spec g h =
      OnOk-bind PutKeeps (require_workspace_access claims workspace) _ λ _ _.
        OnOk-bind PutKeeps (require_realm_exists debug no_tables sys workspace) _ λ w found.
          OnOk-bind PutKeeps (checked debug no_tables (validate_chain field _)) _ λ u e. record {
            top = h.top;
            below =
                All-put_workspace
                  (λ w. is_swept w ≡ true → Governed kind field (get_policy sys.db field) w) _
                  sys.workspaces
                  (workspace_written claims w (get_policy sys.db field) spec g
                    (Within-of-valid (get_policy sys.db field) spec (codes "workspace")
                      (checked-ok _ u e))
                    (All-find_workspace _ workspace sys.workspaces w h.below
                      (ok_or-ok _ _ w found)))
                  h.below;
          }
