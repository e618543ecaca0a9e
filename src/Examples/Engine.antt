-- ===== src/Examples/Engine.antt =====
-- The theorems on crates/rustbase-db/src/policy_engine.rs and crates/rustbase-api/src/policies.rs at
-- concrete inputs.
use rustbase.Base.{
  ℕ, Str, codes, str_eq, lookup, ◌≡◌, ◌≢◌, refl, true, none, some, List, [], ◌∷◌, All, arith,
}
use rustbase.Policy.{PolicySpec, validate_chain}
use rustbase.Auth.{Claims, master_admin, workspace_admin, require_workspace_access}
use rustbase.Tenancy.{ScopeDb, Workspace, System, get_policy, find_workspace}
use rustbase.PolicyEngine.{cascade_master_to_realms_and_apps}
use rustbase.PolicyEngine.Fits.{Fits, Kind}
use rustbase.PolicyEngine.Master.{is_swept, cascade_master-Fits}
use rustbase.PolicyApi.{workspace_put}
use rustbase.PolicyApi.Hierarchy.{Hierarchy}
use rustbase.PolicyApi.Requests.{
  Request, puts_system, puts_workspace, puts_app, perform, serve, serve-Hierarchy,
}
use rustbase.PolicyApi.Isolation.{perform-Untouched}
use rustbase.Examples.{between, uploads, acme, widgets, shop, token}

abbrev stores : PolicySpec ℕ → ScopeDb ℕ
stores spec = record { policies = (uploads, spec) ∷ []; audit_log = [] }

abbrev acme_realm : Workspace ℕ
acme_realm = record {
  id = acme;
  apps = record { id = shop; db = stores (between 4 15) } ∷ [];
  db = stores (between 3 20);
}

-- A system whose databases store nothing below the workspace.
abbrev fresh_realm : Str → Workspace ℕ
fresh_realm id = record {
  id = id;
  apps = record { id = shop; db = record { policies = []; audit_log = [] } } ∷ [];
  db = record { policies = []; audit_log = [] };
}

abbrev fresh : System ℕ
fresh = record {
  workspaces = fresh_realm acme ∷ fresh_realm widgets ∷ [];
  db = record { policies = []; audit_log = [] };
}

abbrev realms : List (Workspace ℕ)
realms = acme_realm ∷ fresh_realm widgets ∷ []

abbrev swept : List (Workspace ℕ)
swept = (cascade_master_to_realms_and_apps none uploads (between 1 10) realms).0

uploads≢other : codes "other" ≢ uploads
uploads≢other = ground arith

kinds : All (λ (w : Workspace ℕ). is_swept w ≡ true → Kind uploads (between 1 10) w) realms
unfolding get_policy lookup str_eq
kinds =
    (λ s. record { own = tt; below = (tt, tt) }, ((λ s. record { own = tt; below = (tt, tt) }), tt))

cascade_master-Fits_example :
    All (λ (w : Workspace ℕ). is_swept w ≡ true → Fits uploads (between 1 10) w) swept
cascade_master-Fits_example =
    cascade_master-Fits none uploads (between 1 10) realms (omega arith) kinds

abbrev shown : PolicySpec ℕ → Str
shown spec = codes "spec"

abbrev no_tables : Str
no_tables = codes "no such table: policies"

abbrev requests : List (Claims × Request ℕ)
requests =
    (token master_admin none none, puts_system (between 1 10))
    ∷ (token workspace_admin (some acme) none, puts_workspace acme (between 2 8))
    ∷ (token workspace_admin (some acme) none, puts_app acme shop (between 3 20))
    ∷ (token workspace_admin (some acme) none, puts_app acme shop (between 3 5))
    ∷ (token master_admin none none, puts_system (between 4 6))
    ∷ []

serve-Hierarchy_example :
    Hierarchy (between 0 1) uploads (serve shown no_tables uploads requests fresh)
unfolding get_policy lookup
serve-Hierarchy_example =
    serve-Hierarchy shown no_tables (between 0 1) uploads requests fresh refl
      (
        (tt, omega arith),
        ((tt, omega arith), ((tt, omega arith), ((tt, omega arith), ((tt, omega arith), tt)))),
      )
      (record {
        top = tt;
        below = (
          λ s. record { good = tt; within = tt; apps = (record { good = tt; within = tt }, tt) },
          (
            (λ s. record {
              good = tt;
              within = tt;
              apps = (record { good = tt; within = tt }, tt);
            }),
            tt,
          ),
        );
      })

abbrev acme_admin : Claims
acme_admin = token workspace_admin (some acme) none

abbrev after_put : System ℕ
after_put =
    serve shown no_tables uploads ((acme_admin, puts_workspace acme (between 2 8)) ∷ []) fresh

perform-Untouched_example :
    (find_workspace widgets after_put.workspaces ≡ find_workspace widgets fresh.workspaces)
    × (after_put.db ≡ fresh.db)
unfolding perform serve workspace_put require_workspace_access str_eq find_workspace validate_chain
    get_policy lookup
perform-Untouched_example =
    perform-Untouched shown no_tables uploads widgets fresh acme_admin (ground arith) (ground arith)
      (puts_workspace acme (between 2 8)) after_put refl
