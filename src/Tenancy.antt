-- ===== src/Tenancy.antt =====
-- The databases of the three scopes: system.db, a workspace.db for each workspace and a data.db for
-- each app, with their `policies` and `audit_log` tables, and the operations on those tables:
-- crates/rustbase-db/src/policies.rs, audit.rs, workspaces.rs and apps.rs. The columns that hold
-- times are left out: no code here reads them.
pub mod Rows
use rustbase.Base.{
  Str, codes, str_eq, lookup, upsert, remove, Bool, true, false, Option, none, some, List, [], ◌∷◌,
  ◌++◌, if◌then◌else◌,
}
use rustbase.Policy.{PolicySpec}

-- The objects that the callers of `audit::append` build with `json!`.
pub data Details (J : Type 0) : Type 0 where
  clamp_details : Str → PolicySpec J → PolicySpec J → Details J
  set_details : Str → PolicySpec J → Details J
  scope_details : Str → Details J

pub record AuditEntry (J : Type 0) : Type 0 where
  pub actor : Option Str
  pub action : Str
  pub target : Option Str
  pub details : Details J

-- One scope's database. The text in `policy_json` is the specification that it encodes.
pub record ScopeDb (J : Type 0) : Type 0 where
  pub policies : List (Str × PolicySpec J)
  pub audit_log : List (AuditEntry J)

pub record App (J : Type 0) : Type 0 where
  pub id : Str
  pub db : ScopeDb J

-- A row of `workspaces` with the apps of its `apps` table, in the order of `list_apps`.
pub record Workspace (J : Type 0) : Type 0 where
  pub id : Str
  pub apps : List (App J)
  pub db : ScopeDb J

-- The rows of `workspaces` in the order of `list_realms`.
pub record System (J : Type 0) : Type 0 where
  pub workspaces : List (Workspace J)
  pub db : ScopeDb J

abbrev pub master_workspace_id : Str
master_workspace_id = codes "master"

module _ {J : Type 0} where
  unfoldable pub get_policy : ScopeDb J → Str → Option (PolicySpec J)
  get_policy db field = lookup field db.policies

  unfoldable pub upsert_policy : ScopeDb J → Str → PolicySpec J → ScopeDb J
  upsert_policy db field spec = record db { policies = upsert field spec db.policies }

  -- `none` is `RowNotFound`.
  unfoldable pub delete_policy : ScopeDb J → Str → Option (ScopeDb J)
  delete_policy db field = elim (lookup field db.policies) [
    | none ↦ none
    | some spec ↦ some (record db { policies = remove field db.policies })
  ]

  unfoldable pub append : ScopeDb J → Option Str → Str → Option Str → Details J → ScopeDb J
  append db actor action target details = record db {
    audit_log =
        db.audit_log
        ++ record { actor = actor; action = action; target = target; details = details } ∷ [];
  }

  unfoldable pub find_workspace : Str → List (Workspace J) → Option (Workspace J)
  find_workspace id [] = none
  find_workspace id (w ∷ ws) = if str_eq w.id id then some w else find_workspace id ws

  unfoldable pub find_app : Str → List (App J) → Option (App J)
  find_app id [] = none
  find_app id (a ∷ rest) = if str_eq a.id id then some a else find_app id rest

  -- The database of `pool_for` is written in place: the rows with the identifier are replaced.
  unfoldable pub put_workspace : Workspace J → List (Workspace J) → List (Workspace J)
  put_workspace w [] = []
  put_workspace w (v ∷ vs) =
      if str_eq v.id w.id then w ∷ put_workspace w vs else v ∷ put_workspace w vs

  unfoldable pub put_app : App J → List (App J) → List (App J)
  put_app a [] = []
  put_app a (b ∷ bs) = if str_eq b.id a.id then a ∷ put_app a bs else b ∷ put_app a bs
