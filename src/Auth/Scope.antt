-- ===== src/Auth/Scope.antt =====
-- Who passes the guards of crates/rustbase-api/src/auth/extract.rs.
use rustbase.Base.{Str, str_eq_iff, ◌≡◌, ◌≢◌, ◌↔◌, refl, true, Option, none, some, arith}
use rustbase.Error.{ok, err, forbidden}
use rustbase.Auth.{
  TokenRole, Claims, master_admin, workspace_admin, app_admin, user, claim_is, admin_auth,
  require_master, require_workspace_access, require_app_access, is_admin_for_app,
  require_user_in_workspace,
}

-- The administrators of an app: masters, the administrators of its workspace, and its own.
pub data AdministersApp (c : Claims) (workspace app : Str) : Type 0 where
  as_master : c.role ≡ master_admin → AdministersApp c workspace app
  as_workspace :
      c.role ≡ workspace_admin → c.workspace ≡ some workspace → AdministersApp c workspace app
  as_app :
      c.role ≡ app_admin
      → c.workspace ≡ some workspace
      → c.app ≡ some app
      → AdministersApp c workspace app

pub claim_is_iff : (o : Option Str) (name : Str) → (claim_is o name ≡ true) ↔ (o ≡ some name)
unfolding claim_is
claim_is_iff none name = ground arith
claim_is_iff (some c) name = ground (arith, str_eq_iff c name)

AdministersApp-of-ok :
    (c : Claims) (workspace app : Str)
    → require_app_access c workspace app ≡ ok tt
    → AdministersApp c workspace app
unfolding require_app_access
AdministersApp-of-ok c workspace app h = by_role c.role refl
  where
    by_role : (r : TokenRole) → c.role ≡ r → AdministersApp c workspace app
    by_role master_admin e = as_master e
    by_role workspace_admin e = as_workspace e (ground (arith, claim_is_iff c.workspace workspace))
    by_role app_admin e =
        as_app e (ground (arith, claim_is_iff c.workspace workspace))
          (ground (arith, claim_is_iff c.workspace workspace, claim_is_iff c.app app))
    by_role user e = absurd (ground arith)

-- `require_app_access` lets exactly the administrators of the app pass.
pub require_app_access_iff :
    (c : Claims) (workspace app : Str)
    → (require_app_access c workspace app ≡ ok tt) ↔ AdministersApp c workspace app
require_app_access_iff c workspace app = (AdministersApp-of-ok c workspace app, passes)
  where
    passes : AdministersApp c workspace app → require_app_access c workspace app ≡ ok tt
    passes (as_master e) = unfold require_app_access in (ground arith)
    passes (as_workspace e w) =
        unfold require_app_access in (ground (arith, claim_is_iff c.workspace workspace))
    passes (as_app e w a) =
        unfold require_app_access in
        (ground (arith, claim_is_iff c.workspace workspace, claim_is_iff c.app app))

-- The permissive extractor's test agrees with the guard of the administrative routes, and who
-- passes for an app passes for its workspace.
pub is_admin_for_app_iff :
    (c : Claims) (workspace app : Str)
    → ((is_admin_for_app c workspace app ≡ true) ↔ (require_app_access c workspace app ≡ ok tt))
      × (require_app_access c workspace app ≡ ok tt → require_workspace_access c workspace ≡ ok tt)
unfolding is_admin_for_app require_app_access require_workspace_access
is_admin_for_app_iff c workspace app = (ground arith, λ h. ground arith)

-- A principal other than a master administrator passes `require_workspace_access` for at most one
-- workspace.
pub one_workspace :
    (c : Claims) (v w : Str)
    → c.role ≢ master_admin
    → require_workspace_access c v ≡ ok tt
    → require_workspace_access c w ≡ ok tt
    → v ≡ w
unfolding require_workspace_access
one_workspace c v w m h k = ground (arith, claim_is_iff c.workspace v, claim_is_iff c.workspace w)

-- A token that passes a user route of a workspace is an end user's of that workspace, and passes no
-- administrative guard, whatever the scope.
pub user_apart :
    (c : Claims) (w v a : Str)
    → require_user_in_workspace c w ≡ ok tt
    → (c.workspace ≡ some w)
      × (admin_auth c ≡ err forbidden)
      × (require_master c ≡ err forbidden)
      × (require_workspace_access c v ≡ err forbidden)
      × (require_app_access c v a ≡ err forbidden)
unfolding require_user_in_workspace admin_auth require_master require_workspace_access
    require_app_access
user_apart c w v a h = by_claim c.role c.workspace refl refl
  where
    by_claim :
        (r : TokenRole) (o : Option Str)
        → c.role ≡ r
        → c.workspace ≡ o
        → (c.workspace ≡ some w)
          × (admin_auth c ≡ err forbidden)
          × (require_master c ≡ err forbidden)
          × (require_workspace_access c v ≡ err forbidden)
          × (require_app_access c v a ≡ err forbidden)
    by_claim user (some u) e f = ground (arith, str_eq_iff u w)
    by_claim user none e f = absurd (ground arith)
    by_claim _ o e f = absurd (ground arith)
