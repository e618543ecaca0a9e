-- ===== src/Auth.antt =====
-- The principals of a request: crates/rustbase-auth/src/token.rs and
-- crates/rustbase-api/src/auth/extract.rs.
pub mod Scope
use rustbase.Base.{ℕ, ◌+◌, Str, str_eq, Bool, true, false, ◌&&◌, Option, none, some, if◌then◌else◌}
use rustbase.Error.{Result, ok, err, require, forbidden}

pub data TokenRole : Type 0 where
  master_admin workspace_admin app_admin user : TokenRole

-- The times are Unix seconds; `jti` is the fresh identifier of the token.
pub record Claims : Type 0 where
  pub sub : Str
  pub role : TokenRole
  pub workspace : Option Str
  pub app : Option Str
  pub iat : ℕ
  pub exp : ℕ
  pub jti : Str

-- `build_claims`, with the clock and the identifier that it draws.
unfoldable pub build_claims : Str → TokenRole → Option Str → Option Str → ℕ → ℕ → Str → Claims
build_claims subject role workspace app ttl now jti = record {
  sub = subject;
  role = role;
  workspace = workspace;
  app = app;
  iat = now;
  exp = now + ttl;
  jti = jti;
}

-- `claim.as_deref() == Some(name)`.
unfoldable pub claim_is : Option Str → Str → Bool
claim_is none name = false
claim_is (some c) name = str_eq c name

-- The last part of `AdminAuth::from_request_parts`: the token of an end user is no admin's.
unfoldable pub admin_auth : Claims → Result Claims
admin_auth claims = elim claims.role [ user ↦ err forbidden | _ ↦ ok claims ]

unfoldable pub require_master : Claims → Result (Unit {0})
require_master claims = elim claims.role [ master_admin ↦ ok tt | _ ↦ err forbidden ]

unfoldable pub require_workspace_access : Claims → Str → Result (Unit {0})
unfolding claim_is
require_workspace_access claims workspace = elim claims.role [
  | master_admin ↦ ok tt
  | workspace_admin ↦ require (claim_is claims.workspace workspace) forbidden
  | app_admin ↦ require (claim_is claims.workspace workspace) forbidden
  | user ↦ err forbidden
]

unfoldable pub require_app_access : Claims → Str → Str → Result (Unit {0})
unfolding claim_is
require_app_access claims workspace app = elim claims.role [
  | master_admin ↦ ok tt
  | workspace_admin ↦ require (claim_is claims.workspace workspace) forbidden
  | app_admin ↦ require (claim_is claims.workspace workspace && claim_is claims.app app) forbidden
  | user ↦ err forbidden
]

unfoldable pub is_admin_for_app : Claims → Str → Str → Bool
unfolding claim_is
is_admin_for_app claims workspace app = elim claims.role [
  | master_admin ↦ true
  | workspace_admin ↦ claim_is claims.workspace workspace
  | app_admin ↦ claim_is claims.workspace workspace && claim_is claims.app app
  | user ↦ false
]

unfoldable pub user_workspace : Claims → Option Str
user_workspace claims = elim claims.role [ user ↦ claims.workspace | _ ↦ none ]

unfoldable pub require_user_in_workspace : Claims → Str → Result (Unit {0})
unfolding user_workspace
require_user_in_workspace claims workspace = elim (user_workspace claims) [
  | some w ↦ require (str_eq w workspace) forbidden
  | none ↦ err forbidden
]
