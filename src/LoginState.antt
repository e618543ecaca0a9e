-- ===== src/LoginState.antt =====
-- The state of the login handlers of crates/rustbase-api/src/auth: the tables that they read and
-- write, the tracker of failed logins, and what they take from libraries, clocks and dice.
use rustbase.Base.{ℕ, Bool, Str, Option, List}
use rustbase.Error.{Result}
use rustbase.Auth.{Claims}
use rustbase.Lockout.{LockoutPolicy, Attempts}
use rustbase.Accounts.{User}
use rustbase.OneShot.{OneShot}
use rustbase.EmailOtps.{Otps}
use rustbase.RefreshTokens.{RefreshToken}

pub record MasterAdmin : Type 0 where
  pub id : Str
  pub username : Str
  pub password_hash : Option Str

pub record WorkspaceAdmin : Type 0 where
  pub id : Str
  pub email : Str
  pub password_hash : Str

-- The secret of an authenticator as it is stored.
pub data TotpSecret : Type 0 where
  clear encrypted : Str → TotpSecret

pub record UserTotp : Type 0 where
  pub user_id : Str
  pub secret : TotpSecret
  pub enabled : Bool

pub data AuthOutcome : Type 0 where
  success failed locked : AuthOutcome

-- The objects that are built with `json!`, the flow first where there is one.
pub data EventDetails : Type 0 where
  nothing : EventDetails
  of_subject : Option Str → Str → EventDetails
  of_flow : Str → EventDetails
  attempts_left : Str → ℕ → EventDetails
  retry_in : Option Str → ℕ → EventDetails

pub record AuthEvent : Type 0 where
  pub outcome : AuthOutcome
  pub subject : Str
  pub target : Str
  pub details : EventDetails

-- The tables of a workspace's database: `users` with its column `last_login` by itself.
pub record Identity : Type 0 where
  pub users : List User
  pub last_logins : List (Str × Option ℕ)
  pub admins : List WorkspaceAdmin
  pub totps : List UserTotp
  pub mfa_challenges : List OneShot
  pub otps : Otps
  pub tokens : List RefreshToken
  pub apps : List Str
  pub audit_log : List AuthEvent

-- The tables of the system, the workspaces by their identifiers, and the tracker.
pub record World : Type 0 where
  pub master_admins : List MasterAdmin
  pub tokens : List RefreshToken
  pub audit_log : List AuthEvent
  pub workspaces : List (Str × Identity)
  pub attempts : Attempts

pub data RuntimeError : Type 0 where
  veto other : Str → RuntimeError

-- `Totp` is the type of the library for authenticators.
pub record Env (Totp : Type 0) : Type 0 where
  pub policy : LockoutPolicy
  pub kek : Option Str
  pub access_ttl : ℕ
  pub refresh_ttl : ℕ
  pub invalid : Str
  pub duplicate : Str
  pub no_tables : Str
  pub is_email : Str → Bool
  pub hash_token : Str → Str
  pub verify_password : Str → Str → Result Bool
  pub sign : Claims → Result Str
  pub before_login : Str → Str → User → Option RuntimeError
  pub build_totp : Str → Str → Str → Result Totp
  pub check_current : Totp → Str → ℕ → Result Bool
  pub get_url : Totp → Str
  pub encrypt : Str → Str → Result Str
  pub decrypt : Str → Str → Result Str

-- The tracker's clock counts nanoseconds.
pub record Draw : Type 0 where
  pub issued : Str
  pub jti : Str
  pub challenge : Str
  pub user_id : Str
  pub tracked_at : ℕ
  pub now : ℕ
