-- ===== src/Login.antt =====
-- What the login handlers of crates/rustbase-api/src/auth share: login.rs, totp.rs and email_otp.rs.
-- The state is the tables that they read and write, with the tracker of failed logins. A handler
-- takes the state and returns the new one with its answer, since most refusals write. The functions
-- of libraries, of the configuration and of the hooks are the fields of `Env`; what a handler draws
-- and when it reads its clocks is a `Draw`. Observers, cookies, metrics and logs are left out, and an
-- audit row is written without fail.
pub mod Passwords
pub mod Totp
pub mod Otp
pub mod Steps
pub mod Granted
pub mod Holds
pub mod Shown
pub mod SecondStep
pub mod Refused
pub mod Goes
pub mod TwoSteps
pub mod Codes
use rustbase.LoginState.{
  MasterAdmin, WorkspaceAdmin, TotpSecret, clear, encrypted, UserTotp, AuthOutcome, success, failed,
  locked, EventDetails, nothing, of_subject, of_flow, attempts_left, retry_in, AuthEvent, Identity,
  World, RuntimeError, veto, other, Env, Draw,
}
use rustbase.Base.{
  ℕ, Bool, true, false, Str, codes, str_eq, lookup, upsert, remove, Option, none, some, List, [],
  ◌∷◌, ◌++◌, map, any, keep, if◌then◌else◌,
}
use rustbase.Error.{
  CoreError, Result, ok, err, too_many_requests, unauthorized, forbidden, internal,
  workspace_not_found,
}
use rustbase.Auth.{Claims, TokenRole, build_claims}
use rustbase.Lockout.{LockoutPolicy, Attempts, check, note_failure, note_success}
use rustbase.Accounts.{User}
use rustbase.OneShot.{OneShot}
use rustbase.EmailOtps.{Otps}
use rustbase.RefreshTokens.{RefreshToken, commit_user_login}

abbrev pub M : Type 0 → Type 0
M A = World → World × Result A

unfoldable pub and_then : {A B : Type 0} → (A → M B) → World × Result A → World × Result B
and_then f (w, ok a) = f a w
and_then f (w, err e) = (w, err e)

infixl 5 ◌>>=◌ ◌>>◌
abbrev pub ◌>>=◌ : {A B : Type 0} → M A → (A → M B) → M B
◌>>=◌ m f w = and_then f (m w)

abbrev pub ◌>>◌ : {B : Type 0} → M (Unit {0}) → M B → M B
m >> n = m >>= λ done. n

abbrev pub pure : {A : Type 0} → A → M A
pure a w = (w, ok a)

abbrev pub lift : {A : Type 0} → Result A → M A
lift r w = (w, r)

-- `match … { Some(a) => a, None => return … }`.
unfoldable pub some_or : {A : Type 0} → Option A → M A → M A
some_or none refuse = refuse
some_or (some a) refuse = pure a

abbrev pub unless : Bool → M (Unit {0}) → M (Unit {0})
unless true m = pure tt
unless false m = m

-- `require_workspace_exists`.
unfoldable pub require_workspace_exists : Str → M (Unit {0})
require_workspace_exists workspace w = elim (lookup workspace w.workspaces) [
  | none ↦ (w, err (workspace_not_found workspace))
  | some db ↦ (w, ok tt)
]

module _ {Totp : Type 0} (env : Env Totp) where
  -- A query on the database of a workspace; one that does not exist is opened without tables.
  abbrev pub read : {A : Type 0} → Option Identity → (Identity → A) → Result A
  read none f = err (internal env.no_tables)
  read (some db) f = ok (f db)

  unfoldable pub query : {A : Type 0} → Str → (Identity → A) → M A
  query workspace f w = (w, read (lookup workspace w.workspaces) f)

  -- A statement that writes.
  abbrev pub write :
      {A : Type 0} → World → Str → Identity → Result (Identity × A) → World × Result A
  write w workspace db (err e) = (w, err e)
  write w workspace db (ok (db', a)) =
      (record w { workspaces = upsert workspace db' w.workspaces }, ok a)

  unfoldable pub execute : {A : Type 0} → Str → (Identity → Result (Identity × A)) → M A
  execute workspace f w = elim (lookup workspace w.workspaces) [
    | none ↦ (w, err (internal env.no_tables))
    | some db ↦ write w workspace db (f db)
  ]

  unfoldable pub check_lock : Str → Draw → M (Unit {0})
  unfolding check
  check_lock subject draw w = (w, check w.attempts subject env.policy draw.tracked_at)

  unfoldable pub clear_failures : Str → M (Unit {0})
  unfolding note_success
  clear_failures subject w = (record w { attempts = note_success w.attempts subject }, ok tt)

-- `audit_events::record` in the log of the system or of a workspace.
unfoldable pub record_audit : Option Str → AuthEvent → World → World
record_audit none event w = record w { audit_log = w.audit_log ++ event ∷ [] }
record_audit (some workspace) event w = elim (lookup workspace w.workspaces) [
  | none ↦ w
  | some db ↦ record w {
    workspaces =
        upsert workspace (record db { audit_log = db.audit_log ++ event ∷ [] }) w.workspaces;
  }
]

unfoldable pub audit : Option Str → AuthEvent → M (Unit {0})
unfolding record_audit
audit scope event w = (record_audit scope event w, ok tt)

-- What a failure is answered with, by what the tracker says: the event with its details and the
-- error where the subject is not locked, and the event of a lock. The flow is none for a password.
unfoldable pub pick_error :
    {A : Type 0}
    → Option Str
    → Str
    → Str
    → Option Str
    → EventDetails
    → CoreError
    → World × Result (Unit {0})
    → World × Result A
unfolding record_audit
pick_error scope subject target flow details refusal (w, ok u) = (
  record_audit scope
      (record { outcome = failed; subject = subject; target = target; details = details }) w,
  err refusal,
)
pick_error scope subject target flow details refusal (w, err (too_many_requests n)) = (
  record_audit scope
      (record { outcome = locked; subject = subject; target = target; details = retry_in flow n })
      w,
  err (too_many_requests n),
)
pick_error scope subject target flow details refusal (w, err e) = (w, err e)

module _ {Totp : Type 0} (env : Env Totp) where
  -- `note_failure` on the tracker, and `record_failure_and_pick_error` with its two copies in
  -- totp.rs and email_otp.rs.
  unfoldable pub note : Str → Draw → M (Unit {0})
  unfolding note_failure
  note subject draw w =
      let r = note_failure w.attempts subject env.policy draw.tracked_at in
      (record w { attempts = r.0 }, r.1)

  unfoldable pub record_failure :
      {A : Type 0} → Option Str → Str → Str → Option Str → EventDetails → CoreError → Draw → M A
  unfolding note pick_error
  record_failure scope subject target flow details refusal draw w =
      pick_error scope subject target flow details refusal (note subject draw w)

  -- The hooks before a login, of every app in turn: the first that fails ends the login.
  abbrev pub vetoed : Option RuntimeError → Result (Unit {0}) → Result (Unit {0})
  vetoed none rest = rest
  vetoed (some (veto msg)) rest = err forbidden
  vetoed (some (other msg)) rest = err (internal msg)

  unfoldable pub dispatch_before_login : Str → User → List Str → Result (Unit {0})
  dispatch_before_login workspace user [] = ok tt
  dispatch_before_login workspace user (app ∷ apps) =
      vetoed (env.before_login workspace app user) (dispatch_before_login workspace user apps)

  -- The signed claims of an end user of the workspace, which name no app, and the transaction that
  -- writes the last login and the row of the refresh token.
  abbrev pub committed :
      Identity
      → Result ((List (Str × Option ℕ) × List RefreshToken) × RefreshToken)
      → Result (Identity × Unit {0})
  committed db (err e) = err e
  committed db (ok ((logins, tokens), row)) =
      ok (record db { last_logins = logins; tokens = tokens }, tt)

  abbrev pub committing : Str → Draw → Identity → Result (Identity × Unit {0})
  committing user_id draw db = committed db (
      commit_user_login env.hash_token env.duplicate db.last_logins db.tokens user_id draw.issued
        draw.now env.refresh_ttl)

  unfoldable pub commit_login : Str → Str → Draw → M (Unit {0})
  unfolding execute commit_user_login
  commit_login workspace user_id draw = execute env workspace (committing user_id draw)

  unfoldable pub user_access : Str → Str → Draw → M Str
  unfolding build_claims
  user_access workspace user_id draw = lift (
      env.sign (
        build_claims user_id TokenRole.user (some workspace) none env.access_ttl draw.now draw.jti))

pub record UserPublic : Type 0 where
  pub id : Str
  pub email : Str
  pub verified : Bool

pub record LoginTokens : Type 0 where
  pub access_token : Str
  pub refresh_token : Str
  pub user : UserPublic

abbrev pub user_public : User → UserPublic
user_public u = record { id = u.id; email = u.email; verified = u.verified }

unfoldable pub find_user_by_email : Str → List User → Option User
find_user_by_email email [] = none
find_user_by_email email (u ∷ us) =
    if str_eq u.email email then some u else find_user_by_email email us

unfoldable pub find_totp : Str → List UserTotp → Option UserTotp
find_totp id [] = none
find_totp id (r ∷ rs) = if str_eq r.user_id id then some r else find_totp id rs

abbrev pub enabled_row : Option UserTotp → Bool
enabled_row none = false
enabled_row (some r) = r.enabled

unfoldable pub is_user_totp_enabled : Str → List UserTotp → Bool
unfolding find_totp
is_user_totp_enabled id rows = enabled_row (find_totp id rows)

-- The subjects of the tracker and of the audit log.
abbrev pub master_subject : Str → Str
master_subject username = codes "master:" ++ username

abbrev pub workspace_admin_subject : Str → Str → Str
workspace_admin_subject workspace email =
    codes "workspace:" ++ (workspace ++ (codes ":admin:" ++ email))

abbrev pub user_subject : Str → Str → Str
user_subject workspace email = codes "workspace:" ++ (workspace ++ (codes ":user:" ++ email))
