-- ===== src/Login/Passwords.antt =====
-- The handlers of crates/rustbase-api/src/auth/login.rs: the logins with a password of master
-- administrators, workspace administrators and end users.
use rustbase.Base.{
  ℕ, Bool, not, ◌&&◌, leb, length, is_empty, Str, str_eq, Option, none, some, List, [], ◌∷◌,
  if◌then◌else◌,
}
use rustbase.Error.{Result, ok, err, validation, unauthorized, require}
use rustbase.Auth.{TokenRole, build_claims}
use rustbase.Accounts.{User}
use rustbase.OneShot.{OneShot, issue}
use rustbase.RefreshTokens.{SubjectKind, RefreshToken, insert_refresh_token}
use rustbase.LoginState.{
  MasterAdmin, WorkspaceAdmin, Identity, Env, Draw, success, nothing, of_subject,
}
use rustbase.Login.{
  M, ◌>>=◌, pure, lift, some_or, unless, require_workspace_exists, query, execute, check_lock,
  clear_failures, audit, record_failure, dispatch_before_login, commit_login, user_access,
  LoginTokens, user_public, find_user_by_email, is_user_totp_enabled, master_subject,
  workspace_admin_subject, user_subject,
}

pub record AdminTokens : Type 0 where
  pub access_token : Str
  pub refresh_token : Str
  pub admin_id : Str

pub data UserLoginResponse : Type 0 where
  tokens : LoginTokens → UserLoginResponse
  mfa_required : Str → UserLoginResponse

unfoldable pub find_master_admin_by_username : Str → List MasterAdmin → Option MasterAdmin
find_master_admin_by_username username [] = none
find_master_admin_by_username username (a ∷ rest) =
    if str_eq a.username username then some a else find_master_admin_by_username username rest

unfoldable pub find_workspace_admin_by_email : Str → List WorkspaceAdmin → Option WorkspaceAdmin
find_workspace_admin_by_email email [] = none
find_workspace_admin_by_email email (a ∷ rest) =
    if str_eq a.email email then some a else find_workspace_admin_by_email email rest

-- `MFA_CHALLENGE_TTL_MINUTES`.
abbrev pub mfa_challenge_ttl : ℕ
mfa_challenge_ttl = 300

module _ {Totp : Type 0} (env : Env Totp) where
  abbrev pub validate_password : Bool → Str → Result (Unit {0})
  validate_password name password =
      require (name && not (is_empty password)) (validation env.invalid)

  -- A password that does not verify is a failure, and a hash that cannot be read an error.
  unfoldable pub verified_or : Str → Str → M (Unit {0}) → M (Unit {0})
  verified_or password hash refuse = do
    right ← lift (env.verify_password password hash)
    if right then pure tt else refuse

  -- The statements of `insert_refresh_token` on the tables of the system and of a workspace.
  unfoldable pub insert_system_token : Str → Draw → M (Unit {0})
  unfolding insert_refresh_token
  insert_system_token id draw w =
      elim (insert_refresh_token env.hash_token env.duplicate w.tokens draw.issued
        SubjectKind.master_admin id draw.now env.refresh_ttl) [
          | err e ↦ (w, err e)
          | ok (rows, row) ↦ (record w { tokens = rows }, ok tt)
        ]

  abbrev pub inserted :
      Identity → Result (List RefreshToken × RefreshToken) → Result (Identity × Unit {0})
  inserted db (err e) = err e
  inserted db (ok (rows, row)) = ok (record db { tokens = rows }, tt)

  unfoldable pub insert_admin_token : Str → Str → Draw → M (Unit {0})
  unfolding insert_refresh_token execute
  insert_admin_token workspace id draw = execute env workspace (λ db. inserted db (
      insert_refresh_token env.hash_token env.duplicate db.tokens draw.issued
        SubjectKind.workspace_admin id draw.now env.refresh_ttl))

  unfoldable pub master_admin_login : Str → Str → Draw → M AdminTokens
  unfolding check_lock find_master_admin_by_username record_failure verified_or clear_failures
      build_claims insert_system_token audit
  master_admin_login username password draw = do
    let subject = master_subject username
    valid ← lift (validate_password (not (is_empty username) && leb (length username) 100) password)
    unlocked ← check_lock env subject draw
    admins ← λ w. (w, ok w.master_admins)
    let refuse = λ (B : Type 0).
        record_failure env {A = B} none subject username none nothing unauthorized draw
    admin ← some_or (find_master_admin_by_username username admins) (refuse MasterAdmin)
    hash ← some_or (admin.password_hash) (refuse Str)
    right ← verified_or password hash (refuse (Unit {0}))
    cleared ← clear_failures env subject
    access ← lift (
        env.sign
          (build_claims admin.id TokenRole.master_admin none none env.access_ttl draw.now draw.jti))
    stored ← insert_system_token admin.id draw
    logged ← audit none (record {
      outcome = success;
      subject = subject;
      target = admin.username;
      details = of_subject none admin.id;
    })
    pure (record { access_token = access; refresh_token = draw.issued; admin_id = admin.id })

  -- It does not ask whether the workspace exists.
  unfoldable pub workspace_admin_login : Str → Str → Str → Draw → M AdminTokens
  unfolding check_lock query find_workspace_admin_by_email record_failure verified_or clear_failures
      build_claims insert_admin_token audit
  workspace_admin_login workspace email password draw = do
    let subject = workspace_admin_subject workspace email
    valid ← lift (validate_password (env.is_email email) password)
    unlocked ← check_lock env subject draw
    admins ← query env workspace (λ db. db.admins)
    let refuse = λ (B : Type 0).
        record_failure env {A = B} (some workspace) subject email none nothing unauthorized draw
    admin ← some_or (find_workspace_admin_by_email email admins) (refuse WorkspaceAdmin)
    right ← verified_or password admin.password_hash (refuse (Unit {0}))
    cleared ← clear_failures env subject
    access ← lift (
        env.sign (
          build_claims admin.id TokenRole.workspace_admin (some workspace) none env.access_ttl
            draw.now draw.jti))
    stored ← insert_admin_token workspace admin.id draw
    logged ← audit (some workspace) (record {
      outcome = success;
      subject = subject;
      target = admin.email;
      details = of_subject none admin.id;
    })
    pure (record { access_token = access; refresh_token = draw.issued; admin_id = admin.id })

  abbrev pub challenged : Identity → Result (List OneShot × OneShot) → Result (Identity × Unit {0})
  challenged db (err e) = err e
  challenged db (ok (rows, row)) = ok (record db { mfa_challenges = rows }, tt)

  unfoldable pub issue_mfa_challenge : Str → Str → Draw → M Str
  unfolding execute issue
  issue_mfa_challenge workspace user_id draw = do
    stored ← execute env workspace (λ db. challenged db (
        issue env.hash_token env.duplicate db.mfa_challenges draw.challenge user_id draw.now
          mfa_challenge_ttl))
    pure draw.challenge

  -- The credentials: the user whose password it is.
  unfoldable pub authenticate : Str → Str → Str → Draw → M User
  unfolding query find_user_by_email record_failure verified_or
  authenticate workspace email password draw = do
    let refuse = λ (B : Type 0).
        record_failure env {A = B} (some workspace) (user_subject workspace email) email none
          nothing unauthorized draw
    users ← query env workspace (λ db. db.users)
    known ← some_or (find_user_by_email email users) (refuse User)
    hash ← some_or (known.password_hash) (refuse Str)
    right ← verified_or password hash (refuse (Unit {0}))
    pure known

  -- The end of a login without a second factor.
  unfoldable pub hand_out : Str → Str → Draw → User → M UserLoginResponse
  unfolding user_access commit_login audit
  hand_out workspace subject draw known = do
    access ← user_access env workspace known.id draw
    stored ← commit_login env workspace known.id draw
    logged ← audit (some workspace) (record {
      outcome = success;
      subject = subject;
      target = known.email;
      details = of_subject none known.id;
    })
    pure (
        tokens
          (record { access_token = access; refresh_token = draw.issued; user = user_public known }))

  unfoldable pub await_code : Str → Draw → User → M UserLoginResponse
  unfolding issue_mfa_challenge
  await_code workspace draw known = do
    challenge ← issue_mfa_challenge workspace known.id draw
    pure (mfa_required challenge)

  -- What follows the password, by whether the user has a second factor.
  unfoldable pub proceed : Str → Str → Draw → User → Bool → M UserLoginResponse
  unfolding query clear_failures dispatch_before_login hand_out await_code
  proceed workspace subject draw known totp_enabled = do
    cleared ← unless totp_enabled (clear_failures env subject)
    apps ← query env workspace (λ db. db.apps)
    allowed ← lift (dispatch_before_login env workspace known apps)
    if totp_enabled then await_code workspace draw known else hand_out workspace subject draw known

  unfoldable pub user_login : Str → Str → Str → Draw → M UserLoginResponse
  unfolding check_lock require_workspace_exists authenticate query is_user_totp_enabled proceed
  user_login workspace email password draw = do
    let subject = user_subject workspace email
    valid ← lift (validate_password (env.is_email email) password)
    unlocked ← check_lock env subject draw
    exists ← require_workspace_exists workspace
    known ← authenticate workspace email password draw
    rows ← query env workspace (λ db. db.totps)
    proceed workspace subject draw known (is_user_totp_enabled known.id rows)
