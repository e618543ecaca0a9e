-- ===== src/Login/Refused.antt =====
-- What crates/rustbase-api/src/auth/login.rs answers to credentials that are wrong.
use rustbase.Base.{◌≡◌, ap, ◌∙◌, true, false, not, ◌&&◌, is_empty, Str, lookup, none, some}
use rustbase.Error.{ok, unauthorized, validation, require}
use rustbase.Lockout.{check}
use rustbase.Accounts.{User}
use rustbase.LoginState.{Identity, World, Env, Draw, nothing}
use rustbase.Login.{
  M, record_failure, check_lock, query, find_user_by_email, user_subject, and_then,
}
use rustbase.Login.Passwords.{
  UserLoginResponse, validate_password, verified_or, authenticate, user_login,
}
use rustbase.Login.Steps.{
  goes, goes-read, goes-some, stops-none, record_failure-stops, found-exists, found-query,
}

module _ {Totp : Type 0} (env : Env Totp) (email password : Str) where
  -- There is no such user, the user has no password, or it is another.
  pub data BadCredentials (db : Identity) : Type 0 where
    no_user : find_user_by_email email db.users ≡ none → BadCredentials db
    no_password :
        (u : User)
        → find_user_by_email email db.users ≡ some u
        → u.password_hash ≡ none
        → BadCredentials db
    wrong_password :
        (u : User) (hash : Str)
        → find_user_by_email email db.users ≡ some u
        → u.password_hash ≡ some hash
        → env.verify_password password hash ≡ ok false
        → BadCredentials db

module _ {Totp : Type 0} (env : Env Totp) (workspace email password : Str) (draw : Draw) where
  -- The answer to a failure, and what it writes: a failure of the subject, and an audit row.
  abbrev pub failure : (A : Type 0) → M A
  failure A =
      record_failure env {A = A} (some workspace) (user_subject workspace email) email none nothing
        unauthorized draw

  abbrev stops : {A B : Type 0} (f : A → M B) (w : World) → and_then f (failure A w) ≡ failure B w
  stops f w =
      record_failure-stops (some workspace) (user_subject workspace email) email none nothing
        unauthorized env draw f w

  authenticate-refused :
      (w : World) (db : Identity)
      → lookup workspace w.workspaces ≡ some db
      → BadCredentials env email password db
      → authenticate env workspace email password draw w ≡ failure User w
  unfolding authenticate verified_or query
  authenticate-refused w db opened (no_user n) =
      goes _ _ w db.users (found-query env workspace w db (λ db. db.users) opened)
      ∙ stops-none _ (failure User) w (find_user_by_email email db.users) n
      ∙ stops _ w
  authenticate-refused w db opened (no_password u found n) =
      goes _ _ w db.users (found-query env workspace w db (λ db. db.users) opened)
      ∙ goes-some _ (failure User) w (find_user_by_email email db.users) u found
      ∙ stops-none _ (failure Str) w u.password_hash n
      ∙ stops _ w
  authenticate-refused w db opened (wrong_password u hash found stored wrong) =
      goes _ _ w db.users (found-query env workspace w db (λ db. db.users) opened)
      ∙ goes-some _ (failure User) w (find_user_by_email email db.users) u found
      ∙ goes-some _ (failure Str) w u.password_hash hash stored
      ∙ ap (and_then _) (goes-read _ w (env.verify_password password hash) false wrong)
      ∙ stops _ w

  -- A well-formed user login with wrong credentials is answered, and leaves the state, in the same
  -- way whether there is no such user, the user has no password, or the password is another: as a
  -- failure of the subject.
  pub user_login-refused :
      (w : World) (db : Identity)
      → env.is_email email ≡ true
      → is_empty password ≡ false
      → check w.attempts (user_subject workspace email) env.policy draw.tracked_at ≡ ok tt
      → lookup workspace w.workspaces ≡ some db
      → BadCredentials env email password db
      → user_login env workspace email password draw w ≡ failure UserLoginResponse w
  unfolding user_login check_lock
  user_login-refused w db is_email given unlocked opened bad =
      goes-read _ w (validate_password env (env.is_email email) password) tt valid
      ∙ goes-read _ w (check w.attempts (user_subject workspace email) env.policy draw.tracked_at)
          tt unlocked
      ∙ goes _ _ w tt (found-exists workspace w db opened)
      ∙ ap (and_then _) (authenticate-refused w db opened bad)
      ∙ stops _ w
    where
      valid : validate_password env (env.is_email email) password ≡ ok tt
      valid =
          ap (λ b. require (b && not (is_empty password)) (validation env.invalid)) is_email
          ∙ ap (λ b. require (not b) (validation env.invalid)) given
