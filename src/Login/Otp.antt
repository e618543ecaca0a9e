-- ===== src/Login/Otp.antt =====
-- The login with a code sent by mail: the handlers of crates/rustbase-api/src/auth/email_otp.rs. The
-- mail itself is left out, as its failure changes nothing.
use rustbase.Base.{
  ℕ, true, false, ◌&&◌, leb, length, Str, codes, str_eq, Option, none, some, ◌∷◌, ◌++◌, any,
  if◌then◌else◌,
}
use rustbase.Error.{Result, ok, err, validation, conflict, internal, require}
use rustbase.Accounts.{User, mark_verified}
use rustbase.EmailOtps.{
  ConsumeOutcome, accepted, unknown, wrong_code, expired, locked, issue, consume,
}
use rustbase.LoginState.{Identity, Env, Draw, success, of_flow, attempts_left}
use rustbase.Login.{
  M, ◌>>=◌, pure, lift, require_workspace_exists, query, execute, check_lock, clear_failures, audit,
  record_failure, dispatch_before_login, commit_login, user_access, LoginTokens, find_user_by_email,
  user_subject,
}

-- `OTP_TTL_MINUTES`.
abbrev pub otp_ttl : ℕ
otp_ttl = 600

-- The INSERT of a user without a password, whose email the caller did not find.
unfoldable pub insert_passwordless_user : Str → Str → Str → Identity → Result (Identity × User)
insert_passwordless_user duplicate id email db =
    let u : User = record { id = id; email = email; password_hash = none; verified = false } in
    if any (λ (v : User). str_eq v.id id) db.users
    then err (internal duplicate)
    else ok (record db { users = u ∷ db.users; last_logins = (id, none) ∷ db.last_logins }, u)

module _ {Totp : Type 0} (env : Env Totp) where
  unfoldable pub request : Str → Str → Str → Draw → M (Unit {0})
  unfolding require_workspace_exists execute issue
  request workspace email code draw = do
    valid ← lift (require (env.is_email email) (validation env.invalid))
    exists ← require_workspace_exists workspace
    execute env workspace (λ db.
        ok (record db { otps = (issue env.hash_token db.otps code email draw.now otp_ttl).0 }, tt))

  -- The user of the address, made if there is none, and verified.
  unfoldable pub verify_user : Str → Str → M (Unit {0})
  unfolding execute mark_verified
  verify_user workspace id =
      execute env workspace (λ db. ok (record db { users = mark_verified db.users id }, tt))

  unfoldable pub find_or_create : Str → Str → Draw → Option User → M User
  unfolding verify_user execute insert_passwordless_user
  find_or_create workspace email draw (some u) = do
    marked ← (if u.verified then pure tt else verify_user workspace u.id)
    pure u
  find_or_create workspace email draw none = do
    fresh ← execute env workspace (insert_passwordless_user env.duplicate draw.user_id email)
    marked ← verify_user workspace fresh.id
    pure fresh

  -- The hooks see a verified user; those after a registration are observers.
  unfoldable pub issue_tokens_for : Str → Str → Draw → M LoginTokens
  unfolding query find_user_by_email find_or_create dispatch_before_login user_access commit_login
  issue_tokens_for workspace email draw = do
    users ← query env workspace (λ db. db.users)
    known ← find_or_create workspace email draw (find_user_by_email email users)
    apps ← query env workspace (λ db. db.apps)
    allowed ← lift (dispatch_before_login env workspace (record known { verified = true }) apps)
    access ← user_access env workspace known.id draw
    stored ← commit_login env workspace known.id draw
    pure (record {
      access_token = access;
      refresh_token = draw.issued;
      user = record { id = known.id; email = known.email; verified = true };
    })

  abbrev pub consume_in : Str → Str → Draw → Identity → Result (Identity × ConsumeOutcome)
  consume_in email code draw db =
      let r = consume env.hash_token db.otps.rows email code draw.now in
      ok (record db { otps = record (db.otps) { rows = r.0 } }, r.1)

  unfoldable pub consume_code : Str → Str → Str → Draw → M ConsumeOutcome
  unfolding execute consume
  consume_code workspace email code draw = execute env workspace (consume_in email code draw)

module _ {Totp : Type 0} (env : Env Totp) (show : ℕ → Str) where
  abbrev flow : Option Str
  flow = some (codes "email_otp")

  unfoldable pub settle_outcome : Str → Str → Str → Draw → ConsumeOutcome → M LoginTokens
  unfolding clear_failures issue_tokens_for audit record_failure
  settle_outcome workspace subject email draw (accepted address) = do
    cleared ← clear_failures env subject
    answer ← issue_tokens_for env workspace address draw
    logged ← audit (some workspace) (record {
      outcome = success;
      subject = subject;
      target = address;
      details = of_flow (codes "email_otp");
    })
    pure answer
  settle_outcome workspace subject email draw (wrong_code n) =
      record_failure env (some workspace) subject email flow (attempts_left (codes "email_otp") n)
        (validation (codes "wrong code (" ++ (show n ++ codes " attempts left)"))) draw
  settle_outcome workspace subject email draw unknown =
      lift (err (conflict (codes "no pending code for this email — request a new one")))
  settle_outcome workspace subject email draw expired =
      lift (err (conflict (codes "code expired — request a new one")))
  settle_outcome workspace subject email draw locked =
      lift (err (conflict (codes "too many wrong attempts — request a new code")))

  unfoldable pub login : Str → Str → Str → Draw → M LoginTokens
  unfolding require_workspace_exists check_lock consume_code settle_outcome
  login workspace email code draw = do
    valid ← lift (
        require (env.is_email email && (leb 4 (length code) && leb (length code) 12))
          (validation env.invalid))
    exists ← require_workspace_exists workspace
    let subject = user_subject workspace email
    unlocked ← check_lock env subject draw
    outcome ← consume_code env workspace email code draw
    settle_outcome workspace subject email draw outcome
