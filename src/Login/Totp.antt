-- ===== src/Login/Totp.antt =====
-- The second factor: crates/rustbase-db/src/user_totp.rs, and the handlers of
-- crates/rustbase-api/src/auth/totp.rs. The columns with times are left out.
use rustbase.Base.{
  ℕ, Bool, true, false, not, ◌&&◌, Str, codes, str_eq, none, some, List, [], ◌∷◌, map, keep, length,
  if◌then◌else◌,
}
use rustbase.Error.{CoreError, Result, ok, err, unauthorized, not_found, conflict, unavailable}
use rustbase.Auth.{Claims, require_user_in_workspace}
use rustbase.Accounts.{User, find_user_by_id}
use rustbase.OneShot.{ConsumeOutcome, consumed, unknown, already_consumed, expired, consume}
use rustbase.LoginState.{
  TotpSecret, clear, encrypted, UserTotp, Identity, Env, Draw, success, of_flow, of_subject,
}
use rustbase.Login.{
  M, ◌>>=◌, pure, lift, some_or, require_workspace_exists, query, execute, check_lock,
  clear_failures, audit, record_failure, commit_login, user_access, LoginTokens, user_public,
  find_totp, user_subject,
}

-- INSERT … ON CONFLICT(user_id) DO UPDATE: the row is pending again.
unfoldable pub enroll_row : Str → TotpSecret → List UserTotp → List UserTotp
enroll_row id secret [] = record { user_id = id; secret = secret; enabled = false } ∷ []
enroll_row id secret (r ∷ rs) =
    if str_eq r.user_id id
    then record r { secret = secret; enabled = false } ∷ rs
    else r ∷ enroll_row id secret rs

abbrev pub is_pending : Str → UserTotp → Bool
is_pending id r = str_eq r.user_id id && not r.enabled

-- With `rows_affected`.
unfoldable pub confirm_enabled : Str → List UserTotp → List UserTotp × ℕ
confirm_enabled id rows = (
  map (λ r. if is_pending id r then record r { enabled = true } else r) rows,
  length (keep (is_pending id) rows),
)

unfoldable pub delete_totp : Str → List UserTotp → List UserTotp
delete_totp id rows = keep (λ r. not (str_eq r.user_id id)) rows

pub record EnrollResponse : Type 0 where
  pub secret_b32 : Str
  pub otpauth_url : Str

pub data TotpStatus : Type 0 where
  is_enabled is_disabled : TotpStatus

abbrev missing_key : Str
missing_key =
    codes
      "this TOTP secret is encrypted but RUSTBASE_KEK is not set; restore the key that enrolled it"

-- The user for whom the challenge was issued, or the error for the outcome.
unfoldable pub challenge_user : ConsumeOutcome → Result Str
challenge_user (consumed user) = ok user
challenge_user unknown = err unauthorized
challenge_user already_consumed = err unauthorized
challenge_user expired = err (conflict (codes "mfa challenge expired — start login over"))

module _ {Totp : Type 0} (env : Env Totp) where
  unfoldable pub secret_for_storage : Str → Result TotpSecret
  secret_for_storage secret = elim (env.kek) [
    | none ↦ ok (clear secret)
    | some kek ↦ elim (env.encrypt secret kek) [ ok ct ↦ ok (encrypted ct) | err e ↦ err e ]
  ]

  unfoldable pub secret_from_storage : TotpSecret → Result Str
  secret_from_storage (clear secret) = ok secret
  secret_from_storage (encrypted ct) = elim (env.kek) [
    | none ↦ err (unavailable missing_key)
    | some kek ↦ env.decrypt ct kek
  ]

  -- The secret of the row, the authenticator that it makes, and its verdict on the code.
  unfoldable pub check_code : Str → User → UserTotp → Str → Draw → M Bool
  unfolding secret_from_storage
  check_code workspace user row code draw = do
    secret ← lift (secret_from_storage row.secret)
    totp ← lift (env.build_totp secret workspace user.email)
    lift (env.check_current totp code draw.now)

  unfoldable pub enroll : Claims → Str → Str → Draw → M EnrollResponse
  unfolding require_user_in_workspace require_workspace_exists query find_user_by_id
      secret_for_storage execute enroll_row
  enroll auth workspace secret draw = do
    allowed ← lift (require_user_in_workspace auth workspace)
    exists ← require_workspace_exists workspace
    users ← query env workspace (λ db. db.users)
    known ←
        some_or (find_user_by_id users auth.sub)
          (lift {A = User} (err (not_found (codes "user") auth.sub)))
    totp ← lift (env.build_totp secret workspace known.email)
    stored ← lift (secret_for_storage secret)
    written ←
        execute env workspace
          (λ db. ok (record db { totps = enroll_row known.id stored db.totps }, tt))
    pure (record { secret_b32 = secret; otpauth_url = env.get_url totp })

  -- The row and the user of a principal who shows a code, if the code is right.
  unfoldable pub show_code : Claims → Str → Str → CoreError → Draw → M (Unit {0})
  unfolding require_user_in_workspace require_workspace_exists query find_totp find_user_by_id
      check_code
  show_code auth workspace code missing draw = do
    allowed ← lift (require_user_in_workspace auth workspace)
    exists ← require_workspace_exists workspace
    rows ← query env workspace (λ db. db.totps)
    row ← some_or (find_totp auth.sub rows) (lift {A = UserTotp} (err missing))
    users ← query env workspace (λ db. db.users)
    known ← some_or (find_user_by_id users auth.sub) (lift {A = User} (err unauthorized))
    right ← check_code workspace known row code draw
    if right then pure tt else lift (err unauthorized)

  unfoldable pub confirm : Claims → Str → Str → Draw → M TotpStatus
  unfolding show_code execute confirm_enabled
  confirm auth workspace code draw = do
    shown ←
        show_code auth workspace code (conflict (codes "no pending enrolment — call /enroll first"))
          draw
    n ←
        execute env workspace
          (λ db. let r = confirm_enabled auth.sub db.totps in ok (record db { totps = r.0 }, r.1))
    pure is_enabled

  unfoldable pub disable : Claims → Str → Str → Draw → M TotpStatus
  unfolding show_code execute delete_totp
  disable auth workspace code draw = do
    shown ← show_code auth workspace code (not_found (codes "user_totp") auth.sub) draw
    written ←
        execute env workspace (λ db. ok (record db { totps = delete_totp auth.sub db.totps }, tt))
    pure is_disabled

  abbrev pub consume_in : Str → Draw → Identity → Result (Identity × ConsumeOutcome)
  consume_in mfa_token draw db =
      let r = consume env.hash_token db.mfa_challenges mfa_token draw.now in
      ok (record db { mfa_challenges = r.0 }, r.1)

  unfoldable pub consume_challenge : Str → Str → Draw → M ConsumeOutcome
  unfolding execute consume
  consume_challenge workspace mfa_token draw = execute env workspace (consume_in mfa_token draw)

  -- The row of the user, who must still have the second factor, and the user.
  unfoldable pub enrolled : Str → Str → M (UserTotp × User)
  unfolding query find_totp find_user_by_id
  enrolled workspace id = do
    rows ← query env workspace (λ db. db.totps)
    row ← some_or (find_totp id rows) (lift {A = UserTotp} (err unauthorized))
    on ←
        (if row.enabled
          then pure tt
          else lift {A = Unit {0}} (err (conflict (codes "TOTP not enabled — restart login"))))
    users ← query env workspace (λ db. db.users)
    known ← some_or (find_user_by_id users id) (lift {A = User} (err unauthorized))
    pure (row, known)

  -- The three parts of the second step: the challenge, the code, and the tokens.
  unfoldable pub redeem_challenge : Str → Str → Draw → M (UserTotp × User)
  unfolding require_workspace_exists consume_challenge challenge_user enrolled
  redeem_challenge workspace mfa_token draw = do
    exists ← require_workspace_exists workspace
    outcome ← consume_challenge workspace mfa_token draw
    id ← lift (challenge_user outcome)
    enrolled workspace id

  unfoldable pub enter_code : Str → Str → User → UserTotp → Draw → M (Unit {0})
  unfolding check_lock check_code record_failure clear_failures
  enter_code workspace code known row draw = do
    let subject = user_subject workspace known.email
    unlocked ← check_lock env subject draw
    right ← check_code workspace known row code draw
    accepted ←
        (if right
          then pure tt
          else record_failure env {A = Unit {0}} (some workspace) subject known.email
              (some (codes "totp")) (of_flow (codes "totp")) unauthorized draw)
    clear_failures env subject

  unfoldable pub hand_out_second : Str → User → Draw → M LoginTokens
  unfolding user_access commit_login audit
  hand_out_second workspace known draw = do
    access ← user_access env workspace known.id draw
    stored ← commit_login env workspace known.id draw
    logged ← audit (some workspace) (record {
      outcome = success;
      subject = user_subject workspace known.email;
      target = known.email;
      details = of_subject (some (codes "totp")) known.id;
    })
    pure (record { access_token = access; refresh_token = draw.issued; user = user_public known })

  unfoldable pub login_totp : Str → Str → Str → Draw → M LoginTokens
  unfolding redeem_challenge enter_code hand_out_second
  login_totp workspace mfa_token code draw = do
    (row, known) ← redeem_challenge workspace mfa_token draw
    accepted ← enter_code workspace code known row draw
    hand_out_second workspace known draw
