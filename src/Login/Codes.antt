-- ===== src/Login/Codes.antt =====
-- The login with a mailed code of crates/rustbase-api/src/auth/email_otp.rs has no second step.
use rustbase.Base.{
  ℕ, ◌≡◌, refl, ap, ◌∙◌, Bool, true, false, ◌&&◌, leb, length, Str, lookup, upsert, any, none, some,
  if◌then◌else◌,
}
use rustbase.Error.{Result, ok, require, validation}
use rustbase.Auth.{TokenRole, build_claims}
use rustbase.Lockout.{check, note_success}
use rustbase.Accounts.{User, mark_verified}
use rustbase.EmailOtps.{accepted, consume}
use rustbase.RefreshTokens.{has_hash}
use rustbase.LoginState.{Identity, World, Env, Draw}
use rustbase.Login.{
  LoginTokens, check_lock, clear_failures, dispatch_before_login, find_user_by_email,
  is_user_totp_enabled, user_subject, user_access, commit_login, write, pure, and_then,
}
use rustbase.Login.Otp.{
  verify_user, find_or_create, issue_tokens_for, consume_code, consume_in, settle_outcome, login,
}
use rustbase.Login.Steps.{goes, goes-read, found-exists, found-execute, found-query}
use rustbase.Login.Holds.{upserted}
use rustbase.Login.Goes.{commit_login-goes}

module _ {Totp : Type 0} (env : Env Totp) (workspace email : Str) (draw : Draw) where
  -- The user that is there is marked as verified, and no more.
  abbrev Marked : World → Identity → User → Type 0
  Marked w d u =
      (v : World) × (d' : Identity) × (find_or_create env workspace email draw (some u) w
        ≡ (v, ok u))
      × (lookup workspace v.workspaces ≡ some d')
      × (d'.apps ≡ d.apps)
      × (d'.tokens ≡ d.tokens)

  verify_user-goes :
      (w : World) (d : Identity) (id : Str)
      → lookup workspace w.workspaces ≡ some d
      → verify_user env workspace id w ≡ (
        record w {
          workspaces =
              upsert workspace (record d { users = mark_verified d.users id }) w.workspaces;
        },
        ok tt,
      )
  unfolding verify_user
  verify_user-goes w d id opened =
      found-execute env workspace w d
        (λ db. ok (record db { users = mark_verified db.users id }, tt)) opened

  marks :
      (w : World) (d : Identity) (u : User) (b : Bool)
      → lookup workspace w.workspaces ≡ some d
      → u.verified ≡ b
      → Marked w d u
  unfolding find_or_create
  marks w d u true opened e = (
    w,
    d,
    ap
          (λ b.
            and_then (λ x. pure {A = User} u)
              ((if b then pure tt else verify_user env workspace u.id) w))
          e
        ∙ goes-read _ w (ok tt) tt refl,
    opened,
    refl,
    refl,
  )
  marks w d u false opened e =
      let d' : Identity = record d { users = mark_verified d.users u.id } in
      let v : World = record w { workspaces = upsert workspace d' w.workspaces } in
      (
        v,
        d',
        ap
              (λ b.
                and_then (λ x. pure {A = User} u)
                  ((if b then pure tt else verify_user env workspace u.id) w))
              e
            ∙ goes _ _ v tt (verify_user-goes w d u.id opened),
        upserted workspace d' w.workspaces,
        refl,
        refl,
      )

  abbrev otp_tokens : User → Str → LoginTokens
  otp_tokens known access = record {
    access_token = access;
    refresh_token = draw.issued;
    user = record { id = known.id; email = known.email; verified = true };
  }

  issue_tokens_for-goes :
      (w : World) (d : Identity) (known : User) (access : Str)
      → lookup workspace w.workspaces ≡ some d
      → find_user_by_email email d.users ≡ some known
      → dispatch_before_login env workspace (record known { verified = true }) d.apps ≡ ok tt
      → env.sign (
          build_claims known.id TokenRole.user
            (some workspace)
            none
            env.access_ttl
            draw.now
            draw.jti)
        ≡ ok access
      → any (has_hash (env.hash_token draw.issued)) d.tokens ≡ false
      → (issue_tokens_for env workspace email draw w).1 ≡ ok (otp_tokens known access)
  unfolding issue_tokens_for user_access
  issue_tokens_for-goes w d known access opened found allowed signed fresh =
      let (v, d', marked, reopened, apps, rows) = marks w d known known.verified opened refl in
      let p = commit_login env workspace known.id draw v in
      ap (λ (r : World × Result LoginTokens). r.1)
        (goes _ _ w d.users (found-query env workspace w d (λ db. db.users) opened)
          ∙ goes _ _ v known (ap (λ o. find_or_create env workspace email draw o w) found ∙ marked)
          ∙ goes _ _ v d'.apps (found-query env workspace v d' (λ db. db.apps) reopened)
          ∙ goes-read _ v
              (dispatch_before_login env workspace (record known { verified = true }) d'.apps) tt
              (ap (dispatch_before_login env workspace (record known { verified = true })) apps
                ∙ allowed)
          ∙ goes-read _ v
              (env.sign (
                build_claims known.id TokenRole.user (some workspace) none env.access_ttl draw.now
                  draw.jti))
              access signed
          ∙ goes _ p p.0 tt (λ i. (
            p.0,
            commit_login-goes env workspace draw v known d' reopened
                (ap (any (has_hash (env.hash_token draw.issued))) rows ∙ fresh) i,
          )))

module _ {Totp : Type 0} (env : Env Totp) (show : ℕ → Str) (workspace email code : Str)
    (draw : Draw) where
  -- Who shows the code that was mailed to the address of a user is handed out tokens at once, also
  -- where the user has confirmed a second factor, if the request is well formed, the subject is not
  -- locked, no hook objects, the claims can be signed and the refresh token drawn is a new one.
  pub code_alone :
      (w : World) (db : Identity) (known : User) (access : Str)
      → (env.is_email email && (leb 4 (length code) && leb (length code) 12)) ≡ true
      → lookup workspace w.workspaces ≡ some db
      → check w.attempts (user_subject workspace email) env.policy draw.tracked_at ≡ ok tt
      → (consume env.hash_token db.otps.rows email code draw.now).1 ≡ accepted email
      → find_user_by_email email db.users ≡ some known
      → is_user_totp_enabled known.id db.totps ≡ true
      → dispatch_before_login env workspace (record known { verified = true }) db.apps ≡ ok tt
      → env.sign (
          build_claims known.id TokenRole.user
            (some workspace)
            none
            env.access_ttl
            draw.now
            draw.jti)
        ≡ ok access
      → any (has_hash (env.hash_token draw.issued)) db.tokens ≡ false
      → (login env show workspace email code draw w).1
        ≡ ok (record {
          access_token = access;
          refresh_token = draw.issued;
          user = record { id = known.id; email = known.email; verified = true };
        })
  unfolding login check_lock settle_outcome clear_failures
  code_alone w db known access valid opened unlocked shown found second allowed signed fresh =
      let r = consume env.hash_token db.otps.rows email code draw.now in
      let d : Identity = record db { otps = record (db.otps) { rows = r.0 } } in
      let v : World = record w { workspaces = upsert workspace d w.workspaces } in
      let x : World = record v {
        attempts = note_success v.attempts (user_subject workspace email);
      } in
      let p = issue_tokens_for env workspace email draw x in
      ap (λ (q : World × Result LoginTokens). q.1)
        (goes-read _ w _ tt (ap (λ b. require b (validation env.invalid)) valid)
          ∙ goes _ _ w tt (found-exists workspace w db opened)
          ∙ goes-read _ w
              (check w.attempts (user_subject workspace email) env.policy draw.tracked_at) tt
              unlocked
          ∙ goes _ _ v (accepted email) (consumes w db opened shown)
          ∙ goes _ (x, ok tt) x tt refl
          ∙ goes _ p p.0 _ (λ i. (
            p.0,
            issue_tokens_for-goes env workspace email draw x d known access
                (upserted workspace d w.workspaces) found allowed signed fresh i,
          ))
          ∙ goes _ _ _ tt refl)
    where
      consumes :
          (w : World) (db : Identity)
          → lookup workspace w.workspaces ≡ some db
          → (consume env.hash_token db.otps.rows email code draw.now).1 ≡ accepted email
          → consume_code env workspace email code draw w ≡ (
            record w {
              workspaces =
                  upsert workspace
                    (record db {
                      otps = record (db.otps) {
                        rows = (consume env.hash_token db.otps.rows email code draw.now).0;
                      };
                    })
                    w.workspaces;
            },
            ok (accepted email),
          )
      consumes w db opened shown =
          unfold consume_code in
          (found-execute env workspace w db (consume_in env email code draw) opened
            ∙ ap
                (λ o. write env w workspace db (
                  ok (
                    record db {
                      otps = record (db.otps) {
                        rows = (consume env.hash_token db.otps.rows email code draw.now).0;
                      };
                    },
                    o,
                  )))
                shown)
