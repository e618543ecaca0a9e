-- ===== src/Login/Granted.antt =====
-- Whom the logins of crates/rustbase-api/src/auth/login.rs let in.
use rustbase.Base.{
  ℕ, ◌≡◌, ◌⊎◌, inl, inr, refl, sym, ap, ◌∙◌, Bool, true, false, Str, lookup, upsert, Option, none,
  some, List,
}
use rustbase.Error.{Result, ok, err, unauthorized, ok-same}
use rustbase.Auth.{TokenRole, build_claims}
use rustbase.Lockout.{check, note_success}
use rustbase.Accounts.{User}
use rustbase.OneShot.{OneShot, issue}
use rustbase.RefreshTokens.{RefreshToken, commit_user_login}
use rustbase.LoginState.{Identity, World, Env, Draw, success, nothing, of_subject}
use rustbase.Login.{
  query, check_lock, record_failure, dispatch_before_login, find_user_by_email,
  is_user_totp_enabled, user_subject, user_public, clear_failures, record_audit, audit,
  commit_login, committed, user_access,
}
use rustbase.Login.Passwords.{
  UserLoginResponse, tokens, mfa_required, mfa_challenge_ttl, challenged, verified_or, authenticate,
  user_login, await_code, issue_mfa_challenge, hand_out, proceed,
}
use rustbase.Login.Steps.{
  read-ok, step-ok, Refuses, some_or-ok, passed-ok, record_failure-Refuses, read-found, exists-ok,
  execute-ok,
}

module _ {Totp : Type 0} (env : Env Totp) (workspace email password : Str) (draw : Draw) where
  -- The credentials that a user login goes by, in the state that it finds.
  pub record Credentials (w : World) : Type 0 where
    pub db : Identity
    pub known : User
    pub hash : Str
    pub opened : lookup workspace w.workspaces ≡ some db
    pub found : find_user_by_email email db.users ≡ some known
    pub stored : known.password_hash ≡ some hash
    pub verified : env.verify_password password hash ≡ ok true

  refusal-Refuses :
      {A : Type 0} (w : World)
      → Refuses (
          record_failure env {A = A}
            (some workspace)
            (user_subject workspace email)
            email
            none
            nothing
            unauthorized
            draw
            w)
  refusal-Refuses w =
      record_failure-Refuses (some workspace) (user_subject workspace email) email none nothing
        unauthorized env draw w

  -- The credentials are checked without a write.
  authenticate-ok :
      (w v : World) (known : User)
      → authenticate env workspace email password draw w ≡ (v, ok known)
      → (c : Credentials w) × (c.known ≡ known) × (w ≡ v)
  unfolding authenticate query verified_or
  authenticate-ok w v known h =
      let (users, got, h1) = read-ok _ w v known _ h in
      let (db, opened, same) =
        read-found env (lookup workspace w.workspaces) (λ db. db.users) users got in
      let (u, found, h2) =
        some_or-ok _ w v known _ (refusal-Refuses w) (find_user_by_email email users) h1 in
      let (hash, stored, h3) = some_or-ok _ w v known _ (refusal-Refuses w) u.password_hash h2 in
      let (x, done, passed, h4) = step-ok _ w v known _ h3 in
      let (right, verified, h5) = read-ok _ w x done _ passed in
      let (is_right, unchanged) = passed-ok w _ (refusal-Refuses w) right tt x done h5 in
      (
        record {
          db = db;
          known = u;
          hash = hash;
          opened = opened;
          found = ap (find_user_by_email email) same ∙ found;
          stored = stored;
          verified = verified ∙ ap ok is_right;
        },
        ok-same (ap (λ p. p.1) h4),
        unchanged ∙ ap (λ p. p.0) h4,
      )

  -- What a login leaves that has to wait for the second factor: a challenge.
  pub record Challenged (w w' : World) (c : Credentials w) (resp : UserLoginResponse) : Type 0 where
    pub on : is_user_totp_enabled c.known.id c.db.totps ≡ true
    pub answered : resp ≡ mfa_required draw.challenge
    pub rows : List OneShot
    pub row : OneShot
    pub issued :
        issue env.hash_token env.duplicate c.db.mfa_challenges draw.challenge c.known.id draw.now
          mfa_challenge_ttl
        ≡ ok (rows, row)
    pub left : w' ≡ record w {
      workspaces = upsert workspace (record c.db { mfa_challenges = rows }) w.workspaces;
    }

  -- What a login without a second factor leaves: the failures of the subject are forgotten, the
  -- refresh token is stored, and the login is in the audit log.
  pub record Granted (w w' : World) (c : Credentials w) (resp : UserLoginResponse) : Type 0 where
    pub off : is_user_totp_enabled c.known.id c.db.totps ≡ false
    pub access : Str
    pub signed :
        env.sign (
          build_claims c.known.id TokenRole.user
            (some workspace)
            none
            env.access_ttl
            draw.now
            draw.jti)
        ≡ ok access
    pub answered :
        resp
        ≡ tokens (record {
          access_token = access;
          refresh_token = draw.issued;
          user = user_public c.known;
        })
    pub logins : List (Str × Option ℕ)
    pub rows : List RefreshToken
    pub row : RefreshToken
    pub committed_row :
        commit_user_login env.hash_token env.duplicate c.db.last_logins c.db.tokens c.known.id
          draw.issued draw.now env.refresh_ttl
        ≡ ok ((logins, rows), row)
    pub left :
        w'
        ≡ record_audit
            (some workspace)
            (record {
              outcome = success;
              subject = user_subject workspace email;
              target = c.known.email;
              details = of_subject none c.known.id;
            })
            (record w {
              attempts = note_success w.attempts (user_subject workspace email);
              workspaces =
                  upsert workspace
                    (record c.db { last_logins = logins; tokens = rows })
                    w.workspaces;
            })

  challenged-ok :
      (db db' : Identity) (r : Result (List OneShot × OneShot)) (u : Unit {0})
      → challenged env db r ≡ ok (db', u)
      → (rows : List OneShot) × (row : OneShot) × (r ≡ ok (rows, row))
        × (db' ≡ record db { mfa_challenges = rows })
  challenged-ok db db' (err e) u h = absurd (cc)
  challenged-ok db db' (ok (rows, row)) u h = (rows, row, refl, sym (ap (λ p. p.0) (ok-same h)))

  await_code-Challenged :
      (w w' : World) (c : Credentials w) (resp : UserLoginResponse)
      → is_user_totp_enabled c.known.id c.db.totps ≡ true
      → await_code env workspace draw c.known w ≡ (w', ok resp)
      → Challenged w w' c resp
  unfolding await_code issue_mfa_challenge
  await_code-Challenged w w' c resp on h =
      let (v, t, e, h1) = step-ok _ w w' resp _ h in
      let (x, u, wrote, e1) = step-ok _ w v t _ e in
      let (db, db', opened, went, left) = execute-ok env workspace w x u _ wrote in
      let same : db ≡ c.db = cc (c.opened) in
      let (rows, row, issued, after) = challenged-ok db db' _ u went in
      record {
        on = on;
        answered =
            sym (ok-same (ap (λ p. p.1) h1)) ∙ ap mfa_required (sym (ok-same (ap (λ p. p.1) e1)));
        rows = rows;
        row = row;
        issued =
            ap
              (λ (d : Identity).
                issue env.hash_token env.duplicate d.mfa_challenges draw.challenge c.known.id
                  draw.now mfa_challenge_ttl)
              (sym same)
            ∙ issued;
        left =
            sym (ap (λ p. p.0) h1)
            ∙ sym (ap (λ p. p.0) e1)
            ∙ left
            ∙ ap (λ (d : Identity). record w { workspaces = upsert workspace d w.workspaces })
                (after ∙ ap (λ (d : Identity). record d { mfa_challenges = rows }) same);
      }

  committed-ok :
      (db db' : Identity) (r : Result ((List (Str × Option ℕ) × List RefreshToken) × RefreshToken))
      (u : Unit {0})
      → committed env db r ≡ ok (db', u)
      → (logins : List (Str × Option ℕ)) × (rows : List RefreshToken) × (row : RefreshToken) × (r
          ≡ ok ((logins, rows), row))
        × (db' ≡ record db { last_logins = logins; tokens = rows })
  committed-ok db db' (err e) u h = absurd (cc)
  committed-ok db db' (ok ((logins, rows), row)) u h =
      (logins, rows, row, refl, sym (ap (λ p. p.0) (ok-same h)))

  hand_out-Granted :
      (w v w' : World) (c : Credentials w) (resp : UserLoginResponse)
      → is_user_totp_enabled c.known.id c.db.totps ≡ false
      → v ≡ record w { attempts = note_success w.attempts (user_subject workspace email) }
      → hand_out env workspace (user_subject workspace email) draw c.known v ≡ (w', ok resp)
      → Granted w w' c resp
  unfolding hand_out user_access commit_login audit
  hand_out-Granted w v w' c resp off cleared h =
      let (access, signed, h1) = read-ok _ v w' resp _ h in
      let (x, u, wrote, h2) = step-ok _ v w' resp _ h1 in
      let (y, t, logged, h3) = step-ok _ x w' resp _ h2 in
      let (db, db', opened, went, left) = execute-ok env workspace v x u _ wrote in
      let same_rows : v.workspaces ≡ w.workspaces = ap (λ (s : World). s.workspaces) cleared in
      let same : db ≡ c.db = cc (c.opened) in
      let (logins, rows, row, stored, after) = committed-ok db db' _ u went in
      record {
        off = off;
        access = access;
        signed = signed;
        answered = sym (ok-same (ap (λ p. p.1) h3));
        logins = logins;
        rows = rows;
        row = row;
        committed_row =
            ap
              (λ (d : Identity).
                commit_user_login env.hash_token env.duplicate d.last_logins d.tokens c.known.id
                  draw.issued draw.now env.refresh_ttl)
              (sym same)
            ∙ stored;
        left =
            sym (ap (λ p. p.0) h3)
            ∙ sym (ap (λ p. p.0) logged)
            ∙ ap
                (record_audit (some workspace) (record {
                  outcome = success;
                  subject = user_subject workspace email;
                  target = c.known.email;
                  details = of_subject none c.known.id;
                }))
                (left
                  ∙ ap (λ (s : World). record s { workspaces = upsert workspace db' s.workspaces })
                      cleared
                  ∙ ap
                      (λ (d : Identity). record w {
                        attempts = note_success w.attempts (user_subject workspace email);
                        workspaces = upsert workspace d w.workspaces;
                      })
                      (after
                        ∙ ap (λ (d : Identity). record d { last_logins = logins; tokens = rows })
                            same));
      }

  proceed-ok :
      (w w' : World) (c : Credentials w) (resp : UserLoginResponse) (b : Bool)
      → is_user_totp_enabled c.known.id c.db.totps ≡ b
      → proceed env workspace (user_subject workspace email) draw c.known b w ≡ (w', ok resp)
      → (dispatch_before_login env workspace c.known c.db.apps ≡ ok tt)
        × (Granted w w' c resp ⊎ Challenged w w' c resp)
  unfolding proceed query clear_failures
  proceed-ok w w' c resp true on h =
      let (u, e, h1) = read-ok _ w w' resp (ok tt) h in
      let (apps, got, h2) = read-ok _ w w' resp _ h1 in
      let (db, opened, same) =
        read-found env (lookup workspace w.workspaces) (λ db. db.apps) apps got in
      let (t, allowed, h3) = read-ok _ w w' resp _ h2 in
      let same_db : db ≡ c.db = cc (c.opened) in
      (
        ap (λ (d : Identity). dispatch_before_login env workspace c.known d.apps) (sym same_db)
            ∙ ap (dispatch_before_login env workspace c.known) same
            ∙ allowed,
        inr (await_code-Challenged w w' c resp on h3),
      )
  proceed-ok w w' c resp false off h =
      let (v, u, cleared, h1) = step-ok _ w w' resp _ h in
      let (apps, got, h2) = read-ok _ v w' resp _ h1 in
      let (db, opened, same) =
        read-found env (lookup workspace v.workspaces) (λ db. db.apps) apps got in
      let (t, allowed, h3) = read-ok _ v w' resp _ h2 in
      let left : v
          ≡ record w { attempts = note_success w.attempts (user_subject workspace email) } =
        sym (ap (λ p. p.0) cleared) in
      let same_rows : v.workspaces ≡ w.workspaces = ap (λ (s : World). s.workspaces) left in
      let same_db : db ≡ c.db = cc (c.opened) in
      (
        ap (λ (d : Identity). dispatch_before_login env workspace c.known d.apps) (sym same_db)
            ∙ ap (dispatch_before_login env workspace c.known) same
            ∙ allowed,
        inl (hand_out-Granted w v w' c resp off left h3),
      )

  -- A user login that is answered went through an unlocked subject, an existing workspace, the
  -- password of the user with that email, and the hooks of every app. It hands out tokens exactly
  -- where the user has no second factor, and else a challenge, with which nothing but its row is
  -- written and the failures of the subject stay.
  pub user_login-Granted :
      (w w' : World) (resp : UserLoginResponse)
      → user_login env workspace email password draw w ≡ (w', ok resp)
      → (c : Credentials w) × (check w.attempts
            (user_subject workspace email)
            env.policy
            draw.tracked_at
          ≡ ok tt)
        × (dispatch_before_login env workspace c.known c.db.apps ≡ ok tt)
        × (Granted w w' c resp ⊎ Challenged w w' c resp)
  unfolding user_login query check_lock
  user_login-Granted w w' resp h =
      let (valid, is_valid, h1) = read-ok _ w w' resp _ h in
      let (free, unlocked, h2) = read-ok _ w w' resp _ h1 in
      let (db0, exists, h3) = exists-ok _ w w' resp workspace h2 in
      let (v, known, checked, h4) = step-ok _ w w' resp _ h3 in
      let (c, same_user, unchanged) = authenticate-ok w v known checked in
      let (rows, got, h5) = read-ok _ v w' resp _ h4 in
      let (db, opened, same) =
        read-found env (lookup workspace v.workspaces) (λ db. db.totps) rows got in
      let same_db : db ≡ c.db = cc (c.opened) in
      let same_rows : rows ≡ c.db.totps = sym same ∙ ap (λ (d : Identity). d.totps) same_db in
      let (allowed, outcome) =
        proceed-ok w w' c resp (is_user_totp_enabled c.known.id c.db.totps) refl (
          ap (λ (b : Bool). proceed env workspace (user_subject workspace email) draw c.known b w)
            (sym (ap (is_user_totp_enabled c.known.id) same_rows))
          ∙ ap
              (λ (u : User).
                proceed env workspace (user_subject workspace email) draw u
                  (is_user_totp_enabled u.id rows) w)
              same_user
          ∙ ap
              (proceed env workspace (user_subject workspace email) draw known
                (is_user_totp_enabled known.id rows))
              unchanged
          ∙ h5) in
      (c, unlocked, allowed, outcome)
