-- ===== src/Login/SecondStep.antt =====
-- What the second step of a login, `login_totp` of crates/rustbase-api/src/auth/totp.rs, asks for.
use rustbase.Login.Shown.{user_of, id-find_totp, Shown, enrolled-ok, check_code-ok}
use rustbase.Login.Holds.{Holds, upserted, audit-Holds, commit_login-Holds, spent-refused}
use rustbase.Base.{◌≡◌, refl, sym, ap, subst, ◌∙◌, true, Str, lookup, upsert, some, List, codes}
use rustbase.Error.{Result, ok, err, unauthorized, ok-same}
use rustbase.Lockout.{check}
use rustbase.Accounts.{User, find_user_by_id}
use rustbase.OneShot.{OneShot, ConsumeOutcome, consumed, consume}
use rustbase.OneShot.Laws.{consume_twice}
use rustbase.LoginState.{Identity, World, Env, Draw, UserTotp, of_flow}
use rustbase.Login.{
  LoginTokens, check_lock, find_totp, user_subject, user_public, clear_failures, user_access,
}
use rustbase.Login.Totp.{
  secret_from_storage, consume_in, consume_challenge, redeem_challenge, enter_code, hand_out_second,
  login_totp,
}
use rustbase.Login.Steps.{read-ok, step-ok, test-ok, record_failure-Refuses, exists-ok, execute-ok}

module _ {Totp : Type 0} (env : Env Totp) (workspace mfa_token code : Str) (draw : Draw) where
  consumed-Holds :
      (w v : World) (o : ConsumeOutcome)
      → consume_challenge env workspace mfa_token draw w ≡ (v, ok o)
      → (db : Identity) × (lookup workspace w.workspaces ≡ some db)
        × ((consume env.hash_token db.mfa_challenges mfa_token draw.now).1 ≡ o)
        × (v ≡ record w {
          workspaces =
              upsert workspace
                (record db {
                  mfa_challenges = (consume env.hash_token db.mfa_challenges mfa_token draw.now).0;
                })
                w.workspaces;
        })
  unfolding consume_challenge
  consumed-Holds w v o h =
      let (db, db', opened, went, left) =
        execute-ok env workspace w v o (consume_in env mfa_token draw) h in
      let r = consume env.hash_token db.mfa_challenges mfa_token draw.now in
      let both : (record db { mfa_challenges = r.0 }, r.1) ≡ (db', o) = ok-same went in
      (
        db,
        opened,
        ap (λ p. p.1) both,
        left
            ∙ ap (λ (d : Identity). record w { workspaces = upsert workspace d w.workspaces })
                (sym (ap (λ p. p.0) both)),
      )

  redeem_challenge-ok :
      (w v : World) (row : UserTotp) (known : User)
      → redeem_challenge env workspace mfa_token draw w ≡ (v, ok (row, known))
      → (db : Identity) × (lookup workspace w.workspaces ≡ some db)
        × ((consume env.hash_token db.mfa_challenges mfa_token draw.now).1 ≡ consumed row.user_id)
        × (find_totp row.user_id db.totps ≡ some row)
        × (row.enabled ≡ true)
        × (find_user_by_id db.users row.user_id ≡ some known)
        × (v.attempts ≡ w.attempts)
        × (Holds v workspace (consume env.hash_token db.mfa_challenges mfa_token draw.now).0)
  unfolding redeem_challenge
  redeem_challenge-ok w v row known h =
      let (db0, exists, h1) = exists-ok _ w v (row, known) workspace h in
      let (x, o, spent, h2) = step-ok _ w v (row, known) _ h1 in
      let (id, for_user, h3) = read-ok _ x v (row, known) _ h2 in
      let (db, opened, redeemed, left) = consumed-Holds w x o spent in
      let d : Identity = record db {
        mfa_challenges = (consume env.hash_token db.mfa_challenges mfa_token draw.now).0;
      } in
      let (d', opened', there, on, found, unchanged) =
        enrolled-ok env workspace mfa_token code draw x v id row known h3 in
      let reopened : lookup workspace x.workspaces ≡ some d =
        ap (λ (s : World). lookup workspace s.workspaces) left
        ∙ upserted workspace d w.workspaces in
      let same : d' ≡ d = cc in
      let same_id : id ≡ row.user_id = sym (id-find_totp id d'.totps row there) in
      let there' : find_totp row.user_id db.totps ≡ some row =
        ap (λ i. find_totp i db.totps) (sym same_id)
        ∙ ap (λ (e : Identity). find_totp id e.totps) (sym same)
        ∙ there in
      let found' : find_user_by_id db.users row.user_id ≡ some known =
        ap (find_user_by_id db.users) (sym same_id)
        ∙ ap (λ (e : Identity). find_user_by_id e.users id) (sym same)
        ∙ found in
      (
        db,
        opened,
        redeemed ∙ user_of o id for_user ∙ ap consumed same_id,
        there',
        on,
        found',
        ap (λ (s : World). s.attempts) (sym unchanged) ∙ ap (λ (s : World). s.attempts) left,
        (d, ap (λ (s : World). lookup workspace s.workspaces) (sym unchanged) ∙ reopened, refl),
      )

  enter_code-ok :
      (w v : World) (known : User) (row : UserTotp) (u : Unit {0})
      → enter_code env workspace code known row draw w ≡ (v, ok u)
      → (check w.attempts (user_subject workspace known.email) env.policy draw.tracked_at ≡ ok tt)
        × (secret : Str) × (totp : Totp) × (secret_from_storage env row.secret ≡ ok secret)
        × (env.build_totp secret workspace known.email ≡ ok totp)
        × (env.check_current totp code draw.now ≡ ok true)
        × (v.workspaces ≡ w.workspaces)
  unfolding enter_code check_lock clear_failures
  enter_code-ok w v known row u h =
      let (t, unlocked, h1) = read-ok _ w v u _ h in
      let (x, right, checked, h2) = step-ok _ w v u _ h1 in
      let (is_right, h3) =
        test-ok _ x v u _
          (record_failure-Refuses (some workspace) (user_subject workspace known.email) known.email
            (some (codes "totp")) (of_flow (codes "totp")) unauthorized env draw x)
          right tt h2 in
      let (secret, totp, read_back, built, answered, unchanged) =
        check_code-ok env workspace mfa_token code draw w x known row right checked in
      (
        unlocked,
        secret,
        totp,
        read_back,
        built,
        answered ∙ ap ok is_right,
        sym (ap (λ (p : World × Result (Unit {0})). p.0.workspaces) h3)
            ∙ ap (λ (s : World). s.workspaces) (sym unchanged),
      )

  hand_out_second-ok :
      (rows : List OneShot) (w v : World) (known : User) (resp : LoginTokens)
      → Holds w workspace rows
      → hand_out_second env workspace known draw w ≡ (v, ok resp)
      → (resp.user ≡ user_public known) × Holds v workspace rows
  unfolding hand_out_second user_access
  hand_out_second-ok rows w v known resp m h =
      let (access, signed, h1) = read-ok _ w v resp _ h in
      let (x, t, stored, h2) = step-ok _ w v resp _ h1 in
      let (y, t', logged, h3) = step-ok _ x v resp _ h2 in
      (
        sym (ap (λ (r : LoginTokens). r.user) (ok-same (ap (λ p. p.1) h3))),
        subst (λ s. Holds s workspace rows) (ap (λ p. p.0) h3)
            (audit-Holds env workspace rows _ x y t'
              (commit_login-Holds env workspace rows known.id draw w x t m stored) logged),
      )

  -- A second step that is answered redeemed a challenge of the workspace, showed the right code for
  -- the confirmed authenticator of the challenge's user, whose subject was not locked, and hands
  -- out tokens to that user. From then on the challenge is refused, whatever the code.
  pub login_totp-Shown :
      (w w' : World) (resp : LoginTokens)
      → login_totp env workspace mfa_token code draw w ≡ (w', ok resp)
      → (s : Shown env workspace mfa_token code draw w) × (resp.user ≡ user_public s.known)
        × ((other : Str) (later : Draw)
            → (login_totp env workspace mfa_token other later w').1 ≡ err unauthorized)
  unfolding login_totp
  login_totp-Shown w w' resp h =
      let (v, (row, known), redeemed, h1) = step-ok _ w w' resp _ h in
      let (x, u, entered, h2) = step-ok _ v w' resp _ h1 in
      let (db, opened, spent, there, on, found, attempts, holds) =
        redeem_challenge-ok w v row known redeemed in
      let (unlocked, secret, totp, read_back, built, right, kept) =
        enter_code-ok v x known row u entered in
      let rows = (consume env.hash_token db.mfa_challenges mfa_token draw.now).0 in
      let (d, e, m) = holds in
      let (answered, held) =
        hand_out_second-ok rows x w' known resp (d, ap (lookup workspace) kept ∙ e, m) h2 in
      (
        record {
          db = db;
          known = known;
          row = row;
          secret = secret;
          totp = totp;
          opened = opened;
          redeemed = spent;
          found = found;
          second_factor = there;
          on = on;
          unlocked =
              ap (λ a. check a (user_subject workspace known.email) env.policy draw.tracked_at)
                (sym attempts)
              ∙ unlocked;
          read_back = read_back;
          built = built;
          right = right;
        },
        answered,
        λ other later. spent-refused env workspace rows mfa_token other later w' held (
            ap (λ (p : List OneShot × ConsumeOutcome). p.1)
              (consume_twice env.hash_token db.mfa_challenges mfa_token row.user_id draw.now
                later.now spent)),
      )
