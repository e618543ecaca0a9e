-- ===== src/Login/TwoSteps.antt =====
-- A login in two steps comes to its end: `user_login` and `login_totp` of
-- crates/rustbase-api/src/auth.
use rustbase.Login.Goes.{
  redeem_challenge-goes, enter_code-goes, hand_out_second-goes, consume-challenge,
}
use rustbase.Base.{
  ◌+◌, ◌<◌, ◌≡◌, sym, ap, ◌∙◌, true, false, Str, lookup, upsert, any, ◌⊎◌, inl, inr, none, some,
  List,
}
use rustbase.Error.{Result, ok}
use rustbase.Auth.{TokenRole, build_claims}
use rustbase.Lockout.{check, note_success}
use rustbase.Accounts.{User, find_user_by_id}
use rustbase.OneShot.{consumed, consume}
use rustbase.RefreshTokens.{has_hash}
use rustbase.LoginState.{Identity, World, Env, Draw, UserTotp}
use rustbase.Login.{
  LoginTokens, find_totp, find_user_by_email, is_user_totp_enabled, enabled_row, user_subject,
  user_public,
}
use rustbase.Login.Passwords.{mfa_required, user_login}
use rustbase.Login.Totp.{secret_from_storage, login_totp}
use rustbase.Login.Steps.{goes}
use rustbase.Login.Holds.{upserted}
use rustbase.Login.Granted.{Credentials, Challenged, Granted, user_login-Granted}

module _ {Totp : Type 0} (env : Env Totp) (workspace email password : Str) (draw later : Draw) where
  enabled-row :
      (id : Str) (rows : List UserTotp) (row : UserTotp)
      → find_totp id rows ≡ some row
      → is_user_totp_enabled id rows ≡ true
      → row.enabled ≡ true
  unfolding is_user_totp_enabled
  enabled-row id rows row there on = ap enabled_row (sym there) ∙ on

  -- The second step after a password that was right: if the code is right, it comes inside five
  -- minutes, the subject is not locked, the secret can be read, the claims can be signed and the
  -- refresh token drawn is a new one, then the login ends with tokens for the user.
  pub two_steps :
      (w w' : World) (db : Identity) (known : User) (row : UserTotp)
      (challenge code secret access : Str) (totp : Totp)
      → lookup workspace w.workspaces ≡ some db
      → find_user_by_email email db.users ≡ some known
      → find_user_by_id db.users known.id ≡ some known
      → find_totp known.id db.totps ≡ some row
      → user_login env workspace email password draw w ≡ (w', ok (mfa_required challenge))
      → later.now < draw.now + 300
      → check w.attempts (user_subject workspace known.email) env.policy later.tracked_at ≡ ok tt
      → secret_from_storage env row.secret ≡ ok secret
      → env.build_totp secret workspace known.email ≡ ok totp
      → env.check_current totp code later.now ≡ ok true
      → env.sign (
          build_claims known.id TokenRole.user
            (some workspace)
            none
            env.access_ttl
            later.now
            later.jti)
        ≡ ok access
      → any (has_hash (env.hash_token later.issued)) db.tokens ≡ false
      → (login_totp env workspace challenge code later w').1
        ≡ ok (record {
          access_token = access;
          refresh_token = later.issued;
          user = user_public known;
        })
  unfolding login_totp
  two_steps w w' db known row challenge code secret access totp opened found by_id there first soon
        unlocked read_back built right signed fresh =
      let (c, free, allowed, outcome) =
        user_login-Granted env workspace email password draw w w' (mfa_required challenge) first in
      second c outcome
    where
      second :
          (c : Credentials env workspace email password draw w)
          → Granted env workspace email password draw w w' c (mfa_required challenge)
            ⊎ Challenged env workspace email password draw w w' c (mfa_required challenge)
          → (login_totp env workspace challenge code later w').1
            ≡ ok (record {
              access_token = access;
              refresh_token = later.issued;
              user = user_public known;
            })
      second c (inl g) = let e = g.answered in absurd (cc)
      second c (inr g) =
          let e = c.opened in
          let same_db : c.db ≡ db = cc in
          let f = c.found in
          let same : c.known ≡ known = cc in
          let same_token : challenge ≡ draw.challenge = let a = g.answered in cc in
          let d : Identity = record (c.db) { mfa_challenges = g.rows } in
          let reopened : lookup workspace w'.workspaces ≡ some d =
            ap (λ (x : World). lookup workspace x.workspaces) g.left
            ∙ upserted workspace d w.workspaces in
          let spent = consume env.hash_token g.rows challenge later.now in
          let redeemed : spent.1 ≡ consumed known.id =
            ap (λ x. (consume env.hash_token g.rows x later.now).1) same_token
            ∙ consume-challenge env.hash_token env.duplicate c.db.mfa_challenges g.rows
                draw.challenge c.known.id g.row draw.now later.now g.issued soon
            ∙ ap (λ (u : User). consumed u.id) same in
          let on : row.enabled ≡ true = enabled-row known.id db.totps row there (
            ap (λ (u : User). is_user_totp_enabled u.id db.totps) (sym same)
            ∙ ap (λ (x : Identity). is_user_totp_enabled c.known.id x.totps) (sym same_db)
            ∙ g.on) in
          let d' : Identity = record d { mfa_challenges = spent.0 } in
          let v : World = record w' { workspaces = upsert workspace d' w'.workspaces } in
          let x : World = record v {
            attempts = note_success v.attempts (user_subject workspace known.email);
          } in
          let same_attempts : w.attempts ≡ w'.attempts =
            ap (λ (y : World). y.attempts) (sym g.left) in
          ap (λ (p : World × Result LoginTokens). p.1)
            (goes _ _ v (row, known)
                (redeem_challenge-goes env workspace challenge later w' d spent.0 known.id row known
                  reopened (λ i. (spent.0, redeemed i))
                  (ap (λ (y : Identity). find_totp known.id y.totps) same_db ∙ there) on
                  (ap (λ (y : Identity). find_user_by_id y.users known.id) same_db ∙ by_id))
              ∙ goes _ _ x tt (
                  enter_code-goes env workspace code later v known row secret totp
                    (ap
                        (λ a.
                          check a (user_subject workspace known.email) env.policy later.tracked_at)
                        (sym same_attempts)
                      ∙ unlocked)
                    read_back built right))
          ∙ hand_out_second-goes env workspace later x known d' access
              (upserted workspace d' w'.workspaces) signed
              (ap (λ (y : Identity). any (has_hash (env.hash_token later.issued)) y.tokens) same_db
                ∙ fresh)
