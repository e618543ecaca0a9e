-- ===== src/Login/Shown.antt =====
-- What a second step of crates/rustbase-api/src/auth/totp.rs that is answered has been shown.
use rustbase.Base.{
  ◌≡◌, refl, sym, ap, ◌∙◌, Bool, true, Str, str_eq_iff, lookup, some, List, [], ◌∷◌, codes, arith,
}
use rustbase.Error.{ok, unauthorized, ok-same, conflict}
use rustbase.Lockout.{check}
use rustbase.Accounts.{User, find_user_by_id}
use rustbase.OneShot.{ConsumeOutcome, consumed, unknown, already_consumed, expired, consume}
use rustbase.LoginState.{Identity, World, Env, Draw, UserTotp}
use rustbase.Login.{query, find_totp, user_subject}
use rustbase.Login.Totp.{secret_from_storage, check_code, challenge_user, enrolled}
use rustbase.Login.Steps.{read-ok, some_or-ok, test-ok, read-found}

pub user_of : (o : ConsumeOutcome) (id : Str) → challenge_user o ≡ ok id → o ≡ consumed id
unfolding challenge_user
user_of (consumed u) id h = ap consumed (ok-same h)
user_of unknown id h = absurd (cc)
user_of already_consumed id h = absurd (cc)
user_of expired id h = absurd (cc)

pub id-find_totp :
    (id : Str) (rows : List UserTotp) (r : UserTotp) → find_totp id rows ≡ some r → r.user_id ≡ id
unfolding find_totp
id-find_totp id [] r e = cc
id-find_totp id (q ∷ rows) r e = ground (arith, id-find_totp id rows r, str_eq_iff q.user_id id)

module _ {Totp : Type 0} (env : Env Totp) (workspace mfa_token code : Str) (draw : Draw) where
  -- What a second step goes by, in the state that it finds.
  pub record Shown (w : World) : Type 0 where
    pub db : Identity
    pub known : User
    pub row : UserTotp
    pub secret : Str
    pub totp : Totp
    pub opened : lookup workspace w.workspaces ≡ some db
    pub redeemed :
        (consume env.hash_token db.mfa_challenges mfa_token draw.now).1 ≡ consumed row.user_id
    pub found : find_user_by_id db.users row.user_id ≡ some known
    pub second_factor : find_totp row.user_id db.totps ≡ some row
    pub on : row.enabled ≡ true
    pub unlocked :
        check w.attempts (user_subject workspace known.email) env.policy draw.tracked_at ≡ ok tt
    pub read_back : secret_from_storage env row.secret ≡ ok secret
    pub built : env.build_totp secret workspace known.email ≡ ok totp
    pub right : env.check_current totp code draw.now ≡ ok true

  -- The rows of the user, which are read without a write.
  pub enrolled-ok :
      (w v : World) (id : Str) (row : UserTotp) (known : User)
      → enrolled env workspace id w ≡ (v, ok (row, known))
      → (db : Identity) × (lookup workspace w.workspaces ≡ some db)
        × (find_totp id db.totps ≡ some row)
        × (row.enabled ≡ true)
        × (find_user_by_id db.users id ≡ some known)
        × (w ≡ v)
  unfolding enrolled query
  enrolled-ok w v id row known h =
      let (rows, got, h1) = read-ok _ w v (row, known) _ h in
      let (db, opened, same) =
        read-found env (lookup workspace w.workspaces) (λ db. db.totps) rows got in
      let (r, there, h2) =
        some_or-ok _ w v (row, known) _ (unauthorized, refl) (find_totp id rows) h1 in
      let (on, h3) =
        test-ok _ w v (row, known) _ (conflict (codes "TOTP not enabled — restart login"), refl)
          r.enabled tt h2 in
      let (users, listed, h4) = read-ok _ w v (row, known) _ h3 in
      let (db', opened', same') =
        read-found env (lookup workspace w.workspaces) (λ db. db.users) users listed in
      let (u, found, h5) =
        some_or-ok _ w v (row, known) _ (unauthorized, refl) (find_user_by_id users id) h4 in
      let both : ◌≡◌ {A = UserTotp × User} (r, u) (row, known) = ok-same (ap (λ p. p.1) h5) in
      let same_row : r ≡ row = ap (λ p. p.0) both in
      let same_user : u ≡ known = ap (λ p. p.1) both in
      let same_db : db' ≡ db = cc in
      (
        db,
        opened,
        ap (find_totp id) same ∙ there ∙ ap some same_row,
        ap (λ (t : UserTotp). t.enabled) (sym same_row) ∙ on,
        ap (λ (d : Identity). find_user_by_id d.users id) (sym same_db)
            ∙ ap (λ us. find_user_by_id us id) same'
            ∙ found
            ∙ ap some same_user,
        ap (λ p. p.0) h5,
      )

  pub check_code-ok :
      (w v : World) (known : User) (row : UserTotp) (right : Bool)
      → check_code env workspace known row code draw w ≡ (v, ok right)
      → (secret : Str) × (totp : Totp) × (secret_from_storage env row.secret ≡ ok secret)
        × (env.build_totp secret workspace known.email ≡ ok totp)
        × (env.check_current totp code draw.now ≡ ok right)
        × (w ≡ v)
  unfolding check_code
  check_code-ok w v known row right h =
      let (secret, read_back, h1) = read-ok _ w v right _ h in
      let (totp, built, h2) = read-ok _ w v right _ h1 in
      (secret, totp, read_back, built, ap (λ p. p.1) h2, ap (λ p. p.0) h2)
