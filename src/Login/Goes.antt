-- ===== src/Login/Goes.antt =====
-- The steps of the second half of a login, where nothing stands in its way.
use rustbase.Base.{
  ℕ, ◌+◌, ◌<◌, ◌≡◌, refl, ap, ◌∙◌, true, false, leb, Str, lookup, upsert, any, none, some, List,
  if◌then◌else◌, arith,
}
use rustbase.Error.{Result, ok}
use rustbase.Auth.{TokenRole, build_claims}
use rustbase.Lockout.{check, note_success}
use rustbase.Accounts.{User, find_user_by_id}
use rustbase.OneShot.{OneShot, ConsumeOutcome, consumed, expired, issue, consume}
use rustbase.OneShot.Laws.{consume-issue}
use rustbase.RefreshTokens.{has_hash, insert_row, commit_user_login}
use rustbase.LoginState.{Identity, World, Env, Draw, UserTotp}
use rustbase.Login.{
  LoginTokens, find_totp, user_subject, user_public, check_lock, clear_failures, commit_login,
  committing, write, user_access,
}
use rustbase.Login.Passwords.{mfa_challenge_ttl}
use rustbase.Login.Totp.{
  secret_from_storage, check_code, challenge_user, consume_in, consume_challenge, enrolled,
  redeem_challenge, enter_code, hand_out_second,
}
use rustbase.Login.Steps.{
  goes, goes-read, goes-some, goes-test, found-exists, found-execute, found-query,
}
use rustbase.Login.Holds.{upserted}

module _ {Totp : Type 0} (env : Env Totp) (workspace : Str) where
  enrolled-goes :
      (w : World) (db : Identity) (id : Str) (row : UserTotp) (known : User)
      → lookup workspace w.workspaces ≡ some db
      → find_totp id db.totps ≡ some row
      → row.enabled ≡ true
      → find_user_by_id db.users id ≡ some known
      → enrolled env workspace id w ≡ (w, ok (row, known))
  unfolding enrolled
  enrolled-goes w db id row known opened there on found =
      goes _ _ w db.totps (found-query env workspace w db (λ db. db.totps) opened)
      ∙ goes-some _ _ w (find_totp id db.totps) row there
      ∙ goes-test _ _ w row.enabled tt on
      ∙ goes _ _ w db.users (found-query env workspace w db (λ db. db.users) opened)
      ∙ goes-some _ _ w (find_user_by_id db.users id) known found

  consume_challenge-goes :
      (mfa_token : Str) (draw : Draw) (w : World) (db : Identity) (rows : List OneShot) (id : Str)
      → lookup workspace w.workspaces ≡ some db
      → consume env.hash_token db.mfa_challenges mfa_token draw.now ≡ (rows, consumed id)
      → consume_challenge env workspace mfa_token draw w ≡ (
        record w {
          workspaces = upsert workspace (record db { mfa_challenges = rows }) w.workspaces;
        },
        ok (consumed id),
      )
  unfolding consume_challenge
  consume_challenge-goes mfa_token draw w db rows id opened spent =
      found-execute env workspace w db (consume_in env mfa_token draw) opened
      ∙ ap
          (λ (r : List OneShot × ConsumeOutcome).
            write env w workspace db (ok (record db { mfa_challenges = r.0 }, r.1)))
          spent

  -- The tokens are stored where the hash of the new one is not there yet.
  pub commit_login-goes :
      (draw : Draw) (w : World) (known : User) (db : Identity)
      → lookup workspace w.workspaces ≡ some db
      → any (has_hash (env.hash_token draw.issued)) db.tokens ≡ false
      → (commit_login env workspace known.id draw w).1 ≡ ok tt
  unfolding commit_login commit_user_login insert_row
  commit_login-goes draw w known db opened fresh =
      ap (λ (p : World × Result (Unit {0})). p.1)
        (found-execute env workspace w db (committing env known.id draw) opened)
      ∙ stored
    where
      stored : (write env w workspace db (committing env known.id draw db)).1 ≡ ok tt
      stored = rw fresh refl

  pub redeem_challenge-goes :
      (mfa_token : Str) (draw : Draw) (w : World) (db : Identity) (rows : List OneShot) (id : Str)
      (row : UserTotp) (known : User)
      → lookup workspace w.workspaces ≡ some db
      → consume env.hash_token db.mfa_challenges mfa_token draw.now ≡ (rows, consumed id)
      → find_totp id db.totps ≡ some row
      → row.enabled ≡ true
      → find_user_by_id db.users id ≡ some known
      → redeem_challenge env workspace mfa_token draw w ≡ (
        record w {
          workspaces = upsert workspace (record db { mfa_challenges = rows }) w.workspaces;
        },
        ok (row, known),
      )
  unfolding redeem_challenge
  redeem_challenge-goes mfa_token draw w db rows id row known opened spent there on found =
      let d : Identity = record db { mfa_challenges = rows } in
      let v : World = record w { workspaces = upsert workspace d w.workspaces } in
      goes _ _ w tt (found-exists workspace w db opened)
      ∙ goes _ _ v (consumed id) (consume_challenge-goes mfa_token draw w db rows id opened spent)
      ∙ goes-read _ v (challenge_user (consumed id)) id (unfold challenge_user in refl)
      ∙ enrolled-goes v d id row known (upserted workspace d w.workspaces) there on found

  pub enter_code-goes :
      (code : Str) (draw : Draw) (w : World) (known : User) (row : UserTotp) (secret : Str)
      (totp : Totp)
      → check w.attempts (user_subject workspace known.email) env.policy draw.tracked_at ≡ ok tt
      → secret_from_storage env row.secret ≡ ok secret
      → env.build_totp secret workspace known.email ≡ ok totp
      → env.check_current totp code draw.now ≡ ok true
      → enter_code env workspace code known row draw w ≡ (
        record w { attempts = note_success w.attempts (user_subject workspace known.email) },
        ok tt,
      )
  unfolding enter_code check_lock clear_failures
  enter_code-goes code draw w known row secret totp unlocked read_back built right =
      goes-read _ w
        (check w.attempts (user_subject workspace known.email) env.policy draw.tracked_at) tt
        unlocked
      ∙ goes _ _ w true (
          unfold check_code in
          (goes-read _ w (secret_from_storage env row.secret) secret read_back
            ∙ goes-read _ w (env.build_totp secret workspace known.email) totp built
            ∙ ap (λ r. (w, r)) right))
      ∙ goes-read _ w (ok tt) tt refl

  pub hand_out_second-goes :
      (draw : Draw) (w : World) (known : User) (db : Identity) (access : Str)
      → lookup workspace w.workspaces ≡ some db
      → env.sign (
          build_claims known.id TokenRole.user
            (some workspace)
            none
            env.access_ttl
            draw.now
            draw.jti)
        ≡ ok access
      → any (has_hash (env.hash_token draw.issued)) db.tokens ≡ false
      → (hand_out_second env workspace known draw w).1
        ≡ ok (record {
          access_token = access;
          refresh_token = draw.issued;
          user = user_public known;
        })
  unfolding hand_out_second user_access
  hand_out_second-goes draw w known db access opened signed fresh =
      let p = commit_login env workspace known.id draw w in
      ap (λ (r : World × Result LoginTokens). r.1)
        (goes-read _ w
            (env.sign (
              build_claims known.id TokenRole.user (some workspace) none env.access_ttl draw.now
                draw.jti))
            access signed
          ∙ goes _ p p.0 tt (λ i. (p.0, commit_login-goes draw w known db opened fresh i))
          ∙ goes _ _ _ tt refl)

-- The statement of a challenge that was issued: it redeems for the user until its time is up.
pub consume-challenge :
    (hash_token : Str → Str) (duplicate : Str) (t rows : List OneShot) (token user : Str)
    (row : OneShot) (now later : ℕ)
    → issue hash_token duplicate t token user now mfa_challenge_ttl ≡ ok (rows, row)
    → later < now + 300
    → (consume hash_token rows token later).1 ≡ consumed user
consume-challenge hash_token duplicate t rows token user row now later issued soon =
    consume-issue hash_token duplicate t rows token user row now mfa_challenge_ttl later issued
    ∙ ap (λ b. if b then expired else consumed user) (not_yet (now + 300) later soon)
  where
    not_yet : (a b : ℕ) → b < a → leb a b ≡ false
    not_yet a b h = ground arith
