-- ===== src/Login/Holds.antt =====
-- That what a login writes keeps the challenges of its workspace.
use rustbase.Base.{
  ℕ, ◌≡◌, refl, sym, ap, ◌∙◌, Str, str_eq_refl, lookup, upsert, lookup-upsert, Option, some, List,
  [], ◌∷◌, ◌++◌, if◌then◌else◌,
}
use rustbase.Error.{Result, ok, err, unauthorized, ok-same}
use rustbase.OneShot.{OneShot, already_consumed, consume}
use rustbase.RefreshTokens.{RefreshToken}
use rustbase.LoginState.{Identity, World, Env, Draw, AuthEvent}
use rustbase.Login.{committed, record_audit, audit, commit_login}
use rustbase.Login.Totp.{
  challenge_user, consume_in, consume_challenge, redeem_challenge, login_totp,
}
use rustbase.Login.Steps.{execute-ok, on-ok, on-err, then-err, found-execute, found-exists}

-- The challenges of a workspace are these.
abbrev pub Holds : World → Str → List OneShot → Type 0
Holds w workspace rows =
    (d : Identity) × (lookup workspace w.workspaces ≡ some d) × (d.mfa_challenges ≡ rows)

pub upserted :
    (workspace : Str) (d : Identity) (dbs : List (Str × Identity))
    → lookup workspace (upsert workspace d dbs) ≡ some d
upserted workspace d dbs =
    lookup-upsert workspace workspace d dbs
    ∙ ap (λ b. if b then some d else lookup workspace dbs) (str_eq_refl workspace)

module _ {Totp : Type 0} (env : Env Totp) (workspace : Str) (rows : List OneShot) where
  pub audit-Holds :
      (event : AuthEvent) (w v : World) (u : Unit {0})
      → Holds w workspace rows
      → audit (some workspace) event w ≡ (v, ok u)
      → Holds v workspace rows
  unfolding audit record_audit
  audit-Holds event w v u (d, e, m) h =
      let d' : Identity = record d { audit_log = d.audit_log ++ event ∷ [] } in
      let left : record_audit (some workspace) event w ≡ v = ap (λ p. p.0) h in
      (
        d',
        ap (λ (s : World). lookup workspace s.workspaces) (sym left)
            ∙ rw (e, record_audit) (upserted workspace d' w.workspaces),
        m,
      )

  committed-Holds :
      (d d' : Identity) (r : Result ((List (Str × Option ℕ) × List RefreshToken) × RefreshToken))
      (u : Unit {0})
      → committed env d r ≡ ok (d', u)
      → d'.mfa_challenges ≡ d.mfa_challenges
  committed-Holds d d' (err e) u h = absurd (cc)
  committed-Holds d d' (ok ((logins, tokens), row)) u h =
      sym (ap (λ (p : Identity × Unit {0}). p.0.mfa_challenges) (ok-same h))

  pub commit_login-Holds :
      (id : Str) (draw : Draw) (w v : World) (u : Unit {0})
      → Holds w workspace rows
      → commit_login env workspace id draw w ≡ (v, ok u)
      → Holds v workspace rows
  unfolding commit_login
  commit_login-Holds id draw w v u (d, e, m) h =
      let (db, db', opened, went, left) = execute-ok env workspace w v u _ h in
      let same : db ≡ d = cc in
      (
        db',
        ap (λ (s : World). lookup workspace s.workspaces) left
            ∙ upserted workspace db' w.workspaces,
        committed-Holds db db' _ u went ∙ ap (λ (x : Identity). x.mfa_challenges) same ∙ m,
      )

  consume_challenge-spent :
      (mfa_token : Str) (draw : Draw) (w : World)
      → Holds w workspace rows
      → (consume env.hash_token rows mfa_token draw.now).1 ≡ already_consumed
      → (consume_challenge env workspace mfa_token draw w).1 ≡ ok already_consumed
  unfolding consume_challenge
  consume_challenge-spent mfa_token draw w (d, e, m) h =
      ap (λ p. p.1) (found-execute env workspace w d (consume_in env mfa_token draw) e)
      ∙ ap (λ t. ok (consume env.hash_token t mfa_token draw.now).1) m
      ∙ ap ok h

  -- A challenge that is spent is refused.
  pub spent-refused :
      (mfa_token code : Str) (draw : Draw) (w : World)
      → Holds w workspace rows
      → (consume env.hash_token rows mfa_token draw.now).1 ≡ already_consumed
      → (login_totp env workspace mfa_token code draw w).1 ≡ err unauthorized
  unfolding login_totp redeem_challenge challenge_user
  spent-refused mfa_token code draw w (d, e, m) h =
      let p = consume_challenge env workspace mfa_token draw w in
      then-err _ unauthorized _ (
        on-ok _ unauthorized _ w tt (found-exists workspace w d e) (
          on-ok _ unauthorized _ p.0 already_consumed
            (λ i. (p.0, consume_challenge-spent mfa_token draw w (d, e, m) h i))
            (on-err _ unauthorized p.0 _ refl)))
