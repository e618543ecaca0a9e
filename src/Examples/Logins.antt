-- ===== src/Examples/Logins.antt =====
-- The theorems on logins at concrete inputs.
use rustbase.Base.{
  ℕ, ◌≡◌, ◌⊎◌, refl, true, Str, codes, str_eq, lookup, upsert, none, some, [], ◌∷◌, arith,
}
use rustbase.Error.{Result, ok, err, unauthorized}
use rustbase.Auth.{build_claims}
use rustbase.Accounts.{User, find_user_by_id}
use rustbase.EmailOtps.{consume}
use rustbase.Lockout.{check}
use rustbase.LoginState.{clear, Identity, World, Env, Draw}
use rustbase.Login.{
  LoginTokens, user_public, dispatch_before_login, user_subject, and_then, some_or,
  find_user_by_email, find_totp, is_user_totp_enabled,
}
use rustbase.Login.Passwords.{UserLoginResponse, tokens, user_login}
use rustbase.Login.Totp.{login_totp, secret_from_storage}
use rustbase.Login.Otp.{login}
use rustbase.Login.Granted.{Credentials, Granted, Challenged, user_login-Granted}
use rustbase.Login.SecondStep.{login_totp-Shown}
use rustbase.Login.Shown.{Shown}
use rustbase.Login.Refused.{failure, no_user, user_login-refused}
use rustbase.Login.TwoSteps.{two_steps}
use rustbase.Login.Codes.{code_alone}
use rustbase.Examples.{acme, shop, digest, ada, bob}

abbrev env : Env Str
env = record {
  policy = record { enabled = true; max_failures = 3; window = 100; lockout = 50 };
  kek = none;
  access_ttl = 900;
  refresh_ttl = 2592000;
  invalid = codes "invalid";
  duplicate = codes "UNIQUE constraint failed";
  no_tables = codes "no such table";
  is_email = λ s. true;
  hash_token = digest;
  verify_password = λ password hash. ok (str_eq password hash);
  sign = λ c. ok c.sub;
  before_login = λ w a u. none;
  build_totp = λ secret w account. ok secret;
  check_current = λ totp code now. ok (str_eq totp code);
  get_url = λ totp. totp;
  encrypt = λ s kek. ok s;
  decrypt = λ s kek. ok s;
}

abbrev member : Str → User
member name = record {
  id = name;
  email = name;
  password_hash = some (codes "secret");
  verified = true;
}

abbrev otp : Str
otp = codes "123456"

-- Ada has a second factor and a mailed code that is pending; Bob has neither.
abbrev members : Identity
members = record {
  users = member ada ∷ member bob ∷ [];
  last_logins = (ada, none) ∷ (bob, none) ∷ [];
  admins = [];
  totps = record { user_id = ada; secret = clear (codes "key"); enabled = true } ∷ [];
  mfa_challenges = [];
  otps = record {
    rows =
        record {
          id = 1;
          code_hash = digest otp;
          email = ada;
          issued_at = 0;
          expires_at = 600;
          consumed_at = none;
          attempts = 0;
        }
        ∷ [];
    next_id = 2;
  };
  tokens = [];
  apps = shop ∷ [];
  audit_log = [];
}

abbrev world : World
world = record {
  master_admins = [];
  tokens = [];
  audit_log = [];
  workspaces = (acme, members) ∷ [];
  attempts = [];
}

abbrev at : ℕ → Draw
at now = record {
  issued = codes "rfsh_";
  jti = codes "1";
  challenge = codes "mfa";
  user_id = codes "u3";
  tracked_at = now;
  now = now;
}

abbrev handed_out : Str → LoginTokens
handed_out name = record {
  access_token = name;
  refresh_token = codes "rfsh_";
  user = user_public (member name);
}

abbrev secret : Str
secret = codes "secret"

abbrev bob_in : World × Result UserLoginResponse
bob_in = user_login env acme bob secret (at 10) world

user_login-Granted_example :
    (c : Credentials env acme bob secret (at 10) world) × (check world.attempts
        (user_subject acme bob)
        env.policy
        10
      ≡ ok tt)
    × (dispatch_before_login env acme c.known c.db.apps ≡ ok tt)
    × (Granted env acme bob secret (at 10) world bob_in.0 c (tokens (handed_out bob))
        ⊎ Challenged env acme bob secret (at 10) world bob_in.0 c (tokens (handed_out bob)))
unfolding user_login and_then some_or lookup str_eq
user_login-Granted_example =
    user_login-Granted env acme bob secret (at 10) world bob_in.0 (tokens (handed_out bob)) refl

abbrev ada_first : World × Result UserLoginResponse
ada_first = user_login env acme ada secret (at 10) world

abbrev ada_second : World × Result LoginTokens
ada_second = login_totp env acme (codes "mfa") (codes "key") (at 20) ada_first.0

login_totp-Shown_example :
    (s : Shown env acme (codes "mfa") (codes "key") (at 20) ada_first.0) × ((handed_out ada).user
      ≡ user_public s.known)
    × ((other : Str) (later : Draw)
        → (login_totp env acme (codes "mfa") other later ada_second.0).1 ≡ err unauthorized)
unfolding user_login login_totp and_then some_or lookup upsert str_eq
login_totp-Shown_example =
    login_totp-Shown env acme (codes "mfa") (codes "key") (at 20) ada_first.0 ada_second.0
      (handed_out ada) refl

user_login-refused_example :
    user_login env acme (codes "eve") secret (at 10) world
    ≡ failure env acme (codes "eve") secret (at 10) UserLoginResponse world
unfolding lookup str_eq check find_user_by_email
user_login-refused_example =
    user_login-refused env acme (codes "eve") secret (at 10) world members refl refl refl refl
      (no_user refl)

two_steps_example :
    (login_totp env acme (codes "mfa") (codes "key") (at 20) ada_first.0).1 ≡ ok (handed_out ada)
unfolding user_login and_then some_or lookup str_eq find_user_by_id find_totp secret_from_storage
two_steps_example =
    two_steps env acme ada secret (at 10) (at 20) world ada_first.0 members (member ada)
      (record { user_id = ada; secret = clear (codes "key"); enabled = true }) (codes "mfa")
      (codes "key") (codes "key") ada (codes "key") refl refl refl refl refl (omega arith) refl refl
      refl refl refl refl

code_alone_example : (login env (λ n. n ∷ []) acme ada otp (at 10) world).1 ≡ ok (handed_out ada)
unfolding lookup str_eq check consume find_user_by_email is_user_totp_enabled dispatch_before_login
    build_claims
code_alone_example =
    code_alone env (λ n. n ∷ []) acme ada otp (at 10) world members (member ada) ada refl refl refl
      refl refl refl refl refl refl
