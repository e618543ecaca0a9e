-- ===== src/Examples/Resets.antt =====
-- The theorems on crates/rustbase-api/src/auth/{password_reset,verify_email}.rs at concrete inputs.
use rustbase.Base.{Str, codes, str_eq, refl, false, none, some, [], ◌∷◌}
use rustbase.Error.{Result, ok}
use rustbase.OneShot.{OneShot, consume, invalidate_all_for_user}
use rustbase.Accounts.{User, Accounts, Realms, reset_in}
use rustbase.Accounts.Confirm.{Reset, reset_in-ok}
use rustbase.Examples.{acme, widgets, ada, digest}

abbrev user_row : User
user_row = record {
  id = ada;
  email = codes "ada@acme.example";
  password_hash = none;
  verified = false;
}

-- Two reset tokens are pending for the user.
abbrev pending : Str → OneShot
pending name = record {
  token_hash = digest name;
  user_id = ada;
  issued_at = 100;
  expires_at = 160;
  consumed_at = none;
}

abbrev closed : Str → OneShot
closed name = record (pending name) { consumed_at = some 120 }

abbrev before : Accounts
before = record {
  users = user_row ∷ [];
  password_resets = pending (codes "a") ∷ pending (codes "b") ∷ [];
  email_verifications = [];
}

abbrev after : Accounts
after = record {
  users = record user_row { password_hash = some (1 ∷ codes "new secret") } ∷ [];
  password_resets = closed (codes "a") ∷ closed (codes "b") ∷ [];
  email_verifications = [];
}

abbrev hashed : Str → Result Str
hashed s = ok (1 ∷ s)

reset_in-ok_example : Reset digest hashed before after (codes "a") (codes "new secret") ada 120
unfolding reset_in consume str_eq invalidate_all_for_user
reset_in-ok_example =
    reset_in-ok digest hashed before after (codes "a") (codes "new secret") ada 120 refl

abbrev realms : Realms
realms = (acme, before) ∷ (widgets, after) ∷ []
