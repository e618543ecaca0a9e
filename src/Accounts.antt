-- ===== src/Accounts.antt =====
-- The end users of the workspaces and what they confirm by a mailed token:
-- crates/rustbase-db/src/users.rs, and the `confirm` handlers of
-- crates/rustbase-api/src/auth/password_reset.rs and verify_email.rs. A handler returns the new state
-- with its answer, since some errors come after a write.
pub mod Confirm
use rustbase.Base.{
  ℕ, leb, Bool, true, false, ◌&&◌, Str, codes, str_eq, lookup, upsert, Option, none, some, List, [],
  ◌∷◌, map, length, if◌then◌else◌,
}
use rustbase.Error.{
  CoreError, Result, ok, err, not_found, validation, workspace_not_found, conflict,
}
use rustbase.OneShot.{
  OneShot, ConsumeOutcome, consumed, unknown, already_consumed, expired, consume,
  invalidate_all_for_user,
}

-- A row of `users`, without the times.
pub record User : Type 0 where
  pub id : Str
  pub email : Str
  pub password_hash : Option Str
  pub verified : Bool

unfoldable pub find_user_by_id : List User → Str → Option User
find_user_by_id [] id = none
find_user_by_id (u ∷ us) id = if str_eq u.id id then some u else find_user_by_id us id

unfoldable pub set_password_hash : List User → Str → Str → List User
set_password_hash users id hash =
    map (λ (u : User). if str_eq u.id id then record u { password_hash = some hash } else u) users

unfoldable pub mark_verified : List User → Str → List User
mark_verified users id =
    map (λ (u : User). if str_eq u.id id then record u { verified = true } else u) users

-- The tables of one workspace that the handlers write.
pub record Accounts : Type 0 where
  pub users : List User
  pub password_resets : List OneShot
  pub email_verifications : List OneShot

-- The databases of the workspaces by their identifiers.
abbrev pub Realms : Type 0
Realms = List (Str × Accounts)

-- The errors for an outcome that is no success: the name of the collection, the token, and the
-- texts of the two conflicts.
unfoldable pub refusal : Str → Str → Str → Str → ConsumeOutcome → CoreError
refusal collection token used late already_consumed = conflict used
refusal collection token used late expired = conflict late
refusal collection token used late _ = not_found collection token

module _ (hash_token : Str → Str) where
  -- The body of `verify_email::confirm` on the workspace's database.
  unfoldable pub verify_in : Accounts → Str → ℕ → Accounts × Result Str
  unfolding mark_verified refusal
  verify_in a token now =
      let r = consume hash_token a.email_verifications token now in
      elim (r.1) [
        | consumed user ↦
            (record a { users = mark_verified a.users user; email_verifications = r.0 }, ok user)
        | outcome ↦ (
          record a { email_verifications = r.0 },
          err (
              refusal (codes "email_verification") token (codes "verification token already used")
                (codes "verification token expired") outcome),
        )
      ]

-- The end of `password_reset::confirm`, from the new hash on.
unfoldable pub store_password : Accounts → Str → ℕ → Result Str → Accounts × Result Str
unfolding set_password_hash
store_password a user now (err e) = (a, err e)
store_password a user now (ok hash) = (
  record a {
    users = set_password_hash a.users user hash;
    password_resets = (invalidate_all_for_user a.password_resets user now).0;
  },
  ok user,
)

module _ (hash_password : Str → Result Str) where
  -- What follows the consumed token.
  unfoldable pub after_consume : Accounts → Str → Str → ℕ → ConsumeOutcome → Accounts × Result Str
  unfolding refusal store_password
  after_consume a token new_password now (consumed user) =
      store_password a user now (hash_password new_password)
  after_consume a token new_password now outcome = (
    a,
    err (
        refusal (codes "password_reset") token (codes "reset token already used")
          (codes "reset token expired") outcome),
  )

module _ (hash_token : Str → Str) (hash_password : Str → Result Str) where
  -- The body of `password_reset::confirm` on the workspace's database.
  unfoldable pub reset_in : Accounts → Str → Str → ℕ → Accounts × Result Str
  unfolding after_consume
  reset_in a token new_password now =
      let r = consume hash_token a.password_resets token now in
      after_consume hash_password (record a { password_resets = r.0 }) token new_password now r.1

-- `require_workspace_exists`, and the handler on the database of the workspace.
unfoldable pub in_workspace :
    Realms → Str → (Accounts → Accounts × Result Str) → Realms × Result Str
in_workspace realms workspace body = elim (lookup workspace realms) [
  | none ↦ (realms, err (workspace_not_found workspace))
  | some a ↦ (upsert workspace (body a).0 realms, (body a).1)
]

module _ (hash_token : Str → Str) (hash_password : Str → Result Str) (rule : Str) where
  -- `rule` is the text of the validation of the length.
  unfoldable pub reset_confirm : Realms → Str → Str → Str → ℕ → Realms × Result Str
  unfolding in_workspace reset_in
  reset_confirm realms workspace token new_password now =
      if leb 8 (length new_password) && leb (length new_password) 256
      then in_workspace realms workspace
          (λ a. reset_in hash_token hash_password a token new_password now)
      else (realms, err (validation rule))

module _ (hash_token : Str → Str) where
  unfoldable pub verify_confirm : Realms → Str → Str → ℕ → Realms × Result Str
  unfolding in_workspace verify_in
  verify_confirm realms workspace token now =
      in_workspace realms workspace (λ a. verify_in hash_token a token now)
