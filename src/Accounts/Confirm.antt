-- ===== src/Accounts/Confirm.antt =====
-- What a confirmed token of crates/rustbase-api/src/auth/{password_reset,verify_email}.rs leaves.
use rustbase.Base.{
  ℕ, leb, ◌≡◌, ◌≢◌, refl, sym, ap, ◌∙◌, ◌&&◌, Bool-cases, inl, inr, Str, str_eq_iff, lookup,
  lookup-upsert, Option, none, some, List, [], ◌∷◌, length, arith,
}
use rustbase.Error.{Result, ok, err}
use rustbase.OneShot.{
  ConsumeOutcome, consumed, unknown, already_consumed, expired, find_row, consume,
  invalidate_all_for_user,
}
use rustbase.OneShot.Laws.{IsLive, consume-consumed_iff, consume-invalidate}
use rustbase.Accounts.{
  User, find_user_by_id, set_password_hash, Accounts, Realms, store_password, after_consume,
  reset_in, in_workspace, reset_confirm, verify_confirm,
}

find-set_password_hash :
    (users : List User) (id hash : Str) (u : User)
    → find_user_by_id (set_password_hash users id hash) id ≡ some u
    → u.password_hash ≡ some hash
unfolding find_user_by_id set_password_hash
find-set_password_hash [] id hash u e = cc
find-set_password_hash (v ∷ us) id hash u e = ground (arith, find-set_password_hash us id hash u)

-- A confirmed reset: the hash that is stored for the user, and no token of the user left.
pub record Reset (hash_token : Str → Str) (hash_password : Str → Result Str) (a a' : Accounts)
    (token new_password user : Str) (now : ℕ) : Type 0 where
  pub live : IsLive (find_row (hash_token token) a.password_resets) user now
  pub stored :
      (u : User)
      → find_user_by_id a'.users user ≡ some u
      → (hash : Str) × (hash_password new_password ≡ ok hash) × (u.password_hash ≡ some hash)
  pub spent :
      (other : Str) (later : ℕ)
      → (consume hash_token a'.password_resets other later).1 ≢ consumed user

store_password-ok :
    (a a' : Accounts) (user answer : Str) (now : ℕ) (h : Result Str)
    → store_password a user now h ≡ (a', ok answer)
    → (hash : Str) × (h ≡ ok hash)
      × (user ≡ answer)
      × (a'.users ≡ set_password_hash a.users user hash)
      × (a'.password_resets ≡ (invalidate_all_for_user a.password_resets user now).0)
unfolding store_password
store_password-ok a a' user answer now (err e) k = cc
store_password-ok a a' user answer now (ok hash) k =
    (hash, refl, ground arith, ground arith, ground arith)

-- What a confirm that succeeded went through.
abbrev Went : (Str → Result Str) → Accounts → Accounts → Str → Str → ℕ → ConsumeOutcome → Type 0
Went hash_password a a' new_password user now o =
    (o ≡ consumed user)
    × ((hash : Str) × (hash_password new_password ≡ ok hash)
        × (a'.users ≡ set_password_hash a.users user hash)
        × (a'.password_resets ≡ (invalidate_all_for_user a.password_resets user now).0))

after_consume-ok :
    (hash_password : Str → Result Str) (a a' : Accounts) (token new_password user : Str) (now : ℕ)
    (o : ConsumeOutcome)
    → after_consume hash_password a token new_password now o ≡ (a', ok user)
    → Went hash_password a a' new_password user now o
unfolding after_consume
after_consume-ok hash_password a a' token new_password user now (consumed owner) k =
    let (hash, h, same, us, rs) =
      store_password-ok a a' owner user now (hash_password new_password) k in
    rw (← same) (refl, (hash, h, us, rs))
after_consume-ok hash_password a a' token new_password user now unknown k = cc
after_consume-ok hash_password a a' token new_password user now already_consumed k = cc
after_consume-ok hash_password a a' token new_password user now expired k = cc

-- A password reset that is confirmed was asked for with a token of the user that was live; after
-- it a user with that identifier has the hash of the new password, and no reset token of theirs can
-- be redeemed.
pub reset_in-ok :
    (hash_token : Str → Str) (hash_password : Str → Result Str) (a a' : Accounts)
    (token new_password user : Str) (now : ℕ)
    → reset_in hash_token hash_password a token new_password now ≡ (a', ok user)
    → Reset hash_token hash_password a a' token new_password user now
unfolding reset_in
reset_in-ok hash_token hash_password a a' token new_password user now e =
    let r = consume hash_token a.password_resets token now in
    let b : Accounts = record a { password_resets = r.0 } in
    let (redeemed, (hash, h, us, rs)) =
      after_consume-ok hash_password b a' token new_password user now r.1 e in
    record {
      live = (consume-consumed_iff hash_token a.password_resets token user now).0 redeemed;
      stored = λ u found. (
        hash,
        h,
        find-set_password_hash a.users user hash u
            (ap (λ t. find_user_by_id t user) (sym us) ∙ found),
      );
      spent = λ other later k.
          (consume-invalidate hash_token r.0 other user now later).0
            (ap (λ t. (consume hash_token t other later).1) (sym rs) ∙ k);
    }

in_workspace-other :
    (realms : Realms) (workspace other : Str) (body : Accounts → Accounts × Result Str)
    → workspace ≢ other
    → lookup other (in_workspace realms workspace body).0 ≡ lookup other realms
unfolding in_workspace
in_workspace-other realms workspace other body n = by_realm (lookup workspace realms) refl
  where
    by_realm :
        (o : Option Accounts)
        → lookup workspace realms ≡ o
        → lookup other (in_workspace realms workspace body).0 ≡ lookup other realms
    by_realm none e = rw (e, in_workspace) refl
    by_realm (some a) e =
        rw (e, in_workspace)
          (ground
            (arith, lookup-upsert workspace other (body a).0 realms, str_eq_iff workspace other))

-- Whatever they answer, the two confirmations leave every other workspace as it was.
pub confirm-other :
    (hash_token : Str → Str) (hash_password : Str → Result Str) (rule : Str) (realms : Realms)
    (workspace other token new_password : Str) (now : ℕ)
    → workspace ≢ other
    → (lookup other
          (reset_confirm hash_token hash_password rule realms workspace token new_password now).0
        ≡ lookup other realms)
      × (lookup other (verify_confirm hash_token realms workspace token now).0
          ≡ lookup other realms)
unfolding reset_confirm verify_confirm
confirm-other hash_token hash_password rule realms workspace other token new_password now n = (
  elim (Bool-cases (leb 8 (length new_password) && leb (length new_password) 256)) [
    | inl long ↦ rw long (in_workspace-other realms workspace other _ n)
    | inr short ↦ rw short refl
  ],
  in_workspace-other realms workspace other _ n,
)
