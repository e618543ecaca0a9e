-- ===== src/OneShot.antt =====
-- The tables of tokens that are good for one use: crates/rustbase-db/src/password_resets.rs,
-- email_verifications.rs and mfa_challenges.rs, whose statements differ in the name of the table
-- alone. A time is a number since the epoch. The foreign key of `user_id` is not modelled: the
-- callers insert a token for a user whose row they have just read.
pub mod Laws
pub mod Race
use rustbase.Base.{
  ℕ, ◌+◌, ◌==◌, leb, Bool, true, false, ◌&&◌, Str, str_eq, Option, none, some, List, [], ◌∷◌, map,
  length, keep, ◌⊎◌, inl, inr, if◌then◌else◌,
}
use rustbase.Error.{Result, ok, err, internal}

pub record OneShot : Type 0 where
  pub token_hash : Str
  pub user_id : Str
  pub issued_at : ℕ
  pub expires_at : ℕ
  pub consumed_at : Option ℕ

unfoldable pub is_none : Option ℕ → Bool
is_none none = true
is_none (some t) = false

unfoldable pub find_row : Str → List OneShot → Option OneShot
find_row hash [] = none
find_row hash (r ∷ rs) = if str_eq r.token_hash hash then some r else find_row hash rs

-- The rows that a statement `SET consumed_at = ? WHERE … AND consumed_at IS NULL` writes.
abbrev pub is_pending : (OneShot → Bool) → OneShot → Bool
is_pending p r = p r && is_none r.consumed_at

unfoldable pub close_if : (OneShot → Bool) → ℕ → OneShot → OneShot
unfolding is_none
close_if p now r = if is_pending p r then record r { consumed_at = some now } else r

-- That statement: the new table and `rows_affected`.
unfoldable pub mark_consumed : (OneShot → Bool) → ℕ → List OneShot → List OneShot × ℕ
unfolding is_none close_if
mark_consumed p now t = (map (close_if p now) t, length (keep (is_pending p) t))

abbrev pub has_hash : Str → OneShot → Bool
has_hash hash r = str_eq r.token_hash hash

pub data ConsumeOutcome : Type 0 where
  consumed : Str → ConsumeOutcome
  unknown already_consumed expired : ConsumeOutcome

-- What `consume` makes of the row that it read: the outcome, or the user to redeem the token for.
unfoldable pub examine : Option OneShot → ℕ → ConsumeOutcome ⊎ Str
unfolding is_none
examine none now = inl unknown
examine (some row) now =
    if is_none row.consumed_at
    then if leb row.expires_at now then inl expired else inr row.user_id
    else inl already_consumed

-- The conditional write of `consume`, which another consumer may have overtaken.
unfoldable pub redeem : List OneShot → Str → ℕ → Str → List OneShot × ConsumeOutcome
unfolding mark_consumed
redeem t hash now user =
    let r = mark_consumed (has_hash hash) now t in
    (r.0, if r.1 == 0 then already_consumed else consumed user)

unfoldable pub settle :
    List OneShot → Str → ℕ → ConsumeOutcome ⊎ Str → List OneShot × ConsumeOutcome
unfolding redeem
settle t hash now (inl outcome) = (t, outcome)
settle t hash now (inr user) = redeem t hash now user

module _ (hash_token : Str → Str) (duplicate : Str) where
  unfoldable pub issue : List OneShot → Str → Str → ℕ → ℕ → Result (List OneShot × OneShot)
  unfolding find_row
  issue t token user now ttl =
      let row : OneShot = record {
        token_hash = hash_token token;
        user_id = user;
        issued_at = now;
        expires_at = now + ttl;
        consumed_at = none;
      } in
      elim (find_row (hash_token token) t) [
        | none ↦ ok (row ∷ t, row)
        | some r ↦ err (internal duplicate)
      ]

module _ (hash_token : Str → Str) where
  unfoldable pub consume : List OneShot → Str → ℕ → List OneShot × ConsumeOutcome
  unfolding find_row examine settle
  consume t token now =
      settle t (hash_token token) now (examine (find_row (hash_token token) t) now)

-- `password_resets::invalidate_all_for_user`.
unfoldable pub invalidate_all_for_user : List OneShot → Str → ℕ → List OneShot × ℕ
unfolding mark_consumed
invalidate_all_for_user t user now = mark_consumed (λ r. str_eq r.user_id user) now t
