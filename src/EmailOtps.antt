-- ===== src/EmailOtps.antt =====
-- crates/rustbase-db/src/email_otps.rs: the table of the numeric codes that are sent by mail. The
-- rows stand newest first. A time is a number since the epoch. The statements of one call run here
-- without those of another between them.
pub mod Pending
pub mod Budget
use rustbase.Base.{
  ℕ, suc, ◌+◌, ◌-◌, ◌==◌, ltb, leb, Bool, true, false, ◌&&◌, Str, str_eq, Option, none, some, List,
  [], ◌∷◌, map, length, keep, if◌then◌else◌,
}

abbrev pub max_attempts : ℕ
max_attempts = 5

pub record EmailOtp : Type 0 where
  pub id : ℕ
  pub code_hash : Str
  pub email : Str
  pub issued_at : ℕ
  pub expires_at : ℕ
  pub consumed_at : Option ℕ
  pub attempts : ℕ

-- The rows, and the next value of the key that counts up.
pub record Otps : Type 0 where
  pub rows : List EmailOtp
  pub next_id : ℕ

unfoldable pub is_none : Option ℕ → Bool
is_none none = true
is_none (some t) = false

abbrev pub is_pending : Str → EmailOtp → Bool
is_pending email r = str_eq r.email email && is_none r.consumed_at

-- `SET consumed_at = ? WHERE …`.
unfoldable pub close_if : (EmailOtp → Bool) → ℕ → EmailOtp → EmailOtp
close_if p now r = if p r then record r { consumed_at = some now } else r

-- `SET attempts = ? WHERE id = ?`.
unfoldable pub count_if : (EmailOtp → Bool) → ℕ → EmailOtp → EmailOtp
count_if p n r = if p r then record r { attempts = n } else r

-- `ORDER BY issued_at DESC LIMIT 1`.
unfoldable pub newest : EmailOtp → Option EmailOtp → EmailOtp
newest r none = r
newest r (some q) = if ltb r.issued_at q.issued_at then q else r

unfoldable pub current : List EmailOtp → Str → Option EmailOtp
unfolding newest is_none
current [] email = none
current (r ∷ t) email =
    if is_pending email r then some (newest r (current t email)) else current t email

pub data ConsumeOutcome : Type 0 where
  accepted : Str → ConsumeOutcome
  unknown : ConsumeOutcome
  wrong_code : ℕ → ConsumeOutcome
  expired locked : ConsumeOutcome

abbrev pub has_id : ℕ → EmailOtp → Bool
has_id id r = r.id == id

abbrev pub new_row : Str → Str → ℕ → ℕ → ℕ → EmailOtp
new_row hash email id now ttl = record {
  id = id;
  code_hash = hash;
  email = email;
  issued_at = now;
  expires_at = now + ttl;
  consumed_at = none;
  attempts = 0;
}

-- The right code: the write may find that another call has consumed the row.
unfoldable pub accept_code : List EmailOtp → EmailOtp → ℕ → List EmailOtp × ConsumeOutcome
unfolding is_none close_if
accept_code t row now =
    let p : EmailOtp → Bool = λ r. has_id row.id r && is_none r.consumed_at in
    (map (close_if p now) t, if length (keep p t) == 0 then unknown else accepted row.email)

-- A wrong code: one more attempt, and the last one closes the row.
unfoldable pub count_wrong : List EmailOtp → EmailOtp → ℕ → List EmailOtp × ConsumeOutcome
unfolding close_if count_if
count_wrong t row now =
    let attempts = row.attempts + 1 in
    let counted = map (count_if (has_id row.id) attempts) t in
    if leb max_attempts attempts
    then (map (close_if (has_id row.id) now) counted, locked)
    else (counted, wrong_code (max_attempts - attempts))

-- What `consume` does with the row that it read.
unfoldable pub consume_row : List EmailOtp → EmailOtp → Str → ℕ → List EmailOtp × ConsumeOutcome
unfolding close_if accept_code count_wrong
consume_row t row hash now =
    if leb row.expires_at now
    then (map (close_if (has_id row.id) now) t, expired)
    else if str_eq row.code_hash hash
    then accept_code t row now
    else count_wrong t row now

unfoldable pub consume_found :
    List EmailOtp → Option EmailOtp → Str → ℕ → List EmailOtp × ConsumeOutcome
unfolding consume_row
consume_found t none hash now = (t, unknown)
consume_found t (some row) hash now = consume_row t row hash now

module _ (hash_token : Str → Str) where
  unfoldable pub issue : Otps → Str → Str → ℕ → ℕ → Otps × EmailOtp
  unfolding is_none close_if
  issue s code email now ttl =
      let row = new_row (hash_token code) email s.next_id now ttl in
      (
        record {
          rows = row ∷ map (close_if (is_pending email) now) s.rows;
          next_id = suc s.next_id;
        },
        row,
      )

  unfoldable pub consume : List EmailOtp → Str → Str → ℕ → List EmailOtp × ConsumeOutcome
  unfolding current consume_found
  consume t email code now = consume_found t (current t email) (hash_token code) now
