-- ===== src/Lockout.antt =====
-- crates/rustbase-api/src/security.rs: the tracker of failed logins. A time is a number of
-- nanoseconds since the epoch, a duration a number of nanoseconds. What the source subtracts from
-- the present is here added to the past, so that no subtraction is cut off.
pub mod Laws
pub mod Series
use rustbase.Base.{
  ℕ, ◌+◌, ◌-◌, ◌/◌, ◌%◌, max, ltb, leb, Bool, true, false, Str, lookup, upsert, remove, Option,
  none, some, List, [], ◌∷◌, ◌++◌, length, keep, if◌then◌else◌,
}
use rustbase.Error.{Result, ok, err, too_many_requests}

pub record LockoutPolicy : Type 0 where
  pub enabled : Bool
  pub max_failures : ℕ
  pub window : ℕ
  pub lockout : ℕ

-- `num_seconds`, at least one.
unfoldable pub retry_after : ℕ → ℕ
retry_after duration = max (duration / 1000000000) 1

pub record AttemptState : Type 0 where
  pub failures : List ℕ
  pub locked_until : Option ℕ

abbrev new_state : AttemptState
new_state = record { failures = []; locked_until = none }

-- The map of a `LoginAttempts`.
abbrev pub Attempts : Type 0
Attempts = List (Str × AttemptState)

-- The error of a lock that ends at `until`, if it has not ended.
unfoldable pub bubble : Option ℕ → ℕ → Result (Unit {0})
unfolding retry_after
bubble none now = ok tt
bubble (some until) now =
    if ltb now until then err (too_many_requests (retry_after (until - now))) else ok tt

unfoldable pub locked_until : Option AttemptState → Option ℕ
locked_until none = none
locked_until (some state) = state.locked_until

unfoldable pub check : Attempts → Str → LockoutPolicy → ℕ → Result (Unit {0})
unfolding bubble locked_until
check inner subject policy now =
    if policy.enabled then bubble (locked_until (lookup subject inner)) now else ok tt

unfoldable pub or_new : Option AttemptState → AttemptState
or_new none = new_state
or_new (some state) = state

-- The failures that count after a lock has ended: none of those before it.
unfoldable pub clear_expired : AttemptState → List ℕ
clear_expired state = elim (state.locked_until) [ none ↦ state.failures | some until ↦ [] ]

-- The failure is added to those inside the window, and locks the subject from the threshold on.
unfoldable pub count_failure : List ℕ → LockoutPolicy → ℕ → AttemptState × Result (Unit {0})
unfolding retry_after
count_failure old policy now =
    let failures = keep (λ t. ltb now (t + policy.window)) old ++ (now ∷ []) in
    if leb policy.max_failures (length failures % 4294967296)
    then (
      record { failures = failures; locked_until = some (now + policy.lockout) },
      err (too_many_requests (retry_after policy.lockout)),
    )
    else (record { failures = failures; locked_until = none }, ok tt)

unfoldable pub note_in : AttemptState → LockoutPolicy → ℕ → AttemptState × Result (Unit {0})
unfolding bubble clear_expired count_failure
note_in state policy now = elim (bubble state.locked_until now) [
  | err e ↦ (state, err e)
  | ok u ↦ count_failure (clear_expired state) policy now
]

unfoldable pub note_failure : Attempts → Str → LockoutPolicy → ℕ → Attempts × Result (Unit {0})
unfolding or_new note_in
note_failure inner subject policy now =
    let r = note_in (or_new (lookup subject inner)) policy now in
    if policy.enabled then (upsert subject r.0 inner, r.1) else (inner, ok tt)

unfoldable pub note_success : Attempts → Str → Attempts
note_success inner subject = remove subject inner
