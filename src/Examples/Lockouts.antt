-- ===== src/Examples/Lockouts.antt =====
-- The theorems on crates/rustbase-api/src/security.rs at concrete inputs.
use rustbase.Base.{ℕ, ◌+◌, str_eq, lookup, ◌≡◌, refl, true, none, some, [], ◌∷◌, arith}
use rustbase.Error.{ok, err, too_many_requests}
use rustbase.Lockout.{LockoutPolicy, AttemptState, Attempts, check, retry_after}
use rustbase.Lockout.Series.{
  failed, succeeded, record_events, note_failures, lock_lasts, series_locks,
}
use rustbase.Examples.{ada, bob}

abbrev second : ℕ
second = 1000000000

-- Three failures in a minute lock for a minute.
abbrev policy : LockoutPolicy
policy = record { enabled = true; max_failures = 3; window = 60000000000; lockout = 60000000000 }

abbrev locked : AttemptState
locked = record { failures = 1 ∷ 2 ∷ 3 ∷ []; locked_until = some 60000000003 }

abbrev one_failure : AttemptState
one_failure = record { failures = 1 ∷ []; locked_until = none }

abbrev attempts : Attempts
attempts = (ada, locked) ∷ (bob, one_failure) ∷ []

lock_lasts_example :
    (retry : ℕ) × (check
        (record_events policy attempts (failed ada 10 ∷ succeeded bob ∷ []))
        ada
        policy
        20
      ≡ err (too_many_requests retry))
unfolding lookup str_eq
lock_lasts_example =
    lock_lasts policy attempts ada locked 60000000003 20 (failed ada 10 ∷ succeeded bob ∷ []) refl
      refl refl (omega arith, ((ground arith), tt)) (omega arith)

series_locks_example : note_failures policy one_failure (2 ∷ 3 ∷ []) ≡ (
  record { failures = 1 ∷ 2 ∷ 3 ∷ []; locked_until = some (3 + 60000000000) },
  ok tt ∷ err (too_many_requests (retry_after 60000000000)) ∷ [],
)
series_locks_example =
    series_locks policy one_failure (2 ∷ []) 3 1 (omega arith) refl refl
      ((omega arith, omega arith), tt)
      ((omega arith, omega arith), ((omega arith, omega arith), tt))
