-- ===== src/Lockout/Laws.antt =====
-- What the operations on the tracker of crates/rustbase-api/src/security.rs leave for each other.
use rustbase.Base.{
  ℕ, ◌+◌, ◌-◌, ◌<◌, ◌≤◌, ltb, ◌≡◌, ◌≢◌, Bool, true, Str, lookup, lookup-upsert, lookup-remove,
  str_eq_refl, str_eq_iff, none, some, List, [], ◌∷◌, ◌++◌, length, length-append, keep, arith,
}
use rustbase.Error.{ok}
use rustbase.Lockout.{
  LockoutPolicy, AttemptState, Attempts, bubble, retry_after, locked_until, check, or_new,
  clear_expired, count_failure, note_in, note_failure, note_success,
}

pub add_sub : (a b : ℕ) → (a + b) - a ≡ b
add_sub a b = omega arith

pub note_in-bubble :
    (s : AttemptState) (p : LockoutPolicy) (now : ℕ)
    → 0 < p.lockout
    → bubble (note_in s p now).0.locked_until now ≡ (note_in s p now).1
unfolding note_in bubble count_failure retry_after
note_in-bubble s p now h = ground (arith, add_sub now p.lockout)

-- Under an enabled policy that locks for some time, a check of the subject right after a recorded
-- failure answers what the record answered: the same error with the same delay, or success.
pub check-note_failure :
    (inner : Attempts) (subject : Str) (p : LockoutPolicy) (now : ℕ)
    → p.enabled ≡ true
    → 0 < p.lockout
    → check (note_failure inner subject p now).0 subject p now
      ≡ (note_failure inner subject p now).1
unfolding check note_failure locked_until
check-note_failure inner subject p now e h = rw e (
    rw (lookup-upsert subject subject _ inner)
      (rw (str_eq_refl subject) (note_in-bubble (or_new (lookup subject inner)) p now h)))

-- What is recorded of one subject, a failure or a success, leaves the check of every other subject
-- as it was.
pub check-note_other :
    (inner : Attempts) (subject other : Str) (p : LockoutPolicy) (now later : ℕ)
    → subject ≢ other
    → (check (note_failure inner subject p now).0 other p later ≡ check inner other p later)
      × (check (note_success inner subject) other p later ≡ check inner other p later)
unfolding check note_failure note_success
check-note_other inner subject other p now later n = ground (
  arith,
  lookup-upsert subject other (note_in (or_new (lookup subject inner)) p now).0 inner,
  lookup-remove subject other inner,
  str_eq_iff subject other,
)

-- After a success the subject passes every check, and has no failures on record.
pub check-note_success :
    (inner : Attempts) (subject : Str) (p : LockoutPolicy) (now : ℕ)
    → (check (note_success inner subject) subject p now ≡ ok tt)
      × (lookup subject (note_success inner subject) ≡ none)
unfolding check note_success locked_until bubble
check-note_success inner subject p now =
    ground (arith, lookup-remove subject subject inner, str_eq_refl subject)

-- A state that a tracker with threshold `m` can reach: an unlocked subject has fewer than `m` failures.
abbrev pub IsBounded : ℕ → AttemptState → Type 0
IsBounded m s = (length s.failures ≤ m) × (s.locked_until ≡ none → length s.failures < m)

pub length-keep : (p : ℕ → Bool) (xs : List ℕ) → length (keep p xs) ≤ length xs
length-keep p [] = omega arith
length-keep p (x ∷ xs) = ground (arith, length-keep p xs)

pub length-count :
    (old : List ℕ) (p : ℕ → Bool) (now : ℕ) → length (keep p old ++ (now ∷ [])) ≤ length old + 1
length-count old p now = omega (arith, length-append (keep p old) (now ∷ []), length-keep p old)

pub count_failure-IsBounded :
    (old : List ℕ) (p : LockoutPolicy) (now : ℕ)
    → p.max_failures < 4294967296
    → length old < p.max_failures
    → IsBounded p.max_failures (count_failure old p now).0
unfolding count_failure
count_failure-IsBounded old p now w h =
    let c = length-count old (λ t. ltb now (t + p.window)) now in ground arith

clear_expired-lt : (s : AttemptState) (m : ℕ) → 0 < m → IsBounded m s → length (clear_expired s) < m
unfolding clear_expired
clear_expired-lt s m z h = ground arith

-- A failure keeps the record of a subject bounded by a positive threshold of 32 bits: there are
-- never more failures in it than the threshold says, and fewer of them while it is not locked.
pub note_in-IsBounded :
    (s : AttemptState) (p : LockoutPolicy) (now : ℕ)
    → p.max_failures < 4294967296
    → 0 < p.max_failures
    → IsBounded p.max_failures s
    → IsBounded p.max_failures (note_in s p now).0
unfolding note_in
note_in-IsBounded s p now w z h = ground (
  arith,
  count_failure-IsBounded (clear_expired s) p now w,
  clear_expired-lt s p.max_failures z h,
)

-- While a lock lasts a failure changes nothing of the subject's state.
pub note_in-locked :
    (s : AttemptState) (p : LockoutPolicy) (now until : ℕ)
    → s.locked_until ≡ some until
    → now < until
    → (note_in s p now).0 ≡ s
unfolding note_in bubble
note_in-locked s p now until e h = ground arith
