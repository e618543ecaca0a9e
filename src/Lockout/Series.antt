-- ===== src/Lockout/Series.antt =====
-- Series of recorded logins against the tracker of crates/rustbase-api/src/security.rs.
use rustbase.Base.{
  ℕ, ◌+◌, ◌-◌, lt→ltb, ◌<◌, ◌≤◌, ltb, ◌≡◌, ◌≢◌, inl, inr, refl, ◌∙◌, true, Bool-cases, Str, str_eq,
  lookup, lookup-upsert, lookup-remove, str_eq_refl, str_eq_iff, none, some, List, [], ◌∷◌, ◌++◌,
  append_assoc, length, length-append, keep, all, keep-of-all, All, All-append, map, if◌then◌else◌,
  arith,
}
use rustbase.Error.{Result, ok, err, too_many_requests}
use rustbase.Lockout.{
  LockoutPolicy, AttemptState, Attempts, bubble, retry_after, locked_until, check, or_new,
  clear_expired, count_failure, note_in, note_failure, note_success,
}
use rustbase.Lockout.Laws.{note_in-locked}

pub data Event : Type 0 where
  failed : Str → ℕ → Event
  succeeded : Str → Event

unfoldable pub record_event : LockoutPolicy → Attempts → Event → Attempts
record_event p inner (failed subject now) = (note_failure inner subject p now).0
record_event p inner (succeeded subject) = note_success inner subject

unfoldable pub record_events : LockoutPolicy → Attempts → List Event → Attempts
record_events p inner [] = inner
record_events p inner (e ∷ es) = record_events p (record_event p inner e) es

-- An event before the time `until` that does not clear `subject`.
abbrev pub Spares : Str → ℕ → Event → Type 0
Spares subject until (failed other now) = now < until
Spares subject until (succeeded other) = other ≢ subject

lookup-note_failure :
    (inner : Attempts) (subject : Str) (s : AttemptState) (p : LockoutPolicy) (now : ℕ)
    → lookup subject inner ≡ some s
    → lookup subject (note_failure inner subject p now).0
      ≡ some (if p.enabled then (note_in s p now).0 else s)
unfolding note_failure or_new
lookup-note_failure inner subject s p now l =
    rw (l, note_failure)
      (ground
        (arith, lookup-upsert subject subject (note_in s p now).0 inner, str_eq_refl subject, l))

record_event-locked :
    (p : LockoutPolicy) (inner : Attempts) (subject : Str) (s : AttemptState) (until : ℕ)
    (e : Event)
    → lookup subject inner ≡ some s
    → s.locked_until ≡ some until
    → Spares subject until e
    → lookup subject (record_event p inner e) ≡ some s
unfolding record_event
record_event-locked p inner subject s until (failed other now) l u h =
    elim (Bool-cases (str_eq other subject)) [
      | inl same ↦ rw ((str_eq_iff other subject).0 same) (
          lookup-note_failure inner subject s p now l
          ∙ ground (arith, note_in-locked s p now until u h))
      | inr n ↦
          unfold note_failure in
          (ground (
            arith,
            lookup-upsert other subject (note_in (or_new (lookup other inner)) p now).0 inner,
          ))
    ]
record_event-locked p inner subject s until (succeeded other) l u h =
    unfold note_success in
    (ground (arith, lookup-remove other subject inner, str_eq_iff other subject))

events-locked :
    (p : LockoutPolicy) (inner : Attempts) (subject : Str) (s : AttemptState) (until : ℕ)
    (es : List Event)
    → lookup subject inner ≡ some s
    → s.locked_until ≡ some until
    → All (Spares subject until) es
    → lookup subject (record_events p inner es) ≡ some s
unfolding record_events
events-locked p inner subject s until [] l u h = l
events-locked p inner subject s until (e ∷ es) l u h =
    events-locked p (record_event p inner e) subject s until es
      (record_event-locked p inner subject s until e l u h.0) u h.1

-- Once a subject is locked until some time, every check of it before that time is an error, whatever
-- failures are recorded of anyone before that time, and whatever successes of other subjects.
pub lock_lasts :
    (p : LockoutPolicy) (inner : Attempts) (subject : Str) (s : AttemptState) (until now : ℕ)
    (es : List Event)
    → p.enabled ≡ true
    → lookup subject inner ≡ some s
    → s.locked_until ≡ some until
    → All (Spares subject until) es
    → now < until
    → (retry : ℕ) × (check (record_events p inner es) subject p now ≡ err (too_many_requests retry))
unfolding check locked_until bubble
lock_lasts p inner subject s until now es e l u h k = (
  retry_after (until - now),
  rw (events-locked p inner subject s until es l u h) (rw e (rw u (rw (lt→ltb now until k) refl))),
)

-- The answers to the failures of one subject at the given times.
unfoldable pub note_failures :
    LockoutPolicy → AttemptState → List ℕ → AttemptState × List (Result (Unit {0}))
note_failures p s [] = (s, [])
note_failures p s (t ∷ ts) =
    let r = note_in s p t in let rest = note_failures p r.0 ts in (rest.0, r.1 ∷ rest.1)

-- The times from `start` to the end of a window that begins there.
abbrev pub InWindow : LockoutPolicy → ℕ → ℕ → Type 0
InWindow p start t = (start ≤ t) × (t < start + p.window)

keep-InWindow :
    (p : LockoutPolicy) (start now : ℕ) (ts : List ℕ)
    → now < start + p.window
    → All (InWindow p start) ts
    → all (λ t. ltb now (t + p.window)) ts ≡ true
keep-InWindow p start now [] h hs = refl
keep-InWindow p start now (t ∷ ts) h hs = ground (arith, keep-InWindow p start now ts h hs.1)

kept_series :
    (p : LockoutPolicy) (s : AttemptState) (now start : ℕ)
    → All (InWindow p start) s.failures
    → InWindow p start now
    → keep (λ t. ltb now (t + p.window)) s.failures ≡ s.failures
kept_series p s now start hs h =
    keep-of-all _ s.failures (keep-InWindow p start now s.failures h.1 hs)

note_in-below :
    (p : LockoutPolicy) (s : AttemptState) (now start : ℕ)
    → s.locked_until ≡ none
    → length s.failures + 1 < p.max_failures
    → p.max_failures < 4294967296
    → All (InWindow p start) s.failures
    → InWindow p start now
    → note_in s p now ≡ (record { failures = s.failures ++ (now ∷ []); locked_until = none }, ok tt)
unfolding note_in bubble clear_expired count_failure
note_in-below p s now start u h w hs hn =
    rw u
      (rw (kept_series p s now start hs hn) (ground (arith, length-append s.failures (now ∷ []))))

note_in-at :
    (p : LockoutPolicy) (s : AttemptState) (now start : ℕ)
    → s.locked_until ≡ none
    → length s.failures + 1 ≡ p.max_failures
    → p.max_failures < 4294967296
    → All (InWindow p start) s.failures
    → InWindow p start now
    → note_in s p now ≡ (
      record { failures = s.failures ++ (now ∷ []); locked_until = some (now + p.lockout) },
      err (too_many_requests (retry_after p.lockout)),
    )
unfolding note_in bubble clear_expired count_failure
note_in-at p s now start u h w hs hn =
    rw u
      (rw (kept_series p s now start hs hn) (ground (arith, length-append s.failures (now ∷ []))))

-- A series of failures in one window, of a subject that is not locked and whose earlier failures
-- are in the window too: as many of them as stay below the threshold are each answered with
-- success, and the one that reaches it is answered with the error and locks the subject for the
-- time that the policy says.
pub series_locks :
    (p : LockoutPolicy) (s : AttemptState) (ts : List ℕ) (last start : ℕ)
    → p.max_failures < 4294967296
    → s.locked_until ≡ none
    → length s.failures + (length ts + 1) ≡ p.max_failures
    → All (InWindow p start) s.failures
    → All (InWindow p start) (ts ++ (last ∷ []))
    → note_failures p s (ts ++ (last ∷ [])) ≡ (
      record {
        failures = s.failures ++ (ts ++ (last ∷ []));
        locked_until = some (last + p.lockout);
      },
      map (λ _. ok tt) ts ++ (err (too_many_requests (retry_after p.lockout)) ∷ []),
    )
unfolding note_failures
series_locks p s [] last start w u h hs ht =
    rw (note_in-at p s last start u (omega arith) w hs ht.0) refl
series_locks p s (t ∷ ts) last start w u h hs ht =
    let s' : AttemptState = record { failures = s.failures ++ (t ∷ []); locked_until = none } in
    rw (note_in-below p s t start u (omega arith) w hs ht.0) (
      rw
        (series_locks p s' ts last start w refl (omega (arith, length-append s.failures (t ∷ [])))
          (All-append _ s.failures _ hs (ht.0, tt)) ht.1)
        (rw (append_assoc s.failures (t ∷ []) (ts ++ (last ∷ []))) refl))
