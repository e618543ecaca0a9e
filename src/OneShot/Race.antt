-- ===== src/OneShot/Race.antt =====
-- Several consumers of the tables of crates/rustbase-db/src/{password_resets,email_verifications,
-- mfa_challenges}.rs at once: between the row that a consumer reads and its conditional write the
-- others may read and write.
use rustbase.Base.{
  ℕ, suc, ◌+◌, ◌≤◌, ◌<◌, ◌==◌, ◌≡◌, ◌⊎◌, inl, inr, Bool, true, false, ◌&&◌, Str, str_eq, str_eq_iff,
  Option, none, some, List, [], ◌∷◌, ◌++◌, length, keep, if◌then◌else◌, arith,
}
use rustbase.OneShot.{
  OneShot, is_none, find_row, is_pending, close_if, mark_consumed, has_hash, ConsumeOutcome,
  consumed, unknown, already_consumed, expired, examine, redeem,
}

-- A call of `consume`: not begun, between its read and its write, or returned.
pub data Consumer : Type 0 where
  waits : Str → Consumer
  holds : Str → ℕ → Str → Consumer
  returned : Str → ConsumeOutcome → Consumer

-- The consumer after its read: an early return, or on the way to its write.
unfoldable pub after_read : Str → ℕ → ConsumeOutcome ⊎ Str → Consumer
after_read hash now (inl outcome) = returned hash outcome
after_read hash now (inr user) = holds hash now user

-- One statement of one consumer of the token with the hash, at its own time.
pub data Step : List OneShot × List Consumer → List OneShot × List Consumer → Type 0 where
  reads :
      (t : List OneShot) (before after : List Consumer) (hash : Str) (now : ℕ)
      → Step
          (t, before ++ (waits hash ∷ after))
          (t, before ++ (after_read hash now (examine (find_row hash t) now) ∷ after))
  writes :
      (t : List OneShot) (before after : List Consumer) (hash : Str) (now : ℕ) (user : Str)
      → Step
          (t, before ++ (holds hash now user ∷ after))
          ((redeem t hash now user).0, before ++ (returned hash (redeem t hash now user).1 ∷ after))

pub data Steps : List OneShot × List Consumer → List OneShot × List Consumer → Type 0 where
  stop : (s : List OneShot × List Consumer) → Steps s s
  step : (s s' s'' : List OneShot × List Consumer) → Step s s' → Steps s' s'' → Steps s s''

abbrev is_success : ConsumeOutcome → Bool
is_success (consumed user) = true
is_success unknown = false
is_success already_consumed = false
is_success expired = false

-- The consumers of a hash that were answered with a user.
unfoldable pub succeeded : Str → List Consumer → ℕ
succeeded hash [] = 0
succeeded hash (waits h ∷ cs) = succeeded hash cs
succeeded hash (holds h now user ∷ cs) = succeeded hash cs
succeeded hash (returned h o ∷ cs) =
    if str_eq h hash && is_success o then suc (succeeded hash cs) else succeeded hash cs

succeeded-append :
    (hash : Str) (cs ds : List Consumer)
    → succeeded hash (cs ++ ds) ≡ succeeded hash cs + succeeded hash ds
unfolding succeeded
succeeded-append hash [] ds = omega arith
succeeded-append hash (waits h ∷ cs) ds = succeeded-append hash cs ds
succeeded-append hash (holds h now user ∷ cs) ds = succeeded-append hash cs ds
succeeded-append hash (returned h o ∷ cs) ds = ground (arith, succeeded-append hash cs ds)

-- The rows of a hash that are still pending.
abbrev pub open_rows : Str → List OneShot → ℕ
open_rows hash t = length (keep (is_pending (has_hash hash)) t)

-- A hash has had at most one success, and none while a row of it is pending.
abbrev pub Exclusive : Str → List OneShot × List Consumer → Type 0
Exclusive hash s = (succeeded hash s.1 ≤ 1) × (0 < open_rows hash s.0 → succeeded hash s.1 ≡ 0)

open_rows-mark :
    (hash other : Str) (now : ℕ) (t : List OneShot)
    → open_rows other (mark_consumed (has_hash hash) now t).0
      ≡ (if str_eq hash other then 0 else open_rows other t)
unfolding mark_consumed close_if is_none
open_rows-mark hash other now [] = ground arith
open_rows-mark hash other now (r ∷ t) = ground (
  arith,
  open_rows-mark hash other now t,
  str_eq_iff hash other,
  str_eq_iff r.token_hash hash,
  str_eq_iff r.token_hash other,
)

succeeded-read :
    (hash h : Str) (o : Option OneShot) (now : ℕ) (cs : List Consumer)
    → succeeded hash (after_read h now (examine o now) ∷ cs) ≡ succeeded hash cs
unfolding succeeded after_read examine
succeeded-read hash h none now cs = ground arith
succeeded-read hash h (some r) now cs = ground arith

-- A write adds a success for its hash exactly where it closed a pending row.
succeeded-write :
    (hash h user : Str) (t : List OneShot) (now : ℕ) (cs : List Consumer)
    → succeeded hash (returned h (redeem t h now user).1 ∷ cs) ≡ (
        if str_eq h hash
        then if open_rows h t == 0 then succeeded hash cs else suc (succeeded hash cs)
        else succeeded hash cs)
unfolding succeeded redeem mark_consumed
succeeded-write hash h user t now cs = ground arith

Step-Exclusive :
    (hash : Str) (s s' : List OneShot × List Consumer)
    → Step s s'
    → Exclusive hash s
    → Exclusive hash s'
Step-Exclusive hash _ _ (reads t before after h now) e =
    let old = succeeded-append hash before (waits h ∷ after) in
    let new =
      succeeded-append hash before (after_read h now (examine (find_row h t) now) ∷ after) in
    let same = succeeded-read hash h (find_row h t) now after in
    unfold succeeded in (ground (arith, old, new, same))
Step-Exclusive hash _ _ (writes t before after h now user) e =
    let old = succeeded-append hash before (holds h now user ∷ after) in
    let new = succeeded-append hash before (returned h (redeem t h now user).1 ∷ after) in
    let same = succeeded-write hash h user t now after in
    let rows = open_rows-mark h hash now t in
    unfold succeeded redeem in (ground (arith, old, new, same, rows, str_eq_iff h hash))

-- However the statements of any number of consumers interleave, at most one of those that present
-- the same token is answered with a user, where none had been when they began.
pub consumed_once :
    (hash : Str) (s s' : List OneShot × List Consumer)
    → Steps s s'
    → succeeded hash s.1 ≡ 0
    → succeeded hash s'.1 ≤ 1
consumed_once hash s s' steps none_yet = (keeps s s' steps (ground arith)).0
  where
    keeps :
        (s s' : List OneShot × List Consumer) → Steps s s' → Exclusive hash s → Exclusive hash s'
    keeps _ _ (stop s) e = e
    keeps _ _ (step s s' s'' one more) e = keeps s' s'' more (Step-Exclusive hash s s' one e)
