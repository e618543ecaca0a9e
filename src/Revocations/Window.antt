-- ===== src/Revocations/Window.antt =====
-- For how long an entry of crates/rustbase-auth/src/revocation.rs refuses which tokens.
use rustbase.Base.{
  ℕ, ◌+◌, ◌<◌, ltb, leb, ◌≡◌, ◌↔◌, refl, sym, ◌∙◌, Bool, true, false, ◌&&◌, Str, str_eq_iff, Option,
  none, some, if◌then◌else◌, arith,
}
use rustbase.Revocations.{
  SubjectKey, option_eq, key_eq, RevocationSet, revoke, is_revoked, retained, purge_expired,
}

option_eq_iff : (a b : Option Str) → (option_eq a b ≡ true) ↔ (a ≡ b)
unfolding option_eq
option_eq_iff none none = ground arith
option_eq_iff none (some b) = ground arith
option_eq_iff (some a) none = ground arith
option_eq_iff (some a) (some b) = ground (arith, str_eq_iff a b)

pub key_eq_refl : (k : SubjectKey) → key_eq k k ≡ true
unfolding key_eq
key_eq_refl k =
    ground (arith, option_eq_iff k.workspace k.workspace, str_eq_iff k.subject k.subject)

-- The answer from what the map holds for the key.
unfoldable pub answer : Option ℕ → ℕ → ℕ → ℕ → Bool
answer none ttl iat now = false
answer (some at) ttl iat now = if ltb (at + ttl) now then false else leb iat at

is_revoked-answer :
    (set : RevocationSet) (k : SubjectKey) (iat now : ℕ)
    → (is_revoked set k iat now).1 ≡ answer (set.inner k) set.ttl_seconds iat now
unfolding is_revoked answer
is_revoked-answer set k iat now = ground arith

answer-revoked :
    (same : Bool) (o : Option ℕ) (ttl iat now later : ℕ)
    → same ≡ true
    → answer (if same then some now else o) ttl iat later ≡ (leb iat now && leb later (now + ttl))
unfolding answer
answer-revoked same o ttl iat now later e = rw e (ground arith)

answer-retained :
    (set : RevocationSet) (o : Option ℕ) (iat now later : ℕ)
    → now < later
    → answer (retained set now o) set.ttl_seconds iat later ≡ answer o set.ttl_seconds iat later
unfolding answer retained
answer-retained set none iat now later h = refl
answer-retained set (some at) iat now later h = ground arith

-- After a revocation a token of the subject is refused exactly if it was issued no later than the
-- revocation and the entry has not outlived its time; every other subject is answered as before.
pub is_revoked-revoke :
    (set : RevocationSet) (key : SubjectKey) (iat now later : ℕ)
    → ((is_revoked (revoke set key now) key iat later).1
        ≡ (leb iat now && leb later (now + set.ttl_seconds)))
      × ((other : SubjectKey)
          → key_eq other key ≡ false
          → (is_revoked (revoke set key now) other iat later).1
            ≡ (is_revoked set other iat later).1)
unfolding revoke
is_revoked-revoke set key iat now later = (
  is_revoked-answer (revoke set key now) key iat later
      ∙ answer-revoked (key_eq key key) (set.inner key) set.ttl_seconds iat now later
          (key_eq_refl key),
  λ other n.
      is_revoked-answer (revoke set key now) other iat later
      ∙ rw n refl
      ∙ sym (is_revoked-answer set other iat later),
)

-- A purge changes no later answer: what it drops would no longer refuse any token.
pub is_revoked-purge_expired :
    (set : RevocationSet) (key : SubjectKey) (iat now later : ℕ)
    → now < later
    → (is_revoked (purge_expired set now) key iat later).1 ≡ (is_revoked set key iat later).1
unfolding purge_expired
is_revoked-purge_expired set key iat now later h =
    is_revoked-answer (purge_expired set now) key iat later
    ∙ answer-retained set (set.inner key) iat now later h
    ∙ sym (is_revoked-answer set key iat later)
