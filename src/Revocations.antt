-- ===== src/Revocations.antt =====
-- crates/rustbase-auth/src/revocation.rs: the forced logouts. A time is a number of seconds since the
-- epoch; what the source subtracts from the present it is here added to the past.
pub mod Window
use rustbase.Base.{
  ℕ, ◌+◌, ltb, leb, Bool, true, false, ◌&&◌, Str, str_eq, Option, none, some, if◌then◌else◌,
}

pub record SubjectKey : Type 0 where
  pub workspace : Option Str
  pub subject : Str

unfoldable pub option_eq : Option Str → Option Str → Bool
option_eq none none = true
option_eq none (some b) = false
option_eq (some a) none = false
option_eq (some a) (some b) = str_eq a b

-- The derived `Eq` of `SubjectKey`.
unfoldable pub key_eq : SubjectKey → SubjectKey → Bool
unfolding option_eq
key_eq a b = option_eq a.workspace b.workspace && str_eq a.subject b.subject

-- The map, as what it holds for each key, and the life of an entry.
pub record RevocationSet : Type 0 where
  pub inner : SubjectKey → Option ℕ
  pub ttl_seconds : ℕ

unfoldable pub revoke : RevocationSet → SubjectKey → ℕ → RevocationSet
unfolding key_eq
revoke set key now = record set { inner = λ k. if key_eq k key then some now else set.inner k }

unfoldable pub is_revoked : RevocationSet → SubjectKey → ℕ → ℕ → RevocationSet × Bool
unfolding key_eq
is_revoked set key token_iat now = elim (set.inner key) [
  | none ↦ (set, false)
  | some revoked_at ↦
      if ltb (revoked_at + set.ttl_seconds) now
      then (record set { inner = λ k. if key_eq k key then none else set.inner k }, false)
      else (set, leb token_iat revoked_at)
]

-- `retain` of one entry: `revoked_at > now - ttl_seconds`.
unfoldable pub retained : RevocationSet → ℕ → Option ℕ → Option ℕ
retained set now none = none
retained set now (some revoked_at) =
    if ltb now (revoked_at + set.ttl_seconds) then some revoked_at else none

unfoldable pub purge_expired : RevocationSet → ℕ → RevocationSet
unfolding retained
purge_expired set now = record set { inner = λ k. retained set now (set.inner k) }
