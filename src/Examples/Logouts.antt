-- ===== src/Examples/Logouts.antt =====
-- The theorems on crates/rustbase-auth/src/revocation.rs at concrete inputs.
use rustbase.Base.{◌+◌, leb, ◌≡◌, false, ◌&&◌, none, some}
use rustbase.Revocations.{SubjectKey, key_eq, RevocationSet, revoke, is_revoked}
use rustbase.Revocations.Window.{is_revoked-revoke}
use rustbase.Examples.{acme, ada}

abbrev key : SubjectKey
key = record { workspace = some acme; subject = ada }

abbrev empty : RevocationSet
empty = record { inner = λ k. none; ttl_seconds = 900 }

is_revoked-revoke_example :
    ((is_revoked (revoke empty key 1000) key 940 1100).1 ≡ (leb 940 1000 && leb 1100 (1000 + 900)))
    × ((other : SubjectKey)
        → key_eq other key ≡ false
        → (is_revoked (revoke empty key 1000) other 940 1100).1
          ≡ (is_revoked empty other 940 1100).1)
is_revoked-revoke_example = is_revoked-revoke empty key 940 1000 1100
