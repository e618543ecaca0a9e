-- ===== src/RefreshTokens/Revoked.antt =====
-- The revoked rows of the table of crates/rustbase-db/src/tokens.rs, and what a new row adds to it.
use rustbase.Base.{
  ℕ, ◌≡◌, refl, sym, ◌∙◌, Bool, true, not, ◌||◌, Bool-cases, inl, inr, Str, str_eq_iff, none, List,
  [], ◌∷◌, map, any, all, arith,
}
use mathlib.Core.Bool.{true≢false}
use rustbase.Error.{OnOk}
use rustbase.RefreshTokens.{RefreshToken, has_hash, revoke_if, find_active, insert_row}

-- A hash whose rows, of which there is one, are revoked.
abbrev pub Revoked : Str → List RefreshToken → Type 0
Revoked hash t =
    (any (has_hash hash) t ≡ true) × (all (λ r. not (has_hash hash r) || r.revoked) t ≡ true)

pub Revoked-find_active :
    (hash kind : Str) (now : ℕ) (t : List RefreshToken)
    → all (λ r. not (has_hash hash r) || r.revoked) t ≡ true
    → find_active hash kind now t ≡ none
unfolding find_active
Revoked-find_active hash kind now [] h = refl
Revoked-find_active hash kind now (r ∷ t) h = ground (arith, Revoked-find_active hash kind now t)

pub any-revoke_if :
    (p : RefreshToken → Bool) (hash : Str) (t : List RefreshToken)
    → any (has_hash hash) (map (revoke_if p) t) ≡ any (has_hash hash) t
unfolding revoke_if
any-revoke_if p hash [] = refl
any-revoke_if p hash (r ∷ t) = ground (arith, any-revoke_if p hash t)

pub all-revoke_if :
    (p : RefreshToken → Bool) (hash : Str) (t : List RefreshToken)
    → all (λ r. not (has_hash hash r) || r.revoked) t ≡ true
    → all (λ r. not (has_hash hash r) || r.revoked) (map (revoke_if p) t) ≡ true
unfolding revoke_if
all-revoke_if p hash [] h = refl
all-revoke_if p hash (r ∷ t) h = ground (arith, all-revoke_if p hash t)

pub all-revoke_hash :
    (hash : Str) (t : List RefreshToken)
    → all (λ r. not (has_hash hash r) || r.revoked) (map (revoke_if (has_hash hash)) t) ≡ true
unfolding revoke_if
all-revoke_hash hash [] = refl
all-revoke_hash hash (r ∷ t) = ground (arith, all-revoke_hash hash t)

pub insert_row-Revoked :
    (hash duplicate : Str) (t : List RefreshToken) (row : RefreshToken)
    → Revoked hash t
    → OnOk (λ (r : List RefreshToken × RefreshToken). Revoked hash r.0) (insert_row duplicate t row)
unfolding insert_row
insert_row-Revoked hash duplicate t row h = elim (Bool-cases (any (has_hash row.token_hash) t)) [
  | inl e ↦ rw e tt
  | inr e ↦ rw e (elim (Bool-cases (has_hash hash row)) [
    | inl same ↦ absurd (true≢false (sym h.0 ∙ rw (← (str_eq_iff row.token_hash hash).0 same) e))
    | inr other ↦ ground arith
  ])
]
