-- ===== src/RefreshTokens/Session.antt =====
-- What the operations of crates/rustbase-db/src/tokens.rs mean for the session of a token.
use rustbase.Base.{
  ℕ, ◌+◌, ltb, ◌≡◌, refl, ap, ◌∙◌, Bool, true, false, Str, str_eq_refl, Option, none, some, List,
  [], ◌∷◌, map, any, if◌then◌else◌, arith,
}
use rustbase.Error.{Result, ok, err, ◌>>=◌, OnOk, OnOk-ok}
use rustbase.RefreshTokens.{
  SubjectKind, as_str, RefreshToken, has_hash, revoke_if, find_active, new_row, insert_row,
  insert_refresh_token, find_active_refresh_token, revoke_refresh_token, commit_user_login,
  rotate_refresh_token, revoke_all_for_subject,
}
use rustbase.RefreshTokens.Revoked.{
  Revoked, Revoked-find_active, any-revoke_if, all-revoke_if, all-revoke_hash, insert_row-Revoked,
}

-- The operations that write the table.
pub data Operation : Type 0 where
  inserts : Str → SubjectKind → Str → ℕ → ℕ → Operation
  logs_in : List (Str × Option ℕ) → Str → Str → ℕ → ℕ → Operation
  rotates : Str → Str → SubjectKind → Str → ℕ → ℕ → Operation
  revokes : Str → Operation
  revokes_all : SubjectKind → Str → Operation

-- The table after a call: an error has written nothing.
unfoldable pub written :
    List RefreshToken → Result (List RefreshToken × RefreshToken) → List RefreshToken
written t (ok r) = r.0
written t (err e) = t

written-Revoked :
    (hash : Str) (t : List RefreshToken) (m : Result (List RefreshToken × RefreshToken))
    → Revoked hash t
    → OnOk (λ (r : List RefreshToken × RefreshToken). Revoked hash r.0) m
    → Revoked hash (written t m)
unfolding written
written-Revoked hash t (ok r) h k = k
written-Revoked hash t (err e) h k = h

abbrev Login : Type 0
Login = (List (Str × Option ℕ) × List RefreshToken) × RefreshToken

abbrev table_of : Login → Result (List RefreshToken × RefreshToken)
table_of r = ok (r.0.1, r.1)

abbrev with_users : List (Str × Option ℕ) → List RefreshToken × RefreshToken → Result Login
with_users us r = ok ((us, r.0), r.1)

written-login :
    (hash : Str) (t : List RefreshToken) (us : List (Str × Option ℕ))
    (m : Result (List RefreshToken × RefreshToken))
    → Revoked hash t
    → OnOk (λ (r : List RefreshToken × RefreshToken). Revoked hash r.0) m
    → Revoked hash (written t ((m >>= with_users us) >>= table_of))
unfolding written
written-login hash t us (ok r) h k = k
written-login hash t us (err e) h k = h

insert_row-ok :
    (duplicate : Str) (t t' : List RefreshToken) (row row' : RefreshToken)
    → insert_row duplicate t row ≡ ok (t', row')
    → (any (has_hash row.token_hash) t ≡ false) × (t' ≡ row ∷ t) × (row' ≡ row)
unfolding insert_row
insert_row-ok duplicate t t' row row' e = ground arith

find_active-any :
    (hash kind : Str) (now : ℕ) (t : List RefreshToken) (r : RefreshToken)
    → find_active hash kind now t ≡ some r
    → any (has_hash hash) t ≡ true
unfolding find_active
find_active-any hash kind now [] r e = cc
find_active-any hash kind now (q ∷ t) r e = ground (arith, find_active-any hash kind now t r)

find_active-absent :
    (hash kind : Str) (now : ℕ) (t : List RefreshToken)
    → any (has_hash hash) t ≡ false
    → find_active hash kind now t ≡ none
unfolding find_active
find_active-absent hash kind now [] e = refl
find_active-absent hash kind now (q ∷ t) e = ground (arith, find_active-absent hash kind now t)

-- A fresh row is the active one until it expires.
find_active-new :
    (hash kind id : Str) (now ttl later : ℕ) (t : List RefreshToken)
    → any (has_hash hash) t ≡ false
    → find_active hash kind later (new_row hash kind id now ttl ∷ t)
      ≡ (if ltb later (now + ttl) then some (new_row hash kind id now ttl) else none)
unfolding find_active
find_active-new hash kind id now ttl later t h =
    ground (arith, str_eq_refl hash, str_eq_refl kind, find_active-absent hash kind later t h)

revoke_if-Revoked :
    (p : RefreshToken → Bool) (hash : Str) (t : List RefreshToken)
    → Revoked hash t
    → Revoked hash (map (revoke_if p) t)
revoke_if-Revoked p hash t h = (any-revoke_if p hash t ∙ h.0, all-revoke_if p hash t h.1)

module _ (hash_token : Str → Str) (duplicate : Str) where
  unfoldable pub operate : List RefreshToken → Operation → List RefreshToken
  operate t (inserts token kind id now ttl) =
      written t (insert_refresh_token hash_token duplicate t token kind id now ttl)
  operate t (logs_in users id token now ttl) =
      written t (commit_user_login hash_token duplicate users t id token now ttl >>= table_of)
  operate t (rotates old new kind id now ttl) =
      written t (rotate_refresh_token hash_token duplicate t old new kind id now ttl)
  operate t (revokes token) = revoke_refresh_token hash_token t token
  operate t (revokes_all kind id) = (revoke_all_for_subject t kind id).0

  unfoldable pub operate_all : List RefreshToken → List Operation → List RefreshToken
  operate_all t [] = t
  operate_all t (o ∷ os) = operate_all (operate t o) os

  operate-Revoked :
      (hash : Str) (t : List RefreshToken) (o : Operation)
      → Revoked hash t
      → Revoked hash (operate t o)
  unfolding operate
  operate-Revoked hash t (inserts token kind id now ttl) h =
      unfold insert_refresh_token in
      (written-Revoked hash t _ h (insert_row-Revoked hash duplicate t _ h))
  operate-Revoked hash t (logs_in users id token now ttl) h =
      unfold commit_user_login in
      (written-login hash t _ _ h (insert_row-Revoked hash duplicate t _ h))
  operate-Revoked hash t (rotates old new kind id now ttl) h =
      unfold rotate_refresh_token revoke_refresh_token in
      (written-Revoked hash t _ h (
        insert_row-Revoked hash duplicate _ _
          (revoke_if-Revoked (has_hash (hash_token old)) hash t h)))
  operate-Revoked hash t (revokes token) h =
      unfold revoke_refresh_token in (revoke_if-Revoked (has_hash (hash_token token)) hash t h)
  operate-Revoked hash t (revokes_all kind id) h =
      unfold revoke_all_for_subject in (revoke_if-Revoked _ hash t h)

  operate_all-Revoked :
      (hash : Str) (t : List RefreshToken) (os : List Operation)
      → Revoked hash t
      → Revoked hash (operate_all t os)
  unfolding operate_all
  operate_all-Revoked hash t [] h = h
  operate_all-Revoked hash t (o ∷ os) h =
      operate_all-Revoked hash (operate t o) os (operate-Revoked hash t o h)

  -- A token whose row has been revoked is never active again, at any time and for any kind of
  -- subject, whatever operations of the table follow.
  pub never_active_again :
      (t : List RefreshToken) (token : Str) (os : List Operation) (kind : SubjectKind) (now : ℕ)
      → Revoked (hash_token token) t
      → find_active_refresh_token hash_token (operate_all t os) token kind now ≡ none
  unfolding find_active_refresh_token
  never_active_again t token os kind now h =
      Revoked-find_active (hash_token token) (as_str kind) now (operate_all t os)
        (operate_all-Revoked (hash_token token) t os h).1

  -- A rotation that succeeds for a token that was active ends it: the old token is not active at any
  -- later point, whatever operations follow, and the new token is active for the subject until the
  -- time that it was given is over.
  pub rotate_refresh_token-ends_old :
      (t t' : List RefreshToken) (old new : Str) (kind kind' : SubjectKind) (id : Str)
      (r row : RefreshToken) (now before later ttl : ℕ) (os : List Operation)
      → find_active_refresh_token hash_token t old kind before ≡ some r
      → rotate_refresh_token hash_token duplicate t old new kind id now ttl ≡ ok (t', row)
      → (find_active_refresh_token hash_token (operate_all t' os) old kind' later ≡ none)
        × (find_active_refresh_token hash_token t' new kind later
            ≡ (if ltb later (now + ttl) then some row else none))
        × (row.subject_id ≡ id)
  rotate_refresh_token-ends_old t t' old new kind kind' id r row now before later ttl os f e =
      unfold rotate_refresh_token revoke_refresh_token find_active_refresh_token in
      (let hash = hash_token old in
        let (fresh, table, same) =
          insert_row-ok duplicate (revoke_refresh_token hash_token t old) t'
            (new_row (hash_token new) (as_str kind) id now ttl) row e in
        let was = find_active-any hash (as_str kind) before t r f in
        let dead : Revoked hash (revoke_refresh_token hash_token t old) =
          (any-revoke_if (has_hash hash) hash t ∙ was, all-revoke_hash hash t) in
        let ended : Revoked hash t' =
          OnOk-ok (λ (q : List RefreshToken × RefreshToken). Revoked hash q.0) _ (t', row)
            (insert_row-Revoked hash duplicate (revoke_refresh_token hash_token t old) _ dead) e in
        (
          never_active_again t' old os kind' later ended,
          rw table (
              rw same (
                find_active-new (hash_token new) (as_str kind) id now ttl later
                  (revoke_refresh_token hash_token t old) fresh)),
          ap (λ (q : RefreshToken). q.subject_id) same,
        ))
