-- ===== src/RefreshTokens.antt =====
-- crates/rustbase-db/src/tokens.rs: the table of refresh tokens of one database, keyed by the hash of
-- the token. A time is a number since the epoch. A statement that SQLite refuses for a second row
-- with one key is an error, and a transaction with such a statement writes nothing.
pub mod Revoked
pub mod Session
use rustbase.Base.{
  ℕ, ◌+◌, ltb, Bool, true, false, not, ◌&&◌, Str, codes, str_eq, Option, none, some, List, [], ◌∷◌,
  map, length, keep, any, if◌then◌else◌,
}
use rustbase.Error.{Result, ok, err, internal, ◌>>=◌}

pub data SubjectKind : Type 0 where
  master_admin workspace_admin app_admin user : SubjectKind

unfoldable pub as_str : SubjectKind → Str
as_str master_admin = codes "master_admin"
as_str workspace_admin = codes "workspace_admin"
as_str app_admin = codes "app_admin"
as_str user = codes "user"

pub record RefreshToken : Type 0 where
  pub token_hash : Str
  pub subject_kind : Str
  pub subject_id : Str
  pub issued_at : ℕ
  pub expires_at : ℕ
  pub revoked : Bool

abbrev pub has_hash : Str → RefreshToken → Bool
has_hash hash r = str_eq r.token_hash hash

-- `UPDATE … SET revoked = 1 WHERE …`.
unfoldable pub revoke_if : (RefreshToken → Bool) → RefreshToken → RefreshToken
revoke_if p r = if p r then record r { revoked = true } else r

-- The conditions of the query for an active token.
abbrev pub is_active : Str → Str → ℕ → RefreshToken → Bool
is_active hash kind now r =
    has_hash hash r && (str_eq r.subject_kind kind && (not r.revoked && ltb now r.expires_at))

unfoldable pub find_active : Str → Str → ℕ → List RefreshToken → Option RefreshToken
find_active hash kind now [] = none
find_active hash kind now (r ∷ t) =
    if is_active hash kind now r then some r else find_active hash kind now t

abbrev pub new_row : Str → Str → Str → ℕ → ℕ → RefreshToken
new_row hash kind id now ttl = record {
  token_hash = hash;
  subject_kind = kind;
  subject_id = id;
  issued_at = now;
  expires_at = now + ttl;
  revoked = false;
}

-- The `INSERT` that three of the functions share, with the message of SQLite for a second row.
unfoldable pub insert_row :
    Str → List RefreshToken → RefreshToken → Result (List RefreshToken × RefreshToken)
insert_row duplicate t row =
    if any (has_hash row.token_hash) t then err (internal duplicate) else ok (row ∷ t, row)

module _ (hash_token : Str → Str) where
  unfoldable pub find_active_refresh_token :
      List RefreshToken → Str → SubjectKind → ℕ → Option RefreshToken
  unfolding find_active as_str
  find_active_refresh_token t token expected_kind now =
      find_active (hash_token token) (as_str expected_kind) now t

  unfoldable pub revoke_refresh_token : List RefreshToken → Str → List RefreshToken
  unfolding revoke_if
  revoke_refresh_token t token = map (revoke_if (has_hash (hash_token token))) t

module _ (hash_token : Str → Str) (duplicate : Str) where
  unfoldable pub insert_refresh_token :
      List RefreshToken
      → Str
      → SubjectKind
      → Str
      → ℕ
      → ℕ
      → Result (List RefreshToken × RefreshToken)
  unfolding insert_row as_str
  insert_refresh_token t token kind id now ttl =
      insert_row duplicate t (new_row (hash_token token) (as_str kind) id now ttl)

  -- The users of the database with the time of their last login.
  unfoldable pub commit_user_login :
      List (Str × Option ℕ)
      → List RefreshToken
      → Str
      → Str
      → ℕ
      → ℕ
      → Result ((List (Str × Option ℕ) × List RefreshToken) × RefreshToken)
  unfolding insert_row as_str
  commit_user_login users t user_id refresh_token now ttl = do
    let users' =
        map (λ (u : Str × Option ℕ). if str_eq u.0 user_id then (u.0, some now) else u) users
    (t', row) ←
        insert_row duplicate t (new_row (hash_token refresh_token) (as_str user) user_id now ttl)
    ok ((users', t'), row)

  unfoldable pub rotate_refresh_token :
      List RefreshToken
      → Str
      → Str
      → SubjectKind
      → Str
      → ℕ
      → ℕ
      → Result (List RefreshToken × RefreshToken)
  unfolding insert_row as_str revoke_refresh_token
  rotate_refresh_token t old_token new_token kind id now ttl =
      insert_row duplicate (revoke_refresh_token hash_token t old_token)
        (new_row (hash_token new_token) (as_str kind) id now ttl)

unfoldable pub revoke_all_for_subject :
    List RefreshToken → SubjectKind → Str → List RefreshToken × ℕ
unfolding as_str revoke_if
revoke_all_for_subject t kind id =
    let p : RefreshToken → Bool =
      λ r. str_eq r.subject_kind (as_str kind) && (str_eq r.subject_id id && not r.revoked) in
    (map (revoke_if p) t, length (keep p t))
