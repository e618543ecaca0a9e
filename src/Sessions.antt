-- ===== src/Sessions.antt =====
-- crates/rustbase-api/src/auth/refresh.rs and logout.rs: the exchange of a refresh token and the end
-- of a dashboard session, over the tables of refresh tokens of the system and of the workspaces. A
-- handler returns the new state with its answer, since the last error comes after the rotation. The
-- signature of an access token is a parameter; what a handler draws and the times at which it reads
-- the clock are arguments. Cookies that only repeat the answer are left out, as are the metrics.
pub mod Kept
use rustbase.Base.{
  ℕ, Bool, true, false, Str, lookup, upsert, Option, none, some, List, is_empty, if◌then◌else◌,
}
use rustbase.Error.{Result, ok, err, ◌>>=◌, unauthorized, workspace_not_found, internal}
use rustbase.Auth.{Claims, TokenRole, build_claims}
use rustbase.RefreshTokens.{
  SubjectKind, RefreshToken, find_active_refresh_token, revoke_refresh_token, rotate_refresh_token,
}

-- The table of each database, those of the workspaces by their identifiers.
pub record Tables : Type 0 where
  pub system : List RefreshToken
  pub workspaces : List (Str × List RefreshToken)

pub record RefreshResponse : Type 0 where
  pub access_token : Str
  pub refresh_token : Str

-- What a call draws, and when it looks for the token, rotates it, and builds the claims.
pub record Draw : Type 0 where
  pub issued : Str
  pub jti : Str
  pub found_at : ℕ
  pub rotated_at : ℕ
  pub built_at : ℕ

-- `pick_refresh_token`, and the choice of `logout`: the body's token unless it is empty, or the
-- cookie's.
unfoldable pub pick_refresh_token : Option Str → Option Str → Option Str
pick_refresh_token none cookie = cookie
pick_refresh_token (some token) cookie = if is_empty token then cookie else some token

module _ (hash_token : Str → Str) (duplicate : Str) (sign : Claims → Result Str)
    (access_ttl refresh_ttl : ℕ) where
  -- The steps behind the rotation.
  abbrev pub answer :
      TokenRole
      → Option Str
      → Draw
      → Str
      → List RefreshToken
      → Result (List RefreshToken × RefreshToken)
      → List RefreshToken × Result RefreshResponse
  answer role workspace draw subject t (err e) = (t, err e)
  answer role workspace draw subject t (ok (t', row)) = (
    t',
    sign (build_claims subject role workspace none access_ttl draw.built_at draw.jti) >>= λ access.
        ok (record { access_token = access; refresh_token = draw.issued }),
  )

  -- The rotation of the row that was found.
  abbrev pub exchange :
      SubjectKind
      → TokenRole
      → Option Str
      → Draw
      → Str
      → List RefreshToken
      → Option RefreshToken
      → List RefreshToken × Result RefreshResponse
  exchange kind role workspace draw presented t none = (t, err unauthorized)
  exchange kind role workspace draw presented t (some existing) =
      answer role workspace draw existing.subject_id t (
        rotate_refresh_token hash_token duplicate t presented draw.issued kind existing.subject_id
          draw.rotated_at refresh_ttl)

  -- The part of the three handlers that works on one table.
  unfoldable pub refresh_in :
      SubjectKind
      → TokenRole
      → Option Str
      → Draw
      → List RefreshToken
      → Option Str
      → List RefreshToken × Result RefreshResponse
  unfolding find_active_refresh_token rotate_refresh_token build_claims
  refresh_in kind role workspace draw t none = (t, err unauthorized)
  refresh_in kind role workspace draw t (some presented) =
      exchange kind role workspace draw presented t
        (find_active_refresh_token hash_token t presented kind draw.found_at)

  unfoldable pub master_admin_refresh :
      Tables → Option Str → Option Str → Draw → Tables × Result RefreshResponse
  unfolding pick_refresh_token refresh_in
  master_admin_refresh s body cookie draw =
      let r =
        refresh_in SubjectKind.master_admin TokenRole.master_admin none draw s.system
          (pick_refresh_token body cookie) in
      (record s { system = r.0 }, r.1)

  -- A handler on the database of a workspace.
  abbrev pub on_workspace :
      Tables → Str → List RefreshToken × Result RefreshResponse → Tables × Result RefreshResponse
  on_workspace s workspace r = (record s { workspaces = upsert workspace r.0 s.workspaces }, r.1)

  -- The handler for users, by the table of the workspace.
  abbrev pub user_refresh_inner :
      Tables
      → Str
      → Option Str
      → Option Str
      → Draw
      → Option (List RefreshToken)
      → Tables × Result RefreshResponse
  user_refresh_inner s workspace body cookie draw none = (s, err (workspace_not_found workspace))
  user_refresh_inner s workspace body cookie draw (some t) = on_workspace s workspace (
      refresh_in SubjectKind.user TokenRole.user (some workspace) draw t
        (pick_refresh_token body cookie))

  unfoldable pub user_refresh :
      Tables → Str → Option Str → Option Str → Draw → Tables × Result RefreshResponse
  unfolding pick_refresh_token refresh_in
  user_refresh s workspace body cookie draw =
      user_refresh_inner s workspace body cookie draw (lookup workspace s.workspaces)

  -- The handler for the administrators of a workspace does not ask whether the workspace exists: the
  -- database that it opens then is a new one, without tables.
  abbrev pub workspace_admin_refresh_inner :
      Str
      → Tables
      → Str
      → Draw
      → Option Str
      → Option (List RefreshToken)
      → Tables × Result RefreshResponse
  workspace_admin_refresh_inner no_tables s workspace draw none o = (s, err unauthorized)
  workspace_admin_refresh_inner no_tables s workspace draw (some presented) none =
      (s, err (internal no_tables))
  workspace_admin_refresh_inner no_tables s workspace draw (some presented) (some t) =
      on_workspace s workspace (
        refresh_in SubjectKind.workspace_admin TokenRole.workspace_admin (some workspace) draw t
          (some presented))

  unfoldable pub workspace_admin_refresh :
      Str → Tables → Str → Option Str → Option Str → Draw → Tables × Result RefreshResponse
  unfolding pick_refresh_token refresh_in
  workspace_admin_refresh no_tables s workspace body cookie draw =
      workspace_admin_refresh_inner no_tables s workspace draw (pick_refresh_token body cookie)
        (lookup workspace s.workspaces)

-- `revoke_under_master`, where a token is presented. A body that is no JSON is no body.
module _ (hash_token : Str → Str) where
  abbrev pub revoke_under_master : Tables → Option Str → Tables
  revoke_under_master s none = s
  revoke_under_master s (some token) = record s {
    system = revoke_refresh_token hash_token s.system token;
  }

  unfoldable pub logout : Tables → Option Str → Option Str → Tables
  unfolding pick_refresh_token revoke_refresh_token
  logout s body cookie = revoke_under_master s (pick_refresh_token body cookie)
