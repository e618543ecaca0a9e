-- ===== src/Sessions/Kept.antt =====
-- The sessions of crates/rustbase-api/src/auth/refresh.rs and logout.rs through the tables that they
-- work on.
use rustbase.Base.{
  ℕ, ◌+◌, ltb, ◌≡◌, refl, sym, ap, ◌∙◌, true, false, Str, str_eq, lookup, upsert, lookup-upsert,
  str_eq_refl, Option, none, some, List, any, if◌then◌else◌,
}
use rustbase.Error.{Result, ok, err, bind-ok, ok-same, unauthorized}
use rustbase.Auth.{Claims, TokenRole, build_claims}
use rustbase.RefreshTokens.{
  SubjectKind, RefreshToken, has_hash, find_active_refresh_token, revoke_refresh_token,
  rotate_refresh_token,
}
use rustbase.RefreshTokens.Session.{
  Operation, operate_all, never_active_again, rotate_refresh_token-ends_old,
}
use rustbase.RefreshTokens.Revoked.{Revoked, any-revoke_if, all-revoke_hash}
use rustbase.Sessions.{
  Tables, RefreshResponse, Draw, pick_refresh_token, answer, exchange, refresh_in, on_workspace,
  user_refresh_inner, user_refresh, logout, revoke_under_master, master_admin_refresh,
}

module _ (hash_token : Str → Str) (duplicate : Str) (sign : Claims → Result Str)
    (access_ttl refresh_ttl : ℕ) where
  -- What a successful exchange on one table found, and what it left.
  pub record Exchanged (kind : SubjectKind) (role : TokenRole) (workspace : Option Str)
      (draw : Draw) (t t' : List RefreshToken) (presented : Str) (resp : RefreshResponse)
      : Type 0 where
    pub existing : RefreshToken
    pub row : RefreshToken
    pub was_active :
        find_active_refresh_token hash_token t presented kind draw.found_at ≡ some existing
    pub rotated :
        rotate_refresh_token hash_token duplicate t presented draw.issued kind existing.subject_id
          draw.rotated_at refresh_ttl
        ≡ ok (t', row)
    pub signed :
        sign
          (build_claims existing.subject_id role workspace none access_ttl draw.built_at draw.jti)
        ≡ ok resp.access_token
    pub handed_out : resp.refresh_token ≡ draw.issued

  exchange-Exchanged :
      (kind : SubjectKind) (role : TokenRole) (workspace : Option Str) (draw : Draw)
      (t t' : List RefreshToken) (presented : Str) (resp : RefreshResponse)
      (o : Option RefreshToken)
      → find_active_refresh_token hash_token t presented kind draw.found_at ≡ o
      → exchange hash_token duplicate sign access_ttl refresh_ttl kind role workspace draw presented
          t o
        ≡ (t', ok resp)
      → Exchanged kind role workspace draw t t' presented resp
  exchange-Exchanged kind role workspace draw t t' presented resp none f h = absurd (cc)
  exchange-Exchanged kind role workspace draw t t' presented resp (some r) f h = after _ refl h
    where
      after :
          (m : Result (List RefreshToken × RefreshToken))
          → rotate_refresh_token hash_token duplicate t presented draw.issued kind r.subject_id
              draw.rotated_at refresh_ttl
            ≡ m
          → answer hash_token duplicate sign access_ttl refresh_ttl role workspace draw r.subject_id
              t m
            ≡ (t', ok resp)
          → Exchanged kind role workspace draw t t' presented resp
      after (err e) d h = absurd (cc)
      after (ok (u, row)) d h =
          let (access, signed, made) = bind-ok (sign _) _ resp (ap (λ p. p.1) h) in
          let same : u ≡ t' = ap (λ p. p.0) h in
          record {
            existing = r;
            row = row;
            was_active = f;
            rotated = d ∙ ap (λ v. ok (v, row)) same;
            signed = signed ∙ ap (λ (x : RefreshResponse). ok x.access_token) (ok-same made);
            handed_out = sym (ap (λ (x : RefreshResponse). x.refresh_token) (ok-same made));
          }

  picked-Exchanged :
      (kind : SubjectKind) (role : TokenRole) (workspace : Option Str) (draw : Draw)
      (t t' : List RefreshToken) (o : Option Str) (resp : RefreshResponse)
      → refresh_in hash_token duplicate sign access_ttl refresh_ttl kind role workspace draw t o
        ≡ (t', ok resp)
      → (presented : Str) × (o ≡ some presented)
        × Exchanged kind role workspace draw t t' presented resp
  unfolding refresh_in
  picked-Exchanged kind role workspace draw t t' none resp h = absurd (cc)
  picked-Exchanged kind role workspace draw t t' (some presented) resp h =
      (presented, refl, exchange-Exchanged kind role workspace draw t t' presented resp _ refl h)

  -- What a refresh of a user leaves, by the table of the workspace that it found.
  abbrev pub UserRefreshed :
      Tables
      → Tables
      → Str
      → Str
      → Option Str
      → Option Str
      → Draw
      → RefreshResponse
      → List Operation
      → ℕ
      → Type 0
  UserRefreshed s s' workspace other body cookie draw resp os later =
      (t : List RefreshToken) × (t' : List RefreshToken) × (presented : Str) × (done : Exchanged
        SubjectKind.user TokenRole.user (some workspace) draw t t' presented resp)
      × (lookup workspace s.workspaces ≡ some t)
      × (lookup workspace s'.workspaces ≡ some t')
      × (pick_refresh_token body cookie ≡ some presented)
      × (find_active_refresh_token hash_token (operate_all hash_token duplicate t' os) presented
            SubjectKind.user later
          ≡ none)
      × (find_active_refresh_token hash_token t' resp.refresh_token SubjectKind.user later
          ≡ (if ltb later (draw.rotated_at + refresh_ttl) then some done.row else none))
      × (s'.system ≡ s.system)
      × (lookup other s'.workspaces ≡ lookup other s.workspaces)

  found-UserRefreshed :
      (s s' : Tables) (workspace other : Str) (body cookie : Option Str) (draw : Draw)
      (resp : RefreshResponse) (os : List Operation) (later : ℕ) (t : List RefreshToken)
      → str_eq workspace other ≡ false
      → lookup workspace s.workspaces ≡ some t
      → on_workspace hash_token duplicate sign access_ttl refresh_ttl s workspace (
          refresh_in hash_token duplicate sign access_ttl refresh_ttl SubjectKind.user
            TokenRole.user
            (some workspace)
            draw
            t
            (pick_refresh_token body cookie))
        ≡ (s', ok resp)
      → UserRefreshed s s' workspace other body cookie draw resp os later
  found-UserRefreshed s s' workspace other body cookie draw resp os later t differ found h =
      let r =
        refresh_in hash_token duplicate sign access_ttl refresh_ttl SubjectKind.user TokenRole.user
          (some workspace) draw t (pick_refresh_token body cookie) in
      let tables : upsert workspace r.0 s.workspaces ≡ s'.workspaces = ap (λ p. p.0.workspaces) h in
      let answered : r.1 ≡ ok resp = ap (λ p. p.1) h in
      let (presented, picked, done) =
        picked-Exchanged SubjectKind.user TokenRole.user (some workspace) draw t r.0
          (pick_refresh_token body cookie) resp (λ i. (r.0, answered i)) in
      let (dead, alive, same_id) =
        rotate_refresh_token-ends_old hash_token duplicate t r.0 presented draw.issued
          SubjectKind.user SubjectKind.user done.existing.subject_id done.existing done.row
          draw.rotated_at draw.found_at later refresh_ttl os done.was_active done.rotated in
      (
        t,
        r.0,
        presented,
        done,
        found,
        ap (lookup workspace) (sym tables)
            ∙ lookup-upsert workspace workspace r.0 s.workspaces
            ∙ ap (λ b. if b then some r.0 else lookup workspace s.workspaces)
                (str_eq_refl workspace),
        picked,
        dead,
        ap (λ x. find_active_refresh_token hash_token r.0 x SubjectKind.user later) done.handed_out
            ∙ alive,
        sym (ap (λ p. p.0.system) h),
        ap (lookup other) (sym tables)
            ∙ lookup-upsert workspace other r.0 s.workspaces
            ∙ ap (λ b. if b then some r.0 else lookup other s.workspaces) differ,
      )

  -- A user who is answered by a refresh presented a token that was active in the workspace, and gets
  -- claims for its subject, as a user of that workspace, with a new token that is active there for
  -- its time. The token presented is never active again, whatever operations follow, and the tables
  -- of the system and of every other workspace are as they were.
  pub user_refresh-UserRefreshed :
      (s s' : Tables) (workspace other : Str) (body cookie : Option Str) (draw : Draw)
      (resp : RefreshResponse) (os : List Operation) (later : ℕ)
      → str_eq workspace other ≡ false
      → user_refresh hash_token duplicate sign access_ttl refresh_ttl s workspace body cookie draw
        ≡ (s', ok resp)
      → UserRefreshed s s' workspace other body cookie draw resp os later
  unfolding user_refresh
  user_refresh-UserRefreshed s s' workspace other body cookie draw resp os later differ h =
      settled (lookup workspace s.workspaces) refl h
    where
      settled :
          (o : Option (List RefreshToken))
          → lookup workspace s.workspaces ≡ o
          → user_refresh_inner hash_token duplicate sign access_ttl refresh_ttl s workspace body
              cookie draw o
            ≡ (s', ok resp)
          → UserRefreshed s s' workspace other body cookie draw resp os later
      settled none e h = absurd (cc)
      settled (some t) e h =
          found-UserRefreshed s s' workspace other body cookie draw resp os later t differ e h

module _ (hash_token : Str → Str) (duplicate : Str) (sign : Claims → Result Str)
    (access_ttl refresh_ttl : ℕ) where
  -- After a logout the token that it was given, if the system has it, gets nothing from the refresh
  -- of a master administrator, whatever operations of the table come between: the answer is
  -- unauthorized, and nothing is written.
  pub logout-master_admin_refresh :
      (s later : Tables) (body cookie : Option Str) (token : Str) (draw : Draw)
      (os : List Operation)
      → pick_refresh_token body cookie ≡ some token
      → any (has_hash (hash_token token)) s.system ≡ true
      → later.system ≡ operate_all hash_token duplicate (logout hash_token s body cookie).system os
      → master_admin_refresh hash_token duplicate sign access_ttl refresh_ttl later body cookie draw
        ≡ (later, err unauthorized)
  unfolding logout master_admin_refresh refresh_in
  logout-master_admin_refresh s later body cookie token draw os picked known same =
      let revoked = revoke_refresh_token hash_token s.system token in
      let out : (logout hash_token s body cookie).system ≡ revoked =
        ap (λ o. (revoke_under_master hash_token s o).system) picked in
      let dead : Revoked (hash_token token) revoked =
        unfold revoke_refresh_token in
        (
          any-revoke_if (has_hash (hash_token token)) (hash_token token) s.system ∙ known,
          all-revoke_hash (hash_token token) s.system,
        ) in
      let table = same ∙ ap (λ t. operate_all hash_token duplicate t os) out in
      let missing =
        ap
          (λ t. find_active_refresh_token hash_token t token SubjectKind.master_admin draw.found_at)
          table
        ∙ never_active_again hash_token duplicate revoked token os SubjectKind.master_admin
            draw.found_at dead in
      let refreshed =
        ap
          (refresh_in hash_token duplicate sign access_ttl refresh_ttl SubjectKind.master_admin
            TokenRole.master_admin none draw later.system)
          picked
        ∙ ap
            (exchange hash_token duplicate sign access_ttl refresh_ttl SubjectKind.master_admin
              TokenRole.master_admin none draw token later.system)
            missing in
      ap (λ (p : List RefreshToken × Result RefreshResponse). (record later { system = p.0 }, p.1))
        refreshed
