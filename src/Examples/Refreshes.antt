-- ===== src/Examples/Refreshes.antt =====
-- The theorems on refreshes and logouts at concrete inputs.
use rustbase.Base.{◌≡◌, refl, true, Str, codes, str_eq, none, some, lookup, upsert, List, [], ◌∷◌}
use rustbase.Error.{Result, ok, err, unauthorized}
use rustbase.Auth.{Claims}
use rustbase.RefreshTokens.{master_admin, user, RefreshToken, new_row, as_str}
use rustbase.RefreshTokens.Session.{revokes, operate_all}
use rustbase.Sessions.{
  Tables, RefreshResponse, Draw, pick_refresh_token, user_refresh, master_admin_refresh, logout,
}
use rustbase.Sessions.Kept.{UserRefreshed, user_refresh-UserRefreshed, logout-master_admin_refresh}
use rustbase.Examples.{acme, widgets, ada, bob, digest}

abbrev taken : Str
taken = codes "UNIQUE constraint failed"

-- A function in the place of the signature.
abbrev signed : Claims → Result Str
signed c = ok c.sub

abbrev kept_by : Str → Str → Str → List RefreshToken
kept_by token kind subject = new_row (digest token) kind subject 100 60 ∷ []

abbrev before : Tables
before = record {
  system = kept_by (codes "root") (as_str master_admin) bob;
  workspaces = (acme, kept_by (codes "old") (as_str user) ada) ∷ (widgets, []) ∷ [];
}

abbrev draw : Draw
draw = record {
  issued = codes "new";
  jti = codes "7";
  found_at = 110;
  rotated_at = 111;
  built_at = 112;
}

abbrev refreshed : Tables
refreshed = record before {
  workspaces =
      (
        acme,
        new_row (digest (codes "new")) (as_str user) ada 111 60
            ∷ record (new_row (digest (codes "old")) (as_str user) ada 100 60) { revoked = true }
            ∷ [],
      )
      ∷ (widgets, [])
      ∷ [];
}

abbrev answered : RefreshResponse
answered = record { access_token = ada; refresh_token = codes "new" }

user_refresh-UserRefreshed_example :
    UserRefreshed digest taken signed 900 60 before refreshed acme widgets
      (some (codes "old"))
      none
      draw
      answered
      (revokes (codes "other") ∷ [])
      130
unfolding user_refresh str_eq lookup upsert
user_refresh-UserRefreshed_example =
    user_refresh-UserRefreshed digest taken signed 900 60 before refreshed acme widgets
      (some (codes "old")) none draw answered (revokes (codes "other") ∷ []) 130 refl refl

abbrev logged_out : Tables
logged_out = logout digest before none (some (codes "root"))

abbrev much_later : Tables
much_later = record logged_out {
  system = operate_all digest taken logged_out.system (revokes (codes "other") ∷ []);
}

logout-master_admin_refresh_example :
    master_admin_refresh digest taken signed 900 60 much_later none (some (codes "root")) draw
    ≡ (much_later, err unauthorized)
unfolding pick_refresh_token str_eq
logout-master_admin_refresh_example =
    logout-master_admin_refresh digest taken signed 900 60 before much_later none
      (some (codes "root")) (codes "root") draw (revokes (codes "other") ∷ []) refl refl refl
