-- ===== src/Examples/Sessions.antt =====
-- The theorems on crates/rustbase-db/src/{password_resets,email_verifications,mfa_challenges}.rs and
-- tokens.rs at concrete inputs.
use rustbase.Base.{
  ◌+◌, ◌≤◌, Str, codes, str_eq, ltb, ◌≡◌, refl, true, none, some, List, [], ◌∷◌, if◌then◌else◌,
}
use rustbase.OneShot.{OneShot, consumed, already_consumed, redeem}
use rustbase.OneShot.Race.{
  Consumer, holds, returned, writes, Steps, stop, step, succeeded, consumed_once,
}
use rustbase.RefreshTokens.{
  user, RefreshToken, find_active_refresh_token, rotate_refresh_token, new_row, as_str,
}
use rustbase.RefreshTokens.Session.{revokes, operate_all, rotate_refresh_token-ends_old}
use rustbase.Examples.{ada, bob, digest}

abbrev secret : Str
secret = codes "secret"

abbrev duplicate : Str
duplicate = codes "UNIQUE constraint failed"

abbrev reset : Str → Str → OneShot
reset name user_id = record {
  token_hash = digest name;
  user_id = user_id;
  issued_at = 100;
  expires_at = 100 + 60;
  consumed_at = none;
}

abbrev resets : List OneShot
resets = reset secret ada ∷ reset (codes "other") bob ∷ []

-- Two consumers that both read the row before either writes.
abbrev both_read : List OneShot × List Consumer
both_read = (resets, holds (digest secret) 120 ada ∷ holds (digest secret) 121 ada ∷ [])

abbrev one_wrote : List OneShot × List Consumer
one_wrote = (
  record (reset secret ada) { consumed_at = some 120 } ∷ reset (codes "other") bob ∷ [],
  returned (digest secret) (consumed ada) ∷ holds (digest secret) 121 ada ∷ [],
)

abbrev both_wrote : List OneShot × List Consumer
both_wrote = (
  one_wrote.0,
  returned (digest secret) (consumed ada) ∷ returned (digest secret) already_consumed ∷ [],
)

race : Steps both_read both_wrote
unfolding redeem str_eq
race =
    step both_read one_wrote both_wrote
      (writes resets [] (holds (digest secret) 121 ada ∷ []) (digest secret) 120 ada)
      (step one_wrote both_wrote both_wrote
        (writes one_wrote.0 (returned (digest secret) (consumed ada) ∷ []) [] (digest secret) 121
          ada)
        (stop both_wrote))

consumed_once_example : succeeded (digest secret) both_wrote.1 ≤ 1
unfolding succeeded
consumed_once_example = consumed_once (digest secret) both_read both_wrote race refl

abbrev old_row : RefreshToken
old_row = new_row (digest (codes "old")) (as_str user) ada 100 60

abbrev fresh_row : RefreshToken
fresh_row = new_row (digest (codes "new")) (as_str user) ada 120 60

abbrev rotated : List RefreshToken
rotated = fresh_row ∷ record old_row { revoked = true } ∷ []

rotate_refresh_token-ends_old_example :
    (find_active_refresh_token digest
        (operate_all digest duplicate rotated (revokes (codes "new") ∷ []))
        (codes "old")
        user
        130
      ≡ none)
    × (find_active_refresh_token digest rotated (codes "new") user 130
        ≡ (if ltb 130 (120 + 60) then some fresh_row else none))
    × (fresh_row.subject_id ≡ ada)
unfolding find_active_refresh_token rotate_refresh_token str_eq
rotate_refresh_token-ends_old_example =
    rotate_refresh_token-ends_old digest duplicate (old_row ∷ []) rotated (codes "old")
      (codes "new") user user ada old_row fresh_row 120 110 130 60 (revokes (codes "new") ∷ []) refl
      refl
