-- ===== src/Examples/Callbacks.antt =====
-- The theorems on crates/rustbase-db/src/oauth_states.rs at concrete inputs.
use rustbase.Base.{◌+◌, leb, Str, codes, str_eq, ◌≡◌, refl, List, [], ◌∷◌, map, if◌then◌else◌}
use rustbase.Error.{ok}
use rustbase.OauthStates.{
  StoredSecret, clear, OauthState, close_open, consumed, expired, already_consumed,
  provider_mismatch, consume, issue,
}
use rustbase.OauthStates.Flow.{issued, consume-issued_state}
use rustbase.Examples.{digest}

abbrev nonce : Str
nonce = codes "nonce"

abbrev google : Str
google = codes "google"

abbrev home : Str
home = codes "https://acme.example/callback"

abbrev verifier : StoredSecret
verifier = clear (codes "verifier")

abbrev minted : List OauthState
minted = issued (digest nonce) google home verifier 100 300 ∷ []

abbrev violated : Str
violated = codes "neither exactly one verifier"

abbrev taken : List OauthState
taken = map (close_open (digest nonce) 200) minted

consume-issued_state_example :
    (consume digest violated minted nonce google 200
      ≡ ok (
          if str_eq google google
          then if leb (100 + 300) 200 then (minted, expired) else (taken, consumed home verifier)
          else (minted, provider_mismatch)))
    × (consume digest violated taken nonce google 210 ≡ ok (taken, already_consumed))
unfolding issue
consume-issued_state_example =
    consume-issued_state digest (codes "UNIQUE") violated [] minted nonce google home google
      verifier (issued (digest nonce) google home verifier 100 300) 100 300 200 210 refl
