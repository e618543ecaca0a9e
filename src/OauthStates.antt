-- ===== src/OauthStates.antt =====
-- crates/rustbase-db/src/oauth_states.rs and secret_at_rest.rs: the nonces of the OAuth flow, each bound
-- to its provider, with the verifier in one of two columns. A time is a number since the epoch. The
-- statements of one call run here without those of another between them.
pub mod Flow
use rustbase.Base.{
  ℕ, ◌+◌, ◌==◌, leb, Bool, true, false, ◌&&◌, Str, str_eq, Option, none, some, List, [], ◌∷◌, map,
  length, keep, if◌then◌else◌,
}
use rustbase.Error.{Result, ok, err, ◌>>=◌, ok_or, internal}

-- `StoredSecret`; the encrypted one is a vector of bytes.
pub data StoredSecret : Type 0 where
  clear : Str → StoredSecret
  encrypted : List ℕ → StoredSecret

unfoldable pub columns : StoredSecret → Option Str × Option (List ℕ)
columns (clear s) = (some s, none)
columns (encrypted b) = (none, some b)

unfoldable pub from_columns : Option Str → Option (List ℕ) → Option StoredSecret
from_columns (some s) none = some (clear s)
from_columns none (some b) = some (encrypted b)
from_columns none none = none
from_columns (some s) (some b) = none

-- A row of the table, with the two columns of the verifier.
pub record OauthState : Type 0 where
  pub state_hash : Str
  pub provider : Str
  pub redirect_uri : Str
  pub issued_at : ℕ
  pub expires_at : ℕ
  pub consumed_at : Option ℕ
  pub code_verifier : Option Str
  pub code_verifier_enc : Option (List ℕ)

unfoldable pub is_none : Option ℕ → Bool
is_none none = true
is_none (some t) = false

unfoldable pub find_state : Str → List OauthState → Option OauthState
find_state hash [] = none
find_state hash (r ∷ rs) = if str_eq r.state_hash hash then some r else find_state hash rs

-- The condition of the write that consumes.
abbrev pub is_open : Str → OauthState → Bool
is_open hash r = str_eq r.state_hash hash && is_none r.consumed_at

unfoldable pub close_open : Str → ℕ → OauthState → OauthState
unfolding is_none
close_open hash now r = if is_open hash r then record r { consumed_at = some now } else r

pub data ConsumeOutcome : Type 0 where
  consumed : Str → StoredSecret → ConsumeOutcome
  unknown already_consumed expired provider_mismatch : ConsumeOutcome

unfoldable pub redeem_state :
    List OauthState → Str → OauthState → StoredSecret → ℕ → List OauthState × ConsumeOutcome
unfolding is_none close_open
redeem_state t hash row verifier now = (
  map (close_open hash now) t,
  if length (keep (is_open hash) t) == 0
      then already_consumed
      else consumed row.redirect_uri verifier,
)

-- The early returns after the row has been read, and the write.
unfoldable pub consume_state :
    List OauthState → Str → Str → OauthState → StoredSecret → ℕ → List OauthState × ConsumeOutcome
unfolding is_none redeem_state
consume_state t hash provider row verifier now =
    if str_eq row.provider provider
    then if is_none row.consumed_at
      then if leb row.expires_at now then (t, expired) else redeem_state t hash row verifier now
      else (t, already_consumed)
    else (t, provider_mismatch)

module _ (hash_token : Str → Str) (invariant : Str) where
  -- A row with neither or both of the columns is an error of the database.
  unfoldable pub consume :
      List OauthState → Str → Str → ℕ → Result (List OauthState × ConsumeOutcome)
  unfolding find_state from_columns consume_state
  consume t state provider now = elim (find_state (hash_token state) t) [
    | none ↦ ok (t, unknown)
    | some row ↦
        ok_or (from_columns row.code_verifier row.code_verifier_enc) (internal invariant)
        >>= λ verifier. ok (consume_state t (hash_token state) provider row verifier now)
  ]

module _ (hash_token : Str → Str) (duplicate : Str) where
  unfoldable pub issue :
      List OauthState
      → Str
      → Str
      → Str
      → StoredSecret
      → ℕ
      → ℕ
      → Result (List OauthState × OauthState)
  unfolding find_state columns
  issue t state provider redirect_uri verifier now ttl =
      let row : OauthState = record {
        state_hash = hash_token state;
        provider = provider;
        redirect_uri = redirect_uri;
        issued_at = now;
        expires_at = now + ttl;
        consumed_at = none;
        code_verifier = (columns verifier).0;
        code_verifier_enc = (columns verifier).1;
      } in
      elim (find_state (hash_token state) t) [
        | none ↦ ok (row ∷ t, row)
        | some r ↦ err (internal duplicate)
      ]
