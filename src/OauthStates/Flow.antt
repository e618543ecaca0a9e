-- ===== src/OauthStates/Flow.antt =====
-- What a nonce of crates/rustbase-db/src/oauth_states.rs is good for.
use rustbase.Base.{
  ℕ, ◌+◌, leb, ◌≡◌, ◌↔◌, refl, ap, ◌∙◌, Str, str_eq, str_eq_iff, str_eq_refl, Option, none, some,
  List, ◌∷◌, map, if◌then◌else◌, arith,
}
use rustbase.Error.{ok}
use rustbase.OauthStates.{
  StoredSecret, clear, encrypted, columns, from_columns, OauthState, is_none, find_state,
  close_open, consumed, already_consumed, expired, provider_mismatch, redeem_state, consume_state,
  consume, issue,
}

-- The two columns give back the secret that they were written from, and no other pair of columns
-- is accepted.
pub from_columns-columns_iff :
    (s : StoredSecret) (c : Option Str) (e : Option (List ℕ))
    → (from_columns c e ≡ some s) ↔ ((c, e) ≡ columns s)
unfolding from_columns columns
from_columns-columns_iff (clear s) none none = ground arith
from_columns-columns_iff (clear s) none (some b) = ground arith
from_columns-columns_iff (clear s) (some a) none = ground arith
from_columns-columns_iff (clear s) (some a) (some b) = ground arith
from_columns-columns_iff (encrypted s) none none = ground arith
from_columns-columns_iff (encrypted s) none (some b) = ground arith
from_columns-columns_iff (encrypted s) (some a) none = ground arith
from_columns-columns_iff (encrypted s) (some a) (some b) = ground arith

-- The row that an issue writes.
abbrev pub issued : Str → Str → Str → StoredSecret → ℕ → ℕ → OauthState
issued hash provider redirect verifier now ttl = record {
  state_hash = hash;
  provider = provider;
  redirect_uri = redirect;
  issued_at = now;
  expires_at = now + ttl;
  consumed_at = none;
  code_verifier = (columns verifier).0;
  code_verifier_enc = (columns verifier).1;
}

issue-ok :
    (hash_token : Str → Str) (duplicate : Str) (t t' : List OauthState)
    (state provider redirect : Str) (verifier : StoredSecret) (row : OauthState) (now ttl : ℕ)
    → issue hash_token duplicate t state provider redirect verifier now ttl ≡ ok (t', row)
    → t' ≡ issued (hash_token state) provider redirect verifier now ttl ∷ t
unfolding issue
issue-ok hash_token duplicate t t' state provider redirect verifier row now ttl e = ground arith

redeem_state-first :
    (t : List OauthState) (hash : Str) (row : OauthState) (verifier : StoredSecret) (now : ℕ)
    → row.state_hash ≡ hash
    → row.consumed_at ≡ none
    → redeem_state (row ∷ t) hash row verifier now
      ≡ (map (close_open hash now) (row ∷ t), consumed row.redirect_uri verifier)
unfolding redeem_state is_none
redeem_state-first t hash row verifier now e n = ground (arith, str_eq_iff row.state_hash hash)

columns-from : (v : StoredSecret) → from_columns (columns v).0 (columns v).1 ≡ some v
columns-from v = (from_columns-columns_iff v (columns v).0 (columns v).1).1 refl

consume-first :
    (hash_token : Str → Str) (invariant : Str) (t : List OauthState) (state called : Str)
    (row : OauthState) (v : StoredSecret) (now : ℕ)
    → row.state_hash ≡ hash_token state
    → from_columns row.code_verifier row.code_verifier_enc ≡ some v
    → consume hash_token invariant (row ∷ t) state called now
      ≡ ok (consume_state (row ∷ t) (hash_token state) called row v now)
unfolding consume find_state
consume-first hash_token invariant t state called row v now e f =
    ground (arith, str_eq_iff row.state_hash (hash_token state))

close_open-first :
    (hash : Str) (now : ℕ) (row : OauthState)
    → row.state_hash ≡ hash
    → row.consumed_at ≡ none
    → close_open hash now row ≡ record row { consumed_at = some now }
unfolding close_open is_none
close_open-first hash now row e n = ground (arith, str_eq_iff row.state_hash hash)

consume_state-open :
    (t : List OauthState) (hash called : Str) (row : OauthState) (v : StoredSecret) (now : ℕ)
    → row.state_hash ≡ hash
    → row.consumed_at ≡ none
    → consume_state (row ∷ t) hash called row v now ≡ (
        if str_eq row.provider called
        then if leb row.expires_at now
          then (row ∷ t, expired)
          else (map (close_open hash now) (row ∷ t), consumed row.redirect_uri v)
        else (row ∷ t, provider_mismatch))
unfolding consume_state is_none
consume_state-open t hash called row v now e n =
    ground (arith, redeem_state-first t hash row v now e n)

consume_state-closed :
    (t : List OauthState) (hash : Str) (row : OauthState) (v : StoredSecret) (now w : ℕ)
    → row.consumed_at ≡ some w
    → consume_state t hash row.provider row v now ≡ (t, already_consumed)
unfolding consume_state is_none
consume_state-closed t hash row v now w n = rw n (rw (str_eq_refl row.provider) refl)

-- What the callback gets for a nonce that has just been issued for a provider: the callback of
-- another provider is refused, and leaves the nonce usable; that of the right one is refused once
-- the time is over, and gets the address and the verifier that were stored before. The table after
-- that holds the nonce as consumed, so that every further callback of the provider is refused.
pub consume-issued_state :
    (hash_token : Str → Str) (duplicate invariant : Str) (t t' : List OauthState)
    (state provider redirect called : Str) (verifier : StoredSecret) (row : OauthState)
    (now ttl later again : ℕ)
    → issue hash_token duplicate t state provider redirect verifier now ttl ≡ ok (t', row)
    → (consume hash_token invariant t' state called later
        ≡ ok (
            if str_eq provider called
            then if leb (now + ttl) later
              then (t', expired)
              else (map (close_open (hash_token state) later) t', consumed redirect verifier)
            else (t', provider_mismatch)))
      × (consume hash_token invariant
            (map (close_open (hash_token state) later) t')
            state
            provider
            again
          ≡ ok (map (close_open (hash_token state) later) t', already_consumed))
consume-issued_state hash_token duplicate invariant t t' state provider redirect called verifier row
      now ttl later again e =
    let r : OauthState = issued (hash_token state) provider redirect verifier now ttl in
    rw (issue-ok hash_token duplicate t t' state provider redirect verifier row now ttl e) (
      consume-first hash_token invariant t state called r verifier later refl
            (columns-from verifier)
          ∙ ap ok (consume_state-open t (hash_token state) called r verifier later refl refl),
      rw (close_open-first (hash_token state) later r refl refl) (
          consume-first hash_token invariant _ state provider
            (record r { consumed_at = some later }) verifier again refl (columns-from verifier)
          ∙ ap ok (
              consume_state-closed _ (hash_token state) (record r { consumed_at = some later })
                verifier again later refl)),
    )
