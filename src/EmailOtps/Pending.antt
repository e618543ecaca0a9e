-- ===== src/EmailOtps/Pending.antt =====
-- Which row of the table of crates/rustbase-db/src/email_otps.rs is pending for an address after each
-- of its statements.
use rustbase.Base.{
  ℕ, ◌≡◌, ◌≢◌, refl, true, ◌&&◌, Str, str_eq_iff, none, some, List, [], ◌∷◌, map, All, arith,
}
use rustbase.EmailOtps.{
  EmailOtp, is_none, is_pending, close_if, count_if, newest, current, has_id, accept_code,
}

-- Every pending row of the address has the key.
abbrev pub SoleId : Str → ℕ → List EmailOtp → Type 0
SoleId email id t = All (λ r. is_pending email r ≡ true → r.id ≡ id) t

pub current-closed :
    (email : Str) (id now : ℕ) (t : List EmailOtp)
    → SoleId email id t
    → current (map (close_if (has_id id) now) t) email ≡ none
unfolding current close_if is_none
current-closed email id now [] h = refl
current-closed email id now (r ∷ t) h = ground (arith, current-closed email id now t h.1)

pub current-accepted :
    (email : Str) (id now : ℕ) (t : List EmailOtp)
    → SoleId email id t
    → current (map (close_if (λ r. has_id id r && is_none r.consumed_at) now) t) email ≡ none
unfolding current close_if is_none
current-accepted email id now [] h = refl
current-accepted email id now (r ∷ t) h = ground (arith, current-accepted email id now t h.1)

pub current-accept_code :
    (email : Str) (row : EmailOtp) (t : List EmailOtp) (now : ℕ)
    → SoleId email row.id t
    → current (accept_code t row now).0 email ≡ none
unfolding accept_code
current-accept_code email row t now sole = current-accepted email row.id now t sole

pub current-counted :
    (email : Str) (id n : ℕ) (t : List EmailOtp)
    → current (map (count_if (has_id id) n) t) email
      ≡ elim (current t email) [ none ↦ none | some r ↦ some (count_if (has_id id) n r) ]
unfolding current count_if is_none newest
current-counted email id n [] = refl
current-counted email id n (r ∷ t) = ground (arith, current-counted email id n t)

pub SoleId-counted :
    (email : Str) (id n : ℕ) (t : List EmailOtp)
    → SoleId email id t
    → SoleId email id (map (count_if (has_id id) n) t)
unfolding count_if
SoleId-counted email id n [] h = tt
SoleId-counted email id n (r ∷ t) h = (ground arith, SoleId-counted email id n t h.1)

pub current-issue_closed :
    (email : Str) (now : ℕ) (t : List EmailOtp)
    → current (map (close_if (is_pending email) now) t) email ≡ none
unfolding current close_if is_none
current-issue_closed email now [] = refl
current-issue_closed email now (r ∷ t) = ground (arith, current-issue_closed email now t)

pub SoleId-issue_closed :
    (email : Str) (id now : ℕ) (t : List EmailOtp)
    → SoleId email id (map (close_if (is_pending email) now) t)
unfolding close_if is_none
SoleId-issue_closed email id now [] = tt
SoleId-issue_closed email id now (r ∷ t) = (ground arith, SoleId-issue_closed email id now t)

pub current-issue_other :
    (email other : Str) (now : ℕ) (t : List EmailOtp)
    → email ≢ other
    → current (map (close_if (is_pending email) now) t) other ≡ current t other
unfolding current close_if is_none
current-issue_other email other now [] n = refl
current-issue_other email other now (r ∷ t) n = ground (
  arith,
  current-issue_other email other now t n,
  str_eq_iff r.email email,
  str_eq_iff r.email other,
)
