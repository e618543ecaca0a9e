-- ===== src/OneShot/Laws.antt =====
-- A token of crates/rustbase-db/src/{password_resets,email_verifications,mfa_challenges}.rs from its
-- issue to its end, without other writers between the statements of one call.
use rustbase.Base.{
  ℕ, ◌+◌, ◌<◌, leb, ◌≡◌, ◌≢◌, ◌⊎◌, ◌↔◌, inl, inr, refl, sym, ap, subst, ◌∙◌, Bool, Str, str_eq,
  str_eq_iff, str_eq_refl, Option, none, some, List, [], ◌∷◌, if◌then◌else◌, arith,
}
use rustbase.Error.{ok}
use rustbase.OneShot.{
  OneShot, is_none, find_row, close_if, mark_consumed, has_hash, ConsumeOutcome, settle, consumed,
  already_consumed, expired, examine, redeem, issue, consume, invalidate_all_for_user,
}

close_if-hash :
    (p : OneShot → Bool) (now : ℕ) (r : OneShot) → (close_if p now r).token_hash ≡ r.token_hash
unfolding close_if
close_if-hash p now r = ground arith

-- The row of a hash after an update of the column `consumed_at`.
pub find_row-mark :
    (p : OneShot → Bool) (now : ℕ) (hash : Str) (t : List OneShot)
    → find_row hash (mark_consumed p now t).0
      ≡ elim (find_row hash t) [ none ↦ none | some r ↦ some (close_if p now r) ]
unfolding find_row mark_consumed
find_row-mark p now hash [] = refl
find_row-mark p now hash (r ∷ rs) =
    ground (arith, close_if-hash p now r, find_row-mark p now hash rs)

-- A pending row that is found is written.
pub found-affected :
    (hash : Str) (t : List OneShot) (r : OneShot)
    → find_row hash t ≡ some r
    → r.consumed_at ≡ none
    → 0 < (mark_consumed (has_hash hash) 0 t).1
unfolding find_row mark_consumed is_none
found-affected hash [] r f n = cc
found-affected hash (q ∷ rs) r f n = ground (arith, found-affected hash rs r)

-- A row that a token can still be redeemed for.
abbrev pub IsLive : Option OneShot → Str → ℕ → Type 0
IsLive o user now =
    (r : OneShot) × (o ≡ some r)
    × (r.consumed_at ≡ none)
    × (now < r.expires_at)
    × (r.user_id ≡ user)

redeem-live :
    (t : List OneShot) (hash : Str) (r : OneShot) (now : ℕ)
    → find_row hash t ≡ some r
    → r.consumed_at ≡ none
    → redeem t hash now r.user_id ≡ ((mark_consumed (has_hash hash) now t).0, consumed r.user_id)
unfolding redeem mark_consumed
redeem-live t hash r now f n = ground (arith, found-affected hash t r f n)

examine-live :
    (o : Option OneShot) (user : Str) (now : ℕ) → IsLive o user now → examine o now ≡ inr user
unfolding examine is_none
examine-live none user now h = cc
examine-live (some r) user now h = ground arith

IsLive-examine :
    (o : Option OneShot) (user : Str) (now : ℕ) → examine o now ≡ inr user → IsLive o user now
unfolding examine is_none
IsLive-examine none user now e = cc
IsLive-examine (some r) user now e = (r, refl, ground arith, ground arith, ground arith)

examine-refuses : (o : Option OneShot) (user : Str) (now : ℕ) → examine o now ≢ inl (consumed user)
unfolding examine is_none
examine-refuses none user now = ground arith
examine-refuses (some r) user now = ground arith

redeem-user :
    (t : List OneShot) (hash user owner : Str) (now : ℕ)
    → (redeem t hash now owner).1 ≡ consumed user
    → owner ≡ user
unfolding redeem
redeem-user t hash user owner now h = ground arith

examine-used :
    (o : Option OneShot) (r : OneShot) (now w : ℕ)
    → o ≡ some r
    → r.consumed_at ≡ some w
    → examine o now ≡ inl already_consumed
unfolding examine is_none
examine-used none r now w e h = cc
examine-used (some q) r now w e h = ground arith

close_if-pending :
    (hash : Str) (now : ℕ) (r : OneShot)
    → r.token_hash ≡ hash
    → r.consumed_at ≡ none
    → (close_if (has_hash hash) now r).consumed_at ≡ some now
unfolding close_if is_none
close_if-pending hash now r e n = ground (arith, str_eq_iff r.token_hash hash)

pub hash-find_row :
    (hash : Str) (t : List OneShot) (r : OneShot) → find_row hash t ≡ some r → r.token_hash ≡ hash
unfolding find_row
hash-find_row hash [] r e = cc
hash-find_row hash (q ∷ t) r e =
    ground (arith, hash-find_row hash t r, str_eq_iff q.token_hash hash)

-- The row of a token after the pending rows of a user have been closed.
abbrev closed_for : Str → ℕ → Option OneShot → Option OneShot
closed_for user now o = elim o [
  | none ↦ none
  | some r ↦ some (close_if (λ q. str_eq q.user_id user) now r)
]

closed_for-same :
    (o : Option OneShot) (user : Str) (now later : ℕ)
    → ¬ (IsLive (closed_for user now o) user later)
unfolding close_if is_none
closed_for-same none user now later (r, e, n, l, u) = cc
closed_for-same (some q) user now later (r, e, n, l, u) = ground (arith, str_eq_iff q.user_id user)

closed_for-other :
    (o : Option OneShot) (user other : Str) (now later : ℕ)
    → user ≢ other
    → IsLive (closed_for user now o) other later ↔ IsLive o other later
unfolding close_if is_none
closed_for-other none user other now later d = (λ (r, e, n, l, u). cc, λ (r, e, n, l, u). cc)
closed_for-other (some q) user other now later d = (
  λ (r, e, n, l, u). (
    q,
    refl,
    ground (arith, str_eq_iff q.user_id user),
    ground arith,
    ground (arith, str_eq_iff q.user_id user),
  ),
  λ (r, e, n, l, u).
      (q, ground (arith, str_eq_iff q.user_id user), ground arith, ground arith, ground arith),
)

module _ (hash_token : Str → Str) where
  consume-live :
      (t : List OneShot) (token : Str) (r : OneShot) (now : ℕ)
      → find_row (hash_token token) t ≡ some r
      → r.consumed_at ≡ none
      → now < r.expires_at
      → consume hash_token t token now
        ≡ ((mark_consumed (has_hash (hash_token token)) now t).0, consumed r.user_id)
  unfolding consume settle
  consume-live t token r now f n l =
      ap (settle t (hash_token token) now)
        (examine-live (find_row (hash_token token) t) r.user_id now (r, f, n, l, refl))
      ∙ redeem-live t (hash_token token) r now f n

  consume-used :
      (t : List OneShot) (token : Str) (r : OneShot) (now w : ℕ)
      → find_row (hash_token token) t ≡ some r
      → r.consumed_at ≡ some w
      → consume hash_token t token now ≡ (t, already_consumed)
  unfolding consume settle
  consume-used t token r now w f e =
      ap (settle t (hash_token token) now)
        (examine-used (find_row (hash_token token) t) r now w f e)

  -- A consume answers with a user exactly where the row of the token exists, has not been consumed,
  -- has not expired, and is that user's.
  pub consume-consumed_iff :
      (t : List OneShot) (token user : Str) (now : ℕ)
      → ((consume hash_token t token now).1 ≡ consumed user)
        ↔ IsLive (find_row (hash_token token) t) user now
  unfolding consume settle
  consume-consumed_iff t token user now = (forth _ refl, back)
    where
      forth :
          (x : ConsumeOutcome ⊎ Str)
          → examine (find_row (hash_token token) t) now ≡ x
          → (settle t (hash_token token) now x).1 ≡ consumed user
          → IsLive (find_row (hash_token token) t) user now
      forth (inl o) e h =
          absurd (examine-refuses (find_row (hash_token token) t) user now (e ∙ ap inl h))
      forth (inr owner) e h =
          IsLive-examine (find_row (hash_token token) t) user now
            (e ∙ ap inr (redeem-user t (hash_token token) user owner now h))

      back :
          IsLive (find_row (hash_token token) t) user now
          → (consume hash_token t token now).1 ≡ consumed user
      back (r, f, n, l, u) = ap (λ x. x.1) (consume-live t token r now f n l) ∙ ap consumed u

  -- A token that has been consumed is refused from then on, and the refusal writes nothing.
  pub consume_twice :
      (t : List OneShot) (token user : Str) (now later : ℕ)
      → (consume hash_token t token now).1 ≡ consumed user
      → consume hash_token (consume hash_token t token now).0 token later
        ≡ ((consume hash_token t token now).0, already_consumed)
  consume_twice t token user now later h =
      let (r, f, n, l, u) = (consume-consumed_iff t token user now).0 h in
      let hash = hash_token token in
      rw (consume-live t token r now f n l) (
        consume-used _ token (close_if (has_hash hash) now r) later now
          (rw (find_row-mark (has_hash hash) now hash t) (rw f refl))
          (close_if-pending hash now r (hash-find_row hash t r f) n))

  -- A token that has just been issued is redeemed for its user until its time is over, and is
  -- expired from then on.
  pub consume-issue :
      (duplicate : Str) (t t' : List OneShot) (token user : Str) (row : OneShot) (now ttl later : ℕ)
      → issue hash_token duplicate t token user now ttl ≡ ok (t', row)
      → (consume hash_token t' token later).1
        ≡ (if leb (now + ttl) later then expired else consumed user)
  consume-issue duplicate t t' token user row now ttl later e =
      unfold issue consume examine redeem settle mark_consumed find_row is_none in
      (ground (arith, str_eq_refl (hash_token token)))

  -- After all tokens of a user have been invalidated none of them can be redeemed, while the tokens
  -- of every other user answer as before.
  pub consume-invalidate :
      (t : List OneShot) (token user : Str) (now later : ℕ)
      → ((consume hash_token (invalidate_all_for_user t user now).0 token later).1 ≢ consumed user)
        × ((other : Str)
            → user ≢ other
            → ((consume hash_token (invalidate_all_for_user t user now).0 token later).1
                ≡ consumed other)
              ↔ ((consume hash_token t token later).1 ≡ consumed other))
  unfolding invalidate_all_for_user
  consume-invalidate t token user now later =
      let o = find_row (hash_token token) t in
      let t' = (invalidate_all_for_user t user now).0 in
      let same : find_row (hash_token token) t' ≡ closed_for user now o =
        find_row-mark (λ q. str_eq q.user_id user) now (hash_token token) t in
      (
        λ h. closed_for-same o user now later (
            subst (λ x. IsLive x user later) same ((consume-consumed_iff t' token user later).0 h)),
        λ other d. (
          λ h. (consume-consumed_iff t token other later).1 (
              (closed_for-other o user other now later d).0 (
                subst (λ x. IsLive x other later) same
                  ((consume-consumed_iff t' token other later).0 h))),
          λ h. (consume-consumed_iff t' token other later).1 (
              subst (λ x. IsLive x other later) (sym same)
                ((closed_for-other o user other now later d).1
                  ((consume-consumed_iff t token other later).0 h))),
        ),
      )
