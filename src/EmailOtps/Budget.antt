-- ===== src/EmailOtps/Budget.antt =====
-- What the codes of crates/rustbase-db/src/email_otps.rs are good for: one code is pending for an
-- address at a time, and it allows a fixed number of wrong guesses.
use rustbase.Base.{
  ℕ, suc, ◌+◌, ◌≤◌, ◌<◌, leb, ◌≡◌, ◌≢◌, ◌⊎◌, inl, inr, refl, sym, ap, ◌∙◌, Bool-cases, Str, str_eq,
  str_eq_iff, str_eq_refl, none, some, List, [], ◌∷◌, length, All, arith,
}
use rustbase.EmailOtps.{
  max_attempts, EmailOtp, Otps, is_none, count_if, newest, current, accepted, unknown, new_row,
  accept_code, count_wrong, consume_row, consume_found, issue, consume,
}
use rustbase.EmailOtps.Pending.{
  SoleId, current-closed, current-accept_code, current-counted, SoleId-counted,
  current-issue_closed, SoleId-issue_closed, current-issue_other,
}

-- An address of which no code is pending, or one whose code, with the hash, allows at most
-- `left` more wrong guesses.
abbrev Allows : List EmailOtp → Str → Str → ℕ → Type 0
Allows t email hash left =
    (current t email ≡ none)
    ⊎ ((row : EmailOtp) × (current t email ≡ some row)
        × (row.code_hash ≡ hash)
        × SoleId email row.id t
        × (max_attempts ≤ row.attempts + left)
        × (row.attempts < max_attempts))

count_wrong-Allows :
    (t : List EmailOtp) (email hash : Str) (row : EmailOtp) (now left : ℕ)
    → current t email ≡ some row
    → row.code_hash ≡ hash
    → SoleId email row.id t
    → max_attempts ≤ row.attempts + suc left
    → Allows (count_wrong t row now).0 email hash left
unfolding count_wrong count_if
count_wrong-Allows t email hash row now left c e sole h =
    let counted = current-counted email row.id (row.attempts + 1) t in
    let kept = SoleId-counted email row.id (row.attempts + 1) t sole in
    elim (Bool-cases (leb max_attempts (row.attempts + 1))) [
      | inl last ↦ rw last (inl (current-closed email row.id now _ kept))
      | inr more ↦ rw more (
          inr (
            record row { attempts = row.attempts + 1 },
            counted ∙ rw c (ground arith),
            e,
            kept,
            omega arith,
            ground arith,
          ))
    ]

module _ (hash_token : Str → Str) where
  consume-Allows :
      (t : List EmailOtp) (email code hash : Str) (now left : ℕ)
      → hash ≢ hash_token code
      → Allows t email hash (suc left)
      → Allows (consume hash_token t email code now).0 email hash left
  unfolding consume consume_found consume_row
  consume-Allows t email code hash now left n (inl none_left) =
      rw (none_left, consume) (inl none_left)
  consume-Allows t email code hash now left n (inr (row, c, e, sole, h, k)) =
      rw (c, consume)
        (elim (Bool-cases (leb row.expires_at now)) [
          | inl late ↦ rw late (inl (current-closed email row.id now t sole))
          | inr early ↦ rw early (elim (Bool-cases (str_eq row.code_hash (hash_token code))) [
            | inl same ↦ absurd (n (sym e ∙ (str_eq_iff row.code_hash (hash_token code)).0 same))
            | inr other ↦ rw other (count_wrong-Allows t email hash row now left c e sole h)
          ])
        ])

  -- Guesses of codes for an address, each with its time.
  unfoldable pub guess_all : List EmailOtp → Str → List (Str × ℕ) → List EmailOtp
  guess_all t email [] = t
  guess_all t email (g ∷ gs) = guess_all (consume hash_token t email g.0 g.1).0 email gs

  guess_all-Allows :
      (t : List EmailOtp) (email hash : Str) (gs : List (Str × ℕ))
      → All (λ g. hash ≢ hash_token g.0) gs
      → Allows t email hash (length gs)
      → Allows (guess_all t email gs) email hash 0
  unfolding guess_all
  guess_all-Allows t email hash [] wrong h = h
  guess_all-Allows t email hash (g ∷ gs) wrong h =
      guess_all-Allows (consume hash_token t email g.0 g.1).0 email hash gs wrong.1
        (consume-Allows t email g.0 hash g.1 (length gs) wrong.0 h)

  consume-spent :
      (t : List EmailOtp) (email guess hash : Str) (later : ℕ)
      → Allows t email hash 0
      → consume hash_token t email guess later ≡ (t, unknown)
  unfolding consume consume_found
  consume-spent t email guess hash later (inl none_left) = rw (none_left, consume) refl
  consume-spent t email guess hash later (inr (row, c, e, sole, h, k)) = ground arith

  -- An issue makes the new row the pending one of its address, the only one of its key, and leaves
  -- the pending row of every other address as it was.
  pub current-issue :
      (s : Otps) (code email : Str) (now ttl : ℕ)
      → (current (issue hash_token s code email now ttl).0.rows email
          ≡ some (new_row (hash_token code) email s.next_id now ttl))
        × SoleId email s.next_id (issue hash_token s code email now ttl).0.rows
        × ((other : Str)
            → email ≢ other
            → current (issue hash_token s code email now ttl).0.rows other ≡ current s.rows other)
  unfolding issue current is_none newest
  current-issue s code email now ttl = (
    ground (arith, str_eq_refl email, current-issue_closed email now s.rows),
    (λ _. refl, SoleId-issue_closed email s.next_id now s.rows),
    λ other n. ground (arith, str_eq_iff email other, current-issue_other email other now s.rows n),
  )

  issue-Allows :
      (s : Otps) (code email : Str) (now ttl : ℕ)
      → Allows (issue hash_token s code email now ttl).0.rows email (hash_token code) max_attempts
  issue-Allows s code email now ttl =
      let (newest_row, sole, _) = current-issue s code email now ttl in
      inr (
        new_row (hash_token code) email s.next_id now ttl,
        newest_row,
        refl,
        sole,
        omega arith,
        omega arith,
      )

  -- After a code has been issued for an address, and five codes that hash differently have been
  -- tried for the address at any times, no code is accepted for the address any more, and trying
  -- changes nothing, until the next issue.
  pub issue-budget :
      (s : Otps) (code email guess : Str) (now ttl later : ℕ) (gs : List (Str × ℕ))
      → All (λ g. hash_token code ≢ hash_token g.0) gs
      → length gs ≡ max_attempts
      → consume hash_token
          (guess_all (issue hash_token s code email now ttl).0.rows email gs)
          email
          guess
          later
        ≡ (guess_all (issue hash_token s code email now ttl).0.rows email gs, unknown)
  issue-budget s code email guess now ttl later gs wrong five =
      consume-spent _ email guess (hash_token code) later (
        guess_all-Allows _ email (hash_token code) gs wrong
          (rw five (issue-Allows s code email now ttl)))

  issue-accept_code :
      (s : Otps) (code email : Str) (now ttl at : ℕ)
      → (accept_code
          (issue hash_token s code email now ttl).0.rows
          (new_row (hash_token code) email s.next_id now ttl)
          at).1
        ≡ accepted email
  unfolding issue accept_code is_none
  issue-accept_code s code email now ttl at = ground arith

  consume-issued :
      (s : Otps) (code email : Str) (now ttl at : ℕ)
      → at < now + ttl
      → consume hash_token (issue hash_token s code email now ttl).0.rows email code at
        ≡ accept_code
            (issue hash_token s code email now ttl).0.rows
            (new_row (hash_token code) email s.next_id now ttl)
            at
  unfolding consume consume_found consume_row
  consume-issued s code email now ttl at h =
      rw ((current-issue s code email now ttl).0, consume)
        (ground (arith, str_eq_refl (hash_token code)))

  -- The code that was issued last for an address, presented before its time is over, is accepted
  -- for the address; presented a second time it is unknown.
  pub consume-issued_code :
      (s : Otps) (code email : Str) (now ttl at later : ℕ)
      → at < now + ttl
      → ((consume hash_token (issue hash_token s code email now ttl).0.rows email code at).1
          ≡ accepted email)
        × ((consume hash_token
              (consume hash_token (issue hash_token s code email now ttl).0.rows email code at).0
              email
              code
              later).1
            ≡ unknown)
  consume-issued_code s code email now ttl at later h =
      rw (consume-issued s code email now ttl at h) (
        issue-accept_code s code email now ttl at,
        ap (λ r. r.1)
            (consume-spent _ email code (hash_token code) later
              (inl (current-accept_code email _ _ at (current-issue s code email now ttl).1))),
      )
