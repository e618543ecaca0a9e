-- ===== src/Filter/Like.antt =====
-- What the patterns of `like_match` in crates/rustbase-core/src/filter.rs stand for.
use rustbase.Base.{
  ℕ, not, ◌==◌, ==_iff, Bool-cases, ◌≡◌, ◌≢◌, refl, ◌↔◌, subst, inl, inr, Bool, true, ◌&&◌, Str,
  str_eq, [], ◌∷◌, all, ◌++◌, arith,
}
use rustbase.Filter.{like_match}

-- The texts of a pattern: a `%` is any run of characters, a `_` any one, and any other is itself.
pub data Matches : Str → Str → Type 0 where
  done : Matches [] []
  run : (before v p : Str) → Matches v p → Matches (before ++ v) (b'%' ∷ p)
  one : (c : ℕ) (v p : Str) → Matches v p → Matches (c ∷ v) (b'_' ∷ p)
  same : (c : ℕ) (v p : Str) → c ≢ b'%' → Matches v p → Matches (c ∷ v) (c ∷ p)

pub run-match :
    (before v p : Str) → like_match v p ≡ true → like_match (before ++ v) (b'%' ∷ p) ≡ true
unfolding like_match
run-match [] [] p h = ground arith
run-match [] (c ∷ v) p h = ground arith
run-match (b ∷ before) v p h = ground (arith, run-match before v p h)

like_match_complete : (v p : Str) → Matches v p → like_match v p ≡ true
unfolding like_match
like_match_complete _ _ done = refl
like_match_complete _ _ (run before v p m) = run-match before v p (like_match_complete v p m)
like_match_complete _ _ (one c v p m) = like_match_complete v p m
like_match_complete _ _ (same c v p other m) = ground (arith, like_match_complete v p m, ==_iff c c)

-- One more character before a text that a `%` begins.
run_more : (c : ℕ) (v p : Str) → Matches v (b'%' ∷ p) → Matches (c ∷ v) (b'%' ∷ p)
run_more c _ _ (run before v p m) = run (c ∷ before) v p m
run_more c _ _ (same d v p other m) = absurd (other refl)

-- The step of a pattern's first character, by what it is.
module _ (c ch : ℕ) (v p : Str) where
  percent_sound :
      (like_match (c ∷ v) p ≡ true → Matches (c ∷ v) p)
      → (like_match v (ch ∷ p) ≡ true → Matches v (ch ∷ p))
      → ch ≡ b'%'
      → like_match (c ∷ v) (ch ∷ p) ≡ true
      → Matches (c ∷ v) (ch ∷ p)
  unfolding like_match
  percent_sound skip more e h = elim (Bool-cases (like_match (c ∷ v) p)) [
    | inl t ↦ rw e (run [] (c ∷ v) p (skip t))
    | inr f ↦ rw e (run_more c v p (subst (λ x. Matches v (x ∷ p)) e (more (ground arith))))
  ]

  first_sound :
      (like_match (c ∷ v) p ≡ true → Matches (c ∷ v) p)
      → (like_match v (ch ∷ p) ≡ true → Matches v (ch ∷ p))
      → (like_match v p ≡ true → Matches v p)
      → like_match (c ∷ v) (ch ∷ p) ≡ true
      → Matches (c ∷ v) (ch ∷ p)
  unfolding like_match
  first_sound skip more next h = elim (Bool-cases (ch == b'%')) [
    | inl e ↦ percent_sound skip more ((==_iff ch b'%').0 e) h
    | inr n ↦ elim (Bool-cases (ch == b'_')) [
      | inl e ↦ rw ((==_iff ch b'_').0 e) (one c v p (next (ground arith)))
      | inr m ↦ let d : c ≡ ch = ground arith in rw d (same ch v p (λ e. cc) (next (ground arith)))
    ]
  ]

like_match_sound : (v p : Str) → like_match v p ≡ true → Matches v p
unfolding like_match
like_match_sound [] [] h = done
like_match_sound (c ∷ v) [] h = cc
like_match_sound [] (ch ∷ p) h =
    let e : ch ≡ b'%' = ground arith in rw e (run [] [] p (like_match_sound [] p (ground arith)))
like_match_sound (c ∷ v) (ch ∷ p) h =
    first_sound c ch v p (like_match_sound (c ∷ v) p) (like_match_sound v (ch ∷ p))
      (like_match_sound v p) h

-- `like_match` answers true exactly for the texts that the pattern stands for.
pub like_match_iff : (v p : Str) → (like_match v p ≡ true) ↔ Matches v p
like_match_iff v p = (like_match_sound v p, like_match_complete v p)

abbrev pub is_literal : Str → Bool
is_literal = all (λ c. not (c == b'%') && not (c == b'_'))

pub like_match-literal : (v p : Str) → is_literal p ≡ true → like_match v p ≡ str_eq v p
unfolding like_match str_eq
like_match-literal [] [] h = refl
like_match-literal (c ∷ v) [] h = refl
like_match-literal [] (ch ∷ p) h = ground arith
like_match-literal (c ∷ v) (ch ∷ p) h = ground (arith, like_match-literal v p)
