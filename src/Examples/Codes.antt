-- ===== src/Examples/Codes.antt =====
-- The theorems on crates/rustbase-db/src/email_otps.rs at concrete inputs.
use rustbase.Base.{ℕ, Str, codes, ◌≡◌, refl, List, [], ◌∷◌, arith}
use rustbase.EmailOtps.{Otps, accepted, unknown, new_row, issue, consume}
use rustbase.EmailOtps.Budget.{guess_all, issue-budget, consume-issued_code}
use rustbase.Examples.{ada, bob, digest}

-- A table in which codes for two addresses are pending.
abbrev sent : Otps
sent = record {
  rows =
      new_row (digest (codes "111111")) ada 2 40 60
      ∷ new_row (digest (codes "222222")) bob 1 30 60
      ∷ [];
  next_id = 3;
}

abbrev code : Str
code = codes "123456"

abbrev guesses : List (Str × ℕ)
guesses =
    (codes "000000", 101)
    ∷ (codes "000001", 102)
    ∷ (codes "000002", 103)
    ∷ (codes "000003", 104)
    ∷ (codes "000004", 105)
    ∷ []

issue-budget_example :
    consume digest
      (guess_all digest (issue digest sent code ada 100 60).0.rows ada guesses)
      ada
      code
      106
    ≡ (guess_all digest (issue digest sent code ada 100 60).0.rows ada guesses, unknown)
issue-budget_example =
    issue-budget digest sent code ada code 100 60 106 guesses
      (ground arith, (ground arith, (ground arith, (ground arith, (ground arith, tt))))) refl

consume-issued_code_example :
    ((consume digest (issue digest sent code ada 100 60).0.rows ada code 120).1 ≡ accepted ada)
    × ((consume digest
          (consume digest (issue digest sent code ada 100 60).0.rows ada code 120).0
          ada
          code
          130).1
        ≡ unknown)
consume-issued_code_example = consume-issued_code digest sent code ada 100 60 120 130 (omega arith)
