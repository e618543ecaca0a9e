-- ===== src/Examples/Policies.antt =====
-- The theorems on crates/rustbase-core/src/config.rs and crates/rustbase-api/src/auth/extract.rs at
-- concrete inputs.
use rustbase.Base.{ℕ, Str, codes, ◌≡◌, true, false, List, [], ◌∷◌, arith}
use rustbase.Base.Int.{pos}
use rustbase.Policy.{
  open_default, locked, PolicySpec, toggle, allows, clamp, PolicyLevel, valid, validate_chain,
}
use rustbase.Policy.Refinement.{inverted_range}
use rustbase.Policy.Chain.{lock_escape}
use rustbase.Examples.{between, uploads}

abbrev level : Str → PolicySpec ℕ → PolicyLevel ℕ
level name spec = record { level = name; spec = spec }

-- A chain whose workspace is wider than the master specification.
abbrev chain : List (PolicyLevel ℕ)
chain =
    level (codes "master") (between 1 10)
    ∷ level (codes "workspace") (between 5 20)
    ∷ level (codes "app") (between 6 7)
    ∷ []

abbrev good_chain : List (PolicyLevel ℕ)
good_chain =
    level (codes "master") (between 1 10)
    ∷ level (codes "workspace") (between 5 8)
    ∷ level (codes "app") (between 6 7)
    ∷ []

inverted_range_example :
    (allows (between 10 1) (between 3 4) ≡ false)
    × (clamp {J = ℕ} (between 10 1) (between 3 4) ≡ between 10 1)
inverted_range_example =
    inverted_range (record { min = pos 10; max = pos 1 }) (between 3 4)
      (record { min = pos 3; max = pos 4 }) (omega arith)

lock_escape_example :
    validate_chain {J = ℕ} uploads (
      level (codes "master") (toggle (locked true))
      ∷ level (codes "workspace") (toggle (open_default true))
      ∷ level (codes "app") (toggle (locked false))
      ∷ [])
    ≡ valid
lock_escape_example =
    lock_escape uploads (codes "master") (codes "workspace") (codes "app") true (locked false)
