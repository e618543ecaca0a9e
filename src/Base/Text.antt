-- ===== src/Base/Text.antt =====
-- Texts as lists of code points, and tables keyed by a text.
use Prim.Native.Nat.{ℕ}
use Prim.Native.Char.{code}
use Prim.Native.String.{String}
use mathlib.Core.Path.{◌≡◌, refl}
use mathlib.Core.Logic.{◌↔◌, inl, inr}
use mathlib.Core.Bool.{Bool, true, false, ◌&&◌, ◌||◌}
use mathlib.Core.Option.{Option, none, some}
use mathlib.Core.List.{List, [], ◌∷◌}
use native.Mathlib.Omega.{arith}
use rustbase.Base.Tests.{◌==◌, Bool-cases, if◌then◌else◌}
use rustbase.Base.Lists.{all, keep}

abbrev pub Str : Type 0
Str = List ℕ

-- The code points of a literal.
abbrev pub codes : String → Str
codes String.[] = []
codes (String.◌∷◌ c s) = code c ∷ codes s

unfoldable pub str_eq : Str → Str → Bool
str_eq [] [] = true
str_eq [] (b ∷ t) = false
str_eq (a ∷ s) [] = false
str_eq (a ∷ s) (b ∷ t) = a == b && str_eq s t

pub str_eq_iff : (s t : Str) → (str_eq s t ≡ true) ↔ (s ≡ t)
unfolding str_eq
str_eq_iff [] [] = ground arith
str_eq_iff [] (b ∷ t) = ground arith
str_eq_iff (a ∷ s) [] = ground arith
str_eq_iff (a ∷ s) (b ∷ t) = ground (arith, str_eq_iff s t)

pub str_eq_refl : (s : Str) → str_eq s s ≡ true
str_eq_refl s = (str_eq_iff s s).1 refl

-- `contains` of a set of texts.
unfoldable pub contains : List Str → Str → Bool
contains [] s = false
contains (t ∷ ts) s = str_eq t s || contains ts s

-- A table with a text for its primary key; the first row of a key counts.
module _ {ℓ} {V : Type ℓ} where
  unfoldable pub lookup : Str → List (Str × V) → Option V
  lookup k [] = none
  lookup k ((j, v) ∷ m) = if str_eq j k then some v else lookup k m

  -- INSERT … ON CONFLICT(key) DO UPDATE.
  unfoldable pub upsert : Str → V → List (Str × V) → List (Str × V)
  upsert k v [] = (k, v) ∷ []
  upsert k v ((j, w) ∷ m) = if str_eq j k then (k, v) ∷ m else (j, w) ∷ upsert k v m

  -- DELETE … WHERE key = ?.
  unfoldable pub remove : Str → List (Str × V) → List (Str × V)
  remove k [] = []
  remove k ((j, w) ∷ m) = if str_eq j k then remove k m else (j, w) ∷ remove k m

  pub lookup-upsert :
      (k j : Str) (v : V) (m : List (Str × V))
      → lookup j (upsert k v m) ≡ (if str_eq k j then some v else lookup j m)
  unfolding lookup upsert
  lookup-upsert k j v [] = refl
  lookup-upsert k j v ((i, w) ∷ m) =
      ground (arith, str_eq_iff k j, str_eq_iff i k, str_eq_iff i j, lookup-upsert k j v m)

  pub lookup-remove :
      (k j : Str) (m : List (Str × V))
      → lookup j (remove k m) ≡ (if str_eq k j then none else lookup j m)
  unfolding lookup remove
  lookup-remove k j [] = ground arith
  lookup-remove k j ((i, w) ∷ m) =
      ground (arith, str_eq_iff k j, str_eq_iff i k, str_eq_iff i j, lookup-remove k j m)

pub contains-cons_self : (s : Str) (ts : List Str) → contains (s ∷ ts) s ≡ true
unfolding contains
contains-cons_self s ts = ground (arith, str_eq_iff s s)

-- A member of a list that passes a test of all its elements passes the test.
pub all-contains :
    (p : Str → Bool) (ts : List Str) (s : Str) → all p ts ≡ true → contains ts s ≡ true → p s ≡ true
unfolding contains
all-contains p [] s h k = cc
all-contains p (t ∷ ts) s h k = elim (Bool-cases (str_eq t s)) [
  | inl e ↦ rw (← (str_eq_iff t s).0 e) (ground arith)
  | inr e ↦ ground (arith, all-contains p ts s)
]

-- Membership in the kept part of a list.
pub contains-keep :
    (p : Str → Bool) (ts : List Str) (s : Str) → contains (keep p ts) s ≡ (p s && contains ts s)
unfolding contains
contains-keep p [] s = ground arith
contains-keep p (t ∷ ts) s = elim (Bool-cases (str_eq t s)) [
  | inl e ↦ rw (← (str_eq_iff t s).0 e) (ground (arith, contains-keep p ts t, str_eq_refl t))
  | inr e ↦ ground (arith, contains-keep p ts s)
]
