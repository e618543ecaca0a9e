-- ===== src/Base/Lists.antt =====
-- Lists measured by native numbers, and Boolean and propositional tests of all their elements.
use Prim.Native.Nat.{ℕ, suc, ◌+◌}
use mathlib.Core.Path.{◌≡◌, refl}
use mathlib.Core.Bool.{Bool, true, false, ◌&&◌, ◌||◌}
use mathlib.Core.List.{List, [], ◌∷◌, ◌++◌}
use native.Mathlib.Omega.{arith}
use rustbase.Base.Tests.{if◌then◌else◌}

module _ {ℓ} {A : Type ℓ} where
  abbrev pub length : List A → ℕ
  length [] = 0
  length (x ∷ xs) = suc (length xs)

  pub length-append : (xs ys : List A) → length (xs ++ ys) ≡ length xs + length ys
  length-append [] ys = omega arith
  length-append (x ∷ xs) ys = omega (arith, length-append xs ys)

  abbrev pub is_empty : List A → Bool
  is_empty [] = true
  is_empty (x ∷ xs) = false

  -- `Iterator::all` and `Iterator::any`.
  abbrev pub all : (A → Bool) → List A → Bool
  all p [] = true
  all p (x ∷ xs) = p x && all p xs

  abbrev pub any : (A → Bool) → List A → Bool
  any p [] = false
  any p (x ∷ xs) = p x || any p xs

  -- `Iterator::filter`, `Vec::retain`.
  abbrev pub keep : (A → Bool) → List A → List A
  keep p [] = []
  keep p (x ∷ xs) = if p x then x ∷ keep p xs else keep p xs

module _ {ℓ κ} {A : Type ℓ} where
  -- Every element has the property.
  abbrev pub All : (P : A → Type κ) (xs : List A) → Type κ
  All P (first ∷ rest) = P first × All P rest
  All P [] = Unit

  pub All-append :
      (P : A → Type κ) (front back : List A) → All P front → All P back → All P (front ++ back)
  All-append P (first ∷ rest) back h k = (h.0, All-append P rest back h.1 k)
  All-append P [] back h k = k

module _ {ℓ} {A : Type ℓ} where
  pub all-keep : (p : A → Bool) (xs : List A) → all p (keep p xs) ≡ true
  all-keep p [] = refl
  all-keep p (x ∷ xs) = ground (arith, all-keep p xs)

  pub keep-of-all : (p : A → Bool) (xs : List A) → all p xs ≡ true → keep p xs ≡ xs
  keep-of-all p [] h = refl
  keep-of-all p (x ∷ xs) h = ground (arith, keep-of-all p xs)

  pub all_mono :
      (p q : A → Bool) (xs : List A)
      → ((x : A) → p x ≡ true → q x ≡ true)
      → all p xs ≡ true
      → all q xs ≡ true
  all_mono p q [] f h = refl
  all_mono p q (x ∷ xs) f h = ground (arith, f x, all_mono p q xs f)
