-- ===== src/Error.antt =====
-- crates/rustbase-core/src/error.rs, and the status that crates/rustbase-api/src/error.rs answers
-- with. A `Result` is what a handler or a fallible function returns.
use rustbase.Base.{
  ℕ, Str, codes, ◌≡◌, ◌↔◌, refl, subst, Bool, true, false, Option, none, some, List, [], ◌∷◌, ◌++◌,
  all, arith,
}

pub data CoreError : Type 0 where
  not_found : Str → Str → CoreError
  validation : Str → CoreError
  workspace_not_found : Str → CoreError
  app_not_found : Str → Str → CoreError
  policy_violation : Str → Str → Str → CoreError
  unauthorized forbidden : CoreError
  conflict unavailable internal : Str → CoreError
  too_many_requests : ℕ → CoreError

pub data Result {ℓ} (A : Type ℓ) : Type ℓ where
  ok : A → Result A
  err : CoreError → Result A

-- `ok_or`.
abbrev pub ok_or {ℓ} : {A : Type ℓ} → Option A → CoreError → Result A
ok_or none e = err e
ok_or (some a) e = ok a

-- The `?` operator: an error ends the function that stands around it.
infixl 5 ◌>>=◌ ◌>>◌
abbrev pub ◌>>=◌ {ℓ κ} : {A : Type ℓ} {B : Type κ} (m : Result A) (next : A → Result B) → Result B
err x >>= next = err x
ok value >>= next = next value

abbrev pub ◌>>◌ {ℓ} : {B : Type ℓ} (m : Result (Unit {0})) (next : Result B) → Result B
check >> next = check >>= λ done. next

-- A guard that returns the error where the test fails.
abbrev pub require : Bool → CoreError → Result (Unit {0})
require true e = ok tt
require false e = err e

-- The HTTP status of `IntoResponse for ApiError`.
unfoldable pub status : CoreError → ℕ
status (not_found c i) = 404
status (validation m) = 400
status (workspace_not_found w) = 404
status (app_not_found w a) = 404
status (policy_violation f v b) = 409
status unauthorized = 401
status forbidden = 403
status (conflict m) = 409
status (unavailable m) = 503
status (internal m) = 500
status (too_many_requests n) = 429

-- crates/rustbase-db/src/error.rs, with the variants that the modelled code makes: a `sqlx` error is
-- `RowNotFound` or a text of SQLite's.
pub data DbError : Type 0 where
  invalid_identifier : Str → DbError
  row_not_found : DbError
  sqlx : Str → DbError

-- `From<DbError> for CoreError`; the last text is that of sqlx.
unfoldable pub core_error : DbError → CoreError
core_error (invalid_identifier name) = validation (codes "invalid identifier: " ++ name)
core_error row_not_found =
    internal
      (codes "database error: no rows returned by a query that expected to return at least one row")
core_error (sqlx s) = internal (codes "database error: " ++ s)

-- What holds of the value of a result, if it has one.
abbrev pub OnOk {ℓ κ} : {A : Type ℓ} → (A → Type κ) → Result A → Type κ
OnOk P (ok a) = P a
OnOk P (err e) = Unit

pub OnOk-bind {ℓ κ ρ} :
    {A : Type ℓ} {B : Type κ} (P : B → Type ρ) (m : Result A) (f : A → Result B)
    → ((a : A) → m ≡ ok a → OnOk P (f a))
    → OnOk P (m >>= f)
OnOk-bind P (ok a) f h = h a refl
OnOk-bind P (err e) f h = tt

pub OnOk-mono {ℓ κ ρ} :
    {A : Type ℓ} (P : A → Type κ) (Q : A → Type ρ) (m : Result A)
    → ((a : A) → P a → Q a)
    → OnOk P m
    → OnOk Q m
OnOk-mono P Q (ok a) f h = f a h
OnOk-mono P Q (err e) f h = tt

pub OnOk-ok {ℓ κ} : {A : Type ℓ} (P : A → Type κ) (m : Result A) (a : A) → OnOk P m → m ≡ ok a → P a
OnOk-ok P m a h e = subst (OnOk P) e h

pub ok_or-ok {ℓ} :
    {A : Type ℓ} (o : Option A) (x : CoreError) (a : A) → ok_or o x ≡ ok a → o ≡ some a
ok_or-ok none x a e = cc
ok_or-ok (some b) x a e = cc

-- Whether a result is an error, and which.
abbrev pub outcome {ℓ} : {A : Type ℓ} → Result A → Result (Unit {0})
outcome (ok a) = ok tt
outcome (err e) = err e

pub outcome-bind {ℓ κ} :
    {A : Type ℓ} {B : Type κ} (m : Result A) (f : A → Result B) (next : Result (Unit {0}))
    → ((a : A) → outcome (f a) ≡ next)
    → outcome (m >>= f) ≡ (outcome m >> next)
outcome-bind (ok a) f next h = h a
outcome-bind (err e) f next h = refl

-- A test of every text of a list, up to the first that fails it.
unfoldable pub check_each : (Str → Bool) → (Str → CoreError) → List Str → Result (Unit {0})
check_each p e [] = ok tt
check_each p e (s ∷ ss) = require (p s) (e s) >> check_each p e ss

pub check_each-append :
    (p : Str → Bool) (e : Str → CoreError) (ss ts : List Str)
    → check_each p e (ss ++ ts) ≡ (check_each p e ss >> check_each p e ts)
unfolding check_each
check_each-append p e [] ts = refl
check_each-append p e (s ∷ ss) ts = ground (arith, check_each-append p e ss ts)

pub check_each_iff :
    (p : Str → Bool) (e : Str → CoreError) (ss : List Str)
    → (check_each p e ss ≡ ok tt) ↔ (all p ss ≡ true)
unfolding check_each
check_each_iff p e [] = ground arith
check_each_iff p e (s ∷ ss) = ground (arith, check_each_iff p e ss)

-- What a chain that came to a value went through.
pub bind-ok {ℓ κ} :
    {A : Type ℓ} {B : Type κ} (m : Result A) (f : A → Result B) (b : B)
    → (m >>= f) ≡ ok b
    → (a : A) × (m ≡ ok a) × (f a ≡ ok b)
bind-ok (ok a) f b h = (a, refl, h)
bind-ok (err e) f b h = absurd (cc)

pub ok-same {ℓ} : {A : Type ℓ} {a b : A} → ◌≡◌ {A = Result A} (ok a) (ok b) → a ≡ b
ok-same h = cc
