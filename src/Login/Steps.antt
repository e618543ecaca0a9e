-- ===== src/Login/Steps.antt =====
-- What the steps of the handlers in crates/rustbase-api/src/auth leave, where they go through.
use rustbase.Base.{
  ◌≡◌, refl, sym, ap, ◌∙◌, Bool, true, false, Str, lookup, upsert, Option, none, some,
  if◌then◌else◌,
}
use rustbase.Error.{
  CoreError, Result, ok, err, internal, workspace_not_found, too_many_requests, ok-same,
}
use rustbase.LoginState.{Identity, World, Env, Draw, EventDetails}
use rustbase.Login.{
  M, and_then, some_or, pure, read, query, require_workspace_exists, pick_error, note,
  record_failure, write, execute,
}

module _ {A B : Type 0} (f : A → M B) (w w' : World) (b : B) where
  -- A step that only reads and goes through.
  pub read-ok :
      (r : Result A) → and_then f (w, r) ≡ (w', ok b) → (a : A) × (r ≡ ok a) × (f a w ≡ (w', ok b))
  unfolding and_then
  read-ok (ok a) h = (a, refl, h)
  read-ok (err e) h = absurd (cc)

  -- Any step that goes through.
  pub step-ok :
      (p : World × Result A)
      → and_then f p ≡ (w', ok b)
      → (v : World) × (a : A) × (p ≡ (v, ok a)) × (f a v ≡ (w', ok b))
  unfolding and_then
  step-ok (v, ok a) h = (v, a, refl, h)
  step-ok (v, err e) h = absurd (cc)

-- An answer that is an error.
abbrev pub Refuses : {A : Type 0} → World × Result A → Type 0
Refuses {A} p = (e : CoreError) × ◌≡◌ {A = Result A} (p.1) (err e)

refused :
    {A : Type 0} (refuse : M A) (w : World)
    → Refuses (refuse w)
    → (v : World) (a : A) → refuse w ≡ (v, ok a)
    → ⊥
refused {A} refuse w (e, is_err) v a h =
    let k : ◌≡◌ {A = Result A} (err e) (ok a) = sym is_err ∙ ap (λ p. p.1) h in cc

module _ {A B : Type 0} (f : A → M B) (w w' : World) (b : B) (refuse : M A)
    (refuses : Refuses (refuse w)) where
  -- What a refusal guards was there.
  pub some_or-ok :
      (o : Option A)
      → and_then f (some_or o refuse w) ≡ (w', ok b)
      → (a : A) × (o ≡ some a) × (f a w ≡ (w', ok b))
  unfolding and_then some_or
  some_or-ok (some a) h = (a, refl, h)
  some_or-ok none h =
      let (v, a, e, h1) = step-ok f w w' b (refuse w) h in absurd (refused refuse w refuses v a e)

  -- So was what a test guards.
  pub test-ok :
      (t : Bool) (a : A)
      → and_then f ((if t then pure a else refuse) w) ≡ (w', ok b)
      → (t ≡ true) × (f a w ≡ (w', ok b))
  unfolding and_then
  test-ok true a h = (refl, h)
  test-ok false a h =
      let (v, x, e, h1) = step-ok f w w' b (refuse w) h in absurd (refused refuse w refuses v x e)

module _ {A : Type 0} (w : World) (refuse : M A) (refuses : Refuses (refuse w)) where
  pub passed-ok :
      (t : Bool) (a : A) (v : World) (b : A)
      → (if t then pure a else refuse) w ≡ (v, ok b)
      → (t ≡ true) × (w ≡ v)
  passed-ok true a v b h = (refl, ap (λ p. p.0) h)
  passed-ok false a v b h = absurd (refused refuse w refuses v b h)

module _ {A : Type 0} (scope : Option Str) (subject target : Str) (flow : Option Str)
    (details : EventDetails) (refusal : CoreError) where
  pick_error-Refuses :
      (p : World × Result (Unit {0}))
      → Refuses (pick_error {A = A} scope subject target flow details refusal p)
  unfolding pick_error
  pick_error-Refuses (w, ok u) = (refusal, refl)
  pick_error-Refuses (w, err (too_many_requests n)) = (too_many_requests n, refl)
  pick_error-Refuses (w, err e) = (e, refl)

  -- A failure is always answered with an error.
  pub record_failure-Refuses :
      {Totp : Type 0} (env : Env Totp) (draw : Draw) (w : World)
      → Refuses (record_failure env {A = A} scope subject target flow details refusal draw w)
  unfolding record_failure
  record_failure-Refuses env draw w = pick_error-Refuses (note env subject draw w)

module _ {Totp : Type 0} (env : Env Totp) where
  -- What was read of the database of a workspace that exists.
  pub read-found :
      {A : Type 0} (o : Option Identity) (f : Identity → A) (a : A)
      → read env o f ≡ ok a
      → (db : Identity) × (o ≡ some db) × (f db ≡ a)
  read-found none f a h = absurd (cc)
  read-found (some db) f a h = (db, refl, ok-same h)

module _ {B : Type 0} (f : Unit {0} → M B) (w w' : World) (b : B) (workspace : Str) where
  pub exists-ok :
      and_then f (require_workspace_exists workspace w) ≡ (w', ok b)
      → (db : Identity) × (lookup workspace w.workspaces ≡ some db) × (f tt w ≡ (w', ok b))
  unfolding require_workspace_exists and_then
  exists-ok h = found (lookup workspace w.workspaces) refl h
    where
      found :
          (o : Option Identity)
          → lookup workspace w.workspaces ≡ o
          → and_then f (elim o as (λ x. World × Result (Unit {0})) [
            | none ↦ (w, err (workspace_not_found workspace))
            | some db ↦ (w, ok tt)
          ])
            ≡ (w', ok b)
          → (db : Identity) × (lookup workspace w.workspaces ≡ some db) × (f tt w ≡ (w', ok b))
      found none e h = absurd (cc)
      found (some db) e h = (db, e, h)

module _ {Totp : Type 0} (env : Env Totp) {A : Type 0} (workspace : Str) (w v : World) (a : A) where
  write-ok :
      (db : Identity) (r : Result (Identity × A))
      → write env w workspace db r ≡ (v, ok a)
      → (db' : Identity) × (r ≡ ok (db', a))
        × (v ≡ record w { workspaces = upsert workspace db' w.workspaces })
  write-ok db (err e) h = absurd (cc)
  write-ok db (ok (db', x)) h =
      (db', ap (λ y. ok (db', y)) (ok-same (ap (λ p. p.1) h)), sym (ap (λ p. p.0) h))

  -- A statement that went through found the workspace, and wrote its database alone.
  pub execute-ok :
      (f : Identity → Result (Identity × A))
      → execute env workspace f w ≡ (v, ok a)
      → (db : Identity) × (db' : Identity) × (lookup workspace w.workspaces ≡ some db)
        × (f db ≡ ok (db', a))
        × (v ≡ record w { workspaces = upsert workspace db' w.workspaces })
  unfolding execute
  execute-ok f h = found (lookup workspace w.workspaces) refl h
    where
      found :
          (o : Option Identity)
          → lookup workspace w.workspaces ≡ o
          → elim o as (λ x. World × Result A) [
            | none ↦ (w, err (internal env.no_tables))
            | some db ↦ write env w workspace db (f db)
          ]
            ≡ (v, ok a)
          → (db : Identity) × (db' : Identity) × (lookup workspace w.workspaces ≡ some db)
            × (f db ≡ ok (db', a))
            × (v ≡ record w { workspaces = upsert workspace db' w.workspaces })
      found none e h = absurd (cc)
      found (some db) e h = let (db', went, left) = write-ok db (f db) h in (db, db', e, went, left)

-- How a handler goes on, and where it ends.
module _ {A B : Type 0} (f : A → M B) (e : CoreError) where
  pub on-ok :
      (p : World × Result A) (v : World) (a : A)
      → p ≡ (v, ok a)
      → (f a v).1 ≡ err e
      → (and_then f p).1 ≡ err e
  unfolding and_then
  on-ok p v a same h = ap (λ q. (and_then f q).1) same ∙ h

  pub on-err : (v : World) (r : Result A) → r ≡ err e → (and_then f (v, r)).1 ≡ err e
  unfolding and_then
  on-err v r h = ap (λ q. (and_then f (v, q)).1) h

module _ {A B : Type 0} (f : A → M B) (e : CoreError) where
  pub then-err : (p : World × Result A) → p.1 ≡ err e → (and_then f p).1 ≡ err e
  unfolding and_then
  then-err (v, r) h = on-err f e v r h

pub found-exists :
    (workspace : Str) (w : World) (db : Identity)
    → lookup workspace w.workspaces ≡ some db
    → require_workspace_exists workspace w ≡ (w, ok tt)
unfolding require_workspace_exists
found-exists workspace w db h = rw (h, require_workspace_exists) refl

module _ {Totp : Type 0} (env : Env Totp) {A : Type 0} (workspace : Str) (w : World)
    (db : Identity) where
  pub found-execute :
      (f : Identity → Result (Identity × A))
      → lookup workspace w.workspaces ≡ some db
      → execute env workspace f w ≡ write env w workspace db (f db)
  unfolding execute
  found-execute f h =
      ap
        (λ o. elim o as (λ x. World × Result A) [
          | none ↦ (w, err (internal env.no_tables))
          | some db ↦ write env w workspace db (f db)
        ])
        h

  pub found-query :
      (f : Identity → A)
      → lookup workspace w.workspaces ≡ some db
      → query env workspace f w ≡ (w, ok (f db))
  unfolding query
  found-query f h = ap (λ o. (w, read env o f)) h

module _ {A B : Type 0} (f : A → M B) where
  -- Where a step leads, if it goes through.
  pub goes : (p : World × Result A) (v : World) (a : A) → p ≡ (v, ok a) → and_then f p ≡ f a v
  unfolding and_then
  goes p v a same = ap (and_then f) same

  pub goes-read : (v : World) (r : Result A) (a : A) → r ≡ ok a → and_then f (v, r) ≡ f a v
  goes-read v r a same = goes (v, r) v a (ap (λ x. (v, x)) same)

  -- What is there passes, and what is not is refused.
  pub goes-some :
      (refuse : M A) (v : World) (o : Option A) (a : A)
      → o ≡ some a
      → and_then f (some_or o refuse v) ≡ f a v
  unfolding and_then some_or
  goes-some refuse v o a same = ap (λ x. and_then f (some_or x refuse v)) same

  pub goes-test :
      (refuse : M A) (v : World) (t : Bool) (a : A)
      → t ≡ true
      → and_then f ((if t then pure a else refuse) v) ≡ f a v
  unfolding and_then
  goes-test refuse v t a same = ap (λ b. and_then f ((if b then pure a else refuse) v)) same

  pub stops-none :
      (refuse : M A) (v : World) (o : Option A)
      → o ≡ none
      → and_then f (some_or o refuse v) ≡ and_then f (refuse v)
  unfolding some_or
  stops-none refuse v o same = ap (λ x. and_then f (some_or x refuse v)) same

module _ {A B : Type 0} (scope : Option Str) (subject target : Str) (flow : Option Str)
    (details : EventDetails) (refusal : CoreError) where
  pick_error-stops :
      (f : A → M B) (p : World × Result (Unit {0}))
      → and_then f (pick_error {A = A} scope subject target flow details refusal p)
        ≡ pick_error {A = B} scope subject target flow details refusal p
  unfolding and_then pick_error
  pick_error-stops f (w, ok u) = refl
  pick_error-stops f (w, err (too_many_requests n)) = refl
  pick_error-stops f (w, err e) = refl

  -- A failure ends the handler.
  pub record_failure-stops :
      {Totp : Type 0} (env : Env Totp) (draw : Draw) (f : A → M B) (w : World)
      → and_then f (record_failure env {A = A} scope subject target flow details refusal draw w)
        ≡ record_failure env {A = B} scope subject target flow details refusal draw w
  unfolding record_failure
  record_failure-stops env draw f w = pick_error-stops f (note env subject draw w)
