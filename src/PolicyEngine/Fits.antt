-- ===== src/PolicyEngine/Fits.antt =====
-- After a cascade of crates/rustbase-db/src/policy_engine.rs every stored specification below fits.
use rustbase.Base.{
  ℕ, ◌+◌, Str, codes, str_eq, str_eq_iff, lookup-upsert, ◌≡◌, ◌≢◌, refl, ap, ap₂, inl, inr, true,
  Bool-cases, Option, none, some, List, [], ◌∷◌, map, arith, All, length, length-append,
  if◌then◌else◌, subst,
}
use rustbase.Policy.{PolicySpec, allows, clamp}
use rustbase.Policy.Refinement.{IsWellFormed, SameKind, allows-clamp}
use rustbase.Tenancy.{ScopeDb, App, Workspace, get_policy}
use rustbase.PolicyEngine.{clamp_stored, clamp_app, clamp_apps, cascade_realm_to_apps}

module _ {J : Type 0} where
  -- A stored specification, if there is one, is allowed by the bound.
  abbrev pub FitsOption : PolicySpec J → Option (PolicySpec J) → Type 0
  FitsOption bound none = Unit
  FitsOption bound (some s) = allows bound s ≡ true

  -- It is of the bound's kind.
  abbrev pub KindOption : PolicySpec J → Option (PolicySpec J) → Type 0
  KindOption bound none = Unit
  KindOption bound (some s) = SameKind bound s

  -- What binds the apps of a workspace: its own specification, or else the bound from above.
  abbrev pub bound_below : PolicySpec J → Option (PolicySpec J) → PolicySpec J
  bound_below bound none = bound
  bound_below bound (some s) = s

  -- An app's identifier and what it stores for a field.
  abbrev pub policy_of : Str → App J → Str × Option (PolicySpec J)
  policy_of g a = (a.id, get_policy a.db g)

  -- The entries in the audit logs of all apps.
  abbrev pub logged : List (App J) → ℕ
  logged [] = 0
  logged (a ∷ rest) = length a.db.audit_log + logged rest

module _ {J : Type 0} (field : Str) where
  abbrev pub AppsFit : PolicySpec J → List (App J) → Type 0
  AppsFit bound apps = All (λ (a : App J). FitsOption bound (get_policy a.db field)) apps

  abbrev pub AppsKind : PolicySpec J → List (App J) → Type 0
  AppsKind bound apps = All (λ (a : App J). KindOption bound (get_policy a.db field)) apps

  -- A workspace under a bound: it fits, and each of its apps fits what then binds them.
  pub record Fits (bound : PolicySpec J) (w : Workspace J) : Type 0 where
    pub own : FitsOption bound (get_policy w.db field)
    pub below : AppsFit (bound_below bound (get_policy w.db field)) w.apps

  pub record Kind (bound : PolicySpec J) (w : Workspace J) : Type 0 where
    pub own : KindOption bound (get_policy w.db field)
    pub below : AppsKind bound w.apps

module _ {J : Type 0} (actor : Option Str) (trigger field : Str) where
  -- A clamp writes the field and no other, and adds one entry to the audit log.
  get_policy-clamp_stored :
      (bound stored : PolicySpec J) (db : ScopeDb J) (g : Str)
      → get_policy (clamp_stored actor trigger field bound stored db) g
        ≡ (if str_eq field g then some (clamp bound stored) else get_policy db g)
  unfolding get_policy clamp_stored
  get_policy-clamp_stored bound stored db g = lookup-upsert field g (clamp bound stored) db.policies

  pub get_policy-clamp_stored_self :
      (bound stored : PolicySpec J) (db : ScopeDb J)
      → get_policy (clamp_stored actor trigger field bound stored db) field
        ≡ some (clamp bound stored)
  get_policy-clamp_stored_self bound stored db =
      ground (arith, get_policy-clamp_stored bound stored db field, str_eq_iff field field)

  clamp_app-fits :
      (ws : Str) (bound : PolicySpec J) (a : App J)
      → IsWellFormed bound
      → KindOption bound (get_policy a.db field)
      → FitsOption bound (get_policy (clamp_app actor trigger field ws bound a).0.db field)
  unfolding clamp_app get_policy
  clamp_app-fits ws bound a w k = by_stored (get_policy a.db field) refl
    where
      by_stored :
          (o : Option (PolicySpec J))
          → get_policy a.db field ≡ o
          → FitsOption bound (get_policy (clamp_app actor trigger field ws bound a).0.db field)
      by_stored none e = rw (e, clamp_app) (rw e tt)
      by_stored (some s) e = elim (Bool-cases (allows bound s)) [
        | inl h ↦ rw (e, clamp_app) (rw h (rw e h))
        | inr h ↦
            rw (e, clamp_app)
              (rw h (
                rw (get_policy-clamp_stored_self bound s a.db)
                  (allows-clamp bound s w (subst (KindOption bound) e k))))
      ]

  pub clamp_apps-fit :
      (ws : Str) (bound : PolicySpec J) (apps : List (App J))
      → IsWellFormed bound
      → AppsKind field bound apps
      → AppsFit field bound (clamp_apps actor trigger field ws bound apps).0
  unfolding clamp_apps
  clamp_apps-fit ws bound [] w k = tt
  clamp_apps-fit ws bound (a ∷ rest) w k =
      (clamp_app-fits ws bound a w k.0, clamp_apps-fit ws bound rest w k.1)

  pub clamp_stored-other :
      (bound stored : PolicySpec J) (db : ScopeDb J) (g : Str)
      → g ≢ field
      → get_policy (clamp_stored actor trigger field bound stored db) g ≡ get_policy db g
  clamp_stored-other bound stored db g n =
      ground (arith, get_policy-clamp_stored bound stored db g, str_eq_iff field g)

  clamp_app-other :
      (ws : Str) (bound : PolicySpec J) (a : App J) (g : Str)
      → g ≢ field
      → policy_of g (clamp_app actor trigger field ws bound a).0 ≡ policy_of g a
  unfolding clamp_app get_policy
  clamp_app-other ws bound a g n = by_stored (get_policy a.db field) refl
    where
      by_stored :
          (o : Option (PolicySpec J))
          → get_policy a.db field ≡ o
          → policy_of g (clamp_app actor trigger field ws bound a).0 ≡ policy_of g a
      by_stored none e = rw (e, clamp_app)
      by_stored (some s) e = elim (Bool-cases (allows bound s)) [
        | inl h ↦ rw (e, clamp_app) (rw h)
        | inr h ↦
            rw (e, clamp_app)
              (rw h (
                ap {B = Str × Option (PolicySpec J)} (λ x. (a.id, x))
                  (clamp_stored-other bound s a.db g n)))
      ]

  -- The loop keeps the apps, in their order, and every policy of another field.
  pub clamp_apps-other :
      (ws : Str) (bound : PolicySpec J) (apps : List (App J)) (g : Str)
      → g ≢ field
      → map (policy_of g) (clamp_apps actor trigger field ws bound apps).0 ≡ map (policy_of g) apps
  unfolding clamp_apps
  clamp_apps-other ws bound [] g n = refl
  clamp_apps-other ws bound (a ∷ rest) g n =
      ap₂ ◌∷◌ (clamp_app-other ws bound a g n) (clamp_apps-other ws bound rest g n)

  logged-clamp_stored :
      (bound stored : PolicySpec J) (db : ScopeDb J)
      → length (clamp_stored actor trigger field bound stored db).audit_log
        ≡ length db.audit_log + 1
  unfolding clamp_stored
  logged-clamp_stored bound stored db = length-append db.audit_log _

  clamp_app-logged :
      (ws : Str) (bound : PolicySpec J) (a : App J)
      → let (a', outcome) = clamp_app actor trigger field ws bound a in
        length a'.db.audit_log ≡ length a.db.audit_log + length outcome
  unfolding clamp_app get_policy
  clamp_app-logged ws bound a = by_stored (get_policy a.db field) refl
    where
      by_stored :
          (o : Option (PolicySpec J))
          → get_policy a.db field ≡ o
          → let (a', outcome) = clamp_app actor trigger field ws bound a in
            length a'.db.audit_log ≡ length a.db.audit_log + length outcome
      by_stored none e = rw (e, clamp_app) (omega arith)
      by_stored (some s) e = elim (Bool-cases (allows bound s)) [
        | inl h ↦ rw (e, clamp_app) (rw h (omega arith))
        | inr h ↦ rw (e, clamp_app) (rw h (omega (arith, logged-clamp_stored bound s a.db)))
      ]

  clamp_apps-logged :
      (ws : Str) (bound : PolicySpec J) (apps : List (App J))
      → let (apps', outcomes) = clamp_apps actor trigger field ws bound apps in
        logged apps' ≡ logged apps + length outcomes
  unfolding clamp_apps
  clamp_apps-logged ws bound [] = refl
  clamp_apps-logged ws bound (a ∷ rest) = omega (
    arith,
    clamp_app-logged ws bound a,
    clamp_apps-logged ws bound rest,
    length-append (clamp_app actor trigger field ws bound a).1
        (clamp_apps actor trigger field ws bound rest).1,
  )

module _ {J : Type 0} (actor : Option Str) (field : Str) where
  -- After the specification of a workspace has become `bound`, well formed and of the kind of what
  -- its apps store for the field, the cascade leaves every app with a specification that the bound
  -- allows, if it has one. Apps and policies of other fields stay as they are, and the audit logs
  -- of the apps grow by one entry for each outcome.
  pub cascade_realm_to_apps-fits :
      (bound : PolicySpec J) (w : Workspace J) (g : Str)
      → IsWellFormed bound
      → AppsKind field bound w.apps
      → g ≢ field
      → let (w', outcomes) = cascade_realm_to_apps actor field bound w in
        AppsFit field bound w'.apps
        × (map (policy_of g) w'.apps ≡ map (policy_of g) w.apps)
        × (logged w'.apps ≡ logged w.apps + length outcomes)
        × (w'.db ≡ w.db)
  unfolding cascade_realm_to_apps
  cascade_realm_to_apps-fits bound w g wf k n =
      let trigger = codes "workspace_tightened" in
      (
        clamp_apps-fit actor trigger field w.id bound w.apps wf k,
        clamp_apps-other actor trigger field w.id bound w.apps g n,
        clamp_apps-logged actor trigger field w.id bound w.apps,
        refl,
      )
