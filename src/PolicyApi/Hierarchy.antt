-- ===== src/PolicyApi/Hierarchy.antt =====
-- The endpoints of crates/rustbase-api/src/policies.rs keep the stored policies of a field within
-- the bounds of the scopes above them.
use rustbase.Base.{Str, ◌≡◌, true, Option, none, some, List, [], ◌∷◌, All}
use rustbase.Policy.{PolicySpec, allows}
use rustbase.Policy.Refinement.{
  IsWellFormed, SameKind, allows-SameKind, allows-IsWellFormed, SameKind-trans, SameKind-refl,
}
use rustbase.Tenancy.{App, Workspace, System, get_policy}
use rustbase.PolicyEngine.Fits.{FitsOption, KindOption, bound_below, AppsFit, AppsKind, Fits}
use rustbase.PolicyEngine.Master.{is_swept}

-- A specification of the field's kind, well formed.
abbrev pub IsGood : {J : Type 0} → PolicySpec J → PolicySpec J → Type 0
IsGood kind s = SameKind kind s × IsWellFormed s

abbrev pub GoodOption : {J : Type 0} → PolicySpec J → Option (PolicySpec J) → Type 0
GoodOption kind none = Unit
GoodOption kind (some s) = IsGood kind s

-- Within a bound that may be missing.
abbrev pub Within : {J : Type 0} → Option (PolicySpec J) → Option (PolicySpec J) → Type 0
Within none o = Unit
Within (some b) o = FitsOption b o

-- The bound of the apps: the workspace's specification, or else the master one.
abbrev pub bound_of_apps :
    {J : Type 0} → Option (PolicySpec J) → Option (PolicySpec J) → Option (PolicySpec J)
bound_of_apps master none = master
bound_of_apps master (some s) = some s

module _ {J : Type 0} (kind : PolicySpec J) (field : Str) where
  -- What holds of an app whose apps are bound by `bound`.
  pub record AppGoverned (bound : Option (PolicySpec J)) (a : App J) : Type 0 where
    pub good : GoodOption kind (get_policy a.db field)
    pub within : Within bound (get_policy a.db field)

  -- What holds of a workspace under the master specification.
  pub record Governed (master : Option (PolicySpec J)) (w : Workspace J) : Type 0 where
    pub good : GoodOption kind (get_policy w.db field)
    pub within : Within master (get_policy w.db field)
    pub apps : All (AppGoverned (bound_of_apps master (get_policy w.db field))) w.apps

  -- The stored policies of the field: every one is well formed and of the field's kind, each
  -- workspace but the master one is within the master specification, and each app within the
  -- specification that binds it.
  pub record Hierarchy (sys : System J) : Type 0 where
    pub top : GoodOption kind (get_policy sys.db field)
    pub below : All (λ w. is_swept w ≡ true → Governed (get_policy sys.db field) w) sys.workspaces

module _ {J : Type 0} (kind : PolicySpec J) where
  pub Good-of-allows : (b s : PolicySpec J) → IsGood kind b → allows b s ≡ true → IsGood kind s
  Good-of-allows b s g h = (
    SameKind-trans b kind s (SameKind-trans kind b kind g.0 (SameKind-refl kind))
        (allows-SameKind b s h),
    allows-IsWellFormed b s h,
  )

  pub Good-of-Fits :
      (b : PolicySpec J) (o : Option (PolicySpec J))
      → IsGood kind b
      → FitsOption b o
      → GoodOption kind o
  Good-of-Fits b none g f = tt
  Good-of-Fits b (some s) g f = Good-of-allows b s g f

  pub Kind-of-Good :
      (b : PolicySpec J) (o : Option (PolicySpec J))
      → IsGood kind b
      → GoodOption kind o
      → KindOption b o
  Kind-of-Good b none g h = tt
  Kind-of-Good b (some s) g h = SameKind-trans kind b s g.0 h.0

  pub AppsKind-of-governed :
      (field : Str) (bound : Option (PolicySpec J)) (b : PolicySpec J) (apps : List (App J))
      → IsGood kind b
      → All (AppGoverned kind field bound) apps
      → AppsKind field b apps
  AppsKind-of-governed field bound b [] g h = tt
  AppsKind-of-governed field bound b (a ∷ rest) g h = (
    Kind-of-Good b (get_policy a.db field) g h.0.good,
    AppsKind-of-governed field bound b rest g h.1,
  )

  pub governed-of-AppsFit :
      (field : Str) (b : PolicySpec J) (apps : List (App J))
      → IsGood kind b
      → AppsFit field b apps
      → All (AppGoverned kind field (some b)) apps
  governed-of-AppsFit field b [] g f = tt
  governed-of-AppsFit field b (a ∷ rest) g f = (
    record { good = Good-of-Fits b (get_policy a.db field) g f.0; within = f.0 },
    governed-of-AppsFit field b rest g f.1,
  )

  pub Governed-of-Fits :
      (field : Str) (b : PolicySpec J) (w : Workspace J)
      → IsGood kind b
      → Fits field b w
      → Governed kind field (some b) w
  Governed-of-Fits field b w g f = record {
    good = Good-of-Fits b (get_policy w.db field) g f.own;
    within = f.own;
    apps = below (get_policy w.db field) f.own f.below;
  }
    where
      below :
          (o : Option (PolicySpec J))
          → FitsOption b o
          → AppsFit field (bound_below b o) w.apps
          → All (AppGoverned kind field (bound_of_apps (some b) o)) w.apps
      below none own fit = governed-of-AppsFit field b w.apps g fit
      below (some s) own fit = governed-of-AppsFit field s w.apps (Good-of-allows b s g own) fit
