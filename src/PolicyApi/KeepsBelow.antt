-- ===== src/PolicyApi/KeepsBelow.antt =====
-- The endpoints of crates/rustbase-api/src/policies.rs that delete a workspace's policy and that
-- write and delete an app's keep the hierarchy of their field.
use rustbase.Base.{
  Str, codes, ◌≡◌, refl, sym, ◌∙◌, true, false, Option, none, some, List, [], ◌∷◌, arith, All,
}
use rustbase.Error.{ok, OnOk, OnOk-bind, ok_or, ok_or-ok, app_not_found, internal}
use rustbase.Policy.{PolicySpec, validate_chain, range, toggle, enum_set, free}
use rustbase.Policy.Refinement.{SameKind, is_toggle, allows_trans}
use rustbase.Auth.{Claims, require_workspace_access, require_app_access}
use rustbase.Tenancy.{App, Workspace, System, get_policy, find_workspace, find_app, put_app}
use rustbase.Tenancy.Rows.{All-find_workspace, All-put_workspace, All-put_app}
use rustbase.PolicyEngine.Master.{is_swept}
use rustbase.PolicyApi.{
  workspace_delete, app_put, app_delete, delete_and_log, checked, require_realm_exists,
  open_app_pool,
}
use rustbase.PolicyApi.Hierarchy.{
  IsGood, GoodOption, Within, bound_of_apps, AppGoverned, Governed, Hierarchy,
}
use rustbase.PolicyApi.Keeps.{
  get_policy-set_and_log, get_policy-delete_and_log, Within-of-valid_app, checked-ok, PutKeeps,
}

is_toggle-of-kind : {J : Type 0} (p q : PolicySpec J) → SameKind p q → is_toggle p ≡ is_toggle q
is_toggle-of-kind (range _) (range _) h = refl
is_toggle-of-kind (toggle _) (toggle _) h = refl
is_toggle-of-kind (enum_set _) (enum_set _) h = refl
is_toggle-of-kind (free _) (free _) h = refl
is_toggle-of-kind p q h = absurd h

module _ {J : Type 0} (debug : PolicySpec J → Str) (no_tables : Str) where
  pub open_app_pool-ok :
      (sys : System J) (workspace app : Str) (w : Workspace J) (a : App J)
      → open_app_pool debug no_tables sys workspace app ≡ ok (w, a)
      → find_workspace workspace sys.workspaces ≡ some w
  unfolding open_app_pool
  open_app_pool-ok sys workspace app w a e = ground arith

module _ {J : Type 0} (debug : PolicySpec J → Str) (no_tables : Str) (kind : PolicySpec J)
    (field : Str) where
  -- An app within its workspace's specification is within the master one.
  Within-trans :
      (master own o : Option (PolicySpec J))
      → is_toggle kind ≡ false
      → GoodOption kind master
      → Within master own
      → Within (bound_of_apps master own) o
      → Within master o
  Within-trans none own o t g h k = tt
  Within-trans (some b) none o t g h k = k
  Within-trans (some b) (some s) none t g h k = tt
  Within-trans (some b) (some s) (some a) t g h k =
      allows_trans b s a (sym (is_toggle-of-kind kind b g.0) ∙ t) h k

  apps-of-master :
      (master own : Option (PolicySpec J)) (apps : List (App J))
      → is_toggle kind ≡ false
      → GoodOption kind master
      → Within master own
      → All (AppGoverned kind field (bound_of_apps master own)) apps
      → All (AppGoverned kind field master) apps
  apps-of-master master own [] t g h k = tt
  apps-of-master master own (a ∷ rest) t g h k = (
    record {
      good = k.0.good;
      within = Within-trans master own (get_policy a.db field) t g h k.0.within;
    },
    apps-of-master master own rest t g h k.1,
  )

  Within-nothing : (master : Option (PolicySpec J)) → Within master none
  Within-nothing none = tt
  Within-nothing (some b) = tt

  abbrev Below : Option (PolicySpec J) → Workspace J → Type 0
  Below master w = is_swept w ≡ true → Governed kind field master w

  pub workspace_delete-keeps :
      (claims : Claims) (sys : System J) (workspace : Str)
      → is_toggle kind ≡ false
      → Hierarchy kind field sys
      → OnOk (Hierarchy kind field) (workspace_delete debug no_tables claims sys workspace field)
  unfolding workspace_delete
  workspace_delete-keeps claims sys workspace t h =
      let master = get_policy sys.db field in
      OnOk-bind (Hierarchy kind field) (require_workspace_access claims workspace) _ λ _ _.
        OnOk-bind (Hierarchy kind field) (require_realm_exists debug no_tables sys workspace) _
          λ w found.
            OnOk-bind (Hierarchy kind field)
              (delete_and_log debug no_tables claims (codes "workspace") field w.db) _
              λ db e.
                let gone =
                  get_policy-delete_and_log debug no_tables claims (codes "workspace") field w.db db
                    e in
                let was =
                  All-find_workspace (Below master) workspace sys.workspaces w h.below
                    (ok_or-ok _ _ w found) in
                record {
                  top = h.top;
                  below =
                      All-put_workspace (Below master) (record w { db = db }) sys.workspaces
                        (λ m. record {
                          good = rw gone tt;
                          within = rw gone (Within-nothing master);
                          apps = rw gone (
                              apps-of-master master (get_policy w.db field) w.apps t h.top
                                (was m).within (was m).apps);
                        })
                        h.below;
                }

  -- Writing one app's database keeps its workspace governed if the app is.
  put_app-Governed :
      (master : Option (PolicySpec J)) (w : Workspace J) (a : App J)
      → AppGoverned kind field (bound_of_apps master (get_policy w.db field)) a
      → Governed kind field master w
      → Governed kind field master (record w { apps = put_app a w.apps })
  put_app-Governed master w a h g = record {
    good = g.good;
    within = g.within;
    apps = All-put_app _ a w.apps h g.apps;
  }

  pub app_put-keeps :
      (claims : Claims) (sys : System J) (workspace app : Str) (spec : PolicySpec J)
      → IsGood kind spec
      → Hierarchy kind field sys
      → OnOk
          (PutKeeps debug no_tables kind field)
          (app_put debug no_tables claims sys workspace app field spec)
  unfolding app_put
  app_put-keeps claims sys workspace app spec g h =
      let master = get_policy sys.db field in
      let P = PutKeeps debug no_tables kind field in
      OnOk-bind P (require_app_access claims workspace app) _ λ _ _.
        OnOk-bind P (ok_or (find_workspace workspace sys.workspaces) (internal no_tables)) _
          λ w found.
            OnOk-bind P (ok_or (find_app app w.apps) (app_not_found workspace app)) _ λ a here.
              OnOk-bind P (checked debug no_tables (validate_chain field _)) _ λ u e.
                let set =
                  get_policy-set_and_log debug no_tables claims (codes "app") field spec a.db in
                record {
                  top = h.top;
                  below =
                      All-put_workspace (Below master) _ sys.workspaces
                        (λ m.
                          put_app-Governed master w _
                            (record {
                              good = rw set g;
                              within = rw set (
                                  Within-of-valid_app debug no_tables kind field master
                                    (get_policy w.db field) spec
                                    (checked-ok debug no_tables kind field _ u e));
                            })
                            (All-find_workspace (Below master) workspace sys.workspaces w h.below
                              (ok_or-ok _ _ w found) m))
                        h.below;
                }

  pub app_delete-keeps :
      (claims : Claims) (sys : System J) (workspace app : Str)
      → Hierarchy kind field sys
      → OnOk (Hierarchy kind field) (app_delete debug no_tables claims sys workspace app field)
  unfolding app_delete
  app_delete-keeps claims sys workspace app h =
      let master = get_policy sys.db field in
      OnOk-bind (Hierarchy kind field) (require_app_access claims workspace app) _ λ _ _.
        OnOk-bind (Hierarchy kind field) (open_app_pool debug no_tables sys workspace app) _
          λ (w, a) opened.
            OnOk-bind (Hierarchy kind field)
              (delete_and_log debug no_tables claims (codes "app") field a.db) _
              λ db e.
                let gone =
                  get_policy-delete_and_log debug no_tables claims (codes "app") field a.db db e in
                record {
                  top = h.top;
                  below =
                      All-put_workspace (Below master) _ sys.workspaces
                        (λ m.
                          put_app-Governed master w _
                            (record {
                              good = rw gone tt;
                              within =
                                  rw gone
                                    (Within-nothing (bound_of_apps master (get_policy w.db field)));
                            })
                            (All-find_workspace (Below master) workspace sys.workspaces w h.below
                              (open_app_pool-ok debug no_tables sys workspace app w a opened) m))
                        h.below;
                }
