-- ===== src/PolicyApi/Requests.antt =====
-- Any sequence of writing requests to crates/rustbase-api/src/policies.rs about one field, by
-- whatever principals, keeps the field's hierarchy.
use rustbase.Base.{Str, ◌≡◌, false, List, [], ◌∷◌, All}
use rustbase.Error.{Result, ok, err, ◌>>=◌, OnOk}
use rustbase.Policy.{PolicySpec}
use rustbase.Policy.Refinement.{is_toggle}
use rustbase.Auth.{Claims}
use rustbase.Tenancy.{System}
use rustbase.PolicyApi.{
  Put, system_put, system_delete, workspace_put, workspace_delete, app_put, app_delete,
}
use rustbase.PolicyApi.Hierarchy.{IsGood, Hierarchy}
use rustbase.PolicyApi.Keeps.{PutKeeps, system_put-keeps, system_delete-keeps, workspace_put-keeps}
use rustbase.PolicyApi.KeepsBelow.{workspace_delete-keeps, app_put-keeps, app_delete-keeps}

pub data Request (J : Type 0) : Type 0 where
  puts_system : PolicySpec J → Request J
  deletes_system : Request J
  puts_workspace : Str → PolicySpec J → Request J
  deletes_workspace : Str → Request J
  puts_app : Str → Str → PolicySpec J → Request J
  deletes_app : Str → Str → Request J

module _ {J : Type 0} (debug : PolicySpec J → Str) (no_tables : Str) (field : Str) where
  abbrev pub new_state : Put J → Result (System J)
  new_state m = m >>= λ r. ok r.0

  -- The routes of the policy endpoints.
  unfoldable pub perform : Claims → Request J → System J → Result (System J)
  perform claims (puts_system spec) sys =
      new_state (system_put debug no_tables claims sys field spec)
  perform claims deletes_system sys = system_delete debug no_tables claims sys field
  perform claims (puts_workspace w spec) sys =
      new_state (workspace_put debug no_tables claims sys w field spec)
  perform claims (deletes_workspace w) sys = workspace_delete debug no_tables claims sys w field
  perform claims (puts_app w a spec) sys =
      new_state (app_put debug no_tables claims sys w a field spec)
  perform claims (deletes_app w a) sys = app_delete debug no_tables claims sys w a field

  abbrev after : System J → Result (System J) → System J
  after sys (ok sys') = sys'
  after sys (err e) = sys

  unfoldable pub serve : List (Claims × Request J) → System J → System J
  unfolding perform
  serve [] sys = sys
  serve ((claims, r) ∷ rest) sys = serve rest (after sys (perform claims r sys))

module _ {J : Type 0} (kind : PolicySpec J) where
  -- What the request stores is well formed and of the field's kind.
  abbrev pub IsAdmissible : Request J → Type 0
  IsAdmissible (puts_system spec) = IsGood kind spec
  IsAdmissible (puts_workspace w spec) = IsGood kind spec
  IsAdmissible (puts_app w a spec) = IsGood kind spec
  IsAdmissible _ = Unit

module _ {J : Type 0} (debug : PolicySpec J → Str) (no_tables : Str) (kind : PolicySpec J)
    (field : Str) where
  new_state-keeps :
      (m : Put J)
      → OnOk (PutKeeps debug no_tables kind field) m
      → OnOk (Hierarchy kind field) (new_state debug no_tables field m)
  new_state-keeps (ok r) h = h
  new_state-keeps (err e) h = tt

  perform-keeps :
      (claims : Claims) (r : Request J) (sys : System J)
      → is_toggle kind ≡ false
      → IsAdmissible kind r
      → Hierarchy kind field sys
      → OnOk (Hierarchy kind field) (perform debug no_tables field claims r sys)
  unfolding perform
  perform-keeps claims (puts_system spec) sys t g h =
      new_state-keeps _ (system_put-keeps debug no_tables kind field claims sys spec g h)
  perform-keeps claims deletes_system sys t g h =
      system_delete-keeps debug no_tables kind field claims sys h
  perform-keeps claims (puts_workspace w spec) sys t g h =
      new_state-keeps _ (workspace_put-keeps debug no_tables kind field claims sys w spec g h)
  perform-keeps claims (deletes_workspace w) sys t g h =
      workspace_delete-keeps debug no_tables kind field claims sys w t h
  perform-keeps claims (puts_app w a spec) sys t g h =
      new_state-keeps _ (app_put-keeps debug no_tables kind field claims sys w a spec g h)
  perform-keeps claims (deletes_app w a) sys t g h =
      app_delete-keeps debug no_tables kind field claims sys w a h

  after-keeps :
      (sys : System J) (m : Result (System J))
      → Hierarchy kind field sys
      → OnOk (Hierarchy kind field) m
      → Hierarchy kind field (after debug no_tables field sys m)
  after-keeps sys (ok sys') h k = k
  after-keeps sys (err e) h k = h

  -- From a state in which the stored policies of a field are in the hierarchy, every sequence of
  -- requests about the field leaves them in the hierarchy, if what the requests store is well formed
  -- and of the field's kind, and the field is no toggle. The hierarchy says nothing of the master
  -- workspace and its apps.
  pub serve-Hierarchy :
      (requests : List (Claims × Request J)) (sys : System J)
      → is_toggle kind ≡ false
      → All (λ (r : Claims × Request J). IsAdmissible kind r.1) requests
      → Hierarchy kind field sys
      → Hierarchy kind field (serve debug no_tables field requests sys)
  unfolding serve
  serve-Hierarchy [] sys t g h = h
  serve-Hierarchy ((claims, r) ∷ rest) sys t g h = serve-Hierarchy rest _ t g.1 (
      after-keeps sys (perform debug no_tables field claims r sys) h
        (perform-keeps claims r sys t g.0 h))
