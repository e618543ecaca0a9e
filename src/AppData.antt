-- ===== src/AppData.antt =====
-- The databases of the apps beside those of the scopes: what the handlers of
-- crates/rustbase-api/src/access_rules.rs, collections.rs and records.rs open. The pool of an app is
-- its database, which exists as soon as it is asked for.
use rustbase.Base.{Str, str_eq, ◌&&◌, [], if◌then◌else◌}
use rustbase.Error.{Result, ok, ◌>>=◌, ok_or, workspace_not_found, app_not_found, not_found}
use rustbase.Tenancy.{System, find_workspace, find_app}
use rustbase.Collections.{Collection, AppDb, find_collection}

pub record Site (J F R : Type 0) : Type 0 where
  pub system : System J
  pub app_db : Str → Str → AppDb F R

module _ {J F R : Type 0} where
  unfoldable pub open_app_pool : Site J F R → Str → Str → Result (AppDb F R)
  unfolding find_workspace find_app
  open_app_pool site workspace app = do
    w ← ok_or (find_workspace workspace site.system.workspaces) (workspace_not_found workspace)
    a ← ok_or (find_app app w.apps) (app_not_found workspace app)
    ok (site.app_db workspace app)

  -- `open_app_and_check` and `open_app_and_schema`: the database and the collection.
  unfoldable pub open_app_and_schema :
      Site J F R → Str → Str → Str → Result (AppDb F R × Collection F)
  unfolding open_app_pool find_collection
  open_app_and_schema site workspace app coll = do
    db ← open_app_pool site workspace app
    collection ← ok_or (find_collection db coll) (not_found coll [])
    ok (db, collection)

  -- The database of an app is written.
  unfoldable pub write_app : Site J F R → Str → Str → AppDb F R → Site J F R
  write_app site workspace app db = record site {
    app_db = λ w a. if str_eq w workspace && str_eq a app then db else site.app_db w a;
  }
