-- ===== src/Collections/Api.antt =====
-- crates/rustbase-api/src/collections.rs: the endpoints for the collections of an app. Each returns
-- the new state with its result, since an operation on collections that fails can have written. The
-- clock is an argument, and what SQLite refuses and the print of a number are parameters.
use rustbase.Base.{ℕ, Bool, Str, codes, str_eq, Option, none, some, [], ◌++◌}
use rustbase.Error.{
  DbError, invalid_identifier, row_not_found, sqlx, CoreError, core_error, Result, ok, err, ◌>>=◌,
  ok_or, require, not_found, conflict, validation,
}
use rustbase.Schema.{Field, Schema}
use rustbase.Auth.{Claims, require_app_access}
use rustbase.AppData.{Site, open_app_pool, write_app}
use rustbase.Collections.{
  Collection, AppDb, DbResult, done, failed, find_collection, create_collection, delete_collection,
}
use rustbase.Collections.Patch.{SchemaDiff, patch_collection}

abbrev exists_already : Str → CoreError
exists_already id = conflict (codes "collection '" ++ (id ++ codes "' already exists"))

abbrev mismatch : Str → Str → CoreError
mismatch id name =
    validation
      (codes "schema id '" ++ (id ++ (codes "' does not match path '" ++ (name ++ codes "'"))))

-- The closures that `map_err` takes in `patch` and `delete`.
unfoldable pub patch_error : Str → DbError → CoreError
patch_error name row_not_found = not_found name []
patch_error name (invalid_identifier msg) = conflict msg
patch_error name (sqlx s) = core_error (sqlx s)

unfoldable pub delete_error : Str → DbError → CoreError
delete_error name row_not_found = not_found name []
delete_error name (invalid_identifier id) = core_error (invalid_identifier id)
delete_error name (sqlx s) = core_error (sqlx s)

abbrev pub map_err : {A : Type 0} → (DbError → CoreError) → DbResult A → Result A
map_err f (done a) = ok a
map_err f (failed e) = err (f e)

abbrev absent : {A : Type 0} → Option A → CoreError → Result (Unit {0})
absent none e = ok tt
absent (some a) e = err e

module _ {J F R : Type 0} where
  -- An operation on the app's database after the guards of the handler.
  abbrev pub run :
      {A : Type 0}
      → (DbError → CoreError)
      → Site J F R
      → Str
      → Str
      → Result (AppDb F R)
      → (AppDb F R → AppDb F R × DbResult A)
      → Site J F R × Result A
  run f site workspace app (err e) op = (site, err e)
  run f site workspace app (ok db) op =
      (write_app site workspace app (op db).0, map_err f (op db).1)

  unfoldable pub get : Claims → Site J F R → Str → Str → Str → Result (Collection F)
  unfolding require_app_access open_app_pool find_collection
  get auth site workspace app name = do
    allowed ← require_app_access auth workspace app
    db ← open_app_pool site workspace app
    ok_or (find_collection db name) (not_found name [])

  -- The guards of the handlers, up to their operation on the database.
  unfoldable pub may_create : Claims → Site J F R → Str → Str → Schema F → Result (AppDb F R)
  unfolding require_app_access open_app_pool find_collection
  may_create auth site workspace app schema = do
    allowed ← require_app_access auth workspace app
    db ← open_app_pool site workspace app
    free ← absent (find_collection db schema.id) (exists_already schema.id)
    ok db

  unfoldable pub may_patch : Claims → Site J F R → Str → Str → Str → Schema F → Result (AppDb F R)
  unfolding require_app_access open_app_pool
  may_patch auth site workspace app name schema = do
    allowed ← require_app_access auth workspace app
    same ← require (str_eq schema.id name) (mismatch schema.id name)
    open_app_pool site workspace app

  unfoldable pub may_delete : Claims → Site J F R → Str → Str → Result (AppDb F R)
  unfolding require_app_access open_app_pool
  may_delete auth site workspace app = do
    allowed ← require_app_access auth workspace app
    open_app_pool site workspace app

  unfoldable pub delete : Claims → Site J F R → Str → Str → Str → Site J F R × Result (Unit {0})
  unfolding may_delete delete_collection delete_error
  delete auth site workspace app name =
      run (delete_error name) site workspace app (may_delete auth site workspace app)
        (λ db. delete_collection db name)

module _ {J F R : Type 0} (refuses_create : Schema F → Option Str) where
  unfoldable pub create :
      Claims → Site J F R → Str → Str → Schema F → ℕ → Site J F R × Result (Collection F)
  unfolding may_create create_collection
  create auth site workspace app schema now =
      run core_error site workspace app (may_create auth site workspace app schema)
        (λ db. create_collection refuses_create db schema now)

module _ {J F R : Type 0} (refuses_add : AppDb F R → Str → Str → Option Str)
    (refuses_drop : AppDb F R → Str → Field F → Option Str) (show : ℕ → Str) where
  unfoldable pub patch :
      Claims
      → Site J F R
      → Str
      → Str
      → Str
      → Schema F
      → Bool
      → ℕ
      → Site J F R × Result (Collection F × SchemaDiff)
  unfolding may_patch patch_collection patch_error
  patch auth site workspace app name schema force now =
      run (patch_error name) site workspace app (may_patch auth site workspace app name schema)
        (λ db. patch_collection refuses_add refuses_drop show db schema force now)
