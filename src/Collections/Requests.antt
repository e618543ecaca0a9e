-- ===== src/Collections/Requests.antt =====
-- What requests to crates/rustbase-api/src/collections.rs do to the databases of the apps.
use rustbase.Base.{
  ℕ, ◌≡◌, refl, sym, ap, subst, ◌∙◌, Bool, true, false, Str, str_eq, str_eq_refl, str_eq_iff,
  Option, List, [], ◌∷◌,
}
use rustbase.Error.{DbError, CoreError, Result, ok, err, bind-ok, ok-same, ok_or, require}
use rustbase.Tenancy.{find_workspace, find_app}
use rustbase.Schema.{Field, Schema}
use rustbase.Auth.{Claims, require_app_access}
use rustbase.Auth.Scope.{AdministersApp, require_app_access_iff}
use rustbase.AppData.{Site, open_app_pool, write_app}
use rustbase.Collections.{Collection, AppDb, DbResult, done, failed}
use rustbase.Collections.Patch.{SchemaDiff, patch_collection}
use rustbase.Collections.Lined.{InLine, patch_collection-InLine}
use rustbase.Collections.Api.{map_err, run, may_patch, patch_error, create, patch, delete}

pub data CollectionRequest (F : Type 0) : Type 0 where
  creates : (workspace app : Str) → Schema F → CollectionRequest F
  patches : (workspace app name : Str) → Schema F → (force : Bool) → CollectionRequest F
  deletes : (workspace app name : Str) → CollectionRequest F

module _ {J F R : Type 0} (refuses_create : Schema F → Option Str)
    (refuses_add : AppDb F R → Str → Str → Option Str)
    (refuses_drop : AppDb F R → Str → Field F → Option Str) (show : ℕ → Str) where
  -- The routes that write: each request of a principal with the time at which it is answered.
  unfoldable pub handle : Claims → ℕ → CollectionRequest F → Site J F R → Site J F R
  unfolding create patch delete
  handle auth now (creates w a schema) site = (create refuses_create auth site w a schema now).0
  handle auth now (patches w a name schema force) site =
      (patch refuses_add refuses_drop show auth site w a name schema force now).0
  handle auth now (deletes w a name) site = (delete auth site w a name).0

  unfoldable pub handle_all : List (Claims × ℕ × CollectionRequest F) → Site J F R → Site J F R
  unfolding handle
  handle_all [] site = site
  handle_all ((auth, now, r) ∷ rest) site = handle_all rest (handle auth now r site)

map_err-ok :
    {A : Type 0} (f : DbError → CoreError) (r : DbResult A) (x : A)
    → map_err f r ≡ ok x
    → r ≡ done x
map_err-ok f (done y) x h = ap done (ok-same h)
map_err-ok f (failed e) x h = absurd (cc)

module _ {J F R : Type 0} where
  allowed_patch :
      (auth : Claims) (site : Site J F R) (w a name : Str) (schema : Schema F) (db : AppDb F R)
      → may_patch auth site w a name schema ≡ ok db
      → require_app_access auth w a ≡ ok tt
  unfolding may_patch
  allowed_patch auth site w a name schema db h =
      let (u, e, rest) = bind-ok (require_app_access auth w a) _ db h in e

  run-ok :
      {A : Type 0} (f : DbError → CoreError) (site after : Site J F R) (w a : Str)
      (m : Result (AppDb F R)) (op : AppDb F R → AppDb F R × DbResult A) (x : A)
      → run f site w a m op ≡ (after, ok x)
      → (db : AppDb F R) × (m ≡ ok db)
        × (write_app site w a (op db).0 ≡ after)
        × ((op db).1 ≡ done x)
  run-ok f site after w a (err e) op x h = absurd (cc)
  run-ok f site after w a (ok db) op x h =
      (db, refl, ap (λ p. p.0) h, map_err-ok f (op db).1 x (ap (λ p. p.1) h))

  pub open_app_pool-ok :
      (site : Site J F R) (w a : Str) (db : AppDb F R)
      → open_app_pool site w a ≡ ok db
      → db ≡ site.app_db w a
  unfolding open_app_pool
  open_app_pool-ok site w a db h =
      let (row, found, h1) = bind-ok (ok_or (find_workspace w site.system.workspaces) _) _ db h in
      let (x, there, h2) = bind-ok (ok_or (find_app a row.apps) _) _ db h1 in sym (ok-same h2)

  opened_patch :
      (auth : Claims) (site : Site J F R) (w a name : Str) (schema : Schema F) (db : AppDb F R)
      → may_patch auth site w a name schema ≡ ok db
      → (schema.id ≡ name) × (db ≡ site.app_db w a)
  unfolding may_patch
  opened_patch auth site w a name schema db h =
      let (u, allowed, h1) = bind-ok (require_app_access auth w a) _ db h in
      let (v, same, h2) = bind-ok (require (str_eq schema.id name) _) _ db h1 in
      (
        (str_eq_iff schema.id name).0 (required (str_eq schema.id name) _ v same),
        open_app_pool-ok site w a db h2,
      )
    where
      required : (b : Bool) (e : CoreError) (u : Unit {0}) → require b e ≡ ok u → b ≡ true
      required true e u h = refl
      required false e u h = absurd (cc)

  written_app :
      (site : Site J F R) (w a : Str) (db : AppDb F R) → (write_app site w a db).app_db w a ≡ db
  unfolding write_app
  written_app site w a db = rw (str_eq_refl w, str_eq_refl a) refl

module _ {J F R : Type 0} (refuses_add : AppDb F R → Str → Str → Option Str)
    (refuses_drop : AppDb F R → Str → Field F → Option Str) (show : ℕ → Str) where
  -- Where the collection of the path has a table in line with its schema, a patch that succeeds was
  -- asked by an administrator of the app, its schema has the name of the path, and the table is then
  -- in line with that schema.
  pub patch-patched :
      (auth : Claims) (site after : Site J F R) (w a name : Str) (schema : Schema F) (force : Bool)
      (now : ℕ) (found : Collection F × SchemaDiff)
      → InLine (site.app_db w a) name
      → patch refuses_add refuses_drop show auth site w a name schema force now ≡ (after, ok found)
      → AdministersApp auth w a
        × (schema.id ≡ name)
        × ((line : InLine (after.app_db w a) name) × (line.collection.schema ≡ schema))
  unfolding patch
  patch-patched auth site after w a name schema force now found line h =
      let (db, guards, written, went) =
        run-ok (patch_error name) site after w a (may_patch auth site w a name schema)
          (λ db. patch_collection refuses_add refuses_drop show db schema force now) found h in
      let (same, opened) = opened_patch auth site w a name schema db guards in
      let op : AppDb F R → AppDb F R × DbResult (Collection F × SchemaDiff) =
        λ db. patch_collection refuses_add refuses_drop show db schema force now in
      let stored : (op db).0 ≡ after.app_db w a =
        sym (written_app site w a (op db).0) ∙ ap (λ (s : Site J F R). s.app_db w a) written in
      let before : InLine db schema.id =
        subst (λ d. InLine d schema.id) (sym opened)
          (subst (InLine (site.app_db w a)) (sym same) line) in
      let kept =
        patch_collection-InLine refuses_add refuses_drop show db (op db).0 schema force now found
          before (ap (λ r. ((op db).0, r)) went) in
      (
        (require_app_access_iff auth w a).0 (allowed_patch auth site w a name schema db guards),
        same,
        subst (λ n. (line : InLine (after.app_db w a) n) × (line.collection.schema ≡ schema)) same
            (subst (λ d. (line : InLine d schema.id) × (line.collection.schema ≡ schema)) stored
              kept),
      )
