-- ===== src/Examples/Endpoints.antt =====
-- The theorems on the endpoints of collections at concrete inputs.
use rustbase.Base.{ℕ, ◌≡◌, refl, false, str_eq, lookup, contains, none, some, List, [], ◌∷◌}
use rustbase.Error.{Result}
use rustbase.Auth.{Claims, app_admin, user}
use rustbase.Auth.Scope.{AdministersApp}
use rustbase.Collections.Api.{patch}
use rustbase.Collections.Requests.{CollectionRequest, patches, deletes, patch-patched}
use rustbase.Tenancy.{App}
use rustbase.Collections.{Collection}
use rustbase.Collections.Patch.{SchemaDiff}
use rustbase.Collections.Lined.{InLine}
use rustbase.AppData.{Site}
use rustbase.Examples.{acme, shop, token}
use rustbase.Examples.Stores.{
  Note, stored, notes, ticked, digits, refuses_unique, refuses_nothing, patch_answer, stored-InLine,
}

abbrev shop_app : App ℕ
shop_app = record { id = shop; db = record { policies = []; audit_log = [] } }

abbrev pub site : Site ℕ ℕ Note
site = record {
  system = record {
    workspaces =
        record { id = acme; apps = shop_app ∷ []; db = record { policies = []; audit_log = [] } }
        ∷ [];
    db = record { policies = []; audit_log = [] };
  };
  app_db = λ w a. stored;
}

-- An administrator of the app shop adds a column there.
abbrev patches_shop : Site ℕ ℕ Note × Result (Collection ℕ × SchemaDiff)
patches_shop =
    patch refuses_unique refuses_nothing digits (token app_admin (some acme) (some shop)) site acme
      shop notes ticked false 9

patch-patched_example :
    AdministersApp (token app_admin (some acme) (some shop)) acme shop
    × (ticked.id ≡ notes)
    × ((line : InLine (patches_shop.0.app_db acme shop) notes) × (line.collection.schema ≡ ticked))
unfolding patch lookup str_eq contains
patch-patched_example =
    patch-patched refuses_unique refuses_nothing digits (token app_admin (some acme) (some shop))
      site patches_shop.0 acme shop notes ticked false 9 patch_answer stored-InLine refl

abbrev requests : List (Claims × ℕ × CollectionRequest ℕ)
requests =
    (token app_admin (some acme) (some shop), 9, patches acme shop notes ticked false)
    ∷ (token user (some acme) none, 10, deletes acme shop notes)
    ∷ []
