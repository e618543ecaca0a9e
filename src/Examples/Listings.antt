-- ===== src/Examples/Listings.antt =====
-- The theorems on lists of records at concrete inputs.
use rustbase.Base.{
  ℕ, max, leb, ◌≤◌, ◌≡◌, ◌⊎◌, refl, Bool, Str, codes, str_eq, lookup, contains, Option, none, some,
  List, [], ◌∷◌, length,
}
use rustbase.Error.{Result, ok}
use rustbase.Auth.{user, user_workspace}
use rustbase.Filter.{string, FilterNode, eq}
use rustbase.FilterSql.{SqlFragment}
use rustbase.Collections.{Collection, AppDb}
use rustbase.AppData.{open_app_and_schema}
use rustbase.AccessRules.{AccessAction, get_rule, classify_rule}
use rustbase.Records.{
  ListPage, ListedRecords, ListResponse, div_ceil, apply_rule, list_records, list,
}
use rustbase.Records.Rules.{list-Passes}
use rustbase.Records.Passing.{Ruled}
use rustbase.Records.Pages.{list_records-bounds}
use rustbase.Examples.{acme, shop, token, ada}
use rustbase.Examples.Stores.{Note, stored, notes, titled, note}
use rustbase.Examples.Endpoints.{site}

-- Functions in the place of SQLite and of the parser of filters.
abbrev parsed : Str → Result (FilterNode ℕ (Unit {0}))
parsed s = ok (eq (codes "title") (string ada))

abbrev from_second : SqlFragment ℕ (Unit {0}) → Note → Bool
from_second f row = leb 2 row.created_at

abbrev as_stored : List Note → List Note
as_stored rows = rows

abbrev page_of : ℕ → ℕ → ListPage
page_of page per_page = record { page = page; per_page = per_page }

abbrev one_note : ListedRecords ℕ (Unit {0})
one_note = record { items = note (codes "b") 2 ∷ []; page = 1; per_page = 1; total_items = 2 }

list_records-bounds_example :
    (1 ≤ one_note.per_page)
    × (one_note.per_page ≤ 200)
    × (length one_note.items ≤ one_note.per_page)
    × ((one_note.page ≤ div_ceil one_note.total_items (max one_note.per_page 1))
        ⊎ (one_note.items ≡ []))
unfolding list_records lookup str_eq
list_records-bounds_example =
    list_records-bounds from_second as_stored stored titled (page_of 0 0) none one_note
      (λ rows. refl) refl

abbrev no_json : Str → Option Str
no_json s = none

abbrev listed : ListResponse ℕ (Unit {0})
listed = record {
  items = note (codes "b") 2 ∷ [];
  page = 1;
  per_page = 30;
  total_items = 1;
  total_pages = 1;
}

list-Passes_example :
    (db : AppDb ℕ Note) × (c : Collection ℕ) × (open_app_and_schema site acme shop notes
      ≡ ok (db, c))
    × (user_workspace (token user (some acme) none) ≡ some acme)
    × (rule : Option (FilterNode ℕ (Unit {0}))) × (apply_rule no_json parsed
          (token user (some acme) none)
          c.schema
          (classify_rule (get_rule db.rules notes AccessAction.list))
        ≡ ok rule)
    × Ruled from_second as_stored rule listed.items
unfolding list lookup str_eq contains
list-Passes_example =
    list-Passes no_json parsed from_second as_stored (token user (some acme) none) site acme shop
      notes (page_of 1 30) (some (codes "  ")) listed (λ p rows h. h)
      (λ l r f a b row e u v h. (h, h)) refl refl
