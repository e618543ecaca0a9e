-- ===== src/Examples/Writes.antt =====
-- The theorems on the writing of records at concrete inputs.
use rustbase.Base.{
  ℕ, ◌≡◌, refl, sym, ap, ◌∙◌, Bool, true, false, ◌&&◌, Str, codes, str_eq, str_eq_iff, lookup,
  upsert, contains, trim, Option, none, some, List, [], ◌∷◌, ◌++◌, all, arith,
}
use rustbase.Error.{Result, ok, not_found}
use rustbase.Auth.{Claims, user}
use rustbase.Filter.{Value, string, FilterNode, and, eq, like}
use rustbase.FilterSql.{SqlFragment, filter_to_sql}
use rustbase.FilterSql.Bindings.{values_of, filter_to_sql-values_of}
use rustbase.Schema.{Schema}
use rustbase.Collections.{AppDb, RuleRow}
use rustbase.AccessRules.{AccessAction, classify_rule}
use rustbase.Records.Passing.{SelectsBoth}
use rustbase.Records.Stored.{
  Codecs, stored_fields, patched_fields, find_record, update_record, create_record,
}
use rustbase.Records.Writes.{
  SubscriptionKey, RealtimeEvent, record_created, record_updated, Live, hook_request, Fields, Hooks,
  subscription_key, create, update,
}
use rustbase.Records.Found.{found}
use rustbase.Records.Permitted.{Open, Permitted, SelectsId}
use rustbase.Records.Written.{Left, create-Left, update-Left}
use rustbase.Records.Requests.{
  RecordRequest, creates, updates, deletes, handle, handle_all, handle_all-announced,
}
use rustbase.Records.Failed.{Silent, Same, handle-failed}
use rustbase.Examples.{acme, shop, token, ada, bob}
use rustbase.Examples.Stores.{Note, stored, notes, note}
use rustbase.Examples.Endpoints.{site}

abbrev NoteFields : Type 0
NoteFields = Fields ℕ (Unit {0})

-- Users create and delete freely, and update what the filter of a template lets them.
abbrev open_rules : List RuleRow
open_rules =
    record { collection_id = notes; action = codes "create"; filter = some [] }
    ∷ record { collection_id = notes; action = codes "update"; filter = some (codes "title = 'b'") }
    ∷ record { collection_id = notes; action = codes "delete"; filter = some (codes "true") }
    ∷ []

abbrev ruled_db : AppDb ℕ Note
ruled_db = record stored { rules = open_rules }

abbrev live : Live ℕ (Unit {0}) ℕ ℕ
live = record { site = record site { app_db = λ w a. ruled_db }; published = [] }

-- Functions in the place of the parser, of SQLite, of its codecs and of the hooks.
abbrev parsed : Str → Result (FilterNode ℕ (Unit {0}))
parsed s = ok (eq (codes "title") (string (codes "b")))

abbrev no_json : Str → Option Str
no_json s = none

abbrev is_text : Str → Value ℕ (Unit {0}) → Bool
is_text s (string t) = str_eq t s
is_text s v = false

abbrev all_its : SqlFragment ℕ (Unit {0}) → Note → Bool
all_its f row = all (is_text row.id) f.bindings

abbrev as_stored : List Note → List Note
as_stored rows = rows

all-split :
    (p : Value ℕ (Unit {0}) → Bool) (xs ys : List (Value ℕ (Unit {0})))
    → all p (xs ++ ys) ≡ true
    → (all p xs ≡ true) × (all p ys ≡ true)
all-split p [] ys h = (refl, h)
all-split p (x ∷ xs) ys h = ground (arith, all-split p xs ys)

both_its : SelectsBoth all_its as_stored
unfolding values_of
both_its l r f a b row e u v h =
    let values = filter_to_sql-values_of (and l r) f e in
    let p = all (is_text row.id) in
    let (x, y) = all-split (is_text row.id) (values_of l) (values_of r) (sym (ap p values) ∙ h) in
    (ap p (filter_to_sql-values_of l a u) ∙ x, ap p (filter_to_sql-values_of r b v) ∙ y)

its_id : SelectsId all_its
unfolding values_of
its_id id f row e h =
    let values = filter_to_sql-values_of (eq (codes "id") (string id)) f e in
    let its : (str_eq id row.id && true) ≡ true = sym (ap (all (is_text row.id)) values) ∙ h in
    let same : str_eq id row.id ≡ true = ground arith in sym ((str_eq_iff id row.id).0 same)

abbrev taken : Option Note → Option Str
taken none = none
taken (some r) = some (codes "UNIQUE constraint failed")

abbrev refuses_row : AppDb ℕ Note → Str → Note → Option Str
refuses_row db name row = taken (found db name row.id)

refuses_row_unique :
    (db : AppDb ℕ Note) (name : Str) (row : Note)
    → refuses_row db name row ≡ none
    → found db name row.id ≡ none
refuses_row_unique db name row h = untaken (found db name row.id) h
  where
    untaken : (o : Option Note) → taken o ≡ none → o ≡ none
    untaken none h = refl
    untaken (some r) h = absurd (cc)

abbrev refuses_none : AppDb ℕ Note → Str → NoteFields → Option Str
refuses_none db name patch = none

abbrev codecs : Codecs ℕ (Unit {0})
codecs = record { through_real = λ n. some n; through_json = λ v. v; to_string = λ v. [] }

abbrev hooks : Hooks ℕ (Unit {0}) ℕ
hooks = record {
  before_create = λ q db fields. (db, ok fields);
  before_update = λ q db r fields. (db, ok fields);
  before_delete = λ q db r. (db, ok tt);
  after_create = λ q db r. db;
  after_update = λ q db r. db;
  after_delete = λ q db id. db;
}

abbrev ada_token : Claims
ada_token = token user (some acme) none

abbrev retitled : NoteFields
retitled = (codes "title", string bob) ∷ (codes "unknown", string ada) ∷ []

abbrev after_update : Live ℕ (Unit {0}) ℕ ℕ
after_update =
    (update no_json parsed all_its as_stored hooks codecs refuses_none ada_token live acme shop
      notes (codes "b") retitled 9).0

abbrev retitled_b : Note
retitled_b = record (note (codes "b") 2) {
  fields = (codes "title", string bob) ∷ [];
  updated_at = 9;
}

update-Left_example :
    (db : AppDb ℕ Note) × (schema : Schema ℕ) × (existing : Note) × Permitted no_json parsed all_its
      as_stored ada_token live.site acme shop notes
      (codes "b")
      AccessAction.update
      db
      schema
      existing
    × (db1 : AppDb ℕ Note) × (patch : NoteFields) × (hooks.before_update
          (hook_request ada_token acme shop notes)
          db
          existing
          retitled
        ≡ (db1, ok patch))
    × (old : Note) × (found db1 schema.id (codes "b") ≡ some old)
    × (retitled_b ≡ record old {
      fields = patched_fields codecs schema.fields patch old.fields;
      updated_at = 9;
    })
    × Left live after_update
        (subscription_key acme shop notes)
        schema
        (codes "b")
        (some retitled_b)
        (record_updated retitled_b)
        (λ x. hooks.after_update (hook_request ada_token acme shop notes) x retitled_b)
        db1
unfolding update lookup upsert str_eq contains update_record
update-Left_example =
    update-Left no_json parsed all_its as_stored hooks codecs refuses_none ada_token live
      after_update acme shop notes (codes "b") retitled 9 retitled_b (λ p rows h. h) both_its its_id
      refl refl

abbrev after_create : Live ℕ (Unit {0}) ℕ ℕ
after_create =
    (create no_json parsed hooks codecs refuses_row ada_token live acme shop notes retitled
      (codes "c") 9).0

abbrev new_note : Note
new_note = record (note (codes "c") 9) { fields = retitled }

create-Left_example :
    (db : AppDb ℕ Note) × (schema : Schema ℕ) × Open no_json parsed ada_token live.site acme shop
      notes db schema
    × (db1 : AppDb ℕ Note) × (given : NoteFields) × (hooks.before_create
          (hook_request ada_token acme shop notes)
          db
          retitled
        ≡ (db1, ok given))
    × (new_note.id ≡ codes "c")
    × (new_note.fields ≡ given)
    × Left live after_create
        (subscription_key acme shop notes)
        schema
        (codes "c")
        (some (record new_note { fields = stored_fields codecs schema.fields given }))
        (record_created new_note)
        (λ x. hooks.after_create (hook_request ada_token acme shop notes) x new_note)
        db1
unfolding create lookup upsert str_eq contains create_record find_record trim classify_rule
create-Left_example =
    create-Left no_json parsed hooks codecs refuses_row ada_token live after_create acme shop notes
      retitled (codes "c") 9 new_note refuses_row_unique refl refl

abbrev requests : List (Claims × ℕ × RecordRequest ℕ (Unit {0}))
requests =
    (ada_token, 9, creates acme shop notes retitled (codes "c"))
    ∷ (ada_token, 10, updates acme shop notes (codes "a") retitled)
    ∷ (ada_token, 11, deletes acme shop notes (codes "b"))
    ∷ []

abbrev events_of_three : Live ℕ (Unit {0}) ℕ ℕ × List (SubscriptionKey × RealtimeEvent ℕ (Unit {0}))
events_of_three =
    handle_all no_json parsed all_its as_stored hooks codecs refuses_row refuses_none requests live

handle_all-announced_example : events_of_three.0.published ≡ live.published ++ events_of_three.1
handle_all-announced_example =
    handle_all-announced no_json parsed all_its as_stored hooks codecs refuses_row refuses_none
      requests live

hooks-Silent : Silent hooks
hooks-Silent = record {
  creating = λ q db fields. refl;
  updating = λ q db r fields. refl;
  deleting = λ q db r. refl;
}

-- The note a does not pass the filter of the rule.
handle-failed_example : Same live live
unfolding handle update lookup upsert str_eq contains
handle-failed_example =
    handle-failed no_json parsed all_its as_stored hooks codecs refuses_row refuses_none ada_token 9
      (updates acme shop notes (codes "a") retitled) live live (not_found notes (codes "a"))
      hooks-Silent refl

-- A filter of two values.
abbrev titled_in : FilterNode ℕ (Unit {0})
titled_in = and (eq (codes "id") (string ada)) (like (codes "title") bob)

abbrev titled_sql : SqlFragment ℕ (Unit {0})
titled_sql = record {
  sql = codes "((\"id\" = ?) AND (\"title\" LIKE ?))";
  bindings = string ada ∷ string (codes "%bob%") ∷ [];
}

filter_to_sql-values_of_example : titled_sql.bindings ≡ values_of titled_in
unfolding filter_to_sql
filter_to_sql-values_of_example = filter_to_sql-values_of titled_in titled_sql refl
