-- ===== src/Examples/Stores.antt =====
-- The theorems on schemas and collections at concrete inputs.
use rustbase.Base.{
  ℕ, ◌≡◌, ◌≢◌, refl, Bool, true, false, Str, codes, str_eq, str_eq_iff, lookup, contains, Option,
  none, some, List, [], ◌∷◌, any, if◌then◌else◌, ◌||◌, ◌++◌, str_eq_refl, arith,
}
use rustbase.Filter.{string}
use rustbase.Schema.{base, FieldType, text, bool, Field, Schema, validate_schema}
use rustbase.Collections.{
  Collection, Table, AppDb, DbResult, done, columns_sql, find_collection, reserved_collection_ids,
  create_collection, delete_collection,
}
use rustbase.Collections.Patch.{SchemaDiff, without, patch_collection}
use rustbase.Collections.Lined.{InLine, patch_collection-InLine, patch_collection-unique}
use rustbase.Collections.Drops.{
  fails, delete_collection-reserved, delete_collection-InLine, create_collection-InLine,
}
use rustbase.Records.{Record}
use rustbase.Examples.{ada}

pub not_same : (a b : Str) → str_eq a b ≡ false → a ≢ b
not_same a b h e = ground (arith, str_eq_iff a b)

abbrev column : Str → FieldType ℕ → Bool → Field ℕ
column name ty unique = record { name = name; ty = ty; required = false; unique = unique }

abbrev pub notes : Str
notes = codes "notes"

abbrev with_fields : List (Field ℕ) → Schema ℕ
with_fields fields = record { id = notes; kind = base; fields = fields }

abbrev pub titled : Schema ℕ
titled = with_fields (column (codes "title") (text none none) false ∷ [])

abbrev pub ticked : Schema ℕ
ticked =
    with_fields
      (column (codes "title") (text none none) false ∷ column (codes "ticked") bool false ∷ [])

abbrev slugged : Schema ℕ
slugged = with_fields (
    column (codes "title") (text none none) false
    ∷ column (codes "slug") (text none none) true
    ∷ [])

abbrev pub Note : Type 0
Note = Record ℕ (Unit {0})

abbrev pub note : Str → ℕ → Note
note id at = record {
  id = id;
  collection = notes;
  fields = (codes "title", string ada) ∷ [];
  created_at = at;
  updated_at = at;
}

abbrev bare : Table Note
bare = record { columns = []; rows = [] }

abbrev fresh : AppDb ℕ Note
fresh = record {
  tables = (codes "_collections", bare) ∷ (codes "users", bare) ∷ [];
  collections = [];
  rules =
      record {
        collection_id = notes;
        action = codes "list";
        filter = some (codes "title = {{request.auth.id}}");
      }
      ∷ [];
}

abbrev as_collection : Schema ℕ → ℕ → ℕ → Collection ℕ
as_collection schema created updated = record {
  id = notes;
  kind = base;
  schema = schema;
  created_at = created;
  updated_at = updated;
}

-- The database with a collection of two notes.
abbrev pub stored : AppDb ℕ Note
stored = record {
  tables =
      (
        notes,
        record {
          columns = columns_sql titled;
          rows = note (codes "b") 2 ∷ note (codes "a") 1 ∷ [];
        },
      )
      ∷ fresh.tables;
  collections = (notes, as_collection titled 5 5) ∷ [];
  rules = fresh.rules;
}

pub stored-InLine : InLine stored notes
unfolding find_collection lookup str_eq validate_schema
stored-InLine = record {
  collection = as_collection titled 5 5;
  row = refl;
  valid = refl;
  table = record {
    columns = columns_sql titled;
    rows = note (codes "b") 2 ∷ note (codes "a") 1 ∷ [];
  };
  found = refl;
  lined = λ n. refl;
}

-- Whether a text ends in another.
abbrev pub ends_in : Str → Str → Bool
ends_in w [] = str_eq [] w
ends_in w (c ∷ s) = str_eq (c ∷ s) w || ends_in w s

-- Nothing is refused but a column whose text ends in UNIQUE.
abbrev pub refuses_unique : AppDb ℕ Note → Str → Str → Option Str
refuses_unique db t col =
    if ends_in (codes " UNIQUE") col then some (codes "Cannot add a UNIQUE column") else none

abbrev pub refuses_nothing : AppDb ℕ Note → Str → Field ℕ → Option Str
refuses_nothing db t f = none

abbrev pub digits : ℕ → Str
digits n = n ∷ []

abbrev patched : AppDb ℕ Note × DbResult (Collection ℕ × SchemaDiff)
patched = patch_collection refuses_unique refuses_nothing digits stored ticked false 9

abbrev pub patch_answer : Collection ℕ × SchemaDiff
patch_answer = (as_collection ticked 5 9, record { added = codes "ticked" ∷ []; dropped = [] })

went_through : patched ≡ (patched.0, done patch_answer)
unfolding patch_collection lookup str_eq contains
went_through = refl

patch_collection-InLine_example :
    (line : InLine patched.0 notes) × (line.collection.schema ≡ ticked)
patch_collection-InLine_example =
    patch_collection-InLine refuses_unique refuses_nothing digits stored patched.0 ticked false 9
      patch_answer stored-InLine went_through

ends_in-append : (w s : Str) → ends_in w (s ++ w) ≡ true
ends_in-append [] [] = str_eq_refl []
ends_in-append (c ∷ w) [] = ground (arith, str_eq_refl (c ∷ w))
ends_in-append w (c ∷ s) = ground (arith, ends_in-append w s)

unique_refused :
    (db : AppDb ℕ Note) (t s : Str)
    → (e : Str) × (refuses_unique db t (s ++ codes " UNIQUE") ≡ some e)
unique_refused db t s =
    (codes "Cannot add a UNIQUE column", rw (ends_in-append (codes " UNIQUE") s) refl)

patch_collection-unique_example :
    patch_collection refuses_unique refuses_nothing digits stored slugged true 9
    ≢ (stored, done patch_answer)
patch_collection-unique_example =
    patch_collection-unique refuses_unique refuses_nothing digits unique_refused stored stored
      slugged true 9 (as_collection titled 5 5) patch_answer found adds_unique
  where
    found : find_collection stored notes ≡ some (as_collection titled 5 5)
    found = unfold find_collection lookup str_eq in refl

    adds_unique : any (λ f. f.unique) (without slugged.fields titled.fields) ≡ true
    adds_unique = unfold without contains str_eq in refl

delete_collection-reserved_example :
    (lookup (codes "users") (delete_collection stored (codes "users")).0.tables ≡ none)
    × (fails (delete_collection stored (codes "users")).1 ≡ true)
unfolding contains lookup str_eq
delete_collection-reserved_example = delete_collection-reserved stored (codes "users") refl refl

delete_collection-InLine_example : InLine (delete_collection stored (codes "tasks")).0 notes
unfolding str_eq
delete_collection-InLine_example =
    delete_collection-InLine stored (codes "tasks") notes
      (not_same (codes "tasks") (codes "_collections") refl) (not_same (codes "tasks") notes refl)
      stored-InLine

abbrev created : AppDb ℕ Note × DbResult (Collection ℕ)
created = create_collection (λ s. none) fresh titled 5

create_collection-InLine_example :
    (InLine created.0 notes)
    × (contains reserved_collection_ids notes ≡ false)
    × (lookup notes fresh.tables ≡ none)
    × (lookup (codes "users") created.0.tables ≡ lookup (codes "users") fresh.tables)
    × (find_collection created.0 (codes "users") ≡ find_collection fresh (codes "users"))
unfolding create_collection lookup str_eq contains
create_collection-InLine_example =
    create_collection-InLine (λ s. none) fresh created.0 titled 5 (as_collection titled 5 5)
      (codes "users") (not_same notes (codes "users") refl) refl
