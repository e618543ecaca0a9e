-- ===== src/Schema.antt =====
-- crates/rustbase-core/src/schema.rs, and the checks of a schema and the column types in
-- crates/rustbase-db/src/collections.rs. The bounds of a number field, `f64`, are a parameter `F`.
-- An identifier is measured in characters: the bytes that the code measures are as many where all
-- are ASCII, which the code asks for behind that.
pub mod Valid
use rustbase.Base.{
  ℕ, ◌==◌, leb, Bool, true, false, not, ◌&&◌, ◌||◌, Str, codes, str_eq, contains, Option, none,
  some, List, [], ◌∷◌, ◌++◌, map, all, length, is_ascii_digit, if◌then◌else◌,
}
use rustbase.Error.{DbError, invalid_identifier}

pub data CollectionKind : Type 0 where
  base auth view : CollectionKind

pub data FieldType (F : Type 0) : Type 0 where
  text : Option ℕ → Option ℕ → FieldType F
  number : Option F → Option F → FieldType F
  bool email url date json : FieldType F
  relation : Str → Bool → FieldType F
  file : Option ℕ → List Str → FieldType F

pub record Field (F : Type 0) : Type 0 where
  pub name : Str
  pub ty : FieldType F
  pub required : Bool
  pub unique : Bool

pub record Schema (F : Type 0) : Type 0 where
  pub id : Str
  pub kind : CollectionKind
  pub fields : List (Field F)

unfoldable pub same_kind : CollectionKind → CollectionKind → Bool
same_kind base base = true
same_kind auth auth = true
same_kind view view = true
same_kind a b = false

unfoldable pub sql_type : {F : Type 0} → FieldType F → Str
sql_type (number low high) = codes "REAL"
sql_type bool = codes "INTEGER"
sql_type (text low high) = codes "TEXT"
sql_type email = codes "TEXT"
sql_type url = codes "TEXT"
sql_type date = codes "TEXT"
sql_type json = codes "TEXT"
sql_type (relation target cascade) = codes "TEXT"
sql_type (file size types) = codes "TEXT"

unfoldable pub field_types_compatible : {F : Type 0} → FieldType F → FieldType F → Bool
unfolding sql_type
field_types_compatible a b = str_eq (sql_type a) (sql_type b)

abbrev pub is_ascii_lowercase : ℕ → Bool
is_ascii_lowercase c = leb b'a' c && leb c b'z'

abbrev pub starts_ident : Str → Bool
starts_ident [] = false
starts_ident (first ∷ rest) = is_ascii_lowercase first || first == b'_'

unfoldable pub is_valid_ident : Str → Bool
is_valid_ident s =
    ((leb 2 (length s) && leb (length s) 50) && starts_ident s)
    && all (λ c. (is_ascii_lowercase c || is_ascii_digit c) || c == b'_') s

abbrev pub reserved_field_names : List Str
reserved_field_names = codes "id" ∷ codes "created_at" ∷ codes "updated_at" ∷ []

-- The checks of one field, and the rest of the loop after it, which has seen its name.
unfoldable pub check_fields : {F : Type 0} → List Str → List (Field F) → Option DbError
unfolding is_valid_ident contains
check_fields seen [] = none
check_fields seen (f ∷ fs) =
    let rest = check_fields (f.name ∷ seen) fs in
    if not (is_valid_ident f.name)
    then some (invalid_identifier f.name)
    else if contains reserved_field_names f.name
    then some (invalid_identifier (codes "field name '" ++ (f.name ++ codes "' is reserved")))
    else if contains seen f.name
    then some (invalid_identifier (codes "duplicate field name '" ++ (f.name ++ codes "'")))
    else rest

-- The error of `validate_schema`, if it has one.
unfoldable pub validate_schema : {F : Type 0} → Schema F → Option DbError
unfolding is_valid_ident check_fields
validate_schema schema =
    if not (is_valid_ident schema.id)
    then some (invalid_identifier schema.id)
    else check_fields [] schema.fields

abbrev pub field_names : {F : Type 0} → List (Field F) → List Str
field_names = map (λ f. f.name)
