-- ===== src/Migrations.antt =====
-- backend/alembic: the schema of the database, and the operations of the migrations as PostgreSQL
-- runs them. `none` is a refused statement.
pub mod Columns
pub mod Versions
pub mod Laws
use agentdesk_ai.Base.{
  ℕ, Bool, true, false, not, ◌&&◌, ◌||◌, Option, none, some, List, [], ◌∷◌, map, String, str_eq,
  select, if◌then◌else◌,
}

pub data ColumnType : Type 0 where
  uuid text timestamp boolean integer double json : ColumnType
  string vector : ℕ → ColumnType
  enum : String → ColumnType

-- `default` is the server's default; `references` is the table of a foreign key, with what a DELETE
-- there does.
pub record Column : Type 0 where
  pub name : String
  pub type : ColumnType
  pub nullable : Bool
  pub primary_key : Bool
  pub unique : Bool
  pub default : Option String
  pub references : Option (String × String)

pub record Index : Type 0 where
  pub name : String
  pub columns : List String
  pub method : String

pub record Table : Type 0 where
  pub name : String
  pub columns : List Column
  pub unique_constraints : List (String × List String)
  pub indexes : List Index

-- The last table created stands first, and so does the last index of a table.
pub record Schema : Type 0 where
  pub has_vector : Bool
  pub types : List (String × List String)
  pub tables : List Table

abbrev pub Step : Type 0
Step = Schema → Option Schema

infixl 5 ◌>>=◌ ◌>>◌
abbrev pub ◌>>=◌ : Option Schema → Step → Option Schema
none >>= f = none
some s >>= f = f s

abbrev pub ◌>>◌ : Step → Step → Step
(f >> g) s = f s >>= g

abbrev pub any_of {ℓ} : {A : Type ℓ} → (A → Bool) → List A → Bool
any_of p [] = false
any_of p (x ∷ xs) = p x || any_of p xs

abbrev pub has_type : String → Schema → Bool
has_type name s = any_of (λ t. str_eq t.0 name) s.types

abbrev pub has_table : String → Schema → Bool
has_table name s = any_of (λ t. str_eq t.name name) s.tables

abbrev refers_to : String → Column → Bool
refers_to name c = elim c.references [ none ↦ false | some r ↦ str_eq r.0 name ]

abbrev is_enum : String → ColumnType → Bool
is_enum name (enum e) = str_eq e name
is_enum name _ = false

-- Some table other than `name` refers to it.
abbrev is_referenced : String → Schema → Bool
is_referenced name s =
    any_of (λ t. not (str_eq t.name name) && any_of (refers_to name) t.columns) s.tables

-- Some column has the enumeration for its type.
abbrev is_used : String → Schema → Bool
is_used name s = any_of (λ t. any_of (λ c. is_enum name c.type) t.columns) s.tables

-- The table that a column refers to and the type that it names are there.
abbrev is_known : Schema → Column → Bool
is_known s c =
    elim c.references [ none ↦ true | some r ↦ has_table r.0 s ]
    && elim c.type [ enum e ↦ has_type e s | vector n ↦ s.has_vector | _ ↦ true ]

-- `op.execute("CREATE EXTENSION IF NOT EXISTS vector")`
unfoldable pub create_extension : Step
create_extension s = some (record s { has_vector = true })

abbrev uses_vector : ColumnType → Bool
uses_vector (vector n) = true
uses_vector _ = false

-- `op.execute("DROP EXTENSION IF EXISTS vector")`, refused while a column uses it.
unfoldable pub drop_extension : Step
drop_extension s =
    if any_of (λ t. any_of (λ c. uses_vector c.type) t.columns) s.tables
    then none
    else some (record s { has_vector = false })

-- `ENUM(…).create(bind, checkfirst=True)`
unfoldable pub create_type : String → List String → Step
create_type name values s =
    if has_type name s then some s else some (record s { types = (name, values) ∷ s.types })

-- The type of a plain `sa.Enum`, which `op.create_table` creates with the table, unchecked.
unfoldable pub create_new_type : String → List String → Step
create_new_type name values s =
    if has_type name s then none else some (record s { types = (name, values) ∷ s.types })

-- `.drop(bind, checkfirst=True)`, and `DROP TYPE IF EXISTS`
unfoldable pub drop_type : String → Step
drop_type name s =
    if is_used name s
    then none
    else some (record s { types = select (λ t. not (str_eq t.0 name)) s.types })

-- `op.create_table`; the types of its enumerations are there, or `create_new_type` stands before it.
unfoldable pub create_table : String → List Column → List (String × List String) → Step
create_table name columns constraints s =
    if has_table name s
    then none
    else if any_of (λ c. not (is_known s c)) columns
    then none
    else some (record s {
      tables =
          record { name = name; columns = columns; unique_constraints = constraints; indexes = [] }
          ∷ s.tables;
    })

unfoldable pub drop_table : String → Step
drop_table name s =
    if not (has_table name s) || is_referenced name s
    then none
    else some (record s { tables = select (λ t. not (str_eq t.name name)) s.tables })

abbrev has_index : String → Schema → Bool
has_index name s = any_of (λ t. any_of (λ i. str_eq i.name name) t.indexes) s.tables

abbrev change_table : String → (Table → Table) → List Table → List Table
change_table name f ts = map (λ t. if str_eq t.name name then f t else t) ts

unfoldable pub create_index : String → String → List String → String → Step
create_index name table columns method s =
    if not (has_table table s) || has_index name s
    then none
    else some (record s {
      tables =
          change_table table
            (λ t. record t {
              indexes = record { name = name; columns = columns; method = method } ∷ t.indexes;
            })
            s.tables;
    })

unfoldable pub drop_index : String → String → Step
drop_index name table s =
    if not (has_index name s)
    then none
    else some (record s {
      tables =
          change_table table
            (λ t. record t { indexes = select (λ i. not (str_eq i.name name)) t.indexes }) s.tables;
    })
