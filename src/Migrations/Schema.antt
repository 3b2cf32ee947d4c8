-- ===== src/Migrations/Schema.antt =====
-- The schema of the database, and the operations of alembic that the migrations make on it, as
-- PostgreSQL does them.
use mathlib.Core.List.{◌++◌ as append}
use crypto_ledger_sandbox.Prelude.{
  ℕ, Bool, true, false, not, ◌&&◌, Option, none, some, List, [], ◌∷◌, String, str_eq, if◌then◌else◌,
  any?,
}

pub data ColumnType : Type 0 where
  uuid integer boolean text jsonb timestamp_with_time_zone : ColumnType
  varchar : ℕ → ColumnType
  numeric : ℕ → ℕ → ColumnType
  -- A type of its own, with its labels.
  enumeration : String → List String → ColumnType

pub record Column : Type 0 where
  pub name : String
  pub type_ : ColumnType
  pub server_default : Option String
  pub nullable : Bool

pub data Constraint : Type 0 where
  -- The name and the condition.
  check : String → String → Constraint
  -- The name, the column, the table whose `id` it is, and what a deletion there does.
  foreign_key : String → String → String → String → Constraint
  primary_key : String → String → Constraint
  unique : String → List String → Constraint

pub record Table : Type 0 where
  pub name : String
  pub columns : List Column
  pub constraints : List Constraint

pub record Index : Type 0 where
  pub name : String
  pub table : String
  pub column : String
  pub is_unique : Bool

pub record Schema : Type 0 where
  pub tables : List Table
  pub indexes : List Index
  pub types : List String

abbrev pub column : String → ColumnType → Column
column name type_ = record { name = name; type_ = type_; server_default = none; nullable = false }

abbrev pub nullable_column : String → ColumnType → Column
nullable_column name type_ = record {
  name = name;
  type_ = type_;
  server_default = none;
  nullable = true;
}

abbrev pub default_column : String → ColumnType → String → Column
default_column name type_ server_default = record {
  name = name;
  type_ = type_;
  server_default = some server_default;
  nullable = false;
}

-- The columns of the mixins, which end every table.
abbrev pub common_columns : List Column
common_columns =
    column "id" uuid
    ∷ default_column "created_at" timestamp_with_time_zone "now()"
    ∷ default_column "updated_at" timestamp_with_time_zone "now()"
    ∷ []

abbrev pub has_name : String → Table → Bool
has_name name t = str_eq t.name name

abbrev pub is_index : String → Index → Bool
is_index name i = str_eq i.name name

abbrev pub is_index_on : String → Index → Bool
is_index_on table i = str_eq i.table table

abbrev pub is_enumeration : String → Column → Bool
is_enumeration name c = elim c.type_ [
  | enumeration n labels ↦ str_eq n name
  | uuid ↦ false
  | integer ↦ false
  | boolean ↦ false
  | text ↦ false
  | jsonb ↦ false
  | timestamp_with_time_zone ↦ false
  | varchar n ↦ false
  | numeric p s ↦ false
]

abbrev pub uses_type : String → Table → Bool
uses_type name t = any? (is_enumeration name) t.columns

-- The types that a table brings along.
abbrev pub types_of_column : ColumnType → List String
types_of_column (enumeration name labels) = name ∷ []
types_of_column t = []

abbrev pub types_of : List Column → List String
types_of [] = []
types_of (c ∷ columns) = append (types_of_column c.type_) (types_of columns)

abbrev pub refers_by : String → Constraint → Bool
refers_by table (foreign_key name c target ondelete) = str_eq target table
refers_by table c = false

abbrev pub refers_to : String → Table → Bool
refers_to table t = any? (refers_by table) t.constraints

abbrev pub targets_exist : List Table → List Constraint → Bool
targets_exist tables [] = true
targets_exist tables (foreign_key name c target ondelete ∷ constraints) =
    any? (has_name target) tables && targets_exist tables constraints
targets_exist tables (c ∷ constraints) = targets_exist tables constraints

abbrev pub types_free : List String → List String → Bool
types_free types [] = true
types_free types (n ∷ names) = not (any? (λ m. str_eq m n) types) && types_free types names

module _ {A : Type 0} where
  -- Removes the row that passes the test: the names are unique.
  unfoldable pub removed : (A → Bool) → List A → List A
  removed p [] = []
  removed p (x ∷ xs) = if p x then xs else x ∷ removed p xs

  unfoldable pub without : (A → Bool) → List A → List A
  without p [] = []
  without p (x ∷ xs) = if p x then without p xs else x ∷ without p xs

-- The calls of `op` in the migrations; `drop_type` is the statement DROP TYPE IF EXISTS.
pub data Operation : Type 0 where
  create_table : Table → Operation
  create_index : Index → Operation
  drop_index : String → Operation
  drop_table : String → Operation
  drop_type : String → Operation

abbrev pub if_allowed : Bool → Schema → Option Schema
if_allowed true s = some s
if_allowed false s = none

-- A table is created with its types. DROP TABLE drops the table's indexes, keeps its types, and
-- is refused if another table refers to it; DROP TYPE is refused if a table uses the type.
unfoldable pub apply : Operation → Schema → Option Schema
apply (create_table t) s =
    if_allowed
      (not (any? (has_name t.name) s.tables)
        && targets_exist s.tables t.constraints
        && types_free s.types (types_of t.columns))
      (record s { tables = t ∷ s.tables; types = append (types_of t.columns) s.types })
apply (create_index i) s =
    if_allowed (not (any? (is_index i.name) s.indexes) && any? (has_name i.table) s.tables)
      (record s { indexes = i ∷ s.indexes })
apply (drop_index name) s =
    if_allowed (any? (is_index name) s.indexes)
      (record s { indexes = removed (is_index name) s.indexes })
apply (drop_table name) s =
    if_allowed
      (any? (has_name name) s.tables
        && not (any? (refers_to name) (removed (has_name name) s.tables)))
      (record s {
        tables = removed (has_name name) s.tables;
        indexes = without (is_index_on name) s.indexes;
      })
apply (drop_type name) s =
    if_allowed (not (any? (uses_type name) s.tables))
      (record s { types = removed (λ n. str_eq n name) s.types })

-- A migration runs in a transaction: it makes every change or none.
unfoldable pub migrate : List Operation → Schema → Option Schema
unfolding apply
migrate [] s = some s
migrate (o ∷ operations) s = elim (apply o s) [ none ↦ none | some s' ↦ migrate operations s' ]
