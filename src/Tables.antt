-- ===== src/Tables.antt =====
-- The view of a Drizzle table that `getTableConfig` gives to the schema and generator code:
-- a name, its columns, primary keys, foreign keys and indexes. Drizzle itself is not modelled;
-- these records are its answers, as data.
use baresync.Prelude.{ℕ, String, Bool, Option, List}

pub record Column : Type 0 where
  pub name : String
  pub column_type : String
  pub primary : Bool
  pub not_null : Bool
  pub length : Option ℕ

-- `foreignKey.reference()`: the referencing columns, and the name of each foreign column's table.
pub record ForeignKeyReference : Type 0 where
  pub columns : List Column
  pub foreign_tables : List String

-- An index column that is an SQL expression has no name (`none`).
pub record Table : Type 0 where
  pub name : String
  pub columns : List Column
  pub primary_keys : List (List Column)
  pub foreign_keys : List ForeignKeyReference
  pub indexes : List (List (Option String))
