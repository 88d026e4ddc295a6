-- ===== src/Diagnostics/Keys.antt =====
-- packages/baresync/src/generator/diagnostics.ts: what a key that passes the checks is.
use baresync.Prelude.{
  ◌≤◌, String, List, [], ◌∷◌, ◌++◌, ◌≡◌, eq_iff, arith, length, All, lt→ltb, suc, refl,
}
use baresync.Tables.{Column}
use baresync.Contract.{SyncedTableDefinition, pk_from_composite}
use baresync.Diagnostics.{
  SyncDiagnostic, or_next, pk_from_columns, missing_key, key_column, unsupported_key,
  check_missing_primary_key, check_unsupported_primary_key,
}

abbrev pub IsTextId : Column → Type 0
IsTextId column = (column.column_type ≡ "SQLiteText") × (column.name ≡ "id")

key_column-IsTextId :
    (table_name : String) (pk : Column) → key_column table_name pk ≡ [] → IsTextId pk
key_column-IsTextId table_name pk h =
    (ground (arith, eq_iff pk.column_type "SQLiteText"), ground (arith, eq_iff pk.name "id"))

or_next-none :
    (first second : List SyncDiagnostic) → or_next first second ≡ [] → (first ≡ []) × (second ≡ [])
or_next-none [] second h = (refl, h)
or_next-none (d ∷ ds) second h = cc

passing_keys :
    (table_name : String) (columns composite : List Column)
    → missing_key table_name columns composite ≡ []
    → unsupported_key table_name columns composite ≡ []
    → length columns ≤ 1
    → (1 ≤ length (columns ++ composite)) × All IsTextId (columns ++ composite)
passing_keys table_name [] [] present supported few = cc
passing_keys table_name [] (k ∷ []) present supported few =
    (omega arith, (key_column-IsTextId table_name k supported, tt))
passing_keys table_name [] (k ∷ l ∷ composite) present supported few =
    cc (rw (lt→ltb 1 (suc (suc (length composite))) (omega arith)) at supported)
passing_keys table_name (c ∷ []) [] present supported few =
    let (first, _) = or_next-none (key_column table_name c) [] supported in
    (omega arith, (key_column-IsTextId table_name c first, tt))
passing_keys table_name (c ∷ []) (k ∷ []) present supported few =
    let (first, second) =
      or_next-none (key_column table_name c) (key_column table_name k) supported in
    (
      omega arith,
      (key_column-IsTextId table_name c first, (key_column-IsTextId table_name k second, tt)),
    )
passing_keys table_name (c ∷ []) (k ∷ l ∷ composite) present supported few =
    cc (rw (lt→ltb 1 (suc (suc (length composite))) (omega arith)) at supported)
passing_keys table_name (c ∷ d ∷ columns) composite present supported few = absurd (omega arith)

-- Where neither check of the primary key has a diagnostic for a table that marks at most one column
-- as its primary key, the table has a key, and every column that is marked or that a composite key
-- names is a text column with the name `id`.
pub primary_key-passes :
    (def : SyncedTableDefinition) (table_name : String)
    → check_missing_primary_key def table_name ≡ []
    → check_unsupported_primary_key def table_name ≡ []
    → length (pk_from_columns def.table) ≤ 1
    → (1 ≤ length (pk_from_columns def.table ++ pk_from_composite def.table))
      × All IsTextId (pk_from_columns def.table ++ pk_from_composite def.table)
unfolding check_missing_primary_key check_unsupported_primary_key
primary_key-passes def table_name present supported few =
    passing_keys table_name (pk_from_columns def.table) (pk_from_composite def.table) present
      supported few
