-- ===== src/Generator/Columns.antt =====
-- packages/baresync/src/generator/config.ts: which columns of a pair of tables are accepted.
use baresync.Prelude.{
  String, Bool, true, ◌||◌, List, [], ◌∷◌, ◌≡◌, refl, inl, inr, ◌↔◌, arith, ◌==◌, Bool-cases, any,
  has, add, has-add, All, ok, >>-eq-ok,
}
use baresync.Tables.{Table}
use baresync.Casing.{camel_to_snake}
use baresync.Contract.{column_names}
use baresync.Generator.{
  GeneratorError, unexpected_local_only, unexpected_server_only, add_aliases,
  names_with_column_aliases, each_expected, validate_paired_table_columns,
}

-- A configured name names a column if it is the column's name, or is it in snake case.
abbrev pub names_column : String → String → Bool
unfolding camel_to_snake
names_column column name = name == column || camel_to_snake name == column

-- A column that the other table has, or that the configuration names.
abbrev pub IsExpected : List String → List String → String → Type 0
IsExpected others names column = (has column others || any (names_column column) names) ≡ true

has-add_aliases :
    (column : String) (names aliases : List String)
    → has column (add_aliases names aliases)
      ≡ (has column aliases || any (names_column column) names)
unfolding add_aliases
has-add_aliases column [] aliases = ground arith
has-add_aliases column (name ∷ names) aliases =
    let snake = camel_to_snake name in
    rw
      (
        has-add_aliases column names (add snake (add name aliases)),
        has-add column snake (add name aliases),
        has-add column name aliases,
      )
      (ground arith)

has-names_with_column_aliases :
    (column : String) (names : List String)
    → has column (names_with_column_aliases names) ≡ any (names_column column) names
unfolding names_with_column_aliases has
has-names_with_column_aliases column names = has-add_aliases column names []

each_expected_iff :
    (unexpected : String → GeneratorError) (columns others names : List String)
    → each_expected unexpected columns others (names_with_column_aliases names) ≡ ok tt
      ↔ All (IsExpected others names) columns
unfolding each_expected
each_expected_iff unexpected [] others names = (λ e. tt, λ h. refl)
each_expected_iff unexpected (column ∷ columns) others names =
    let same = has-names_with_column_aliases column names in
    let (to, from) = each_expected_iff unexpected columns others names in
    (
      λ e. elim (Bool-cases (has column others || has column (names_with_column_aliases names))) [
        | inl here ↦ (rw same at here, to (rw here at e))
        | inr missing ↦ cc (rw missing at e)
      ],
      λ h. rw (same, h.0) (from h.1),
    )

-- A pair of tables passes exactly when each column of the local table is one of the API table or is
-- named, in camel case or as it is, among the local-only columns, and each column of the API table is
-- one of the local table or is named among the server-only columns.
pub validate_paired_table_columns-IsExpected :
    (api_table : Table) (export_name : String) (local_only : List String) (local_table : Table)
    (server_only : List String)
    → validate_paired_table_columns api_table export_name local_only local_table server_only ≡ ok tt
      ↔ All (IsExpected (column_names api_table) local_only) (column_names local_table)
        × All (IsExpected (column_names local_table) server_only) (column_names api_table)
unfolding validate_paired_table_columns
validate_paired_table_columns-IsExpected api_table export_name local_only local_table server_only =
    let local_side =
      each_expected_iff (unexpected_local_only export_name) (column_names local_table)
        (column_names api_table) local_only in
    let api_side =
      each_expected_iff (unexpected_server_only export_name) (column_names api_table)
        (column_names local_table) server_only in
    (
      λ e.
          let (_, first, second) =
            >>-eq-ok
              (each_expected (unexpected_local_only export_name) (column_names local_table)
                (column_names api_table) (names_with_column_aliases local_only))
              _ e in
          (local_side.0 first, api_side.0 second),
      λ h. rw (local_side.1 h.0) (api_side.1 h.1),
    )
