-- ===== src/Diagnostics/Emitted.antt =====
-- packages/baresync/src/generator/diagnostics.ts: what holds of every diagnostic that a check makes.
use baresync.Prelude.{
  ℕ, String, Bool, true, false, not, ◌||◌, Option, none, some, List, [], ◌∷◌, ◌≡◌, refl, ◌==◌, ltb,
  if◌then◌else◌, length, any, has, All,
}
use baresync.Tables.{Column}
use baresync.Diagnostics.{
  Severity, error, warning, info, SyncDiagnostic, on_table, on_column, unless, or_next, missing_key,
  key_column, single_key, unsupported_key, repeats,
}
use baresync.Diagnostics.Columns.{failing_columns, gone_tables, check_additive_change}
use baresync.Diagnostics.ForeignKeys.{report, on_match, tests}

module _ (P : SyncDiagnostic → Type 0) where
  pub unless-All : (b : Bool) (d : SyncDiagnostic) → P d → All P (unless b d)
  unless-All true d h = tt
  unless-All false d h = (h, tt)

  pub if-All :
      (b : Bool) (xs ys : List SyncDiagnostic) → All P xs → All P ys → All P (if b then xs else ys)
  if-All true xs ys hx hy = hx
  if-All false xs ys hx hy = hy

  pub or_next-All : (xs ys : List SyncDiagnostic) → All P xs → All P ys → All P (or_next xs ys)
  or_next-All [] ys hx hy = hy
  or_next-All (x ∷ xs) ys hx hy = hx

  pub failing_columns-All :
      (fails : Column → Bool) (code : String) (severity : Severity) (table_name : String)
      → ((name : String) → P (on_column code severity table_name name))
      → (columns : List Column) → All P (failing_columns fails code severity table_name columns)
  unfolding failing_columns
  failing_columns-All fails code severity table_name h [] = tt
  failing_columns-All fails code severity table_name h (c ∷ columns) =
      let later = failing_columns-All fails code severity table_name h columns in
      if-All (fails c) _ _ (h c.name, later) later

  pub repeats-All :
      (make : String → SyncDiagnostic)
      → ((name : String) → P (make name))
      → (seen : List (String × ℕ)) → All P (repeats make seen)
  unfolding repeats
  repeats-All make h [] = tt
  repeats-All make h ((name, count) ∷ seen) =
      let later = repeats-All make h seen in if-All (ltb 1 count) _ _ (h name, later) later

  gone_tables-All :
      ((name : String) → P (on_table "SYNC_COMPAT_ADDITIVE_CHANGE" warning name))
      → (current previous : List String) → All P (gone_tables current previous)
  unfolding gone_tables
  gone_tables-All h current [] = tt
  gone_tables-All h current (prev ∷ previous) =
      let later = gone_tables-All h current previous in
      if-All (has prev current) _ _ later (h prev, later)

  pub check_additive_change-All :
      ((name : String) → P (on_table "SYNC_COMPAT_ADDITIVE_CHANGE" warning name))
      → (current : List String) (previous : Option (List String))
      → All P (check_additive_change current previous)
  unfolding check_additive_change
  check_additive_change-All h current none = tt
  check_additive_change-All h current (some previous) = gone_tables-All h current previous

  pub report-All :
      ((table : Option String) → P (on_match "SYNC_SCHEMA_FK_CYCLE" table))
      → ((table : Option String) → P (on_match "SYNC_SCHEMA_REQUIRED_EXTERNAL_FK" table))
      → (text : String) → All P (report text)
  unfolding report
  report-All cycle external text =
      if-All (tests "cycle" text) _ _ (cycle _, tt)
        (if-All (tests "external" text) _ _ (external _, tt) tt)

  pub missing_key-All :
      (table_name : String)
      → P (on_table "SYNC_SCHEMA_MISSING_PRIMARY_KEY" error table_name)
      → (columns composite : List Column) → All P (missing_key table_name columns composite)
  missing_key-All table_name h [] [] = (h, tt)
  missing_key-All table_name h [] (c ∷ composite) = tt
  missing_key-All table_name h (c ∷ columns) composite = tt

  module _ (table_name : String)
      (at_column : (name : String)
        → P (on_column "SYNC_SCHEMA_UNSUPPORTED_PRIMARY_KEY" error table_name name)) where
    key_column-All : (pk : Column) → All P (key_column table_name pk)
    key_column-All pk =
        if-All (not (pk.column_type == "SQLiteText") || not (pk.name == "id"))
          (on_column "SYNC_SCHEMA_UNSUPPORTED_PRIMARY_KEY" error table_name pk.name ∷ []) []
          (at_column pk.name, tt) tt

    single_key-All : (columns : List Column) → All P (single_key table_name columns)
    single_key-All [] = tt
    single_key-All (c ∷ []) = key_column-All c
    single_key-All (c ∷ d ∷ columns) = tt

    pub unsupported_key-All :
        P (on_table "SYNC_SCHEMA_UNSUPPORTED_PRIMARY_KEY" error table_name)
        → (columns composite : List Column) → All P (unsupported_key table_name columns composite)
    unsupported_key-All at_table columns composite =
        if-All (ltb 1 (length composite))
          (on_table "SYNC_SCHEMA_UNSUPPORTED_PRIMARY_KEY" error table_name ∷ [])
          (or_next (single_key table_name columns) (single_key table_name composite)) (at_table, tt)
          (or_next-All (single_key table_name columns) (single_key table_name composite)
            (single_key-All columns) (single_key-All composite))

abbrev pub is_error : SyncDiagnostic → Bool
is_error d = elim d.severity [ error ↦ true | warning ↦ false | info ↦ false ]

-- A list of errors without an error is empty.
pub no_errors :
    (ds : List SyncDiagnostic) → All (λ d. is_error d ≡ true) ds → any is_error ds ≡ false → ds ≡ []
no_errors [] errors others = refl
no_errors (d ∷ ds) errors others = cc (rw (errors.0) at others)

pub unless-no_errors :
    (b : Bool) (d : SyncDiagnostic)
    → is_error d ≡ true
    → any is_error (unless b d) ≡ false
    → b ≡ true
unless-no_errors true d e h = refl
unless-no_errors false d e h = cc (rw e at h)
