-- ===== src/Generator/Examples.antt =====
-- A schema of one table, its configuration, and platforms to generate it on.
use Prim.Native.String
use baresync.Prelude.{
  ℕ, String, Bool, true, false, Option, none, some, List, [], ◌∷◌, ◌≡◌, refl, ◌==◌, if◌then◌else◌,
  has, ok,
}
use baresync.Tables.{Column, Table}
use baresync.Contract.{SyncedTableDefinition}
use baresync.Contract.Laws.{contract_of}
use baresync.Generator.{
  PairedSyncGeneratorConfig, Exports, PairedContractBuild, build_paired_contract_from_paired_config,
}
use baresync.Generator.PosixPaths.{
  is_absolute, posix_dirname, posix_resolve, posix_dirname-is_absolute, posix_dirname-lt,
  posix_resolve-is_absolute,
}
use baresync.Generator.Platform.{Platform}
use baresync.Generator.Formatting.Searching.{Shortens}

abbrev pub column : String → String → Bool → Column
column name column_type primary = record {
  name = name;
  column_type = column_type;
  primary = primary;
  not_null = true;
  length = none;
}

abbrev pub shared_columns : List Column
shared_columns =
    column "scope_id" "SQLiteText" false
    ∷ column "created_at" "SQLiteText" false
    ∷ column "updated_at" "SQLiteText" false
    ∷ column "deleted_at" "SQLiteText" false
    ∷ []

abbrev pub table : List Column → Table
table columns = record {
  name = "items";
  columns = columns;
  primary_keys = [];
  foreign_keys = [];
  indexes = (some "scope_id" ∷ some "sync_updated_at" ∷ []) ∷ [];
}

abbrev pub local_table : Table
local_table =
    table
      (column "id" "SQLiteText" true ∷ column "is_synced" "SQLiteInteger" false ∷ shared_columns)

abbrev pub api_table : Table
api_table =
    table
      (column "id" "SQLiteText" true ∷ column "sync_updated_at" "SQLiteText" false ∷ shared_columns)

abbrev pub config : PairedSyncGeneratorConfig
config = record {
  api_synced_schema_path = "api.ts";
  limits = none;
  local_synced_schema_path = "local.ts";
  output_dir = "out";
  tables =
      (
        "items",
        some (record {
          local_only_columns = none;
          scope_column = "scopeId";
          server_only_columns = none;
        }),
      )
      ∷ [];
}

abbrev pub import_schema : String → Option Exports
import_schema path =
    if path == "local.ts"
    then some (("items", some local_table) ∷ ("limit", none) ∷ [])
    else (if path == "api.ts" then some (("items", some api_table) ∷ []) else none)

-- Programs that fail, on a disk with a configuration of biome, its program and the local schema.
abbrev pub platform : Option ℕ → Platform
platform status = record {
  cwd = "/app";
  dirname = posix_dirname;
  exec_path = "node";
  exists = λ path. has path ("/biome.json" ∷ "/node_modules/.bin/biome" ∷ "/local.ts" ∷ []);
  import_schema = import_schema;
  join = λ first second.
      if first == "/" then String.◌++◌ "/" second else String.◌++◌ first (String.◌++◌ "/" second);
  permits = λ done action. true;
  prettier = "prettier.cjs";
  quoted = λ s. String.◌++◌ "\"" (String.◌++◌ s "\"");
  resolve = posix_resolve;
  spawn = λ command arguments. record { missing = false; status = status; stderr = "" };
  today = "2026-01-02";
  windows = false;
}

pub platform-Shortens : (status : Option ℕ) → Shortens (platform status)
platform-Shortens status = record {
  is_absolute = is_absolute;
  resolved = posix_resolve-is_absolute;
  parent = posix_dirname-is_absolute;
  shorter = posix_dirname-lt;
}

abbrev pub def : SyncedTableDefinition
def = record {
  table = local_table;
  scope = record {
    column = column "scope_id" "SQLiteText" false;
    field = "scopeId";
    source = "scope";
  };
  local_only_columns = some ("isSynced" ∷ []);
  server_only_columns = some ("syncUpdatedAt" ∷ []);
}

abbrev pub build : PairedContractBuild
build = record {
  contract = contract_of (def ∷ []) none;
  tables = record { api_table = api_table; export_name = "items"; local_table = local_table } ∷ [];
}

pub built : build_paired_contract_from_paired_config import_schema config ≡ ok build
unfolding build_paired_contract_from_paired_config
built = refl
