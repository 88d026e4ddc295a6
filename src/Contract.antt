-- ===== src/Contract.antt =====
-- packages/baresync/src/schema/contract.ts and schema/synced-table.ts: the definition of a synced
-- table, the resolution of its scope, and the contract made of such definitions. The texts of errors
-- are left out: an error is a constructor with the values that its text names. The fields `conflict`
-- and `delete` of a definition, which nothing reads, are left out, and so is a limit that is given as
-- `undefined`.
pub mod Laws
use baresync.Prelude.{
  ℕ, ◌*◌, String, Bool, true, false, ◌&&◌, ◌||◌, Option, none, some, List, [], ◌∷◌, ◌++◌, map, ◌==◌,
  if◌then◌else◌, find, has, Result, ok, throw, ◌>>=◌, ◌>>◌,
}
use baresync.Tables.{Column, Table}
use baresync.Casing.{camel_to_snake, snake_to_camel}

pub record ScopeMapping : Type 0 where
  pub column : Column
  pub field : String
  pub source : String

pub record SyncedTableDefinition : Type 0 where
  pub table : Table
  pub scope : ScopeMapping
  pub local_only_columns : Option (List String)
  pub server_only_columns : Option (List String)

pub data ContractError : Type 0 where
  scope_not_found : (scope_name table_name : String) → ContractError
  missing_primary_key : (table_name : String) → ContractError
  unmapped_scope : (table_name field : String) → ContractError
  missing_deleted_at : (table_name : String) → ContractError

-- `string | ScopeMapping`
pub data ScopeOption : Type 0 where
  by_name : String → ScopeOption
  by_mapping : ScopeMapping → ScopeOption

abbrev pub names_scope : String → Column → Bool
names_scope scope_name c = c.name == scope_name || snake_to_camel c.name == scope_name

abbrev pub scope_of : String → String → Option Column → Result ContractError ScopeMapping
scope_of scope_name table_name none = throw (scope_not_found scope_name table_name)
scope_of scope_name table_name (some column) =
    ok (record { source = "scope"; field = snake_to_camel column.name; column = column })

unfoldable pub resolve_scope_from_table : Table → String → Result ContractError ScopeMapping
unfolding snake_to_camel
resolve_scope_from_table table scope_name =
    scope_of scope_name table.name (find (names_scope scope_name) table.columns)

abbrev pub resolve_scope : Table → ScopeOption → Result ContractError ScopeMapping
resolve_scope table (by_name scope_name) = resolve_scope_from_table table scope_name
resolve_scope table (by_mapping scope) = ok scope

unfoldable pub synced_table :
    (table : Table) (scope : ScopeOption) (local_only server_only : Option (List String))
    → Result ContractError SyncedTableDefinition
unfolding resolve_scope_from_table
synced_table table scope local_only server_only = do
  mapping ← resolve_scope table scope
  ok (record {
    table = table;
    scope = mapping;
    local_only_columns = local_only;
    server_only_columns = server_only;
  })

pub record SyncContractLimits : Type 0 where
  pub max_push_bytes : ℕ
  pub max_push_rows : ℕ

pub record SyncContractTableMeta : Type 0 where
  pub columns : List String
  pub local_only_columns : List String
  pub scope_field : String
  pub server_only_columns : List String
  pub table_name : String

pub record SyncContract : Type 0 where
  pub limits : SyncContractLimits
  pub tables : List SyncedTableDefinition
  pub tables_meta : List SyncContractTableMeta

abbrev pub default_limits : SyncContractLimits
default_limits = record { max_push_bytes = 2 * 1024 * 1024; max_push_rows = 2000 }

-- `Partial<SyncContractLimits>`
pub record GivenLimits : Type 0 where
  pub max_push_bytes : Option ℕ
  pub max_push_rows : Option ℕ

abbrev pub given_or : Option ℕ → ℕ → ℕ
given_or none default = default
given_or (some given) default = given

abbrev pub contract_limits : Option GivenLimits → SyncContractLimits
contract_limits none = default_limits
contract_limits (some limits) = record {
  max_push_bytes = given_or limits.max_push_bytes default_limits.max_push_bytes;
  max_push_rows = given_or limits.max_push_rows default_limits.max_push_rows;
}

-- `list ?? []`
abbrev pub names_or_empty : Option (List String) → List String
names_or_empty none = []
names_or_empty (some names) = names

abbrev pub column_names : Table → List String
column_names table = map (λ c. c.name) table.columns

-- `config.primaryKeys.flatMap((pk) => pk.columns)`
abbrev pub flat : List (List Column) → List Column
flat [] = []
flat (key ∷ keys) = key ++ flat keys

abbrev pub pk_from_composite : Table → List Column
pk_from_composite table = flat table.primary_keys

-- `find` throws where it finds nothing.
abbrev pub required : ContractError → Option Column → Result ContractError (Unit {0})
required error none = throw error
required error (some column) = ok tt

abbrev pub check_primary_key : Table → List Column → Result ContractError (Unit {0})
check_primary_key table [] =
    required (missing_primary_key table.name) (find (λ c. c.name == "id") table.columns)
check_primary_key table (c ∷ columns) = ok tt

abbrev pub maps_scope : String → Column → Bool
maps_scope field c = c.name == field || camel_to_snake field == c.name

abbrev pub check_deleted_at : Table → Result ContractError (Unit {0})
check_deleted_at table =
    if has "deleted_at" (column_names table) then ok tt else throw (missing_deleted_at table.name)

unfoldable pub validate_and_extract_table_meta :
    SyncedTableDefinition → Result ContractError SyncContractTableMeta
unfolding camel_to_snake has
validate_and_extract_table_meta def = do
  check_primary_key def.table (pk_from_composite def.table)
  required (unmapped_scope def.table.name def.scope.field)
      (find (maps_scope def.scope.field) def.table.columns)
  check_deleted_at def.table
  ok (record {
    table_name = def.table.name;
    columns = column_names def.table;
    scope_field = def.scope.field;
    local_only_columns = names_or_empty def.local_only_columns;
    server_only_columns = names_or_empty def.server_only_columns;
  })

unfoldable pub extract_all :
    List SyncedTableDefinition → Result ContractError (List SyncContractTableMeta)
unfolding validate_and_extract_table_meta
extract_all [] = ok []
extract_all (def ∷ defs) = do
  meta ← validate_and_extract_table_meta def
  metas ← extract_all defs
  ok (meta ∷ metas)

-- `syncSchema` is another name of it.
unfoldable pub define_sync_contract :
    List SyncedTableDefinition → Option GivenLimits → Result ContractError SyncContract
unfolding extract_all
define_sync_contract tables limits = do
  tables_meta ← extract_all tables
  ok (record { tables = tables; limits = contract_limits limits; tables_meta = tables_meta })
