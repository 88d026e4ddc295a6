-- ===== src/Generator/Artifacts.antt =====
-- packages/baresync/src/generator/outputs.ts and manifest.ts: the files that are written for a
-- contract.
use Prim.Native.String
use baresync.Prelude.{ℕ, ◌+◌, String, List, [], ◌∷◌, map}
use baresync.Contract.{SyncContract, SyncContractTableMeta}
use baresync.FkOrder.{SyncTableOrder}
use baresync.JsObject.{from_entries}
use baresync.Generator.Platform.{
  Platform, ContractTable, ContractJson, ManifestTable, SyncManifest, contract_json, manifest_json,
  text, Action, made_directory, wrote_file,
}

abbrev pub generator_version : String
generator_version = "0.1.0"

-- `columns.map((column, index) => [column, index + 1])`, from an index on.
unfoldable pub numbered : ℕ → List String → List (String × ℕ)
numbered index [] = []
numbered index (column ∷ columns) = (column, index + 1) ∷ numbered (index + 1) columns

abbrev pub manifest_table : SyncContractTableMeta → ManifestTable
manifest_table t = record {
  field_numbers = from_entries (numbered 0 t.columns);
  fields = t.columns;
  name = t.table_name;
}

abbrev pub output_paths : List String
output_paths = "sync-contract.json" ∷ "sync-table-order.ts" ∷ "sync-contract.manifest.json" ∷ []

unfoldable pub manifest_of : SyncContract → SyncTableOrder → String → SyncManifest
unfolding numbered from_entries
manifest_of contract table_order version = record {
  contract_version = version;
  generator_version = generator_version;
  output_paths = output_paths;
  scope_mappings = map (λ t. (t.table_name, t.scope_field)) contract.tables_meta;
  delete_order = table_order.delete_order;
  upsert_order = table_order.upsert_order;
  tables = map manifest_table contract.tables_meta;
}

abbrev pub write_manifest :
    Platform → SyncContract → SyncTableOrder → (output_dir version : String) → List Action
unfolding manifest_of
write_manifest platform contract table_order output_dir version =
    made_directory output_dir
    ∷ wrote_file (platform.join output_dir "sync-contract.manifest.json")
        (manifest_json (manifest_of contract table_order version))
    ∷ []

abbrev pub contract_entry : SyncContractTableMeta → String × ContractTable
contract_entry t = (
  t.table_name,
  record {
    columns = t.columns;
    scope_field = t.scope_field;
    local_only_columns = t.local_only_columns;
    server_only_columns = t.server_only_columns;
  },
)

unfoldable pub contract_json_of : SyncContract → SyncTableOrder → String → ContractJson
unfolding from_entries
contract_json_of contract table_order version = record {
  version = version;
  generator_version = generator_version;
  upsert_order = table_order.upsert_order;
  delete_order = table_order.delete_order;
  tables = from_entries (map contract_entry contract.tables_meta);
  limits = contract.limits;
}

abbrev pub write_sync_contract_json :
    Platform → SyncContract → SyncTableOrder → (output_dir version : String) → List Action
unfolding contract_json_of
write_sync_contract_json platform contract table_order output_dir version =
    made_directory output_dir
    ∷ wrote_file (platform.join output_dir "sync-contract.json")
        (contract_json (contract_json_of contract table_order version))
    ∷ []

-- `values.join(separator)`
unfoldable pub joined : String → List String → String
joined separator [] = ""
joined separator (value ∷ []) = value
joined separator (value ∷ next ∷ values) =
    String.◌++◌ value (String.◌++◌ separator (joined separator (next ∷ values)))

abbrev pub render_inline_string_array : Platform → List String → String
unfolding joined
render_inline_string_array platform values =
    String.◌++◌ "[" (String.◌++◌ (joined ", " (map platform.quoted values)) "]")

abbrev pub constant_line : Platform → String → List String → String
unfolding joined
constant_line platform name values = String.◌++◌ "export const " (
    String.◌++◌ name
      (String.◌++◌ " = " (String.◌++◌ (render_inline_string_array platform values) " as const;")))

unfoldable pub table_order_text : Platform → SyncTableOrder → String
unfolding joined
table_order_text platform table_order = joined "\n" (
    "// Auto-generated by baresync. Do not edit manually."
    ∷ ""
    ∷ constant_line platform "SYNC_UPSERT_ORDER" table_order.upsert_order
    ∷ ""
    ∷ constant_line platform "SYNC_DELETE_ORDER" table_order.delete_order
    ∷ ""
    ∷ [])

abbrev pub write_table_order_constants :
    Platform → SyncTableOrder → (output_dir : String) → List Action
unfolding table_order_text
write_table_order_constants platform table_order output_dir =
    made_directory output_dir
    ∷ wrote_file (platform.join output_dir "sync-table-order.ts")
        (text (table_order_text platform table_order))
    ∷ []
