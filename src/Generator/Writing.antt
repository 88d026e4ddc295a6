-- ===== src/Generator/Writing.antt =====
-- packages/baresync/src/generator/index.ts from `writeGenerationArtifacts` on: what is written for a
-- contract, and when.
use baresync.Prelude.{
  String, Bool, true, false, Option, none, some, List, [], ◌∷◌, ◌++◌, map, if◌then◌else◌, keep,
  Result, ok, throw,
}
use baresync.Contract.{SyncContract}
use baresync.FkOrder.{OrderError, SyncTableOrder, compute_sync_table_order}
use baresync.Diagnostics.{SyncDiagnostic, error, warning, info}
use baresync.Diagnostics.Emitted.{is_error}
use baresync.Diagnostics.ForeignKeys.{schema_module}
use baresync.Diagnostics.Run.{NoMeta, DiagnosticOptions, run_diagnostics}
use baresync.Generator.{
  GeneratorConfig, PairedSyncGeneratorConfig, GeneratorError, PairedContractBuild, unmatched_meta,
  no_contract, diagnostics_failed, unordered, diagnostic_pairs,
  build_paired_contract_from_paired_config,
}
use baresync.Generator.Platform.{
  Platform, Action, warned, copied_file, skipped_snapshot, without_snapshots, Run, failed, after,
  then_run, perform,
}
use baresync.Generator.Formatting.{format_generated_artifacts}
use baresync.Generator.Artifacts.{
  write_manifest, write_sync_contract_json, write_table_order_constants, manifest_of,
  contract_json_of, table_order_text,
}

pub record SchemaPaths : Type 0 where
  pub api_path : String
  pub local_path : String

abbrev pub copy_snapshot : Platform → (dated_dir source_path name : String) → Action
copy_snapshot platform dated_dir source_path name =
    let resolved = platform.resolve source_path in
    if platform.exists resolved
    then copied_file resolved (platform.join dated_dir name)
    else skipped_snapshot resolved

abbrev pub copy_snapshots : Platform → String → Option SchemaPaths → List Action
copy_snapshots platform dated_dir none = without_snapshots ∷ []
copy_snapshots platform dated_dir (some paths) =
    copy_snapshot platform dated_dir paths.api_path "api-synced-schema.ts"
    ∷ copy_snapshot platform dated_dir paths.local_path "local-synced-schema.ts"
    ∷ []

abbrev pub is_warning : SyncDiagnostic → Bool
is_warning d = elim d.severity [ error ↦ false | warning ↦ true | info ↦ false ]

-- `today`, in the directory.
abbrev pub dated : Platform → String → String
dated platform dir = platform.join dir platform.today

abbrev pub written :
    Platform → SyncContract → String → Option SchemaPaths → SyncTableOrder → List Action
unfolding manifest_of contract_json_of table_order_text
written platform contract dir paths table_order =
    let dated_dir = dated platform dir in
    write_sync_contract_json platform contract table_order dated_dir platform.today
    ++ (write_table_order_constants platform table_order dated_dir
        ++ (write_manifest platform contract table_order dated_dir platform.today
            ++ copy_snapshots platform dated_dir paths))

-- The paths that are handed to the formatter.
abbrev pub formatted_paths : Platform → String → List String
formatted_paths platform dated_dir =
    platform.join dated_dir "sync-contract.json"
    ∷ platform.join dated_dir "sync-contract.manifest.json"
    ∷ platform.join dated_dir "sync-table-order.ts"
    ∷ []

-- The order of the tables that are written: those of the contract, by name.
unfoldable pub contract_order : SyncContract → Result OrderError SyncTableOrder
unfolding schema_module compute_sync_table_order
contract_order contract =
    compute_sync_table_order (schema_module contract.tables)
      (some (map (λ t. t.table_name) contract.tables_meta))

-- What follows on the order.
unfoldable pub write_in_order :
    Platform → SyncContract → String → Option SchemaPaths → Result OrderError SyncTableOrder → Run
unfolding manifest_of contract_json_of table_order_text perform format_generated_artifacts
write_in_order platform contract dir paths (throw thrown) = failed (unordered thrown)
write_in_order platform contract dir paths (ok table_order) =
    then_run (perform platform [] (written platform contract dir paths table_order)) (
      format_generated_artifacts platform platform.cwd []
        (formatted_paths platform (dated platform dir)))

-- `errors`, to which the warnings are added where they count as errors.
abbrev pub counted_errors : Bool → List SyncDiagnostic → List SyncDiagnostic
counted_errors warnings_as_errors ds =
    keep is_error ds ++ (if warnings_as_errors then keep is_warning ds else [])

-- `if (errors.length > 0)`
abbrev pub unless_errors : List SyncDiagnostic → List SyncDiagnostic → Run → Run
unless_errors ds [] next = next
unless_errors ds (d ∷ errors) next = failed (diagnostics_failed ds)

-- What follows on the diagnostics.
unfoldable pub write_unless_errors :
    Platform
    → SyncContract
    → (dir : String) (warnings_as_errors : Bool) → Option SchemaPaths
    → Result NoMeta (List SyncDiagnostic)
    → Run
unfolding contract_order write_in_order
write_unless_errors platform contract dir warnings_as_errors paths (throw thrown) =
    failed unmatched_meta
write_unless_errors platform contract dir warnings_as_errors paths (ok ds) =
    after (map warned (keep is_warning ds)) (
      unless_errors ds (counted_errors warnings_as_errors ds)
        (write_in_order platform contract dir paths (contract_order contract)))

unfoldable pub write_generation_artifacts :
    Platform
    → SyncContract
    → (dir : String) (warnings_as_errors : Bool) → Option SchemaPaths
    → DiagnosticOptions
    → Run
unfolding run_diagnostics write_unless_errors
write_generation_artifacts platform contract dir warnings_as_errors paths options =
    write_unless_errors platform contract dir warnings_as_errors paths
      (run_diagnostics contract options)

-- What `generateSyncArtifacts` takes: a paired configuration, a configuration, or a contract with
-- the directory and the options of the call.
pub data Source : Type 0 where
  paired : PairedSyncGeneratorConfig → Source
  configured : GeneratorConfig → Source
  raw : SyncContract → (output_dir : String) → Source

abbrev pub unpaired : DiagnosticOptions
unpaired = record { paired_tables = []; previous_tables = none }

abbrev pub paired_options : PairedContractBuild → DiagnosticOptions
paired_options build = record {
  paired_tables = diagnostic_pairs build.tables;
  previous_tables = none;
}

abbrev pub snapshots_of : PairedSyncGeneratorConfig → SchemaPaths
snapshots_of config = record {
  api_path = config.api_synced_schema_path;
  local_path = config.local_synced_schema_path;
}

-- What follows on the contract of a paired configuration.
unfoldable pub generate_built :
    Platform → PairedSyncGeneratorConfig → Result GeneratorError PairedContractBuild → Run
unfolding write_generation_artifacts
generate_built platform config (throw thrown) = failed thrown
generate_built platform config (ok build) =
    write_generation_artifacts platform build.contract config.output_dir false
      (some (snapshots_of config)) (paired_options build)

-- `undefined` in place of a contract is a TypeError in `runDiagnostics`.
abbrev pub with_contract : Option SyncContract → (SyncContract → Run) → Run
with_contract none next = failed no_contract
with_contract (some contract) next = next contract

-- The options of the call, here `warningsAsErrors`, do not reach a paired configuration.
unfoldable pub generate_sync_artifacts : Platform → Source → (warnings_as_errors : Bool) → Run
unfolding build_paired_contract_from_paired_config write_generation_artifacts generate_built
generate_sync_artifacts platform (paired config) warnings_as_errors =
    generate_built platform config
      (build_paired_contract_from_paired_config platform.import_schema config)
generate_sync_artifacts platform (configured config) warnings_as_errors =
    with_contract config.contract (λ contract.
      write_generation_artifacts platform contract config.output_dir warnings_as_errors none
        unpaired)
generate_sync_artifacts platform (raw contract output_dir) warnings_as_errors =
    write_generation_artifacts platform contract output_dir warnings_as_errors none unpaired
