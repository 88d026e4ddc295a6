-- ===== src/Cli/Commands/Tests.antt =====
-- packages/baresync/src/cli/generator.ts: the commands on a configuration of one table.
use baresync.Prelude.{
  String, true, false, none, some, List, [], ◌∷◌, ◌≡◌, refl, sym, ap, subst, ◌∙◌, All, ok-injective,
  ◌==◌, if◌then◌else◌, Distinct, ok,
}
use baresync.Tables.{Table}
use baresync.Generator.{PairedSyncGeneratorConfig}
use baresync.Generator.Platform.{Platform}
use baresync.Generator.PosixPaths.{posix_resolve, posix_dirname}
use baresync.Generator.Examples.{
  column, shared_columns, local_table, api_table, config, platform, platform-Shortens, build,
}
use baresync.Cli.Arguments.{parse_generate_cli_args}
use baresync.Cli.Entries.{
  Export, LoadedConfig, LoadedConfigEntry, HasContract, paired_entry, contract_entry,
  resolve_loaded_config_entries, build_named_json_entry, build_default_export_entry,
  build_raw_contract_entry,
}
use baresync.Cli.Entries.Keys.{
  directory_of, output_texts, IsAmong, resolve_loaded_config_entries-Distinct,
  resolve_loaded_config_entries-overridden,
}
use baresync.Cli.Commands.{
  ImportConfig, exit_code, load_entries, check_entries, generate_entries, run_generate_command,
}
use baresync.Cli.Doctor.{run_doctor_command}
use baresync.Cli.Doctor.Agreeing.{run_generate_command-run_doctor_command}
use baresync.Cli.Commands.Unread.{run_generate_command-unread}
use baresync.Cli.Commands.Checked.{CommandEnds, check_entries-CommandEnds}

-- What is not exported is no object, and is read as nothing.
abbrev no_value : Export
no_value = record {
  is_object = false;
  fields = [];
  tables_is_array = false;
  tables_meta_is_array = false;
  limits_is_object = false;
  paired_config = config;
  generator_config = record { contract = some build.contract; output_dir = "out" };
  contract = build.contract;
}

abbrev contract_value : Export
contract_value = record no_value {
  is_object = true;
  fields = "limits" ∷ "tables" ∷ "tablesMeta" ∷ [];
  tables_is_array = true;
  tables_meta_is_array = true;
  limits_is_object = true;
}

abbrev paired_value : PairedSyncGeneratorConfig → Export
paired_value given = record no_value {
  is_object = true;
  fields = "apiSyncedSchemaPath" ∷ "localSyncedSchemaPath" ∷ "outputDir" ∷ "tables" ∷ [];
  paired_config = given;
}

-- A configuration and a contract.
abbrev config_module : LoadedConfig
config_module = record {
  sync_generator_config = paired_value config;
  default_export = no_value;
  contract_export = contract_value;
}

abbrev paired_module : LoadedConfig
paired_module = record config_module { contract_export = no_value }

abbrev import_config : ImportConfig
import_config path = if path == "/app/sync.config.ts" then some paired_module else none

abbrev entries : List LoadedConfigEntry
entries =
    paired_entry "syncGeneratorConfig" none config
    ∷ contract_entry "contract" none build.contract
    ∷ []

abbrev overridden_entries : List LoadedConfigEntry
overridden_entries = paired_entry "syncGeneratorConfig" (some "elsewhere") config ∷ []

resolved : resolve_loaded_config_entries config_module none ≡ some entries
unfolding resolve_loaded_config_entries
resolved = refl

resolve_loaded_config_entries-Distinct_example :
    Distinct (output_texts entries)
    × IsAmong
        (output_texts entries)
        (build_named_json_entry config_module.sync_generator_config none)
    × IsAmong (output_texts entries) (build_default_export_entry config_module.default_export none)
    × IsAmong (output_texts entries) (build_raw_contract_entry config_module.contract_export none)
resolve_loaded_config_entries-Distinct_example =
    resolve_loaded_config_entries-Distinct config_module none entries resolved

resolved_elsewhere :
    resolve_loaded_config_entries config_module (some "elsewhere") ≡ some overridden_entries
unfolding resolve_loaded_config_entries
resolved_elsewhere = refl

resolve_loaded_config_entries-overridden_example :
    (entry : LoadedConfigEntry) × (overridden_entries ≡ entry ∷ [])
    × (directory_of entry.source ≡ "elsewhere")
resolve_loaded_config_entries-overridden_example =
    resolve_loaded_config_entries-overridden config_module "elsewhere" overridden_entries
      resolved_elsewhere

abbrev check_args : List String
check_args = "sync.config.ts" ∷ "--check" ∷ []

loaded_entries :
    load_entries (platform (some 0)) import_config (some "sync.config.ts") none
    ≡ ok (paired_entry "syncGeneratorConfig" none config ∷ [], "/app/sync.config.ts")
unfolding load_entries posix_resolve
loaded_entries = refl

-- The loaded configuration is a paired one.
loaded-HasContract :
    (there : List LoadedConfigEntry) (path : String)
    → load_entries
        (platform (some 0))
        import_config
        (parse_generate_cli_args check_args).config_path
        none
      ≡ ok (there, path)
    → All (λ entry. HasContract entry.source) there
unfolding parse_generate_cli_args
loaded-HasContract there path e =
    subst (All (λ entry. HasContract entry.source))
      (ap (λ p. p.0) (ok-injective (sym loaded_entries ∙ e))) (tt, tt)

run_generate_command-run_doctor_command_example :
    exit_code (run_generate_command (platform (some 0)) import_config check_args).outcome
    ≡ exit_code (run_doctor_command (platform (some 0)) import_config check_args).outcome
unfolding parse_generate_cli_args
run_generate_command-run_doctor_command_example =
    run_generate_command-run_doctor_command (platform (some 0)) import_config check_args
      (refl, (refl, tt)) refl refl loaded-HasContract

checks : exit_code (run_generate_command (platform (some 0)) import_config check_args).outcome ≡ 0
unfolding run_generate_command posix_resolve posix_dirname
checks = refl

abbrev plain_args : List String
plain_args = "sync.config.ts" ∷ []

abbrev flag_args : List String
flag_args = "--warnings-as-errors" ∷ "sync.config.ts" ∷ []

abbrev paired_entries : List LoadedConfigEntry
paired_entries = paired_entry "syncGeneratorConfig" none config ∷ []

run_generate_command-unread_example :
    run_generate_command (platform (some 0)) import_config flag_args
    ≡ run_generate_command (platform (some 0)) import_config plain_args
unfolding parse_generate_cli_args load_entries posix_resolve
run_generate_command-unread_example =
    run_generate_command-unread (platform (some 0)) import_config plain_args flag_args
      paired_entries "/app/sync.config.ts" refl refl refl refl (tt, tt)

passed : check_entries (platform (some 0)) false paired_entries ≡ ok tt
unfolding check_entries
passed = refl

check_entries-CommandEnds_example :
    CommandEnds
      (platform (some 0))
      (generate_entries (platform (some 0)) true paired_entries).outcome
check_entries-CommandEnds_example =
    check_entries-CommandEnds (platform (some 0)) false true paired_entries
      (platform-Shortens (some 0)) ((config, refl), tt) passed

-- The API table without its column for the time of a sync, and a configuration that names none.
abbrev untimed_api_table : Table
untimed_api_table = record api_table {
  columns = column "id" "SQLiteText" true ∷ shared_columns;
  indexes = (some "scope_id" ∷ []) ∷ [];
}

abbrev untimed_platform : Platform
untimed_platform = record (platform (some 0)) {
  import_schema = λ path.
      some (("items", some (if path == "local.ts" then local_table else untimed_api_table)) ∷ []);
}

abbrev untimed_config : PairedSyncGeneratorConfig
untimed_config = record config {
  tables =
      (
        "items",
        some (record {
          local_only_columns = none;
          scope_column = "scopeId";
          server_only_columns = some [];
        }),
      )
      ∷ [];
}

abbrev import_untimed : ImportConfig
import_untimed path =
    some (record paired_module { sync_generator_config = paired_value untimed_config })

-- A warning that counts as an error stops a check, and does not stop the generation.
stops_check :
    exit_code (run_generate_command untimed_platform import_untimed ("--check" ∷ flag_args)).outcome
    ≡ 1
unfolding run_generate_command posix_resolve posix_dirname
stops_check = refl

stops_no_generation :
    exit_code (run_generate_command untimed_platform import_untimed flag_args).outcome ≡ 0
unfolding run_generate_command posix_resolve posix_dirname
stops_no_generation = refl

unflagged_check :
    exit_code
      (run_generate_command untimed_platform import_untimed ("--check" ∷ plain_args)).outcome
    ≡ 0
unfolding run_generate_command posix_resolve posix_dirname
unflagged_check = refl

-- A configuration whose field `contract` is undefined passes the check, and stops `doctor`.
abbrev import_unset : ImportConfig
import_unset path = some (record paired_module {
  sync_generator_config = record no_value {
    is_object = true;
    fields = "contract" ∷ "outputDir" ∷ [];
    generator_config = record { contract = none; output_dir = "out" };
  };
})

unset_check :
    exit_code (run_generate_command (platform (some 0)) import_unset check_args).outcome ≡ 0
unfolding run_generate_command posix_resolve posix_dirname
unset_check = refl

unset_doctor :
    exit_code (run_doctor_command (platform (some 0)) import_unset check_args).outcome ≡ 1
unfolding run_doctor_command posix_resolve posix_dirname
unset_doctor = refl
