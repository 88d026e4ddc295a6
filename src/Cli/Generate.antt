-- ===== src/Cli/Generate.antt =====
-- packages/baresync/src/cli/generator.ts, `runGenerate`: generation as other code calls it.
pub mod Laws
mod Tests
use baresync.Prelude.{
  String, Bool, true, false, not, ◌&&◌, ◌||◌, Option, none, some, List, [], ◌∷◌, ◌==◌,
  if◌then◌else◌, map, Result, ok, throw, ◌>>=◌,
}
use baresync.Contract.{SyncContract}
use baresync.Diagnostics.Run.{run_diagnostics}
use baresync.Generator.{
  GeneratorConfig, PairedSyncGeneratorConfig, no_contract, build_paired_contract_from_paired_config,
}
use baresync.Generator.Platform.{Platform}
use baresync.Generator.Writing.{
  Source, paired, configured, raw, unpaired, paired_options, counted_errors,
  generate_sync_artifacts,
}
use baresync.Cli.Entries.{Export, is_paired_config, is_generator_config, overridden, first_of}
use baresync.Cli.Commands.{
  CommandError, not_imported, no_export, no_output_directory, generator_failed, Command, did, ends,
  with_meta, refuse_errors, of_generator, unless_failed, after_lines,
}

-- A module's exports, where they are neither `null` nor `undefined`.
pub record LegacyModule : Type 0 where
  pub default_export : Option Export
  pub sync_generator_config : Option Export
  pub contract : Option Export

-- `string`, or what is given itself.
pub data GenerateSource : Type 0 where
  by_path : String → GenerateSource
  by_value : Export → GenerateSource

abbrev pub an_object : String → Option Export → Result CommandError Export
an_object path none = throw (no_export path)
an_object path (some value) = if value.is_object then ok value else throw (no_export path)

-- `a ?? b ?? c`
abbrev pub get_legacy_generate_export : LegacyModule → String → Result CommandError Export
get_legacy_generate_export config_module path = an_object path (
    first_of config_module.default_export
      (first_of config_module.sync_generator_config config_module.contract))

-- `import(path)`, which throws where it gives `none`.
abbrev pub legacy_module : String → Option LegacyModule → Result CommandError Export
legacy_module path none = throw (not_imported path)
legacy_module path (some config_module) = get_legacy_generate_export config_module path

unfoldable pub resolve_generate_source :
    Platform → (String → Option LegacyModule) → GenerateSource → Result CommandError Export
resolve_generate_source platform import_legacy (by_path path) =
    legacy_module (platform.resolve path) (import_legacy (platform.resolve path))
resolve_generate_source platform import_legacy (by_value source) = ok source

pub record GenerateOptions : Type 0 where
  pub check : Bool
  pub warnings_as_errors : Bool

-- A check ends without an action.
abbrev pub ends_check : Result CommandError (Unit {0}) → Command
ends_check (ok done) = ends (ok false)
ends_check (throw failure) = ends (throw failure)

-- `undefined` in place of a contract is a TypeError in `runDiagnostics`.
unfoldable pub throw_if_diagnostic_errors : Option SyncContract → Result CommandError (Unit {0})
unfolding run_diagnostics
throw_if_diagnostic_errors none = throw (generator_failed no_contract)
throw_if_diagnostic_errors (some contract) = of_generator (do
  ds ← with_meta (run_diagnostics contract unpaired)
  refuse_errors ds (counted_errors false ds))

unfoldable pub check_paired : Platform → PairedSyncGeneratorConfig → Result CommandError (Unit {0})
unfolding build_paired_contract_from_paired_config run_diagnostics
check_paired platform config = of_generator (do
  build ← build_paired_contract_from_paired_config platform.import_schema config
  ds ← with_meta (run_diagnostics build.contract (paired_options build))
  refuse_errors ds (counted_errors false ds))

unfoldable pub generated : Platform → Bool → Source → Command
unfolding generate_sync_artifacts
generated platform warnings_as_errors source =
    let run = generate_sync_artifacts platform source warnings_as_errors in
    after_lines (map did run.actions) (unless_failed run.outcome (ends (ok false)))

-- `generateSyncArtifacts(contract, resolvedOutputDir!, ...)`, a TypeError for `undefined`.
abbrev pub generated_contract : Platform → Bool → Option SyncContract → String → Command
generated_contract platform warnings_as_errors none output_dir =
    ends (throw (generator_failed no_contract))
generated_contract platform warnings_as_errors (some contract) output_dir =
    generated platform warnings_as_errors (raw contract output_dir)

-- What follows where the source is no paired configuration.
unfoldable pub generate_contract :
    Platform → Option SyncContract → (output_dir : String) → GenerateOptions → Command
unfolding throw_if_diagnostic_errors generated
generate_contract platform contract output_dir options =
    if output_dir == "" && not options.check
    then ends (throw no_output_directory)
    else (if options.check
        then ends_check (throw_if_diagnostic_errors contract)
        else generated_contract platform options.warnings_as_errors contract output_dir)

-- What is neither kind of configuration is taken for a contract. The output directory and the options
-- but `check` are not read for a paired configuration.
unfoldable pub generate_given : Platform → Option String → GenerateOptions → Export → Command
unfolding is_paired_config is_generator_config check_paired generated generate_contract
generate_given platform output_dir options value =
    if is_paired_config value
    then (if options.check
        then ends_check (check_paired platform value.paired_config)
        else generated platform false (paired value.paired_config))
    else (if is_generator_config value
        then generate_contract platform value.generator_config.contract
            (overridden output_dir value.generator_config.output_dir) options
        else generate_contract platform (some value.contract) (overridden output_dir "./generated")
            options)

-- What follows on the source.
unfoldable pub generate_resolved :
    Platform → Option String → GenerateOptions → Result CommandError Export → Command
unfolding generate_given
generate_resolved platform output_dir options (throw failure) = ends (throw failure)
generate_resolved platform output_dir options (ok source) =
    generate_given platform output_dir options source

unfoldable pub run_generate :
    Platform
    → (String → Option LegacyModule)
    → GenerateSource
    → (output_dir : Option String) → GenerateOptions
    → Command
unfolding resolve_generate_source generate_resolved
run_generate platform import_legacy source output_dir options =
    generate_resolved platform output_dir options
      (resolve_generate_source platform import_legacy source)
