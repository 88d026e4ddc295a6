-- ===== src/Cli/Doctor.antt =====
-- packages/baresync/src/cli/generator.ts: the command `doctor`.
pub mod Agreeing
use Prim.Native.String
use baresync.Prelude.{
  ℕ, String, Bool, true, false, not, ◌&&◌, ◌||◌, Option, none, some, List, [], ◌∷◌, ◌++◌, map, ◌==◌,
  if◌then◌else◌, length, keep, any, Result, ok, throw, ◌>>=◌,
}
use baresync.Contract.{SyncContract}
use baresync.Diagnostics.{SyncDiagnostic, Severity, error, warning, info}
use baresync.Diagnostics.Emitted.{is_error}
use baresync.Diagnostics.Run.{NoMeta, DiagnosticOptions, run_diagnostics}
use baresync.Generator.{
  GeneratorConfig, PairedSyncGeneratorConfig, PairedContractBuild, GeneratorError, no_contract,
  diagnostics_failed, build_paired_contract_from_paired_config,
}
use baresync.Generator.Platform.{Platform, Action, Run}
use baresync.Generator.Formatting.{first_existing}
use baresync.Generator.Writing.{
  is_warning, Source, paired, configured, raw, unpaired, paired_options, counted_errors,
  generate_sync_artifacts,
}
use baresync.Cli.Arguments.{
  GenerateCliOptions, is_unset, parse_generate_cli_args, parse_doctor_cli_args,
}
use baresync.Cli.Entries.{LoadedConfig, LoadedConfigEntry, resolve_loaded_config_entries}
use baresync.Cli.Commands.{
  Line, loaded, running, diagnosed, counted, Command, CommandError, generator_failed, after_lines,
  ends, ImportConfig, load_entries, with_meta,
}

abbrev pub is_info : SyncDiagnostic → Bool
is_info d = elim d.severity [ error ↦ false | warning ↦ false | info ↦ true ]

-- `printDiagnosticsReport`: its lines, and whether there is an error.
abbrev pub report_lines : String → List SyncDiagnostic → List Line
report_lines label ds =
    running (String.◌++◌ "diagnostics for " label)
    ∷ (map diagnosed ds
        ++ counted (length (keep is_error ds)) (length (keep is_warning ds))
            (length (keep is_info ds))
          ∷ [])

abbrev pub has_errors : List SyncDiagnostic → Bool
has_errors [] = false
has_errors (d ∷ errors) = true

-- `process.exitCode` stays 1 once it is set.
abbrev pub set_exit_code : Bool → Result CommandError Bool → Result CommandError Bool
set_exit_code failing (ok later) = ok (failing || later)
set_exit_code failing (throw failure) = throw failure

-- The report of one entry, and the command for those behind it.
abbrev pub report_then : String → Result GeneratorError (List SyncDiagnostic) → Command → Command
report_then label (throw failure) later = ends (throw (generator_failed failure))
report_then label (ok ds) later = record {
  lines = report_lines label ds ++ later.lines;
  outcome = set_exit_code (has_errors (keep is_error ds)) later.outcome;
}

-- `entry.contract!`: `undefined` in place of a contract is a TypeError in `runDiagnostics`.
abbrev pub diagnose_required : Option SyncContract → Result GeneratorError (List SyncDiagnostic)
diagnose_required none = throw no_contract
diagnose_required (some contract) = with_meta (run_diagnostics contract unpaired)

unfoldable pub diagnose_entry : Platform → Source → Result GeneratorError (List SyncDiagnostic)
unfolding build_paired_contract_from_paired_config run_diagnostics
diagnose_entry platform (paired config) = do
  build ← build_paired_contract_from_paired_config platform.import_schema config
  with_meta (run_diagnostics build.contract (paired_options build))
diagnose_entry platform (configured config) = diagnose_required config.contract
diagnose_entry platform (raw contract output_dir) = diagnose_required (some contract)

unfoldable pub report_each : Platform → List LoadedConfigEntry → Command
unfolding diagnose_entry
report_each platform [] = ends (ok false)
report_each platform (entry ∷ entries) =
    report_then entry.label (diagnose_entry platform entry.source) (report_each platform entries)

unfoldable pub doctor_loaded :
    Platform → Result CommandError (List LoadedConfigEntry × String) → Command
unfolding report_each
doctor_loaded platform (throw failure) = ends (throw failure)
doctor_loaded platform (ok (entries, path)) =
    after_lines (loaded path ∷ []) (report_each platform entries)

unfoldable pub run_doctor_command : Platform → ImportConfig → List String → Command
unfolding parse_doctor_cli_args load_entries doctor_loaded
run_doctor_command platform import_config args =
    doctor_loaded platform (load_entries platform import_config (parse_doctor_cli_args args) none)
