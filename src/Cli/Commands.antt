-- ===== src/Cli/Commands.antt =====
-- packages/baresync/src/cli/generator.ts: the command `generate`, and what `doctor` shares with it. What
-- a command prints is a list of lines without the texts of diagnostics; what the generator does stands
-- among the lines.
pub mod Checked
pub mod Unread
mod Tests
use Prim.Native.String
use baresync.Prelude.{
  ℕ, String, Bool, true, false, not, ◌&&◌, ◌||◌, Option, none, some, List, [], ◌∷◌, ◌++◌, map, ◌==◌,
  if◌then◌else◌, length, keep, any, Result, ok, throw, ◌>>=◌,
}
use baresync.Contract.{SyncContract}
use baresync.Diagnostics.{SyncDiagnostic, Severity, error, warning, info}
use baresync.Diagnostics.Emitted.{is_error}
use baresync.Diagnostics.Run.{NoMeta, DiagnosticOptions, run_diagnostics}
use baresync.Generator.{
  GeneratorConfig, PairedSyncGeneratorConfig, PairedContractBuild, GeneratorError, unmatched_meta,
  diagnostics_failed, build_paired_contract_from_paired_config,
}
use baresync.Generator.Platform.{Platform, Action, Run}
use baresync.Generator.Formatting.{first_existing}
use baresync.Generator.Writing.{
  is_warning, Source, paired, configured, raw, unpaired, paired_options, counted_errors,
  generate_sync_artifacts,
}
use baresync.Cli.Arguments.{
  GenerateCliOptions, is_unset, parse_generate_cli_args, parse_doctor_cli_args,
}
use baresync.Cli.Entries.{LoadedConfig, LoadedConfigEntry, resolve_loaded_config_entries}

pub data CommandError : Type 0 where
  no_config_found : CommandError
  not_imported : (path : String) → CommandError
  no_export : (path : String) → CommandError
  no_output_directory : CommandError
  generator_failed : GeneratorError → CommandError

pub data Line : Type 0 where
  loaded : (path : String) → Line
  running : (label : String) → Line
  validated : (count : ℕ) (path : String) → Line
  did : Action → Line
  diagnosed : SyncDiagnostic → Line
  counted : (errors warnings infos : ℕ) → Line

-- A command throws, or returns whether it has set the exit code to 1.
pub record Command : Type 0 where
  pub lines : List Line
  pub outcome : Result CommandError Bool

abbrev pub after_lines : List Line → Command → Command
after_lines lines command = record { lines = lines ++ command.lines; outcome = command.outcome }

abbrev pub ends : Result CommandError Bool → Command
ends outcome = record { lines = []; outcome = outcome }

-- `handleGenerate`, and `runCli` for `doctor`: an error sets the exit code to 1.
abbrev pub exit_code : Result CommandError Bool → ℕ
exit_code (ok false) = 0
exit_code (ok true) = 1
exit_code (throw failure) = 1

abbrev pub config_filenames : List String
config_filenames = "sync.config.ts" ∷ "sync.config.mts" ∷ "sync.config.js" ∷ "sync.config.mjs" ∷ []

-- A path that is the empty text counts as no path.
abbrev pub path_or : Option String → (String → String) → Option String → Option String
path_or none resolve otherwise = otherwise
path_or (some path) resolve otherwise = if path == "" then otherwise else some (resolve path)

unfoldable pub resolve_config_path : Platform → Option String → Option String
unfolding first_existing
resolve_config_path platform config_path =
    path_or config_path platform.resolve (first_existing platform config_filenames platform.cwd)

-- `import(path)`, which throws where it gives `none`.
abbrev pub ImportConfig : Type 0
ImportConfig = String → Option LoadedConfig

abbrev pub imported : ImportConfig → Option String → Result CommandError (LoadedConfig × String)
imported import_config none = throw no_config_found
imported import_config (some path) = elim (import_config path) [
  | none ↦ throw (not_imported path)
  | some config_module ↦ ok (config_module, path)
]

abbrev pub found_entries :
    String → Option (List LoadedConfigEntry) → Result CommandError (List LoadedConfigEntry)
found_entries path none = throw (no_export path)
found_entries path (some entries) = ok entries

-- The module's entries and its path.
unfoldable pub load_entries :
    Platform
    → ImportConfig
    → (config_path output_dir : Option String)
    → Result CommandError (List LoadedConfigEntry × String)
unfolding resolve_config_path resolve_loaded_config_entries
load_entries platform import_config config_path output_dir = do
  resolved ← imported import_config (resolve_config_path platform config_path)
  entries ← found_entries resolved.1 (resolve_loaded_config_entries resolved.0 output_dir)
  ok (entries, resolved.1)

abbrev pub of_generator {ℓ} : {A : Type ℓ} → Result GeneratorError A → Result CommandError A
of_generator (ok a) = ok a
of_generator (throw failure) = throw (generator_failed failure)

abbrev pub with_meta :
    Result NoMeta (List SyncDiagnostic) → Result GeneratorError (List SyncDiagnostic)
with_meta (ok ds) = ok ds
with_meta (throw thrown) = throw unmatched_meta

-- `else if (entry.contract)`: an entry without a contract is passed over.
abbrev pub diagnose_contract : Option SyncContract → Result GeneratorError (List SyncDiagnostic)
diagnose_contract none = ok []
diagnose_contract (some contract) = with_meta (run_diagnostics contract unpaired)

-- An entry in the loop of `--check`, with the contract of a paired configuration built first.
unfoldable pub diagnose : Platform → Source → Result GeneratorError (List SyncDiagnostic)
unfolding build_paired_contract_from_paired_config run_diagnostics
diagnose platform (paired config) = do
  build ← build_paired_contract_from_paired_config platform.import_schema config
  with_meta (run_diagnostics build.contract (paired_options build))
diagnose platform (configured config) = diagnose_contract config.contract
diagnose platform (raw contract output_dir) = with_meta (run_diagnostics contract unpaired)

-- The loop of `--check`.
unfoldable pub diagnose_each :
    Platform → List LoadedConfigEntry → Result GeneratorError (List SyncDiagnostic)
unfolding diagnose
diagnose_each platform [] = ok []
diagnose_each platform (entry ∷ entries) = do
  ds ← diagnose platform entry.source
  later ← diagnose_each platform entries
  ok (ds ++ later)

-- `if (errors.length > 0)`
abbrev pub refuse_errors :
    List SyncDiagnostic → List SyncDiagnostic → Result GeneratorError (Unit {0})
refuse_errors ds [] = ok tt
refuse_errors ds (d ∷ errors) = throw (diagnostics_failed ds)

unfoldable pub check_entries :
    Platform
    → (warnings_as_errors : Bool) → List LoadedConfigEntry
    → Result GeneratorError (Unit {0})
unfolding diagnose_each
check_entries platform warnings_as_errors entries = do
  ds ← diagnose_each platform entries
  refuse_errors ds (counted_errors warnings_as_errors ds)

-- The line that follows on a check that passes.
abbrev pub when_checked : (count : ℕ) (path : String) → Result GeneratorError (Unit {0}) → Command
when_checked count path (ok done) = record { lines = validated count path ∷ []; outcome = ok false }
when_checked count path (throw failure) = ends (throw (generator_failed failure))

-- What `generate` calls for an entry: the options are given on for a contract only.
unfoldable pub generate_entry : Platform → (warnings_as_errors : Bool) → Source → Run
unfolding generate_sync_artifacts
generate_entry platform warnings_as_errors (paired config) =
    generate_sync_artifacts platform (paired config) false
generate_entry platform warnings_as_errors (configured config) =
    generate_sync_artifacts platform (configured config) false
generate_entry platform warnings_as_errors (raw contract output_dir) =
    generate_sync_artifacts platform (raw contract output_dir) warnings_as_errors

-- The next entry, unless the generation has thrown.
abbrev pub unless_failed : Result GeneratorError (Unit {0}) → Command → Command
unless_failed (ok done) next = next
unless_failed (throw failure) next = ends (throw (generator_failed failure))

unfoldable pub generate_entries :
    Platform → (warnings_as_errors : Bool) → List LoadedConfigEntry → Command
unfolding generate_entry
generate_entries platform warnings_as_errors [] = ends (ok false)
generate_entries platform warnings_as_errors (entry ∷ entries) =
    let run = generate_entry platform warnings_as_errors entry.source in
    after_lines (running entry.label ∷ map did run.actions)
      (unless_failed run.outcome (generate_entries platform warnings_as_errors entries))

-- What `generate` does with the entries.
unfoldable pub generate_loaded :
    Platform → GenerateCliOptions → Result CommandError (List LoadedConfigEntry × String) → Command
unfolding check_entries generate_entries
generate_loaded platform options (throw failure) = ends (throw failure)
generate_loaded platform options (ok (entries, path)) = after_lines (loaded path ∷ []) (
    if options.check
    then when_checked (length entries) path
        (check_entries platform options.warnings_as_errors entries)
    else generate_entries platform options.warnings_as_errors entries)

unfoldable pub run_generate_command : Platform → ImportConfig → List String → Command
unfolding parse_generate_cli_args load_entries generate_loaded
run_generate_command platform import_config args =
    let options = parse_generate_cli_args args in
    generate_loaded platform options
      (load_entries platform import_config options.config_path options.output_dir)
