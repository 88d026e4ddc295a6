-- ===== src/Cli/Commands/Unread.antt =====
-- packages/baresync/src/cli/generator.ts: when `--warnings-as-errors` changes nothing.
use baresync.Prelude.{String, true, false, List, [], ◌∷◌, ◌≡◌, refl, All, ok}
use baresync.Generator.Platform.{Platform}
use baresync.Generator.Writing.{Source, paired, configured, raw}
use baresync.Cli.Arguments.{GenerateCliOptions, parse_generate_cli_args}
use baresync.Cli.Entries.{LoadedConfigEntry}
use baresync.Cli.Commands.{
  ImportConfig, load_entries, generate_entry, generate_entries, generate_loaded,
  run_generate_command,
}

-- A configuration, and no contract alone.
abbrev pub IsConfig : Source → Type 0
IsConfig (paired config) = Unit
IsConfig (configured config) = Unit
IsConfig (raw contract output_dir) = ⊥

generate_entry-unread :
    (platform : Platform) (source : Source)
    → IsConfig source
    → generate_entry platform true source ≡ generate_entry platform false source
unfolding generate_entry
generate_entry-unread platform (paired config) h = refl
generate_entry-unread platform (configured config) h = refl
generate_entry-unread platform (raw contract output_dir) h = absurd h

generate_entries-unread :
    (platform : Platform) (entries : List LoadedConfigEntry)
    → All (λ entry. IsConfig entry.source) entries
    → generate_entries platform true entries ≡ generate_entries platform false entries
unfolding generate_entries
generate_entries-unread platform [] h = refl
generate_entries-unread platform (entry ∷ entries) h =
    rw
      (
        generate_entry-unread platform entry.source h.0,
        generate_entries-unread platform entries h.1,
      )
      refl

generate_loaded-unread :
    (platform : Platform) (options : GenerateCliOptions) (entries : List LoadedConfigEntry)
    (path : String)
    → options.check ≡ false
    → options.warnings_as_errors ≡ false
    → All (λ entry. IsConfig entry.source) entries
    → generate_loaded platform (record options { warnings_as_errors = true }) (ok (entries, path))
      ≡ generate_loaded platform options (ok (entries, path))
unfolding generate_loaded
generate_loaded-unread platform options entries path check quiet h =
    rw (check, quiet, generate_entries-unread platform entries h) refl

-- Without `--check`, `--warnings-as-errors` is not read where every entry is a configuration: with
-- arguments that differ in it alone, `generate` does and prints the same and ends in the same way,
-- whatever warnings there are.
pub run_generate_command-unread :
    (platform : Platform) (import_config : ImportConfig) (args with_flag : List String)
    (entries : List LoadedConfigEntry) (path : String)
    → parse_generate_cli_args with_flag
      ≡ record (parse_generate_cli_args args) { warnings_as_errors = true }
    → (parse_generate_cli_args args).check ≡ false
    → (parse_generate_cli_args args).warnings_as_errors ≡ false
    → load_entries platform import_config
        (parse_generate_cli_args args).config_path
        (parse_generate_cli_args args).output_dir
      ≡ ok (entries, path)
    → All (λ entry. IsConfig entry.source) entries
    → run_generate_command platform import_config with_flag
      ≡ run_generate_command platform import_config args
unfolding run_generate_command
run_generate_command-unread platform import_config args with_flag entries path same check quiet
      found h =
    rw (same, found)
      (generate_loaded-unread platform (parse_generate_cli_args args) entries path check quiet h)
