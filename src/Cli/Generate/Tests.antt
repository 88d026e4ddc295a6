-- ===== src/Cli/Generate/Tests.antt =====
-- packages/baresync/src/cli/generator.ts, `runGenerate` on a configuration of one table.
use baresync.Prelude.{true, false, none, some, [], ◌∷◌, ◌≡◌, refl}
use baresync.Generator.Examples.{config, platform, build}
use baresync.Cli.Entries.{Export}
use baresync.Cli.Commands.{of_generator, check_entries}
use baresync.Cli.Generate.{GenerateOptions, by_value, ends_check, run_generate}
use baresync.Cli.Generate.Laws.{entry_of, run_generate-check_entries}

abbrev value : Export
value = record {
  is_object = true;
  fields = "contract" ∷ "outputDir" ∷ [];
  tables_is_array = false;
  tables_meta_is_array = false;
  limits_is_object = false;
  paired_config = config;
  generator_config = record { contract = some build.contract; output_dir = "out" };
  contract = build.contract;
}

abbrev options : GenerateOptions
options = record { check = true; warnings_as_errors = true }

run_generate-check_entries_example :
    run_generate (platform none) (λ path. none) (by_value value) (some "elsewhere") options
    ≡ ends_check
        (of_generator (check_entries (platform none) false (entry_of "config" "out" value ∷ [])))
run_generate-check_entries_example =
    run_generate-check_entries (platform none) (λ path. none) value (some "elsewhere") options
      "config" "out" refl (λ unpaired_value is_generator. (build.contract, refl))
