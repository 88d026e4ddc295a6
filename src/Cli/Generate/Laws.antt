-- ===== src/Cli/Generate/Laws.antt =====
-- packages/baresync/src/cli/generator.ts: the check of `runGenerate` is that of the command.
use mathlib.Core.List.{append-nil}
use baresync.Prelude.{
  String, true, false, Option, some, List, [], ◌∷◌, ◌++◌, ◌≡◌, refl, sym, ap, ◌∙◌, inl, inr,
  Bool-cases, ◌==◌, if◌then◌else◌, Result, ok, throw, ◌>>=◌,
}
use baresync.Diagnostics.{SyncDiagnostic}
use baresync.Diagnostics.Run.{run_diagnostics}
use baresync.Contract.{SyncContract}
use baresync.Generator.{
  PairedSyncGeneratorConfig, GeneratorError, PairedContractBuild,
  build_paired_contract_from_paired_config,
}
use baresync.Generator.Platform.{Platform}
use baresync.Generator.Writing.{paired, configured, raw, paired_options, unpaired, counted_errors}
use baresync.Cli.Entries.{
  Export, is_paired_config, is_generator_config, LoadedConfigEntry, overridden,
}
use baresync.Cli.Commands.{
  with_meta, diagnose_contract, diagnose, diagnose_each, refuse_errors, check_entries, of_generator,
}
use baresync.Cli.Generate.{
  LegacyModule, by_value, GenerateOptions, ends_check, throw_if_diagnostic_errors, check_paired,
  generate_contract, generate_given, run_generate,
}

-- The entry that the command line makes of the same value, where it passes one of the type guards.
unfoldable pub entry_of : (label key : String) → Export → LoadedConfigEntry
unfolding is_paired_config is_generator_config
entry_of label key value = record {
  key = key;
  label = label;
  source =
      if is_paired_config value
      then paired value.paired_config
      else (if is_generator_config value
          then configured value.generator_config
          else raw value.contract key);
}

abbrev refused : List SyncDiagnostic → Result GeneratorError (Unit {0})
refused ds = refuse_errors ds (counted_errors false ds)

refused-alone :
    (diagnosed : Result GeneratorError (List SyncDiagnostic))
    → (diagnosed >>= refused)
      ≡ ((diagnosed >>= λ ds. ok [] >>= λ later. ok (ds ++ later)) >>= refused)
refused-alone (ok ds) = ap refused (sym (append-nil ds))
refused-alone (throw failure) = refl

generate_contract-check :
    (platform : Platform) (contract : SyncContract) (output_dir : String)
    (options : GenerateOptions)
    → options.check ≡ true
    → generate_contract platform (some contract) output_dir options
      ≡ ends_check (of_generator (with_meta (run_diagnostics contract unpaired) >>= refused))
unfolding generate_contract throw_if_diagnostic_errors
generate_contract-check platform contract output_dir options check =
    elim (Bool-cases (output_dir == "")) [
      | inl empty ↦ rw (empty, check) refl
      | inr given ↦ rw (given, check) refl
    ]

paired-alone :
    (built : Result GeneratorError PairedContractBuild)
    (diagnosed : PairedContractBuild → Result GeneratorError (List SyncDiagnostic))
    → (built >>= λ build. diagnosed build >>= refused) ≡ ((built >>= diagnosed) >>= refused)
paired-alone (ok build) diagnosed = refl
paired-alone (throw failure) diagnosed = refl

check_paired-alone :
    (platform : Platform) (config : PairedSyncGeneratorConfig) (label key : String)
    → ends_check (check_paired platform config)
      ≡ ends_check (
          of_generator (
            check_entries platform false
              (record { key = key; label = label; source = paired config } ∷ [])))
unfolding check_paired check_entries diagnose_each diagnose
check_paired-alone platform config label key =
    let build = build_paired_contract_from_paired_config platform.import_schema config in
    let diagnosed =
      λ (b : PairedContractBuild). with_meta (run_diagnostics b.contract (paired_options b)) in
    ap (λ r. ends_check (of_generator r))
      (paired-alone build diagnosed ∙ refused-alone (build >>= diagnosed))

check_contract-alone :
    (platform : Platform) (contract : SyncContract) (entry : LoadedConfigEntry)
    → diagnose platform entry.source ≡ with_meta (run_diagnostics contract unpaired)
    → ends_check (of_generator (with_meta (run_diagnostics contract unpaired) >>= refused))
      ≡ ends_check (of_generator (check_entries platform false (entry ∷ [])))
unfolding check_entries diagnose_each
check_contract-alone platform contract entry same = rw same (
    ap (λ r. ends_check (of_generator r))
      (refused-alone (with_meta (run_diagnostics contract unpaired))))

-- A check by `runGenerate` of a value does nothing and ends as the check of the command line does for
-- an entry of the same value and without `--warnings-as-errors`, whatever directory and options are
-- given. A value that passes the guard of a configuration has a contract in its field.
pub run_generate-check_entries :
    (platform : Platform) (import_legacy : String → Option LegacyModule) (value : Export)
    (output_dir : Option String) (options : GenerateOptions) (label key : String)
    → options.check ≡ true
    → (is_paired_config value ≡ false
        → is_generator_config value ≡ true
        → (contract : SyncContract) × (value.generator_config.contract ≡ some contract))
    → run_generate platform import_legacy (by_value value) output_dir options
      ≡ ends_check (of_generator (check_entries platform false (entry_of label key value ∷ [])))
unfolding run_generate generate_given diagnose entry_of
run_generate-check_entries platform import_legacy value output_dir options label key check given =
    elim (Bool-cases (is_paired_config value)) [
      | inl is_paired ↦
          rw (is_paired, check) (check_paired-alone platform value.paired_config label key)
      | inr unpaired_value ↦ elim (Bool-cases (is_generator_config value)) [
        | inl is_generator ↦
            let (contract, there) = given unpaired_value is_generator in
            rw (unpaired_value, is_generator)
              (ap
                  (λ c.
                    generate_contract platform c
                      (overridden output_dir value.generator_config.output_dir) options)
                  there
                ∙ generate_contract-check platform contract
                    (overridden output_dir value.generator_config.output_dir) options check
                ∙ check_contract-alone platform contract _ (ap diagnose_contract there))
        | inr is_contract ↦
            rw (unpaired_value, is_contract)
              (generate_contract-check platform value.contract (overridden output_dir "./generated")
                  options check
                ∙ check_contract-alone platform value.contract _ refl)
      ]
    ]
