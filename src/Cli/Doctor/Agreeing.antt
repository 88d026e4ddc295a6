-- ===== src/Cli/Doctor/Agreeing.antt =====
-- packages/baresync/src/cli/generator.ts: `generate --check` and `doctor` agree.
use mathlib.Core.List.{append-nil}
use baresync.Prelude.{
  ℕ, String, Bool, true, false, none, some, List, [], ◌∷◌, ◌++◌, ◌≡◌, refl, sym, ap, ◌∙◌, inl, inr,
  ◌==◌, Bool-cases, length, keep, any, any-append, All, Result, ok, throw, ◌>>=◌,
}
use baresync.Diagnostics.{SyncDiagnostic}
use baresync.Diagnostics.Emitted.{is_error}
use baresync.Generator.{GeneratorError}
use baresync.Generator.Platform.{Platform}
use baresync.Generator.Writing.{Source, paired, configured, raw, counted_errors}
use baresync.Cli.Arguments.{
  GenerateCliOptions, no_options, takes_output, takes_config, read_argument, read_generate,
  parse_generate_cli_args,
}
use baresync.Cli.Arguments.Laws.{parse_doctor_cli_args-parse_generate_cli_args}
use baresync.Cli.Entries.{LoadedConfigEntry, HasContract}
use baresync.Cli.Commands.{
  CommandError, generator_failed, Command, exit_code, ImportConfig, load_entries, diagnose,
  diagnose_each, refuse_errors, check_entries, when_checked, generate_loaded, run_generate_command,
}
use baresync.Cli.Doctor.{
  has_errors, report_then, diagnose_entry, report_each, doctor_loaded, run_doctor_command,
}

-- Whether there is an error, or what was thrown.
abbrev verdict : Result GeneratorError (List SyncDiagnostic) → Result CommandError Bool
verdict (ok ds) = ok (any is_error ds)
verdict (throw failure) = throw (generator_failed failure)

has_errors-keep : (ds : List SyncDiagnostic) → has_errors (keep is_error ds) ≡ any is_error ds
has_errors-keep [] = refl
has_errors-keep (d ∷ ds) = elim (Bool-cases (is_error d)) [
  | inl here ↦ rw here refl
  | inr other ↦ rw other (has_errors-keep ds)
]

report_then-verdict :
    (label : String) (first later : Result GeneratorError (List SyncDiagnostic)) (command : Command)
    → command.outcome ≡ verdict later
    → (report_then label first command).outcome
      ≡ verdict (first >>= λ ds. later >>= λ rest. ok (ds ++ rest))
report_then-verdict label (throw failure) later command h = refl
report_then-verdict label (ok ds) (throw failure) command h = rw h refl
report_then-verdict label (ok ds) (ok rest) command h =
    rw (h, has_errors-keep ds, any-append is_error ds rest) refl

diagnose_entry-diagnose :
    (platform : Platform) (source : Source)
    → HasContract source
    → diagnose_entry platform source ≡ diagnose platform source
unfolding diagnose_entry diagnose
diagnose_entry-diagnose platform (paired config) h = refl
diagnose_entry-diagnose platform (configured config) (contract, there) = rw there refl
diagnose_entry-diagnose platform (raw contract output_dir) h = refl

report_each-verdict :
    (platform : Platform) (entries : List LoadedConfigEntry)
    → All (λ entry. HasContract entry.source) entries
    → (report_each platform entries).outcome ≡ verdict (diagnose_each platform entries)
unfolding report_each diagnose_each
report_each-verdict platform [] h = refl
report_each-verdict platform (entry ∷ entries) h =
    rw (diagnose_entry-diagnose platform entry.source h.0) (
      report_then-verdict entry.label (diagnose platform entry.source)
        (diagnose_each platform entries) (report_each platform entries)
        (report_each-verdict platform entries h.1))

refuse_errors-verdict :
    (count : ℕ) (path : String) (ds errors : List SyncDiagnostic)
    → has_errors errors ≡ any is_error ds
    → exit_code (when_checked count path (refuse_errors ds errors)).outcome
      ≡ exit_code (ok (any is_error ds))
refuse_errors-verdict count path ds [] h = rw (← h) refl
refuse_errors-verdict count path ds (d ∷ errors) h = rw (← h) refl

checked-verdict :
    (count : ℕ) (path : String) (diagnosed : Result GeneratorError (List SyncDiagnostic))
    → exit_code
        (when_checked count path
          (diagnosed >>= λ ds. refuse_errors ds (counted_errors false ds))).outcome
      ≡ exit_code (verdict diagnosed)
checked-verdict count path (throw failure) = refl
checked-verdict count path (ok ds) =
    refuse_errors-verdict count path ds (counted_errors false ds)
      (ap has_errors (append-nil (keep is_error ds)) ∙ has_errors-keep ds)

output-read_argument :
    (arg : String) (options : GenerateCliOptions)
    → (read_argument arg options).output_dir ≡ options.output_dir
output-read_argument arg options = elim (Bool-cases (arg == "--check")) [
  | inl here ↦ rw here refl
  | inr other ↦ elim (Bool-cases (arg == "--warnings-as-errors")) [
    | inl here ↦ rw (other, here) refl
    | inr neither ↦ rw (other, neither) refl
  ]
]

output-read_generate :
    (args : List String) (options : GenerateCliOptions)
    → All (λ arg. takes_output arg ≡ false) args
    → (read_generate args options).output_dir ≡ options.output_dir
unfolding read_generate
output-read_generate [] options h = refl
output-read_generate (arg ∷ []) options h = elim (Bool-cases (takes_config arg)) [
  | inl here ↦ rw (h.0, here) refl
  | inr other ↦ rw (h.0, other) (output-read_argument arg options)
]
output-read_generate (arg ∷ next ∷ args) options h = elim (Bool-cases (takes_config arg)) [
  | inl here ↦
      rw (h.0, here) (output-read_generate args (record options { config_path = some next }) h.1.1)
  | inr other ↦
      rw (h.0, other)
        (output-read_generate (next ∷ args) (read_argument arg options) h.1
          ∙ output-read_argument arg options)
]

loaded-verdict :
    (platform : Platform) (options : GenerateCliOptions)
    (loaded : Result CommandError (List LoadedConfigEntry × String))
    → options.check ≡ true
    → options.warnings_as_errors ≡ false
    → ((entries : List LoadedConfigEntry) (path : String)
        → loaded ≡ ok (entries, path)
        → All (λ entry. HasContract entry.source) entries)
    → exit_code (generate_loaded platform options loaded).outcome
      ≡ exit_code (doctor_loaded platform loaded).outcome
unfolding generate_loaded doctor_loaded check_entries
loaded-verdict platform options (throw failure) check quiet h = refl
loaded-verdict platform options (ok (entries, path)) check quiet h =
    rw (check, quiet)
      (checked-verdict (length entries) path (diagnose_each platform entries)
        ∙ ap exit_code (sym (report_each-verdict platform entries (h entries path refl))))

-- On arguments among which there is no `--output` and no `-o`, and which ask for `--check` and not
-- for `--warnings-as-errors`, `generate` ends with the exit code with which `doctor` ends, both failing
-- or both passing, where no configuration that is loaded has the field `contract` without a contract.
pub run_generate_command-run_doctor_command :
    (platform : Platform) (import_config : ImportConfig) (args : List String)
    → All (λ arg. takes_output arg ≡ false) args
    → (parse_generate_cli_args args).check ≡ true
    → (parse_generate_cli_args args).warnings_as_errors ≡ false
    → ((entries : List LoadedConfigEntry) (path : String)
        → load_entries platform import_config (parse_generate_cli_args args).config_path none
          ≡ ok (entries, path)
        → All (λ entry. HasContract entry.source) entries)
    → exit_code (run_generate_command platform import_config args).outcome
      ≡ exit_code (run_doctor_command platform import_config args).outcome
unfolding run_generate_command run_doctor_command parse_generate_cli_args
run_generate_command-run_doctor_command platform import_config args h check quiet contracts =
    let options = parse_generate_cli_args args in
    rw
      (parse_doctor_cli_args-parse_generate_cli_args args h, output-read_generate args no_options h)
      (loaded-verdict platform options
        (load_entries platform import_config options.config_path none) check quiet contracts)
