-- ===== src/Cli/Arguments/Laws.antt =====
-- packages/baresync/src/cli/generator.ts: what the arguments say.
use baresync.Prelude.{
  String, Bool, true, false, Option, none, some, List, [], ◌∷◌, ◌++◌, ◌≡◌, refl, sym, ◌∙◌, ap,
  arith, ◌==◌, eq_iff, inl, inr, Bool-cases, All,
}
use baresync.Texts.{rest_after}
use baresync.Cli.Arguments.{
  GenerateCliOptions, no_options, path_of, takes_output, takes_config, read_argument, read_generate,
  parse_generate_cli_args, read_doctor, parse_doctor_cli_args,
}

-- Arguments that say what options say.
abbrev check_arguments : Bool → List String
check_arguments true = "--check" ∷ []
check_arguments false = []

abbrev warning_arguments : Bool → List String
warning_arguments true = "--warnings-as-errors" ∷ []
warning_arguments false = []

abbrev value_arguments : String → Option String → List String
value_arguments name none = []
value_arguments name (some value) = name ∷ value ∷ []

abbrev pub arguments_of : GenerateCliOptions → List String
arguments_of options =
    check_arguments options.check
    ++ (warning_arguments options.warnings_as_errors
        ++ (value_arguments "--output" options.output_dir
            ++ value_arguments "--config" options.config_path))

read_check :
    (check : Bool) (rest : List String)
    → read_generate (check_arguments check ++ rest) no_options
      ≡ read_generate rest (record no_options { check = check })
unfolding read_generate
read_check true [] = refl
read_check true (arg ∷ rest) = refl
read_check false rest = refl

read_warnings :
    (check warnings : Bool) (rest : List String)
    → read_generate (warning_arguments warnings ++ rest) (record no_options { check = check })
      ≡ read_generate rest (record no_options { check = check; warnings_as_errors = warnings })
unfolding read_generate
read_warnings check true [] = refl
read_warnings check true (arg ∷ rest) = refl
read_warnings check false rest = refl

read_values :
    (check warnings : Bool) (output_dir config_path : Option String)
    → read_generate
        (value_arguments "--output" output_dir ++ value_arguments "--config" config_path)
        (record no_options { check = check; warnings_as_errors = warnings })
      ≡ record {
        check = check;
        config_path = config_path;
        output_dir = output_dir;
        warnings_as_errors = warnings;
      }
unfolding read_generate
read_values check warnings none none = refl
read_values check warnings none (some path) = refl
read_values check warnings (some dir) none = refl
read_values check warnings (some dir) (some path) = refl

-- Whatever the options are, even a path or directory that looks like a flag, there are arguments
-- that are read back as them.
pub parse_generate_cli_args-arguments_of :
    (options : GenerateCliOptions) → parse_generate_cli_args (arguments_of options) ≡ options
unfolding parse_generate_cli_args
parse_generate_cli_args-arguments_of o =
    read_check o.check _
    ∙ read_warnings o.check o.warnings_as_errors _
    ∙ read_values o.check o.warnings_as_errors o.output_dir o.config_path

path-read_argument :
    (arg : String) (options : GenerateCliOptions)
    → (read_argument arg options).config_path ≡ path_of arg options.config_path
unfolding rest_after
path-read_argument arg options = elim (Bool-cases (arg == "--check")) [
  | inl same ↦ let e : arg ≡ "--check" = ground (arith, eq_iff arg "--check") in rw e (ground arith)
  | inr other ↦ elim (Bool-cases (arg == "--warnings-as-errors")) [
    | inl same ↦
        let e : arg ≡ "--warnings-as-errors" = ground (arith, eq_iff arg "--warnings-as-errors") in
        rw e (ground arith)
    | inr neither ↦ rw (other, neither) refl
  ]
]

read_doctor-read_generate :
    (args : List String) (options : GenerateCliOptions)
    → All (λ arg. takes_output arg ≡ false) args
    → read_doctor args options.config_path ≡ (read_generate args options).config_path
unfolding read_doctor read_generate
read_doctor-read_generate [] options h = refl
read_doctor-read_generate (arg ∷ []) options h = elim (Bool-cases (takes_config arg)) [
  | inl here ↦ rw (h.0, here) refl
  | inr other ↦ rw (h.0, other) (sym (path-read_argument arg options))
]
read_doctor-read_generate (arg ∷ next ∷ args) options h = elim (Bool-cases (takes_config arg)) [
  | inl here ↦
      rw (h.0, here)
        (read_doctor-read_generate args (record options { config_path = some next }) h.1.1)
  | inr other ↦
      rw (h.0, other)
        (ap (read_doctor (next ∷ args)) (sym (path-read_argument arg options))
          ∙ read_doctor-read_generate (next ∷ args) (read_argument arg options) h.1)
]

-- On arguments among which there is no `--output` and no `-o`, `doctor` reads the same path of the
-- configuration as `generate`.
pub parse_doctor_cli_args-parse_generate_cli_args :
    (args : List String)
    → All (λ arg. takes_output arg ≡ false) args
    → parse_doctor_cli_args args ≡ (parse_generate_cli_args args).config_path
unfolding parse_doctor_cli_args parse_generate_cli_args
parse_doctor_cli_args-parse_generate_cli_args args h = read_doctor-read_generate args no_options h
