-- ===== src/Cli/Arguments/Tests.antt =====
-- packages/baresync/src/cli/generator.ts: a few lines of arguments.
use baresync.Prelude.{String, true, false, some, List, [], ◌∷◌, ◌≡◌, refl}
use baresync.Cli.Arguments.{GenerateCliOptions, parse_generate_cli_args, parse_doctor_cli_args}
use baresync.Cli.Arguments.Laws.{parse_generate_cli_args-arguments_of}

abbrev line : List String
line = "sync.config.ts" ∷ "--check" ∷ "--config=other.ts" ∷ "ignored.ts" ∷ []

abbrev options : GenerateCliOptions
options = record {
  check = true;
  config_path = some "other.ts";
  output_dir = some "-o";
  warnings_as_errors = false;
}

read_line : (parse_generate_cli_args line).config_path ≡ some "other.ts"
unfolding parse_generate_cli_args
read_line = refl

-- `doctor` takes the value of an option that it does not know for the path.
read_output : parse_doctor_cli_args ("--output" ∷ "out" ∷ []) ≡ some "out"
unfolding parse_doctor_cli_args
read_output = refl

parse_generate_cli_args-arguments_of_example :
    parse_generate_cli_args ("--check" ∷ "--output" ∷ "-o" ∷ "--config" ∷ "other.ts" ∷ []) ≡ options
parse_generate_cli_args-arguments_of_example = parse_generate_cli_args-arguments_of options
