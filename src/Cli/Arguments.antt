-- ===== src/Cli/Arguments.antt =====
-- packages/baresync/src/cli/generator.ts, `parseGenerateCliArgs` and `parseDoctorCliArgs`. An option
-- that is not set is `false` or `none`.
pub mod Laws
mod Tests
use baresync.Prelude.{
  String, Bool, true, false, not, ◌&&◌, ◌||◌, Option, none, some, List, [], ◌∷◌, ◌==◌,
  if◌then◌else◌,
}
use baresync.Texts.{rest_after, same}

pub record GenerateCliOptions : Type 0 where
  pub check : Bool
  pub config_path : Option String
  pub output_dir : Option String
  pub warnings_as_errors : Bool

abbrev pub no_options : GenerateCliOptions
no_options = record {
  check = false;
  config_path = none;
  output_dir = none;
  warnings_as_errors = false;
}

-- `!text`: a text that is absent or empty.
abbrev pub is_unset : Option String → Bool
is_unset none = true
is_unset (some text) = text == ""

abbrev pub is_some : Option String → Bool
is_some none = false
is_some (some text) = true

-- `arg.startsWith("-")`
abbrev pub is_flag : String → Bool
is_flag arg = is_some (rest_after same "-" arg)

-- The last two tests: `--config=…`, and an argument that is no flag where no path is set.
abbrev pub path_of : String → Option String → Option String
path_of arg config_path = elim (rest_after same "--config=" arg) [
  | some path ↦ some path
  | none ↦ if is_unset config_path && not (is_flag arg) then some arg else config_path
]

abbrev pub takes_output : String → Bool
takes_output arg = arg == "--output" || arg == "-o"

abbrev pub takes_config : String → Bool
takes_config arg = arg == "--config"

-- An argument that takes no value from the next one.
abbrev pub read_argument : String → GenerateCliOptions → GenerateCliOptions
read_argument arg options =
    if arg == "--check"
    then record options { check = true }
    else (if arg == "--warnings-as-errors"
        then record options { warnings_as_errors = true }
        else record options { config_path = path_of arg options.config_path })

-- The loop. A value that is missing at the end is `undefined`.
unfoldable pub read_generate : List String → GenerateCliOptions → GenerateCliOptions
unfolding rest_after
read_generate [] options = options
read_generate (arg ∷ []) options =
    if takes_output arg
    then record options { output_dir = none }
    else (if takes_config arg
        then record options { config_path = none }
        else read_argument arg options)
read_generate (arg ∷ next ∷ args) options =
    let with_output = read_generate args (record options { output_dir = some next }) in
    let with_config = read_generate args (record options { config_path = some next }) in
    let onward = read_generate (next ∷ args) (read_argument arg options) in
    if takes_output arg then with_output else (if takes_config arg then with_config else onward)

unfoldable pub parse_generate_cli_args : List String → GenerateCliOptions
unfolding read_generate
parse_generate_cli_args args = read_generate args no_options

unfoldable pub read_doctor : List String → Option String → Option String
unfolding rest_after
read_doctor [] config_path = config_path
read_doctor (arg ∷ []) config_path = if takes_config arg then none else path_of arg config_path
read_doctor (arg ∷ next ∷ args) config_path =
    let with_config = read_doctor args (some next) in
    let onward = read_doctor (next ∷ args) (path_of arg config_path) in
    if takes_config arg then with_config else onward

unfoldable pub parse_doctor_cli_args : List String → Option String
unfolding read_doctor
parse_doctor_cli_args args = read_doctor args none
