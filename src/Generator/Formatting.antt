-- ===== src/Generator/Formatting.antt =====
-- packages/baresync/src/generator/formatter.ts: which formatter is run over the written files. The
-- search of a directory and its parents recurses on fuel. What a formatter prints is left out.
pub mod Searching
pub mod Failing
use baresync.Prelude.{
  ℕ, zero, suc, String, Bool, true, false, ◌||◌, Option, none, some, List, [], ◌∷◌, ◌++◌, ◌==◌,
  ◌=?◌, if◌then◌else◌, ok, throw,
}
use Prim.Native.String
use Prim.Native.String.{[], ◌∷◌}
use baresync.Texts.{rest_after, same, text_length}
use baresync.Generator.{GeneratorError, not_formatted, out_of_fuel}
use baresync.Generator.Platform.{
  Spawned, Platform, Run, Action, ran, returned, failed, after, then_run,
}

abbrev pub biome_config_names : List String
biome_config_names = "biome.json" ∷ "biome.jsonc" ∷ "biome.json5" ∷ []

abbrev pub oxfmt_config_names : List String
oxfmt_config_names = ".oxlintrc.json" ∷ "oxlint.json" ∷ "oxlint.config.json" ∷ []

pub data Search : Type 0 where
  found : (path : String) → Search
  nowhere : Search
  unfinished : Search

-- `while (true)`: the first answer in the directory or a parent of it, up to one that is its own.
unfoldable pub walk_up : (String → Option String) → (String → String) → ℕ → String → Search
walk_up look dirname zero dir = unfinished
walk_up look dirname (suc fuel) dir =
    let above = walk_up look dirname fuel (dirname dir) in
    elim (look dir) [
      | some path ↦ found path
      | none ↦ if dirname dir == dir then nowhere else above
    ]

-- The first of the names that is a file of the directory.
unfoldable pub first_existing : Platform → List String → String → Option String
first_existing platform [] dir = none
first_existing platform (name ∷ names) dir =
    let others = first_existing platform names dir in
    let candidate = platform.join dir name in
    if platform.exists candidate then some candidate else others

unfoldable pub search_from : Platform → (String → Option String) → String → Search
unfolding walk_up text_length
search_from platform look start =
    walk_up look platform.dirname (suc (text_length (platform.resolve start)))
      (platform.resolve start)

unfoldable pub find_up : Platform → String → List String → Search
unfolding search_from first_existing
find_up platform start names = search_from platform (first_existing platform names) start

abbrev pub binary_name : Platform → String → String
binary_name platform name = if platform.windows then String.◌++◌ name ".cmd" else name

abbrev pub local_bin : Platform → String → String → Option String
local_bin platform name dir =
    let candidate =
      platform.join (platform.join (platform.join dir "node_modules") ".bin")
        (binary_name platform name) in
    if platform.exists candidate then some candidate else none

unfoldable pub find_local_bin : Platform → String → String → Search
unfolding search_from
find_local_bin platform start name = search_from platform (local_bin platform name) start

-- `stderr.includes(pattern)`
unfoldable pub includes : String → String → Bool
unfolding rest_after
includes pattern [] = elim (rest_after same pattern []) [ some s ↦ true | none ↦ false ]
includes pattern (c ∷ s) =
    let later = includes pattern s in
    elim (rest_after same pattern (c ∷ s)) [ some rest ↦ true | none ↦ later ]

unfoldable pub should_fallback_to_prettier : String → Bool
unfolding includes
should_fallback_to_prettier stderr =
    includes "No files were processed in the specified paths" stderr
    || includes "These paths were provided but ignored:" stderr

-- `result.status === 0`
abbrev pub succeeded : Spawned → Bool
succeeded result = elim result.status [ some status ↦ status =? 0 | none ↦ false ]

-- `runFormatterOrThrow`
abbrev pub run_formatter_or_throw : Platform → String → List String → Run
run_formatter_or_throw platform command arguments =
    let result = platform.spawn command arguments in
    after (ran command arguments ∷ []) (
      if result.missing
      then returned
      else (if succeeded result then returned else failed (not_formatted command)))

-- `runFormatter`: where it returns true nothing is left to do, and where it returns false the next
-- formatter is tried.
unfoldable pub run_formatter : Platform → String → List String → Run → Run
unfolding should_fallback_to_prettier
run_formatter platform command arguments next =
    let result = platform.spawn command arguments in
    after (ran command arguments ∷ []) (
      if result.missing
      then next
      else (if succeeded result
          then returned
          else (if should_fallback_to_prettier result.stderr
              then next
              else failed (not_formatted command))))

abbrev pub run_bundled_prettier : Platform → List String → Run
run_bundled_prettier platform paths =
    run_formatter_or_throw platform platform.exec_path (platform.prettier ∷ "--write" ∷ paths)

-- `if (config && bin)`, behind both searches.
abbrev pub with_both : Search → Search → (String → String → Run) → Run → Run
with_both unfinished bin run otherwise = failed out_of_fuel
with_both (found config) unfinished run otherwise = failed out_of_fuel
with_both nowhere unfinished run otherwise = failed out_of_fuel
with_both (found config) (found bin) run otherwise = run config bin
with_both (found config) nowhere run otherwise = otherwise
with_both nowhere (found bin) run otherwise = otherwise
with_both nowhere nowhere run otherwise = otherwise

unfoldable pub format_with_oxfmt : Platform → String → List String → Run
unfolding find_up find_local_bin
format_with_oxfmt platform project_dir paths =
    with_both (find_up platform project_dir oxfmt_config_names)
      (find_local_bin platform project_dir "oxfmt")
      (λ config bin. run_formatter_or_throw platform bin ("--write" ∷ paths))
      (run_bundled_prettier platform paths)

unfoldable pub format_generated_ts_and_json : Platform → String → List String → Run
unfolding find_up find_local_bin run_formatter format_with_oxfmt
format_generated_ts_and_json platform project_dir paths =
    with_both (find_up platform project_dir biome_config_names)
      (find_local_bin platform project_dir "biome")
      (λ config bin.
        run_formatter platform bin ("format" ∷ "--write" ∷ "--config-path" ∷ config ∷ paths)
          (format_with_oxfmt platform project_dir paths))
      (format_with_oxfmt platform project_dir paths)

abbrev pub format_generated_rust : Platform → String → Run
format_generated_rust platform path =
    run_formatter_or_throw platform "rustfmt" ("--edition" ∷ "2021" ∷ path ∷ [])

unfoldable pub format_each_rust : Platform → List String → Run
format_each_rust platform [] = returned
format_each_rust platform (path ∷ paths) =
    then_run (format_generated_rust platform path) (format_each_rust platform paths)

unfoldable pub format_generated_artifacts :
    Platform → (project_dir : String) (rust ts_and_json : List String) → Run
unfolding format_generated_ts_and_json format_each_rust
format_generated_artifacts platform project_dir rust ts_and_json =
    then_run
      (elim ts_and_json [
        | [] ↦ returned
        | path ∷ paths ↦ format_generated_ts_and_json platform project_dir (path ∷ paths)
      ])
      (format_each_rust platform rust)
