-- ===== src/Generator/Platform.antt =====
-- What packages/baresync/src/generator asks of Node: paths, the file system, the clock, JSON and
-- the programs that it starts; and what it does there, as a list of actions. A line that is
-- printed does not fail; what a write that fails leaves of its file is left out. `exists` is asked of
-- files that the generator does not write.
use baresync.Prelude.{
  ℕ, String, Bool, true, false, Option, none, some, List, [], ◌∷◌, ◌++◌, Result, ok, throw,
}
use baresync.Contract.{SyncContractLimits}
use baresync.Diagnostics.{SyncDiagnostic}
use baresync.Generator.{GeneratorError, not_written, Exports}

-- The answer of `spawnSync`: whether its error has the code ENOENT, the status, which is `null` for a
-- program that was killed, and the text on the standard error.
pub record Spawned : Type 0 where
  pub missing : Bool
  pub status : Option ℕ
  pub stderr : String

-- A table of `sync-contract.json`.
pub record ContractTable : Type 0 where
  pub columns : List String
  pub scope_field : String
  pub local_only_columns : List String
  pub server_only_columns : List String

-- `sync-contract.json`
pub record ContractJson : Type 0 where
  pub version : String
  pub generator_version : String
  pub upsert_order : List String
  pub delete_order : List String
  pub tables : List (String × ContractTable)
  pub limits : SyncContractLimits

pub record ManifestTable : Type 0 where
  pub field_numbers : List (String × ℕ)
  pub fields : List String
  pub name : String

pub record SyncManifest : Type 0 where
  pub contract_version : String
  pub generator_version : String
  pub output_paths : List String
  -- Each table with the field of its scope.
  pub scope_mappings : List (String × String)
  pub delete_order : List String
  pub upsert_order : List String
  pub tables : List ManifestTable

-- What a file is written with: a value that is printed as JSON, or a text.
pub data Content : Type 0 where
  contract_json : ContractJson → Content
  manifest_json : SyncManifest → Content
  text : String → Content

pub data Action : Type 0 where
  warned : SyncDiagnostic → Action
  made_directory : String → Action
  wrote_file : String → Content → Action
  copied_file : (from to : String) → Action
  skipped_snapshot : (path : String) → Action
  without_snapshots : Action
  ran : (command : String) (arguments : List String) → Action

-- `import_schema` is `import(path.resolve(schemaPath))`, `quoted` is `JSON.stringify` of a text,
-- `today` is `new Date().toISOString().slice(0, 10)` and `prettier` is the resolved path of prettier.
-- `permits` says whether `mkdirSync`, `writeFileSync` or `copyFileSync` returns, behind the actions
-- that the writing of the same files has begun with; otherwise it throws.
pub record Platform : Type 0 where
  pub cwd : String
  pub dirname : String → String
  pub exec_path : String
  pub exists : String → Bool
  pub import_schema : String → Option Exports
  pub join : String → String → String
  pub permits : (done : List Action) → Action → Bool
  pub prettier : String
  pub quoted : String → String
  pub resolve : String → String
  pub spawn : String → List String → Spawned
  pub today : String
  pub windows : Bool

-- What a piece of code does, and how it ends.
pub record Run : Type 0 where
  pub actions : List Action
  pub outcome : Result GeneratorError (Unit {0})

abbrev pub returned : Run
returned = record { actions = []; outcome = ok tt }

abbrev pub failed : GeneratorError → Run
failed error = record { actions = []; outcome = throw error }

abbrev pub after : List Action → Run → Run
after actions run = record { actions = actions ++ run.actions; outcome = run.outcome }

abbrev pub then_outcome : List Action → Result GeneratorError (Unit {0}) → Run → Run
then_outcome actions (ok done) next = after actions next
then_outcome actions (throw error) next = record { actions = actions; outcome = throw error }

abbrev pub then_run : Run → Run → Run
then_run first next = then_outcome first.actions first.outcome next

-- The directory or file that an action writes.
abbrev pub target : Action → Option String
target (warned d) = none
target (made_directory path) = some path
target (wrote_file path content) = some path
target (copied_file from to) = some to
target (skipped_snapshot path) = none
target without_snapshots = none
target (ran command arguments) = none

abbrev pub attempt : Option String → (permitted : Bool) → Run → Run
attempt none permitted next = next
attempt (some path) true next = next
attempt (some path) false next = failed (not_written path)

-- Actions one after the other, up to the first that throws.
unfoldable pub perform : Platform → (done actions : List Action) → Run
perform platform done [] = returned
perform platform done (action ∷ actions) =
    let rest = perform platform (done ++ action ∷ []) actions in
    attempt (target action) (platform.permits done action) (after (action ∷ []) rest)
