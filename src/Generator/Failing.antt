-- ===== src/Generator/Failing.antt =====
-- packages/baresync/src/generator/index.ts: how a generation fails, and what it has done then.
use mathlib.Core.List.{append_assoc}
use baresync.Prelude.{
  String, Bool, false, Option, none, some, List, [], ◌∷◌, ◌++◌, map, sym, ap, ◌∙◌, ◌≡◌, refl, ◌⊎◌,
  inl, inr, keep, All, All-append, Result, ok, throw,
}
use baresync.Contract.{SyncContract}
use baresync.FkOrder.{OrderError, SyncTableOrder}
use baresync.Diagnostics.{SyncDiagnostic}
use baresync.Diagnostics.Run.{NoMeta, DiagnosticOptions, run_diagnostics}
use baresync.Generator.{
  GeneratorError, PairedSyncGeneratorConfig, PairedContractBuild, unmatched_meta,
  diagnostics_failed, unordered, no_contract, build_paired_contract_from_paired_config,
}
use baresync.Generator.Platform.{
  Platform, Action, warned, Run, failed, after, then_outcome, perform,
}
use baresync.Generator.Performing.{IsUnwritten, perform-IsUnwritten}
use baresync.Generator.Formatting.{format_generated_artifacts}
use baresync.Generator.Formatting.Searching.{Shortens}
use baresync.Generator.Formatting.Failing.{
  Last, IsFailure, Last-append, FailsLast, after-FailsLast, format_generated_artifacts-FailsLast,
}
use baresync.Generator.Writing.{
  SchemaPaths, is_warning, dated, written, formatted_paths, contract_order, write_in_order,
  counted_errors, unless_errors, write_unless_errors, generate_built, write_generation_artifacts,
  Source, paired, configured, raw, generate_sync_artifacts, with_contract, paired_options,
  snapshots_of, unpaired,
}

abbrev pub IsWarned : Action → Type 0
IsWarned action = (d : SyncDiagnostic) × (action ≡ warned d)

-- The file system has refused a write behind all that was done but the printing of warnings.
abbrev pub IsStopped : Platform → GeneratorError → List Action → Type 0
IsStopped platform e actions =
    (warnings done : List Action) × All IsWarned warnings
    × (actions ≡ warnings ++ done)
    × IsUnwritten platform done e

-- A run that fails has printed warnings and done nothing else, or the file system has refused a
-- write of it, or it fails at the failure of the formatter that is its last action.
abbrev pub FailsEarly : Platform → Run → Type 0
FailsEarly platform run =
    (e : GeneratorError)
    → run.outcome ≡ throw e
    → All IsWarned run.actions
      ⊎ (IsStopped platform e run.actions ⊎ Last (IsFailure platform e) run.actions)

All-warned : (ds : List SyncDiagnostic) → All IsWarned (map warned ds)
All-warned [] = tt
All-warned (d ∷ ds) = ((d, refl), All-warned ds)

after-FailsEarly :
    (platform : Platform) (ds : List SyncDiagnostic) (run : Run)
    → FailsEarly platform run
    → FailsEarly platform (after (map warned ds) run)
after-FailsEarly platform ds run h e failing = elim (h e failing) [
  | inl only ↦ inl (All-append IsWarned (map warned ds) run.actions (All-warned ds) only)
  | inr (inl (warnings, done, warned_only, did_all, unwritten)) ↦ inr (
      inl (
        map warned ds ++ warnings,
        done,
        All-append IsWarned (map warned ds) warnings (All-warned ds) warned_only,
        ap (λ actions. map warned ds ++ actions) did_all
            ∙ sym (append_assoc (map warned ds) warnings done),
        unwritten,
      ))
  | inr (inr last) ↦ inr (inr (Last-append _ (map warned ds) run.actions last))
]

failed-FailsEarly :
    (platform : Platform) (error : GeneratorError) → FailsEarly platform (failed error)
failed-FailsEarly platform error e failing = inl tt

then_outcome-FailsEarly :
    (platform : Platform) (actions : List Action) (outcome : Result GeneratorError (Unit {0}))
    (next : Run)
    → ((e : GeneratorError) → outcome ≡ throw e → IsUnwritten platform actions e)
    → FailsLast platform next
    → FailsEarly platform (then_outcome actions outcome next)
then_outcome-FailsEarly platform actions (throw failure) next unwritten last e failing =
    inr (inl ([], actions, tt, refl, unwritten e failing))
then_outcome-FailsEarly platform actions (ok done) next unwritten last e failing =
    inr (inr (after-FailsLast platform actions next last e failing))

write_in_order-FailsEarly :
    (platform : Platform) (contract : SyncContract) (dir : String) (paths : Option SchemaPaths)
    (order : Result OrderError SyncTableOrder)
    → Shortens platform
    → FailsEarly platform (write_in_order platform contract dir paths order)
unfolding write_in_order
write_in_order-FailsEarly platform contract dir paths (throw thrown) shortens =
    failed-FailsEarly platform (unordered thrown)
write_in_order-FailsEarly platform contract dir paths (ok order) shortens =
    let files = perform platform [] (written platform contract dir paths order) in
    let formatted = formatted_paths platform (dated platform dir) in
    then_outcome-FailsEarly platform files.actions files.outcome
      (format_generated_artifacts platform platform.cwd [] formatted)
      (perform-IsUnwritten platform [] (written platform contract dir paths order))
      (format_generated_artifacts-FailsLast platform platform.cwd [] formatted shortens)

unless_errors-FailsEarly :
    (platform : Platform) (ds errors : List SyncDiagnostic) (next : Run)
    → FailsEarly platform next
    → FailsEarly platform (unless_errors ds errors next)
unless_errors-FailsEarly platform ds [] next h = h
unless_errors-FailsEarly platform ds (d ∷ errors) next h =
    failed-FailsEarly platform (diagnostics_failed ds)

write_unless_errors-FailsEarly :
    (platform : Platform) (contract : SyncContract) (dir : String) (warnings_as_errors : Bool)
    (paths : Option SchemaPaths) (ran : Result NoMeta (List SyncDiagnostic))
    → Shortens platform
    → FailsEarly platform (write_unless_errors platform contract dir warnings_as_errors paths ran)
unfolding write_unless_errors
write_unless_errors-FailsEarly platform contract dir w paths (throw thrown) shortens =
    failed-FailsEarly platform unmatched_meta
write_unless_errors-FailsEarly platform contract dir w paths (ok ds) shortens =
    after-FailsEarly platform (keep is_warning ds)
      (unless_errors ds (counted_errors w ds)
        (write_in_order platform contract dir paths (contract_order contract)))
      (unless_errors-FailsEarly platform ds (counted_errors w ds) _
        (write_in_order-FailsEarly platform contract dir paths (contract_order contract) shortens))

write_generation_artifacts-FailsEarly :
    (platform : Platform) (contract : SyncContract) (dir : String) (warnings_as_errors : Bool)
    (paths : Option SchemaPaths) (options : DiagnosticOptions)
    → Shortens platform
    → FailsEarly platform
        (write_generation_artifacts platform contract dir warnings_as_errors paths options)
unfolding write_generation_artifacts
write_generation_artifacts-FailsEarly platform contract dir w paths options =
    write_unless_errors-FailsEarly platform contract dir w paths (run_diagnostics contract options)

generate_built-FailsEarly :
    (platform : Platform) (config : PairedSyncGeneratorConfig)
    (built : Result GeneratorError PairedContractBuild)
    → Shortens platform
    → FailsEarly platform (generate_built platform config built)
unfolding generate_built
generate_built-FailsEarly platform config (throw thrown) shortens =
    failed-FailsEarly platform thrown
generate_built-FailsEarly platform config (ok build) shortens =
    write_generation_artifacts-FailsEarly platform build.contract config.output_dir false
      (some (snapshots_of config)) (paired_options build) shortens

with_contract-FailsEarly :
    (platform : Platform) (contract : Option SyncContract) (dir : String)
    (warnings_as_errors : Bool)
    → Shortens platform
    → FailsEarly platform (
        with_contract contract
          (λ c. write_generation_artifacts platform c dir warnings_as_errors none unpaired))
with_contract-FailsEarly platform none dir w shortens = failed-FailsEarly platform no_contract
with_contract-FailsEarly platform (some contract) dir w shortens =
    write_generation_artifacts-FailsEarly platform contract dir w none unpaired shortens

-- Where `dirname` shortens an absolute path or gives it back: a generation that fails has at most
-- printed warnings (it has made no directory, written no file and copied none), unless the file system
-- refused to make a directory or to write or copy a file, which the error names and behind which
-- nothing was done, or a formatter, its last action, ended with another status than zero.
pub generate_sync_artifacts-FailsEarly :
    (platform : Platform) (source : Source) (warnings_as_errors : Bool)
    → Shortens platform
    → FailsEarly platform (generate_sync_artifacts platform source warnings_as_errors)
unfolding generate_sync_artifacts
generate_sync_artifacts-FailsEarly platform (paired config) w =
    generate_built-FailsEarly platform config
      (build_paired_contract_from_paired_config platform.import_schema config)
generate_sync_artifacts-FailsEarly platform (configured config) w =
    with_contract-FailsEarly platform config.contract config.output_dir w
generate_sync_artifacts-FailsEarly platform (raw contract output_dir) w =
    write_generation_artifacts-FailsEarly platform contract output_dir w none unpaired
