-- ===== src/Cli/Commands/Checked.antt =====
-- packages/baresync/src/cli/generator.ts: what `generate` can still fail of, behind a check that
-- passes.
use baresync.Prelude.{
  String, Bool, false, Option, some, List, [], ◌∷◌, ◌++◌, map, ◌≡◌, refl, sym, subst, ◌⊎◌, inl, inr,
  arith, keep, any, any-append, All, Result, ok, throw, ok-injective, throw-injective, >>=-eq-ok,
}
use baresync.Contract.{SyncContract}
use baresync.FkOrder.{OrderError, missing_target, SyncTableOrder}
use baresync.Diagnostics.{SyncDiagnostic}
use baresync.Diagnostics.Emitted.{is_error}
use baresync.Diagnostics.Run.{NoMeta, run_diagnostics}
use baresync.Diagnostics.Run.Ordering.{IsOrdered}
use baresync.Diagnostics.Run.Clean.{run_diagnostics-IsOrdered}
use baresync.Generator.{
  PairedSyncGeneratorConfig, GeneratorError, unordered, build_paired_contract_from_paired_config,
}
use baresync.Generator.Platform.{Platform, Action, Run, then_run, perform}
use baresync.Generator.Performing.{IsUnwritten, perform-IsUnwritten}
use baresync.Generator.Pairing.{build_paired_contract-ArePairs}
use baresync.Generator.Formatting.{format_generated_artifacts}
use baresync.Generator.Formatting.Searching.{Shortens}
use baresync.Generator.Formatting.Failing.{
  Last, IsFailure, FailsLast, format_generated_artifacts-FailsLast,
}
use baresync.Generator.Written.{counted_errors-nil}
use baresync.Generator.Writing.{
  SchemaPaths, dated, formatted_paths, contract_order, written, write_in_order, counted_errors,
  write_unless_errors, write_generation_artifacts, Source, paired, paired_options, snapshots_of,
  generate_built, generate_sync_artifacts,
}
use baresync.Cli.Entries.{LoadedConfigEntry}
use baresync.Cli.Commands.{
  CommandError, generator_failed, Command, with_meta, diagnose, diagnose_each, refuse_errors,
  check_entries, unless_failed, generate_entry, generate_entries,
}

-- The ends of a generation that has no diagnostic against it: it returns, or a foreign key has no
-- target metadata, or the file system refuses what is written to a path, or a formatter fails.
pub data Ends (platform : Platform) : Result GeneratorError (Unit {0}) → Type 0 where
  finished : Ends platform (ok tt)
  without_target : Ends platform (throw (unordered missing_target))
  unwritten :
      (done : List Action) {e : GeneratorError}
      → IsUnwritten platform done e
      → Ends platform (throw e)
  unformatted :
      (actions : List Action) {e : GeneratorError}
      → Last (IsFailure platform e) actions
      → Ends platform (throw e)

formatted-Ends :
    (platform : Platform) (actions : List Action) (outcome : Result GeneratorError (Unit {0}))
    → FailsLast platform (record { actions = actions; outcome = outcome })
    → Ends platform outcome
formatted-Ends platform actions (ok tt) h = finished
formatted-Ends platform actions (throw e) h = unformatted actions (h e refl)

-- The formatting, behind the writing.
then_outcome-Ends :
    (platform : Platform) (actions : List Action) (outcome : Result GeneratorError (Unit {0}))
    (next : Run)
    → ((e : GeneratorError) → outcome ≡ throw e → IsUnwritten platform actions e)
    → Ends platform next.outcome
    → Ends platform (then_run (record { actions = actions; outcome = outcome }) next).outcome
then_outcome-Ends platform actions (ok tt) next h later = later
then_outcome-Ends platform actions (throw e) next h later = unwritten actions (h e refl)

write_in_order-Ends :
    (platform : Platform) (contract : SyncContract) (dir : String) (paths : Option SchemaPaths)
    (result : Result OrderError SyncTableOrder)
    → Shortens platform
    → IsOrdered result
    → Ends platform (write_in_order platform contract dir paths result).outcome
unfolding write_in_order
write_in_order-Ends platform contract dir paths (ok order) shortens ordered =
    let formatted = formatted_paths platform (dated platform dir) in
    let run = format_generated_artifacts platform platform.cwd [] formatted in
    let wrote = perform platform [] (written platform contract dir paths order) in
    then_outcome-Ends platform wrote.actions wrote.outcome run
      (perform-IsUnwritten platform [] (written platform contract dir paths order))
      (formatted-Ends platform run.actions run.outcome
        (format_generated_artifacts-FailsLast platform platform.cwd [] formatted shortens))
write_in_order-Ends platform contract dir paths (throw thrown) shortens (inl (order, e)) = cc
write_in_order-Ends platform contract dir paths (throw thrown) shortens (inr e) =
    rw (throw-injective e) without_target

keep-none :
    (p : SyncDiagnostic → Bool) (ds : List SyncDiagnostic) → any p ds ≡ false → keep p ds ≡ []
keep-none p [] h = refl
keep-none p (d ∷ ds) h = ground (arith, keep-none p ds)

write_unless_errors-Ends :
    (platform : Platform) (contract : SyncContract) (dir : String) (paths : Option SchemaPaths)
    (ds : List SyncDiagnostic)
    → Shortens platform
    → any is_error ds ≡ false
    → IsOrdered (contract_order contract)
    → Ends platform (write_unless_errors platform contract dir false paths (ok ds)).outcome
unfolding write_unless_errors
write_unless_errors-Ends platform contract dir paths ds shortens quiet ordered =
    rw (keep-none is_error ds quiet)
      (write_in_order-Ends platform contract dir paths (contract_order contract) shortens ordered)

with_meta-ok :
    (result : Result NoMeta (List SyncDiagnostic)) (ds : List SyncDiagnostic)
    → with_meta result ≡ ok ds
    → result ≡ ok ds
with_meta-ok (ok found) ds e = rw (ok-injective e) refl
with_meta-ok (throw thrown) ds e = cc

generate_paired-Ends :
    (platform : Platform) (config : PairedSyncGeneratorConfig) (ds : List SyncDiagnostic)
    → Shortens platform
    → diagnose platform (paired config) ≡ ok ds
    → any is_error ds ≡ false
    → Ends platform (generate_sync_artifacts platform (paired config) false).outcome
unfolding diagnose generate_sync_artifacts generate_built write_generation_artifacts contract_order
generate_paired-Ends platform config ds shortens diagnosed quiet =
    let (build, built, rest) =
      >>=-eq-ok (build_paired_contract_from_paired_config platform.import_schema config) _
        diagnosed in
    let ran = with_meta-ok (run_diagnostics build.contract (paired_options build)) ds rest in
    let (_, _, pairs, _, _, _, _, made, _) =
      build_paired_contract-ArePairs platform.import_schema config build built in
    let defs = map (λ pair. pair.1) pairs in
    let ordered : IsOrdered (contract_order build.contract) =
      subst (λ c. IsOrdered (contract_order c)) (sym made)
        (run_diagnostics-IsOrdered defs config.limits (paired_options build) ds
          (subst (λ c. run_diagnostics c (paired_options build) ≡ ok ds) made ran) quiet) in
    rw (built, ran)
      (write_unless_errors-Ends platform build.contract config.output_dir
        (some (snapshots_of config)) ds shortens quiet ordered)

abbrev pub IsPaired : Source → Type 0
IsPaired source = (config : PairedSyncGeneratorConfig) × (source ≡ paired config)

-- The ends of a command that generates what a check has passed.
abbrev pub CommandEnds : Platform → Result CommandError Bool → Type 0
CommandEnds platform outcome =
    (outcome ≡ ok false)
    ⊎ ((e : GeneratorError) × (outcome ≡ throw (generator_failed e)) × Ends platform (throw e))

unless_failed-CommandEnds :
    (platform : Platform) (outcome : Result GeneratorError (Unit {0})) (next : Command)
    → Ends platform outcome
    → CommandEnds platform next.outcome
    → CommandEnds platform (unless_failed outcome next).outcome
unless_failed-CommandEnds platform (ok tt) next h later = later
unless_failed-CommandEnds platform (throw e) next h later = inr (e, refl, h)

generate_entries-CommandEnds :
    (platform : Platform) (warnings_as_errors : Bool) (entries : List LoadedConfigEntry)
    (ds : List SyncDiagnostic)
    → Shortens platform
    → All (λ entry. IsPaired entry.source) entries
    → diagnose_each platform entries ≡ ok ds
    → any is_error ds ≡ false
    → CommandEnds platform (generate_entries platform warnings_as_errors entries).outcome
unfolding diagnose_each generate_entries generate_entry
generate_entries-CommandEnds platform w [] ds shortens h diagnosed quiet = inl refl
generate_entries-CommandEnds platform w (entry ∷ entries) ds shortens h diagnosed quiet =
    let (config, is_paired) = h.0 in
    let (here, first, rest) = >>=-eq-ok (diagnose platform entry.source) _ diagnosed in
    let (there, later, both) = >>=-eq-ok (diagnose_each platform entries) _ rest in
    let apart = any-append is_error here there in
    let none_at_all : any is_error (here ++ there) ≡ false = rw (ok-injective both) quiet in
    let none_here : any is_error here ≡ false = ground arith in
    let none_there : any is_error there ≡ false = ground arith in
    let ends =
      generate_paired-Ends platform config here shortens
        (subst (λ source. diagnose platform source ≡ ok here) is_paired first) none_here in
    unless_failed-CommandEnds platform (generate_entry platform w entry.source).outcome
      (generate_entries platform w entries) (rw is_paired ends)
      (generate_entries-CommandEnds platform w entries there shortens h.1 later none_there)

refuse_errors-ok : (ds errors : List SyncDiagnostic) → refuse_errors ds errors ≡ ok tt → errors ≡ []
refuse_errors-ok ds [] e = refl
refuse_errors-ok ds (d ∷ errors) e = cc

-- Where `dirname` shortens an absolute path or gives it back: entries that are paired configurations
-- and pass `--check` are generated to the end, unless a foreign key has no target metadata, the file
-- system refuses a directory or a file that is written or copied, or a formatter that was started
-- fails.
pub check_entries-CommandEnds :
    (platform : Platform) (check_warnings warnings_as_errors : Bool)
    (entries : List LoadedConfigEntry)
    → Shortens platform
    → All (λ entry. IsPaired entry.source) entries
    → check_entries platform check_warnings entries ≡ ok tt
    → CommandEnds platform (generate_entries platform warnings_as_errors entries).outcome
unfolding check_entries
check_entries-CommandEnds platform check_warnings w entries shortens h passed =
    let (ds, diagnosed, refused) = >>=-eq-ok (diagnose_each platform entries) _ passed in
    let (quiet, _) =
      counted_errors-nil check_warnings ds
        (refuse_errors-ok ds (counted_errors check_warnings ds) refused) in
    generate_entries-CommandEnds platform w entries ds shortens h diagnosed quiet
