-- ===== src/Generator/Formatting/Failing.antt =====
-- packages/baresync/src/generator/formatter.ts: how formatting fails.
use baresync.Prelude.{
  String, false, List, [], ◌∷◌, ◌++◌, ◌≡◌, ◌≢◌, refl, sym, inl, inr, Bool-cases, ok, Result, throw,
  throw-injective,
}
use baresync.Generator.{GeneratorError, not_formatted}
use baresync.Generator.Platform.{
  Platform, Run, Action, ran, returned, after, then_outcome, then_run,
}
use baresync.Generator.Formatting.{
  Search, found, nowhere, unfinished, first_existing, find_up, local_bin, find_local_bin,
  should_fallback_to_prettier, succeeded, run_formatter_or_throw, run_formatter,
  run_bundled_prettier, with_both, format_with_oxfmt, format_generated_ts_and_json,
  format_generated_rust, format_each_rust, format_generated_artifacts, biome_config_names,
  oxfmt_config_names,
}
use baresync.Generator.Formatting.Searching.{Shortens, search_from-finished}

-- The last of a list of actions.
abbrev pub Last : (Action → Type 0) → List Action → Type 0
Last P [] = ⊥
Last P (action ∷ []) = P action
Last P (action ∷ next ∷ actions) = Last P (next ∷ actions)

-- A formatter that was started, and ended with another status than zero.
pub record IsFailure (platform : Platform) (error : GeneratorError) (action : Action) : Type 0 where
  pub command : String
  pub arguments : List String
  pub started : action ≡ ran command arguments
  pub named : error ≡ not_formatted command
  pub known : (platform.spawn command arguments).missing ≡ false
  pub unsuccessful : succeeded (platform.spawn command arguments) ≡ false

-- A run that fails does so at the failure of its last action.
abbrev pub FailsLast : Platform → Run → Type 0
FailsLast platform run =
    (e : GeneratorError) → run.outcome ≡ throw e → Last (IsFailure platform e) run.actions

pub Last-append : (P : Action → Type 0) (xs ys : List Action) → Last P ys → Last P (xs ++ ys)
Last-append P [] ys h = h
Last-append P (x ∷ []) [] h = absurd h
Last-append P (x ∷ []) (y ∷ ys) h = h
Last-append P (x ∷ y ∷ xs) ys h = Last-append P (y ∷ xs) ys h

pub after-FailsLast :
    (platform : Platform) (actions : List Action) (run : Run)
    → FailsLast platform run
    → FailsLast platform (after actions run)
after-FailsLast platform actions run h e failing = Last-append _ actions run.actions (h e failing)

returned-FailsLast : (platform : Platform) → FailsLast platform returned
returned-FailsLast platform e failing = cc

then_outcome-FailsLast :
    (platform : Platform) (actions : List Action) (outcome : Result GeneratorError (Unit {0}))
    (next : Run)
    → FailsLast platform (record { actions = actions; outcome = outcome })
    → FailsLast platform next
    → FailsLast platform (then_outcome actions outcome next)
then_outcome-FailsLast platform actions (ok done) next hf hn =
    after-FailsLast platform actions next hn
then_outcome-FailsLast platform actions (throw e) next hf hn = hf

then_run-FailsLast :
    (platform : Platform) (first next : Run)
    → FailsLast platform first
    → FailsLast platform next
    → FailsLast platform (then_run first next)
then_run-FailsLast platform first next hf hn =
    then_outcome-FailsLast platform first.actions first.outcome next hf hn

failed-FailsLast :
    (platform : Platform) (command : String) (arguments : List String)
    → (platform.spawn command arguments).missing ≡ false
    → succeeded (platform.spawn command arguments) ≡ false
    → FailsLast platform
        (record { actions = ran command arguments ∷ []; outcome = throw (not_formatted command) })
failed-FailsLast platform command arguments known bad e failing = record {
  command = command;
  arguments = arguments;
  started = refl;
  named = sym (throw-injective failing);
  known = known;
  unsuccessful = bad;
}

run_formatter_or_throw-FailsLast :
    (platform : Platform) (command : String) (arguments : List String)
    → FailsLast platform (run_formatter_or_throw platform command arguments)
run_formatter_or_throw-FailsLast platform command arguments e =
    let result = platform.spawn command arguments in
    elim (Bool-cases result.missing) [
      | inl missing ↦ rw missing (λ failing. cc)
      | inr known ↦ elim (Bool-cases (succeeded result)) [
        | inl good ↦ rw (known, good) (λ failing. cc)
        | inr bad ↦ rw (known, bad) (failed-FailsLast platform command arguments known bad e)
      ]
    ]

run_formatter-FailsLast :
    (platform : Platform) (command : String) (arguments : List String) (next : Run)
    → FailsLast platform next
    → FailsLast platform (run_formatter platform command arguments next)
unfolding run_formatter
run_formatter-FailsLast platform command arguments next h e =
    let result = platform.spawn command arguments in
    let onward = after-FailsLast platform (ran command arguments ∷ []) next h e in
    elim (Bool-cases result.missing) [
      | inl missing ↦ rw missing onward
      | inr known ↦ elim (Bool-cases (succeeded result)) [
        | inl good ↦ rw (known, good) (λ failing. cc)
        | inr bad ↦ elim (Bool-cases (should_fallback_to_prettier result.stderr)) [
          | inl next_one ↦ rw (known, bad, next_one) onward
          | inr no_other ↦
              rw (known, bad, no_other) (failed-FailsLast platform command arguments known bad e)
        ]
      ]
    ]

with_both-FailsLast :
    (platform : Platform) (config bin : Search) (run : String → String → Run) (otherwise : Run)
    → config ≢ unfinished
    → bin ≢ unfinished
    → ((c b : String) → FailsLast platform (run c b))
    → FailsLast platform otherwise
    → FailsLast platform (with_both config bin run otherwise)
with_both-FailsLast platform unfinished bin run otherwise hc hb hr ho = absurd (hc refl)
with_both-FailsLast platform (found config) unfinished run otherwise hc hb hr ho = absurd (hb refl)
with_both-FailsLast platform nowhere unfinished run otherwise hc hb hr ho = absurd (hb refl)
with_both-FailsLast platform (found config) (found bin) run otherwise hc hb hr ho = hr config bin
with_both-FailsLast platform (found config) nowhere run otherwise hc hb hr ho = ho
with_both-FailsLast platform nowhere (found bin) run otherwise hc hb hr ho = ho
with_both-FailsLast platform nowhere nowhere run otherwise hc hb hr ho = ho

format_with_oxfmt-FailsLast :
    (platform : Platform) (project_dir : String) (paths : List String)
    → Shortens platform
    → FailsLast platform (format_with_oxfmt platform project_dir paths)
unfolding format_with_oxfmt find_up find_local_bin
format_with_oxfmt-FailsLast platform project_dir paths shortens =
    with_both-FailsLast platform (find_up platform project_dir oxfmt_config_names)
      (find_local_bin platform project_dir "oxfmt")
      (λ config bin. run_formatter_or_throw platform bin ("--write" ∷ paths))
      (run_bundled_prettier platform paths)
      (search_from-finished platform (first_existing platform oxfmt_config_names) project_dir
        shortens)
      (search_from-finished platform (local_bin platform "oxfmt") project_dir shortens)
      (λ config bin. run_formatter_or_throw-FailsLast platform bin ("--write" ∷ paths))
      (run_formatter_or_throw-FailsLast platform platform.exec_path _)

format_generated_ts_and_json-FailsLast :
    (platform : Platform) (project_dir : String) (paths : List String)
    → Shortens platform
    → FailsLast platform (format_generated_ts_and_json platform project_dir paths)
unfolding format_generated_ts_and_json find_up find_local_bin
format_generated_ts_and_json-FailsLast platform project_dir paths shortens =
    let next = format_with_oxfmt-FailsLast platform project_dir paths shortens in
    with_both-FailsLast platform (find_up platform project_dir biome_config_names)
      (find_local_bin platform project_dir "biome")
      (λ config bin.
        run_formatter platform bin ("format" ∷ "--write" ∷ "--config-path" ∷ config ∷ paths)
          (format_with_oxfmt platform project_dir paths))
      (format_with_oxfmt platform project_dir paths)
      (search_from-finished platform (first_existing platform biome_config_names) project_dir
        shortens)
      (search_from-finished platform (local_bin platform "biome") project_dir shortens)
      (λ config bin.
        run_formatter-FailsLast platform bin
          ("format" ∷ "--write" ∷ "--config-path" ∷ config ∷ paths)
          (format_with_oxfmt platform project_dir paths) next)
      next

format_each_rust-FailsLast :
    (platform : Platform) (paths : List String)
    → FailsLast platform (format_each_rust platform paths)
unfolding format_each_rust
format_each_rust-FailsLast platform [] = returned-FailsLast platform
format_each_rust-FailsLast platform (path ∷ paths) =
    then_run-FailsLast platform (format_generated_rust platform path)
      (format_each_rust platform paths)
      (run_formatter_or_throw-FailsLast platform "rustfmt" ("--edition" ∷ "2021" ∷ path ∷ []))
      (format_each_rust-FailsLast platform paths)

-- Where `dirname` shortens an absolute path or gives it back, formatting ends, and when it fails it does so
-- because a formatter that could be started ended with another status than zero: its start is the last
-- action, and the error names it.
pub format_generated_artifacts-FailsLast :
    (platform : Platform) (project_dir : String) (rust ts_and_json : List String)
    → Shortens platform
    → FailsLast platform (format_generated_artifacts platform project_dir rust ts_and_json)
unfolding format_generated_artifacts
format_generated_artifacts-FailsLast platform project_dir rust [] shortens =
    then_run-FailsLast platform returned (format_each_rust platform rust)
      (returned-FailsLast platform) (format_each_rust-FailsLast platform rust)
format_generated_artifacts-FailsLast platform project_dir rust (path ∷ paths) shortens =
    then_run-FailsLast platform (format_generated_ts_and_json platform project_dir (path ∷ paths))
      (format_each_rust platform rust)
      (format_generated_ts_and_json-FailsLast platform project_dir (path ∷ paths) shortens)
      (format_each_rust-FailsLast platform rust)
