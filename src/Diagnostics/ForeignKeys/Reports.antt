-- ===== src/Diagnostics/ForeignKeys/Reports.antt =====
-- packages/baresync/src/generator/diagnostics.ts: what the check of the foreign keys reports of an
-- error of the order.
use Prim.Native.String
use Prim.Native.String.{[], ◌∷◌}
use text.Mathlib.TextLemmas.{cons-append, append_assoc}
use baresync.Prelude.{
  String, true, false, ◌||◌, Option, none, some, [], ◌∷◌, ◌≡◌, ◌⊎◌, inl, inr, refl, Bool-cases,
}
use baresync.Casing.{to_lower}
use baresync.FkOrder.{
  OrderError, missing_target, external_reference, cycle_detected, missing_node, out_of_fuel,
}
use baresync.Texts.{rest_after, same, rest_after-own}
use baresync.Diagnostics.ForeignKeys.{
  message, tests, at_word, at_table, at_target, if_target, from_word, first_match, on_match, report,
}
use baresync.Diagnostics.ForeignKeys.Matching.{
  tests-left, tests-right, first_match-never, first_match-here, IsWord, word-all_word, word-append,
  behind_word-append, nonempty-some,
}

at_word-none : (u : String) → rest_after same "at " u ≡ none → at_word u ≡ none
unfolding at_word
at_word-none u h = rw h refl

at_word-own : (x : String) → IsWord x → at_word (String.◌++◌ "at " x) ≡ some x
unfolding at_word
at_word-own x h = rw (rest_after-own same "at " x refl, word-all_word x h.0) (nonempty-some x h.1)

cycle_table : (x : String) → IsWord x → first_match at_word (message (cycle_detected x)) ≡ some x
cycle_table x h =
    let split : message (cycle_detected x)
        ≡ String.◌++◌ "Sync FK order cycle detected " (String.◌++◌ "at " x) =
      append_assoc "Sync FK order cycle detected " "at " x in
    rw
      (
        split,
        first_match-never same "at " at_word at_word-none "Sync FK order cycle detected "
            (String.◌++◌ "at " x) refl,
      )
      (first_match-here at_word _ x (at_word-own x h))

pub report-cycle :
    (x : String)
    → IsWord x
    → report (message (cycle_detected x)) ≡ on_match "SYNC_SCHEMA_FK_CYCLE" (some x) ∷ []
unfolding report
report-cycle x h =
    rw (tests-left "cycle" "Sync FK order cycle detected at " x refl, cycle_table x h) refl

abbrev target : String → String
target y = String.◌++◌ " to external table " y

at_table-own : (y : String) → at_table (String.◌++◌ "table " y) ≡ true
unfolding at_table
at_table-own y =
    let split : String.◌++◌ "table " y ≡ String.◌++◌ "tabl" (String.◌++◌ "e " y) =
      append_assoc "tabl" "e " y in
    rw (split, rest_after-own to_lower "tabl" (String.◌++◌ "e " y) refl, cons-append) refl

at_target-own : (y : String) → at_target (rest_after to_lower " to " (target y)) ≡ true
unfolding to_lower
at_target-own y =
    let split : target y ≡ String.◌++◌ " to " (String.◌++◌ "external table " y) =
      append_assoc " to " "external table " y in
    let onward : String.◌++◌ "external table " y
        ≡ String.◌++◌ "external " (String.◌++◌ "table " y) =
      append_assoc "external " "table " y in
    rw
      (
        split,
        rest_after-own to_lower " to " (String.◌++◌ "external table " y) refl,
        onward,
        rest_after-own to_lower "external " (String.◌++◌ "table " y) refl,
        at_table-own y,
      )
      refl

from_word-none : (u : String) → rest_after to_lower "from " u ≡ none → from_word u ≡ none
unfolding from_word
from_word-none u h = rw h refl

from_word-own :
    (x y : String) → IsWord x → from_word (String.◌++◌ "from " (String.◌++◌ x (target y))) ≡ some x
unfolding from_word
from_word-own x y h =
    let space : target y ≡ " " ∷ String.◌++◌ "to external table " y =
      cons-append " " "to external table " y in
    let taken = word-append x (String.◌++◌ "to external table " y) h.0 in
    let left = behind_word-append x (String.◌++◌ "to external table " y) h.0 in
    rw
      (
        rest_after-own to_lower "from " (String.◌++◌ x (target y)) refl,
        rw (← space) at taken,
        nonempty-some x h.1,
        if_target,
        rw (← space) at left,
        at_target-own y,
      )
      refl

external_table :
    (x y : String) → IsWord x → first_match from_word (message (external_reference x y)) ≡ some x
unfolding to_lower
external_table x y h =
    let rest = String.◌++◌ "from " (String.◌++◌ x (target y)) in
    let split : message (external_reference x y)
        ≡ String.◌++◌ "Sync FK order cannot ignore required reference " rest =
      append_assoc "Sync FK order cannot ignore required reference " "from "
        (String.◌++◌ x (target y)) in
    rw
      (
        split,
        first_match-never to_lower "from " from_word from_word-none
            "Sync FK order cannot ignore required reference " rest refl,
      )
      (first_match-here from_word rest x (from_word-own x y h))

tests-external : (x y : String) → tests "external" (message (external_reference x y)) ≡ true
unfolding tests
tests-external x y =
    tests-right "external" "Sync FK order cannot ignore required reference from "
      (String.◌++◌ x (target y))
      (tests-right "external" x (target y) (tests-left "external" " to external table " y refl))

tests-names :
    (x y : String)
    → (tests "cycle" x || tests "cycle" y) ≡ true
    → tests "cycle" (message (external_reference x y)) ≡ true
tests-names x y h =
    tests-right "cycle" "Sync FK order cannot ignore required reference from "
      (String.◌++◌ x (target y))
      (elim (Bool-cases (tests "cycle" x)) [
        | inl first ↦ tests-left "cycle" x (target y) first
        | inr other ↦
            tests-right "cycle" x (target y)
              (tests-right "cycle" " to external table " y (rw other at h))
      ])

pub report-external :
    (x y : String)
    → IsWord x
    → tests "cycle" (message (external_reference x y)) ≡ false
    → report (message (external_reference x y))
      ≡ on_match "SYNC_SCHEMA_REQUIRED_EXTERNAL_FK" (some x) ∷ []
unfolding report
report-external x y h other = rw (other, tests-external x y, external_table x y h) refl

pub report-mistaken :
    (x y : String)
    → (tests "cycle" x || tests "cycle" y) ≡ true
    → (table : Option String) × (report (message (external_reference x y))
        ≡ on_match "SYNC_SCHEMA_FK_CYCLE" table ∷ [])
unfolding report
report-mistaken x y h =
    (first_match at_word (message (external_reference x y)), rw (tests-names x y h) refl)

-- An external reference or a cycle is never passed by.
pub report-silent :
    (e : OrderError)
    → report (message e) ≡ []
    → (e ≡ missing_target) ⊎ (e ≡ out_of_fuel) ⊎ ((x : String) × (e ≡ missing_node x))
unfolding report
report-silent missing_target h = inl refl
report-silent (external_reference x y) h =
    elim (Bool-cases (tests "cycle" (message (external_reference x y)))) [
      | inl mistaken ↦ cc (rw mistaken at h)
      | inr other ↦ cc (rw (other, tests-external x y) at h)
    ]
report-silent (cycle_detected x) h =
    cc (rw (tests-left "cycle" "Sync FK order cycle detected at " x refl) at h)
report-silent (missing_node x) h = inr (inr (x, refl))
report-silent out_of_fuel h = inr (inl refl)
