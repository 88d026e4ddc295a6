-- ===== src/Diagnostics/ForeignKeys.antt =====
-- packages/baresync/src/generator/diagnostics.ts, the check of the foreign keys: it computes the order
-- of the tables and reads the text of the error. The platform's matches of its four patterns are
-- written out: a pattern without the flag `i` compares characters, one with it compares their small
-- letters, and `\w` is a letter, digit or underscore of ASCII.
pub mod Matching
pub mod Reports
use Prim.Native.Char.{Char, code}
use Prim.Native.String
use Prim.Native.String.{[], ◌∷◌}
use baresync.Prelude.{
  ℕ, String, Bool, true, false, ◌&&◌, ◌||◌, Option, none, some, List, [], ◌∷◌, map, ◌==◌, leb, ◌=?◌,
  if◌then◌else◌, Result, ok, throw,
}
use baresync.JsObject.{in_key_order}
use baresync.Tables.{Table}
use baresync.Casing.{is_upper, is_lower, is_underscore, to_lower}
use baresync.Contract.{SyncContract, SyncedTableDefinition, SyncContractTableMeta}
use baresync.FkOrder.{
  OrderError, missing_target, external_reference, cycle_detected, missing_node, out_of_fuel,
  SyncTableOrder, compute_sync_table_order,
}
use baresync.Texts.{rest_after, same}
use baresync.Diagnostics.{SyncDiagnostic, error}

-- `err.message`
abbrev pub message : OrderError → String
message missing_target = "Foreign key reference is missing target table metadata"
message (external_reference table referenced) =
    String.◌++◌ "Sync FK order cannot ignore required reference from "
      (String.◌++◌ table (String.◌++◌ " to external table " referenced))
message (cycle_detected table) = String.◌++◌ "Sync FK order cycle detected at " table
message (missing_node table) = String.◌++◌ "Missing sync table node for " table
message out_of_fuel = ""

abbrev pub is_word : Char → Bool
is_word c =
    is_upper c || (is_lower c || (is_underscore c || (leb b'0' (code c) && leb (code c) b'9')))

abbrev pub is_some : Option String → Bool
is_some none = false
is_some (some s) = true

-- `pattern.test(s)` for a pattern of small letters.
unfoldable pub tests : String → String → Bool
unfolding rest_after to_lower
tests pattern [] = is_some (rest_after to_lower pattern [])
tests pattern (c ∷ s) = is_some (rest_after to_lower pattern (c ∷ s)) || tests pattern s

-- `\w*` at the head of a text, and what stands behind it.
unfoldable pub word : String → String
word [] = []
word (c ∷ s) = let rest = word s in if is_word c then c ∷ rest else []

unfoldable pub behind_word : String → String
behind_word [] = []
behind_word (c ∷ s) = let rest = behind_word s in if is_word c then rest else c ∷ s

abbrev pub nonempty : String → Option String
nonempty [] = none
nonempty (c ∷ s) = some (c ∷ s)

-- A match at the head of a text: `m[1]` of `/at (\w+)/`.
abbrev pub word_of : Option String → Option String
word_of none = none
word_of (some s) = nonempty (word s)

unfoldable pub at_word : String → Option String
unfolding rest_after word
at_word s = word_of (rest_after same "at " s)

-- `/(\w)/` at the head of a text.
abbrev pub begins_word : String → Bool
begins_word [] = false
begins_word (c ∷ s) = is_word c

-- `e? ?(\w+)` at the head of a text, where an `e` is a `\w` too.
abbrev pub ends_table : Option String → Bool
ends_table none = false
ends_table (some []) = false
ends_table (some (c ∷ s)) = is_word c || (code c =? b' ' && begins_word s)

-- `table? ?(\w+)`
unfoldable pub at_table : String → Bool
unfolding rest_after to_lower
at_table s = ends_table (rest_after to_lower "tabl" s)

abbrev pub at_external : Option String → Bool
at_external none = false
at_external (some s) = at_table s

-- ` to (?:external )?table? ?(\w+)`
abbrev pub at_target : Option String → Bool
at_target none = false
at_target (some s) = at_external (rest_after to_lower "external " s) || at_table s

abbrev pub if_target : String → Option String → Option String
if_target s none = none
if_target s (some w) =
    if at_target (rest_after to_lower " to " (behind_word s)) then some w else none

abbrev pub from_of : Option String → Option String
from_of none = none
from_of (some s) = if_target s (nonempty (word s))

-- `m[1]` of `/from (\w+) to (?:external )?table? ?(\w+)/i`. The name ends at the space behind it, so
-- no shorter one can match.
unfoldable pub from_word : String → Option String
unfolding rest_after to_lower word behind_word at_table
from_word s = from_of (rest_after to_lower "from " s)

abbrev pub or_else : Option String → Option String → Option String
or_else (some s) later = some s
or_else none later = later

-- `message.match(pattern)`: the first position at which it matches.
unfoldable pub first_match : (String → Option String) → String → Option String
first_match match_at [] = match_at []
first_match match_at (c ∷ s) = or_else (match_at (c ∷ s)) (first_match match_at s)

abbrev pub on_match : String → Option String → SyncDiagnostic
on_match code table = record { code = code; severity = error; table = table; column = none }

unfoldable pub report : String → List SyncDiagnostic
unfolding tests first_match at_word from_word
report text =
    if tests "cycle" text
    then on_match "SYNC_SCHEMA_FK_CYCLE" (first_match at_word text) ∷ []
    else (if tests "external" text
        then on_match "SYNC_SCHEMA_REQUIRED_EXTERNAL_FK" (first_match from_word text) ∷ []
        else [])

-- `schemaModule[config.name] = t.table`: a name that is there keeps its place.
unfoldable pub put_table : List Table → Table → List Table
put_table [] table = table ∷ []
put_table (t ∷ tables) table =
    let rest = put_table tables table in if t.name == table.name then table ∷ tables else t ∷ rest

unfoldable pub put_tables : List Table → List SyncedTableDefinition → List Table
unfolding put_table
put_tables tables [] = tables
put_tables tables (def ∷ defs) = put_tables (put_table tables def.table) defs

-- The tables of `schemaModule`, in the order in which its keys are listed.
unfoldable pub schema_module : List SyncedTableDefinition → List Table
unfolding put_tables in_key_order
schema_module defs = in_key_order (λ (table : Table). table.name) (put_tables [] defs)

abbrev pub caught : Result OrderError SyncTableOrder → List SyncDiagnostic
caught (ok order) = []
caught (throw thrown) = report (message thrown)

unfoldable pub check_fk_cycle_and_external_fk : SyncContract → List SyncDiagnostic
unfolding schema_module compute_sync_table_order report
check_fk_cycle_and_external_fk contract = caught (
    compute_sync_table_order (schema_module contract.tables)
      (some (map (λ m. m.table_name) contract.tables_meta)))
