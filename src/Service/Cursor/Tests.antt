-- ===== src/Service/Cursor/Tests.antt =====
-- Numbers for the tests: a tally, of which each text is the number of its characters.
use Prim.Native.String
use Prim.Native.String.{[], ◌∷◌}
use text.Mathlib.TextLemmas.{nil-append, cons-append}
use baresync.Prelude.{ℕ, zero, suc, String, true, ◌≡◌, refl, ap, some, ok, throw}
use baresync.Service.Cursor.{Numbers, SyncCursor, bad_format, parse_sync_cursor, format_sync_cursor}
use baresync.Service.Cursor.Text.{NoColon, colons-NoColon, colons}
use baresync.Service.Cursor.Format.{parse_sync_cursor-format, parse_sync_cursor-format_colon}

abbrev pub tally : ℕ → String
tally zero = ""
tally (suc n) = String.◌++◌ "1" (tally n)

abbrev pub count : String → ℕ
count [] = 0
count (c ∷ s) = suc (count s)

pub count-tally : (n : ℕ) → count (tally n) ≡ n
count-tally zero = refl
count-tally (suc n) = rw cons-append (rw nil-append (ap suc (count-tally n)))

pub tally-NoColon : (n : ℕ) → NoColon (tally n)
tally-NoColon zero = tt
tally-NoColon (suc n) = rw cons-append (rw nil-append (refl, tally-NoColon n))

abbrev pub tallies : Numbers
tallies = record {
  Num = ℕ;
  of_ℕ = λ n. n;
  number = count;
  is_finite = λ n. true;
  show = tally;
  number-show = λ n finite. count-tally n;
  show-NoColon = tally-NoColon;
  of_ℕ-is_finite = λ n small. refl;
}

abbrev item : String → SyncCursor tallies
item id = record { sync_updated_at = 3; table_name = "items"; row_id = id }

printed : format_sync_cursor tallies (item "a1") ≡ "sync:111:items:a1"
unfolding format_sync_cursor
printed = refl

refused : parse_sync_cursor tallies "sync:111:items" ≡ throw (bad_format "sync:111:items")
unfolding parse_sync_cursor
refused = refl

parse_sync_cursor-format_example :
    parse_sync_cursor tallies (format_sync_cursor tallies (item "a1")) ≡ ok (some (item "a1"))
unfolding colons
parse_sync_cursor-format_example =
    parse_sync_cursor-format tallies (item "a1") refl (colons-NoColon "items" refl)
      (colons-NoColon "a1" refl)

parse_sync_cursor-format_colon_example :
    parse_sync_cursor tallies (format_sync_cursor tallies (item "user:7"))
    ≡ throw (bad_format (format_sync_cursor tallies (item "user:7")))
unfolding colons
parse_sync_cursor-format_colon_example =
    parse_sync_cursor-format_colon tallies (item "user:7") (λ e. cc)
