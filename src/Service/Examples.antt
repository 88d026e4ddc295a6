-- ===== src/Service/Examples.antt =====
-- The theorems on server/service.ts at small inputs.
use Prim.Native.String.{compare}
use baresync.Prelude.{
  ℕ, ◌+◌, ◌≤◌, ◌<◌, String, true, false, not, Option, none, some, ◌⊎◌, List, [], ◌∷◌, ◌≡◌, map,
  keep, length, All, ok, throw,
}
use baresync.Service.Latest.{
  CursorRow, Among, pick_latest_sync_cursor_row, pick_latest_sync_cursor_row-newest,
}
use baresync.Service.Rows.{SyncRow, SyncRowChangeBucket, public_row, split_sync_rows}
use baresync.Service.Rows.Laws.{is_live, split_sync_rows-partition}
use baresync.Service.Envelope.{
  PushTable, PushLimits, bytes_exceed, rows_exceed, count_push_rows, body_bytes,
  validate_push_envelope,
}
use baresync.Service.Envelope.Laws.{validate_push_envelope-cases}
use baresync.Service.Errors.{Thrown}

abbrev row_at : String → ℕ → CursorRow
row_at id time = record { id = id; sync_updated_at = time; table_name = "items"; updated_at = "t" }

pick_latest_sync_cursor_row-newest_example :
    (latest : CursorRow) × (pick_latest_sync_cursor_row compare
        (row_at "a" 1 ∷ row_at "b" 5 ∷ row_at "c" 3 ∷ [])
      ≡ some latest)
    × Among latest (row_at "a" 1 ∷ row_at "b" 5 ∷ row_at "c" 3 ∷ [])
    × All
        (λ r. r.sync_updated_at ≤ latest.sync_updated_at)
        (row_at "a" 1 ∷ row_at "b" 5 ∷ row_at "c" 3 ∷ [])
pick_latest_sync_cursor_row-newest_example =
    pick_latest_sync_cursor_row-newest compare (row_at "a" 1) (row_at "b" 5 ∷ row_at "c" 3 ∷ [])

abbrev sync_row : String → Option String → SyncRow ℕ
sync_row id deleted_at = record {
  id = id;
  deleted_at = deleted_at;
  sync_updated_at = 7;
  updated_at = "t";
  columns = 4;
}

abbrev sync_rows : List (SyncRow ℕ)
sync_rows = sync_row "a" none ∷ sync_row "b" (some "t") ∷ sync_row "c" none ∷ []

split_sync_rows-partition_example :
    ((split_sync_rows sync_rows).changed_rows ≡ map public_row (keep is_live sync_rows))
    × ((split_sync_rows sync_rows).deleted_ids
        ≡ map (λ row. row.id) (keep (λ row. not (is_live row)) sync_rows))
    × (length (split_sync_rows sync_rows).changed_rows
          + length (split_sync_rows sync_rows).deleted_ids
        ≡ length sync_rows)
split_sync_rows-partition_example = split_sync_rows-partition sync_rows

abbrev bucket_of : String → SyncRowChangeBucket String
bucket_of table = record { changed_rows = []; deleted_ids = table ∷ [] }

abbrev asked : List String
asked = "items" ∷ "other" ∷ []

abbrev contract : List String
contract = "locations" ∷ "items" ∷ []

abbrev fields : List String
fields = "tables" ∷ "scopeId" ∷ "clientId" ∷ []

abbrev sent : Option (List (PushTable ℕ))
sent = some (
    record { changed_rows = some (1 ∷ 2 ∷ []); deleted_ids = none }
    ∷ record { changed_rows = none; deleted_ids = some ("a" ∷ []) }
    ∷ [])

abbrev limits : PushLimits
limits = record { max_bytes = 100; max_rows = 2 }

validate_push_envelope-cases_example :
    ((validate_push_envelope sent none 40 limits ≡ ok tt)
      × (body_bytes none 40 ≤ 100)
      × (count_push_rows sent ≤ 2))
    ⊎ ((validate_push_envelope sent none 40 limits ≡ throw (bytes_exceed (body_bytes none 40) 100))
        × (100 < body_bytes none 40))
    ⊎ ((validate_push_envelope sent none 40 limits ≡ throw (rows_exceed (count_push_rows sent) 2))
        × (body_bytes none 40 ≤ 100)
        × (2 < count_push_rows sent))
validate_push_envelope-cases_example = validate_push_envelope-cases sent none 40 limits

-- What the guard throws for a reused key, and what `parseSyncCursor` throws.
abbrev own : ℕ
own = 409

abbrev conflict : Thrown
conflict = record {
  payload_too_large = false;
  status = some own;
  type_error = false;
  is_error = true;
  message = some "Idempotency key reused";
  text = "";
}

abbrev bad_cursor : Thrown
bad_cursor = record {
  payload_too_large = false;
  status = none;
  type_error = false;
  is_error = true;
  message = some "Invalid sync cursor format";
  text = "";
}
