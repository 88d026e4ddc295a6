-- ===== src/Handlers/Reading/Tests.antt =====
-- packages/baresync/src/server/handlers.ts: a status request and two pulls of one small table.
use Prim.Native.String.{compare}
use baresync.Prelude.{
  ℕ, String, none, some, List, [], ◌∷◌, map, ◌≡◌, refl, ◌⊎◌, any, keep, Result, ok, throw, ◌==◌,
  if◌then◌else◌,
}
use baresync.Service.Cursor.{bad_format, parse_sync_cursor_timestamp}
use baresync.Service.Cursor.Tests.{tallies}
use baresync.Service.Rows.{SyncRow, PublicRow}
use baresync.Service.Rows.Laws.{is_carrying}
use baresync.Service.Envelope.{pull, status}
use baresync.Service.Errors.{Thrown, SyncError}
use baresync.Repository.{Fields, TableConfig}
use baresync.Repository.Answers.{PullResponse, StatusResponse}
use baresync.Handlers.{SyncScopeResolution, authorized, Response, value, failed_with}
use baresync.Handlers.Reading.{ReadRequest, prepare_read}
use baresync.Handlers.Reading.Agreeing.{
  answer_status, answer_pull, status_handler-pull_handler, pull_handler-bad_cursor,
}

abbrev kept : SyncRow (Unit {0})
kept = record { id = "a1"; deleted_at = none; sync_updated_at = 3; updated_at = "t"; columns = tt }

abbrev config : String → TableConfig (List String) Thrown ℕ (Unit {0}) Fields
config name = record {
  build_row = λ input. ok input.row;
  read_latest_row = λ scope world. some kept;
  read_rows = λ cursor scope world. if name == "items" then kept ∷ [] else [];
  soft_delete_row = λ id time at world. (ok tt, id ∷ world);
  upsert_row = λ row world. (ok tt, name ∷ world);
}

abbrev names : List String
names = "items" ∷ "locations" ∷ []

abbrev parse : ReadRequest → Result Thrown ReadRequest
parse request = ok request

abbrev anyone : ReadRequest → String → Result Thrown (SyncScopeResolution ℕ ℕ)
anyone request scope_id = ok (authorized 1)

abbrev asking : String → ReadRequest
asking cursor = record {
  fields = "scopeId" ∷ "cursor" ∷ "tables" ∷ [];
  scope_id = "s";
  cursor = cursor;
  tables = [];
}

abbrev said : Response StatusResponse ℕ
said = answer_status parse anyone tallies compare (λ time. "2026") names config 9 100 [] (asking "")

abbrev carried : String → Response (PullResponse (PublicRow (Unit {0}))) ℕ
carried cursor =
    answer_pull parse anyone tallies compare (λ time. "2026") names config 9 100 [] (asking cursor)

status_prepared : prepare_read parse anyone status (asking "") ≡ ok (asking "", authorized 1)
unfolding prepare_read
status_prepared = refl

pull_prepared :
    (cursor : String)
    → prepare_read parse anyone pull (asking cursor) ≡ ok (asking cursor, authorized 1)
unfolding prepare_read
pull_prepared cursor = refl

bad_text : parse_sync_cursor_timestamp tallies "sync:1" ≡ throw (bad_format "sync:1")
unfolding parse_sync_cursor_timestamp
bad_text = refl

status_handler-pull_handler_example :
    ((failure : SyncError × ℕ) × (said ≡ failed_with failure) × (carried "" ≡ failed_with failure))
    ⊎ ((s : StatusResponse) × (q : PullResponse (PublicRow (Unit {0}))) × (said ≡ value s)
        × (carried "" ≡ value q)
        × (s.cursor ≡ q.cursor)
        × (s.changed_tables ≡ map (λ t. t.table) (keep is_carrying q.tables))
        × (s.has_changes ≡ any is_carrying q.tables))
status_handler-pull_handler_example =
    status_handler-pull_handler parse anyone tallies compare (λ time. "2026") names config 9 100 []
      (asking "") (asking "") (asking "") (asking "") 1 1 status_prepared (pull_prepared "") refl
      refl refl

pull_handler-bad_cursor_example :
    (failure : SyncError) × (carried "sync:1" ≡ failed_with (failure, 500))
    × (failure.code ≡ "sync_unknown")
pull_handler-bad_cursor_example =
    pull_handler-bad_cursor parse anyone tallies compare (λ time. "2026") names config 9 100 []
      (asking "sync:1") (asking "sync:1") 1 (bad_format "sync:1") (pull_prepared "sync:1") bad_text
