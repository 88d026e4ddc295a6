-- ===== src/Handlers/Reading/Agreeing.antt =====
-- packages/baresync/src/server/handlers.ts and drizzle.ts: the handlers of status and pull over the
-- repository.
use Prim.Native.Nat.{Ordering}
use Prim.Native.String
use baresync.Prelude.{
  ℕ, String, List, [], map, ◌≡◌, refl, ap, ◌⊎◌, inl, inr, any, keep, Result, ok, throw,
}
use baresync.Service.Cursor.{
  Numbers, CursorError, bad_format, bad_timestamp, parse_sync_cursor_timestamp,
}
use baresync.Service.Rows.{PublicRow}
use baresync.Service.Rows.Laws.{is_carrying}
use baresync.Service.Envelope.{pull, status}
use baresync.Service.Errors.{Thrown, SyncError, to_sync_error_response}
use baresync.Repository.{TableConfig}
use baresync.Repository.Answers.{PullResponse, StatusResponse, load_pull_changes, load_sync_status}
use baresync.Repository.Answers.Agreement.{load_sync_status-pull}
use baresync.Handlers.{SyncScopeResolution, authorized, Response, value, failed_with, plain_error}
use baresync.Handlers.Reading.{
  ReadRequest, SyncLoadStatusInput, SyncLoadPullChangesInput, answered, prepare_read,
  status_handler, pull_handler,
}

-- What `parseSyncCursor` throws.
abbrev pub bad_cursor : CursorError → Thrown
bad_cursor (bad_format cursor) = plain_error (
    String.◌++◌ "Invalid sync cursor format: \""
      (String.◌++◌ cursor "\". Expected \"sync:timestamp:tableName:rowId\"."))
bad_cursor (bad_timestamp text) =
    plain_error
      (String.◌++◌ "Invalid sync cursor timestamp: \"" (String.◌++◌ text "\" is not a number."))

module _ {Request Scope Denial World Columns WriteRow : Type 0}
    (parse : Request → Result Thrown ReadRequest)
    (resolve_scope : Request → String → Result Thrown (SyncScopeResolution Scope Denial))
    (n : Numbers) (locale_compare : String → String → Ordering) (iso : ℕ → String)
    (table_names : List String) (tables : String → TableConfig World Thrown n.Num Columns WriteRow)
    (observed_at limit : ℕ) (world : World) where
  abbrev pub status_of : SyncLoadStatusInput Scope → Result Thrown StatusResponse
  status_of input =
      load_sync_status n locale_compare bad_cursor iso table_names tables input.scope_id observed_at
        input.cursor world

  abbrev pub pull_of :
      SyncLoadPullChangesInput Scope → Result Thrown (PullResponse (PublicRow Columns))
  pull_of input =
      load_pull_changes n locale_compare bad_cursor iso table_names tables input.scope_id
        observed_at input.cursor input.tables world

  abbrev pub answer_status : Request → Response StatusResponse Denial
  answer_status = status_handler parse resolve_scope status_of

  abbrev pub answer_pull : Request → Response (PullResponse (PublicRow Columns)) Denial
  answer_pull = pull_handler parse resolve_scope limit pull_of

  module _ (asking pulling : Request) (asked pulled : ReadRequest) (scope scope' : Scope) where
    -- Where the handlers read through the repository, an authorized status request and an authorized
    -- pull of every table for the same cursor and scope id, over one state of the tables and at one
    -- time, both fail with the same error and HTTP status, or both are answered: with the same
    -- cursor, and the status names the tables of which the pull carries something.
    pub status_handler-pull_handler :
        prepare_read parse resolve_scope status asking ≡ ok (asked, authorized scope)
        → prepare_read parse resolve_scope pull pulling ≡ ok (pulled, authorized scope')
        → asked.cursor ≡ pulled.cursor
        → asked.scope_id ≡ pulled.scope_id
        → pulled.tables ≡ []
        → ((failure : SyncError × ℕ) × (answer_status asking ≡ failed_with failure)
            × (answer_pull pulling ≡ failed_with failure))
          ⊎ ((s : StatusResponse) × (q : PullResponse (PublicRow Columns)) × (answer_status asking
                ≡ value s)
              × (answer_pull pulling ≡ value q)
              × (s.cursor ≡ q.cursor)
              × (s.changed_tables ≡ map (λ t. t.table) (keep is_carrying q.tables))
              × (s.has_changes ≡ any is_carrying q.tables))
    unfolding status_handler pull_handler
    status_handler-pull_handler asking_ok pulling_ok cursors scopes every =
        rw (asking_ok, pulling_ok, cursors, scopes, every)
          (elim (load_sync_status-pull n locale_compare bad_cursor iso table_names tables
            pulled.scope_id observed_at pulled.cursor world) [
              | inl (error, refused, refused') ↦
                  inl (to_sync_error_response error, ap answered refused, ap answered refused')
              | inr (s, q, said, carried, same, changed, any_change) ↦
                  inr (s, q, ap answered said, ap answered carried, same, changed, any_change)
            ])

  -- A pull whose cursor does not parse is answered as an unknown error, with the HTTP status 500.
  pub pull_handler-bad_cursor :
      (pulling : Request) (pulled : ReadRequest) (scope : Scope) (reason : CursorError)
      → prepare_read parse resolve_scope pull pulling ≡ ok (pulled, authorized scope)
      → parse_sync_cursor_timestamp n pulled.cursor ≡ throw reason
      → (failure : SyncError) × (answer_pull pulling ≡ failed_with (failure, 500))
        × (failure.code ≡ "sync_unknown")
  unfolding pull_handler load_pull_changes to_sync_error_response
  pull_handler-bad_cursor pulling pulled scope (bad_format cursor) prepared bad =
      rw (prepared, bad) (_, refl, refl)
  pull_handler-bad_cursor pulling pulled scope (bad_timestamp text) prepared bad =
      rw (prepared, bad) (_, refl, refl)
