-- ===== src/Handlers/Reading.antt =====
-- packages/baresync/src/server/handlers.ts, `createStatusHandler` and `createPullHandler`. The parse
-- of a request and the application's `resolveScope`, `loadSyncStatus` and `loadPullChanges` are
-- parameters; the context, which the handlers pass on, is left out.
pub mod Agreeing
mod Tests
use baresync.Prelude.{ℕ, String, List, Result, ok, throw, ◌>>=◌, ◌>>◌}
use baresync.Service.Envelope.{SyncRequestKind, pull, status, validate_sync_request_body}
use baresync.Service.Errors.{Thrown, SyncError, to_sync_error_response}
use baresync.Handlers.{
  SyncScopeResolution, authorized, unauthorized, Response, value, denied, failed_with,
  missing_field,
}

-- A parsed request: the names of its fields, and those that the two handlers read.
pub record ReadRequest : Type 0 where
  pub fields : List String
  pub scope_id : String
  pub cursor : String
  pub tables : List String

pub record SyncLoadStatusInput (Scope : Type 0) : Type 0 where
  pub cursor : String
  pub scope : Scope
  pub scope_id : String

pub record SyncLoadPullChangesInput (Scope : Type 0) : Type 0 where
  pub cursor : String
  pub limit : ℕ
  pub scope : Scope
  pub scope_id : String
  pub tables : List String

-- `encodeSyncResponse`, or the `catch` of the handlers.
abbrev pub answered : {T Denial : Type 0} → Result Thrown T → Response T Denial
answered (ok result) = value result
answered (throw error) = failed_with (to_sync_error_response error)

module _ {Request Scope Denial : Type 0} (parse : Request → Result Thrown ReadRequest)
    (resolve_scope : Request → String → Result Thrown (SyncScopeResolution Scope Denial)) where
  -- The two handlers up to the scope.
  unfoldable pub prepare_read :
      SyncRequestKind → Request → Result Thrown (ReadRequest × SyncScopeResolution Scope Denial)
  unfolding validate_sync_request_body
  prepare_read kind request = do
    decoded ← parse request
    missing_field (validate_sync_request_body kind decoded.fields)
    scope ← resolve_scope request decoded.scope_id
    ok (decoded, scope)

  -- The two handlers behind it.
  abbrev pub with_scope :
      {T : Type 0}
      → (ReadRequest → Scope → Result Thrown T)
      → Result Thrown (ReadRequest × SyncScopeResolution Scope Denial)
      → Response T Denial
  with_scope load (throw error) = failed_with (to_sync_error_response error)
  with_scope load (ok (decoded, unauthorized code body)) = denied code body
  with_scope load (ok (decoded, authorized scope)) = answered (load decoded scope)

  unfoldable pub status_handler :
      {T : Type 0} → (SyncLoadStatusInput Scope → Result Thrown T) → Request → Response T Denial
  unfolding prepare_read to_sync_error_response
  status_handler load_sync_status request =
      with_scope
        (λ decoded scope.
          load_sync_status
            (record { cursor = decoded.cursor; scope = scope; scope_id = decoded.scope_id }))
        (prepare_read status request)

  unfoldable pub pull_handler :
      {T : Type 0}
      → ℕ
      → (SyncLoadPullChangesInput Scope → Result Thrown T)
      → Request
      → Response T Denial
  unfolding prepare_read to_sync_error_response
  pull_handler limit load_pull_changes request =
      with_scope
        (λ decoded scope. load_pull_changes (record {
          cursor = decoded.cursor;
          limit = limit;
          scope = scope;
          scope_id = decoded.scope_id;
          tables = decoded.tables;
        }))
        (prepare_read pull request)
