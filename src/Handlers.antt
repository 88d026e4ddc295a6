-- ===== src/Handlers.antt =====
-- packages/baresync/src/server/handlers.ts, `createPushHandler`. The parse and the hash of a request,
-- the application's `resolveScope` and `applyPushChanges`, and the error of a failed reservation are
-- parameters. A request's tables have both lists of each change.
pub mod Twice
pub mod Reading
mod Tests
use baresync.Prelude.{
  ℕ, String, false, true, none, some, List, [], ◌∷◌, map, Result, ok, throw, ◌>>=◌, ◌>>◌,
}
use baresync.Service.Changes.{SyncPushChange, order_push_changes}
use baresync.Service.Envelope.{
  SyncRequestKind, push, MissingField, validate_sync_request_body, PushTable, PushLimits,
  SyncPayloadTooLargeError, validate_push_envelope,
}
use baresync.Service.Errors.{Thrown, SyncError, to_sync_error_response}
use baresync.Idempotency.Table.{BatchTable}
use baresync.Idempotency.{
  GuardParams, GuardResult, GuardError, key_reused, in_progress, bad_json, callback_failed,
  reserve_failed, statement_failed, Codec, Clock, Outcome, run_guard,
}

-- A parsed request: the names of its fields, those that the handler reads, its length and its hash.
pub record Decoded (Row : Type 0) : Type 0 where
  pub fields : List String
  pub scope_id : String
  pub client_id : String
  pub idempotency_key : String
  pub tables : List (SyncPushChange Row)
  pub raw_body_byte_length : ℕ
  pub request_hash : String

pub data SyncScopeResolution (Scope Denial : Type 0) : Type 0 where
  authorized : Scope → SyncScopeResolution Scope Denial
  unauthorized : ℕ → Denial → SyncScopeResolution Scope Denial

pub record SyncPushChangesInput (Row Scope : Type 0) : Type 0 where
  pub changes : List (SyncPushChange Row)
  pub client_id : String
  pub idempotency_key : String
  pub request_hash : String
  pub scope : Scope
  pub scope_id : String
  pub sync_updated_at : ℕ

pub data Response (T Denial : Type 0) : Type 0 where
  value : T → Response T Denial
  denied : ℕ → Denial → Response T Denial
  failure : SyncError → ℕ → Response T Denial

-- `new Error(message)`
abbrev pub plain_error : String → Thrown
plain_error message = record {
  payload_too_large = false;
  status = none;
  type_error = false;
  is_error = true;
  message = some message;
  text = "";
}

-- `new SyncPayloadTooLargeError(…)` and `new ConflictRequestError(message)`
abbrev pub too_large_error : Thrown
too_large_error = record (plain_error "Push request exceeds a limit") { payload_too_large = true }

abbrev pub conflict_error : String → Thrown
conflict_error message = record (plain_error message) { status = some 409 }

abbrev pub missing_field : Result MissingField (Unit {0}) → Result Thrown (Unit {0})
missing_field (ok done) = ok done
missing_field (throw reason) = throw (plain_error "Missing required field")

abbrev pub too_large : Result SyncPayloadTooLargeError (Unit {0}) → Result Thrown (Unit {0})
too_large (ok done) = ok done
too_large (throw reason) = throw too_large_error

abbrev pub thrown_by_guard : Thrown → GuardError Thrown → Thrown
thrown_by_guard database_error key_reused =
    conflict_error "idempotency key already used with different request body"
thrown_by_guard database_error in_progress = conflict_error "sync push is already in progress"
thrown_by_guard database_error bad_json = plain_error "Unexpected token"
thrown_by_guard database_error reserve_failed = database_error
thrown_by_guard database_error statement_failed = database_error
thrown_by_guard database_error (callback_failed error) = error

abbrev pub push_table : {Row : Type 0} → SyncPushChange Row → PushTable Row
push_table change = record {
  changed_rows = some change.changed_rows;
  deleted_ids = some change.deleted_ids;
}

module _ {Request Row Scope Denial : Type 0} (parse : Request → Result Thrown (Decoded Row))
    (limits : PushLimits)
    (resolve_scope : Request → String → Result Thrown (SyncScopeResolution Scope Denial)) where
  -- `decodeSyncRequest`
  unfoldable pub decode_sync_request : SyncRequestKind → Request → Result Thrown (Decoded Row)
  unfolding validate_sync_request_body
  decode_sync_request kind request = do
    decoded ← parse request
    missing_field (validate_sync_request_body kind decoded.fields)
    ok decoded

  -- The handler up to the scope.
  unfoldable pub prepare_push :
      Request → Result Thrown (Decoded Row × SyncScopeResolution Scope Denial)
  unfolding decode_sync_request validate_push_envelope
  prepare_push request = do
    decoded ← decode_sync_request push request
    too_large (
        validate_push_envelope (some (map push_table decoded.tables))
          (some decoded.raw_body_byte_length) 0 limits)
    scope ← resolve_scope request decoded.scope_id
    ok (decoded, scope)

abbrev pub failed_with : {T Denial : Type 0} → SyncError × ℕ → Response T Denial
failed_with answer = failure answer.0 answer.1

-- `encodeSyncResponse`, or the `catch` of the handler, at the outcome of the guard.
unfoldable pub respond : {T Denial : Type 0} → Thrown → Outcome T Thrown → Response T Denial
unfolding to_sync_error_response
respond database_error (ok result) = value result.result
respond database_error (throw error) =
    failed_with (to_sync_error_response (thrown_by_guard database_error error))

abbrev pub guard_params : {Row : Type 0} → Decoded Row → GuardParams
guard_params decoded = record {
  client_id = decoded.client_id;
  idempotency_key = decoded.idempotency_key;
  request_hash = decoded.request_hash;
}

module _ {Row Scope : Type 0} (upsert_order : List String) (sync_updated_at : ℕ) where
  unfoldable pub push_input : Decoded Row → Scope → SyncPushChangesInput Row Scope
  unfolding order_push_changes
  push_input decoded scope = record {
    changes = order_push_changes decoded.tables upsert_order;
    client_id = decoded.client_id;
    idempotency_key = decoded.idempotency_key;
    request_hash = decoded.request_hash;
    scope = scope;
    scope_id = decoded.scope_id;
    sync_updated_at = sync_updated_at;
  }

module _ {Row Scope Denial T W : Type 0} (upsert_order : List String) (t : BatchTable)
    (codec : Codec T) (timeout : ℕ) (database_error : Thrown)
    (apply : SyncPushChangesInput Row Scope → W → Result Thrown T × W) (sync_updated_at : ℕ)
    (clock : Clock) where
  -- The handler behind the scope.
  unfoldable pub push_prepared :
      Result Thrown (Decoded Row × SyncScopeResolution Scope Denial)
      → t.Db × W
      → Response T Denial × t.Db × W
  unfolding to_sync_error_response run_guard respond push_input
  push_prepared (throw error) (db, world) = (failed_with (to_sync_error_response error), db, world)
  push_prepared (ok (decoded, unauthorized status body)) (db, world) =
      (denied status body, db, world)
  push_prepared (ok (decoded, authorized scope)) (db, world) =
      let out =
        run_guard t codec timeout (guard_params decoded) clock
          (apply (push_input upsert_order sync_updated_at decoded scope)) (db, world) in
      (respond database_error out.0, out.1, out.2)
