-- ===== src/Service/Errors.antt =====
-- server/service.ts, `mapSyncError`, and server/handlers.ts, `getErrorStatus` and
-- `toSyncErrorResponse`: the response to a thrown value.
pub mod Laws
use baresync.Prelude.{
  ℕ, String, Bool, true, false, ◌||◌, Option, none, some, ◌==◌, ◌=?◌, if◌then◌else◌,
}

-- A thrown value, by what the code asks of it: whether it is a `SyncPayloadTooLargeError`, its
-- `status`, `none` when it has none that is a number, whether it is a `TypeError`, its message,
-- `none` when it has none that is a text, and the text that stands for a value without one.
pub record Thrown : Type 0 where
  pub payload_too_large : Bool
  pub status : Option ℕ
  pub type_error : Bool
  pub is_error : Bool
  pub message : Option String
  pub text : String

pub record SyncError : Type 0 where
  pub code : String
  pub message : String

abbrev pub or_else : Option String → String → String
or_else none text = text
or_else (some message) text = message

abbrev pub without_status : Thrown → SyncError
without_status error =
    if error.type_error
    then record { code = "sync_network_error"; message = or_else error.message "" }
    else (record {
      code = "sync_unknown";
      message = if error.is_error then or_else error.message "" else error.text;
    })

-- The tests on a status, in the order of the code.
abbrev pub with_status : ℕ → Thrown → SyncError
with_status status error =
    if status =? 409
    then record { code = "sync_idempotency_conflict"; message = or_else error.message "Conflict" }
    else (if status =? 401
        then record { code = "sync_unauthorized"; message = "Authentication required" }
        else (if status =? 413
            then record { code = "sync_payload_too_large"; message = "Payload exceeds limit" }
            else (if status =? 403 || status =? 404
                then record { code = "sync_scope_invalid"; message = "Invalid scope" }
                else (if status =? 400
                    then record { code = "sync_cursor_invalid"; message = "Bad request" }
                    else without_status error))))

abbrev pub by_status : Option ℕ → Thrown → SyncError
by_status none error = without_status error
by_status (some status) error = with_status status error

unfoldable pub map_sync_error : Thrown → SyncError
map_sync_error error =
    if error.payload_too_large
    then record { code = "sync_payload_too_large"; message = or_else error.message "" }
    else by_status error.status error

abbrev pub status_of_code : String → ℕ
status_of_code code =
    if code == "sync_unauthorized"
    then 401
    else (if code == "sync_payload_too_large"
        then 413
        else (if code == "sync_idempotency_conflict"
            then 409
            else (if code == "sync_scope_invalid"
                then 403
                else (if code == "sync_cursor_invalid" then 400 else 500))))

abbrev pub status_or : Option ℕ → String → ℕ
status_or none code = status_of_code code
status_or (some status) code = status

unfoldable pub get_error_status : Thrown → String → ℕ
get_error_status error code = status_or error.status code

unfoldable pub to_sync_error_response : Thrown → SyncError × ℕ
unfolding map_sync_error get_error_status
to_sync_error_response error =
    let mapped = map_sync_error error in (mapped, get_error_status error mapped.code)
