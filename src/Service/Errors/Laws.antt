-- ===== src/Service/Errors/Laws.antt =====
-- server/service.ts `mapSyncError` and server/handlers.ts `getErrorStatus`: how an error's code and
-- the response's HTTP status agree.
use baresync.Prelude.{ℕ, true, false, none, some, ◌⊎◌, inl, inr, ◌≡◌, refl, Bool-cases}
use baresync.Service.Errors.{Thrown, with_status, status_of_code, to_sync_error_response}

-- The statuses that `mapSyncError` knows, but 404, whose code is also that of 403.
abbrev pub IsOwnStatus : ℕ → Type 0
IsOwnStatus status =
    (status ≡ 409) ⊎ (status ≡ 401) ⊎ (status ≡ 413) ⊎ (status ≡ 403) ⊎ (status ≡ 400)

with_status-own :
    (status : ℕ) (error : Thrown)
    → IsOwnStatus status
    → status_of_code (with_status status error).code ≡ status
with_status-own status error (inl e) = rw e refl
with_status-own status error (inr (inl e)) = rw e refl
with_status-own status error (inr (inr (inl e))) = rw e refl
with_status-own status error (inr (inr (inr (inl e)))) = rw e refl
with_status-own status error (inr (inr (inr (inr e)))) = rw e refl

-- An error that carries one of the statuses 400, 401, 403, 409 and 413 is answered with that
-- status and with the code that stands for it: the status which the code has by itself is the same.
-- One with status 404 is answered with 404 and the code of 403.
pub to_sync_error_response-own_status :
    (error : Thrown) (status : ℕ)
    → error.payload_too_large ≡ false
    → error.status ≡ some status
    → IsOwnStatus status ⊎ (status ≡ 404)
    → ((to_sync_error_response error).1 ≡ status)
      × ((status_of_code (to_sync_error_response error).0.code ≡ status)
          ⊎ ((status ≡ 404) × ((to_sync_error_response error).0.code ≡ "sync_scope_invalid")))
unfolding to_sync_error_response
to_sync_error_response-own_status error status small carried (inl own) =
    rw (small, carried) (refl, inl (with_status-own status error own))
to_sync_error_response-own_status error status small carried (inr e) =
    rw (small, carried, e) (refl, inr (refl, refl))

-- An error without a status is answered with 413 when it is a `SyncPayloadTooLargeError` and
-- with 500 otherwise, under the code of a network error when it is a `TypeError` and as unknown when
-- it is not.
pub to_sync_error_response-no_status :
    (error : Thrown)
    → error.status ≡ none
    → ((error.payload_too_large ≡ true)
        × ((to_sync_error_response error).0.code ≡ "sync_payload_too_large")
        × ((to_sync_error_response error).1 ≡ 413))
      ⊎ ((error.payload_too_large ≡ false)
          × (error.type_error ≡ true)
          × ((to_sync_error_response error).0.code ≡ "sync_network_error")
          × ((to_sync_error_response error).1 ≡ 500))
      ⊎ ((error.payload_too_large ≡ false)
          × (error.type_error ≡ false)
          × ((to_sync_error_response error).0.code ≡ "sync_unknown")
          × ((to_sync_error_response error).1 ≡ 500))
unfolding to_sync_error_response
to_sync_error_response-no_status error missing = elim (Bool-cases error.payload_too_large) [
  | inl large ↦ inl (large, rw large refl, rw (missing, large) refl)
  | inr small ↦ elim (Bool-cases error.type_error) [
    | inl network ↦
        inr (
          inl
            (small, network, rw (small, missing, network) refl, rw (small, missing, network) refl))
    | inr other ↦
        inr (inr (small, other, rw (small, missing, other) refl, rw (small, missing, other) refl))
  ]
]
