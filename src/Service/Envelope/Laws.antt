-- ===== src/Service/Envelope/Laws.antt =====
-- server/service.ts: which requests pass `validateSyncRequestBody` and `validatePushEnvelope`.
use baresync.Prelude.{
  ℕ, ◌≤◌, ◌<◌, String, true, false, Option, none, some, ◌⊎◌, inl, inr, List, [], ◌∷◌, ◌≡◌, refl,
  sym, arith, ltb, has, ok, throw, Bool-cases, All, has_self,
}
use baresync.Service.Envelope.{
  SyncRequestKind, missing, require_fields, required_fields, validate_sync_request_body, PushTable,
  bytes_exceed, rows_exceed, PushLimits, total_rows, count_rows, tables_or_empty, count_push_rows,
  body_bytes, validate_push_envelope,
}

has-later :
    (field f : String) (fields : List String) → has f fields ≡ true → has f (field ∷ fields) ≡ true
unfolding has
has-later field f fields h = ground arith

require_fields-cases :
    (body fields : List String) (label : SyncRequestKind)
    → ((require_fields body fields label ≡ ok tt) × All (λ f. has f body ≡ true) fields)
      ⊎ ((field : String) × (require_fields body fields label ≡ throw (missing label field))
          × (has field fields ≡ true)
          × (has field body ≡ false))
unfolding require_fields
require_fields-cases body [] label = inl (refl, tt)
require_fields-cases body (field ∷ fields) label = elim (Bool-cases (has field body)) [
  | inr e ↦ inr (field, rw (e, require_fields) refl, has_self field fields, e)
  | inl e ↦ elim (require_fields-cases body fields label) [
    | inl (h, present) ↦ inl (rw (e, require_fields) h, (e, present))
    | inr (f, h, among, absent) ↦
        inr (f, rw (e, require_fields) h, has-later field f fields among, absent)
  ]
]

-- A request body passes when it has every field that its kind requires; otherwise the error names a
-- required field that the body does not have.
pub validate_sync_request_body-cases :
    (kind : SyncRequestKind) (body : List String)
    → ((validate_sync_request_body kind body ≡ ok tt)
        × All (λ f. has f body ≡ true) (required_fields kind))
      ⊎ ((field : String) × (validate_sync_request_body kind body ≡ throw (missing kind field))
          × (has field (required_fields kind) ≡ true)
          × (has field body ≡ false))
unfolding validate_sync_request_body
validate_sync_request_body-cases kind body = require_fields-cases body (required_fields kind) kind

module _ {Row : Type 0} where
  count_rows-total_rows :
      (tables : List (PushTable Row)) (total : ℕ)
      → count_rows total tables ≡ total_rows total tables
  unfolding count_rows total_rows
  count_rows-total_rows [] total = refl
  count_rows-total_rows (table ∷ tables) total = count_rows-total_rows tables _

  count_push_rows-total_rows :
      (tables : Option (List (PushTable Row)))
      → total_rows 0 (tables_or_empty tables) ≡ count_push_rows tables
  unfolding count_push_rows total_rows
  count_push_rows-total_rows none = refl
  count_push_rows-total_rows (some tables) = cc (count_rows-total_rows tables 0)

  -- A push passes the envelope check when its bytes and the rows that `countPushRows` counts are
  -- within the limits, a limit itself included. Too many bytes are reported first, whatever the rows; too many
  -- rows are reported with their number.
  pub validate_push_envelope-cases :
      (tables : Option (List (PushTable Row))) (raw : Option ℕ) (encoded : ℕ) (limits : PushLimits)
      → ((validate_push_envelope tables raw encoded limits ≡ ok tt)
          × (body_bytes raw encoded ≤ limits.max_bytes)
          × (count_push_rows tables ≤ limits.max_rows))
        ⊎ ((validate_push_envelope tables raw encoded limits
              ≡ throw (bytes_exceed (body_bytes raw encoded) limits.max_bytes))
            × (limits.max_bytes < body_bytes raw encoded))
        ⊎ ((validate_push_envelope tables raw encoded limits
              ≡ throw (rows_exceed (count_push_rows tables) limits.max_rows))
            × (body_bytes raw encoded ≤ limits.max_bytes)
            × (limits.max_rows < count_push_rows tables))
  unfolding validate_push_envelope
  validate_push_envelope-cases tables raw encoded limits =
      rw (sym (count_push_rows-total_rows tables))
        elim (Bool-cases (ltb limits.max_bytes (body_bytes raw encoded))) [
          | inl e ↦ inr (inl (rw (e, validate_push_envelope) refl, ground arith))
          | inr e ↦
              elim (Bool-cases (ltb limits.max_rows (total_rows 0 (tables_or_empty tables)))) [
                | inl f ↦
                    inr (inr (rw (e, f, validate_push_envelope) refl, ground arith, ground arith))
                | inr f ↦ inl (rw (e, f, validate_push_envelope) refl, ground arith, ground arith)
              ]
        ]
