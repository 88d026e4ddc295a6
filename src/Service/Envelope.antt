-- ===== src/Service/Envelope.antt =====
-- server/service.ts, the checks on a request: `requireFields`, `validateSyncRequestBody`,
-- `validatePushEnvelope` and `countPushRows`. `Row` stands for a pushed row's columns. The number of
-- bytes of the encoded body is a parameter.
pub mod Laws
use baresync.Prelude.{
  ℕ, ◌+◌, ◌≤◌, ◌<◌, String, Bool, true, false, Option, none, some, ◌⊎◌, inl, inr, List, [], ◌∷◌,
  ◌≡◌, refl, arith, ltb, if◌then◌else◌, length, has, Result, ok, throw, ◌>>◌, Bool-cases, tests,
}

pub data SyncRequestKind : Type 0 where
  push pull status : SyncRequestKind

-- `Missing required ${label} field: "${field}"`
pub data MissingField : Type 0 where
  missing : SyncRequestKind → String → MissingField

-- `fields` are the names that the body has.
unfoldable pub require_fields :
    List String → List String → SyncRequestKind → Result MissingField (Unit {0})
unfolding has
require_fields body [] label = ok tt
require_fields body (field ∷ fields) label =
    let rest = require_fields body fields label in
    if has field body then rest else throw (missing label field)

abbrev pub required_fields : SyncRequestKind → List String
required_fields push = "scopeId" ∷ "clientId" ∷ "idempotencyKey" ∷ "tables" ∷ []
required_fields pull = "scopeId" ∷ "tables" ∷ "cursor" ∷ []
required_fields status = "scopeId" ∷ "cursor" ∷ []

unfoldable pub validate_sync_request_body :
    SyncRequestKind → List String → Result MissingField (Unit {0})
unfolding require_fields
validate_sync_request_body kind body = require_fields body (required_fields kind) kind

-- A table of the body, whose lists may be absent.
pub record PushTable (Row : Type 0) : Type 0 where
  pub changed_rows : Option (List Row)
  pub deleted_ids : Option (List String)

-- `list?.length ?? 0`
abbrev pub length_or_zero {ℓ} : {A : Type ℓ} → Option (List A) → ℕ
length_or_zero none = 0
length_or_zero (some list) = length list

pub data SyncPayloadTooLargeError : Type 0 where
  bytes_exceed : ℕ → ℕ → SyncPayloadTooLargeError
  rows_exceed : ℕ → ℕ → SyncPayloadTooLargeError

pub record PushLimits : Type 0 where
  pub max_bytes : ℕ
  pub max_rows : ℕ

-- `decoded.rawBodyByteLength ?? …`: the second argument is the encoded body's byte length.
abbrev pub body_bytes : Option ℕ → ℕ → ℕ
body_bytes none encoded = encoded
body_bytes (some n) encoded = n

module _ {Row : Type 0} where
  -- The loop of `validatePushEnvelope`, at the total so far.
  unfoldable pub total_rows : ℕ → List (PushTable Row) → ℕ
  total_rows total [] = total
  total_rows total (table ∷ tables) =
      total_rows (total + (length_or_zero table.changed_rows + length_or_zero table.deleted_ids))
        tables

  -- `tables ?? []`
  abbrev pub tables_or_empty : Option (List (PushTable Row)) → List (PushTable Row)
  tables_or_empty none = []
  tables_or_empty (some tables) = tables

  -- The loop of `countPushRows`, at the total so far.
  unfoldable pub count_rows : ℕ → List (PushTable Row) → ℕ
  count_rows total [] = total
  count_rows total (table ∷ tables) =
      count_rows (total + (length_or_zero table.changed_rows + length_or_zero table.deleted_ids))
        tables

  unfoldable pub count_push_rows : Option (List (PushTable Row)) → ℕ
  unfolding count_rows
  count_push_rows none = 0
  count_push_rows (some tables) = count_rows 0 tables

  unfoldable pub validate_push_envelope :
      Option (List (PushTable Row))
      → Option ℕ
      → ℕ
      → PushLimits
      → Result SyncPayloadTooLargeError (Unit {0})
  unfolding total_rows
  validate_push_envelope tables raw_body_byte_length encoded limits =
      let bytes = body_bytes raw_body_byte_length encoded in
      let rows = total_rows 0 (tables_or_empty tables) in
      if ltb limits.max_bytes bytes
      then throw (bytes_exceed bytes limits.max_bytes)
      else (if ltb limits.max_rows rows then throw (rows_exceed rows limits.max_rows) else ok tt)
