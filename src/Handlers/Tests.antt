-- ===== src/Handlers/Tests.antt =====
-- packages/baresync/src/server/handlers.ts: a push of one change that adds one to the world.
use baresync.Prelude.{ℕ, suc, String, some, [], ◌∷◌, ◌≡◌, refl, Result, ok}
use baresync.Service.Errors.{Thrown}
use baresync.Service.Envelope.{PushLimits}
use baresync.Idempotency.{Codec, Clock}
use baresync.Idempotency.ListTable.{list_table, empty_table}
use baresync.Handlers.{
  Decoded, SyncScopeResolution, authorized, SyncPushChangesInput, value, plain_error, prepare_push,
}
use baresync.Handlers.Twice.{push, push-twice}

abbrev text_codec : Codec String
text_codec = record { stringify = λ v. v; parse = λ s. some s }

abbrev at : ℕ → Clock
at time = record { checked = time; reserved = time; finished = time }

abbrev decoded : Decoded ℕ
decoded = record {
  fields = "scopeId" ∷ "clientId" ∷ "idempotencyKey" ∷ "tables" ∷ [];
  scope_id = "s";
  client_id = "c1";
  idempotency_key = "k1";
  tables = record { table = "items"; changed_rows = 4 ∷ []; deleted_ids = [] } ∷ [];
  raw_body_byte_length = 40;
  request_hash = "h1";
}

abbrev parse : Unit {0} → Result Thrown (Decoded ℕ)
parse request = ok decoded

abbrev limits : PushLimits
limits = record { max_bytes = 2097152; max_rows = 2000 }

abbrev resolve_scope : Unit {0} → String → Result Thrown (SyncScopeResolution String String)
resolve_scope request scope_id = ok (authorized scope_id)

abbrev apply : SyncPushChangesInput ℕ String → ℕ → Result Thrown String × ℕ
apply input world = (ok "done", suc world)

prepared : prepare_push parse limits resolve_scope tt ≡ ok (decoded, authorized "s")
unfolding prepare_push
prepared = refl

push-twice_example :
    let first =
      push parse limits resolve_scope [] list_table text_codec 30
        (plain_error "busy")
        apply
        tt
        100
        (at 100)
        (empty_table, 0) in
    (first.0 ≡ value "done")
    × (first.2 ≡ 1)
    × (push parse limits resolve_scope [] list_table text_codec 30
          (plain_error "busy")
          apply
          tt
          200
          (at 200)
          (first.1, first.2)
        ≡ (value "done", first.1, 1))
push-twice_example =
    push-twice parse limits resolve_scope [] list_table text_codec 30 (plain_error "busy") apply tt
      decoded "s" "done" "done" 100 (at 100) empty_table 0 1 prepared refl refl refl 200 (at 200)
