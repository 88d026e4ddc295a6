-- ===== src/Repository/Acknowledging.antt =====
-- packages/baresync/src/server/drizzle.ts, `buildPushAck`: what an acknowledgement says of the changes.
use baresync.Prelude.{
  String, true, Option, none, some, List, [], ◌∷◌, map, ◌≡◌, ◌≢◌, ◌⊎◌, refl, inl, inr, has, All,
}
use baresync.Service.Changes.{SyncPushChange}
use baresync.Repository.{
  Value, text, other, Unknown, object, scalar, as_record, field, text_or_none, TableAck, text_ids,
}

-- A pushed row whose field `id` is a text.
abbrev pub HasId : Unknown → String → Type 0
HasId (object fields) id = field "id" fields ≡ some (text id)
HasId scalar id = ⊥

-- The ids of the rows that have one, row by row.
pub data IdsOf : List Unknown → List String → Type 0 where
  no_rows : IdsOf [] []
  with_text :
      {row : Unknown} {rows : List Unknown} {id : String} {ids : List String}
      → HasId row id
      → IdsOf rows ids
      → IdsOf (row ∷ rows) (id ∷ ids)
  without :
      {row : Unknown} {rows : List Unknown} {ids : List String}
      → ((id : String) → ¬ (HasId row id))
      → IdsOf rows ids
      → IdsOf (row ∷ rows) ids

-- A change of a known table, acknowledged in full.
pub record IsAcked (table_names : List String) (change : SyncPushChange Unknown) (ack : TableAck)
    : Type 0 where
  pub known : has change.table table_names ≡ true
  pub named : ack.table ≡ change.table
  pub deleted : ack.accepted_deleted_ids ≡ change.deleted_ids
  pub updated : IdsOf change.changed_rows ack.accepted_updated_ids
  pub none_created : ack.accepted_created_ids ≡ []
  pub none_rejected : ack.rejected ≡ []

-- One acknowledgement for each change, in the order of the changes.
pub data AreAcked (table_names : List String)
    : List (SyncPushChange Unknown) → List TableAck → Type 0 where
  all_acked : AreAcked table_names [] []
  acked :
      {change : SyncPushChange Unknown} {ack : TableAck} {changes : List (SyncPushChange Unknown)}
      {acks : List TableAck}
      → IsAcked table_names change ack
      → AreAcked table_names changes acks
      → AreAcked table_names (change ∷ changes) (ack ∷ acks)

text_or_none-cases :
    (o : Option Value)
    → ((id : String) × (o ≡ some (text id)) × (text_or_none o ≡ some id))
      ⊎ (((id : String) → o ≢ some (text id)) × (text_or_none o ≡ none))
text_or_none-cases (some (text id)) = inl (id, refl, refl)
text_or_none-cases (some other) = inr (λ id e. cc, refl)
text_or_none-cases none = inr (λ id e. cc, refl)

text_ids-IdsOf : (rows : List Unknown) → IdsOf rows (text_ids rows)
unfolding text_ids as_record field
text_ids-IdsOf [] = no_rows
text_ids-IdsOf (scalar ∷ rows) = without (λ id h. h) (text_ids-IdsOf rows)
text_ids-IdsOf (object fields ∷ rows) = elim (text_or_none-cases (field "id" fields)) [
  | inl (id, there, taken) ↦ rw taken (with_text there (text_ids-IdsOf rows))
  | inr (absent, taken) ↦ rw taken (without absent (text_ids-IdsOf rows))
]

-- What `ack_table` answers for a change of a known table.
abbrev pub acknowledged : SyncPushChange Unknown → TableAck
acknowledged change = record {
  accepted_created_ids = [];
  accepted_deleted_ids = change.deleted_ids;
  accepted_updated_ids = text_ids change.changed_rows;
  rejected = [];
  table = change.table;
}

pub acknowledged-AreAcked :
    (table_names : List String) (changes : List (SyncPushChange Unknown))
    → All (λ change. has change.table table_names ≡ true) changes
    → AreAcked table_names changes (map acknowledged changes)
acknowledged-AreAcked table_names [] h = all_acked
acknowledged-AreAcked table_names (change ∷ changes) h =
    acked
      (record {
        known = h.0;
        named = refl;
        deleted = refl;
        updated = text_ids-IdsOf change.changed_rows;
        none_created = refl;
        none_rejected = refl;
      })
      (acknowledged-AreAcked table_names changes h.1)
