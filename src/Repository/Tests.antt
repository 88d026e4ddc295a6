-- ===== src/Repository/Tests.antt =====
-- packages/baresync/src/server/drizzle.ts over a world that lists what was written.
use baresync.Prelude.{ℕ, String, none, some, List, [], ◌∷◌, ◌≡◌, refl, ok, ◌==◌, if◌then◌else◌}
use baresync.Service.Changes.{SyncPushChange}
use baresync.Service.Rows.{SyncRow, UnsupportedTable}
use baresync.Repository.{
  text, Unknown, object, scalar, Fields, TableConfig, PushInput, apply_changes, apply_push_changes,
  TableAck,
}
use baresync.Repository.Acknowledging.{AreAcked}
use baresync.Repository.Applying.{apply_push_changes-applied}

abbrev kept : SyncRow (Unit {0})
kept = record { id = "a1"; deleted_at = none; sync_updated_at = 3; updated_at = "t"; columns = tt }

-- The table `items` has one row; each write adds an entry to the world.
abbrev rows_of : String → List (SyncRow (Unit {0}))
rows_of name = if name == "items" then kept ∷ [] else []

abbrev config : String → TableConfig (List String) UnsupportedTable ℕ (Unit {0}) Fields
config name = record {
  build_row = λ input. ok input.row;
  read_latest_row = λ scope world. some kept;
  read_rows = λ cursor scope world. rows_of name;
  soft_delete_row = λ id time at world. (ok tt, id ∷ world);
  upsert_row = λ row world. (ok tt, name ∷ world);
}

abbrev iso : ℕ → String
iso time = "2026"

abbrev names : List String
names = "items" ∷ "locations" ∷ []

abbrev one_change : String → SyncPushChange Unknown
one_change table = record {
  table = table;
  changed_rows = object (("id", text "r1") ∷ []) ∷ scalar ∷ [];
  deleted_ids = "d1" ∷ [];
}

abbrev two_changes : PushInput
two_changes = record {
  changes = one_change "items" ∷ one_change "locations" ∷ [];
  scope_id = "s";
  sync_updated_at = 5;
}

abbrev stray_change : PushInput
stray_change = record {
  changes = one_change "items" ∷ one_change "users" ∷ one_change "locations" ∷ [];
  scope_id = "s";
  sync_updated_at = 5;
}

abbrev written : List String
written = "d1" ∷ "locations" ∷ "locations" ∷ "d1" ∷ "items" ∷ "items" ∷ []

all_written :
    apply_changes (λ r. r) names config iso two_changes two_changes.changes [] ≡ (ok tt, written)
unfolding apply_changes
all_written = refl

first_written :
    apply_changes (λ r. r) names config iso stray_change (one_change "items" ∷ []) []
    ≡ (ok tt, "d1" ∷ "items" ∷ "items" ∷ [])
unfolding apply_changes
first_written = refl

apply_push_changes-applied_example :
    (acks : List TableAck) × (apply_push_changes (λ r. r) names config iso two_changes "now" []
      ≡ (ok (record { server_time = "now"; tables = acks }), written))
    × AreAcked names two_changes.changes acks
apply_push_changes-applied_example =
    apply_push_changes-applied (λ r. r) names config iso two_changes "now" [] written all_written
