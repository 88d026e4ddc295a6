-- ===== src/Repository/Applying.antt =====
-- packages/baresync/src/server/drizzle.ts, `applyPushChanges`: what a push that is applied, and one that is
-- refused on the way, leave behind.
use baresync.Prelude.{
  ℕ, String, true, false, List, [], ◌∷◌, ◌++◌, map, ◌≡◌, refl, inl, inr, Bool-cases, has, All,
  Result, ok, throw, ok-injective, ap, ◌∙◌,
}
use baresync.Service.Changes.{SyncPushChange}
use baresync.Service.Rows.{UnsupportedTable, unsupported, validate_sync_table, is_known_sync_table}
use baresync.Repository.{
  Unknown, TableConfig, PushInput, TableAck, ack_table, ack_tables, build_push_ack, apply_change,
  apply_changes, apply_push_changes,
}
use baresync.Repository.Acknowledging.{AreAcked, acknowledged, acknowledged-AreAcked}
use baresync.Repository.Actions.{and_then}

and_then-eq-ok :
    {World Error A B : Type 0} (r : Result Error A × World)
    (next : A → World → Result Error B × World) {b : B} {w : World}
    → and_then r next ≡ (ok b, w)
    → (a : A) × (r.0 ≡ ok a) × (next a r.1 ≡ (ok b, w))
and_then-eq-ok (ok a, world) next e = (a, refl, e)
and_then-eq-ok (throw d, world) next e = cc

and_then-ok :
    {World Error A B : Type 0} (r : Result Error A × World)
    (next : A → World → Result Error B × World) (a : A)
    → r.0 ≡ ok a
    → and_then r next ≡ next a r.1
and_then-ok (ok b, world) next a e = ap (λ v. next v world) (ok-injective e)
and_then-ok (throw d, world) next a e = cc

validate_sync_table-known :
    (table : String) (names : List String)
    → has table names ≡ true
    → validate_sync_table table names ≡ ok table
unfolding validate_sync_table is_known_sync_table
validate_sync_table-known table names known = rw known refl

validate_sync_table-unknown :
    (table : String) (names : List String)
    → has table names ≡ false
    → validate_sync_table table names ≡ throw (unsupported table names)
unfolding validate_sync_table is_known_sync_table
validate_sync_table-unknown table names known = rw known refl

module _ {Error : Type 0} (refuse : UnsupportedTable → Error) (table_names : List String) where
  ack_tables-known :
      (changes : List (SyncPushChange Unknown))
      → All (λ change. has change.table table_names ≡ true) changes
      → ack_tables refuse table_names changes ≡ ok (map acknowledged changes)
  unfolding ack_tables ack_table
  ack_tables-known [] known = refl
  ack_tables-known (change ∷ changes) known =
      rw
        (
          validate_sync_table-known change.table table_names known.0,
          ack_tables-known changes known.1,
        )
        refl

  build_push_ack-known :
      (changes : List (SyncPushChange Unknown)) (now_iso : String)
      → All (λ change. has change.table table_names ≡ true) changes
      → build_push_ack refuse table_names changes now_iso
        ≡ ok (record { server_time = now_iso; tables = map acknowledged changes })
  unfolding build_push_ack
  build_push_ack-known changes now_iso known = rw (ack_tables-known changes known) refl

  module _ {World Number Columns WriteRow : Type 0}
      (tables : String → TableConfig World Error Number Columns WriteRow) (iso : ℕ → String)
      (input : PushInput) where
    apply_change-unknown :
        (change : SyncPushChange Unknown) (world : World)
        → has change.table table_names ≡ false
        → apply_change refuse table_names tables iso input change world
          ≡ (throw (refuse (unsupported change.table table_names)), world)
    unfolding apply_change
    apply_change-unknown change world unknown =
        rw (validate_sync_table-unknown change.table table_names unknown, apply_change) refl

    apply_change-known :
        (change : SyncPushChange Unknown) (world : World)
        → (apply_change refuse table_names tables iso input change world).0 ≡ ok tt
        → has change.table table_names ≡ true
    apply_change-known change world e = elim (Bool-cases (has change.table table_names)) [
      | inl known ↦ known
      | inr unknown ↦ cc (rw (apply_change-unknown change world unknown) at e)
    ]

    apply_changes-known :
        (changes : List (SyncPushChange Unknown)) (world world' : World)
        → apply_changes refuse table_names tables iso input changes world ≡ (ok tt, world')
        → All (λ change. has change.table table_names ≡ true) changes
    unfolding apply_changes
    apply_changes-known [] world world' e = tt
    apply_changes-known (change ∷ changes) world world' e =
        let r = apply_change refuse table_names tables iso input change world in
        let (done, first, rest) = and_then-eq-ok r _ e in
        (apply_change-known change world first, apply_changes-known changes r.1 world' rest)

    -- When the changes of a push go through one after the other, the push returns, with the writes of
    -- the changes made: the table of each change is known, and the acknowledgement has, for each change
    -- and in their order, its table, each deleted id, and the ids of those rows whose field `id` is a
    -- text, with nothing created and nothing rejected.
    pub apply_push_changes-applied :
        (now_iso : String) (world world' : World)
        → apply_changes refuse table_names tables iso input input.changes world ≡ (ok tt, world')
        → (acks : List TableAck) × (apply_push_changes refuse table_names tables iso input now_iso
              world
            ≡ (ok (record { server_time = now_iso; tables = acks }), world'))
          × AreAcked table_names input.changes acks
    unfolding apply_push_changes
    apply_push_changes-applied now_iso world world' applied =
        let known = apply_changes-known input.changes world world' applied in
        (
          map acknowledged input.changes,
          rw (applied, build_push_ack-known input.changes now_iso known) refl,
          acknowledged-AreAcked table_names input.changes known,
        )

    apply_changes-append :
        (changes later : List (SyncPushChange Unknown)) (world world' : World)
        → apply_changes refuse table_names tables iso input changes world ≡ (ok tt, world')
        → apply_changes refuse table_names tables iso input (changes ++ later) world
          ≡ apply_changes refuse table_names tables iso input later world'
    unfolding apply_changes
    apply_changes-append [] later world world' e =
        ap (apply_changes refuse table_names tables iso input later) (ap (λ p. p.1) e)
    apply_changes-append (change ∷ changes) later world world' e =
        let r = apply_change refuse table_names tables iso input change world in
        let (done, first, rest) = and_then-eq-ok r _ e in
        and_then-ok r _ done first ∙ apply_changes-append changes later r.1 world' rest

    -- A push with a change of an unknown table, behind changes that go through, throws the error that
    -- names that table; the writes of the changes before it stay, and no later change is
    -- applied.
    pub apply_push_changes-unknown :
        (before : List (SyncPushChange Unknown)) (change : SyncPushChange Unknown)
        (later : List (SyncPushChange Unknown)) (now_iso : String) (world world' : World)
        → input.changes ≡ before ++ change ∷ later
        → apply_changes refuse table_names tables iso input before world ≡ (ok tt, world')
        → has change.table table_names ≡ false
        → apply_push_changes refuse table_names tables iso input now_iso world
          ≡ (throw (refuse (unsupported change.table table_names)), world')
    unfolding apply_push_changes apply_changes
    apply_push_changes-unknown before change later now_iso world world' these applied unknown =
        rw
          (
            these,
            apply_changes-append before (change ∷ later) world world' applied,
            apply_change-unknown change world' unknown,
          )
          refl
