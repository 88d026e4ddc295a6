-- ===== src/Idempotency/Isolated.antt =====
-- Runs for one client and key leave the rows of all others alone, and never make a second row.
use baresync.Prelude.{
  ℕ, ◌≤◌, false, Option, none, some, ◌≡◌, refl, ◌∙◌, arith, inl, inr, Option-cases, length,
  length-map, Result, ok, throw,
}
use baresync.Idempotency.Table.{BatchRequest, BatchTable}
use baresync.Idempotency.{
  GuardParams, Codec, Clock, Outcome, load_push_batch_response, reserve_push_batch_response,
  Verdict, answer, take_over, proceed, inspect_existing_row, resolve_existing_row,
  reserve_with_recovery, reserve_if_new, reclaim_stale_pending_row, settle, after_reserve,
  after_resolve, run_guard,
}
use baresync.Idempotency.Slot.{
  same_key, slot, slot-reserve, slot-reserve_apart, finalized, reclaimed, slot-finalize,
  slot-finalize_apart, slot-delete, slot-delete_apart, slot-reclaim, slot-reclaim_apart,
}

-- What a run may do to the rows of the client and key `q`, when it is a run for `p`.
abbrev Fine : (t : BatchTable) → GuardParams → GuardParams → t.Db → t.Db → Type 0
Fine t p q db db' =
    (same_key p q ≡ false → slot t q db' ≡ slot t q db)
    × (length (slot t p db) ≤ 1 → length (slot t p db') ≤ 1)

Fine-trans :
    (t : BatchTable) (p q : GuardParams) (a b c : t.Db)
    → Fine t p q a b
    → Fine t p q b c
    → Fine t p q a c
Fine-trans t p q a b c f g = (λ h. g.0 h ∙ f.0 h, λ h. g.1 (f.1 h))

module _ (t : BatchTable) {T : Type 0} (E : Type 0) (codec : Codec T) (p q : GuardParams)
    (clock : Clock) where
  reclaim-Fine : (now : ℕ) (db : t.Db) → Fine t p q db (reclaim_stale_pending_row t p now db)
  reclaim-Fine now db = (
    slot-reclaim_apart t p q now db,
    λ h. rw (slot-reclaim t p now db) (omega (arith, length-map (reclaimed now) (slot t p db))),
  )

  resolve-Fine :
      (timeout : ℕ) (existing : Option BatchRequest) (db : t.Db)
      → Fine t p q db (resolve_existing_row t {E = E} codec timeout p clock existing db).1
  unfolding resolve_existing_row
  resolve-Fine timeout existing db =
      go (inspect_existing_row {E = E} codec timeout p clock.checked existing) refl
    where
      go :
          (v : Verdict T E)
          → inspect_existing_row {E = E} codec timeout p clock.checked existing ≡ v
          → Fine t p q db (resolve_existing_row t {E = E} codec timeout p clock existing db).1
      go (answer outcome) e = rw (e, resolve_existing_row) (λ h. refl, λ h. h)
      go take_over e = rw (e, resolve_existing_row) (reclaim-Fine clock.reserved db)
      go proceed e = rw (e, resolve_existing_row) (λ h. refl, λ h. h)

  reserve-Fine : (db : t.Db) → Fine t p q db (reserve_with_recovery t {E = E} codec p clock db).1
  unfolding reserve_with_recovery
  reserve-Fine db = elim (Option-cases (reserve_push_batch_response t p clock.reserved db)) [
    | inl refused ↦ rw (refused, reserve_with_recovery) (λ h. refl, λ h. h)
    | inr (db', reserved) ↦
        let (_, _, one) = slot-reserve t p clock.reserved db db' reserved in
        rw (reserved, reserve_with_recovery)
          (
            λ h. slot-reserve_apart t p q clock.reserved db db' h reserved,
            λ h. rw one (omega arith),
          )
  ]

  reserve_if_new-Fine :
      (existing : Option BatchRequest) (db : t.Db)
      → Fine t p q db (reserve_if_new t {E = E} codec p clock existing db).1
  unfolding reserve_if_new
  reserve_if_new-Fine none db = reserve-Fine db
  reserve_if_new-Fine (some row) db = (λ h. refl, λ h. h)

  settle-Fine :
      {W : Type 0} (r : Result E T) (world : W) (db : t.Db)
      → Fine t p q db (settle t codec p clock (r, world) db).1
  unfolding settle
  settle-Fine (throw error) world db =
      (slot-delete_apart t p q db, λ h. rw (slot-delete t p db) (omega arith))
  settle-Fine (ok v) world db = (
    slot-finalize_apart t p q (codec.stringify v) clock.finished db,
    λ h.
        rw (slot-finalize t p (codec.stringify v) clock.finished db)
          (omega (arith, length-map (finalized (codec.stringify v) clock.finished) (slot t p db))),
  )

  module _ {W : Type 0} (callback : W → Result E T × W) (world : W) where
    after_reserve-Fine :
        (r : Option (Outcome T E) × t.Db)
        → Fine t p q r.1 (after_reserve t codec p clock callback r world).1
    unfolding after_reserve
    after_reserve-Fine (some outcome, db) = (λ h. refl, λ h. h)
    after_reserve-Fine (none, db) = settle-Fine (callback world).0 (callback world).1 db

    after_resolve-Fine :
        (existing : Option BatchRequest) (r : Option (Outcome T E) × t.Db)
        → Fine t p q r.1 (after_resolve t codec p clock callback existing r world).1
    unfolding after_resolve
    after_resolve-Fine existing (some outcome, db) = (λ h. refl, λ h. h)
    after_resolve-Fine existing (none, db) =
        let r = reserve_if_new t codec p clock existing db in
        Fine-trans t p q db r.1 _ (reserve_if_new-Fine existing db) (after_reserve-Fine r)

run_guard-Fine :
    (t : BatchTable) {T E W : Type 0} (codec : Codec T) (timeout : ℕ) (p q : GuardParams)
    (clock : Clock) (callback : W → Result E T × W) (db : t.Db) (world : W)
    → Fine t p q db (run_guard t codec timeout p clock callback (db, world)).1
unfolding run_guard
run_guard-Fine t {E} codec timeout p q clock callback db world =
    let existing = load_push_batch_response t p db in
    let r = resolve_existing_row t codec timeout p clock existing db in
    Fine-trans t p q db r.1 _ (resolve-Fine t E codec p q clock timeout existing db)
      (after_resolve-Fine t E codec p q clock callback world existing r)

-- Whatever a run meets and however it ends, it changes no row of another client or key.
pub run_guard-isolated :
    (t : BatchTable) {T E W : Type 0} (codec : Codec T) (timeout : ℕ) (p q : GuardParams)
    (clock : Clock) (callback : W → Result E T × W) (db : t.Db) (world : W)
    → same_key p q ≡ false
    → slot t q (run_guard t codec timeout p clock callback (db, world)).1 ≡ slot t q db
run_guard-isolated t codec timeout p q clock callback db world apart =
    (run_guard-Fine t codec timeout p q clock callback db world).0 apart

-- Whatever a run meets and however it ends, where its client and key had at most one row, they have
-- at most one behind it.
pub run_guard-single :
    (t : BatchTable) {T E W : Type 0} (codec : Codec T) (timeout : ℕ) (p : GuardParams)
    (clock : Clock) (callback : W → Result E T × W) (db : t.Db) (world : W)
    → length (slot t p db) ≤ 1
    → length (slot t p (run_guard t codec timeout p clock callback (db, world)).1) ≤ 1
run_guard-single t codec timeout p clock callback db world =
    (run_guard-Fine t codec timeout p p clock callback db world).1
