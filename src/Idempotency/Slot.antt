-- ===== src/Idempotency/Slot.antt =====
-- The rows of one client and key, and what each statement of the guard does to them.
use mathlib.Core.List.{append-nil}
use baresync.Prelude.{
  ℕ, String, Bool, true, false, not, ◌&&◌, some, List, [], ◌∷◌, map, ◌≡◌, refl, ap, arith, ◌==◌,
  eq_iff, inl, inr, Bool-cases, Option-cases, keep, keep-append, any, if◌then◌else◌,
}
use baresync.Idempotency.Table.{
  pending, completed, BatchRequest, new_row, Patch, patched, BatchTable,
}
use baresync.Idempotency.{
  GuardParams, matches, first_row, pending_values, pending_body, load_push_batch_response,
  reserve_push_batch_response, finalize_push_batch_response, reclaim_stale_pending_row,
  delete_pending_row,
}

-- Both name the same client and key.
abbrev pub same_key : GuardParams → GuardParams → Bool
same_key p q = p.client_id == q.client_id && p.idempotency_key == q.idempotency_key

apart :
    (p q : GuardParams) (r : BatchRequest)
    → same_key p q ≡ false
    → matches p r ≡ true
    → matches q r ≡ false
apart p q r h m = ground (
  arith,
  eq_iff r.client_id p.client_id,
  eq_iff r.idempotency_key p.idempotency_key,
  eq_iff r.client_id q.client_id,
  eq_iff r.idempotency_key q.idempotency_key,
  eq_iff p.client_id q.client_id,
  eq_iff p.idempotency_key q.idempotency_key,
)

keep-patched :
    (p : GuardParams) (f : Patch) (rs : List BatchRequest)
    → keep (matches p) (map (λ r. if matches p r then patched f r else r) rs)
      ≡ map (patched f) (keep (matches p) rs)
keep-patched p f [] = refl
keep-patched p f (r ∷ rs) = elim (Bool-cases (matches p r)) [
  | inl here ↦ rw (here, keep, here) (ap (λ l. patched f r ∷ l) (keep-patched p f rs))
  | inr other ↦ rw (other, keep, other) (keep-patched p f rs)
]

keep-patched_apart :
    (p q : GuardParams) (f : Patch) (rs : List BatchRequest)
    → same_key p q ≡ false
    → keep (matches q) (map (λ r. if matches p r then patched f r else r) rs) ≡ keep (matches q) rs
keep-patched_apart p q f [] h = refl
keep-patched_apart p q f (r ∷ rs) h = elim (Bool-cases (matches p r)) [
  | inl here ↦ rw (here, keep, apart p q r h here) (keep-patched_apart p q f rs h)
  | inr other ↦
      rw (other, keep) (ap (λ l. if matches q r then r ∷ l else l) (keep-patched_apart p q f rs h))
]

keep-rejected :
    (p : GuardParams) (rs : List BatchRequest)
    → keep (matches p) (keep (λ r. not (matches p r)) rs) ≡ []
keep-rejected p [] = refl
keep-rejected p (r ∷ rs) = elim (Bool-cases (matches p r)) [
  | inl here ↦ rw (here, keep) (keep-rejected p rs)
  | inr other ↦ rw (other, keep, other) (keep-rejected p rs)
]

keep-rejected_apart :
    (p q : GuardParams) (rs : List BatchRequest)
    → same_key p q ≡ false
    → keep (matches q) (keep (λ r. not (matches p r)) rs) ≡ keep (matches q) rs
keep-rejected_apart p q [] h = refl
keep-rejected_apart p q (r ∷ rs) h = elim (Bool-cases (matches p r)) [
  | inl here ↦ rw (here, keep, apart p q r h here) (keep-rejected_apart p q rs h)
  | inr other ↦
      rw (other, keep) (ap (λ l. if matches q r then r ∷ l else l) (keep-rejected_apart p q rs h))
]

keep-unmatched :
    (p : BatchRequest → Bool) (rs : List BatchRequest) → any p rs ≡ false → keep p rs ≡ []
keep-unmatched p [] h = refl
keep-unmatched p (r ∷ rs) h = ground (arith, keep-unmatched p rs)

unmatched-keep :
    (p : BatchRequest → Bool) (rs : List BatchRequest) → keep p rs ≡ [] → any p rs ≡ false
unmatched-keep p [] h = refl
unmatched-keep p (r ∷ rs) h = ground (arith, unmatched-keep p rs)

-- The row that a run finalizes, and the row that it takes over.
abbrev pub finalized : String → ℕ → BatchRequest → BatchRequest
finalized response now r = record r {
  status = completed;
  response_body = some response;
  completed_at = some now;
}

abbrev pub reclaimed : ℕ → BatchRequest → BatchRequest
reclaimed now r = record r { status = pending; response_body = some pending_body; created_at = now }

module _ (t : BatchTable) where
  -- The rows of the table that belong to the client and key.
  abbrev pub slot : GuardParams → t.Db → List BatchRequest
  slot p db = keep (matches p) (t.rows db)

  pub load-slot :
      (p : GuardParams) (db : t.Db) → load_push_batch_response t p db ≡ first_row (slot p db)
  unfolding load_push_batch_response
  load-slot p db = ap first_row (t.select_lem (matches p) db)

  module _ (f : Patch) (p : GuardParams) (db : t.Db) where
    slot-update : slot p (t.update f (matches p) db) ≡ map (patched f) (slot p db)
    slot-update = rw (t.update_lem f (matches p) db) (keep-patched p f (t.rows db))

    slot-update_apart :
        (q : GuardParams) → same_key p q ≡ false → slot q (t.update f (matches p) db) ≡ slot q db
    slot-update_apart q h =
        rw (t.update_lem f (matches p) db) (keep-patched_apart p q f (t.rows db) h)

  pub slot-delete : (p : GuardParams) (db : t.Db) → slot p (delete_pending_row t p db) ≡ []
  unfolding delete_pending_row
  slot-delete p db = rw (t.delete_lem (matches p) db) (keep-rejected p (t.rows db))

  pub slot-delete_apart :
      (p q : GuardParams) (db : t.Db)
      → same_key p q ≡ false
      → slot q (delete_pending_row t p db) ≡ slot q db
  unfolding delete_pending_row
  slot-delete_apart p q db h =
      rw (t.delete_lem (matches p) db) (keep-rejected_apart p q (t.rows db) h)

  matches-new_row :
      (p : GuardParams) (now id : ℕ) → matches p (new_row id (pending_values p now)) ≡ true
  matches-new_row p now id =
      ground (arith, eq_iff p.client_id p.client_id, eq_iff p.idempotency_key p.idempotency_key)

  matches-new_row_apart :
      (p q : GuardParams) (now id : ℕ)
      → same_key p q ≡ false
      → matches q (new_row id (pending_values p now)) ≡ false
  matches-new_row_apart p q now id h = h

  -- A reservation that succeeds found no row of its client and key, and leaves one pending row.
  pub slot-reserve :
      (p : GuardParams) (now : ℕ) (db db' : t.Db)
      → reserve_push_batch_response t p now db ≡ some db'
      → (id : ℕ) × (slot p db ≡ []) × (slot p db' ≡ new_row id (pending_values p now) ∷ [])
  unfolding reserve_push_batch_response
  slot-reserve p now db db' e =
      let (id, added, free) = t.insert_lem (pending_values p now) db db' e in
      let empty = keep-unmatched (matches p) (t.rows db) free in
      (
        id,
        empty,
        rw (
          added,
          keep-append (matches p) (t.rows db) (new_row id (pending_values p now) ∷ []),
          empty,
          keep,
          matches-new_row p now id,
        ),
      )

  pub slot-reserve_apart :
      (p q : GuardParams) (now : ℕ) (db db' : t.Db)
      → same_key p q ≡ false
      → reserve_push_batch_response t p now db ≡ some db'
      → slot q db' ≡ slot q db
  unfolding reserve_push_batch_response
  slot-reserve_apart p q now db db' h e =
      let (id, added, free) = t.insert_lem (pending_values p now) db db' e in
      rw
        (
          added,
          keep-append (matches q) (t.rows db) (new_row id (pending_values p now) ∷ []),
          keep,
          matches-new_row_apart p q now id h,
        )
        (append-nil _)

  -- Without a row of its client and key, a reservation succeeds.
  pub reserve_succeeds :
      (p : GuardParams) (now : ℕ) (db : t.Db)
      → slot p db ≡ []
      → (db' : t.Db) × (reserve_push_batch_response t p now db ≡ some db')
  unfolding reserve_push_batch_response
  reserve_succeeds p now db empty =
      let free = unmatched-keep (matches p) (t.rows db) empty in
      elim (Option-cases (t.insert (pending_values p now) db)) [
        | inl failed ↦ absurd (t.insert_room (pending_values p now) db free failed)
        | inr found ↦ found
      ]

  pub slot-finalize :
      (p : GuardParams) (response : String) (now : ℕ) (db : t.Db)
      → slot p (finalize_push_batch_response t p response now db)
        ≡ map (finalized response now) (slot p db)
  unfolding finalize_push_batch_response
  slot-finalize p response now db = slot-update _ p db

  pub slot-finalize_apart :
      (p q : GuardParams) (response : String) (now : ℕ) (db : t.Db)
      → same_key p q ≡ false
      → slot q (finalize_push_batch_response t p response now db) ≡ slot q db
  unfolding finalize_push_batch_response
  slot-finalize_apart p q response now db h = slot-update_apart _ p db q h

  pub slot-reclaim :
      (p : GuardParams) (now : ℕ) (db : t.Db)
      → slot p (reclaim_stale_pending_row t p now db) ≡ map (reclaimed now) (slot p db)
  unfolding reclaim_stale_pending_row
  slot-reclaim p now db = slot-update _ p db

  pub slot-reclaim_apart :
      (p q : GuardParams) (now : ℕ) (db : t.Db)
      → same_key p q ≡ false
      → slot q (reclaim_stale_pending_row t p now db) ≡ slot q db
  unfolding reclaim_stale_pending_row
  slot-reclaim_apart p q now db h = slot-update_apart _ p db q h
