-- ===== src/Service/Changes/Stability.antt =====
-- `orderPushChanges` keeps the order of changes that the table order does not tell apart.
use mathlib.Core.List.{append-nil}
use baresync.Prelude.{
  ℕ, String, Bool, List, [], ◌∷◌, map, ◌≡◌, refl, ap, arith, inl, inr, ◌=?◌, Option-cases, All,
  keep, keep-append,
}
use baresync.Service.Changes.{SyncPushChange, position, sort_by_order, order_push_changes}
use baresync.Service.Changes.Sorting.{
  known_changes, unknown_changes, All-sort_by_order, sort_by_order-stable,
}
use baresync.Service.Changes.Ordering.{
  is_at, is_none, order_push_changes_lem, Placed, known_changes-Placed, Unplaced,
  unknown_changes-Unplaced,
}

module _ {ℓ} {Row : Type ℓ} (order : List String) where
  -- The change's table stands at place `n`; the change's table has no place.
  abbrev pub at_place : ℕ → SyncPushChange Row → Bool
  at_place n c = is_at (position order c.table) n

  abbrev pub has_no_place : SyncPushChange Row → Bool
  has_no_place c = is_none (position order c.table)

  keep-at_place-map :
      (n : ℕ) (xs : List (ℕ × SyncPushChange Row))
      → All (Placed order) xs
      → keep (at_place n) (map (λ x. x.1) xs) ≡ map (λ x. x.1) (keep (λ x. x.0 =? n) xs)
  keep-at_place-map n [] h = refl
  keep-at_place-map n (x ∷ xs) h = ground (arith, keep-at_place-map n xs h.1, h.0)

  keep-at_place_unknown :
      (n : ℕ) (cs : List (SyncPushChange Row)) → All (Unplaced order) cs → keep (at_place n) cs ≡ []
  keep-at_place_unknown n [] h = refl
  keep-at_place_unknown n (c ∷ cs) h = ground (arith, keep-at_place_unknown n cs h.1, h.0)

  keep-at_place_known :
      (n : ℕ) (cs : List (SyncPushChange Row))
      → map (λ x. x.1) (keep (λ x. x.0 =? n) (known_changes order cs)) ≡ keep (at_place n) cs
  keep-at_place_known n [] = refl
  keep-at_place_known n (c ∷ cs) = elim (Option-cases (position order c.table)) [
    | inl absent ↦ rw (absent, known_changes, keep) (keep-at_place_known n cs)
    | inr (i, found) ↦ rw (found, known_changes, keep) (ground (arith, keep-at_place_known n cs))
  ]

  keep-no_place_known :
      (xs : List (ℕ × SyncPushChange Row))
      → All (Placed order) xs
      → keep has_no_place (map (λ x. x.1) xs) ≡ []
  keep-no_place_known [] h = refl
  keep-no_place_known (x ∷ xs) h = ground (arith, keep-no_place_known xs h.1, h.0)

  keep-no_place_unknown :
      (cs : List (SyncPushChange Row))
      → keep has_no_place (unknown_changes order cs) ≡ keep has_no_place cs
  keep-no_place_unknown [] = refl
  keep-no_place_unknown (c ∷ cs) = elim (Option-cases (position order c.table)) [
    | inl absent ↦
        rw (absent, unknown_changes, keep, absent) (ap (λ l. c ∷ l) (keep-no_place_unknown cs))
    | inr (i, found) ↦ rw (found, unknown_changes, keep) (keep-no_place_unknown cs)
  ]

  -- Ordering keeps the changes of tables at one place of the order (so the changes of one table) in
  -- the order in which they were pushed, and so it does the changes of tables that have no place.
  pub order_push_changes-stable :
      (changes : List (SyncPushChange Row)) (n : ℕ)
      → (keep (at_place n) (order_push_changes changes order) ≡ keep (at_place n) changes)
        × (keep has_no_place (order_push_changes changes order) ≡ keep has_no_place changes)
  order_push_changes-stable changes n =
      let known = known_changes order changes in
      let sorted = map (λ x. x.1) (sort_by_order known) in
      let unknown = unknown_changes order changes in
      let placed = All-sort_by_order (Placed order) known (known_changes-Placed order changes) in
      let others = unknown_changes-Unplaced order changes in
      (
        rw
            (
              order_push_changes_lem order changes,
              keep-append (at_place n) sorted unknown,
              keep-at_place_unknown n unknown others,
              append-nil,
              keep-at_place-map n (sort_by_order known) placed,
              sort_by_order-stable n known,
            )
            (keep-at_place_known n changes),
        rw
            (
              order_push_changes_lem order changes,
              keep-append has_no_place sorted unknown,
              keep-no_place_known (sort_by_order known) placed,
            )
            (keep-no_place_unknown changes),
      )
