-- ===== src/Service/Changes/Ordering.antt =====
-- What `orderPushChanges` promises: the same changes, in the order of their tables.
use mathlib.Core.List.{Perm}
use mathlib.Core.List.Perm
use baresync.Prelude.{
  ℕ, String, Bool, true, false, Option, none, some, List, [], ◌∷◌, ◌++◌, map, ◌≡◌, ◌≤◌, arith, inl,
  inr, ◌=?◌, Option-cases, All, AllPairs, AllPairs-append,
}
use baresync.Service.Changes.{SyncPushChange, position, sort_by_order, order_push_changes}
use baresync.Service.Changes.Sorting.{
  known_changes, unknown_changes, sort_out_lem, known-append-unknown-perm, sort_by_order-perm,
  IsSorted, sort_by_order-IsSorted, All-sort_by_order,
}

-- A place in the order comes before a later one, and before no place at all.
abbrev pub NotAfter : Option ℕ → Option ℕ → Type 0
NotAfter (some i) (some j) = i ≤ j
NotAfter (some i) none = Unit
NotAfter none none = Unit
NotAfter none (some j) = ⊥

abbrev pub is_at : Option ℕ → ℕ → Bool
is_at none n = false
is_at (some i) n = i =? n

abbrev pub is_none : Option ℕ → Bool
is_none none = true
is_none (some i) = false

module _ {ℓ} {Row : Type ℓ} (order : List String) where
  -- `orderPushChanges` is the sorted known changes, then the others.
  pub order_push_changes_lem :
      (changes : List (SyncPushChange Row))
      → order_push_changes changes order
        ≡ map (λ x. x.1) (sort_by_order (known_changes order changes))
          ++ unknown_changes order changes
  unfolding order_push_changes
  order_push_changes_lem changes = rw (sort_out_lem order changes [] [])

  abbrev pub Placed : ℕ × SyncPushChange Row → Type 0
  Placed x = position order x.1.table ≡ some x.0

  abbrev pub Unplaced : SyncPushChange Row → Type 0
  Unplaced c = position order c.table ≡ none

  pub known_changes-Placed :
      (changes : List (SyncPushChange Row)) → All Placed (known_changes order changes)
  known_changes-Placed [] = tt
  known_changes-Placed (c ∷ cs) = elim (Option-cases (position order c.table)) [
    | inl absent ↦ rw (absent, known_changes) (known_changes-Placed cs)
    | inr (i, found) ↦ rw (found, known_changes) (found, known_changes-Placed cs)
  ]

  pub unknown_changes-Unplaced :
      (changes : List (SyncPushChange Row)) → All Unplaced (unknown_changes order changes)
  unknown_changes-Unplaced [] = tt
  unknown_changes-Unplaced (c ∷ cs) = elim (Option-cases (position order c.table)) [
    | inl absent ↦ rw (absent, unknown_changes) (absent, unknown_changes-Unplaced cs)
    | inr (i, found) ↦ rw (found, unknown_changes) (unknown_changes-Unplaced cs)
  ]

  abbrev pub InOrder : SyncPushChange Row → SyncPushChange Row → Type 0
  InOrder c d = NotAfter (position order c.table) (position order d.table)

  InOrder-Placed :
      (x : ℕ × SyncPushChange Row) (xs : List (ℕ × SyncPushChange Row))
      → Placed x
      → All Placed xs
      → All (λ y. x.0 ≤ y.0) xs
      → All (InOrder x.1) (map (λ y. y.1) xs)
  InOrder-Placed x [] p ps h = tt
  InOrder-Placed x (y ∷ ys) p ps h = (rw (p, ps.0) h.0, InOrder-Placed x ys p ps.1 h.1)

  AllPairs-Placed :
      (xs : List (ℕ × SyncPushChange Row))
      → All Placed xs
      → IsSorted xs
      → AllPairs InOrder (map (λ x. x.1) xs)
  AllPairs-Placed [] ps h = tt
  AllPairs-Placed (x ∷ xs) ps h = (InOrder-Placed x xs ps.0 ps.1 h.0, AllPairs-Placed xs ps.1 h.1)

  InOrder-Unplaced :
      (c : SyncPushChange Row) (ds : List (SyncPushChange Row))
      → All Unplaced ds
      → All (InOrder c) ds
  InOrder-Unplaced c [] u = tt
  InOrder-Unplaced c (d ∷ ds) u = (ground (arith, u.0), InOrder-Unplaced c ds u.1)

  All-InOrder-Unplaced :
      (cs ds : List (SyncPushChange Row)) → All Unplaced ds → All (λ c. All (InOrder c) ds) cs
  All-InOrder-Unplaced [] ds u = tt
  All-InOrder-Unplaced (c ∷ cs) ds u = (InOrder-Unplaced c ds u, All-InOrder-Unplaced cs ds u)

  AllPairs-Unplaced : (cs : List (SyncPushChange Row)) → All Unplaced cs → AllPairs InOrder cs
  AllPairs-Unplaced [] u = tt
  AllPairs-Unplaced (c ∷ cs) u = (InOrder-Unplaced c cs u.1, AllPairs-Unplaced cs u.1)

  -- Ordering the changes of a push loses none, adds none and duplicates none.
  pub order_push_changes-perm :
      (changes : List (SyncPushChange Row)) → Perm (order_push_changes changes order) changes
  order_push_changes-perm changes = rw order_push_changes_lem (
      Perm.trans
        (Perm.append (Perm.map (λ x. x.1) (sort_by_order-perm (known_changes order changes)))
          (Perm.refl (unknown_changes order changes)))
        (known-append-unknown-perm order changes))

  -- In the result no change stands before one whose table has an earlier place in the order, and
  -- changes of tables that the order does not name stand behind all others.
  pub order_push_changes-InOrder :
      (changes : List (SyncPushChange Row)) → AllPairs InOrder (order_push_changes changes order)
  order_push_changes-InOrder changes =
      let sorted = sort_by_order (known_changes order changes) in
      let placed =
        All-sort_by_order Placed (known_changes order changes) (known_changes-Placed changes) in
      let others = unknown_changes-Unplaced changes in
      rw order_push_changes_lem (
        AllPairs-append InOrder (map (λ x. x.1) sorted) (unknown_changes order changes)
          (AllPairs-Placed sorted placed (sort_by_order-IsSorted (known_changes order changes)))
          (AllPairs-Unplaced (unknown_changes order changes) others)
          (All-InOrder-Unplaced (map (λ x. x.1) sorted) (unknown_changes order changes) others))
