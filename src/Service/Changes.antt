-- ===== src/Service/Changes.antt =====
-- server/service.ts, `orderPushChanges` and `orderDeleteChanges`.
-- `Array.prototype.sort` is stable; it is the insertion sort that keeps equal keys in place.
pub mod Sorting
pub mod Ordering
pub mod Stability
pub mod Parents
mod Tests
use baresync.Prelude.{
  ℕ, suc, String, Option, none, some, List, [], ◌∷◌, ◌++◌, map, reverse, ◌==◌, if◌then◌else◌, leb,
}

pub record SyncPushChange {ℓ} (Row : Type ℓ) : Type ℓ where
  pub table : String
  pub changed_rows : List Row
  pub deleted_ids : List String

-- `new Map(order.map((name, i) => [name, i])).get(x)`: the last place of a name counts.
unfoldable pub position_from : ℕ → List String → String → Option ℕ
position_from i [] x = none
position_from i (name ∷ names) x = elim (position_from (suc i) names x) [
  | some j ↦ some j
  | none ↦ if name == x then some i else none
]

unfoldable pub position : List String → String → Option ℕ
unfolding position_from
position order x = position_from 0 order x

module _ {ℓ} {Row : Type ℓ} where
  -- The loop: changes of ordered tables with their place, and the others.
  unfoldable pub sort_out :
      List String
      → List (SyncPushChange Row)
      → List (ℕ × SyncPushChange Row)
      → List (SyncPushChange Row)
      → List (ℕ × SyncPushChange Row) × List (SyncPushChange Row)
  unfolding position
  sort_out order [] known unknown = (known, unknown)
  sort_out order (change ∷ changes) known unknown = elim (position order change.table) [
    | none ↦ sort_out order changes known (unknown ++ change ∷ [])
    | some i ↦ sort_out order changes (known ++ (i, change) ∷ []) unknown
  ]

  unfoldable pub insert :
      ℕ × SyncPushChange Row → List (ℕ × SyncPushChange Row) → List (ℕ × SyncPushChange Row)
  insert x [] = x ∷ []
  insert x (y ∷ ys) = if leb x.0 y.0 then x ∷ y ∷ ys else y ∷ insert x ys

  -- `known.sort((a, b) => a._order - b._order)`
  unfoldable pub sort_by_order : List (ℕ × SyncPushChange Row) → List (ℕ × SyncPushChange Row)
  unfolding insert
  sort_by_order [] = []
  sort_by_order (x ∷ xs) = insert x (sort_by_order xs)

  unfoldable pub order_push_changes :
      List (SyncPushChange Row) → List String → List (SyncPushChange Row)
  unfolding sort_out sort_by_order
  order_push_changes changes order =
      let (known, unknown) = sort_out order changes [] [] in
      map (λ x. x.1) (sort_by_order known) ++ unknown

  unfoldable pub order_delete_changes :
      List (SyncPushChange Row) → List String → List (SyncPushChange Row)
  unfolding order_push_changes
  order_delete_changes changes order = order_push_changes changes (reverse order)
