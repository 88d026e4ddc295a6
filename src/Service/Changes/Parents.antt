-- ===== src/Service/Changes/Parents.antt =====
-- A push that is ordered by the generated upsert order writes parents before their children.
use baresync.Prelude.{
  ℕ, suc, ◌≤◌, ◌<◌, String, true, false, none, some, List, [], ◌∷◌, ◌++◌, ◌≡◌, refl, arith, ◌==◌,
  eq_iff, inl, inr, Bool-cases, has, has-append, All-map_weaken, AllPairs, Distinct,
}
use baresync.FkOrder.{Graph}
use baresync.FkOrder.Relations.{dependencies, DependsOn, Respects, IsUpsertOrder}
use baresync.FkOrder.Acyclic.{AllIn-at, dependency-listed}
use baresync.Service.Changes.{SyncPushChange, position_from, position, order_push_changes}
use baresync.Service.Changes.Ordering.{InOrder, order_push_changes-InOrder}

-- In a list with no name twice, a name has a place exactly if it is in the list.
position_from-absent :
    (i : ℕ) (names : List String) (x : String)
    → has x names ≡ false
    → position_from i names x ≡ none
unfolding position_from has
position_from-absent i [] x h = refl
position_from-absent i (y ∷ ys) x h = ground (arith, position_from-absent (suc i) ys x)

position_from-present :
    (i : ℕ) (names : List String) (x : String)
    → has x names ≡ true
    → (j : ℕ) × (position_from i names x ≡ some j) × (i ≤ j)
unfolding position_from has
position_from-present i [] x h = cc
position_from-present i (y ∷ ys) x h = elim (Bool-cases (has x ys)) [
  | inl later ↦
      let (j, e, le) = position_from-present (suc i) ys x later in
      (j, rw (e, position_from), omega arith)
  | inr now ↦
      let here : (y == x) ≡ true = ground arith in
      (i, rw (position_from-absent (suc i) ys x now, here), omega arith)
]

-- A dependency stands in front of the name, among those passed over or in the list.
Respects-listed :
    (nodes : Graph) (seen names : List String) (x y : String)
    → Respects nodes seen names
    → has x names ≡ true
    → DependsOn nodes x y
    → has y (seen ++ names) ≡ true
unfolding has
Respects-listed nodes seen [] x y r listed dep = cc
Respects-listed nodes seen (z ∷ zs) x y r listed dep = elim (Bool-cases (z == x)) [
  | inl same ↦
      let behind = AllIn-at y (dependencies nodes x) seen (rw ((eq_iff z x).0 same) at r.0) dep in
      rw (has-append y seen (z ∷ zs), behind)
  | inr other ↦
      let later = Respects-listed nodes (seen ++ z ∷ []) zs x y r.1 (rw other at listed) dep in
      ground (
        arith,
        has-append y (seen ++ z ∷ []) zs,
        has-append y seen (z ∷ []),
        has-append y seen (z ∷ zs),
      )
]

Respects-position :
    (nodes : Graph) (seen names : List String) (i : ℕ) (x y : String)
    → Respects nodes seen names
    → Distinct names
    → ((z : String) → has z seen ≡ true → has z names ≡ false)
    → has x names ≡ true
    → has y names ≡ true
    → DependsOn nodes x y
    → (j k : ℕ) × (position_from i names y ≡ some j) × (position_from i names x ≡ some k) × (j < k)
unfolding has position_from
Respects-position nodes seen [] i x y r distinct apart listed there dep = cc
Respects-position nodes seen (z ∷ zs) i x y r (new, distinct) apart listed there dep =
    elim (Bool-cases (z == x)) [
      | inl same ↦
          let behind =
            AllIn-at y (dependencies nodes x) seen (rw ((eq_iff z x).0 same) at r.0) dep in
          absurd (ground (arith, apart y behind))
      | inr other ↦
          let later : has x zs ≡ true = rw other at listed in
          elim (Bool-cases (z == y)) [
            | inl first ↦
                let e : z ≡ y = (eq_iff z y).0 first in
                let absent : has y zs ≡ false = rw e at new in
                let (k, place, above) = position_from-present (suc i) zs x later in
                (
                  i,
                  k,
                  rw (position_from, position_from-absent (suc i) zs y absent, first),
                  rw (position_from, place),
                  above,
                )
            | inr behind ↦
                let (j, k, place_y, place_x, lt) =
                  Respects-position nodes (seen ++ z ∷ []) zs (suc i) x y r.1 distinct
                    (λ w m. ground (arith, has-append w seen (z ∷ []), apart w, eq_iff z w)) later
                    (rw behind at there) dep in
                (j, k, rw (position_from, place_y), rw (position_from, place_x), lt)
          ]
    ]

-- Where one table depends on another, the other has the earlier place in an upsert order.
upsert_order-position :
    (nodes : Graph) (order : List String) (x y : String)
    → IsUpsertOrder nodes order
    → DependsOn nodes x y
    → (j k : ℕ) × (position order y ≡ some j) × (position order x ≡ some k) × (j < k)
unfolding position has
upsert_order-position nodes order x y h dep =
    let listed : has x order ≡ true = rw (h.complete x) (dependency-listed nodes x y dep) in
    let there : has y order ≡ true = Respects-listed nodes [] order x y h.respects listed dep in
    Respects-position nodes [] order 0 x y h.respects h.distinct (λ z m. cc) listed there dep

module _ {ℓ} {Row : Type ℓ} (nodes : Graph) (order : List String)
    (h : IsUpsertOrder nodes order) where
  not-DependsOn : (c d : SyncPushChange Row) → InOrder order c d → ¬ DependsOn nodes c.table d.table
  not-DependsOn c d ordered dep =
      let (j, k, place_d, place_c, lt) = upsert_order-position nodes order c.table d.table h dep in
      let le : k ≤ j = rw (place_c, place_d) at ordered in absurd (omega arith)

  AllPairs-not-DependsOn :
      (cs : List (SyncPushChange Row))
      → AllPairs (InOrder order) cs
      → AllPairs (λ c d. ¬ DependsOn nodes c.table d.table) cs
  AllPairs-not-DependsOn [] p = tt
  AllPairs-not-DependsOn (c ∷ cs) p =
      (All-map_weaken (not-DependsOn c) cs p.0, AllPairs-not-DependsOn cs p.1)

  -- Ordered by an upsert order of the dependency graph, no change of a push stands before a change of
  -- a table that its own table depends on: rows are written behind the rows that they refer to.
  pub order_push_changes-parents_first :
      (changes : List (SyncPushChange Row))
      → AllPairs (λ c d. ¬ DependsOn nodes c.table d.table) (order_push_changes changes order)
  order_push_changes-parents_first changes =
      AllPairs-not-DependsOn (order_push_changes changes order)
        (order_push_changes-InOrder order changes)
