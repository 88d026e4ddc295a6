-- ===== src/FkOrder/Acyclic.antt =====
-- The reversed order, and that only a graph with no cycle has an order.
use mathlib.Core.List.{append_assoc, append-nil, reverse-cons, reverse-append}
use baresync.Prelude.{
  ℕ, suc, String, true, List, [], ◌∷◌, ◌++◌, reverse, ◌≡◌, refl, ◌∙◌, ◌≤◌, ◌<◌, arith, ◌==◌, eq_iff,
  inl, inr, has, has-append, Distinct, Distinct-concat, Bool-cases, Option-cases, ok, length,
  if◌then◌else◌,
}
use baresync.FkOrder.{Graph, get_node, keys, topological_sort}
use baresync.FkOrder.Relations.{
  dependencies, DependsOn, Reaches, direct, onward, AllIn, Respects, Precedes, IsUpsertOrder,
}
use baresync.FkOrder.Order.{get_node-listed, topological_sort-IsUpsertOrder, AllIn-mono}

pub has-reverse : (x : String) (xs : List String) → has x (reverse xs) ≡ has x xs
unfolding has
has-reverse x [] = refl
has-reverse x (y ∷ ys) =
    rw (reverse-cons, has-append x (reverse ys) (y ∷ []), has-reverse x ys) (ground arith)

Distinct-reverse : (xs : List String) → Distinct xs → Distinct (reverse xs)
Distinct-reverse [] d = tt
Distinct-reverse (x ∷ xs) d =
    rw reverse-cons (Distinct-concat (reverse xs) x (Distinct-reverse xs d.1) (rw has-reverse d.0))

-- From the front, what is passed over stands reversed behind.
Precedes-reverse_from :
    (nodes : Graph) (seen xs : List String)
    → Precedes nodes (reverse seen)
    → Respects nodes seen xs
    → Precedes nodes (reverse (seen ++ xs))
Precedes-reverse_from nodes seen [] h r = rw append-nil h
Precedes-reverse_from nodes seen (x ∷ xs) h r =
    let behind =
      AllIn-mono seen (reverse seen) (λ z m. rw has-reverse m) (dependencies nodes x) r.0 in
    let entered : Precedes nodes (reverse (seen ++ x ∷ [])) = rw reverse-append (behind, h) in
    rw append_assoc at (Precedes-reverse_from nodes (seen ++ x ∷ []) xs entered r.1)

-- The position counted from the end.
rank : List String → String → ℕ
rank [] x = 0
rank (y ∷ ys) x = if y == x then suc (length ys) else rank ys x

rank-le : (ys : List String) (x : String) → rank ys x ≤ length ys
unfolding rank
rank-le [] x = omega arith
rank-le (y ∷ ys) x = ground (arith, rank-le ys x)

pub AllIn-at : (x : String) (xs ys : List String) → AllIn xs ys → has x xs ≡ true → has x ys ≡ true
unfolding has
AllIn-at x [] ys h m = cc
AllIn-at x (z ∷ zs) ys h m = ground (arith, AllIn-at x zs ys h.1, eq_iff z x)

-- A dependency has a smaller rank, and is in the list.
rank-dependency :
    (nodes : Graph) (order : List String) (x d : String)
    → Distinct order
    → Precedes nodes order
    → has x order ≡ true
    → DependsOn nodes x d
    → (has d order ≡ true) × (rank order d < rank order x)
unfolding rank has
rank-dependency nodes [] x d distinct before listed dep = cc
rank-dependency nodes (y ∷ ys) x d (new, distinct) (here, later) listed dep =
    elim (Bool-cases (y == x)) [
      | inl same ↦
          let e : y ≡ x = (eq_iff y x).0 same in
          let below = AllIn-at d (dependencies nodes x) ys (rw e at here) dep in
          ground (arith, rank-le ys d, eq_iff y d)
      | inr other ↦
          let (m, lt) = rank-dependency nodes ys x d distinct later (rw other at listed) dep in
          ground (arith, eq_iff y d)
    ]

Reaches-rank :
    (nodes : Graph) (order : List String) {x y : String}
    → Distinct order
    → Precedes nodes order
    → has x order ≡ true
    → Reaches nodes x y
    → (has y order ≡ true) × (rank order y < rank order x)
Reaches-rank nodes order {x} {y} distinct before listed (direct dep) =
    rank-dependency nodes order x y distinct before listed dep
Reaches-rank nodes order {x} {y = z} distinct before listed (onward {y} r dep) =
    let (there, lt) = Reaches-rank nodes order distinct before listed r in
    let (m, lt') = rank-dependency nodes order y z distinct before there dep in (m, omega arith)

pub dependency-listed :
    (nodes : Graph) (x y : String) → DependsOn nodes x y → has x (keys nodes) ≡ true
unfolding has
dependency-listed nodes x y dep = elim (Option-cases (get_node nodes x)) [
  | inl absent ↦ cc (rw absent at dep)
  | inr (ds, found) ↦ get_node-listed nodes x found
]

Reaches-listed : (nodes : Graph) {x y : String} → Reaches nodes x y → has x (keys nodes) ≡ true
Reaches-listed nodes {x} {y} (direct dep) = dependency-listed nodes x y dep
Reaches-listed nodes (onward r dep) = Reaches-listed nodes r

pub record IsDeleteOrder (nodes : Graph) (order : List String) : Type 0 where
  pub distinct : Distinct order
  pub complete : (x : String) → has x order ≡ has x (keys nodes)
  pub precedes : Precedes nodes order

-- Backwards, an upsert order names every node exactly once and no other table, and each table
-- stands before all of its dependencies.
pub reverse-IsDeleteOrder :
    (nodes : Graph) (order : List String)
    → IsUpsertOrder nodes order
    → IsDeleteOrder nodes (reverse order)
reverse-IsDeleteOrder nodes order h = record {
  distinct = Distinct-reverse order h.distinct;
  complete = λ x. rw has-reverse (h.complete x);
  precedes = Precedes-reverse_from nodes [] order tt h.respects;
}

-- When the sort returns, no table reaches itself through its dependencies.
pub topological_sort-acyclic :
    (nodes : Graph) (order : List String) (x : String)
    → topological_sort nodes ≡ ok order
    → ¬ Reaches nodes x x
topological_sort-acyclic nodes order x e loop =
    let d = reverse-IsDeleteOrder nodes order (topological_sort-IsUpsertOrder nodes order e) in
    let listed = d.complete x ∙ Reaches-listed nodes loop in
    let (_, lt) = Reaches-rank nodes (reverse order) d.distinct d.precedes listed loop in
    absurd (omega arith)
