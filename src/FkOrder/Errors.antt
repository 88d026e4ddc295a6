-- ===== src/FkOrder/Errors.antt =====
-- A sort that throws has found a cycle or a dependency without a node; the fuel is enough.
use baresync.Prelude.{
  ℕ, zero, suc, String, true, false, not, none, some, List, [], ◌∷◌, ◌≡◌, refl, ◌∙◌, ◌⊎◌, inl, inr,
  ◌≤◌, ◌<◌, arith, ◌==◌, eq_iff, has, add, has-add, has_self, Bool-cases, Option-cases, Result, ok,
  throw, >>=-eq-throw, throw-injective, length, length-keep-le, length-map,
}
use baresync.FkOrder.{
  OrderError, cycle_detected, missing_node, Graph, get_node, keys, SortState, visit_each, enter,
  leave, explore, visit, sort_start, topological_sort,
}
use baresync.FkOrder.Relations.{DependsOn, Reaches, direct, onward, Explains}
use baresync.FkOrder.Stack.{visit-visiting, unvisited, keep-add_lt}
use baresync.FkOrder.Order.{get_node-listed}

get_node-unlisted :
    (nodes : Graph) (x : String) → get_node nodes x ≡ none → has x (keys nodes) ≡ false
unfolding get_node has
get_node-unlisted [] x e = refl
get_node-unlisted ((y, es) ∷ nodes) x e = elim (Bool-cases (y == x)) [
  | inl here ↦ absurd (ground arith)
  | inr later ↦ rw later (get_node-unlisted nodes x (rw later at e))
]

-- What a call of `visit` may rely on: those being visited reach the name, and the name is a node
-- or the dependency of one.
record IsCalled (nodes : Graph) (stack : List String) (x : String) : Type 0 where
  chain : (y : String) → has y stack ≡ true → Reaches nodes y x
  origin : (has x (keys nodes) ≡ true) ⊎ ((y : String) × DependsOn nodes y x)

module _ (nodes : Graph) (stack : List String)
    (f : String → SortState → Result OrderError SortState)
    (keeps : (x : String) (s s' : SortState) → f x s ≡ ok s' → s'.visiting ≡ s.visiting)
    (one : (x : String) (s : SortState) (e : OrderError)
      → s.visiting ≡ stack
      → IsCalled nodes stack x
      → f x s ≡ throw e
      → Explains nodes e) where
  visit_each-Explains :
      (xs : List String) (s : SortState) (e : OrderError)
      → s.visiting ≡ stack
      → ((x : String) → has x xs ≡ true → IsCalled nodes stack x)
      → visit_each f xs s ≡ throw e
      → Explains nodes e
  unfolding visit_each has
  visit_each-Explains [] s e at_stack called thrown = cc
  visit_each-Explains (x ∷ xs) s e at_stack called thrown =
      elim (>>=-eq-throw (f x s) (visit_each f xs) thrown) [
        | inl here ↦ one x s e at_stack (called x (has_self x xs)) here
        | inr (m, first, later) ↦
            visit_each-Explains xs m e (keeps x s m first ∙ at_stack)
              (λ y k. called y (ground arith)) later
      ]

IsCalled-dependency :
    (nodes : Graph) (x d : String) (stack : List String)
    → IsCalled nodes stack x
    → DependsOn nodes x d
    → IsCalled nodes (add x stack) d
unfolding has
IsCalled-dependency nodes x d stack called dep = record {
  chain = λ y busy. elim (Bool-cases (has y stack)) [
    | inl old ↦ onward (called.chain y old) dep
    | inr new ↦
        let same : x ≡ y = ground (arith, has-add y x stack, eq_iff x y) in rw (← same) (direct dep)
  ];
  origin = inr (x, dep);
}

enter-visiting : (x : String) (s : SortState) → (enter x s).visiting ≡ add x s.visiting
unfolding enter
enter-visiting x s = refl

enough-enter :
    (nodes : Graph) (x : String) (stack : List String) (fuel : ℕ)
    → has x stack ≡ false
    → has x (keys nodes) ≡ true
    → length (unvisited nodes stack) < suc fuel
    → length (unvisited nodes (add x stack)) < fuel
unfolding add
enough-enter nodes x stack fuel free node h =
    rw free (omega (arith, keep-add_lt x stack (keys nodes) free node))

missing-Explains :
    (nodes : Graph) (x : String) (stack : List String)
    → get_node nodes x ≡ none
    → IsCalled nodes stack x
    → Explains nodes (missing_node x)
missing-Explains nodes x stack absent called =
    let unlisted = get_node-unlisted nodes x absent in
    elim called.origin [ inl listed ↦ absurd (ground arith) | inr (y, dep) ↦ (unlisted, y, dep) ]

explore-Explains :
    (nodes : Graph) (f : String → SortState → Result OrderError SortState) (x : String)
    (ds : List String) (s : SortState) (e : OrderError)
    → ((x : String) (s s' : SortState) → f x s ≡ ok s' → s'.visiting ≡ s.visiting)
    → ((y : String) (t : SortState) (e : OrderError)
        → t.visiting ≡ add x s.visiting
        → IsCalled nodes (add x s.visiting) y
        → f y t ≡ throw e
        → Explains nodes e)
    → get_node nodes x ≡ some ds
    → IsCalled nodes s.visiting x
    → explore f x (some ds) s ≡ throw e
    → Explains nodes e
unfolding explore
explore-Explains nodes f x ds s e keeps one found called thrown =
    elim (>>=-eq-throw (visit_each f ds (enter x s)) (λ t. ok (leave x t)) thrown) [
      | inl inner ↦
          visit_each-Explains nodes (add x s.visiting) f keeps one ds (enter x s) e
            (enter-visiting x s)
            (λ d k. IsCalled-dependency nodes x d s.visiting called (rw found k)) inner
      | inr (t, done, never) ↦ cc
    ]

visit-Explains :
    (nodes : Graph) (fuel : ℕ) (x : String) (s : SortState) (e : OrderError)
    → length (unvisited nodes s.visiting) < fuel
    → IsCalled nodes s.visiting x
    → visit nodes fuel x s ≡ throw e
    → Explains nodes e
unfolding visit
visit-Explains nodes zero x s e enough called thrown = elim enough [ ]
visit-Explains nodes (suc fuel) x s e enough called thrown = elim (Bool-cases (has x s.visited)) [
  | inl done ↦ absurd (ground arith)
  | inr new ↦ elim (Bool-cases (has x s.visiting)) [
    | inl busy ↦
        let here : cycle_detected x ≡ e = throw-injective (rw (new, busy) at thrown) in
        rw (← here) (called.chain x busy)
    | inr free ↦ elim (Option-cases (get_node nodes x)) [
      | inl absent ↦
          let here : missing_node x ≡ e =
            throw-injective (rw (new, free, absent, explore) at thrown) in
          rw (← here) (missing-Explains nodes x s.visiting absent called)
      | inr (ds, found) ↦
          let node = get_node-listed nodes x found in
          let room = enough-enter nodes x s.visiting fuel free node enough in
          explore-Explains nodes (visit nodes fuel) x ds s e (visit-visiting nodes fuel)
            (λ y t d at_stack call later.
              visit-Explains nodes fuel y t d (rw at_stack room) (rw at_stack call) later)
            found called (rw (new, free, found) at thrown)
    ]
  ]
]

length-unvisited-le :
    (nodes : Graph) (stack : List String) → length (unvisited nodes stack) ≤ length nodes
length-unvisited-le nodes stack = omega (
  arith,
  length-keep-le (λ x. not (has x stack)) (keys nodes),
  length-map (λ (n : String × List String). n.0) nodes,
)

-- Whatever the graph, a sort that throws has a reason in it. A cycle error names a table that
-- reaches itself through its dependencies; a missing-node error names a table that is no node and
-- that some node depends on. It throws nothing else, and in particular never runs out of fuel.
pub topological_sort-Explains :
    (nodes : Graph) (e : OrderError) → topological_sort nodes ≡ throw e → Explains nodes e
unfolding topological_sort has
topological_sort-Explains nodes e thrown =
    let fuel = suc (length nodes) in
    elim (>>=-eq-throw (visit_each (visit nodes fuel) (keys nodes) sort_start) _ thrown) [
      | inl inner ↦
          visit_each-Explains nodes [] (visit nodes fuel) (visit-visiting nodes fuel)
            (λ y t d at_stack call later.
              visit-Explains nodes fuel y t d
                (rw at_stack (omega (arith, length-unvisited-le nodes []))) (rw at_stack call)
                later)
            (keys nodes) sort_start e refl (λ x k. record { chain = λ y busy. cc; origin = inl k })
            inner
      | inr (s, done, never) ↦ cc
    ]
