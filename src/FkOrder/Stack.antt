-- ===== src/FkOrder/Stack.antt =====
-- The `visiting` set of the sort: `visit` gives it back, and it bounds the depth of the calls.
use baresync.Prelude.{
  ℕ, zero, suc, String, true, false, not, Option, none, some, List, [], ◌∷◌, ◌++◌, ◌≡◌, ◌∙◌, ap,
  ◌≤◌, ◌<◌, arith, eq_iff, inl, inr, has, add, delete, has-append, Bool-cases, keep, length, Result,
  ok, >>=-eq-ok, ok-injective,
}
use baresync.FkOrder.{
  OrderError, Graph, get_node, keys, SortState, visit_each, enter, leave, explore, visit,
}

delete_last : (x : String) (ys : List String) → has x ys ≡ false → delete x (ys ++ x ∷ []) ≡ ys
unfolding delete has
delete_last x [] h = ground (arith, eq_iff x x)
delete_last x (y ∷ ys) h = ground (arith, delete_last x ys)

pub delete-add : (x : String) (ys : List String) → has x ys ≡ false → delete x (add x ys) ≡ ys
unfolding add
delete-add x ys h = rw h (delete_last x ys h)

pub visit_each-visiting :
    (f : String → SortState → Result OrderError SortState)
    → ((x : String) (s s' : SortState) → f x s ≡ ok s' → s'.visiting ≡ s.visiting)
    → (xs : List String) (s s' : SortState) → visit_each f xs s ≡ ok s'
    → s'.visiting ≡ s.visiting
unfolding visit_each
visit_each-visiting f one [] s s' e = cc
visit_each-visiting f one (x ∷ xs) s s' e =
    let (m, first, others) = >>=-eq-ok (f x s) (visit_each f xs) e in
    visit_each-visiting f one xs m s' others ∙ one x s m first

explore-visiting :
    (f : String → SortState → Result OrderError SortState)
    → ((x : String) (s s' : SortState) → f x s ≡ ok s' → s'.visiting ≡ s.visiting)
    → (x : String) (node : Option (List String)) (s s' : SortState) → has x s.visiting ≡ false
    → explore f x node s ≡ ok s'
    → s'.visiting ≡ s.visiting
unfolding explore
explore-visiting f one x none s s' h e = cc
explore-visiting f one x (some ds) s s' h e =
    let (m, inner, same) = >>=-eq-ok (visit_each f ds (enter x s)) (λ t. ok (leave x t)) e in
    let kept = visit_each-visiting f one ds (enter x s) m inner in
    cc (ap SortState.visiting (ok-injective same), ap (delete x) kept, delete-add x s.visiting h)

pub visit-visiting :
    (nodes : Graph) (fuel : ℕ) (x : String) (s s' : SortState)
    → visit nodes fuel x s ≡ ok s'
    → s'.visiting ≡ s.visiting
unfolding visit
visit-visiting nodes zero x s s' e = cc
visit-visiting nodes (suc fuel) x s s' e = elim (Bool-cases (has x s.visited)) [
  | inl done ↦ ground arith
  | inr new ↦ elim (Bool-cases (has x s.visiting)) [
    | inl busy ↦ ground arith
    | inr free ↦
        explore-visiting (visit nodes fuel) (visit-visiting nodes fuel) x (get_node nodes x) s s'
          free (rw (new, free) at e)
  ]
]

-- The nodes that are not being visited.
abbrev pub unvisited : Graph → List String → List String
unvisited nodes stack = keep (λ x. not (has x stack)) (keys nodes)

keep-add_le :
    (x : String) (stack ks : List String)
    → length (keep (λ k. not (has k (stack ++ x ∷ []))) ks)
      ≤ length (keep (λ k. not (has k stack)) ks)
unfolding has
keep-add_le x stack [] = omega arith
keep-add_le x stack (k ∷ ks) = ground (arith, keep-add_le x stack ks, has-append k stack (x ∷ []))

pub keep-add_lt :
    (x : String) (stack ks : List String)
    → has x stack ≡ false
    → has x ks ≡ true
    → length (keep (λ k. not (has k (stack ++ x ∷ []))) ks)
      < length (keep (λ k. not (has k stack)) ks)
unfolding has
keep-add_lt x stack [] free listed = cc
keep-add_lt x stack (k ∷ ks) free listed = ground (
  arith,
  keep-add_lt x stack ks,
  keep-add_le x stack ks,
  has-append k stack (x ∷ []),
  eq_iff k x,
  eq_iff x k,
  eq_iff x x,
)
