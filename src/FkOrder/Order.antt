-- ===== src/FkOrder/Order.antt =====
-- A sort that returns gives an upsert order: every node once, behind its dependencies.
use mathlib.Core.List.{append_assoc, append-nil}
use baresync.Prelude.{
  ℕ, zero, suc, String, Bool, true, false, ◌||◌, Option, none, some, List, [], ◌∷◌, ◌++◌, ◌≡◌, refl,
  ◌∙◌, ap, arith, ◌==◌, eq_iff, inl, inr, has, add, delete, has-append, has-add, has_self, Distinct,
  Distinct-concat, Bool-cases, Result, ok, >>=-eq-ok, ok-injective, length,
}
use baresync.FkOrder.{
  OrderError, Graph, get_node, keys, SortState, visit_each, enter, leave, explore, visit,
  sort_start, topological_sort,
}
use baresync.FkOrder.Relations.{dependencies, AllIn, Respects, IsUpsertOrder}
use baresync.FkOrder.Stack.{delete-add}

pub get_node-listed :
    (nodes : Graph) (x : String) {ds : List String}
    → get_node nodes x ≡ some ds
    → has x (keys nodes) ≡ true
unfolding get_node has
get_node-listed [] x e = cc
get_node-listed ((y, es) ∷ nodes) x e = elim (Bool-cases (y == x)) [
  | inl here ↦ rw here
  | inr later ↦ rw later (get_node-listed nodes x (rw later at e))
]

pub AllIn-mono :
    (xs ys : List String)
    → ((z : String) → has z xs ≡ true → has z ys ≡ true)
    → (zs : List String) → AllIn zs xs
    → AllIn zs ys
AllIn-mono xs ys more [] h = tt
AllIn-mono xs ys more (z ∷ zs) h = (more z h.0, AllIn-mono xs ys more zs h.1)

Respects-concat :
    (nodes : Graph) (seen xs : List String) (x : String)
    → Respects nodes seen xs
    → AllIn (dependencies nodes x) (seen ++ xs)
    → Respects nodes seen (xs ++ x ∷ [])
Respects-concat nodes seen [] x h k = (rw append-nil at k, tt)
Respects-concat nodes seen (y ∷ ys) x h k =
    (h.0, Respects-concat nodes (seen ++ y ∷ []) ys x h.1 (rw append_assoc k))

record IsSound (nodes : Graph) (s : SortState) : Type 0 where
  same : s.visited ≡ s.ordered
  distinct : Distinct s.ordered
  disjoint : (y : String) → has y s.visiting ≡ true → has y s.ordered ≡ false
  listed : (y : String) → has y s.ordered ≡ true → has y (keys nodes) ≡ true
  respects : Respects nodes [] s.ordered

-- What a call of `visit` for the names `xs` has done.
record Visited (nodes : Graph) (xs : List String) (s s' : SortState) : Type 0 where
  sound : IsSound nodes s'
  stack : s'.visiting ≡ s.visiting
  more : (y : String) → has y s.ordered ≡ true → has y s'.ordered ≡ true
  reached : AllIn xs s'.ordered

enter-IsSound :
    (nodes : Graph) (x : String) (s : SortState)
    → has x s.ordered ≡ false
    → IsSound nodes s
    → IsSound nodes (enter x s)
unfolding enter has
enter-IsSound nodes x s new h = record {
  same = h.same;
  distinct = h.distinct;
  disjoint = λ y busy. ground (arith, h.disjoint y, has-add y x s.visiting, eq_iff x y);
  listed = h.listed;
  respects = h.respects;
}

module _ (nodes : Graph) (x : String) (stack : List String) (m : SortState)
    (entered : m.visiting ≡ add x stack) (free : has x stack ≡ false) (h : IsSound nodes m) where
  leave-visiting : (leave x m).visiting ≡ stack
  unfolding leave
  leave-visiting = ap (delete x) entered ∙ delete-add x stack free

  busy-new : (y : String) → (has y stack || x == y) ≡ true → has y m.ordered ≡ false
  busy-new y busy = h.disjoint y (rw entered (has-add y x stack ∙ busy))

  leaving-new : has x m.ordered ≡ false
  leaving-new = busy-new x (ground (arith, eq_iff x x))

  leave-disjoint : (y : String) → has y stack ≡ true → has y (m.ordered ++ x ∷ []) ≡ false
  unfolding has
  leave-disjoint y busy = ground (arith, has-append y m.ordered (x ∷ []), busy-new y, eq_iff x y)

  leave-IsSound :
      has x (keys nodes) ≡ true → AllIn (dependencies nodes x) m.ordered → IsSound nodes (leave x m)
  unfolding leave has
  leave-IsSound node ready = record {
    same = rw (h.same, add, leaving-new);
    distinct = Distinct-concat m.ordered x h.distinct leaving-new;
    disjoint = λ y busy. leave-disjoint y (rw leave-visiting at busy);
    listed = λ y k. ground (arith, h.listed y, has-append y m.ordered (x ∷ []), eq_iff x y);
    respects = Respects-concat nodes [] m.ordered x h.respects ready;
  }

module _ (nodes : Graph) (f : String → SortState → Result OrderError SortState)
    (one : (x : String) (s s' : SortState)
      → IsSound nodes s
      → f x s ≡ ok s'
      → Visited nodes (x ∷ []) s s') where
  visit_each-Visited :
      (xs : List String) (s s' : SortState)
      → IsSound nodes s
      → visit_each f xs s ≡ ok s'
      → Visited nodes xs s s'
  unfolding visit_each
  visit_each-Visited [] s s' h e =
      let same : s ≡ s' = ok-injective e in
      rw (← same) (record { sound = h; stack = refl; more = λ y m. m; reached = tt })
  visit_each-Visited (x ∷ xs) s s' h e =
      let (m, first, others) = >>=-eq-ok (f x s) (visit_each f xs) e in
      let v = one x s m h first in
      let w = visit_each-Visited xs m s' v.sound others in
      record {
        sound = w.sound;
        stack = w.stack ∙ v.stack;
        more = λ y k. w.more y (v.more y k);
        reached = (w.more x v.reached.0, w.reached);
      }

  explore-Visited :
      (x : String) (node : Option (List String)) (s s' : SortState)
      → get_node nodes x ≡ node
      → has x s.ordered ≡ false
      → has x s.visiting ≡ false
      → IsSound nodes s
      → explore f x node s ≡ ok s'
      → Visited nodes (x ∷ []) s s'
  unfolding explore
  explore-Visited x none s s' known new free h e = cc
  explore-Visited x (some ds) s s' known new free h e =
      let (m, inner, same) = >>=-eq-ok (visit_each f ds (enter x s)) (λ t. ok (leave x t)) e in
      let v = visit_each-Visited ds (enter x s) m (enter-IsSound nodes x s new h) inner in
      let node = get_node-listed nodes x known in
      let here : leave x m ≡ s' = ok-injective same in
      rw (← here) (record {
        sound = leave-IsSound nodes x s.visiting m v.stack free v.sound node (rw known v.reached);
        stack = leave-visiting nodes x s.visiting m v.stack free v.sound;
        more = λ y k. rw (has-append y m.ordered (x ∷ []), v.more y k);
        reached = (rw (has-append x m.ordered (x ∷ []), has_self x []) (ground arith), tt);
      })

visit-Visited :
    (nodes : Graph) (fuel : ℕ) (x : String) (s s' : SortState)
    → IsSound nodes s
    → visit nodes fuel x s ≡ ok s'
    → Visited nodes (x ∷ []) s s'
unfolding visit
visit-Visited nodes zero x s s' h e = cc
visit-Visited nodes (suc fuel) x s s' h e = elim (Bool-cases (has x s.visited)) [
  | inl done ↦
      let same : s ≡ s' = ok-injective (rw done at e) in
      rw (← same)
        (record { sound = h; stack = refl; more = λ y m. m; reached = (rw h.same at done, tt) })
  | inr new ↦ elim (Bool-cases (has x s.visiting)) [
    | inl busy ↦ absurd (ground arith)
    | inr free ↦
        explore-Visited nodes (visit nodes fuel) (visit-Visited nodes fuel) x (get_node nodes x) s
          s' refl (rw h.same at new) free h (rw (new, free) at e)
  ]
]

AllIn-has : (x : String) (xs ys : List String) → AllIn xs ys → has x xs ≡ true → has x ys ≡ true
unfolding has
AllIn-has x [] ys h m = cc
AllIn-has x (z ∷ zs) ys h m = ground (arith, AllIn-has x zs ys h.1, eq_iff z x)

-- Both directions of an equation between tests.
eq_of_implications : (b c : Bool) → (b ≡ true → c ≡ true) → (c ≡ true → b ≡ true) → b ≡ c
eq_of_implications b c f g = ground arith

start-IsSound : (nodes : Graph) → IsSound nodes sort_start
unfolding has
start-IsSound nodes = record {
  same = refl;
  distinct = tt;
  disjoint = λ y k. refl;
  listed = λ y k. cc;
  respects = tt;
}

-- When the sort of the tables returns, its order names every node of the graph exactly once and no
-- other table, and each table stands behind all of its dependencies.
pub topological_sort-IsUpsertOrder :
    (nodes : Graph) (order : List String)
    → topological_sort nodes ≡ ok order
    → IsUpsertOrder nodes order
unfolding topological_sort
topological_sort-IsUpsertOrder nodes order e =
    let fuel = suc (length nodes) in
    let (s, run, same) = >>=-eq-ok (visit_each (visit nodes fuel) (keys nodes) sort_start) _ e in
    let v =
      visit_each-Visited nodes (visit nodes fuel) (visit-Visited nodes fuel) (keys nodes) sort_start
        s (start-IsSound nodes) run in
    let here : s.ordered ≡ order = ok-injective same in
    rw (← here) (record {
      distinct = v.sound.distinct;
      complete = λ x.
          eq_of_implications _ _ (v.sound.listed x) (AllIn-has x (keys nodes) s.ordered v.reached);
      respects = v.sound.respects;
    })
