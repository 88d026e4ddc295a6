-- ===== src/FkOrder/Relations.antt =====
-- What an order of tables and an error of the sort mean, stated over the graph alone.
use baresync.Prelude.{
  String, true, false, none, some, Option, List, [], ◌∷◌, ◌++◌, ◌≡◌, has, All, Distinct,
}
use baresync.FkOrder.{
  OrderError, missing_target, external_reference, cycle_detected, missing_node, out_of_fuel, Graph,
  get_node, keys,
}

abbrev pub or_empty : Option (List String) → List String
or_empty none = []
or_empty (some names) = names

abbrev pub dependencies : Graph → String → List String
dependencies nodes x = or_empty (get_node nodes x)

abbrev pub DependsOn : Graph → String → String → Type 0
DependsOn nodes x y = has y (dependencies nodes x) ≡ true

-- A chain of one dependency or more.
pub data Reaches (nodes : Graph) : String → String → Type 0 where
  direct : {x y : String} → DependsOn nodes x y → Reaches nodes x y
  onward : {x y z : String} → Reaches nodes x y → DependsOn nodes y z → Reaches nodes x z

abbrev pub AllIn : List String → List String → Type 0
AllIn xs seen = All (λ x. has x seen ≡ true) xs

-- Each name stands behind its dependencies, which `seen` may hold too.
abbrev pub Respects : Graph → List String → List String → Type 0
Respects nodes seen [] = Unit
Respects nodes seen (x ∷ xs) =
    AllIn (dependencies nodes x) seen × Respects nodes (seen ++ x ∷ []) xs

-- Each name stands before its dependencies.
abbrev pub Precedes : Graph → List String → Type 0
Precedes nodes [] = Unit
Precedes nodes (x ∷ xs) = AllIn (dependencies nodes x) xs × Precedes nodes xs

pub record IsUpsertOrder (nodes : Graph) (order : List String) : Type 0 where
  pub distinct : Distinct order
  pub complete : (x : String) → has x order ≡ has x (keys nodes)
  pub respects : Respects nodes [] order

-- What an error of the sort says of the graph.
abbrev pub Explains : Graph → OrderError → Type 0
Explains nodes (cycle_detected x) = Reaches nodes x x
Explains nodes (missing_node x) = (has x (keys nodes) ≡ false) × (y : String) × DependsOn nodes y x
Explains nodes missing_target = ⊥
Explains nodes (external_reference x y) = ⊥
Explains nodes out_of_fuel = ⊥
