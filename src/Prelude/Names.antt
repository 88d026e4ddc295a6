-- ===== src/Prelude/Names.antt =====
-- Sets of names as the code uses them (`Set<string>`, `includes`, `some`), as lists of texts.
use Prim.Native.String.{String}
use mathlib.Core.Path.{◌≡◌, refl}
use mathlib.Core.Bool.{Bool, true, false, ◌||◌}
use mathlib.Core.List.{List, [], ◌∷◌, ◌++◌}
use native.Mathlib.Omega.{arith}
use text.Mathlib.Text.{◌==◌}
use text.Mathlib.TextEquality.{eq_iff}
use baresync.Prelude.Tests.{if◌then◌else◌}

unfoldable pub has : String → List String → Bool
has x [] = false
has x (y ∷ ys) = y == x || has x ys

-- `set.add(x)`: at the end, where it is not there yet.
unfoldable pub add : String → List String → List String
unfolding has
add x xs = if has x xs then xs else xs ++ x ∷ []

-- `set.delete(x)`
unfoldable pub delete : String → List String → List String
delete x [] = []
delete x (y ∷ ys) = if y == x then delete x ys else y ∷ delete x ys

-- No name twice.
abbrev pub Distinct : List String → Type 0
Distinct [] = Unit
Distinct (x ∷ xs) = (has x xs ≡ false) × Distinct xs

pub has-append : (x : String) (ys zs : List String) → has x (ys ++ zs) ≡ (has x ys || has x zs)
unfolding has
has-append x [] zs = refl
has-append x (y ∷ ys) zs = ground (arith, has-append x ys zs)

pub has-add : (x y : String) (ys : List String) → has x (add y ys) ≡ (has x ys || y == x)
unfolding add has
has-add x y ys = ground (arith, has-append x ys (y ∷ []), eq_iff y x)

pub has_self : (x : String) (ys : List String) → has x (x ∷ ys) ≡ true
unfolding has
has_self x ys = ground (arith, eq_iff x x)

pub delete_absent : (x : String) (ys : List String) → has x ys ≡ false → delete x ys ≡ ys
unfolding delete has
delete_absent x [] h = refl
delete_absent x (y ∷ ys) h = ground (arith, delete_absent x ys)

pub Distinct-concat :
    (xs : List String) (x : String) → Distinct xs → has x xs ≡ false → Distinct (xs ++ x ∷ [])
unfolding has
Distinct-concat [] x d h = (refl, tt)
Distinct-concat (y ∷ ys) x d h =
    ground (arith, Distinct-concat ys x d.1, has-append y ys (x ∷ []), eq_iff y x, eq_iff x y)
