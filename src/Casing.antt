-- ===== src/Casing.antt =====
-- `camelToSnake` and `snakeToCamel`, which packages/baresync/src/generator/diagnostics.ts,
-- schema/contract.ts and schema/synced-table.ts each declare again, and the letters of ASCII that
-- their patterns name. `toLowerCase` of a first letter outside ASCII leaves it as it is here.
pub mod Laws
mod Tests
use Prim.Native.Char.{Char, char, code, IsScalar}
use Prim.Native.Nat.{Ordering, compare}
use Prim.Native.String.{[], ◌∷◌}
use baresync.Prelude.{
  ℕ, ◌+◌, ◌-◌, String, Bool, true, false, ◌&&◌, ◌≡◌, refl, sym, subst, leb, ◌=?◌, if◌then◌else◌,
}

abbrev pub is_upper : Char → Bool
is_upper c = leb b'A' (code c) && leb (code c) b'Z'

abbrev pub is_lower : Char → Bool
is_lower c = leb b'a' (code c) && leb (code c) b'z'

abbrev pub is_underscore : Char → Bool
is_underscore c = code c =? b'_'

pub scalar : (n : ℕ) → compare n 55296 ≡ Ordering.lt → IsScalar n
scalar n e = rw e tt

abbrev pub checked : (n : ℕ) (o : Ordering) → compare n 55296 ≡ o → Char
checked n Ordering.lt e = char n (scalar n e)
checked n Ordering.eq e = "?"
checked n Ordering.gt e = "?"

-- The character of a number, here of ASCII.
unfoldable pub character : ℕ → Char
character n = checked n (compare n 55296) refl

unfoldable pub to_lower : Char → Char
unfolding character
to_lower c = if is_upper c then character (code c + 32) else c

unfoldable pub to_upper : Char → Char
unfolding character
to_upper c = if is_lower c then character (code c - 32) else c

-- `s.replace(/[A-Z]/g, (c) => `_${c.toLowerCase()}`)`
unfoldable pub with_underscores : String → String
unfolding to_lower
with_underscores [] = []
with_underscores (c ∷ s) =
    let rest = with_underscores s in if is_upper c then "_" ∷ to_lower c ∷ rest else c ∷ rest

unfoldable pub without_first_underscore : String → String
without_first_underscore [] = []
without_first_underscore (c ∷ s) = if is_underscore c then s else c ∷ s

unfoldable pub camel_to_snake : String → String
unfolding with_underscores without_first_underscore
camel_to_snake s = without_first_underscore (with_underscores s)

-- `s.replace(/_([a-z])/g, (_, c) => c.toUpperCase())`
unfoldable pub with_capitals : String → String
unfolding to_upper
with_capitals [] = []
with_capitals (c ∷ []) = c ∷ []
with_capitals (c ∷ d ∷ s) =
    let behind = with_capitals s in
    let onward = with_capitals (d ∷ s) in
    if is_underscore c && is_lower d then to_upper d ∷ behind else c ∷ onward

unfoldable pub lower_first : String → String
unfolding to_lower
lower_first [] = []
lower_first (c ∷ s) = to_lower c ∷ s

unfoldable pub snake_to_camel : String → String
unfolding with_capitals lower_first
snake_to_camel s = lower_first (with_capitals s)
