-- ===== src/JsObject.antt =====
-- The order in which JavaScript lists the keys of an object, and `Object.fromEntries`, as
-- packages/baresync/src/generator/manifest.ts and outputs.ts use it.
pub mod Keys
use Prim.Native.Char.{Char, code}
use Prim.Native.String.{[], ◌∷◌}
use baresync.Prelude.{
  ℕ, ◌+◌, ◌-◌, ◌*◌, String, Bool, true, false, ◌&&◌, Option, none, some, List, [], ◌∷◌, ◌==◌, leb,
  ltb, ◌=?◌, if◌then◌else◌,
}

abbrev pub is_digit : Char → Bool
is_digit c = leb b'0' (code c) && leb (code c) b'9'

-- The number that the digits of a text are, behind the number that was read so far.
unfoldable pub digits_value : String → ℕ → Option ℕ
digits_value [] value = some value
digits_value (c ∷ s) value =
    let rest = digits_value s (value * 10 + (code c - b'0')) in if is_digit c then rest else none

abbrev pub below_limit : Option ℕ → Option ℕ
below_limit none = none
below_limit (some value) = if ltb value 4294967295 then some value else none

-- A key that JavaScript takes for an array index: "0", or digits without a leading zero of a number
-- below 2 ^ 32 - 1.
unfoldable pub array_index : String → Option ℕ
unfolding digits_value
array_index [] = none
array_index (c ∷ s) =
    if code c =? b'0'
    then (if s == "" then some 0 else none)
    else below_limit (digits_value (c ∷ s) 0)

abbrev pub precedes : Option ℕ → Option ℕ → Bool
precedes (some i) (some j) = leb i j
precedes (some i) none = true
precedes none (some j) = false
precedes none none = true

module _ {ℓ} {A : Type ℓ} where
  unfoldable pub set_entry : String → A → List (String × A) → List (String × A)
  set_entry key value [] = (key, value) ∷ []
  set_entry key value ((k, v) ∷ entries) =
      let others = set_entry key value entries in
      if k == key then (key, value) ∷ entries else (k, v) ∷ others

  unfoldable pub set_entries : List (String × A) → List (String × A) → List (String × A)
  unfolding set_entry
  set_entries [] entries = entries
  set_entries ((key, value) ∷ later) entries = set_entries later (set_entry key value entries)

  -- A value in its place by its key: keys that are array indices stand first, in ascending order, and
  -- the others behind them, in the order in which they were set.
  unfoldable pub insert_key : (A → String) → A → List A → List A
  unfolding array_index
  insert_key key a [] = a ∷ []
  insert_key key a (first ∷ others) =
      let behind = insert_key key a others in
      if precedes (array_index (key a)) (array_index (key first))
      then a ∷ first ∷ others
      else first ∷ behind

  unfoldable pub in_key_order : (A → String) → List A → List A
  unfolding insert_key
  in_key_order key [] = []
  in_key_order key (a ∷ others) = insert_key key a (in_key_order key others)

module _ {ℓ} {A : Type ℓ} where
  -- `Object.fromEntries`, in the order in which JavaScript lists the keys: of two entries with one key
  -- the last counts, at the place of the first.
  unfoldable pub from_entries : List (String × A) → List (String × A)
  unfolding set_entries in_key_order
  from_entries entries = in_key_order (λ entry. entry.0) (set_entries entries [])
