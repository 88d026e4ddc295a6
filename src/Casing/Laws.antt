-- ===== src/Casing/Laws.antt =====
-- Names in snake case keep what they are through camel case.
use Prim.Native.Char.{Char, code}
use Prim.Native.Nat.{Ordering, compare}
use Prim.Native.String.{[], ◌∷◌}
use text.Mathlib.TextEquality.{Char-path}
use baresync.Prelude.{
  ℕ, ◌+◌, ◌-◌, ◌<◌, String, true, false, ◌&&◌, ◌≡◌, refl, ap, arith, inl, inr, Bool-cases,
}
use baresync.Casing.{
  is_upper, is_lower, is_underscore, checked, character, to_lower, to_upper, with_underscores,
  without_first_underscore, camel_to_snake, with_capitals, lower_first, snake_to_camel,
}

compare-small : (n : ℕ) → n < 55296 → compare n 55296 ≡ Ordering.lt
compare-small n h = ground arith

code-checked :
    (n : ℕ) (o : Ordering) (e : compare n 55296 ≡ o) → o ≡ Ordering.lt → code (checked n o e) ≡ n
code-checked n Ordering.lt e less = refl
code-checked n Ordering.eq e less = cc
code-checked n Ordering.gt e less = cc

code-character : (n : ℕ) → n < 55296 → code (character n) ≡ n
unfolding character
code-character n h = code-checked n (compare n 55296) refl (compare-small n h)

character-to_upper : (c : Char) → is_lower c ≡ true → character (code (to_upper c) + 32) ≡ c
unfolding to_upper
character-to_upper c h =
    let small : code c < 55296 = ground arith in
    let up : code (character (code c - 32)) ≡ code c - 32 =
      code-character (code c - 32) (ground arith) in
    let back : (code c - 32) + 32 ≡ code c = ground arith in
    rw (h, up, back) (Char-path _ _ (code-character (code c) small))

is_upper-to_upper : (c : Char) → is_lower c ≡ true → is_upper (to_upper c) ≡ true
unfolding to_upper
is_upper-to_upper c h =
    let up : code (character (code c - 32)) ≡ code c - 32 =
      code-character (code c - 32) (ground arith) in
    rw h (ground arith)

-- A name in snake case: no capital, and no underscore in front.
abbrev pub NoCapital : String → Type 0
NoCapital [] = Unit
NoCapital (c ∷ s) = (is_upper c ≡ false) × NoCapital s

abbrev pub IsSnake : String → Type 0
IsSnake [] = Unit
IsSnake (c ∷ s) = (is_underscore c ≡ false) × NoCapital (c ∷ s)

with_underscores-with_capitals : (s : String) → NoCapital s → with_underscores (with_capitals s) ≡ s
unfolding with_underscores with_capitals
with_underscores-with_capitals [] h = refl
with_underscores-with_capitals (c ∷ []) h = rw (h.0) refl
with_underscores-with_capitals (c ∷ d ∷ s) h =
    let behind = with_underscores-with_capitals s h.1.1 in
    let onward = with_underscores-with_capitals (d ∷ s) h.1 in
    elim (Bool-cases (is_underscore c && is_lower d)) [
      | inl both ↦
          let small : is_lower d ≡ true = ground arith in
          let same : "_" ≡ c = Char-path "_" c (ground arith) in
          rw (both, is_upper-to_upper d small, character-to_upper d small, behind, same) refl
      | inr neither ↦ rw (neither, h.0) (ap (λ rest. c ∷ rest) onward)
    ]

lower_first-with_capitals : (s : String) → IsSnake s → snake_to_camel s ≡ with_capitals s
unfolding snake_to_camel lower_first with_capitals to_lower
lower_first-with_capitals [] h = refl
lower_first-with_capitals (c ∷ []) h = rw (h.1.0) refl
lower_first-with_capitals (c ∷ d ∷ s) h = rw (h.0, h.1.0) refl

without_first_underscore-IsSnake : (s : String) → IsSnake s → without_first_underscore s ≡ s
unfolding without_first_underscore
without_first_underscore-IsSnake [] h = refl
without_first_underscore-IsSnake (c ∷ s) h = rw h.0 refl

IsSnake-NoCapital : (s : String) → IsSnake s → NoCapital s
IsSnake-NoCapital [] h = tt
IsSnake-NoCapital (c ∷ s) h = h.1

-- A name without capital letters and without an underscore in front comes back from camel case.
pub camel_to_snake-snake_to_camel : (s : String) → IsSnake s → camel_to_snake (snake_to_camel s) ≡ s
unfolding camel_to_snake
camel_to_snake-snake_to_camel s h =
    rw (lower_first-with_capitals s h, with_underscores-with_capitals s (IsSnake-NoCapital s h))
      (without_first_underscore-IsSnake s h)
