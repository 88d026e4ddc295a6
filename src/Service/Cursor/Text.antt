-- ===== src/Service/Cursor/Text.antt =====
-- Texts with colons in them: `s.split(":")` and `${a}:${b}`.
use Prim.Native.Char.{Char, code}
use Prim.Native.String
use Prim.Native.String.{[], ◌∷◌}
use text.Mathlib.TextLemmas.{nil-append, cons-append}
use baresync.Prelude.{
  ℕ, suc, ◌+◌, String, Bool, false, List, [], ◌∷◌, ◌≡◌, refl, ap, inl, inr, Bool-cases, arith, ◌=?◌,
  if◌then◌else◌, length,
}

abbrev pub is_colon : Char → Bool
is_colon c = code c =? b':'

-- A character in front of the first part.
abbrev pub onto_first : Char → List String → List String
onto_first c [] = (c ∷ []) ∷ []
onto_first c (part ∷ parts) = (c ∷ part) ∷ parts

unfoldable pub split_colon : String → List String
split_colon [] = "" ∷ []
split_colon (c ∷ s) =
    let parts = split_colon s in if is_colon c then "" ∷ parts else onto_first c parts

unfoldable pub join_colon : String → String → String
join_colon a b = String.◌++◌ a (String.◌++◌ ":" b)

abbrev pub NoColon : String → Type 0
NoColon [] = Unit
NoColon (c ∷ s) = (is_colon c ≡ false) × NoColon s

unfoldable pub colons : String → ℕ
colons [] = 0
colons (c ∷ s) = if is_colon c then suc (colons s) else colons s

-- A text without a colon is the first part.
pub split_colon-join_colon :
    (a b : String) → NoColon a → split_colon (join_colon a b) ≡ a ∷ split_colon b
unfolding split_colon join_colon
split_colon-join_colon [] b h = rw (nil-append, cons-append, nil-append)
split_colon-join_colon (c ∷ a) b h =
    rw (cons-append, split_colon, h.0) (ap (onto_first c) (split_colon-join_colon a b h.1))

pub split_colon-NoColon : (a : String) → NoColon a → split_colon a ≡ a ∷ []
unfolding split_colon
split_colon-NoColon [] h = refl
split_colon-NoColon (c ∷ a) h = rw h.0 (ap (onto_first c) (split_colon-NoColon a h.1))

length-onto_first :
    (c : Char) (parts : List String) (n : ℕ)
    → length parts ≡ suc n
    → length (onto_first c parts) ≡ suc n
length-onto_first c [] n h = cc
length-onto_first c (part ∷ parts) n h = h

-- A text has one part more than colons.
pub length-split_colon : (s : String) → length (split_colon s) ≡ suc (colons s)
unfolding split_colon colons
length-split_colon [] = refl
length-split_colon (c ∷ s) = elim (Bool-cases (is_colon c)) [
  | inl colon ↦ rw colon (ap suc (length-split_colon s))
  | inr other ↦ rw other (length-onto_first c (split_colon s) (colons s) (length-split_colon s))
]

pub colons-join_colon : (a b : String) → colons (join_colon a b) ≡ suc (colons a + colons b)
unfolding colons join_colon
colons-join_colon [] b = rw (nil-append, cons-append, nil-append) (omega arith)
colons-join_colon (c ∷ a) b = rw cons-append (ground (arith, colons-join_colon a b))

pub colons-NoColon : (s : String) → colons s ≡ 0 → NoColon s
unfolding colons
colons-NoColon [] h = tt
colons-NoColon (c ∷ s) h = elim (Bool-cases (is_colon c)) [
  | inl colon ↦ absurd (ground arith)
  | inr other ↦ (other, colons-NoColon s (rw other at h))
]
