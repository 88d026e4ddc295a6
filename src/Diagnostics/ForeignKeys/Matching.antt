-- ===== src/Diagnostics/ForeignKeys/Matching.antt =====
-- How the patterns of the check of the foreign keys match texts that are put together.
use Prim.Native.Char.{Char, code}
use Prim.Native.String
use Prim.Native.String.{[], ◌∷◌}
use text.Mathlib.TextLemmas.{nil-append, cons-append}
use baresync.Prelude.{
  String, Bool, true, false, ◌&&◌, Option, none, some, ◌≡◌, ◌≢◌, refl, ap, inl, inr, arith,
  Bool-cases, ◌=?◌, if◌then◌else◌,
}
use baresync.Casing.{to_lower}
use baresync.Texts.{rest_after}
use baresync.Diagnostics.ForeignKeys.{
  is_word, is_some, tests, word, behind_word, nonempty, first_match,
}

is_some-append :
    (fold : Char → Char) (pattern s t : String)
    → is_some (rest_after fold pattern s) ≡ true
    → is_some (rest_after fold pattern (String.◌++◌ s t)) ≡ true
unfolding rest_after
is_some-append fold [] s t h = refl
is_some-append fold (p ∷ pattern) [] t h = cc
is_some-append fold (p ∷ pattern) (c ∷ s) t h = elim (Bool-cases (code (fold c) =? code p)) [
  | inl equal ↦
      rw (cons-append, rest_after, equal) (is_some-append fold pattern s t (rw equal at h))
  | inr other ↦ cc (rw other at h)
]

tests_empty : (s : String) → tests [] s ≡ true
unfolding tests rest_after
tests_empty [] = refl
tests_empty (c ∷ s) = refl

pub tests-left :
    (pattern s t : String) → tests pattern s ≡ true → tests pattern (String.◌++◌ s t) ≡ true
unfolding tests
tests-left [] s t h = tests_empty (String.◌++◌ s t)
tests-left (p ∷ pattern) [] t h = cc
tests-left (p ∷ pattern) (c ∷ s) t h =
    elim (Bool-cases (is_some (rest_after to_lower (p ∷ pattern) (c ∷ s)))) [
      | inl here ↦
          let found = is_some-append to_lower (p ∷ pattern) (c ∷ s) t here in
          rw (cons-append, tests) (ground (arith, rw cons-append at found))
      | inr other ↦
          let later = tests-left (p ∷ pattern) s t (rw other at h) in
          rw (cons-append, tests) (ground (arith, later))
    ]

pub tests-right :
    (pattern s t : String) → tests pattern t ≡ true → tests pattern (String.◌++◌ s t) ≡ true
unfolding tests
tests-right pattern [] t h = rw nil-append h
tests-right pattern (c ∷ s) t h =
    rw (cons-append, tests) (ground (arith, tests-right pattern s t h))

-- A text in which a pattern cannot begin, whatever follows.
abbrev pub differs : (Char → Char) → String → String → Bool
differs fold [] s = false
differs fold (p ∷ pattern) [] = false
differs fold (p ∷ pattern) (c ∷ s) =
    if code (fold c) =? code p then differs fold pattern s else true

abbrev pub never : (Char → Char) → String → String → Bool
never fold pattern [] = true
never fold pattern (c ∷ s) = differs fold pattern (c ∷ s) && never fold pattern s

differs-append :
    (fold : Char → Char) (pattern s t : String)
    → differs fold pattern s ≡ true
    → rest_after fold pattern (String.◌++◌ s t) ≡ none
unfolding rest_after
differs-append fold [] s t h = cc
differs-append fold (p ∷ pattern) [] t h = cc
differs-append fold (p ∷ pattern) (c ∷ s) t h = elim (Bool-cases (code (fold c) =? code p)) [
  | inl equal ↦
      rw (cons-append, rest_after, equal) (differs-append fold pattern s t (rw equal at h))
  | inr other ↦ rw (cons-append, rest_after, other) refl
]

-- A match does not begin in such a text.
pub first_match-never :
    (fold : Char → Char) (pattern : String) (match_at : String → Option String)
    → ((u : String) → rest_after fold pattern u ≡ none → match_at u ≡ none)
    → (s t : String) → never fold pattern s ≡ true
    → first_match match_at (String.◌++◌ s t) ≡ first_match match_at t
unfolding first_match
first_match-never fold pattern match_at starts [] t h = rw nil-append refl
first_match-never fold pattern match_at starts (c ∷ s) t h =
    let missed =
      starts (String.◌++◌ (c ∷ s) t) (differs-append fold pattern (c ∷ s) t (ground arith)) in
    let onward = first_match-never fold pattern match_at starts s t (ground arith) in
    rw (cons-append, first_match, rw cons-append at missed) onward

pub first_match-here :
    (match_at : String → Option String) (s w : String)
    → match_at s ≡ some w
    → first_match match_at s ≡ some w
unfolding first_match
first_match-here match_at [] w h = h
first_match-here match_at (c ∷ s) w h = rw h refl

abbrev pub all_word : String → Bool
all_word [] = true
all_word (c ∷ s) = is_word c && all_word s

-- One letter, digit or underscore of ASCII, or more.
abbrev pub IsWord : String → Type 0
IsWord s = (all_word s ≡ true) × (s ≢ "")

pub word-all_word : (s : String) → all_word s ≡ true → word s ≡ s
unfolding word
word-all_word [] h = refl
word-all_word (c ∷ s) h =
    let here : is_word c ≡ true = ground arith in
    rw here (ap (λ rest. c ∷ rest) (word-all_word s (ground arith)))

pub word-append : (s t : String) → all_word s ≡ true → word (String.◌++◌ s (" " ∷ t)) ≡ s
unfolding word
word-append [] t h = rw nil-append refl
word-append (c ∷ s) t h =
    let here : is_word c ≡ true = ground arith in
    rw (cons-append, word, here) (ap (λ rest. c ∷ rest) (word-append s t (ground arith)))

pub behind_word-append :
    (s t : String) → all_word s ≡ true → behind_word (String.◌++◌ s (" " ∷ t)) ≡ " " ∷ t
unfolding behind_word
behind_word-append [] t h = rw nil-append refl
behind_word-append (c ∷ s) t h =
    let here : is_word c ≡ true = ground arith in
    rw (cons-append, behind_word, here) (behind_word-append s t (ground arith))

pub nonempty-some : (s : String) → s ≢ "" → nonempty s ≡ some s
nonempty-some [] h = absurd (h refl)
nonempty-some (c ∷ s) h = refl
