-- ===== src/Texts.antt =====
-- Texts that begin with another one, and the length of a text.
use Prim.Native.Char.{Char, code}
use Prim.Native.String
use Prim.Native.String.{[], ◌∷◌}
use text.Mathlib.TextLemmas.{nil-append, cons-append}
use baresync.Prelude.{
  ℕ, suc, String, Bool, true, ◌&&◌, Option, none, some, ◌≡◌, refl, arith, ◌=?◌, if◌then◌else◌,
}

-- What stands behind a text at the head of another one, whose characters `fold` compares.
unfoldable pub rest_after : (Char → Char) → String → String → Option String
rest_after fold [] s = some s
rest_after fold (p ∷ pattern) [] = none
rest_after fold (p ∷ pattern) (c ∷ s) =
    let rest = rest_after fold pattern s in if code (fold c) =? code p then rest else none

abbrev pub same : Char → Char
same c = c

abbrev pub fixed : (Char → Char) → String → Bool
fixed fold [] = true
fixed fold (p ∷ pattern) = code (fold p) =? code p && fixed fold pattern

pub rest_after-own :
    (fold : Char → Char) (pattern t : String)
    → fixed fold pattern ≡ true
    → rest_after fold pattern (String.◌++◌ pattern t) ≡ some t
unfolding rest_after
rest_after-own fold [] t h = rw nil-append refl
rest_after-own fold (p ∷ pattern) t h =
    let here : (code (fold p) =? code p) ≡ true = ground arith in
    rw (cons-append, rest_after, here) (rest_after-own fold pattern t (ground arith))

unfoldable pub text_length : String → ℕ
text_length [] = 0
text_length (c ∷ s) = suc (text_length s)
