-- ===== src/Generator/PosixPaths.antt =====
-- Paths with which the code of the generator runs in tests: `dirname` and `resolve` of Node on POSIX,
-- for paths that end in no slash but the root.
use Prim.Native.Char.{Char, code}
use Prim.Native.String
use Prim.Native.String.{[], ◌∷◌}
use text.Mathlib.TextEquality.{Char-path}
use text.Mathlib.TextLemmas.{cons-append}
use baresync.Prelude.{
  ℕ, suc, ◌<◌, String, Bool, true, false, Option, none, some, ◌≡◌, ◌≢◌, refl, subst, arith, ◌=?◌,
  ◌==◌, eq_iff, if◌then◌else◌, Option-cases, Bool-cases, inl, inr,
}
use baresync.Texts.{text_length}

abbrev pub is_slash : Char → Bool
is_slash c = code c =? b'/'

abbrev pub is_absolute : String → Bool
is_absolute [] = false
is_absolute (c ∷ path) = is_slash c

abbrev pub behind : Char → Option String → Option String
behind c (some before) = some (c ∷ before)
behind c none = if is_slash c then some [] else none

-- What stands before the last slash.
unfoldable pub before_last : String → Option String
before_last [] = none
before_last (c ∷ path) = behind c (before_last path)

abbrev pub directory : Option String → String
directory none = "."
directory (some []) = "/"
directory (some (c ∷ path)) = c ∷ path

unfoldable pub posix_dirname : String → String
unfolding before_last
posix_dirname path = directory (before_last path)

-- `resolve` where the working directory is `/app`.
unfoldable pub posix_resolve : String → String
posix_resolve path = if is_absolute path then path else String.◌++◌ "/app/" path

Option_injective : {p q : String} → ◌≡◌ {A = Option String} (some p) (some q) → p ≡ q
Option_injective e = cc

behind-lt :
    (c : Char) (o : Option String) (n : ℕ) (before : String)
    → ((p : String) → o ≡ some p → text_length p < n)
    → behind c o ≡ some before
    → text_length before < suc n
unfolding text_length
behind-lt c none n before h e = elim (Bool-cases (is_slash c)) [
  | inl slash ↦
      let empty : [] ≡ before = Option_injective (rw slash at e) in
      subst (λ b. text_length b < suc n) empty (omega arith)
  | inr other ↦ cc (rw other at e)
]
behind-lt c (some p) n before h e =
    subst (λ b. text_length b < suc n) (Option_injective e) (omega (arith, h p refl))

before_last-lt :
    (path before : String) → before_last path ≡ some before → text_length before < text_length path
unfolding before_last text_length
before_last-lt [] before e = cc
before_last-lt (c ∷ path) before e =
    behind-lt c (before_last path) (text_length path) before (before_last-lt path) e

behind-IsAbsolute :
    (c : Char) (o : Option String) → is_slash c ≡ true → is_absolute (directory (behind c o)) ≡ true
behind-IsAbsolute c none slash = rw slash refl
behind-IsAbsolute c (some p) slash = slash

pub posix_dirname-is_absolute :
    (path : String) → is_absolute path ≡ true → is_absolute (posix_dirname path) ≡ true
unfolding posix_dirname before_last
posix_dirname-is_absolute [] slash = cc
posix_dirname-is_absolute (c ∷ path) slash = behind-IsAbsolute c (before_last path) slash

directory-lt :
    (before path : String)
    → text_length before < text_length path
    → is_absolute path ≡ true
    → (directory (some before) == path) ≡ false
    → text_length (directory (some before)) < text_length path
unfolding text_length
directory-lt (c ∷ before) path h slash other = h
directory-lt [] [] h slash other = cc
directory-lt [] (c ∷ []) h slash other =
    let root : c ≡ "/" = Char-path c "/" (ground arith) in cc (rw (root, eq_iff "/" "/") at other)
directory-lt [] (c ∷ d ∷ path) h slash other = omega arith

behind-never : (c : Char) (o : Option String) → is_slash c ≡ true → behind c o ≢ none
behind-never c none slash = rw slash (λ e. cc)
behind-never c (some p) slash = λ e. cc

before_last-never : (path : String) → is_absolute path ≡ true → before_last path ≢ none
unfolding before_last
before_last-never [] slash = cc
before_last-never (c ∷ path) slash = behind-never c (before_last path) slash

pub posix_dirname-lt :
    (path : String)
    → is_absolute path ≡ true
    → (posix_dirname path == path) ≡ false
    → text_length (posix_dirname path) < text_length path
unfolding posix_dirname
posix_dirname-lt path slash other = elim (Option-cases (before_last path)) [
  | inl never ↦ absurd (before_last-never path slash never)
  | inr (before, e) ↦
      rw e (directory-lt before path (before_last-lt path before e) slash (rw e at other))
]

pub posix_resolve-is_absolute : (path : String) → is_absolute (posix_resolve path) ≡ true
unfolding posix_resolve
posix_resolve-is_absolute path = elim (Bool-cases (is_absolute path)) [
  | inl slash ↦ rw (slash) slash
  | inr other ↦ rw (other, cons-append) refl
]
