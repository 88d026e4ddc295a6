-- ===== src/Generator/Formatting/Searching.antt =====
-- packages/baresync/src/generator/formatter.ts: the searches of a directory and its parents.
use baresync.Prelude.{
  Bool, true, ℕ, zero, suc, ◌<◌, String, false, Option, none, some, ◌≡◌, ◌≢◌, inl, inr, arith, ◌==◌,
  eq_iff, Bool-cases, Option-cases,
}
use baresync.Texts.{text_length}
use baresync.Generator.Platform.{Platform}
use baresync.Generator.Formatting.{Search, found, nowhere, unfinished, walk_up, search_from}

-- What Node documents of absolute paths: `resolve` gives one, and `dirname` of one is one that is
-- shorter, or the path itself, which is then a root.
pub record Shortens (platform : Platform) : Type 0 where
  pub is_absolute : String → Bool
  pub resolved : (path : String) → is_absolute (platform.resolve path) ≡ true
  pub parent : (dir : String) → is_absolute dir ≡ true → is_absolute (platform.dirname dir) ≡ true
  pub shorter :
      (dir : String)
      → is_absolute dir ≡ true
      → (platform.dirname dir == dir) ≡ false
      → text_length (platform.dirname dir) < text_length dir

-- What a search has found: the answer of the nearest directory that has one, from a directory up, or
-- that none has one up to a directory that is its own parent.
pub data Nearest (look : String → Option String) (dirname : String → String)
    : String → Search → Type 0 where
  here : {dir path : String} → look dir ≡ some path → Nearest look dirname dir (found path)
  top : {dir : String} → look dir ≡ none → dirname dir ≡ dir → Nearest look dirname dir nowhere
  above :
      {dir : String} {s : Search}
      → look dir ≡ none
      → Nearest look dirname (dirname dir) s
      → Nearest look dirname dir s

walk_up-Nearest :
    (platform : Platform) (look : String → Option String) (fuel : ℕ) (dir : String)
    (shortens : Shortens platform)
    → shortens.is_absolute dir ≡ true
    → text_length dir < fuel
    → Nearest look platform.dirname dir (walk_up look platform.dirname fuel dir)
unfolding walk_up
walk_up-Nearest platform look zero dir shortens absolute enough = absurd (omega (arith, enough))
walk_up-Nearest platform look (suc fuel) dir shortens absolute enough =
    elim (Option-cases (look dir)) [
      | inr (path, e) ↦ rw (e, walk_up) (here e)
      | inl none_here ↦ elim (Bool-cases (platform.dirname dir == dir)) [
        | inl own ↦
            rw (none_here, own, walk_up)
              (top none_here (ground (arith, eq_iff (platform.dirname dir) dir)))
        | inr other ↦
            rw (none_here, other, walk_up)
              (above none_here (
                walk_up-Nearest platform look fuel (platform.dirname dir) shortens
                  (shortens.parent dir absolute)
                  (omega (arith, shortens.shorter dir absolute other, enough))))
      ]
    ]

Nearest-finished :
    (look : String → Option String) (dirname : String → String) (dir : String) (s : Search)
    → Nearest look dirname dir s
    → s ≢ unfinished
Nearest-finished look dirname dir s (here e) = λ same. cc
Nearest-finished look dirname dir s (top e own) = λ same. cc
Nearest-finished look dirname dir s (above e n) = Nearest-finished look dirname _ s n

pub search_from-finished :
    (platform : Platform) (look : String → Option String) (start : String)
    → Shortens platform
    → search_from platform look start ≢ unfinished
unfolding search_from
search_from-finished platform look start shortens =
    Nearest-finished look platform.dirname (platform.resolve start) _ (
      walk_up-Nearest platform look (suc (text_length (platform.resolve start)))
        (platform.resolve start) shortens (shortens.resolved start) (omega arith))
