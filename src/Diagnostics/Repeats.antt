-- ===== src/Diagnostics/Repeats.antt =====
-- packages/baresync/src/generator/diagnostics.ts: the checks for names that are given twice.
use baresync.Prelude.{
  ℕ, ◌+◌, ◌≤◌, String, false, List, [], ◌∷◌, ◌≡◌, refl, ◌==◌, eq_iff, arith, if◌then◌else◌, has,
  Distinct,
}
use baresync.Diagnostics.{
  SyncDiagnostic, count_up, count_all, repeats, check_duplicate_field_name,
  check_duplicate_table_name,
}

abbrev occurrences : String → List String → ℕ
occurrences x [] = 0
occurrences x (y ∷ ys) = if y == x then occurrences x ys + 1 else occurrences x ys

abbrev counted : String → List (String × ℕ) → ℕ
counted x [] = 0
counted x ((key, count) ∷ seen) = if key == x then count else counted x seen

counted-count_up :
    (x y : String) (seen : List (String × ℕ))
    → counted x (count_up y seen) ≡ (if y == x then counted x seen + 1 else counted x seen)
unfolding count_up
counted-count_up x y [] = ground arith
counted-count_up x y ((key, count) ∷ seen) =
    ground (arith, counted-count_up x y seen, eq_iff key y, eq_iff key x, eq_iff y x)

counted-count_all :
    (x : String) (xs : List String) (seen : List (String × ℕ))
    → counted x (count_all xs seen) ≡ occurrences x xs + counted x seen
unfolding count_all
counted-count_all x [] seen = omega arith
counted-count_all x (y ∷ ys) seen =
    ground (arith, counted-count_all x ys (count_up y seen), counted-count_up x y seen)

repeats-none :
    (make : String → SyncDiagnostic) (x : String) (seen : List (String × ℕ))
    → repeats make seen ≡ []
    → counted x seen ≤ 1
unfolding repeats
repeats-none make x [] h = omega arith
repeats-none make x ((key, count) ∷ seen) h = ground (arith, repeats-none make x seen)

has-occurrences : (x : String) (xs : List String) → occurrences x xs ≤ 0 → has x xs ≡ false
unfolding has
has-occurrences x [] h = refl
has-occurrences x (y ∷ ys) h = ground (arith, has-occurrences x ys)

-- Each name is counted once at most.
abbrev AtMostOnce : List String → Type 0
AtMostOnce names = (x : String) → occurrences x names ≤ 1

AtMostOnce-Distinct : (names : List String) → AtMostOnce names → Distinct names
AtMostOnce-Distinct [] h = tt
AtMostOnce-Distinct (x ∷ names) h = (
  has-occurrences x names (ground (arith, h x, eq_iff x x)),
  AtMostOnce-Distinct names (λ y. ground (arith, h y)),
)

repeats-Distinct :
    (make : String → SyncDiagnostic) (names : List String)
    → repeats make (count_all names []) ≡ []
    → Distinct names
repeats-Distinct make names h =
    AtMostOnce-Distinct names
      (λ x. omega (arith, repeats-none make x (count_all names []) h, counted-count_all x names []))

-- Where a table has no diagnostic for a repeated field, no two of its columns have the same name.
pub check_duplicate_field_name-Distinct :
    (table_name : String) (columns : List String)
    → check_duplicate_field_name table_name columns ≡ []
    → Distinct columns
unfolding check_duplicate_field_name
check_duplicate_field_name-Distinct table_name columns h = repeats-Distinct _ columns h

pub check_duplicate_table_name-Distinct :
    (names : List String) → check_duplicate_table_name names ≡ [] → Distinct names
unfolding check_duplicate_table_name
check_duplicate_table_name-Distinct names h = repeats-Distinct _ names h
