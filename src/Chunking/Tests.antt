-- ===== src/Chunking/Tests.antt =====
-- packages/baresync/src/server/chunking.ts on five rows and on the default limits.
use baresync.Prelude.{ℕ, none, List, [], ◌∷◌, ◌≡◌, refl, arith, All, ok, throw}
use baresync.Chunking.{bad_chunk_size, get_write_chunk_size, chunk_array}
use baresync.Chunking.Laws.{joined, Fits, chunk_array-joined}

abbrev five : List ℕ
five = 1 ∷ 2 ∷ 3 ∷ 4 ∷ 5 ∷ []

in_pairs : chunk_array five 2 ≡ ok ((1 ∷ 2 ∷ []) ∷ (3 ∷ 4 ∷ []) ∷ (5 ∷ []) ∷ [])
unfolding chunk_array
in_pairs = refl

no_size : chunk_array five 0 ≡ throw bad_chunk_size
unfolding chunk_array
no_size = refl

wide_rows : get_write_chunk_size 100 none none ≡ ok 300
unfolding get_write_chunk_size
wide_rows = refl

chunk_array-joined_example :
    (chunks : List (List ℕ)) × (chunk_array five 2 ≡ ok chunks)
    × (joined chunks ≡ five)
    × All (Fits 2) chunks
chunk_array-joined_example = chunk_array-joined five 2 (omega arith)
