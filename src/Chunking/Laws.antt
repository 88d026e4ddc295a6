-- ===== src/Chunking/Laws.antt =====
-- packages/baresync/src/server/chunking.ts: the chunks are the rows, and each fits into a statement.
use native.Mathlib.Nat.{div-eq_of_lt, div-mul-le_self, le-div_iff_mul-le, mul-le-mul_right}
use baresync.Prelude.{
  ℕ, zero, suc, ◌*◌, ◌/◌, ◌≤◌, ◌<◌, min, max, false, ◌⊎◌, Option, List, [], ◌∷◌, ◌++◌, ◌≡◌, refl,
  arith, ap, ◌∙◌, ◌=?◌, length, ltb, All, Bool-cases, inl, inr, ok,
}
use baresync.Chunking.{
  safe_sqlite_bind_param_limit, default_max_rows_per_write_chunk, or_default, get_write_chunk_size,
  take_rows, drop_rows, chunks_from, chunk_array,
}

is_zero-positive : (n : ℕ) → 1 ≤ n → (n =? 0) ≡ false
is_zero-positive n positive = ground arith

module _ {Row : Type 0} where
  abbrev pub joined : List (List Row) → List Row
  joined [] = []
  joined (chunk ∷ chunks) = chunk ++ joined chunks

  -- A chunk has a row, and no more rows than allowed.
  abbrev pub Fits : ℕ → List Row → Type 0
  Fits chunk_size chunk = (1 ≤ length chunk) × (length chunk ≤ chunk_size)

  take_rows-append-drop_rows :
      (n : ℕ) (rows : List Row) → take_rows n rows ++ drop_rows n rows ≡ rows
  unfolding take_rows drop_rows
  take_rows-append-drop_rows n [] = refl
  take_rows-append-drop_rows zero (row ∷ rows) = refl
  take_rows-append-drop_rows (suc n) (row ∷ rows) =
      ap (λ l. row ∷ l) (take_rows-append-drop_rows n rows)

  length-take_rows : (n : ℕ) (rows : List Row) → length (take_rows n rows) ≤ n
  unfolding take_rows
  length-take_rows n [] = omega arith
  length-take_rows zero (row ∷ rows) = omega arith
  length-take_rows (suc n) (row ∷ rows) = omega (arith, length-take_rows n rows)

  length-drop_rows : (n : ℕ) (rows : List Row) → length (drop_rows n rows) ≤ length rows
  unfolding drop_rows
  length-drop_rows n [] = omega arith
  length-drop_rows zero (row ∷ rows) = omega arith
  length-drop_rows (suc n) (row ∷ rows) = omega (arith, length-drop_rows n rows)

  joined-chunks_from :
      (fuel k : ℕ) (rows : List Row)
      → length rows ≤ fuel
      → joined (chunks_from fuel (suc k) rows) ≡ rows
  unfolding chunks_from take_rows drop_rows
  joined-chunks_from zero k [] enough = refl
  joined-chunks_from zero k (row ∷ rows) enough = absurd (omega arith)
  joined-chunks_from (suc fuel) k [] enough = refl
  joined-chunks_from (suc fuel) k (row ∷ rows) enough =
      ap (λ l. row ∷ (take_rows k rows ++ l))
        (joined-chunks_from fuel k (drop_rows k rows) (omega (arith, length-drop_rows k rows)))
      ∙ ap (λ l. row ∷ l) (take_rows-append-drop_rows k rows)

  chunks_from-Fits :
      (fuel k : ℕ) (rows : List Row) → All (Fits (suc k)) (chunks_from fuel (suc k) rows)
  unfolding chunks_from take_rows drop_rows
  chunks_from-Fits zero k rows = tt
  chunks_from-Fits (suc fuel) k [] = tt
  chunks_from-Fits (suc fuel) k (row ∷ rows) = (
    (omega arith, omega (arith, length-take_rows k rows)),
    chunks_from-Fits fuel k (drop_rows k rows),
  )

  -- For a positive chunk size the rows are cut into chunks that together are the rows, in their
  -- order, and of which each has a row and no more than the chunk size.
  pub chunk_array-joined :
      (rows : List Row) (chunk_size : ℕ)
      → 1 ≤ chunk_size
      → (chunks : List (List Row)) × (chunk_array rows chunk_size ≡ ok chunks)
        × (joined chunks ≡ rows)
        × All (Fits chunk_size) chunks
  unfolding chunk_array
  chunk_array-joined rows zero positive = absurd (omega arith)
  chunk_array-joined rows (suc k) positive = (
    chunks_from (length rows) (suc k) rows,
    rw (is_zero-positive (suc k) positive, chunk_array) refl,
    joined-chunks_from (length rows) k rows (omega arith),
    chunks_from-Fits (length rows) k rows,
  )

chunk_bound :
    (r m c : ℕ)
    → 1 ≤ c
    → 1 ≤ r
    → (max 1 (min r (m / c)) * c ≤ m) ⊎ ((max 1 (min r (m / c)) ≡ 1) × (m < c))
chunk_bound r m c columns rows = elim (Bool-cases (ltb m c)) [
  | inl wide ↦
      let below : m < c = ground arith in inr (rw (div-eq_of_lt below) (omega arith), below)
  | inr narrow ↦
      let enough : c ≤ m = ground arith in
      let some_row : 1 ≤ m / c = (le-div_iff_mul-le columns).1 (omega arith) in
      let small : max 1 (min r (m / c)) ≤ m / c = omega arith in
      inl (omega (arith, mul-le-mul_right c small, div-mul-le_self m c))
]

-- For positive numbers there is a chunk size. It is positive and within the limit of rows, and a
-- chunk of so many rows binds no more parameters than allowed, unless a single row has more columns
-- than that: then the size is one row.
pub get_write_chunk_size-bounds :
    (column_count : ℕ) (given_bind_params given_rows : Option ℕ)
    → 1 ≤ column_count
    → 1 ≤ or_default given_bind_params safe_sqlite_bind_param_limit
    → 1 ≤ or_default given_rows default_max_rows_per_write_chunk
    → (size : ℕ) × (get_write_chunk_size column_count given_bind_params given_rows ≡ ok size)
      × (1 ≤ size)
      × (size ≤ or_default given_rows default_max_rows_per_write_chunk)
      × ((size * column_count ≤ or_default given_bind_params safe_sqlite_bind_param_limit)
          ⊎ ((size ≡ 1)
              × (or_default given_bind_params safe_sqlite_bind_param_limit < column_count)))
unfolding get_write_chunk_size
get_write_chunk_size-bounds column_count given_bind_params given_rows columns params rows =
    let size = max 1 (
      min (or_default given_rows default_max_rows_per_write_chunk)
        (or_default given_bind_params safe_sqlite_bind_param_limit / column_count)) in
    (
      size,
      rw
          (
            is_zero-positive column_count columns,
            is_zero-positive (or_default given_bind_params safe_sqlite_bind_param_limit) params,
            is_zero-positive (or_default given_rows default_max_rows_per_write_chunk) rows,
            get_write_chunk_size,
          )
          refl,
      omega arith,
      omega arith,
      chunk_bound (or_default given_rows default_max_rows_per_write_chunk)
          (or_default given_bind_params safe_sqlite_bind_param_limit) column_count columns rows,
    )
