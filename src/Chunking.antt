-- ===== src/Chunking.antt =====
-- packages/baresync/src/server/chunking.ts. The numbers are those that the code lets through: whole
-- ones, of which 0 is refused.
pub mod Laws
mod Tests
use baresync.Prelude.{
  ℕ, zero, suc, ◌+◌, ◌/◌, min, max, Option, none, some, List, [], ◌∷◌, if◌then◌else◌, ◌=?◌, ltb,
  length, Result, ok, throw,
}

abbrev pub sqlite_bind_param_limit : ℕ
sqlite_bind_param_limit = 32766

abbrev pub safe_sqlite_bind_param_limit : ℕ
safe_sqlite_bind_param_limit = 30000

abbrev pub default_max_rows_per_write_chunk : ℕ
default_max_rows_per_write_chunk = 500

pub data ChunkError : Type 0 where
  bad_column_count bad_max_bind_params bad_max_rows_per_chunk bad_chunk_size : ChunkError

abbrev pub or_default : Option ℕ → ℕ → ℕ
or_default none n = n
or_default (some m) n = m

unfoldable pub get_write_chunk_size : ℕ → Option ℕ → Option ℕ → Result ChunkError ℕ
get_write_chunk_size column_count given_bind_params given_rows =
    let max_bind_params = or_default given_bind_params safe_sqlite_bind_param_limit in
    let max_rows_per_chunk = or_default given_rows default_max_rows_per_write_chunk in
    if column_count =? 0
    then throw bad_column_count
    else (if max_bind_params =? 0
        then throw bad_max_bind_params
        else (if max_rows_per_chunk =? 0
            then throw bad_max_rows_per_chunk
            else ok (max 1 (min max_rows_per_chunk (max_bind_params / column_count)))))

module _ {Row : Type 0} where
  -- `rows.slice(0, n)` and `rows.slice(n)`
  unfoldable pub take_rows : ℕ → List Row → List Row
  take_rows n [] = []
  take_rows zero (row ∷ rows) = []
  take_rows (suc n) (row ∷ rows) = row ∷ take_rows n rows

  unfoldable pub drop_rows : ℕ → List Row → List Row
  drop_rows n [] = []
  drop_rows zero (row ∷ rows) = row ∷ rows
  drop_rows (suc n) (row ∷ rows) = drop_rows n rows

  -- The loop over the index, at the rows behind it. Each round advances by a row or more, so the
  -- number of the rows is enough fuel.
  unfoldable pub chunks_from : ℕ → ℕ → List Row → List (List Row)
  unfolding take_rows drop_rows
  chunks_from zero chunk_size rows = []
  chunks_from (suc fuel) chunk_size [] = []
  chunks_from (suc fuel) chunk_size (row ∷ rows) =
      take_rows chunk_size (row ∷ rows)
      ∷ chunks_from fuel chunk_size (drop_rows chunk_size (row ∷ rows))

  unfoldable pub chunk_array : List Row → ℕ → Result ChunkError (List (List Row))
  unfolding chunks_from
  chunk_array rows chunk_size =
      if chunk_size =? 0
      then throw bad_chunk_size
      else ok (chunks_from (length rows) chunk_size rows)
