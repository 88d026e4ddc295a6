-- ===== src/Service/Latest.antt =====
-- server/service.ts, `compareSyncCursorRows` and `pickLatestSyncCursorRow`. The platform's
-- `localeCompare` is a parameter; `lt`, `eq` and `gt` are its results below, at and above 0.
use Prim.Native.Nat.{compare, Ordering}
use baresync.Prelude.{
  ℕ, ◌≤◌, String, Bool, true, false, Option, none, some, inl, inr, List, [], ◌∷◌, ◌≡◌, refl, ◌==◌,
  arith, Bool-cases, ◌=?◌, if◌then◌else◌, All,
}

pub record CursorRow : Type 0 where
  pub id : String
  pub sync_updated_at : ℕ
  pub table_name : String
  pub updated_at : String

abbrev pub is_gt : Ordering → Bool
is_gt Ordering.gt = true
is_gt Ordering.eq = false
is_gt Ordering.lt = false

-- `row` is one of `rows`.
pub data Among (row : CursorRow) : List CursorRow → Type 0 where
  here : {rows : List CursorRow} → Among row (row ∷ rows)
  later : {other : CursorRow} {rows : List CursorRow} → Among row rows → Among row (other ∷ rows)

module _ (locale_compare : String → String → Ordering) where
  -- The sign of the number that the source returns.
  unfoldable pub compare_sync_cursor_rows : CursorRow → CursorRow → Ordering
  compare_sync_cursor_rows left right =
      if left.sync_updated_at =? right.sync_updated_at
      then (if left.updated_at == right.updated_at
          then locale_compare left.id right.id
          else locale_compare left.updated_at right.updated_at)
      else compare left.sync_updated_at right.sync_updated_at

  -- The callback of `rows.reduce`.
  unfoldable pub later_row : CursorRow → CursorRow → CursorRow
  unfolding compare_sync_cursor_rows
  later_row best row = if is_gt (compare_sync_cursor_rows row best) then row else best

  -- `rows.reduce(…)` behind its first row.
  unfoldable pub reduce_latest : CursorRow → List CursorRow → CursorRow
  unfolding later_row
  reduce_latest best [] = best
  reduce_latest best (row ∷ rows) = reduce_latest (later_row best row) rows

  unfoldable pub pick_latest_sync_cursor_row : List CursorRow → Option CursorRow
  unfolding reduce_latest
  pick_latest_sync_cursor_row [] = none
  pick_latest_sync_cursor_row (row ∷ rows) = some (reduce_latest row rows)

  ge_of_gt :
      (left right : CursorRow)
      → is_gt (compare_sync_cursor_rows left right) ≡ true
      → right.sync_updated_at ≤ left.sync_updated_at
  unfolding compare_sync_cursor_rows
  ge_of_gt left right h = elim (Bool-cases (left.sync_updated_at =? right.sync_updated_at)) [
    | inl same ↦ ground arith
    | inr differ ↦ ground arith
  ]

  le_of_not_gt :
      (left right : CursorRow)
      → is_gt (compare_sync_cursor_rows left right) ≡ false
      → left.sync_updated_at ≤ right.sync_updated_at
  unfolding compare_sync_cursor_rows
  le_of_not_gt left right h = elim (Bool-cases (left.sync_updated_at =? right.sync_updated_at)) [
    | inl same ↦ ground arith
    | inr differ ↦ ground arith
  ]

  later_row-ge :
      (best row : CursorRow)
      → (best.sync_updated_at ≤ (later_row best row).sync_updated_at)
        × (row.sync_updated_at ≤ (later_row best row).sync_updated_at)
  unfolding later_row
  later_row-ge best row = elim (Bool-cases (is_gt (compare_sync_cursor_rows row best))) [
    | inl e ↦ rw e (ge_of_gt row best e, omega arith)
    | inr e ↦ rw e (omega arith, le_of_not_gt row best e)
  ]

  reduce_latest-ge :
      (best : CursorRow) (rows : List CursorRow)
      → (best.sync_updated_at ≤ (reduce_latest best rows).sync_updated_at)
        × All (λ r. r.sync_updated_at ≤ (reduce_latest best rows).sync_updated_at) rows
  unfolding reduce_latest
  reduce_latest-ge best [] = (omega arith, tt)
  reduce_latest-ge best (row ∷ rows) =
      let further = reduce_latest-ge (later_row best row) rows in
      let step = later_row-ge best row in
      (omega (arith, further.0, step.0), (omega (arith, further.0, step.1), further.1))

  -- A row behind the chosen one is a row behind the two it was chosen from.
  Among-later_row :
      (best row other : CursorRow) (rows : List CursorRow)
      → Among other (later_row best row ∷ rows)
      → Among other (best ∷ row ∷ rows)
  unfolding later_row
  Among-later_row best row _ rows here =
      elim (is_gt (compare_sync_cursor_rows row best))
        as (λ b. Among (if b then row else best) (best ∷ row ∷ rows)) [
          | true ↦ later here
          | false ↦ here
        ]
  Among-later_row best row other rows (later h) = later (later h)

  reduce_latest-Among :
      (best : CursorRow) (rows : List CursorRow) → Among (reduce_latest best rows) (best ∷ rows)
  unfolding reduce_latest
  reduce_latest-Among best [] = here
  reduce_latest-Among best (row ∷ rows) =
      Among-later_row best row _ rows (reduce_latest-Among (later_row best row) rows)

  -- The row picked from a list that has one is a row of the list, and no row of the list has a
  -- later server timestamp, whatever the platform's collation.
  pub pick_latest_sync_cursor_row-newest :
      (row : CursorRow) (rows : List CursorRow)
      → (latest : CursorRow) × (pick_latest_sync_cursor_row (row ∷ rows) ≡ some latest)
        × Among latest (row ∷ rows)
        × All (λ r. r.sync_updated_at ≤ latest.sync_updated_at) (row ∷ rows)
  unfolding pick_latest_sync_cursor_row
  pick_latest_sync_cursor_row-newest row rows =
      (reduce_latest row rows, refl, reduce_latest-Among row rows, reduce_latest-ge row rows)
