-- ===== src/Service/Cursor/Format.antt =====
-- Cursors that the server prints, read back by `parseSyncCursor`.
use baresync.Prelude.{
  ◌+◌, String, true, false, some, List, [], ◌∷◌, ◌≡◌, ◌≢◌, refl, ◌∙◌, ap, arith, ◌==◌, eq_iff, inl,
  inr, Bool-cases, length, ok, throw,
}
use baresync.Service.Cursor.{
  Numbers, bad_format, SyncCursor, parse_parts, parse_sync_cursor, parse_sync_cursor_timestamp,
  format_sync_cursor, format_latest_sync_cursor, format_sync_watermark_cursor, watermark_table,
  watermark_row,
}
use baresync.Service.Cursor.Text.{
  split_colon, join_colon, NoColon, colons, split_colon-join_colon, split_colon-NoColon,
  length-split_colon, colons-join_colon, colons-NoColon,
}

join_colon-ne-empty : (a b : String) → (join_colon a b == "") ≡ false
unfolding colons
join_colon-ne-empty a b = elim (Bool-cases (join_colon a b == "")) [
  | inl empty ↦
      let e = ap colons ((eq_iff (join_colon a b) "").0 empty) in
      absurd (omega (arith, colons-join_colon a b))
  | inr other ↦ other
]

module _ (n : Numbers) where
  format-ne-empty : (c : SyncCursor n) → (format_sync_cursor n c == "") ≡ false
  unfolding format_sync_cursor
  format-ne-empty c = join_colon-ne-empty "sync" _

  split-format :
      (c : SyncCursor n)
      → split_colon (format_sync_cursor n c)
        ≡ "sync" ∷ n.show c.sync_updated_at ∷ split_colon (join_colon c.table_name c.row_id)
  unfolding format_sync_cursor colons
  split-format c =
      split_colon-join_colon "sync" _ (colons-NoColon "sync" refl)
      ∙ ap (λ l. "sync" ∷ l)
          (split_colon-join_colon (n.show c.sync_updated_at) (join_colon c.table_name c.row_id)
            (n.show-NoColon c.sync_updated_at))

  -- A cursor with a finite timestamp whose table name and row id hold no colon reads back as itself.
  pub parse_sync_cursor-format :
      (c : SyncCursor n)
      → n.is_finite c.sync_updated_at ≡ true
      → NoColon c.table_name
      → NoColon c.row_id
      → parse_sync_cursor n (format_sync_cursor n c) ≡ ok (some c)
  unfolding parse_sync_cursor
  parse_sync_cursor-format c finite table row = rw (
    format-ne-empty c,
    split-format c,
    split_colon-join_colon c.table_name c.row_id table,
    split_colon-NoColon c.row_id row,
    parse_parts,
    n.number-show c.sync_updated_at finite,
    finite,
  )

  parse_parts-long :
      (s tag timestamp : String) (parts : List String)
      → length parts ≢ 2
      → parse_parts n s (tag ∷ timestamp ∷ parts) ≡ throw (bad_format s)
  unfolding parse_parts
  parse_parts-long s tag timestamp [] h = refl
  parse_parts-long s tag timestamp (a ∷ []) h = refl
  parse_parts-long s tag timestamp (a ∷ b ∷ []) h = absurd (h refl)
  parse_parts-long s tag timestamp (a ∷ b ∷ c ∷ parts) h = refl

  -- Where the table name or the row id holds a colon, the cursor that the server prints for that row
  -- is one that it refuses to read, whatever the timestamp.
  pub parse_sync_cursor-format_colon :
      (c : SyncCursor n)
      → colons c.table_name + colons c.row_id ≢ 0
      → parse_sync_cursor n (format_sync_cursor n c) ≡ throw (bad_format (format_sync_cursor n c))
  unfolding parse_sync_cursor
  parse_sync_cursor-format_colon c some_colon =
      rw (format-ne-empty c, split-format c)
        (parse_parts-long (format_sync_cursor n c) "sync" (n.show c.sync_updated_at)
          (split_colon (join_colon c.table_name c.row_id))
          (λ (e : length (split_colon (join_colon c.table_name c.row_id)) ≡ 2). some_colon (
            omega (
              arith,
              length-split_colon (join_colon c.table_name c.row_id),
              colons-join_colon c.table_name c.row_id,
            ))))

  -- Read for their timestamp: the watermark cursor of a finite timestamp gives that timestamp, and so
  -- does the cursor of a row whose table name and id hold no colon; the empty cursor gives zero.
  pub parse_sync_cursor_timestamp-format :
      (at : n.Num) (id table_name : String)
      → n.is_finite at ≡ true
      → NoColon table_name
      → NoColon id
      → (parse_sync_cursor_timestamp n (format_sync_watermark_cursor n at) ≡ ok at)
        × (parse_sync_cursor_timestamp n (format_latest_sync_cursor n id at table_name) ≡ ok at)
        × (parse_sync_cursor_timestamp n "" ≡ ok (n.of_ℕ 0))
  unfolding parse_sync_cursor_timestamp format_sync_watermark_cursor format_latest_sync_cursor
      colons
  parse_sync_cursor_timestamp-format at id table_name finite table row =
      let watermark : SyncCursor n = record {
        sync_updated_at = at;
        table_name = watermark_table;
        row_id = watermark_row;
      } in
      let latest : SyncCursor n = record {
        sync_updated_at = at;
        table_name = table_name;
        row_id = id;
      } in
      (
        rw (
            parse_sync_cursor-format watermark finite (colons-NoColon watermark_table refl)
              (colons-NoColon watermark_row refl)),
        rw (parse_sync_cursor-format latest finite table row),
        refl,
      )
