-- ===== src/Repository/Answers/Agreement.antt =====
-- packages/baresync/src/server/drizzle.ts: a status answer says what a pull with the same cursor would carry.
use Prim.Native.Nat.{Ordering}
use baresync.Prelude.{
  ℕ, String, Bool, List, [], ◌∷◌, map, ◌≡◌, refl, ◌⊎◌, inl, inr, arith, any, keep, ltb, length,
  Result, ok, throw, Result-cases, ap, ◌∙◌,
}
use baresync.Service.Cursor.{Numbers, CursorError, parse_sync_cursor_timestamp}
use baresync.Service.Rows.{PublicRow, build_pull_tables, changed_table_names}
use baresync.Service.Rows.Laws.{is_carrying, changed_table_names-pull}
use baresync.Repository.{TableConfig}
use baresync.Repository.Answers.{
  PullResponse, StatusResponse, snapshot_changes, parsed, cursor_after, build_pull_response,
  load_pull_changes, load_sync_status,
}

length-map-keep :
    {A B : Type 0} (f : A → B) (p : A → Bool) (xs : List A)
    → ltb 0 (length (map f (keep p xs))) ≡ any p xs
length-map-keep f p [] = refl
length-map-keep f p (x ∷ xs) = ground (arith, length-map-keep f p xs)

module _ {World Error Columns WriteRow : Type 0} (n : Numbers)
    (locale_compare : String → String → Ordering) (bad_cursor : CursorError → Error)
    (iso : ℕ → String) (table_names : List String)
    (tables : String → TableConfig World Error n.Num Columns WriteRow) (scope_id : String)
    (observed_at : ℕ) (cursor : String) (world : World) where
  abbrev pub status : Result Error StatusResponse
  status =
      load_sync_status n locale_compare bad_cursor iso table_names tables scope_id observed_at
        cursor world

  abbrev pub full_pull : Result Error (PullResponse (PublicRow Columns))
  full_pull =
      load_pull_changes n locale_compare bad_cursor iso table_names tables scope_id observed_at
        cursor [] world

  -- For one cursor, scope, state of the tables and time, a status request and a pull of every table
  -- fail with the same error, or both are answered: with the same cursor, and the status names as
  -- changed exactly the tables for which the pull carries a row or a deleted id, in the same order,
  -- and says that there are changes when there is one.
  pub load_sync_status-pull :
      ((error : Error) × (status ≡ throw error) × (full_pull ≡ throw error))
      ⊎ ((s : StatusResponse) × (p : PullResponse (PublicRow Columns)) × (status ≡ ok s)
          × (full_pull ≡ ok p)
          × (s.cursor ≡ p.cursor)
          × (s.changed_tables ≡ map (λ t. t.table) (keep is_carrying p.tables))
          × (s.has_changes ≡ any is_carrying p.tables))
  unfolding load_sync_status load_pull_changes build_pull_response
  load_sync_status-pull =
      elim (Result-cases (parsed bad_cursor (parse_sync_cursor_timestamp n cursor))) [
        | inl (timestamp, e) ↦
            let changes = snapshot_changes n tables timestamp scope_id world in
            let same = changed_table_names-pull table_names changes in
            let after =
              cursor_after n locale_compare bad_cursor iso table_names tables scope_id observed_at
                timestamp world in
            inr (
              record {
                changed_tables = changed_table_names table_names changes;
                cursor = after;
                has_changes = ltb 0 (length (changed_table_names table_names changes));
                server_time = iso observed_at;
              },
              build_pull_response n locale_compare bad_cursor iso table_names tables scope_id
                  observed_at timestamp [] world,
              rw (e, load_sync_status) refl,
              rw (e, load_pull_changes) refl,
              refl,
              same,
              ap (λ l. ltb 0 (length l)) same
                  ∙ length-map-keep (λ t. t.table) is_carrying
                      (build_pull_tables table_names changes []),
            )
        | inr (error, e) ↦
            inl (error, rw (e, load_sync_status) refl, rw (e, load_pull_changes) refl)
      ]
