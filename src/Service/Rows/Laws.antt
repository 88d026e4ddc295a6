-- ===== src/Service/Rows/Laws.antt =====
-- server/service.ts: what `splitSyncRows`, `buildPullTables` and `changedTableNames` send to a client.
use baresync.Prelude.{
  String, Bool, true, false, not, ◌||◌, Option, none, some, List, [], ◌∷◌, ◌≡◌, refl, ◌⊎◌, inl, inr,
  arith, ltb, length, keep, map, has, has_self, Bool-cases, Option-cases, ◌+◌, ap, sym, lt→ltb, ◌∙◌,
  ◌≢◌, All, All-map_weaken,
}
use baresync.Service.Rows.{
  SyncRow, SyncRowChangeBucket, PullTable, public_row, split_row, split_sync_rows,
  is_known_sync_table, pull_tables_from, build_pull_tables, changed_from, changed_table_names,
}

abbrev pub is_none {ℓ} : {A : Type ℓ} → Option A → Bool
is_none none = true
is_none (some x) = false

module _ {Columns : Type 0} where
  abbrev pub is_live : SyncRow Columns → Bool
  is_live row = is_none row.deleted_at

  -- The changed rows of a pull are the rows without a deletion time, and the deleted ids are the ids
  -- of the others, both in the order of the rows, so that each row is sent once, one way or the other.
  pub split_sync_rows-partition :
      (rows : List (SyncRow Columns))
      → ((split_sync_rows rows).changed_rows ≡ map public_row (keep is_live rows))
        × ((split_sync_rows rows).deleted_ids
            ≡ map (λ row. row.id) (keep (λ row. not (is_live row)) rows))
        × (length (split_sync_rows rows).changed_rows + length (split_sync_rows rows).deleted_ids
            ≡ length rows)
  unfolding split_sync_rows split_row
  split_sync_rows-partition [] = (refl, refl, refl)
  split_sync_rows-partition (row ∷ rows) =
      let further = split_sync_rows-partition rows in
      elim (Option-cases row.deleted_at) [
        | inl e ↦ rw (e, split_row) (cc (further.0), further.1, omega (arith, further.2))
        | inr (time, e) ↦ rw (e, split_row) (further.0, cc (further.1), omega (arith, further.2))
      ]

has-later :
    (field f : String) (fields : List String) → has f fields ≡ true → has f (field ∷ fields) ≡ true
unfolding has
has-later field f fields h = ground arith

All-has : (names : List String) → All (λ x. has x names ≡ true) names
All-has [] = tt
All-has (x ∷ names) =
    (has_self x names, All-map_weaken (λ y h. has-later x y names h) names (All-has names))

keep-All :
    (p : String → Bool) (names : List String) → All (λ x. p x ≡ true) names → keep p names ≡ names
keep-All p [] h = refl
keep-All p (x ∷ names) h = rw h.0 (ap (λ l. x ∷ l) (keep-All p names h.1))

keep-has : (names : List String) → keep (λ x. has x names) names ≡ names
keep-has names = keep-All (λ x. has x names) names (All-has names)

module _ {Row : Type 0} where
  abbrev pub is_carrying : PullTable Row → Bool
  is_carrying table = ltb 0 (length table.changed_rows) || ltb 0 (length table.deleted_ids)

module _ {Row : Type 0} (all_tables : List String)
    (changes : String → SyncRowChangeBucket Row) where
  abbrev pub pull_table : String → PullTable Row
  pull_table table = record {
    changed_rows = (changes table).changed_rows;
    deleted_ids = (changes table).deleted_ids;
    table = table;
  }

  pull_tables_from-keep :
      (tables : List String)
      → pull_tables_from all_tables changes tables
        ≡ map pull_table (keep (λ table. has table all_tables) tables)
  unfolding pull_tables_from is_known_sync_table
  pull_tables_from-keep [] = refl
  pull_tables_from-keep (table ∷ tables) = elim (Bool-cases (has table all_tables)) [
    | inl e ↦
        rw (e, pull_tables_from) (ap (λ l. pull_table table ∷ l) (pull_tables_from-keep tables))
    | inr e ↦ rw (e, pull_tables_from) (pull_tables_from-keep tables)
  ]

  -- A pull answers for each requested table that the contract has, in the order of the request and
  -- with its bucket unchanged, and for every table of the contract when none is requested.
  pub build_pull_tables-requested :
      (requested : List String)
      → ((requested ≡ [])
          × (build_pull_tables all_tables changes requested ≡ map pull_table all_tables))
        ⊎ ((requested ≢ [])
            × (build_pull_tables all_tables changes requested
                ≡ map pull_table (keep (λ table. has table all_tables) requested)))
  unfolding build_pull_tables
  build_pull_tables-requested [] =
      inl (refl, pull_tables_from-keep all_tables ∙ ap (map pull_table) (keep-has all_tables))
  build_pull_tables-requested (table ∷ tables) = inr (
    (λ e. cc),
    rw (lt→ltb 0 (length (table ∷ tables)) (omega arith), build_pull_tables)
        (pull_tables_from-keep (table ∷ tables)),
  )

  changed_from-keep :
      (tables : List String)
      → changed_from all_tables changes tables
        ≡ map (λ t. t.table) (keep is_carrying (map pull_table tables))
  unfolding changed_from
  changed_from-keep [] = refl
  changed_from-keep (table ∷ tables) = ground (arith, changed_from-keep tables)

  -- The tables that a status answer names as changed are those for which a pull of every table
  -- carries a row or a deleted id, in the same order.
  pub changed_table_names-pull :
      changed_table_names all_tables changes
      ≡ map (λ t. t.table) (keep is_carrying (build_pull_tables all_tables changes []))
  unfolding changed_table_names build_pull_tables
  changed_table_names-pull =
      changed_from-keep all_tables
      ∙ ap (λ l. map (λ t. t.table) (keep is_carrying l))
          (sym (ap (map pull_table) (keep-has all_tables)) ∙ sym (pull_tables_from-keep all_tables))
