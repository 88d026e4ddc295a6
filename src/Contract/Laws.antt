-- ===== src/Contract/Laws.antt =====
-- packages/baresync/src/schema/contract.ts: which definitions make a contract, and what it holds.
use baresync.Prelude.{
  String, Bool, true, Option, none, some, List, [], ◌∷◌, map, ◌≡◌, ◌≢◌, ◌↔◌, ◌⊎◌, inl, inr, refl,
  sym, arith, ◌==◌, eq_iff, Bool-cases, find, any, find-any, any-find, has, All, ok, >>=-eq-ok,
  >>-eq-ok, ok-injective,
}
use baresync.Tables.{Column, Table}
use baresync.Casing.{camel_to_snake, snake_to_camel}
use baresync.Casing.Laws.{IsSnake, camel_to_snake-snake_to_camel}
use baresync.Contract.{
  ScopeMapping, SyncedTableDefinition, ContractError, missing_primary_key, unmapped_scope, by_name,
  names_scope, scope_of, resolve_scope_from_table, synced_table, SyncContractTableMeta,
  SyncContract, GivenLimits, contract_limits, names_or_empty, column_names, pk_from_composite,
  required, check_primary_key, maps_scope, check_deleted_at, validate_and_extract_table_meta,
  extract_all, define_sync_contract,
}

-- What a contract asks of a table: a composite key or a column `id`, a column for the scope, and a
-- column `deleted_at`.
pub record IsSyncable (def : SyncedTableDefinition) : Type 0 where
  pub key :
      (pk_from_composite def.table ≢ []) ⊎ (any (λ c. c.name == "id") def.table.columns ≡ true)
  pub scope : any (maps_scope def.scope.field) def.table.columns ≡ true
  pub deleted_at : has "deleted_at" (column_names def.table) ≡ true

abbrev pub meta_of : SyncedTableDefinition → SyncContractTableMeta
meta_of def = record {
  table_name = def.table.name;
  columns = column_names def.table;
  scope_field = def.scope.field;
  local_only_columns = names_or_empty def.local_only_columns;
  server_only_columns = names_or_empty def.server_only_columns;
}

required-find :
    (error : ContractError) (p : Column → Bool) (columns : List Column)
    → any p columns ≡ true
    → required error (find p columns) ≡ ok tt
required-find error p columns h = let (c, found, _) = find-any p columns h in rw found refl

any-required :
    (error : ContractError) (p : Column → Bool) (columns : List Column)
    → required error (find p columns) ≡ ok tt
    → any p columns ≡ true
any-required error p columns h = any-find p columns (λ e. cc (rw e at h))

check_primary_key_iff :
    (table : Table) (composite : List Column)
    → (check_primary_key table composite ≡ ok tt)
      ↔ ((composite ≢ []) ⊎ (any (λ c. c.name == "id") table.columns ≡ true))
check_primary_key_iff table [] = (
  (λ h. inr (any-required (missing_primary_key table.name) _ table.columns h)),
  λ h. elim h [
    | inl differs ↦ absurd (differs refl)
    | inr found ↦ required-find _ _ table.columns found
  ],
)
check_primary_key_iff table (c ∷ composite) = ((λ h. inl (λ e. cc)), λ h. refl)

validate-accepts :
    (def : SyncedTableDefinition)
    → IsSyncable def
    → validate_and_extract_table_meta def ≡ ok (meta_of def)
unfolding validate_and_extract_table_meta
validate-accepts def h =
    rw
      (
        (check_primary_key_iff def.table (pk_from_composite def.table)).1 h.key,
        required-find _ (maps_scope def.scope.field) def.table.columns h.scope,
        h.deleted_at,
      )
      refl

validate-IsSyncable :
    (def : SyncedTableDefinition) (meta : SyncContractTableMeta)
    → validate_and_extract_table_meta def ≡ ok meta
    → IsSyncable def × (meta ≡ meta_of def)
unfolding validate_and_extract_table_meta
validate-IsSyncable def meta e =
    let (_, keyed, scoped) =
      >>-eq-ok (check_primary_key def.table (pk_from_composite def.table)) _ e in
    let (_, found, last) =
      >>-eq-ok
        (required (unmapped_scope def.table.name def.scope.field)
          (find (maps_scope def.scope.field) def.table.columns))
        _ scoped in
    let (_, kept, same) = >>-eq-ok (check_deleted_at def.table) _ last in
    (
      record {
        key = (check_primary_key_iff def.table (pk_from_composite def.table)).0 keyed;
        scope = any-required _ (maps_scope def.scope.field) def.table.columns found;
        deleted_at = ground (arith, kept);
      },
      sym (ok-injective same),
    )

extract_all-accepts :
    (defs : List SyncedTableDefinition)
    → All IsSyncable defs
    → extract_all defs ≡ ok (map meta_of defs)
unfolding extract_all
extract_all-accepts [] h = refl
extract_all-accepts (def ∷ defs) h =
    rw (validate-accepts def h.0, extract_all-accepts defs h.1) refl

extract_all-IsSyncable :
    (defs : List SyncedTableDefinition) (metas : List SyncContractTableMeta)
    → extract_all defs ≡ ok metas
    → All IsSyncable defs × (metas ≡ map meta_of defs)
unfolding extract_all
extract_all-IsSyncable [] metas e = (tt, sym (ok-injective e))
extract_all-IsSyncable (def ∷ defs) metas e =
    let (meta, first, onward) = >>=-eq-ok (validate_and_extract_table_meta def) _ e in
    let (rest, others, same) = >>=-eq-ok (extract_all defs) _ onward in
    let (good, is_meta) = validate-IsSyncable def meta first in
    let (all_good, are_metas) = extract_all-IsSyncable defs rest others in
    ((good, all_good), cc (ok-injective same))

abbrev pub contract_of : List SyncedTableDefinition → Option GivenLimits → SyncContract
contract_of defs limits = record {
  tables = defs;
  limits = contract_limits limits;
  tables_meta = map meta_of defs;
}

-- `defineSyncContract` returns exactly for tables that each have a composite key or a column `id`,
-- a column for the scope's field and a column `deleted_at`. What it returns then holds the tables,
-- the given limits over the default ones, and for each table its name, columns and fields.
pub define_sync_contract-IsSyncable :
    (defs : List SyncedTableDefinition) (limits : Option GivenLimits) (contract : SyncContract)
    → (define_sync_contract defs limits ≡ ok contract)
      ↔ (All IsSyncable defs × (contract ≡ contract_of defs limits))
unfolding define_sync_contract
define_sync_contract-IsSyncable defs limits contract = (
  (λ e.
      let (metas, extracted, same) = >>=-eq-ok (extract_all defs) _ e in
      let (good, are_metas) = extract_all-IsSyncable defs metas extracted in
      (good, cc (ok-injective same))),
  λ h. rw (extract_all-accepts defs h.0, h.1) refl,
)

maps-snake : (c : Column) → IsSnake c.name → maps_scope (snake_to_camel c.name) c ≡ true
maps-snake c snake = ground (
  arith,
  camel_to_snake-snake_to_camel c.name snake,
  eq_iff (camel_to_snake (snake_to_camel c.name)) c.name,
)

pub find-maps :
    (p : Column → Bool) (columns : List Column) (column : Column)
    → All (λ c. IsSnake c.name) columns
    → find p columns ≡ some column
    → IsSnake column.name × (any (maps_scope (snake_to_camel column.name)) columns ≡ true)
find-maps p [] column snake e = cc
find-maps p (c ∷ columns) column snake e = elim (Bool-cases (p c)) [
  | inl here ↦
      let same : c ≡ column = ground arith in rw (← same) (snake.0, rw (maps-snake c snake.0) refl)
  | inr other ↦
      let (good, later) = find-maps p columns column snake.1 (ground arith) in
      (good, ground (arith, later))
]

scope_of-ok :
    (scope_name table_name : String) (found : Option Column) (scope : ScopeMapping)
    → scope_of scope_name table_name found ≡ ok scope
    → (column : Column) × (found ≡ some column)
      × (scope ≡ record { source = "scope"; field = snake_to_camel column.name; column = column })
scope_of-ok scope_name table_name none scope e = cc
scope_of-ok scope_name table_name (some column) scope e = (column, refl, sym (ok-injective e))

-- What `syncedTable` makes of a scope that is a name.
pub synced_table-scope :
    (table : Table) (scope_name : String) (local_only server_only : Option (List String))
    (def : SyncedTableDefinition)
    → synced_table table (by_name scope_name) local_only server_only ≡ ok def
    → (column : Column) × (find (names_scope scope_name) table.columns ≡ some column)
      × (def ≡ record {
        table = table;
        scope = record { source = "scope"; field = snake_to_camel column.name; column = column };
        local_only_columns = local_only;
        server_only_columns = server_only;
      })
unfolding synced_table resolve_scope_from_table
synced_table-scope table scope_name local_only server_only def e =
    let (scope, resolved, same) =
      >>=-eq-ok (scope_of scope_name table.name (find (names_scope scope_name) table.columns)) _
        e in
    let (column, found, is_scope) = scope_of-ok scope_name table.name _ scope resolved in
    (column, found, cc (ok-injective same))

-- A scope that `syncedTable` resolves by name, to a column whose name is in snake case, is one that
-- `defineSyncContract` finds again.
pub synced_table-IsSyncable :
    (table : Table) (scope_name : String) (local_only server_only : Option (List String))
    (def : SyncedTableDefinition)
    → All (λ c. IsSnake c.name) table.columns
    → (pk_from_composite table ≢ []) ⊎ (any (λ c. c.name == "id") table.columns ≡ true)
    → has "deleted_at" (column_names table) ≡ true
    → synced_table table (by_name scope_name) local_only server_only ≡ ok def
    → define_sync_contract (def ∷ []) none ≡ ok (contract_of (def ∷ []) none)
synced_table-IsSyncable table scope_name local_only server_only def snake key deleted_at e =
    let (column, found, same) = synced_table-scope table scope_name local_only server_only def e in
    let (_, mapped) = find-maps (names_scope scope_name) table.columns column snake found in
    (define_sync_contract-IsSyncable (def ∷ []) none (contract_of (def ∷ []) none)).1
      ((rw same (record { key = key; scope = mapped; deleted_at = deleted_at }), tt), refl)
