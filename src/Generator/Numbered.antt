-- ===== src/Generator/Numbered.antt =====
-- packages/baresync/src/generator/manifest.ts and outputs.ts: no table and no column is lost where
-- the tables and columns of a contract become the keys of records, and each column has its number.
use baresync.Prelude.{
  ℕ, zero, suc, ◌+◌, String, Bool, true, Option, none, some, List, [], ◌∷◌, map, ◌≡◌, refl, sym, ap,
  subst, ◌↔◌, arith, ◌∙◌, ◌==◌, false, All-map_weaken, eq_iff, has, Distinct, length, ◌≤◌, ◌<◌, All,
  ok,
}
use baresync.Contract.{
  GivenLimits, SyncContract, SyncContractTableMeta, SyncedTableDefinition, define_sync_contract,
  column_names,
}
use baresync.Contract.Laws.{meta_of, define_sync_contract-IsSyncable}
use baresync.Diagnostics.{pk_from_columns}
use baresync.Diagnostics.Run.{DiagnosticOptions}
use baresync.Diagnostics.Run.Clean.{IsClean, run_diagnostics-IsClean}
use baresync.Generator.Platform.{Platform, ContractTable, ContractJson, ManifestTable, SyncManifest}
use baresync.Generator.Artifacts.{numbered, manifest_table, manifest_of, contract_entry}
use baresync.Generator.Writing.{SchemaPaths, write_generation_artifacts}
use baresync.Generator.Written.{IsWritten, write_generation_artifacts-IsWritten}
use baresync.JsObject.{from_entries}
use baresync.Generator.Entries.{entry_keys, get_entry, get_entry-from_entries, get_entry-absent}

module _ {ℓ} {A : Type ℓ} where
  abbrev pub get_elem? : List A → ℕ → Option A
  get_elem? [] i = none
  get_elem? (x ∷ xs) zero = some x
  get_elem? (x ∷ xs) (suc i) = get_elem? xs i

-- The column at each place has the number behind the place, and no other.
abbrev pub IsNumbered : List String → List (String × ℕ) → Type 0
IsNumbered columns numbers =
    (i : ℕ) (column : String)
    → (get_elem? columns i ≡ some column) ↔ (get_entry column numbers ≡ some (i + 1))

entry_keys-numbered : (n : ℕ) (columns : List String) → entry_keys (numbered n columns) ≡ columns
unfolding numbered
entry_keys-numbered n [] = refl
entry_keys-numbered n (column ∷ columns) =
    ap (λ cs. column ∷ cs) (entry_keys-numbered (n + 1) columns)

get_elem?-has :
    (columns : List String) (i : ℕ) (column : String)
    → get_elem? columns i ≡ some column
    → has column columns ≡ true
unfolding has
get_elem?-has [] i column e = cc
get_elem?-has (c ∷ columns) zero column e = ground (arith, eq_iff c column)
get_elem?-has (c ∷ columns) (suc i) column e = ground (arith, get_elem?-has columns i column)

get_entry-lt :
    (n k : ℕ) (column : String) (columns : List String)
    → get_entry column (numbered n columns) ≡ some k
    → n < k
unfolding numbered get_entry
get_entry-lt n k column [] e = cc
get_entry-lt n k column (c ∷ columns) e = ground (arith, get_entry-lt (n + 1) k column columns)

numbered-to :
    (n i : ℕ) (column : String) (columns : List String)
    → Distinct columns
    → get_elem? columns i ≡ some column
    → get_entry column (numbered n columns) ≡ some (n + i + 1)
unfolding numbered get_entry
numbered-to n i column [] distinct e = cc
numbered-to n zero column (c ∷ columns) distinct e = ground (arith, eq_iff c column)
numbered-to n (suc i) column (c ∷ columns) distinct e = ground (
  arith,
  eq_iff c column,
  get_elem?-has columns i column e,
  numbered-to (n + 1) i column columns distinct.1 e,
  distinct.0,
)

numbered-from :
    (n i : ℕ) (column : String) (columns : List String)
    → get_entry column (numbered n columns) ≡ some (n + i + 1)
    → get_elem? columns i ≡ some column
unfolding numbered get_entry
numbered-from n i column [] e = cc
numbered-from n zero column (c ∷ columns) e =
    ground (arith, eq_iff c column, get_entry-lt (n + 1) (n + 1) column columns)
numbered-from n (suc i) column (c ∷ columns) e =
    ground (arith, numbered-from (n + 1) i column columns)

-- With distinct columns.
from_entries-IsNumbered :
    (columns : List String)
    → Distinct columns
    → IsNumbered columns (from_entries (numbered 0 columns))
from_entries-IsNumbered columns distinct i column =
    let kept =
      get_entry-from_entries column (numbered 0 columns)
        (subst Distinct (sym (entry_keys-numbered 0 columns)) distinct) in
    rw kept (
      subst
        (λ k.
          (get_elem? columns i ≡ some column) ↔ (get_entry column (numbered 0 columns) ≡ some k))
        (omega arith) (numbered-to 0 i column columns distinct, numbered-from 0 i column columns))

-- The manifest that was written numbers the columns of every table, and the contract that was written
-- has each table of the contract under its name, and no other.
pub record IsComplete (contract : SyncContract) (json : ContractJson) (manifest : SyncManifest)
    : Type 0 where
  pub all_tables :
      map {B = String × List String} (λ (t : ManifestTable). (t.name, t.fields)) manifest.tables
      ≡ map {B = String × List String}
          (λ (t : SyncContractTableMeta). (t.table_name, t.columns))
          contract.tables_meta
  pub numbered_columns : All (λ t. IsNumbered t.fields t.field_numbers) manifest.tables
  pub named_tables :
      All
        (λ t.
          get_entry t.table_name json.tables
          ≡ some (record {
            columns = t.columns;
            scope_field = t.scope_field;
            local_only_columns = t.local_only_columns;
            server_only_columns = t.server_only_columns;
          }))
        contract.tables_meta
  pub no_other_table :
      (name : String)
      → has name (map (λ t. t.table_name) contract.tables_meta) ≡ false
      → get_entry name json.tables ≡ none

manifest_names :
    (metas : List SyncContractTableMeta)
    → map {B = String × List String}
        (λ (t : ManifestTable). (t.name, t.fields))
        (map manifest_table metas)
      ≡ map {B = String × List String}
          (λ (t : SyncContractTableMeta). (t.table_name, t.columns))
          metas
manifest_names [] = refl
manifest_names (meta ∷ metas) =
    ap (λ pairs. (meta.table_name, meta.columns) ∷ pairs) (manifest_names metas)

abbrev IsNamed : List (String × ContractTable) → SyncContractTableMeta → Type 0
IsNamed entries t = get_entry t.table_name entries ≡ some (contract_entry t).1

-- Another table in front hides no table.
IsNamed-behind :
    (meta : SyncContractTableMeta) (metas : List SyncContractTableMeta)
    (entries : List (String × ContractTable))
    → has meta.table_name (map (λ t. t.table_name) metas) ≡ false
    → All (IsNamed entries) metas
    → All (IsNamed (contract_entry meta ∷ entries)) metas
unfolding has get_entry
IsNamed-behind meta [] entries new h = tt
IsNamed-behind meta (t ∷ metas) entries new h = (
  ground (arith, h.0, eq_iff meta.table_name t.table_name, eq_iff t.table_name meta.table_name),
  IsNamed-behind meta metas entries (ground arith) h.1,
)

eq_self : (name : String) → (name == name) ≡ true
eq_self name = ground (arith, eq_iff name name)

contract_entry-IsNamed :
    (metas : List SyncContractTableMeta)
    → Distinct (map (λ t. t.table_name) metas)
    → All (IsNamed (map contract_entry metas)) metas
unfolding get_entry
contract_entry-IsNamed [] distinct = tt
contract_entry-IsNamed (meta ∷ metas) distinct = (
  rw (eq_self meta.table_name) refl,
  IsNamed-behind meta metas (map contract_entry metas) distinct.0
      (contract_entry-IsNamed metas distinct.1),
)

clean-IsNumbered :
    (defs : List SyncedTableDefinition)
    → All IsClean defs
    → All (λ t. IsNumbered t.fields t.field_numbers) (map manifest_table (map meta_of defs))
unfolding manifest_of
clean-IsNumbered [] h = tt
clean-IsNumbered (def ∷ defs) h =
    (from_entries-IsNumbered (column_names def.table) h.0.distinct, clean-IsNumbered defs h.1)

entry_keys-contract_entry :
    (metas : List SyncContractTableMeta)
    → entry_keys (map contract_entry metas) ≡ map (λ m. m.table_name) metas
entry_keys-contract_entry [] = refl
entry_keys-contract_entry (meta ∷ metas) =
    ap (λ names. meta.table_name ∷ names) (entry_keys-contract_entry metas)

from_entries-IsNamed :
    (metas : List SyncContractTableMeta)
    → Distinct (map (λ t. t.table_name) metas)
    → All (IsNamed (from_entries (map contract_entry metas))) metas
from_entries-IsNamed metas distinct =
    let keys = subst Distinct (sym (entry_keys-contract_entry metas)) distinct in
    All-map_weaken
      (λ t found. get_entry-from_entries t.table_name (map contract_entry metas) keys ∙ found) metas
      (contract_entry-IsNamed metas distinct)

-- Where a generation of a contract of `defineSyncContract` returns, and no table marks two columns as
-- its primary key: the manifest that it has written has the names and columns of the contract's
-- tables, in their order, and for each table the column at place `i` has the number `i + 1` and no
-- other column has that number; and the contract that it has written has each table of the contract
-- under its name, and no other.
pub write_generation_artifacts-IsComplete :
    (platform : Platform) (defs : List SyncedTableDefinition) (limits : Option GivenLimits)
    (contract : SyncContract) (dir : String) (warnings_as_errors : Bool)
    (paths : Option SchemaPaths) (options : DiagnosticOptions)
    → define_sync_contract defs limits ≡ ok contract
    → All (λ def. length (pk_from_columns def.table) ≤ 1) defs
    → (write_generation_artifacts platform contract dir warnings_as_errors paths options).outcome
      ≡ ok tt
    → (w : IsWritten platform contract dir warnings_as_errors paths options
        (write_generation_artifacts platform contract dir warnings_as_errors paths options).actions)
      × IsComplete contract w.json w.manifest
write_generation_artifacts-IsComplete platform defs limits contract dir w paths options made few e =
    let wrote = write_generation_artifacts-IsWritten platform contract dir w paths options e in
    let (distinct, clean, _) =
      run_diagnostics-IsClean defs limits contract options wrote.diagnostics made wrote.diagnosed
        wrote.no_error few in
    let (_, made_of) = (define_sync_contract-IsSyncable defs limits contract).0 made in
    let entries = map contract_entry contract.tables_meta in
    let keys = subst Distinct (sym (entry_keys-contract_entry contract.tables_meta)) distinct in
    let tables : wrote.json.tables ≡ from_entries entries = ap (λ j. j.tables) wrote.json_is in
    let listed : wrote.manifest.tables ≡ map manifest_table contract.tables_meta =
      ap (λ m. m.tables) wrote.manifest_is in
    (
      wrote,
      record {
        all_tables =
            ap (map {B = String × List String} (λ (t : ManifestTable). (t.name, t.fields))) listed
            ∙ manifest_names contract.tables_meta;
        numbered_columns =
            subst (All (λ (t : ManifestTable). IsNumbered t.fields t.field_numbers))
              (ap (λ (c : SyncContract). map manifest_table c.tables_meta) (sym made_of)
                ∙ sym listed)
              (clean-IsNumbered defs clean);
        named_tables =
            subst (λ ts. All (IsNamed ts) contract.tables_meta) (sym tables)
              (from_entries-IsNamed contract.tables_meta distinct);
        no_other_table = λ name absent.
            ap (get_entry name) tables
            ∙ get_entry-from_entries name entries keys
            ∙ get_entry-absent name entries
                (ap (has name) (entry_keys-contract_entry contract.tables_meta) ∙ absent);
      },
    )
