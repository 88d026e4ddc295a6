-- ===== src/Cli/Entries.antt =====
-- packages/baresync/src/cli/generator.ts: the entries of a loaded configuration.
pub mod Keys
use baresync.Prelude.{
  String, Bool, ◌&&◌, ◌≡◌, Option, none, some, List, [], ◌∷◌, map, if◌then◌else◌, has, ◌++◌,
}
use baresync.Contract.{SyncContract}
use baresync.Generator.{GeneratorConfig, PairedSyncGeneratorConfig}
use baresync.Generator.Writing.{Source, paired, configured, raw}

-- A value of type `unknown`: what the type guards ask of it, and what it is read as where it passes
-- one. `is_object` is `typeof value === "object" && value !== null`, `fields` are the names `x` for
-- which `x in value`.
pub record Export : Type 0 where
  pub is_object : Bool
  pub fields : List String
  pub tables_is_array : Bool
  pub tables_meta_is_array : Bool
  pub limits_is_object : Bool
  pub paired_config : PairedSyncGeneratorConfig
  pub generator_config : GeneratorConfig
  pub contract : SyncContract

unfoldable pub is_paired_config : Export → Bool
unfolding has
is_paired_config value =
    value.is_object
    && (has "apiSyncedSchemaPath" value.fields && has "localSyncedSchemaPath" value.fields)

unfoldable pub is_generator_config : Export → Bool
unfolding has
is_generator_config value =
    value.is_object && (has "contract" value.fields && has "outputDir" value.fields)

unfoldable pub is_sync_contract : Export → Bool
unfolding has
is_sync_contract value =
    value.is_object
    && (has "tables" value.fields
        && (value.tables_is_array
            && (has "tablesMeta" value.fields
                && (value.tables_meta_is_array
                    && (has "limits" value.fields && value.limits_is_object)))))

-- The value as the type that a guard gives it.
unfoldable pub as_paired : Export → Option PairedSyncGeneratorConfig
unfolding is_paired_config
as_paired value = if is_paired_config value then some value.paired_config else none

unfoldable pub as_generator : Export → Option GeneratorConfig
unfolding is_generator_config
as_generator value = if is_generator_config value then some value.generator_config else none

unfoldable pub as_contract : Export → Option SyncContract
unfolding is_sync_contract
as_contract value = if is_sync_contract value then some value.contract else none

-- The exports `syncGeneratorConfig`, `default` and `contract`.
pub record LoadedConfig : Type 0 where
  pub sync_generator_config : Export
  pub default_export : Export
  pub contract_export : Export

-- The fields `pairedConfig`, `syncConfig` and `contract` are set in three ways, which are the
-- sources of `generateSyncArtifacts`; `outputDir` stands in the source.
pub record LoadedConfigEntry : Type 0 where
  pub key : String
  pub label : String
  pub source : Source

-- A configuration may have the field `contract` without a contract in it.
abbrev pub HasContract : Source → Type 0
HasContract (paired config) = Unit
HasContract (configured config) = (contract : SyncContract) × (config.contract ≡ some contract)
HasContract (raw contract output_dir) = Unit

-- `override ?? outputDir`
abbrev pub overridden : Option String → String → String
overridden none output_dir = output_dir
overridden (some override) output_dir = override

abbrev pub paired_entry : String → Option String → PairedSyncGeneratorConfig → LoadedConfigEntry
paired_entry label override config =
    let output_dir = overridden override config.output_dir in
    record {
      key = output_dir;
      label = label;
      source = paired (record config { output_dir = output_dir });
    }

abbrev pub generator_entry : String → Option String → GeneratorConfig → LoadedConfigEntry
generator_entry label override config =
    let output_dir = overridden override config.output_dir in
    record {
      key = output_dir;
      label = label;
      source = configured (record config { output_dir = output_dir });
    }

abbrev pub contract_entry : String → Option String → SyncContract → LoadedConfigEntry
contract_entry label override contract =
    let output_dir = overridden override "./generated" in
    record { key = output_dir; label = label; source = raw contract output_dir }

-- The first of two options that is there.
abbrev pub first_of {ℓ} : {A : Type ℓ} → Option A → Option A → Option A
first_of none later = later
first_of (some a) later = some a

abbrev pub made {ℓ κ} : {A : Type ℓ} {B : Type κ} → (A → B) → Option A → Option B
made make none = none
made make (some a) = some (make a)

unfoldable pub build_named_json_entry : Export → Option String → Option LoadedConfigEntry
unfolding as_paired as_generator
build_named_json_entry config override =
    first_of (made (paired_entry "syncGeneratorConfig" override) (as_paired config))
      (made (generator_entry "syncGeneratorConfig" override) (as_generator config))

unfoldable pub build_default_export_entry : Export → Option String → Option LoadedConfigEntry
unfolding as_paired as_generator as_contract
build_default_export_entry config override =
    first_of (made (paired_entry "default export" override) (as_paired config)) (
      first_of (made (generator_entry "default export" override) (as_generator config))
        (made (contract_entry "default export contract" override) (as_contract config)))

unfoldable pub build_raw_contract_entry : Export → Option String → Option LoadedConfigEntry
unfolding as_contract
build_raw_contract_entry config override =
    made (contract_entry "contract" override) (as_contract config)

abbrev pub entry_keys : List LoadedConfigEntry → List String
entry_keys entries = map (λ entry. entry.key) entries

-- The `Map` is the list of its values, in the order of their insertion.
unfoldable pub add_loaded_config_entry :
    List LoadedConfigEntry → Option LoadedConfigEntry → List LoadedConfigEntry
unfolding has
add_loaded_config_entry entries none = entries
add_loaded_config_entry entries (some entry) =
    if has entry.key (entry_keys entries) then entries else entries ++ entry ∷ []

abbrev pub unless_empty : List LoadedConfigEntry → Option (List LoadedConfigEntry)
unless_empty [] = none
unless_empty (entry ∷ entries) = some (entry ∷ entries)

-- The entries, and `none` where it throws that there is none.
unfoldable pub resolve_loaded_config_entries :
    LoadedConfig → Option String → Option (List LoadedConfigEntry)
unfolding build_named_json_entry build_default_export_entry build_raw_contract_entry
    add_loaded_config_entry
resolve_loaded_config_entries config_module override =
    let named = build_named_json_entry config_module.sync_generator_config override in
    let default = build_default_export_entry config_module.default_export override in
    let contract = build_raw_contract_entry config_module.contract_export override in
    unless_empty (
      add_loaded_config_entry (add_loaded_config_entry (add_loaded_config_entry [] named) default)
        contract)
