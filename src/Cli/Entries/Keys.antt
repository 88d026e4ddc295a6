-- ===== src/Cli/Entries/Keys.antt =====
-- packages/baresync/src/cli/generator.ts: the output directories of the entries of a configuration, as
-- the texts that they are given as. Two texts may name one directory, as "generated" and
-- "./generated" do: such entries are apart in the code, and are written over each other.
use baresync.Prelude.{
  String, Option, none, some, List, [], ◌∷◌, ◌++◌, map, ◌≡◌, ◌≢◌, ◌∙◌, refl, sym, ap, subst, inl,
  inr, arith, eq_iff, Bool-cases, true, has, has-append, has_self, All, All-append, Distinct,
  Distinct-concat,
}
use baresync.Contract.{SyncContract}
use baresync.Generator.{PairedSyncGeneratorConfig, GeneratorConfig}
use baresync.Generator.Writing.{Source, paired, configured, raw}
use baresync.Cli.Entries.{
  as_paired, as_generator, as_contract, Export, LoadedConfig, LoadedConfigEntry, overridden,
  paired_entry, generator_entry, contract_entry, made, first_of, entry_keys, build_named_json_entry,
  build_default_export_entry, build_raw_contract_entry, add_loaded_config_entry, unless_empty,
  resolve_loaded_config_entries,
}

-- The directory that `generateSyncArtifacts` writes to.
abbrev pub directory_of : Source → String
directory_of (paired config) = config.output_dir
directory_of (configured config) = config.output_dir
directory_of (raw contract output_dir) = output_dir

abbrev pub IsKeyed : LoadedConfigEntry → Type 0
IsKeyed entry = entry.key ≡ directory_of entry.source

-- The key of an entry that is built, and that it is the override where there is one.
abbrev IsBuilt : Option String → Option LoadedConfigEntry → Type 0
IsBuilt override none = Unit
IsBuilt override (some entry) = IsKeyed entry × (entry.key ≡ overridden override entry.key)

first_of-IsBuilt :
    (override : Option String) (first later : Option LoadedConfigEntry)
    → IsBuilt override first
    → IsBuilt override later
    → IsBuilt override (first_of first later)
first_of-IsBuilt override none later hf hl = hl
first_of-IsBuilt override (some entry) later hf hl = hf

made-IsBuilt {ℓ} :
    {A : Type ℓ} (override : Option String) (make : A → LoadedConfigEntry) (o : Option A)
    → ((a : A) → IsBuilt override (some (make a)))
    → IsBuilt override (made make o)
made-IsBuilt override make none h = tt
made-IsBuilt override make (some a) h = h a

overridden_twice :
    (override : Option String) (dir : String)
    → overridden override dir ≡ overridden override (overridden override dir)
overridden_twice none dir = refl
overridden_twice (some given) dir = refl

module _ (override : Option String) (label : String) where
  paired-IsBuilt :
      (o : Option PairedSyncGeneratorConfig)
      → IsBuilt override (made (paired_entry label override) o)
  paired-IsBuilt o =
      made-IsBuilt override (paired_entry label override) o
        (λ c. (refl, overridden_twice override c.output_dir))

  generator-IsBuilt :
      (o : Option GeneratorConfig) → IsBuilt override (made (generator_entry label override) o)
  generator-IsBuilt o =
      made-IsBuilt override (generator_entry label override) o
        (λ c. (refl, overridden_twice override c.output_dir))

  contract-IsBuilt :
      (o : Option SyncContract) → IsBuilt override (made (contract_entry label override) o)
  contract-IsBuilt o =
      made-IsBuilt override (contract_entry label override) o
        (λ c. (refl, overridden_twice override "./generated"))

build_named_json_entry-IsBuilt :
    (config : Export) (override : Option String)
    → IsBuilt override (build_named_json_entry config override)
unfolding build_named_json_entry
build_named_json_entry-IsBuilt config override =
    first_of-IsBuilt override _ _ (paired-IsBuilt override "syncGeneratorConfig" (as_paired config))
      (generator-IsBuilt override "syncGeneratorConfig" (as_generator config))

build_default_export_entry-IsBuilt :
    (config : Export) (override : Option String)
    → IsBuilt override (build_default_export_entry config override)
unfolding build_default_export_entry
build_default_export_entry-IsBuilt config override =
    first_of-IsBuilt override _ _ (paired-IsBuilt override "default export" (as_paired config)) (
      first_of-IsBuilt override _ _
        (generator-IsBuilt override "default export" (as_generator config))
        (contract-IsBuilt override "default export contract" (as_contract config)))

build_raw_contract_entry-IsBuilt :
    (config : Export) (override : Option String)
    → IsBuilt override (build_raw_contract_entry config override)
unfolding build_raw_contract_entry
build_raw_contract_entry-IsBuilt config override =
    contract-IsBuilt override "contract" (as_contract config)

-- The entries so far: no key twice, each the directory of its entry and the override.
abbrev AreBuilt : Option String → List LoadedConfigEntry → Type 0
AreBuilt override entries =
    Distinct (entry_keys entries)
    × All (λ entry. IsKeyed entry × (entry.key ≡ overridden override entry.key)) entries

entry_keys-append :
    (entries : List LoadedConfigEntry) (entry : LoadedConfigEntry)
    → entry_keys (entries ++ entry ∷ []) ≡ entry_keys entries ++ entry.key ∷ []
entry_keys-append [] entry = refl
entry_keys-append (e ∷ entries) entry = ap (λ keys. e.key ∷ keys) (entry_keys-append entries entry)

add_loaded_config_entry-AreBuilt :
    (override : Option String) (entries : List LoadedConfigEntry) (entry : Option LoadedConfigEntry)
    → AreBuilt override entries
    → IsBuilt override entry
    → AreBuilt override (add_loaded_config_entry entries entry)
unfolding add_loaded_config_entry
add_loaded_config_entry-AreBuilt override entries none h new = h
add_loaded_config_entry-AreBuilt override entries (some entry) h new =
    elim (Bool-cases (has entry.key (entry_keys entries))) [
      | inl there ↦ rw there h
      | inr absent ↦
          rw (absent, entry_keys-append entries entry)
            (
              Distinct-concat (entry_keys entries) entry.key h.0 absent,
              All-append _ entries (entry ∷ []) h.1 (new, tt),
            )
    ]

unless_empty-eq :
    (built entries : List LoadedConfigEntry) → unless_empty built ≡ some entries → built ≡ entries
unless_empty-eq [] entries e = cc
unless_empty-eq (entry ∷ built) entries e = cc

unless_empty-nonempty :
    (built entries : List LoadedConfigEntry) → unless_empty built ≡ some entries → entries ≢ []
unless_empty-nonempty [] entries e = cc
unless_empty-nonempty (entry ∷ built) [] e = cc
unless_empty-nonempty (entry ∷ built) (other ∷ entries) e = λ same. cc

resolve_loaded_config_entries-AreBuilt :
    (config_module : LoadedConfig) (override : Option String) (entries : List LoadedConfigEntry)
    → resolve_loaded_config_entries config_module override ≡ some entries
    → AreBuilt override entries
unfolding resolve_loaded_config_entries
resolve_loaded_config_entries-AreBuilt m override entries e =
    let named = build_named_json_entry-IsBuilt m.sync_generator_config override in
    let default = build_default_export_entry-IsBuilt m.default_export override in
    let contract = build_raw_contract_entry-IsBuilt m.contract_export override in
    let first = add_loaded_config_entry-AreBuilt override [] _ (tt, tt) named in
    let second = add_loaded_config_entry-AreBuilt override _ _ first default in
    subst (AreBuilt override) (unless_empty-eq _ entries e)
      (add_loaded_config_entry-AreBuilt override _ _ second contract)

abbrev pub output_texts : List LoadedConfigEntry → List String
output_texts entries = map (λ entry. directory_of entry.source) entries

output_texts-entry_keys :
    (override : Option String) (entries : List LoadedConfigEntry)
    → All (λ entry. IsKeyed entry × (entry.key ≡ overridden override entry.key)) entries
    → entry_keys entries ≡ output_texts entries
output_texts-entry_keys override [] h = refl
output_texts-entry_keys override (entry ∷ entries) h =
    rw (h.0.0)
      (ap (λ keys. directory_of entry.source ∷ keys) (output_texts-entry_keys override entries h.1))

entry_keys-kept :
    (text : String) (entries : List LoadedConfigEntry) (entry : Option LoadedConfigEntry)
    → has text (entry_keys entries) ≡ true
    → has text (entry_keys (add_loaded_config_entry entries entry)) ≡ true
unfolding add_loaded_config_entry
entry_keys-kept text entries none there = there
entry_keys-kept text entries (some entry) there =
    elim (Bool-cases (has entry.key (entry_keys entries))) [
      | inl known ↦ rw known there
      | inr absent ↦
          rw
            (
              absent,
              entry_keys-append entries entry,
              has-append text (entry_keys entries) (entry.key ∷ []),
              there,
            )
            refl
    ]

-- The text of an entry that was built, where there is one, is among these.
abbrev pub IsAmong : List String → Option LoadedConfigEntry → Type 0
IsAmong texts none = Unit
IsAmong texts (some entry) = has (directory_of entry.source) texts ≡ true

entry_keys-added :
    (override : Option String) (entries : List LoadedConfigEntry) (entry : Option LoadedConfigEntry)
    → IsBuilt override entry
    → IsAmong (entry_keys (add_loaded_config_entry entries entry)) entry
unfolding add_loaded_config_entry
entry_keys-added override entries none new = tt
entry_keys-added override entries (some entry) new =
    elim (Bool-cases (has entry.key (entry_keys entries))) [
      | inl known ↦ rw (← new.0, known) known
      | inr absent ↦
          rw
            (
              ← new.0,
              absent,
              entry_keys-append entries entry,
              has-append entry.key (entry_keys entries) (entry.key ∷ []),
            )
            (ground (arith, has_self entry.key []))
    ]

IsAmong-kept :
    (entries : List LoadedConfigEntry) (before added : Option LoadedConfigEntry)
    → IsAmong (entry_keys entries) before
    → IsAmong (entry_keys (add_loaded_config_entry entries added)) before
IsAmong-kept entries none added there = tt
IsAmong-kept entries (some entry) added there =
    entry_keys-kept (directory_of entry.source) entries added there

-- The entries of a configuration are given output directories of which no two are the same text, and
-- the output directory that the named export, the default export or the contract is to be generated
-- to is among them.
pub resolve_loaded_config_entries-Distinct :
    (config_module : LoadedConfig) (override : Option String) (entries : List LoadedConfigEntry)
    → resolve_loaded_config_entries config_module override ≡ some entries
    → Distinct (output_texts entries)
      × IsAmong
          (output_texts entries)
          (build_named_json_entry config_module.sync_generator_config override)
      × IsAmong
          (output_texts entries)
          (build_default_export_entry config_module.default_export override)
      × IsAmong
          (output_texts entries)
          (build_raw_contract_entry config_module.contract_export override)
unfolding resolve_loaded_config_entries
resolve_loaded_config_entries-Distinct m override entries e =
    let (distinct, built) = resolve_loaded_config_entries-AreBuilt m override entries e in
    let texts = output_texts-entry_keys override entries built in
    let keys = ap entry_keys (unless_empty-eq _ entries e) ∙ texts in
    let named = build_named_json_entry m.sync_generator_config override in
    let default = build_default_export_entry m.default_export override in
    let contract = build_raw_contract_entry m.contract_export override in
    let first = add_loaded_config_entry [] named in
    let second = add_loaded_config_entry first default in
    let among_named =
      entry_keys-added override [] named
        (build_named_json_entry-IsBuilt m.sync_generator_config override) in
    let among_default =
      entry_keys-added override first default
        (build_default_export_entry-IsBuilt m.default_export override) in
    (
      subst Distinct texts distinct,
      subst (λ ts. IsAmong ts named) keys
          (IsAmong-kept second named contract (IsAmong-kept first named default among_named)),
      subst (λ ts. IsAmong ts default) keys (IsAmong-kept second default contract among_default),
      subst (λ ts. IsAmong ts contract) keys
          (entry_keys-added override second contract
            (build_raw_contract_entry-IsBuilt m.contract_export override)),
    )

one_directory :
    (dir : String) (entries : List LoadedConfigEntry)
    → entries ≢ []
    → AreBuilt (some dir) entries
    → (entry : LoadedConfigEntry) × (entries ≡ entry ∷ []) × (directory_of entry.source ≡ dir)
unfolding has
one_directory dir [] some_entry h = absurd (some_entry refl)
one_directory dir (entry ∷ []) some_entry h = (entry, refl, sym h.1.0.0 ∙ h.1.0.1)
one_directory dir (entry ∷ next ∷ entries) some_entry h =
    let clash : ⊥ = ground (arith, h.1.0.1, h.1.1.0.1, h.0.0, eq_iff next.key entry.key) in
    absurd clash

-- With `--output` there is one entry, however many configurations the module exports, and it is
-- written to that directory.
pub resolve_loaded_config_entries-overridden :
    (config_module : LoadedConfig) (dir : String) (entries : List LoadedConfigEntry)
    → resolve_loaded_config_entries config_module (some dir) ≡ some entries
    → (entry : LoadedConfigEntry) × (entries ≡ entry ∷ []) × (directory_of entry.source ≡ dir)
unfolding resolve_loaded_config_entries
resolve_loaded_config_entries-overridden m dir entries e =
    one_directory dir entries (unless_empty-nonempty _ entries e)
      (resolve_loaded_config_entries-AreBuilt m (some dir) entries e)
