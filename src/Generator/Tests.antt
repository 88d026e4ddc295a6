-- ===== src/Generator/Tests.antt =====
-- packages/baresync/src/generator on a small schema.
use baresync.Prelude.{false, none, some, List, [], ◌∷◌, map, ◌≡◌, refl, arith, ◌||◌, ◌==◌, All, ok}
use baresync.Contract.{SyncedTableDefinition, define_sync_contract}
use baresync.Contract.Laws.{IsSyncable, contract_of}
use baresync.Generator.{Exports, PairedTable, define_sync_config}
use baresync.Generator.Platform.{Run}
use baresync.Generator.Pairing.{ArePairs, build_paired_contract-ArePairs}
use baresync.Generator.Writing.{
  paired, paired_options, snapshots_of, write_generation_artifacts, generate_sync_artifacts,
}
use baresync.Generator.Failing.{FailsEarly, generate_sync_artifacts-FailsEarly}
use baresync.Generator.Written.{IsWritten}
use baresync.Generator.Numbered.{IsComplete, write_generation_artifacts-IsComplete}
use baresync.Generator.PosixPaths.{posix_resolve, posix_dirname}
use baresync.Generator.Examples.{
  config, import_schema, platform, platform-Shortens, def, build, built,
}

config_defined :
    define_sync_config (λ path. path == "api.ts" || path == "local.ts") config ≡ ok config
unfolding define_sync_config
config_defined = refl

build_paired_contract-ArePairs_example :
    (local_module api_module : Exports) × (pairs : List (PairedTable × SyncedTableDefinition))
    × (import_schema "local.ts" ≡ some local_module)
    × (import_schema "api.ts" ≡ some api_module)
    × ArePairs local_module api_module config.tables pairs
    × (build.tables ≡ map (λ pair. pair.0) pairs)
    × (build.contract ≡ contract_of (map (λ pair. pair.1) pairs) none)
    × All IsSyncable (map (λ pair. pair.1) pairs)
build_paired_contract-ArePairs_example =
    build_paired_contract-ArePairs import_schema config build built

generate_sync_artifacts-FailsEarly_example :
    FailsEarly
      (platform (some 1))
      (generate_sync_artifacts (platform (some 1)) (paired config) false)
generate_sync_artifacts-FailsEarly_example =
    generate_sync_artifacts-FailsEarly (platform (some 1)) (paired config) false
      (platform-Shortens (some 1))

abbrev generation : Run
generation =
    write_generation_artifacts (platform (some 0)) build.contract "out" false
      (some (snapshots_of config)) (paired_options build)

generated : generation.outcome ≡ ok tt
unfolding write_generation_artifacts posix_resolve posix_dirname
generated = refl

write_generation_artifacts-IsComplete_example :
    (w : IsWritten
      (platform (some 0))
      build.contract
      "out"
      false
      (some (snapshots_of config))
      (paired_options build)
      generation.actions)
    × IsComplete build.contract w.json w.manifest
unfolding define_sync_contract
write_generation_artifacts-IsComplete_example =
    write_generation_artifacts-IsComplete (platform (some 0)) (def ∷ []) none build.contract "out"
      false (some (snapshots_of config)) (paired_options build) refl (omega arith, tt) generated
