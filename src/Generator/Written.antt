-- ===== src/Generator/Written.antt =====
-- packages/baresync/src/generator/index.ts: what a generation that returns has written.
use baresync.Prelude.{
  String, Bool, true, false, Option, none, some, List, [], ◌∷◌, ◌++◌, ◌&&◌, map, ◌≡◌, refl, ap, ◌∙◌,
  subst, ◌⊎◌, inl, inr, Bool-cases, arith, any, keep, Result, ok, throw,
}
use baresync.Contract.{SyncContract}
use baresync.FkOrder.{OrderError, SyncTableOrder}
use baresync.FkOrder.Computed.{IsOrderOf, compute_sync_table_order-IsOrderOf}
use baresync.Diagnostics.{SyncDiagnostic}
use baresync.Diagnostics.Emitted.{is_error}
use baresync.Diagnostics.ForeignKeys.{schema_module}
use baresync.Diagnostics.Run.{NoMeta, DiagnosticOptions, run_diagnostics}
use baresync.Generator.{GeneratorError}
use baresync.JsObject.{from_entries}
use baresync.Generator.Platform.{
  Platform, ContractJson, SyncManifest, contract_json, manifest_json, text, Action, warned,
  made_directory, wrote_file, copied_file, skipped_snapshot, without_snapshots, Run, then_outcome,
  perform,
}
use baresync.Generator.Performing.{perform-ok}
use baresync.Generator.Artifacts.{
  contract_entry, numbered, joined, constant_line, manifest_of, contract_json_of, table_order_text,
}
use baresync.Generator.Formatting.{format_generated_artifacts}
use baresync.Generator.Writing.{
  SchemaPaths, copy_snapshot, copy_snapshots, is_warning, dated, written, formatted_paths,
  contract_order, write_in_order, counted_errors, unless_errors, write_unless_errors,
  write_generation_artifacts,
}

-- What became of the copy of a schema file.
abbrev pub IsSnapshot : Platform → (source copy : String) → Action → Type 0
IsSnapshot platform source copy action =
    ((platform.exists (platform.resolve source) ≡ true)
      × (action ≡ copied_file (platform.resolve source) copy))
    ⊎ ((platform.exists (platform.resolve source) ≡ false)
        × (action ≡ skipped_snapshot (platform.resolve source)))

pub data AreSnapshots (platform : Platform) (dated_dir : String)
    : Option SchemaPaths → List Action → Type 0 where
  no_paths : AreSnapshots platform dated_dir none (without_snapshots ∷ [])
  both :
      {paths : SchemaPaths} {api local : Action}
      → IsSnapshot platform paths.api_path (platform.join dated_dir "api-synced-schema.ts") api
      → IsSnapshot platform paths.local_path
          (platform.join dated_dir "local-synced-schema.ts")
          local
      → AreSnapshots platform dated_dir (some paths) (api ∷ local ∷ [])

-- What a generation that returns has done.
pub record IsWritten (platform : Platform) (contract : SyncContract) (dir : String)
    (warnings_as_errors : Bool) (paths : Option SchemaPaths) (options : DiagnosticOptions)
    (actions : List Action) : Type 0 where
  pub diagnostics : List SyncDiagnostic
  pub order : SyncTableOrder
  pub json : ContractJson
  pub constants : String
  pub manifest : SyncManifest
  pub snapshots : List Action
  pub formatting : List Action
  pub diagnosed : run_diagnostics contract options ≡ ok diagnostics
  pub no_error : any is_error diagnostics ≡ false
  pub no_counted_warning : (warnings_as_errors && any is_warning diagnostics) ≡ false
  pub ordered :
      IsOrderOf (schema_module contract.tables) (map (λ t. t.table_name) contract.tables_meta) order
  pub json_is : json ≡ record {
    version = platform.today;
    generator_version = "0.1.0";
    upsert_order = order.upsert_order;
    delete_order = order.delete_order;
    tables = from_entries (map contract_entry contract.tables_meta);
    limits = contract.limits;
  }
  pub constants_are :
      constants
      ≡ joined "\n" (
          "// Auto-generated by baresync. Do not edit manually."
          ∷ ""
          ∷ constant_line platform "SYNC_UPSERT_ORDER" order.upsert_order
          ∷ ""
          ∷ constant_line platform "SYNC_DELETE_ORDER" order.delete_order
          ∷ ""
          ∷ [])
  pub manifest_is : manifest ≡ record {
    contract_version = platform.today;
    generator_version = "0.1.0";
    output_paths =
        "sync-contract.json" ∷ "sync-table-order.ts" ∷ "sync-contract.manifest.json" ∷ [];
    scope_mappings = map (λ t. (t.table_name, t.scope_field)) contract.tables_meta;
    delete_order = order.delete_order;
    upsert_order = order.upsert_order;
    tables =
        map
          (λ t. record {
            field_numbers = from_entries (numbered 0 t.columns);
            fields = t.columns;
            name = t.table_name;
          })
          contract.tables_meta;
  }
  pub snapshots_are : AreSnapshots platform (platform.join dir platform.today) paths snapshots
  pub formatted :
      format_generated_artifacts platform platform.cwd [] (
        platform.join (platform.join dir platform.today) "sync-contract.json"
        ∷ platform.join (platform.join dir platform.today) "sync-contract.manifest.json"
        ∷ platform.join (platform.join dir platform.today) "sync-table-order.ts"
        ∷ [])
      ≡ record { actions = formatting; outcome = ok tt }
  pub done :
      let dated_dir = platform.join dir platform.today in
      actions
      ≡ map warned (keep is_warning diagnostics)
        ++ (made_directory dated_dir
            ∷ wrote_file (platform.join dated_dir "sync-contract.json") (contract_json json)
            ∷ made_directory dated_dir
            ∷ wrote_file (platform.join dated_dir "sync-table-order.ts") (text constants)
            ∷ made_directory dated_dir
            ∷ wrote_file
                (platform.join dated_dir "sync-contract.manifest.json")
                (manifest_json manifest)
            ∷ (snapshots ++ formatting))

keep-nil :
    (p : SyncDiagnostic → Bool) (ds : List SyncDiagnostic) → keep p ds ≡ [] → any p ds ≡ false
keep-nil p [] e = refl
keep-nil p (d ∷ ds) e = ground (arith, keep-nil p ds)

unless_errors-ok :
    (ds errors : List SyncDiagnostic) (next : Run)
    → (unless_errors ds errors next).outcome ≡ ok tt
    → (errors ≡ []) × (unless_errors ds errors next ≡ next)
unless_errors-ok ds [] next e = (refl, refl)
unless_errors-ok ds (d ∷ errors) next e = cc

append-nil : (xs ys : List SyncDiagnostic) → xs ++ ys ≡ [] → (xs ≡ []) × (ys ≡ [])
append-nil [] ys e = (refl, e)
append-nil (x ∷ xs) ys e = cc

pub counted_errors-nil :
    (warnings_as_errors : Bool) (ds : List SyncDiagnostic)
    → counted_errors warnings_as_errors ds ≡ []
    → (any is_error ds ≡ false) × ((warnings_as_errors && any is_warning ds) ≡ false)
counted_errors-nil true ds e =
    let (errors, warnings) = append-nil (keep is_error ds) (keep is_warning ds) e in
    (keep-nil is_error ds errors, keep-nil is_warning ds warnings)
counted_errors-nil false ds e = (keep-nil is_error ds (append-nil (keep is_error ds) [] e).0, refl)

copy_snapshot-IsSnapshot :
    (platform : Platform) (dated_dir source name : String)
    → IsSnapshot platform source
        (platform.join dated_dir name)
        (copy_snapshot platform dated_dir source name)
copy_snapshot-IsSnapshot platform dated_dir source name =
    elim (Bool-cases (platform.exists (platform.resolve source))) [
      | inl there ↦ inl (there, rw there refl)
      | inr missing ↦ inr (missing, rw missing refl)
    ]

copy_snapshots-AreSnapshots :
    (platform : Platform) (dated_dir : String) (paths : Option SchemaPaths)
    → AreSnapshots platform dated_dir paths (copy_snapshots platform dated_dir paths)
copy_snapshots-AreSnapshots platform dated_dir none = no_paths
copy_snapshots-AreSnapshots platform dated_dir (some paths) =
    both (copy_snapshot-IsSnapshot platform dated_dir paths.api_path "api-synced-schema.ts")
      (copy_snapshot-IsSnapshot platform dated_dir paths.local_path "local-synced-schema.ts")

then_outcome-ok :
    (actions : List Action) (outcome : Result GeneratorError (Unit {0})) (next : Run)
    → (then_outcome actions outcome next).outcome ≡ ok tt
    → (outcome ≡ ok tt)
      × (next.outcome ≡ ok tt)
      × ((then_outcome actions outcome next).actions ≡ actions ++ next.actions)
then_outcome-ok actions (ok tt) next e = (refl, e, refl)
then_outcome-ok actions (throw thrown) next e = cc

write_in_order-ok :
    (platform : Platform) (contract : SyncContract) (dir : String) (paths : Option SchemaPaths)
    (result : Result OrderError SyncTableOrder)
    → (write_in_order platform contract dir paths result).outcome ≡ ok tt
    → let format =
        format_generated_artifacts platform platform.cwd []
          (formatted_paths platform (dated platform dir)) in
      (order : SyncTableOrder) × (result ≡ ok order)
      × (format.outcome ≡ ok tt)
      × ((write_in_order platform contract dir paths result).actions
          ≡ written platform contract dir paths order ++ format.actions)
unfolding write_in_order
write_in_order-ok platform contract dir paths (throw thrown) e = cc
write_in_order-ok platform contract dir paths (ok order) e =
    let todo = written platform contract dir paths order in
    let files = perform platform [] todo in
    let format =
      format_generated_artifacts platform platform.cwd []
        (formatted_paths platform (dated platform dir)) in
    let (wrote, formatted, all_done) = then_outcome-ok files.actions files.outcome format e in
    (
      order,
      refl,
      formatted,
      all_done ∙ ap (λ actions. actions ++ format.actions) (perform-ok platform [] todo wrote),
    )

write_unless_errors-IsWritten :
    (platform : Platform) (contract : SyncContract) (dir : String) (warnings_as_errors : Bool)
    (paths : Option SchemaPaths) (options : DiagnosticOptions)
    (result : Result NoMeta (List SyncDiagnostic))
    → run_diagnostics contract options ≡ result
    → (write_unless_errors platform contract dir warnings_as_errors paths result).outcome ≡ ok tt
    → IsWritten platform contract dir warnings_as_errors paths options
        (write_unless_errors platform contract dir warnings_as_errors paths result).actions
unfolding write_unless_errors contract_order manifest_of contract_json_of table_order_text
write_unless_errors-IsWritten platform contract dir w paths options (throw thrown) diagnosed e = cc
write_unless_errors-IsWritten platform contract dir w paths options (ok ds) diagnosed e =
    let next = write_in_order platform contract dir paths (contract_order contract) in
    let (none_counted, onward) = unless_errors-ok ds (counted_errors w ds) next e in
    let (no_error, no_warning) = counted_errors-nil w ds none_counted in
    let (order, ordered, formatted, done) =
      write_in_order-ok platform contract dir paths (contract_order contract)
        (subst (λ run. run.outcome ≡ ok tt) onward e) in
    record {
      diagnostics = ds;
      order = order;
      json = contract_json_of contract order platform.today;
      constants = table_order_text platform order;
      manifest = manifest_of contract order platform.today;
      snapshots = copy_snapshots platform (dated platform dir) paths;
      formatting =
          (format_generated_artifacts platform platform.cwd []
            (formatted_paths platform (dated platform dir))).actions;
      json_is = refl;
      constants_are = refl;
      manifest_is = refl;
      snapshots_are = copy_snapshots-AreSnapshots platform (dated platform dir) paths;
      formatted =
          ap
            (λ outcome. record {
              actions =
                  (format_generated_artifacts platform platform.cwd []
                    (formatted_paths platform (dated platform dir))).actions;
              outcome = outcome;
            })
            formatted;
      diagnosed = diagnosed;
      no_error = no_error;
      no_counted_warning = no_warning;
      ordered =
          compute_sync_table_order-IsOrderOf (schema_module contract.tables)
            (some (map (λ t. t.table_name) contract.tables_meta)) order ordered;
      done =
          ap (λ run. map warned (keep is_warning ds) ++ run.actions) onward
          ∙ ap (λ actions. map warned (keep is_warning ds) ++ actions) done;
    }

pub write_generation_artifacts-IsWritten :
    (platform : Platform) (contract : SyncContract) (dir : String) (warnings_as_errors : Bool)
    (paths : Option SchemaPaths) (options : DiagnosticOptions)
    → (write_generation_artifacts platform contract dir warnings_as_errors paths options).outcome
      ≡ ok tt
    → IsWritten platform contract dir warnings_as_errors paths options
        (write_generation_artifacts platform contract dir warnings_as_errors paths options).actions
unfolding write_generation_artifacts
write_generation_artifacts-IsWritten platform contract dir w paths options e =
    write_unless_errors-IsWritten platform contract dir w paths options
      (run_diagnostics contract options) refl e
