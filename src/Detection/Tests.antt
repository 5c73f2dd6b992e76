-- ===== src/Detection/Tests.antt =====
-- Runs of src/ard_ossie/application/release_detection.py, and its theorems at concrete inputs.
use ard_ossie_provider.Prelude.{
  ℕ, ◌≡◌, ◌⊎◌, refl, true, false, Option, none, some, List, [], ◌∷◌, String, ok, err,
}
use ard_ossie_provider.Prelude.Text.{str_leb}
use ard_ossie_provider.Models.{ProductRecord, TableRecord, active}
use ard_ossie_provider.Impact.{ChangeSetRecord, status}
use ard_ossie_provider.Registry.{Registry}
use ard_ossie_provider.Registry.Files.{Disk, empty_disk}
use ard_ossie_provider.Prelude.Sets.{sorted_set}
use ard_ossie_provider.Registry.{load}
use ard_ossie_provider.Detection.{
  Found, visit_paths, ChangedPath, Request, Ports, WorkflowResult, text, number, absent, ConfigFile,
  mapping, success, changeset_version_not_current, changed_path_unsafe,
}
use ard_ossie_provider.Detection.Expansion.{run, loaded, Expanded, visit_ids, result_of}
use ard_ossie_provider.Detection.Outputs.{IsRun, IsTidy, run-IsTidy}
use ard_ossie_provider.Detection.Direct.{IsDirect}
use ard_ossie_provider.Detection.Safe.{IsOfTouched, run-origin}

abbrev product : String → String → ℕ → ProductRecord
product id key version = record {
  product_id = id;
  product_key = key;
  version = version;
  status = active;
  display_name = none;
  aliases = [];
  canonical_hash = none;
  metrics = [];
  relationships = [];
}

abbrev changeset_id : String
changeset_id = "cst_01890a5d-ac96-774b-bcce-b302099a8057"

abbrev table : TableRecord
table = record {
  table_id = "tbl_1";
  locator = record {
    source_system_id = "erp";
    catalog = "main";
    schema_name = "sales";
    table_name = "items";
  };
  version = 1;
  status = active;
  aliases = [];
  columns = [];
  schema_hash = none;
  canonical_hash = none;
}

-- "prd_2" is ready at the version
abbrev changeset : ℕ → ChangeSetRecord
changeset version = record {
  changeset_id = changeset_id;
  table_ids = "tbl_1" ∷ [];
  required_product_ids = "prd_2" ∷ [];
  ready_products = ("prd_2", record { version = version; pr_number = 7; head_sha = "" }) ∷ [];
}

abbrev disk : ℕ → Disk
disk version = record empty_disk {
  products = ("prd_1", product "prd_1" "sales" 3) ∷ ("prd_2", product "prd_2" "stock" 5) ∷ [];
  tables = ("tbl_1", table) ∷ [];
  changesets = (changeset_id, changeset version) ∷ [];
}

abbrev config_file : String → ConfigFile
config_file _ = mapping (record {
  product_id = text "prd_1";
  product_key = text "sales";
  version = number 3;
  changeset_id = absent;
})

abbrev at : List String → ChangedPath
at parts = record { absolute = false; parts = parts }

abbrev resolve_relative : ChangedPath → Option (List String)
resolve_relative path = some path.parts

abbrev ports : ℕ → List ChangedPath → Ports
ports version changed = record {
  root = "/work";
  current_sha = "b";
  changed_paths = changed;
  merge_base = "a";
  resolve_relative = resolve_relative;
  is_file = λ _. true;
  config_file = config_file;
  registry = some (disk version);
}

abbrev request : Request
request = record { repository = "/work"; before = "a"; current = "b" }

abbrev changed : List ChangedPath
changed =
    at ("products" ∷ "sales" ∷ "generated" ∷ "ossie-model.json" ∷ [])
    ∷ at ("registry" ∷ "changesets" ∷ "cst_01890a5d-ac96-774b-bcce-b302099a8057.json" ∷ [])
    ∷ at ("docs" ∷ [])
    ∷ []

abbrev outcome : List String → List String → WorkflowResult
outcome released tables = record {
  status = success;
  before = "a";
  current = "b";
  merge_base = "a";
  products = released;
  tables = tables;
}

run-both : run (ports 5 changed) request ≡ ok (outcome ("sales" ∷ "stock" ∷ []) ("tbl_1" ∷ []))
unfolding run str_leb status
run-both = refl

-- the changeset waits for version 6 of its product
run-waiting : run (ports 6 changed) request ≡ ok (outcome ("sales" ∷ []) [])
unfolding run str_leb status
run-waiting = refl

run-outdated : run (ports 4 changed) request ≡ err (changeset_version_not_current "prd_2" 4 5)
unfolding run str_leb status
run-outdated = refl

run-outside : run (ports 5 (at (".." ∷ "products" ∷ []) ∷ [])) request ≡ err changed_path_unsafe
unfolding run str_leb status
run-outside = refl

run-IsTidy_example : IsTidy (outcome ("sales" ∷ "stock" ∷ []) ("tbl_1" ∷ []))
run-IsTidy_example =
    run-IsTidy (ports 5 changed) request (outcome ("sales" ∷ "stock" ∷ []) ("tbl_1" ∷ [])) run-both

run-origin_example :
    (r : Registry) × ((loaded (some (disk 5)) ≡ ok r)
      × (IsDirect (ports 5 changed) r changed "stock"
          ⊎ IsOfTouched (ports 5 changed) r changed "stock"))
run-origin_example =
    run-origin (ports 5 changed) request (outcome ("sales" ∷ "stock" ∷ []) ("tbl_1" ∷ [])) "stock"
      run-both refl

abbrev found : Found
found = record { direct = "sales" ∷ []; changesets = changeset_id ∷ []; tables = [] }

abbrev waiting : Expanded
waiting = record { products = "sales" ∷ []; tables = []; deferred = "tbl_1" ∷ [] }

visited_waiting :
    visit_paths
      (ports 6 changed)
      (load (disk 6))
      changed
      (record { direct = []; changesets = []; tables = [] })
    ≡ ok found
unfolding visit_paths load str_leb
visited_waiting = refl

expanded_waiting :
    visit_ids
      (load (disk 6))
      (sorted_set found.changesets)
      (record { products = found.direct; tables = found.tables; deferred = [] })
    ≡ ok waiting
unfolding visit_ids load sorted_set str_leb status
expanded_waiting = refl

result_waiting : result_of (ports 6 changed) request waiting ≡ outcome ("sales" ∷ []) []
unfolding result_of
result_waiting = refl

loaded_waiting : loaded (some (disk 6)) ≡ ok (load (disk 6))
loaded_waiting = refl

abbrev stages : IsRun (ports 6 changed) request (outcome ("sales" ∷ []) [])
stages = record {
  r = load (disk 6);
  found = found;
  e = waiting;
  is_loaded = loaded_waiting;
  visited = visited_waiting;
  expanded = expanded_waiting;
  is_result = result_waiting;
}
