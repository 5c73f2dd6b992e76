-- ===== src/Registry/Tests.antt =====
-- Runs of src/ard_ossie/registry.py, and its theorems at concrete inputs.
use ard_ossie_provider.Prelude.{
  ◌≡◌, ◌≢◌, refl, ◌⊎◌, true, none, some, List, [], ◌∷◌, String, take, arith, eq_iff, ok,
}
use ard_ossie_provider.Prelude.Dict.{get, put}
use ard_ossie_provider.Models.{ProductRecord, TableRecord, EntityStatus, active, retired}
use ard_ossie_provider.Registry.{
  Registry, new_registry, load, call, run, product_call, mappings_call, Call, write_product,
  write_table, table_call, write_mappings, write_indexes,
}
use ard_ossie_provider.Prelude.Reindex.{HasNodupKeys}
use ard_ossie_provider.Models.Locator.{key}
use ard_ossie_provider.Identity.{classify_table}
use ard_ossie_provider.Registry.{tables}
use ard_ossie_provider.Registry.Admission.{is_admitted, write_table_admitted}
use ard_ossie_provider.Registry.Files.{product_file, write_all, empty_disk}
use ard_ossie_provider.Registry.Outcomes.{WroteTable, Raises, WroteProduct, with_product}
use ard_ossie_provider.Registry.Unique.{
  HasUniqueNames, run-HasUniqueNames, new_registry-HasUniqueNames,
}
use ard_ossie_provider.Registry.Retired.{
  retired_product, retired_table, run_keeps_retired_product, alias_locks_out,
}
use ard_ossie_provider.Registry.Reload.{IsFiled, Mirrors, SameRecords}
use ard_ossie_provider.Registry.Crash.{run_files, restart_after_run, restart_inside_call}

abbrev product : String → String → List String → EntityStatus → ProductRecord
product id key aliases status = record {
  product_id = id;
  product_key = key;
  version = 1;
  status = status;
  display_name = none;
  aliases = aliases;
  canonical_hash = none;
  metrics = [];
  relationships = [];
}

-- the second call raises on the key, the third on a mapping of no product
abbrev calls : List Call
calls =
    product_call (product "prd_1" "sales" [] retired)
    ∷ product_call (product "prd_2" "sales" [] active)
    ∷ mappings_call "prd_9" []
    ∷ product_call (product "prd_3" "stock" [] active)
    ∷ []

run-calls :
    (run new_registry calls).products
    ≡ ("prd_1", product "prd_1" "sales" [] retired)
      ∷ ("prd_3", product "prd_3" "stock" [] active)
      ∷ []
unfolding run write_product write_mappings get put
run-calls = refl

run-HasUniqueNames_example : HasUniqueNames (run new_registry calls)
run-HasUniqueNames_example = run-HasUniqueNames new_registry calls new_registry-HasUniqueNames

retired_first : retired_product (get (run new_registry calls).products "prd_1") ≡ true
unfolding run write_product write_mappings get put
retired_first = refl

run_keeps_retired_product_example :
    retired_product (get (run (run new_registry calls) calls).products "prd_1") ≡ true
run_keeps_retired_product_example =
    run_keeps_retired_product (run new_registry calls) calls "prd_1" retired_first

abbrev old_table : TableRecord
old_table = record {
  table_id = "tbl_1";
  locator = record {
    source_system_id = "sap";
    catalog = "erp";
    schema_name = "dbo";
    table_name = "sales";
  };
  version = 1;
  status = retired;
  aliases = [];
  columns = [];
  schema_hash = none;
  canonical_hash = none;
}

abbrev table_calls : List Call
table_calls = table_call old_table ∷ table_call (record old_table { status = active }) ∷ []

retired_table_first :
    retired_table (get (run new_registry (table_call old_table ∷ [])).tables "tbl_1") ≡ true
unfolding run write_table get put
retired_table_first = refl

abbrev held : Registry
held = with_product new_registry (product "prd_1" "sales" [] active)

abbrev intruder : ProductRecord
intruder = product "prd_2" "stock" ("sales" ∷ []) active

intruder_written : WroteProduct held intruder
unfolding write_product get put
intruder_written = record { stays = refl; free = refl; wrote = refl }

ids_differ : ◌≢◌ {A = String} "prd_2" "prd_1"
ids_differ = ground (arith, eq_iff "prd_2" "prd_1")

-- the product "prd_1" can no longer be written, not even unchanged
alias_locks_out_example :
    Raises (write_product (with_product held intruder) (product "prd_1" "sales" [] active))
alias_locks_out_example =
    alias_locks_out held intruder (product "prd_1" "sales" [] active) intruder_written ids_differ
      refl

empty-IsFiled : IsFiled empty_disk
empty-IsFiled = record {
  products = tt;
  tables = tt;
  mappings = tt;
  changesets = tt;
  own_products = refl;
  own_tables = refl;
  own_changesets = refl;
}

empty-Mirrors : Mirrors new_registry empty_disk
empty-Mirrors = record {
  products = λ k. refl;
  tables = λ k. refl;
  mappings = λ k. refl;
  changesets = λ k. refl;
}

restart_after_run_example :
    SameRecords (load (run_files new_registry empty_disk calls)) (run new_registry calls)
restart_after_run_example =
    restart_after_run new_registry empty_disk calls empty-IsFiled empty-Mirrors

abbrev first : ProductRecord
first = product "prd_1" "sales" [] active

first_written :
    call new_registry (product_call first)
    ≡ ok (
      product_file "prd_1" first ∷ write_indexes (with_product new_registry first),
      with_product new_registry first,
    )
unfolding call write_product get
first_written = refl

-- the process stops after the product file and before the indexes
restart_inside_call_example :
    SameRecords
      (load (
        write_all empty_disk
          (take 1 (product_file "prd_1" first ∷ write_indexes (with_product new_registry first)))))
      new_registry
    ⊎ SameRecords
        (load (
          write_all empty_disk (
            take 1 (product_file "prd_1" first ∷ write_indexes (with_product new_registry first)))))
        (with_product new_registry first)
restart_inside_call_example =
    restart_inside_call new_registry empty_disk (product_call first)
      (product_file "prd_1" first ∷ write_indexes (with_product new_registry first))
      (with_product new_registry first) 1 empty-IsFiled empty-Mirrors first_written

abbrev one_table : Registry
one_table = run new_registry (table_call old_table ∷ [])

abbrev revised : TableRecord
revised = record old_table { canonical_hash = some "new" }

one_table-HasNodupKeys : HasNodupKeys one_table.tables
unfolding run write_table get put
one_table-HasNodupKeys = (refl, tt)

revised_admitted : is_admitted (classify_table revised (tables one_table)).decision ≡ true
unfolding run write_table get put classify_table tables key
revised_admitted = refl

write_table_admitted_example : WroteTable one_table revised
write_table_admitted_example =
    write_table_admitted one_table revised
      (run-HasUniqueNames new_registry (table_call old_table ∷ []) new_registry-HasUniqueNames)
      one_table-HasNodupKeys revised_admitted
