-- ===== src/Identity/Tests.antt =====
-- Runs of src/ard_ossie/identity.py, and its theorems at concrete inputs.
use ard_ossie_provider.Prelude.{◌≡◌, refl, none, some, List, [], ◌∷◌, String, find_first}
use ard_ossie_provider.Models.{
  ProductRecord, TableRecord, EntityStatus, active, retired, Operation, create, update,
}
use ard_ossie_provider.Models.Locator.{TableLocator}
use ard_ossie_provider.Identity.{
  block, reuse, classify_product, classify_table, has_id, has_table_id, has_locator,
}
use ard_ossie_provider.Identity.Products.{
  MeansNew, MeansKnown, classify_new_means, classify_known_means,
}
use ard_ossie_provider.Identity.Tables.{MeansTable, classify_table_means}

abbrev product : String → String → List String → EntityStatus → ProductRecord
product id key aliases status = record {
  product_id = id;
  product_key = key;
  version = 1;
  status = status;
  display_name = none;
  aliases = aliases;
  canonical_hash = some id;
  metrics = [];
  relationships = [];
}

abbrev known : List ProductRecord
known = product "prd_1" "sales" ("orders" ∷ []) active ∷ product "prd_2" "old" [] retired ∷ []

alias_blocks :
    (classify_product (product "prd_3" "orders" [] active) known create []).decision ≡ block
unfolding classify_product
alias_blocks = refl

return_blocks :
    (classify_product (product "prd_2" "old" [] active) known update []).decision ≡ block
unfolding classify_product
return_blocks = refl

classify_new_means_example :
    MeansNew
      (product "prd_3" "orders" [] active)
      known
      []
      (classify_product (product "prd_3" "orders" [] active) known create []).decision
classify_new_means_example = classify_new_means (product "prd_3" "orders" [] active) known []

classify_known_means_example :
    MeansKnown
      (product "prd_2" "old" [] active)
      (find_first (has_id (product "prd_2" "old" [] active)) known)
      (classify_product (product "prd_2" "old" [] active) known update []).decision
classify_known_means_example =
    classify_known_means (product "prd_2" "old" [] active) known update [] refl

abbrev locator : String → TableLocator
locator name = record {
  source_system_id = "erp";
  catalog = "main";
  schema_name = "sales";
  table_name = name;
}

abbrev table : String → String → TableRecord
table id name = record {
  table_id = id;
  locator = locator name;
  version = 1;
  status = active;
  aliases = [];
  columns = [];
  schema_hash = none;
  canonical_hash = some id;
}

locator_reuses :
    (classify_table (table "tbl_2" "orders") (table "tbl_1" "orders" ∷ [])).decision ≡ reuse
unfolding classify_table ard_ossie_provider.Models.Locator.key
locator_reuses = refl

classify_table_means_example :
    MeansTable
      (table "tbl_2" "orders")
      (table "tbl_1" "orders" ∷ [])
      (find_first (has_table_id (table "tbl_2" "orders")) (table "tbl_1" "orders" ∷ []))
      (find_first (has_locator (table "tbl_2" "orders")) (table "tbl_1" "orders" ∷ []))
      (classify_table (table "tbl_2" "orders") (table "tbl_1" "orders" ∷ [])).decision
classify_table_means_example =
    classify_table_means (table "tbl_2" "orders") (table "tbl_1" "orders" ∷ [])
