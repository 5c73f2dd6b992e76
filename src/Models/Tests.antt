-- ===== src/Models/Tests.antt =====
-- Runs of src/ard_ossie/models.py, and its theorems at concrete inputs.
use ard_ossie_provider.Prelude.{◌≡◌, refl, ◌↔◌, true, false, [], ◌∷◌, All, none, ok, err}
use ard_ossie_provider.Models.{
  TableRecord, ProductTableRef, active, source, validate_references, unlisted_table,
}
use ard_ossie_provider.Models.Patterns.{is_id, is_product_key}
use ard_ossie_provider.Models.Locator.{TableLocator, make_locator, key_injective, bad_part}
use ard_ossie_provider.Models.References.{Resolves, validate_references_iff}

is_id-product : is_id "prd_" "prd_01890a5d-ac96-774b-bcce-b302099a8057" ≡ true
unfolding is_id
is_id-product = refl

is_id-wrong_variant : is_id "prd_" "prd_01890a5d-ac96-774b-ccce-b302099a8057" ≡ false
unfolding is_id
is_id-wrong_variant = refl

keys_tested : (is_product_key "sales-order-2" ≡ true) × (is_product_key "sales--order" ≡ false)
unfolding is_product_key
keys_tested = (refl, refl)

abbrev orders : TableLocator
orders = record {
  source_system_id = "erp";
  catalog = "main";
  schema_name = "sales";
  table_name = "orders";
}

-- the identity stands for `str.strip` and `str.lower` on texts that are stripped and lower already
orders_made : make_locator (λ s. s) (λ s. s) "erp" "main" "sales" "orders" ≡ ok orders
unfolding make_locator
orders_made = refl

bar_refused : make_locator (λ s. s) (λ s. s) "erp" "ma|in" "sales" "orders" ≡ err bad_part
unfolding make_locator
bar_refused = refl

key_injective_example : orders ≡ orders
key_injective_example =
    key_injective (λ s. s) (λ s. s) "erp" "main" "sales" "orders" "erp" "main" "sales" "orders"
      orders orders orders_made orders_made refl

abbrev table : TableRecord
table = record {
  table_id = "tbl_1";
  locator = orders;
  version = 3;
  status = active;
  aliases = [];
  columns = [];
  schema_hash = none;
  canonical_hash = none;
}

abbrev mapping : ProductTableRef
mapping = record {
  link_id = "lnk_1";
  product_id = "prd_1";
  table_id = "tbl_1";
  table_version = 3;
  usage = source;
  required = true;
  semantic_dataset = none;
}

unlisted_refused : validate_references "prd_1" [] (mapping ∷ []) ≡ err (unlisted_table "tbl_1")
unfolding validate_references
unlisted_refused = refl

validate_references_iff_example :
    (validate_references "prd_1" (table ∷ []) (mapping ∷ []) ≡ ok tt)
    ↔ All (Resolves "prd_1" (table ∷ [])) (mapping ∷ [])
validate_references_iff_example = validate_references_iff "prd_1" (table ∷ []) (mapping ∷ [])
