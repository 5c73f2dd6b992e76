-- ===== src/Impact/Analysis.antt =====
-- src/ard_ossie/impact.py: the products that a table change concerns.
use ard_ossie_provider.Prelude.{
  ◌≡◌, refl, sym, ◌∙◌, Bool, ◌&&◌, List, [], ◌∷◌, String, arith, length, any, ok, ltb,
}
use ard_ossie_provider.Prelude.Text.{str_eq, contains}
use ard_ossie_provider.Prelude.Sets.{
  sorted_set, contains-sorted_set, sorted_set-IsStrict, sorted_set_ext, IsStrict,
}
use ard_ossie_provider.Models.{ProductTableRef}
use ard_ossie_provider.Impact.{ImpactReport, analyze_table_change, products_of}

-- some mapping joins the product to the table
abbrev pub is_mapped : String → List ProductTableRef → String → Bool
is_mapped table_id mappings p =
    any (λ (m : ProductTableRef). str_eq m.table_id table_id && str_eq m.product_id p) mappings

contains-products_of :
    (table_id : String) (mappings : List ProductTableRef) (p : String)
    → contains (products_of table_id mappings) p ≡ is_mapped table_id mappings p
unfolding products_of
contains-products_of table_id [] p = refl
contains-products_of table_id (m ∷ ms) p = ground (arith, contains-products_of table_id ms p)

-- Where `analyze_table_change` reports, the report names exactly the products that a mapping joins
-- to the table, in strictly ascending order.
pub analyze_table_change_exact :
    (table_id : String) (mappings : List ProductTableRef) (r : ImpactReport)
    → analyze_table_change table_id mappings ≡ ok r
    → IsStrict r.required_product_ids
      × ((p : String) → contains r.required_product_ids p ≡ is_mapped table_id mappings p)
      × (r.shared ≡ ltb 1 (length r.required_product_ids))
unfolding analyze_table_change
analyze_table_change_exact table_id mappings r h =
    let products : r.required_product_ids ≡ sorted_set (products_of table_id mappings) =
      ground arith in
    (
      rw products (sorted_set-IsStrict (products_of table_id mappings)),
      λ p. rw products (
          contains-sorted_set (products_of table_id mappings) p
          ∙ contains-products_of table_id mappings p),
      ground arith,
    )

-- The report depends on which products are mapped to the table, and not on the order or the number
-- of the mappings.
analyze_table_change_ext :
    (table_id : String) (ms ns : List ProductTableRef)
    → ((p : String) → is_mapped table_id ms p ≡ is_mapped table_id ns p)
    → analyze_table_change table_id ms ≡ analyze_table_change table_id ns
unfolding analyze_table_change
analyze_table_change_ext table_id ms ns e = rw (
    sorted_set_ext (products_of table_id ms) (products_of table_id ns)
      (λ p. contains-products_of table_id ms p ∙ e p ∙ sym (contains-products_of table_id ns p)))
