-- ===== src/Registry/Outcomes.antt =====
-- src/ard_ossie/registry.py: each writing method raises, or makes one change to the state, which
-- the proofs about the methods start from.
use ard_ossie_provider.Prelude.{
  ◌≡◌, true, false, ◌∙◌, ◌⊎◌, inl, inr, List, [], ◌∷◌, String, any, find_first, any-find_first,
  Option-cases, Bool-cases, Result, Result-cases, ok, err,
}
use ard_ossie_provider.Prelude.Sorting.{sort_by}
use ard_ossie_provider.Prelude.Dict.{get, put, values, has}
use ard_ossie_provider.Models.{ProductRecord, TableRecord, ProductTableRef}
use ard_ossie_provider.Models.Locator.{key}
use ard_ossie_provider.Registry.{
  Registry, IdentityConflict, retired_id_reuse, product_key_conflict, table_locator_conflict,
  mapping_product_not_found, takes_key, takes_locator, product_returns, table_returns,
  write_product, write_table, write_mappings, write_indexes, check_mappings,
}
use ard_ossie_provider.Registry.Files.{Write, product_file, table_file, mapping_file}

abbrev pub Raises : Result IdentityConflict (List Write × Registry) → Type 0
Raises m = (e : IdentityConflict) × (m ≡ err e)

abbrev pub with_product : Registry → ProductRecord → Registry
with_product r p = record r { products = put r.products p.product_id p }

abbrev pub with_table : Registry → TableRecord → Registry
with_table r t = record r { tables = put r.tables t.table_id t }

abbrev pub sorted_links : List ProductTableRef → List ProductTableRef
sorted_links ms = sort_by (λ (m : ProductTableRef). m.link_id) ms

abbrev pub with_mappings : Registry → String → List ProductTableRef → Registry
with_mappings r id ms = record r { mappings = put r.mappings id (sorted_links ms) }

-- the product's guards passed, and the write is made
pub record WroteProduct (r : Registry) (p : ProductRecord) : Type 0 where
  pub stays : product_returns (get r.products p.product_id) p ≡ false
  pub free : any (takes_key p) (values r.products) ≡ false
  pub wrote :
      write_product r p
      ≡ ok (product_file p.product_id p ∷ write_indexes (with_product r p), with_product r p)

pub record WroteTable (r : Registry) (t : TableRecord) : Type 0 where
  pub stays : table_returns (get r.tables t.table_id) t ≡ false
  pub free : any (takes_locator t) (values r.tables) ≡ false
  pub wrote :
      write_table r t
      ≡ ok (table_file t.table_id t ∷ write_indexes (with_table r t), with_table r t)

pub record WroteMappings (r : Registry) (id : String) (ms : List ProductTableRef) : Type 0 where
  pub known : has r.products id ≡ true
  pub checked : check_mappings r id (sorted_links ms) ≡ ok tt
  pub wrote :
      write_mappings r id ms ≡ ok (mapping_file id (sorted_links ms) ∷ [], with_mappings r id ms)

pub write_product-cases :
    (r : Registry) (p : ProductRecord) → Raises (write_product r p) ⊎ WroteProduct r p
unfolding write_product
write_product-cases r p = elim (Bool-cases (product_returns (get r.products p.product_id) p)) [
  | inl e ↦ inl (retired_id_reuse p.product_id, rw e)
  | inr e ↦ elim (Option-cases (find_first (takes_key p) (values r.products))) [
    | inl f ↦ inr (record {
      stays = e;
      free = any-find_first (takes_key p) (values r.products) ∙ rw f;
      wrote = rw (e, f);
    })
    | inr (q, f) ↦ inl (product_key_conflict p.product_key q.product_id, rw (e, f))
  ]
]

pub write_table-cases : (r : Registry) (t : TableRecord) → Raises (write_table r t) ⊎ WroteTable r t
unfolding write_table
write_table-cases r t = elim (Bool-cases (table_returns (get r.tables t.table_id) t)) [
  | inl e ↦ inl (retired_id_reuse t.table_id, rw e)
  | inr e ↦ elim (Option-cases (find_first (takes_locator t) (values r.tables))) [
    | inl f ↦ inr (record {
      stays = e;
      free = any-find_first (takes_locator t) (values r.tables) ∙ rw f;
      wrote = rw (e, f);
    })
    | inr (q, f) ↦ inl (table_locator_conflict (key t.locator) q.table_id, rw (e, f))
  ]
]

pub write_mappings-cases :
    (r : Registry) (id : String) (ms : List ProductTableRef)
    → Raises (write_mappings r id ms) ⊎ WroteMappings r id ms
unfolding write_mappings
write_mappings-cases r id ms = elim (Bool-cases (has r.products id)) [
  | inl e ↦ elim (Result-cases (check_mappings r id (sorted_links ms))) [
    | inl f ↦ inr (record { known = e; checked = f; wrote = rw (e, f) })
    | inr (x, f) ↦ inl (x, rw (e, f))
  ]
  | inr e ↦ inl (mapping_product_not_found id, rw e)
]
