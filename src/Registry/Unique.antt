-- ===== src/Registry/Unique.antt =====
-- src/ard_ossie/registry.py: the immutable identity rules as an invariant of every run.
use ard_ossie_provider.Prelude.{
  ◌≡◌, false, some, List, [], ◌∷◌, String, any, arith, inl, inr, eq_iff,
}
use ard_ossie_provider.Prelude.Dict.{get, put, values, get-put, any-values-get}
use ard_ossie_provider.Models.{ProductRecord, TableRecord}
use ard_ossie_provider.Models.Locator.{key}
use ard_ossie_provider.Registry.{
  Registry, new_registry, takes_key, takes_locator, write_product, write_table, write_changeset,
  Call, product_call, table_call, mappings_call, changeset_call, call, state_after, run,
}
use ard_ossie_provider.Registry.Outcomes.{
  write_product-cases, write_table-cases, write_mappings-cases,
}

-- Every record stands under its own identifier, no two products share a key, and no two tables
-- share a locator.
pub record HasUniqueNames (r : Registry) : Type 0 where
  pub own_product : (k : String) (p : ProductRecord) → get r.products k ≡ some p → p.product_id ≡ k
  pub own_table : (k : String) (t : TableRecord) → get r.tables k ≡ some t → t.table_id ≡ k
  pub product_keys :
      (j k : String) (p q : ProductRecord)
      → get r.products j ≡ some p
      → get r.products k ≡ some q
      → p.product_key ≡ q.product_key
      → j ≡ k
  pub locators :
      (j k : String) (t u : TableRecord)
      → get r.tables j ≡ some t
      → get r.tables k ≡ some u
      → key t.locator ≡ key u.locator
      → j ≡ k

module _ (r : Registry) (h : HasUniqueNames r) (p : ProductRecord) where
  -- after a successful write the key belongs to the written record alone
  free_key :
      (k : String) (q : ProductRecord)
      → any (takes_key p) (values r.products) ≡ false
      → get r.products k ≡ some q
      → q.product_key ≡ p.product_key
      → k ≡ p.product_id
  free_key k q free found same = ground (
    arith,
    any-values-get (takes_key p) r.products k q free found,
    h.own_product k q found,
    eq_iff q.product_id p.product_id,
    eq_iff q.product_key p.product_key,
  )

  put_product-HasUniqueNames :
      any (takes_key p) (values r.products) ≡ false
      → HasUniqueNames (record r { products = put r.products p.product_id p })
  put_product-HasUniqueNames free = record {
    own_product = λ k q e.
        ground
          (arith, get-put r.products p.product_id k p, h.own_product k q, eq_iff p.product_id k, e);
    own_table = h.own_table;
    product_keys = λ j k a b ea eb same. ground (
      arith,
      ea,
      eb,
      same,
      get-put r.products p.product_id j p,
      get-put r.products p.product_id k p,
      eq_iff p.product_id j,
      eq_iff p.product_id k,
      h.product_keys j k a b,
      free_key j a free,
      free_key k b free,
    );
    locators = h.locators;
  }

  write_product-HasUniqueNames : HasUniqueNames (state_after r (write_product r p))
  write_product-HasUniqueNames = elim (write_product-cases r p) [
    | inl (e, raised) ↦ rw raised h
    | inr w ↦ rw w.wrote (put_product-HasUniqueNames w.free)
  ]

module _ (r : Registry) (h : HasUniqueNames r) (t : TableRecord) where
  -- after a successful write the locator belongs to the written record alone
  free_locator :
      (k : String) (u : TableRecord)
      → any (takes_locator t) (values r.tables) ≡ false
      → get r.tables k ≡ some u
      → key u.locator ≡ key t.locator
      → k ≡ t.table_id
  free_locator k u free found same = ground (
    arith,
    any-values-get (takes_locator t) r.tables k u free found,
    h.own_table k u found,
    eq_iff u.table_id t.table_id,
    eq_iff (key u.locator) (key t.locator),
  )

  put_table-HasUniqueNames :
      any (takes_locator t) (values r.tables) ≡ false
      → HasUniqueNames (record r { tables = put r.tables t.table_id t })
  put_table-HasUniqueNames free = record {
    own_product = h.own_product;
    own_table = λ k u e.
        ground (arith, get-put r.tables t.table_id k t, h.own_table k u, eq_iff t.table_id k, e);
    product_keys = h.product_keys;
    locators = λ j k a b ea eb same. ground (
      arith,
      ea,
      eb,
      same,
      get-put r.tables t.table_id j t,
      get-put r.tables t.table_id k t,
      eq_iff t.table_id j,
      eq_iff t.table_id k,
      h.locators j k a b,
      free_locator j a free,
      free_locator k b free,
    );
  }

  write_table-HasUniqueNames : HasUniqueNames (state_after r (write_table r t))
  write_table-HasUniqueNames = elim (write_table-cases r t) [
    | inl (e, raised) ↦ rw raised h
    | inr w ↦ rw w.wrote (put_table-HasUniqueNames w.free)
  ]

call-HasUniqueNames :
    (r : Registry) (c : Call) → HasUniqueNames r → HasUniqueNames (state_after r (call r c))
unfolding call write_changeset
call-HasUniqueNames r (product_call p) h = write_product-HasUniqueNames r h p
call-HasUniqueNames r (table_call t) h = write_table-HasUniqueNames r h t
call-HasUniqueNames r (mappings_call id ms) h = elim (write_mappings-cases r id ms) [
  | inl (e, raised) ↦ rw raised h
  | inr w ↦ rw w.wrote (record {
    own_product = h.own_product;
    own_table = h.own_table;
    product_keys = h.product_keys;
    locators = h.locators;
  })
]
call-HasUniqueNames r (changeset_call c) h = record {
  own_product = h.own_product;
  own_table = h.own_table;
  product_keys = h.product_keys;
  locators = h.locators;
}

-- Whatever methods are called with whatever records, and whichever of the calls raise, every record
-- stands under its own identifier and no two products share a key nor two tables a locator.
pub run-HasUniqueNames :
    (r : Registry) (cs : List Call) → HasUniqueNames r → HasUniqueNames (run r cs)
unfolding run
run-HasUniqueNames r [] h = h
run-HasUniqueNames r (c ∷ cs) h =
    run-HasUniqueNames (state_after r (call r c)) cs (call-HasUniqueNames r c h)

pub new_registry-HasUniqueNames : HasUniqueNames new_registry
unfolding get
new_registry-HasUniqueNames = record {
  own_product = λ k p e. cc;
  own_table = λ k t e. cc;
  product_keys = λ j k p q e f s. cc;
  locators = λ j k t u e f s. cc;
}
