-- ===== src/Registry/Reload.antt =====
-- src/ard_ossie/registry.py: what `Registry.load` reads back after any calls.
use ard_ossie_provider.Prelude.{◌≡◌, sym, ◌∙◌, true, List, String, all, arith}
use ard_ossie_provider.Prelude.Dict.{Dict, get, put, get-put}
use ard_ossie_provider.Prelude.Reindex.{
  HasNodupKeys, put-HasNodupKeys, is_own, put-is_own, get_reindexed, get_restored,
}
use ard_ossie_provider.Models.{ProductRecord, TableRecord, ProductTableRef}
use ard_ossie_provider.Impact.{ChangeSetRecord}
use ard_ossie_provider.Registry.{Registry, load}
use ard_ossie_provider.Registry.Files.{Disk}
use ard_ossie_provider.Registry.Outcomes.{with_product, with_table}

-- two registries answer every lookup alike
pub record SameRecords (r s : Registry) : Type 0 where
  pub products : (k : String) → get r.products k ≡ get s.products k
  pub tables : (k : String) → get r.tables k ≡ get s.tables k
  pub mappings : (k : String) → get r.mappings k ≡ get s.mappings k
  pub changesets : (k : String) → get r.changesets k ≡ get s.changesets k

-- the files hold what the registry holds
pub record Mirrors (r : Registry) (d : Disk) : Type 0 where
  pub products : (k : String) → get r.products k ≡ get d.products k
  pub tables : (k : String) → get r.tables k ≡ get d.tables k
  pub mappings : (k : String) → get r.mappings k ≡ get d.mappings k
  pub changesets : (k : String) → get r.changesets k ≡ get d.changesets k

abbrev pub product_id : ProductRecord → String
product_id p = p.product_id

abbrev pub table_id : TableRecord → String
table_id t = t.table_id

abbrev pub changeset_id : ChangeSetRecord → String
changeset_id c = c.changeset_id

-- a directory has no two files of one name, and a record's file has its identifier for a name
pub record IsFiled (d : Disk) : Type 0 where
  pub products : HasNodupKeys d.products
  pub tables : HasNodupKeys d.tables
  pub mappings : HasNodupKeys d.mappings
  pub changesets : HasNodupKeys d.changesets
  pub own_products : all (is_own product_id) d.products ≡ true
  pub own_tables : all (is_own table_id) d.tables ≡ true
  pub own_changesets : all (is_own changeset_id) d.changesets ≡ true

-- `load` reads every file back under its own identifier.
pub load-Mirrors : (d : Disk) → IsFiled d → Mirrors (load d) d
unfolding load
load-Mirrors d f = record {
  products = λ k. get_reindexed product_id _ d.products k f.products f.own_products;
  tables = λ k. get_reindexed table_id _ d.tables k f.tables f.own_tables;
  mappings = λ k. get_restored _ d.mappings k f.mappings;
  changesets = λ k. get_reindexed changeset_id _ d.changesets k f.changesets f.own_changesets;
}

pub load-SameRecords : (r : Registry) (d : Disk) → IsFiled d → Mirrors r d → SameRecords (load d) r
load-SameRecords r d f m =
    let l = load-Mirrors d f in
    record {
      products = λ k. l.products k ∙ sym (m.products k);
      tables = λ k. l.tables k ∙ sym (m.tables k);
      mappings = λ k. l.mappings k ∙ sym (m.mappings k);
      changesets = λ k. l.changesets k ∙ sym (m.changesets k);
    }

-- the files and the state after one call agree
abbrev pub InStep : Registry → Disk → Type 0
InStep r d = IsFiled d × Mirrors r d

put_alike {ℓ} :
    {V : Type ℓ} (a b : Dict V) (k : String) (v : V)
    → ((j : String) → get a j ≡ get b j)
    → (j : String) → get (put a k v) j ≡ get (put b k v) j
put_alike a b k v e j = ground (arith, get-put a k j v, get-put b k j v, e j)

module _ (r : Registry) (d : Disk) (s : InStep r d) where
  pub product_file-InStep :
      (p : ProductRecord)
      → InStep (with_product r p) (record d { products = put d.products p.product_id p })
  product_file-InStep p = (
    record {
      products = put-HasNodupKeys d.products p.product_id p s.0.products;
      tables = s.0.tables;
      mappings = s.0.mappings;
      changesets = s.0.changesets;
      own_products = put-is_own product_id d.products p s.0.own_products;
      own_tables = s.0.own_tables;
      own_changesets = s.0.own_changesets;
    },
    record {
      products = put_alike r.products d.products p.product_id p s.1.products;
      tables = s.1.tables;
      mappings = s.1.mappings;
      changesets = s.1.changesets;
    },
  )

  pub table_file-InStep :
      (t : TableRecord) → InStep (with_table r t) (record d { tables = put d.tables t.table_id t })
  table_file-InStep t = (
    record {
      products = s.0.products;
      tables = put-HasNodupKeys d.tables t.table_id t s.0.tables;
      mappings = s.0.mappings;
      changesets = s.0.changesets;
      own_products = s.0.own_products;
      own_tables = put-is_own table_id d.tables t s.0.own_tables;
      own_changesets = s.0.own_changesets;
    },
    record {
      products = s.1.products;
      tables = put_alike r.tables d.tables t.table_id t s.1.tables;
      mappings = s.1.mappings;
      changesets = s.1.changesets;
    },
  )

  pub mapping_file-InStep :
      (id : String) (ms : List ProductTableRef)
      → InStep
          (record r { mappings = put r.mappings id ms })
          (record d { mappings = put d.mappings id ms })
  mapping_file-InStep id ms = (
    record {
      products = s.0.products;
      tables = s.0.tables;
      mappings = put-HasNodupKeys d.mappings id ms s.0.mappings;
      changesets = s.0.changesets;
      own_products = s.0.own_products;
      own_tables = s.0.own_tables;
      own_changesets = s.0.own_changesets;
    },
    record {
      products = s.1.products;
      tables = s.1.tables;
      mappings = put_alike r.mappings d.mappings id ms s.1.mappings;
      changesets = s.1.changesets;
    },
  )

  pub changeset_file-InStep :
      (c : ChangeSetRecord)
      → InStep
          (record r { changesets = put r.changesets c.changeset_id c })
          (record d { changesets = put d.changesets c.changeset_id c })
  changeset_file-InStep c = (
    record {
      products = s.0.products;
      tables = s.0.tables;
      mappings = s.0.mappings;
      changesets = put-HasNodupKeys d.changesets c.changeset_id c s.0.changesets;
      own_products = s.0.own_products;
      own_tables = s.0.own_tables;
      own_changesets = put-is_own changeset_id d.changesets c s.0.own_changesets;
    },
    record {
      products = s.1.products;
      tables = s.1.tables;
      mappings = s.1.mappings;
      changesets = put_alike r.changesets d.changesets c.changeset_id c s.1.changesets;
    },
  )
