-- ===== src/Registry/Files.antt =====
-- src/ard_ossie/registry.py: the files under the Registry's root, each named by its stem. A file
-- holds what `model_dump` writes of a record; `_atomic_write_json` replaces one file whole.
use ard_ossie_provider.Prelude.{String, List, [], ◌∷◌}
use ard_ossie_provider.Prelude.Dict.{Dict, put}
use ard_ossie_provider.Models.{ProductRecord, TableRecord, ProductTableRef}
use ard_ossie_provider.Impact.{ChangeSetRecord}

pub record Disk : Type 0 where
  pub products : Dict ProductRecord
  pub tables : Dict TableRecord
  pub mappings : Dict (List ProductTableRef)
  pub changesets : Dict ChangeSetRecord
  pub product_keys : Dict String
  pub table_locators : Dict String

-- one call of `_atomic_write_json`, by the file that it replaces
pub data Write : Type 0 where
  product_file : String → ProductRecord → Write
  table_file : String → TableRecord → Write
  mapping_file : String → List ProductTableRef → Write
  changeset_file : String → ChangeSetRecord → Write
  product_keys_file table_locators_file : Dict String → Write

unfoldable pub write : Disk → Write → Disk
write d (product_file stem r) = record d { products = put d.products stem r }
write d (table_file stem r) = record d { tables = put d.tables stem r }
write d (mapping_file stem r) = record d { mappings = put d.mappings stem r }
write d (changeset_file stem r) = record d { changesets = put d.changesets stem r }
write d (product_keys_file index) = record d { product_keys = index }
write d (table_locators_file index) = record d { table_locators = index }

-- the writes of one call, in their order
unfoldable pub write_all : Disk → List Write → Disk
unfolding write
write_all d [] = d
write_all d (w ∷ ws) = write_all (write d w) ws

abbrev pub empty_disk : Disk
empty_disk = record {
  products = [];
  tables = [];
  mappings = [];
  changesets = [];
  product_keys = [];
  table_locators = [];
}
