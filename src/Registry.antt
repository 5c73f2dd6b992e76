-- ===== src/Registry.antt =====
-- src/ard_ossie/registry.py: `class Registry`. A method that writes returns the files it replaces,
-- in order, and the new state; a method that raises does so before its first write.
pub mod Files
pub mod Outcomes
pub mod Unique
pub mod Retired
pub mod Reload
pub mod Crash
pub mod Admission
mod Tests
use Prim.Native.String.{◌++◌}
use ard_ossie_provider.Prelude.{
  ℕ, ◌≡◌, Bool, true, false, not, ◌&&◌, ◌||◌, Option, none, some, List, [], ◌∷◌, map, String, ◌==◌,
  if◌then◌else◌, find_first, Result, ok, err, ◌>>=◌,
}
use ard_ossie_provider.Prelude.Text.{str_eq, contains}
use ard_ossie_provider.Prelude.Sorting.{sort_by}
use ard_ossie_provider.Prelude.Dict.{Dict, get, put, values, has}
use ard_ossie_provider.Prelude.Reindex.{index_from, put_all}
use ard_ossie_provider.Models.{
  ProductRecord, TableRecord, ProductTableRef, EntityStatus, is_active, is_retired,
}
use ard_ossie_provider.Models.Locator.{key}
use ard_ossie_provider.Impact.{ChangeSetRecord}
use Files.{
  Disk, Write, product_file, table_file, mapping_file, changeset_file, product_keys_file,
  table_locators_file,
}

pub record Registry : Type 0 where
  pub products : Dict ProductRecord
  pub tables : Dict TableRecord
  pub mappings : Dict (List ProductTableRef)
  pub changesets : Dict ChangeSetRecord

-- `Registry(root)`
abbrev pub new_registry : Registry
new_registry = record { products = []; tables = []; mappings = []; changesets = [] }

pub data IdentityConflict : Type 0 where
  retired_id_reuse : String → IdentityConflict
  product_key_conflict table_locator_conflict : String → String → IdentityConflict
  mapping_product_not_found mapping_table_not_found : String → IdentityConflict
  mapping_table_version_mismatch : String → IdentityConflict
  mapping_product_mismatch : String → String → IdentityConflict

-- the files of a directory in the order of `sorted(directory.glob("*.json"))`
abbrev pub by_name {ℓ} : {V : Type ℓ} → Dict V → Dict V
by_name files = sort_by (λ f. f.0 ++ ".json") files

-- `{record.id: record for record in records}`
abbrev pub index_by {ℓ} : {V : Type ℓ} → (V → String) → List V → Dict V
index_by id records = index_from id [] records

-- `Registry.load`
unfoldable pub load : Disk → Registry
unfolding index_from put_all sort_by
load d = record {
  products = index_by (λ (p : ProductRecord). p.product_id) (values (by_name d.products));
  tables = index_by (λ (t : TableRecord). t.table_id) (values (by_name d.tables));
  mappings = put_all [] (by_name d.mappings);
  changesets = index_by (λ (c : ChangeSetRecord). c.changeset_id) (values (by_name d.changesets));
}

abbrev pub get_product : Registry → String → Option ProductRecord
get_product r id = get r.products id

abbrev pub get_table : Registry → String → Option TableRecord
get_table r id = get r.tables id

abbrev pub get_changeset : Registry → String → Option ChangeSetRecord
get_changeset r id = get r.changesets id

abbrev entry_key {ℓ} : {V : Type ℓ} → String × V → String
entry_key e = e.0

-- `products()`, `tables()` and `mappings()`: in the order of the sorted keys
unfoldable pub products : Registry → List ProductRecord
products r = values (sort_by entry_key r.products)

unfoldable pub tables : Registry → List TableRecord
tables r = values (sort_by entry_key r.tables)

abbrev concat {ℓ} : {A : Type ℓ} → List (List A) → List A
concat [] = []
concat ([] ∷ xss) = concat xss
concat ((x ∷ xs) ∷ xss) = x ∷ concat (xs ∷ xss)

unfoldable pub mappings : Registry → List ProductTableRef
mappings r = concat (values (sort_by entry_key r.mappings))

-- `{name(x): id(x) for x in xs}`
index_names : {A : Type 0} → (A → String) → (A → String) → Dict String → List A → Dict String
index_names name id d [] = d
index_names name id d (x ∷ xs) = index_names name id (put d (name x) (id x)) xs

-- the dictionary comprehensions of `_write_indexes`
pub product_index : Registry → Dict String
unfolding index_names put sort_by
product_index r =
    index_names (λ (p : ProductRecord). p.product_key) (λ (p : ProductRecord). p.product_id) []
      (sort_by (λ (p : ProductRecord). p.product_key) (values r.products))

pub table_index : Registry → Dict String
unfolding index_names put sort_by
table_index r =
    index_names (λ (t : TableRecord). key t.locator) (λ (t : TableRecord). t.table_id) []
      (sort_by (λ (t : TableRecord). key t.locator) (values r.tables))

pub write_indexes : Registry → List Write
unfolding product_index table_index
write_indexes r = product_keys_file (product_index r) ∷ table_locators_file (table_index r) ∷ []

-- `previous` is retired and the record is active
abbrev pub returns : EntityStatus → EntityStatus → Bool
returns previous status = is_retired previous && is_active status

abbrev pub product_returns : Option ProductRecord → ProductRecord → Bool
product_returns none p = false
product_returns (some previous) p = returns previous.status p.status

-- another product that has the key, or has it among its aliases
abbrev pub takes_key : ProductRecord → ProductRecord → Bool
takes_key p item =
    not (str_eq item.product_id p.product_id)
    && (str_eq item.product_key p.product_key || contains item.aliases p.product_key)

store_product :
    Registry
    → ProductRecord
    → Option ProductRecord
    → Result IdentityConflict (List Write × Registry)
unfolding write_indexes
store_product r p (some conflicting) =
    err (product_key_conflict p.product_key conflicting.product_id)
store_product r p none =
    let r' = record r { products = put r.products p.product_id p } in
    ok (product_file p.product_id p ∷ write_indexes r', r')

unfoldable pub write_product :
    Registry → ProductRecord → Result IdentityConflict (List Write × Registry)
unfolding store_product
write_product r p =
    if product_returns (get r.products p.product_id) p
    then err (retired_id_reuse p.product_id)
    else store_product r p (find_first (takes_key p) (values r.products))

abbrev pub table_returns : Option TableRecord → TableRecord → Bool
table_returns none t = false
table_returns (some previous) t = returns previous.status t.status

-- another table at the locator
abbrev pub takes_locator : TableRecord → TableRecord → Bool
takes_locator t item =
    not (str_eq item.table_id t.table_id) && str_eq (key item.locator) (key t.locator)

store_table :
    Registry → TableRecord → Option TableRecord → Result IdentityConflict (List Write × Registry)
unfolding write_indexes
store_table r t (some conflicting) =
    err (table_locator_conflict (key t.locator) conflicting.table_id)
store_table r t none =
    let r' = record r { tables = put r.tables t.table_id t } in
    ok (table_file t.table_id t ∷ write_indexes r', r')

unfoldable pub write_table :
    Registry → TableRecord → Result IdentityConflict (List Write × Registry)
unfolding store_table
write_table r t =
    if table_returns (get r.tables t.table_id) t
    then err (retired_id_reuse t.table_id)
    else store_table r t (find_first (takes_locator t) (values r.tables))

check_table_version : ProductTableRef → Option TableRecord → Result IdentityConflict (Unit {0})
check_table_version m none = err (mapping_table_not_found m.table_id)
check_table_version m (some t) =
    if m.table_version == t.version then ok tt else err (mapping_table_version_mismatch m.table_id)

-- one round of the loop over the sorted records
pub check_mapping : Registry → String → ProductTableRef → Result IdentityConflict (Unit {0})
unfolding check_table_version
check_mapping r product_id m =
    if str_eq m.product_id product_id
    then check_table_version m (get r.tables m.table_id)
    else err (mapping_product_mismatch m.product_id product_id)

pub check_mappings : Registry → String → List ProductTableRef → Result IdentityConflict (Unit {0})
unfolding check_mapping
check_mappings r product_id [] = ok tt
check_mappings r product_id (m ∷ ms) = do
  _ ← check_mapping r product_id m
  check_mappings r product_id ms

unfoldable pub write_mappings :
    Registry → String → List ProductTableRef → Result IdentityConflict (List Write × Registry)
unfolding check_mappings
write_mappings r product_id ms =
    let records = sort_by (λ (m : ProductTableRef). m.link_id) ms in
    if has r.products product_id
    then (do
      _ ← check_mappings r product_id records
      ok (
        mapping_file product_id records ∷ [],
        record r { mappings = put r.mappings product_id records },
      ))
    else err (mapping_product_not_found product_id)

unfoldable pub write_changeset :
    Registry → ChangeSetRecord → Result IdentityConflict (List Write × Registry)
write_changeset r c = ok (
  changeset_file c.changeset_id c ∷ [],
  record r { changesets = put r.changesets c.changeset_id c },
)

-- a call of one of the writing methods
pub data Call : Type 0 where
  product_call : ProductRecord → Call
  table_call : TableRecord → Call
  mappings_call : String → List ProductTableRef → Call
  changeset_call : ChangeSetRecord → Call

unfoldable pub call : Registry → Call → Result IdentityConflict (List Write × Registry)
call r (product_call p) = write_product r p
call r (table_call t) = write_table r t
call r (mappings_call product_id ms) = write_mappings r product_id ms
call r (changeset_call c) = write_changeset r c

-- the state after a call; one that raises leaves it as it was
abbrev pub state_after : Registry → Result IdentityConflict (List Write × Registry) → Registry
state_after r (ok (ws, r')) = r'
state_after r (err e) = r

unfoldable pub run : Registry → List Call → Registry
unfolding call
run r [] = r
run r (c ∷ cs) = run (state_after r (call r c)) cs
