-- ===== src/Detection/Expansion.antt =====
-- src/ard_ossie/application/release_detection.py: the expansion of the changesets, and the result.
use ard_ossie_provider.Prelude.{
  Bool, true, false, not, ◌&&◌, ◌||◌, Option, none, some, List, [], ◌∷◌, ◌++◌, String, ltb,
  if◌then◌else◌, keep, raise_if, Result, ok, err, ◌>>=◌,
}
use ard_ossie_provider.Prelude.Text.{str_eq, contains}
use ard_ossie_provider.Prelude.Sets.{sorted_set}
use ard_ossie_provider.Prelude.Dict.{Dict, get}
use ard_ossie_provider.Models.{ProductRecord}
use ard_ossie_provider.Impact.{ChangeSetRecord, ProductReadiness, ready, blocked, status}
use ard_ossie_provider.Registry.{Registry, load, get_product, get_changeset}
use ard_ossie_provider.Registry.Files.{Disk}
use ard_ossie_provider.Detection.{
  DetectionError, repository_mismatch, head_mismatch, registry_invalid, changeset_not_found,
  changeset_reference_missing, changeset_version_not_current, Request, Ports, success, noop,
  WorkflowResult, require_table, visit_paths,
}

-- the checks of one required product: its key, and whether it is ready at a later version
unfoldable pub check_required :
    String → Option ProductReadiness → Option ProductRecord → Result DetectionError (String × Bool)
check_required id none _ = err (changeset_reference_missing id)
check_required id (some readiness) none = err (changeset_reference_missing id)
check_required id (some readiness) (some p) =
    if ltb readiness.version p.version
    then err (changeset_version_not_current id readiness.version p.version)
    else ok (p.product_key, ltb p.version readiness.version)

-- the loop over `changeset.required_product_ids`
unfoldable pub resolve_required :
    Registry → Dict ProductReadiness → List String → Result DetectionError (List String × Bool)
unfolding check_required get
resolve_required r ready_products [] = ok ([], false)
resolve_required r ready_products (id ∷ ids) = do
  first ← check_required id (get ready_products id) (get_product r id)
  rest ← resolve_required r ready_products ids
  ok (first.0 ∷ rest.0, first.1 || rest.1)

unfoldable pub require_tables : Registry → List String → Result DetectionError (Unit {0})
unfolding require_table
require_tables r [] = ok tt
require_tables r (id ∷ ids) = do _ ← require_table r id; require_tables r ids

-- the sets that the expansion fills, `expanded_products`, `table_ids` and `deferred_table_ids`
pub record Expanded : Type 0 where
  pub products : List String
  pub tables : List String
  pub deferred : List String

-- `deferred_table_ids.update(changeset.table_ids)`
abbrev pub postponed : ChangeSetRecord → Expanded → Expanded
postponed c e = record e { deferred = c.table_ids ++ e.deferred }

-- the keys of the products and the tables of the changeset are added
abbrev pub enlarged : ChangeSetRecord → List String → Expanded → Expanded
enlarged c product_keys e = record e {
  products = product_keys ++ e.products;
  tables = c.table_ids ++ e.tables;
}

-- from `if has_future_version` on
unfoldable pub expanded_or :
    Registry → ChangeSetRecord → List String → Expanded → Bool → Result DetectionError Expanded
unfolding require_tables
expanded_or r c product_keys e true = ok (postponed c e)
expanded_or r c product_keys e false = do
  _ ← require_tables r c.table_ids
  ok (enlarged c product_keys e)

-- `_expand_changeset`, and the caller's update where it expands nothing
unfoldable pub expand_changeset :
    Registry → ChangeSetRecord → Expanded → Result DetectionError Expanded
unfolding resolve_required expanded_or
expand_changeset r c e = do
  resolved ← resolve_required r c.ready_products c.required_product_ids
  expanded_or r c resolved.0 e resolved.1

abbrev pub is_blocked : ChangeSetRecord → Bool
is_blocked c = elim (status c) [ ready ↦ false | blocked ↦ true ]

-- one round of the loop over the sorted identifiers
unfoldable pub visit_id : Registry → String → Expanded → Result DetectionError Expanded
unfolding expand_changeset get
visit_id r id e = elim (get_changeset r id) [
  | none ↦ err (changeset_not_found id)
  | some c ↦ if is_blocked c then ok e else expand_changeset r c e
]

unfoldable pub visit_ids : Registry → List String → Expanded → Result DetectionError Expanded
unfolding visit_id
visit_ids r [] e = ok e
visit_ids r (id ∷ ids) e = do e' ← visit_id r id e; visit_ids r ids e'

-- `table_ids.difference_update(deferred_table_ids)`
abbrev pub released_tables : Expanded → List String
released_tables e = keep (λ t. not (contains e.deferred t)) e.tables

abbrev pub is_empty : List String → Bool
is_empty [] = true
is_empty (_ ∷ _) = false

unfoldable pub result_of : Ports → Request → Expanded → WorkflowResult
unfolding sorted_set
result_of ports request e = record {
  status = if is_empty e.products && is_empty (released_tables e) then noop else success;
  before = request.before;
  current = request.current;
  merge_base = ports.merge_base;
  products = sorted_set e.products;
  tables = sorted_set (released_tables e);
}

abbrev pub loaded : Option Disk → Result DetectionError Registry
loaded none = err registry_invalid
loaded (some d) = ok (load d)

-- `ReleaseDetectionService.run`; the repository of the request is already resolved
unfoldable pub run : Ports → Request → Result DetectionError WorkflowResult
unfolding load visit_paths visit_ids sorted_set result_of
run ports request = do
  _ ← raise_if (not (str_eq request.repository ports.root)) repository_mismatch
  _ ← raise_if (not (str_eq ports.current_sha request.current)) head_mismatch
  r ← loaded ports.registry
  found ←
      visit_paths ports r ports.changed_paths (record { direct = []; changesets = []; tables = [] })
  e ←
      visit_ids r (sorted_set found.changesets)
        (record { products = found.direct; tables = found.tables; deferred = [] })
  ok (result_of ports request e)
