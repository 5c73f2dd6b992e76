-- ===== src/Identity.antt =====
-- src/ard_ossie/identity.py: whether a candidate product or table is new, known, or in conflict.
pub mod Products
pub mod Tables
mod Tests
use ard_ossie_provider.Prelude.{
  Bool, true, false, not, ◌&&◌, ◌||◌, Option, none, some, List, [], ◌∷◌, map, String, if◌then◌else◌,
  find_first, keep,
}
use ard_ossie_provider.Prelude.Text.{str_eq, contains, opt_str_eq}
use ard_ossie_provider.Prelude.Sorting.{sort_by}
use ard_ossie_provider.Prelude.Sets.{sorted_set}
use ard_ossie_provider.Models.{
  ProductRecord, TableRecord, EntityStatus, Operation, is_active, is_retired, is_create,
}
use ard_ossie_provider.Models.Locator.{key}

pub data DuplicateDecision : Type 0 where
  block create no_change reuse update warn : DuplicateDecision

-- the texts of `DuplicateReport.code`
pub data DuplicateCode : Type 0 where
  product_id_not_found retired_id_reuse product_id_key_conflict product_no_change : DuplicateCode
  product_update product_id_conflict product_key_conflict product_alias_conflict : DuplicateCode
  product_content_duplicate possible_duplicate product_create : DuplicateCode
  table_id_locator_conflict table_no_change table_update table_locator_reuse : DuplicateCode
  possible_clone table_create : DuplicateCode

pub data EntityType : Type 0 where
  product table : EntityType

-- `evidence` is the empty dictionary in every report of this module
pub record DuplicateReport : Type 0 where
  pub entity_type : EntityType
  pub decision : DuplicateDecision
  pub code : DuplicateCode
  pub target_id : Option String
  pub candidate_ids : List String

product_report : DuplicateDecision → DuplicateCode → Option String → List String → DuplicateReport
product_report decision code target_id candidate_ids = record {
  entity_type = product;
  decision = decision;
  code = code;
  target_id = target_id;
  candidate_ids = candidate_ids;
}

unfoldable pub table_report :
    DuplicateDecision → DuplicateCode → Option String → List String → DuplicateReport
table_report decision code target_id candidate_ids = record {
  entity_type = table;
  decision = decision;
  code = code;
  target_id = target_id;
  candidate_ids = candidate_ids;
}

-- `a is not None and a == b`
abbrev pub same_hash : Option String → Option String → Bool
same_hash none b = false
same_hash (some s) b = opt_str_eq (some s) b

abbrev pub has_id : ProductRecord → ProductRecord → Bool
has_id candidate p = str_eq p.product_id candidate.product_id

abbrev pub has_key : ProductRecord → ProductRecord → Bool
has_key candidate p = str_eq p.product_key candidate.product_key

abbrev pub has_alias : ProductRecord → ProductRecord → Bool
has_alias candidate p = contains p.aliases candidate.product_key

abbrev pub has_content : ProductRecord → ProductRecord → Bool
has_content candidate p = same_hash candidate.canonical_hash p.canonical_hash

-- the block of `if operation is not Operation.CREATE`
classify_known : ProductRecord → Option ProductRecord → DuplicateReport
unfolding product_report
classify_known candidate none = product_report block product_id_not_found none []
classify_known candidate (some p) =
    if is_retired p.status && is_active candidate.status
    then product_report block retired_id_reuse (some p.product_id) []
    else if not (str_eq candidate.product_key p.product_key)
    then product_report block product_id_key_conflict (some p.product_id) []
    else if opt_str_eq candidate.canonical_hash p.canonical_hash
    then product_report no_change product_no_change (some p.product_id) []
    else product_report update product_update (some p.product_id) []

-- the last tests, on the candidates of the semantic comparison
classify_semantic : List String → DuplicateReport
unfolding product_report
classify_semantic [] = product_report create product_create none []
classify_semantic (s ∷ ss) = product_report warn possible_duplicate none (s ∷ ss)

-- the report on a match, else the rest of the function
abbrev blocked_or : DuplicateCode → Option ProductRecord → DuplicateReport → DuplicateReport
blocked_or code none rest = rest
blocked_or code (some p) rest = record {
  entity_type = product;
  decision = block;
  code = code;
  target_id = some p.product_id;
  candidate_ids = [];
}

unfoldable pub classify_product :
    ProductRecord → List ProductRecord → Operation → List String → DuplicateReport
unfolding classify_known classify_semantic
classify_product candidate existing operation semantic_candidate_ids =
    let id_match = find_first (has_id candidate) existing in
    if is_create operation
    then blocked_or product_id_conflict id_match (
        blocked_or product_key_conflict (find_first (has_key candidate) existing) (
          blocked_or product_alias_conflict (find_first (has_alias candidate) existing) (
            blocked_or product_content_duplicate (find_first (has_content candidate) existing)
              (classify_semantic (sorted_set semantic_candidate_ids)))))
    else classify_known candidate id_match

abbrev pub has_table_id : TableRecord → TableRecord → Bool
has_table_id candidate t = str_eq t.table_id candidate.table_id

abbrev pub has_locator : TableRecord → TableRecord → Bool
has_locator candidate t = str_eq (key t.locator) (key candidate.locator)

abbrev pub has_schema : TableRecord → TableRecord → Bool
has_schema candidate t = same_hash candidate.schema_hash t.schema_hash

-- the block of `if id_match is not None`
unfoldable pub classify_known_table : TableRecord → TableRecord → DuplicateReport
unfolding table_report
classify_known_table candidate t =
    if is_retired t.status && is_active candidate.status
    then table_report block retired_id_reuse (some t.table_id) []
    else if not (str_eq (key t.locator) (key candidate.locator))
    then table_report block table_id_locator_conflict (some t.table_id) []
    else if opt_str_eq t.canonical_hash candidate.canonical_hash
    then table_report no_change table_no_change (some t.table_id) []
    else table_report update table_update (some t.table_id) []

-- the block of `if locator_match is not None`
unfoldable pub classify_located : TableRecord → DuplicateReport
unfolding table_report
classify_located t =
    if is_retired t.status
    then table_report block retired_id_reuse (some t.table_id) []
    else table_report reuse table_locator_reuse (some t.table_id) []

unfoldable pub classify_schema : List String → DuplicateReport
unfolding table_report
classify_schema [] = table_report create table_create none []
classify_schema (s ∷ ss) = table_report warn possible_clone none (s ∷ ss)

unfoldable pub schema_matches : TableRecord → List TableRecord → List String
schema_matches candidate existing =
    sort_by (λ s. s) (map (λ (t : TableRecord). t.table_id) (keep (has_schema candidate) existing))

-- after the lookup by identifier
unfoldable pub classify_unknown_table :
    TableRecord → List TableRecord → Option TableRecord → DuplicateReport
unfolding classify_located classify_schema schema_matches
classify_unknown_table candidate existing none = classify_schema (schema_matches candidate existing)
classify_unknown_table candidate existing (some t) = classify_located t

unfoldable pub classify_table_found :
    TableRecord → List TableRecord → Option TableRecord → DuplicateReport
unfolding classify_known_table classify_unknown_table
classify_table_found candidate existing none =
    classify_unknown_table candidate existing (find_first (has_locator candidate) existing)
classify_table_found candidate existing (some t) = classify_known_table candidate t

unfoldable pub classify_table : TableRecord → List TableRecord → DuplicateReport
unfolding classify_table_found
classify_table candidate existing =
    classify_table_found candidate existing (find_first (has_table_id candidate) existing)
