-- ===== src/Release/Resolve.antt =====
-- src/ard_ossie/release.py: `resolve_release_plan`, from the Registry's files and the product's.
use ard_ossie_provider.Prelude.{
  ℕ, Bool, true, false, not, Option, none, some, List, [], ◌∷◌, String, ◌==◌, if◌then◌else◌,
  find_first, keep, raise_if, Result, ok, err, ◌>>=◌,
}
use ard_ossie_provider.Prelude.Text.{given, str_eq, contains, opt_str_eq}
use ard_ossie_provider.Prelude.Dict.{Dict, get, keys}
use ard_ossie_provider.Models.{ProductRecord, TableRecord, ProductTableRef}
use ard_ossie_provider.Impact.{ChangeSetRecord, ProductReadiness}
use ard_ossie_provider.Registry.{
  Registry, load, get_product, get_table, get_changeset, products, mappings,
}
use ard_ossie_provider.Registry.Files.{Disk}
use ard_ossie_provider.Release.{
  ReleaseBlocked, QualityReport, product_not_found, table_version_mismatch, quality_report_missing,
  quality_report_product_mismatch, quality_report_version_mismatch, changeset_not_found,
  changeset_version_not_current, yaml_error, ReleasePlan, build_release_plan,
}
use ard_ossie_provider.Release.Snapshots.{
  Node, file, snapshot_release_entries, require_release_snapshot_entries, verify_release_snapshots,
}
use ard_ossie_provider.Release.Gates.{FidelityReport, ValidationReport}
use ard_ossie_provider.Release.Bundle.{parsed_quality, item, verify_reports}

-- the product with the identifier, else the first with it as its key
unfoldable pub find_product : Registry → String → Result ReleaseBlocked ProductRecord
unfolding get products
find_product r identifier = elim (get_product r identifier) [
  | some p ↦ ok p
  | none ↦ elim (find_first (λ (p : ProductRecord). str_eq p.product_key identifier) (products r)) [
    | some p ↦ ok p
    | none ↦ err (product_not_found identifier)
  ]
]

-- `table_ids is not None and mapping.table_id not in table_ids`
abbrev pub is_left_out : Option (List String) → String → Bool
is_left_out none id = false
is_left_out (some ids) id = not (contains ids id)

-- the table of a mapping, at the version of the mapping
unfoldable pub mapped_table :
    ProductTableRef → Option TableRecord → Result ReleaseBlocked TableRecord
mapped_table m none = err (table_version_mismatch m.table_id)
mapped_table m (some t) =
    if t.version == m.table_version then ok t else err (table_version_mismatch m.table_id)

unfoldable pub resolve_tables :
    Registry
    → Option (List String)
    → List ProductTableRef
    → Result ReleaseBlocked (List TableRecord)
unfolding mapped_table get
resolve_tables r table_ids [] = ok []
resolve_tables r table_ids (m ∷ ms) =
    let rest = resolve_tables r table_ids ms in
    if is_left_out table_ids m.table_id
    then rest
    else (do t ← mapped_table m (get_table r m.table_id); ts ← rest; ok (t ∷ ts))

unfoldable pub find_changeset :
    Registry → Option String → Result ReleaseBlocked (Option ChangeSetRecord)
unfolding get
find_changeset r id = elim (given id) [
  | none ↦ ok none
  | some id ↦ elim (get_changeset r id) [
    | none ↦ err (changeset_not_found id)
    | some c ↦ ok (some c)
  ]
]

abbrev pub at_version : Option ProductRecord → ℕ → Bool
at_version none n = false
at_version (some p) n = p.version == n

unfoldable pub check_current :
    Registry → String → Option ProductReadiness → Result ReleaseBlocked (Unit {0})
unfolding get
check_current r id none = ok tt
check_current r id (some readiness) =
    if at_version (get_product r id) readiness.version
    then ok tt
    else err (changeset_version_not_current id readiness.version)

-- the loop over `changeset.required_product_ids`
unfoldable pub check_readiness :
    Registry → Dict ProductReadiness → List String → Result ReleaseBlocked (Unit {0})
unfolding check_current get
check_readiness r ready_products [] = ok tt
check_readiness r ready_products (id ∷ ids) = do
  _ ← check_current r id (get ready_products id)
  check_readiness r ready_products ids

unfoldable pub check_changeset :
    Registry → Option ChangeSetRecord → Result ReleaseBlocked (Unit {0})
unfolding check_readiness
check_changeset r none = ok tt
check_changeset r (some c) = check_readiness r c.ready_products c.required_product_ids

abbrev pub is_at : QualityReport → ℕ → Bool
is_at q n = elim q.product_version [ none ↦ false | some v ↦ v == n ]

-- the quality report is of the product, and of its version
unfoldable pub check_quality : QualityReport → ProductRecord → Result ReleaseBlocked (Unit {0})
check_quality q p =
    if opt_str_eq q.product_id (some p.product_id)
    then (if is_at q p.version then ok tt else err quality_report_version_mismatch)
    else err quality_report_product_mismatch

abbrev pub is_file : {Bytes : Type 0} → Option (Node Bytes) → Bool
is_file (some (file _)) = true
is_file _ = false

-- `yaml_changeset` gives the entry `changeset_id` of a YAML mapping, or nothing of a malformed text
unfoldable pub read_changeset_id :
    {Bytes : Type 0}
    → (Bytes → Option (Option String))
    → Option (Node Bytes)
    → Result ReleaseBlocked (Option String)
read_changeset_id yaml_changeset (some (file bytes)) = elim (yaml_changeset bytes) [
  | none ↦ err yaml_error
  | some id ↦ ok id
]
read_changeset_id yaml_changeset _ = ok none

module _ {Bytes Coverage : Type 0} (sha256 : Bytes → String) (below_one : Coverage → Bool)
    (parse_quality : Bytes → Option QualityReport)
    (parse_fidelity : Bytes → Option (FidelityReport Coverage))
    (parse_validation : Bytes → Option ValidationReport)
    (yaml_changeset : Bytes → Option (Option String)) where
  -- from the check of the entries on
  unfoldable pub gated_plan :
      ProductRecord
      → List TableRecord
      → Option ChangeSetRecord
      → Dict Bytes
      → QualityReport
      → Result ReleaseBlocked ReleasePlan
  unfolding require_release_snapshot_entries verify_release_snapshots verify_reports
      build_release_plan
  gated_plan p tables changeset snapshots quality = do
    _ ← require_release_snapshot_entries (keys snapshots)
    hashes ← verify_release_snapshots sha256 snapshots quality
    _ ← verify_reports below_one parse_quality parse_fidelity parse_validation snapshots
    build_release_plan p tables changeset (some quality) hashes

  -- from the quality report on
  unfoldable pub reported_plan :
      Registry
      → ProductRecord
      → List TableRecord
      → Dict (Node Bytes)
      → Dict Bytes
      → Result ReleaseBlocked ReleasePlan
  unfolding item check_quality read_changeset_id find_changeset check_changeset gated_plan get
  reported_plan r p tables root snapshots = do
    bytes ← item snapshots "quality/quality-report.json"
    quality ← parsed_quality (parse_quality bytes)
    _ ← check_quality quality p
    id ← read_changeset_id yaml_changeset (get root "product.yaml")
    changeset ← find_changeset r id
    _ ← check_changeset r changeset
    gated_plan p tables changeset snapshots quality

  -- from the product on
  unfoldable pub plan_of :
      Registry
      → ProductRecord
      → Dict (Node Bytes)
      → Option (List String)
      → Result ReleaseBlocked ReleasePlan
  unfolding mappings resolve_tables get snapshot_release_entries reported_plan
  plan_of r p root table_ids = do
    tables ←
        resolve_tables r table_ids
          (keep (λ (m : ProductTableRef). str_eq m.product_id p.product_id) (mappings r))
    _ ← raise_if (not (is_file (get root "quality/quality-report.json"))) quality_report_missing
    snapshots ← snapshot_release_entries root false
    reported_plan r p tables root snapshots

  -- `root_of` gives the files of `products/<product_key>`
  unfoldable pub resolve_release_plan :
      String
      → Disk
      → (String → Dict (Node Bytes))
      → Option (List String)
      → Result ReleaseBlocked ReleasePlan
  unfolding load find_product plan_of
  resolve_release_plan identifier disk root_of table_ids =
      let r = load disk in
      (do p ← find_product r identifier; plan_of r p (root_of p.product_key) table_ids)
