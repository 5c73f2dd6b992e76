-- ===== src/Release/Tests.antt =====
-- Runs of src/ard_ossie/release.py, and its theorems at concrete inputs: files hold texts, the hash
-- of a text is the text, and an archive is the list of its entries.
use ard_ossie_provider.Prelude.{
  ◌≡◌, ◌↔◌, ◌⊎◌, refl, ap, Bool, true, false, Option, none, some, List, [], ◌∷◌, ◌++◌, String, ok,
  err,
}
use ard_ossie_provider.Prelude.Text.{str_leb}
use ard_ossie_provider.Prelude.Dict.{Dict}
use ard_ossie_provider.Prelude.Reindex.{HasNodupKeys}
use ard_ossie_provider.Models.{ProductRecord, active}
use ard_ossie_provider.Registry.{load}
use ard_ossie_provider.Registry.Files.{Disk, empty_disk}
use ard_ossie_provider.Release.{
  fidelity_gate_failed, missing_correction_pages, QualityReport, passed, ReleasePlan,
  generated_assets, required_quality_assets, verify_tag_target, tag_target_conflict, tag,
}
use ard_ossie_provider.Release.Snapshots.{
  Node, file, entry_name, snapshot_release_entries, verify_release_snapshots,
}
use ard_ossie_provider.Release.Gates.{
  FidelityReport, ValidationReport, ocr, applied, verify_fidelity, verify_fidelity_iff,
  reads_images, IsFaithfulText, IsFaithfulImages, PageAudit,
}
use ard_ossie_provider.Prelude.{ℕ}
use ard_ossie_provider.Prelude.Separated.{has_char}
use ard_ossie_provider.Release.Tags.{tag_injective}
use ard_ossie_provider.Release.Bundle.{build_release_bundle, verify_release_bundle}
use ard_ossie_provider.Release.Bundled.{IsBundleOf, verify_release_bundle_iff}
use ard_ossie_provider.Release.Archived.{readable}
use ard_ossie_provider.Release.RoundTrip.{bundle_verifies}
use ard_ossie_provider.Release.Resolve.{resolve_release_plan}
use ard_ossie_provider.Release.Current.{IsIdentified}
use ard_ossie_provider.Release.Resolved.{IsPlanOf, resolve_release_plan-IsPlanOf}

mutual
  data Blob : Type 0 where
    text : String → Blob
    zip : Entries → Blob

  data Entries : Type 0 where
    end : Entries
    entry : String → Blob → Entries → Entries

abbrev entries_of : Dict Blob → Entries
entries_of [] = end
entries_of ((name, blob) ∷ d) = entry name blob (entries_of d)

abbrev dict_of : Entries → Dict (Option Blob)
dict_of end = []
dict_of (entry name blob rest) = (name, some blob) ∷ dict_of rest

abbrev write_zip : Dict Blob → Blob
write_zip d = zip (entries_of d)

abbrev open_zip : Blob → Option (Dict (Option Blob))
open_zip (text _) = none
open_zip (zip entries) = some (dict_of entries)

entries_back : (d : Dict Blob) → dict_of (entries_of d) ≡ readable d
entries_back [] = refl
entries_back ((name, blob) ∷ d) = ap (λ r. (name, some blob) ∷ r) (entries_back d)

zip_law : (d : Dict Blob) → HasNodupKeys d → open_zip (write_zip d) ≡ some (readable d)
zip_law d h = ap some (entries_back d)

abbrev sha256 : Blob → String
sha256 (text s) = s
sha256 (zip _) = "zip"

abbrev below_one : Bool → Bool
below_one b = b

abbrev hashes_of : List String → Dict String
hashes_of [] = []
hashes_of (name ∷ names) = (name, name) ∷ hashes_of names

abbrev quality_siblings : List String
quality_siblings =
    "duplicate-report.json" ∷ "version-report.json" ∷ "impact-report.json" ∷ "llm-suggestions.json"
    ∷ "semantic-fidelity.json" ∷ []

abbrev quality : QualityReport
quality = record {
  status = passed;
  product_id = some "prd_1";
  product_version = some 3;
  hard_errors = [];
  artifact_hashes = hashes_of generated_assets;
  quality_artifact_hashes = hashes_of quality_siblings;
}

abbrev pages : List PageAudit
pages = record { page = 1; outcome = applied } ∷ record { page = 2; outcome = applied } ∷ []

abbrev fidelity : FidelityReport Bool
fidelity = record {
  status = passed;
  extraction_mode = ocr;
  page_count = 2;
  unmatched_span_count = 0;
  duplicated_span_count = 0;
  degraded_block_count = 0;
  source_text_coverage = false;
  ocr_corrections = pages;
  ocr_correction_rejected_count = 0;
  warning_codes = [];
}

abbrev parse_quality : Blob → Option QualityReport
parse_quality _ = some quality

abbrev parse_fidelity : Blob → Option (FidelityReport Bool)
parse_fidelity _ = some fidelity

abbrev parse_validation : Blob → Option ValidationReport
parse_validation _ = none

abbrev yaml_changeset : Blob → Option (Option String)
yaml_changeset _ = some none

abbrev files_in : String → List String → Dict (Node Blob)
files_in directory [] = []
files_in directory (name ∷ names) =
    (entry_name directory name, file (text name)) ∷ files_in directory names

abbrev root : Dict (Node Blob)
root = files_in "generated" generated_assets ++ files_in "quality" required_quality_assets

abbrev product : ProductRecord
product = record {
  product_id = "prd_1";
  product_key = "sales";
  version = 3;
  status = active;
  display_name = none;
  aliases = [];
  canonical_hash = none;
  metrics = [];
  relationships = [];
}

abbrev disk : Disk
disk = record empty_disk { products = ("prd_1", product) ∷ [] }

-- the third page was not audited
page_missing :
    verify_fidelity below_one (some (record fidelity { page_count = 3 })) false
    ≡ err (fidelity_gate_failed (missing_correction_pages (3 ∷ []) ∷ []))
unfolding verify_fidelity
page_missing = refl

verify_fidelity_iff_example : (verify_fidelity below_one (some fidelity) false ≡ ok fidelity) ↔ (
    (false ≡ true)
    ⊎ (IsFaithfulText below_one fidelity
        × ((reads_images fidelity.extraction_mode ≡ false) ⊎ IsFaithfulImages fidelity)))
verify_fidelity_iff_example = verify_fidelity_iff below_one fidelity false

tag_moved : verify_tag_target "t" "a" (some "b") ≡ err (tag_target_conflict "t" "b" "a")
unfolding verify_tag_target
tag_moved = refl

tag_text : tag "product" "prd_1" 103 ≡ "product/prd_1/v103"
unfolding tag
tag_text = refl

abbrev blobs_in : String → List String → Dict Blob
blobs_in directory [] = []
blobs_in directory (name ∷ names) =
    (entry_name directory name, text name) ∷ blobs_in directory names

abbrev hashes_in : String → List String → Dict String
hashes_in directory [] = []
hashes_in directory (name ∷ names) = (entry_name directory name, name) ∷ hashes_in directory names

abbrev snapshots : Dict Blob
snapshots =
    blobs_in "generated" (
      "data-dictionary.json" ∷ "data-product.md" ∷ "data-semantic.md" ∷ "ossie-model.json"
      ∷ "source-manifest.json" ∷ [])
    ++ blobs_in "quality" (
        "duplicate-report.json" ∷ "impact-report.json" ∷ "llm-suggestions.json"
        ∷ "quality-report.json" ∷ "semantic-fidelity.json" ∷ "version-report.json" ∷ [])

abbrev hashes : Dict String
hashes = hashes_in "generated" generated_assets ++ hashes_in "quality" required_quality_assets

root_snapped : snapshot_release_entries root false ≡ ok snapshots
unfolding snapshot_release_entries str_leb
root_snapped = refl

root_hashed : verify_release_snapshots sha256 snapshots quality ≡ ok hashes
unfolding verify_release_snapshots
root_hashed = refl

root_built :
    build_release_bundle below_one parse_quality parse_fidelity parse_validation write_zip root
    ≡ ok (write_zip snapshots)
unfolding build_release_bundle str_leb
root_built = refl

bundle_verifies_example :
    verify_release_bundle sha256 open_zip (write_zip snapshots) hashes ≡ ok (write_zip snapshots)
bundle_verifies_example =
    bundle_verifies sha256 below_one parse_quality parse_fidelity parse_validation write_zip
      open_zip root quality (write_zip snapshots) snapshots hashes zip_law root_snapped root_hashed
      root_built

verify_release_bundle_iff_example :
    (verify_release_bundle sha256 open_zip (write_zip snapshots) hashes ≡ ok (write_zip snapshots))
    ↔ ((archive : _) × ((open_zip (write_zip snapshots) ≡ some archive)
          × IsBundleOf sha256 hashes archive))
verify_release_bundle_iff_example =
    verify_release_bundle_iff sha256 open_zip (write_zip snapshots) hashes

abbrev plan : ReleasePlan
plan = record {
  product_id = "prd_1";
  product_key = "sales";
  product_version = 3;
  product_tag = "product/prd_1/v3";
  table_tags = [];
  artifact_hashes = hashes;
  changeset_id = none;
}

abbrev root_of : String → Dict (Node Blob)
root_of _ = root

plan_resolved :
    resolve_release_plan sha256 below_one parse_quality parse_fidelity parse_validation
      yaml_changeset "sales" disk root_of none
    ≡ ok plan
unfolding resolve_release_plan str_leb
plan_resolved = refl

resolve_release_plan-IsPlanOf_example :
    (p : ProductRecord) × (IsIdentified (load disk) "sales" p
      × IsPlanOf sha256 below_one parse_quality parse_fidelity parse_validation yaml_changeset
          (load disk)
          none
          (root_of p.product_key)
          p
          plan)
resolve_release_plan-IsPlanOf_example =
    resolve_release_plan-IsPlanOf sha256 below_one parse_quality parse_fidelity parse_validation
      yaml_changeset "sales" disk root_of none plan plan_resolved

abbrev kind : String
kind = "product"

abbrev identifier : String
identifier = "prd_1"

kind_plain : has_char "/" kind ≡ false
unfolding has_char
kind_plain = refl

identifier_plain : has_char "/" identifier ≡ false
unfolding has_char
identifier_plain = refl

tag_injective_example : (kind ≡ kind) × ((identifier ≡ identifier) × ◌≡◌ {A = ℕ} 103 103)
tag_injective_example =
    tag_injective kind kind identifier identifier 103 103 kind_plain kind_plain identifier_plain
      identifier_plain refl
