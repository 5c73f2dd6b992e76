-- ===== src/Release.antt =====
-- src/ard_ossie/release.py: what a release consists of, and the gates that it passes.
pub mod Snapshots
pub mod Tags
pub mod Gates
pub mod Bundle
pub mod Resolve
pub mod Bundled
pub mod Passed
pub mod Current
pub mod Resolved
pub mod Hashed
pub mod Archived
pub mod RoundTrip
mod Tests
use Prim.Native.Char.{Char, code}
use Prim.Native.String as S
use Prim.Native.String.{◌++◌}
use ard_ossie_provider.Prelude.{
  ℕ, zero, suc, Bool, true, false, not, ◌&&◌, ◌||◌, Option, none, some, List, [], ◌∷◌, map, String,
  ltb, ◌==◌, if◌then◌else◌, keep, Result, ok, err, ◌/◌, ◌%◌, ◌+◌, ◌*◌, ◌-◌,
}
use ard_ossie_provider.Prelude.Text.{str_eq, contains, opt_str_eq}
use ard_ossie_provider.Prelude.Sorting.{sort_by}
use ard_ossie_provider.Prelude.Sets.{sorted_set}
use ard_ossie_provider.Prelude.Dict.{Dict, keys}
use ard_ossie_provider.Models.{ProductRecord, TableRecord}
use ard_ossie_provider.Impact.{ChangeSetRecord, ChangeSetStatus, ready, blocked, status}

-- `QualityStatus`, and the status of a fidelity report
pub data QualityStatus : Type 0 where
  passed warned failed : QualityStatus

abbrev pub is_failed : QualityStatus → Bool
is_failed failed = true
is_failed _ = false

pub record QualityFinding : Type 0 where
  pub finding_code : String
  pub message : String
  pub path : Option String

-- the fields of `QualityReport` that a release reads
pub record QualityReport : Type 0 where
  pub status : QualityStatus
  pub product_id : Option String
  pub product_version : Option ℕ
  pub hard_errors : List QualityFinding
  pub artifact_hashes : Dict String
  pub quality_artifact_hashes : Dict String

-- `SemanticPipelineStatus`
pub data PipelineStatus : Type 0 where
  verified review_pending review_required failed : PipelineStatus

-- why the fidelity gate refuses
pub data Reason : Type 0 where
  status_fail low_coverage : Reason
  unmatched_spans duplicated_spans degraded_blocks rejected_corrections : ℕ → Reason
  warnings correction_outcomes : List String → Reason
  missing_correction_pages : List ℕ → Reason

-- the texts that `ReleaseBlocked` is raised with; the last two are other exceptions, which escape
pub data ReleaseBlocked : Type 0 where
  changeset_incomplete : List String → ReleaseBlocked
  quality_gate_failed : ReleaseBlocked
  product_not_found : String → ReleaseBlocked
  table_version_mismatch : String → ReleaseBlocked
  quality_report_missing quality_report_invalid : ReleaseBlocked
  quality_report_product_mismatch quality_report_version_mismatch : ReleaseBlocked
  changeset_not_found : String → ReleaseBlocked
  changeset_version_not_current : String → ℕ → ReleaseBlocked
  artifact_missing : String → ReleaseBlocked
  hash_set_mismatch : ReleaseBlocked
  artifact_hash_mismatch : String → ReleaseBlocked
  fidelity_report_invalid : ReleaseBlocked
  fidelity_gate_failed : List Reason → ReleaseBlocked
  validation_report_invalid : ReleaseBlocked
  validation_not_verified : PipelineStatus → ReleaseBlocked
  bundle_content_mismatch bundle_invalid : ReleaseBlocked
  bundle_hash_mismatch : String → ReleaseBlocked
  tag_target_conflict : String → String → String → ReleaseBlocked
  key_error : String → ReleaseBlocked
  yaml_error : ReleaseBlocked

pub record ReleasePlan : Type 0 where
  pub product_id : String
  pub product_key : String
  pub product_version : ℕ
  pub product_tag : String
  pub table_tags : List String
  pub artifact_hashes : Dict String
  pub changeset_id : Option String

unfoldable pub char_at : String → ℕ → Char
char_at S.[] n = "0"
char_at (S.◌∷◌ c s) zero = c
char_at (S.◌∷◌ c s) (suc n) = char_at s n

unfoldable pub digit : ℕ → Char
unfolding char_at
digit n = char_at "0123456789" n

-- the decimal digits of `n` before `rest`; fuel `n` is enough
unfoldable pub decimal_from : ℕ → ℕ → String → String
unfolding digit
decimal_from zero n rest = S.◌∷◌ (digit n) rest
decimal_from (suc fuel) n rest =
    let longer = decimal_from fuel (n / 10) (S.◌∷◌ (digit (n % 10)) rest) in
    if ltb n 10 then S.◌∷◌ (digit n) rest else longer

-- `f"{n}"`
unfoldable pub decimal : ℕ → String
unfolding decimal_from
decimal n = decimal_from n n ""

-- `f"{kind}/{id}/v{version}"`
unfoldable pub tag : String → String → ℕ → String
unfolding decimal
tag kind id version = kind ++ ("/" ++ (id ++ ("/v" ++ decimal version)))

-- `set(xs) - set(ys)`, before it is sorted
abbrev pub without : List String → List String → List String
without xs ys = keep (λ x. not (contains ys x)) xs

unfoldable pub not_ready : Option ChangeSetRecord → Option (List String)
unfolding status
not_ready none = none
not_ready (some c) = elim (status c) [
  | ready ↦ none
  | blocked ↦ some (sorted_set (without c.required_product_ids (keys c.ready_products)))
]

abbrev pub is_empty {ℓ} : {A : Type ℓ} → List A → Bool
is_empty [] = true
is_empty (_ ∷ _) = false

-- `quality.get("status") == "FAIL" or quality.get("hard_errors")`
abbrev pub gate_fails : QualityReport → Bool
gate_fails q = is_failed q.status || not (is_empty q.hard_errors)

-- `_require_quality_pass`
abbrev pub require_quality_pass : QualityReport → Result ReleaseBlocked (Unit {0})
require_quality_pass q = if gate_fails q then err quality_gate_failed else ok tt

abbrev some_gate_fails : Option QualityReport → Bool
some_gate_fails none = false
some_gate_fails (some q) = gate_fails q

unfoldable pub plan_record :
    ProductRecord → List TableRecord → Option ChangeSetRecord → Dict String → ReleasePlan
unfolding tag sort_by
plan_record p tables changeset hashes = record {
  product_id = p.product_id;
  product_key = p.product_key;
  product_version = p.version;
  product_tag = tag "product" p.product_id p.version;
  table_tags =
      sort_by (λ s. s) (map (λ (t : TableRecord). tag "table" t.table_id t.version) tables);
  artifact_hashes = hashes;
  changeset_id = elim changeset [ none ↦ none | some c ↦ some c.changeset_id ];
}

-- `artifact_hashes or {}` of a dictionary is the dictionary
unfoldable pub build_release_plan :
    ProductRecord
    → List TableRecord
    → Option ChangeSetRecord
    → Option QualityReport
    → Dict String
    → Result ReleaseBlocked ReleasePlan
unfolding plan_record not_ready
build_release_plan p tables changeset quality hashes = elim (not_ready changeset) [
  | some missing ↦ err (changeset_incomplete missing)
  | none ↦
      if some_gate_fails quality
      then err quality_gate_failed
      else ok (plan_record p tables changeset hashes)
]

abbrev pub other_target : Option String → String → Bool
other_target none expected = false
other_target (some t) expected = not (str_eq t expected)

abbrev or_empty : Option String → String
or_empty none = ""
or_empty (some s) = s

unfoldable pub verify_tag_target :
    String → String → Option String → Result ReleaseBlocked (Unit {0})
verify_tag_target t expected_commit existing_target =
    if other_target existing_target expected_commit
    then err (tag_target_conflict t (or_empty existing_target) expected_commit)
    else ok tt

abbrev pub generated_assets : List String
generated_assets =
    "data-product.md" ∷ "data-semantic.md" ∷ "data-dictionary.json" ∷ "ossie-model.json"
    ∷ "source-manifest.json" ∷ []

abbrev pub required_quality_assets : List String
required_quality_assets =
    "quality-report.json" ∷ "duplicate-report.json" ∷ "version-report.json" ∷ "impact-report.json"
    ∷ "llm-suggestions.json" ∷ "semantic-fidelity.json" ∷ []

-- `DIAGNOSTIC_REPORT_NAMES` of semantic/diagnostics.py
abbrev pub diagnostic_report_names : List String
diagnostic_report_names =
    "manifest.json" ∷ "evidence-summary.json" ∷ "candidate-report.json" ∷ "decision-report.json"
    ∷ "application-report.json" ∷ "validation-report.json" ∷ "failure-report.json" ∷ []

abbrev pub optional_quality_assets : List String
optional_quality_assets =
    "semantic-structure-repair.json" ∷ "semantic-review.json" ∷ diagnostic_report_names
