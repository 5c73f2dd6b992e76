-- ===== src/Release/Resolved.antt =====
-- src/ard_ossie/release.py: what a plan of `resolve_release_plan` rests on.
use ard_ossie_provider.Prelude.Sorting.{sort_by}
use ard_ossie_provider.Release.Hashed.{IsHashOf}
use ard_ossie_provider.Release.Passed.{
  IsPassed, item-get, verify_reports-IsPassed, verify_release_snapshots-IsHashOf,
}
use ard_ossie_provider.Prelude.{
  All, ◌≢◌, [], ◌∷◌, refl, sym, subst, true, map, arith, ap, ok_injective, ◌≡◌, Bool, false, not,
  Option, none, some, List, String, keep, ok, raise_if, in_chain,
}
use ard_ossie_provider.Prelude.Text.{str_eq}
use ard_ossie_provider.Prelude.Dict.{Dict, get, keys}
use ard_ossie_provider.Models.{ProductRecord, TableRecord, ProductTableRef}
use ard_ossie_provider.Impact.{ChangeSetRecord}
use ard_ossie_provider.Registry.{Registry, load, mappings}
use ard_ossie_provider.Registry.Files.{Disk}
use ard_ossie_provider.Release.{
  ReleaseBlocked, plan_record, quality_report_missing, QualityReport, ReleasePlan, not_ready,
  QualityStatus, is_failed, is_empty, tag,
}
use ard_ossie_provider.Release.Snapshots.{
  Node, snapshot_release_entries, require_release_snapshot_entries, verify_release_snapshots,
}
use ard_ossie_provider.Release.Gates.{FidelityReport, ValidationReport}
use ard_ossie_provider.Release.Bundle.{parsed_quality, item, verify_reports}
use ard_ossie_provider.Release.Resolve.{
  find_product, resolve_tables, find_changeset, check_changeset, is_file, check_quality,
  read_changeset_id, resolve_release_plan, gated_plan, reported_plan, plan_of,
}
use ard_ossie_provider.Release.Current.{
  AreMapped, Names, IsFound, IsIdentified, IsReleasable, resolve_tables-AreMapped,
  read_changeset_id-Names, find_changeset-IsFound, find_product-IsIdentified,
  check_changeset-IsReleasable, quality_checked, plan_made,
}

parsed_quality-some :
    (o : Option QualityReport) (q : QualityReport) → parsed_quality o ≡ ok q → o ≡ some q
parsed_quality-some none q h = cc
parsed_quality-some (some p) q h = ap some (ok_injective {E = ReleaseBlocked} p q h)

empty-eq : {A : Type 0} (xs : List A) → is_empty xs ≡ true → xs ≡ []
empty-eq [] h = refl
empty-eq (x ∷ xs) h = cc

-- the changeset's identifier, where there is one
abbrev pub IsIdOf : Option ChangeSetRecord → Option String → Type 0
IsIdOf none id = id ≡ none
IsIdOf (some c) id = id ≡ some c.changeset_id

-- the plan names the product with its tag, the sorted tags of the tables, the hashes and the
-- changeset
pub record IsRecordOf (p : ProductRecord) (tables : List TableRecord)
    (changeset : Option ChangeSetRecord) (hashes : Dict String) (plan : ReleasePlan) : Type 0 where
  pub of_id : plan.product_id ≡ p.product_id
  pub of_key : plan.product_key ≡ p.product_key
  pub of_version : plan.product_version ≡ p.version
  pub of_tag : plan.product_tag ≡ tag "product" p.product_id p.version
  pub of_tables :
      plan.table_tags
      ≡ sort_by (λ s. s) (map (λ (t : TableRecord). tag "table" t.table_id t.version) tables)
  pub of_hashes : plan.artifact_hashes ≡ hashes
  pub of_changeset : IsIdOf changeset plan.changeset_id

plan_record-IsRecordOf :
    (p : ProductRecord) (tables : List TableRecord) (changeset : Option ChangeSetRecord)
    (hashes : Dict String)
    → IsRecordOf p tables changeset hashes (plan_record p tables changeset hashes)
unfolding plan_record
plan_record-IsRecordOf p tables changeset hashes = record {
  of_id = refl;
  of_key = refl;
  of_version = refl;
  of_tag = refl;
  of_tables = refl;
  of_hashes = refl;
  of_changeset = id_of changeset;
}
  where
    id_of :
        (c : Option ChangeSetRecord)
        → IsIdOf c (elim c [ none ↦ none | some c ↦ some c.changeset_id ])
    id_of none = refl
    id_of (some c) = refl

module _ {Bytes Coverage : Type 0} (sha256 : Bytes → String) (below_one : Coverage → Bool)
    (parse_quality : Bytes → Option QualityReport)
    (parse_fidelity : Bytes → Option (FidelityReport Coverage))
    (parse_validation : Bytes → Option ValidationReport)
    (yaml_changeset : Bytes → Option (Option String)) where
  -- what a plan rests on, from the check of the entries on
  pub record IsGated (p : ProductRecord) (tables : List TableRecord)
      (changeset : Option ChangeSetRecord) (snapshots : Dict Bytes) (q : QualityReport)
      (plan : ReleasePlan) : Type 0 where
    pub hashes : Dict String
    pub complete : require_release_snapshot_entries (keys snapshots) ≡ ok tt
    pub hashed : All (IsHashOf sha256 snapshots) hashes
    pub gated : IsPassed below_one parse_fidelity parse_validation snapshots
    pub passes : q.status ≢ QualityStatus.failed
    pub no_errors : q.hard_errors ≡ []
    pub is_ready : not_ready changeset ≡ none
    pub planned : IsRecordOf p tables changeset hashes plan

  gated_plan-IsGated :
      (p : ProductRecord) (tables : List TableRecord) (changeset : Option ChangeSetRecord)
      (snapshots : Dict Bytes) (q : QualityReport) (plan : ReleasePlan)
      → gated_plan sha256 below_one parse_quality parse_fidelity parse_validation yaml_changeset p
          tables changeset snapshots q
        ≡ ok plan
      → IsGated p tables changeset snapshots q plan
  unfolding gated_plan
  gated_plan-IsGated p tables changeset snapshots q plan h =
      in_chain (require_release_snapshot_entries (keys snapshots)) _ plan h λ _ complete h.
        in_chain (verify_release_snapshots sha256 snapshots q) _ plan h λ hashes hashed h.
          in_chain
            (verify_reports below_one parse_quality parse_fidelity parse_validation snapshots) _
            plan h
            λ _ gated h.
              let made = plan_made p tables changeset q hashes plan h in
              record {
                hashes = hashes;
                complete = complete;
                hashed = verify_release_snapshots-IsHashOf sha256 snapshots q hashes hashed;
                gated =
                    verify_reports-IsPassed below_one parse_fidelity parse_validation snapshots
                      parse_quality gated;
                passes = λ e. ground (arith, made.0, ap is_failed e);
                no_errors = empty-eq q.hard_errors (ground (arith, made.0));
                is_ready = made.1.0;
                planned =
                    subst (IsRecordOf p tables changeset hashes) (sym made.1.1)
                      (plan_record-IsRecordOf p tables changeset hashes);
              }

  -- what a plan rests on, from the quality report on
  pub record IsReported (r : Registry) (p : ProductRecord) (tables : List TableRecord)
      (root : Dict (Node Bytes)) (snapshots : Dict Bytes) (plan : ReleasePlan) : Type 0 where
    pub bytes : Bytes
    pub q : QualityReport
    pub id : Option String
    pub changeset : Option ChangeSetRecord
    pub stored : get snapshots "quality/quality-report.json" ≡ some bytes
    pub parsed : parse_quality bytes ≡ some q
    pub named : Names yaml_changeset (get root "product.yaml") id
    pub found : IsFound r id changeset
    pub of_product : q.product_id ≡ some p.product_id
    pub of_version : q.product_version ≡ some p.version
    pub releasable : IsReleasable r changeset
    pub gates : IsGated p tables changeset snapshots q plan

  reported_plan-IsReported :
      (r : Registry) (p : ProductRecord) (tables : List TableRecord) (root : Dict (Node Bytes))
      (snapshots : Dict Bytes) (plan : ReleasePlan)
      → reported_plan sha256 below_one parse_quality parse_fidelity parse_validation yaml_changeset
          r p tables root snapshots
        ≡ ok plan
      → IsReported r p tables root snapshots plan
  unfolding reported_plan
  reported_plan-IsReported r p tables root snapshots plan h =
      in_chain (item snapshots "quality/quality-report.json") _ plan h λ bytes stored h.
        in_chain (parsed_quality (parse_quality bytes)) _ plan h λ q parsed h.
          in_chain (check_quality q p) _ plan h λ _ checked h.
            in_chain (read_changeset_id yaml_changeset (get root "product.yaml")) _ plan h
              λ id named h. in_chain (find_changeset r id) _ plan h λ changeset found h.
                in_chain (check_changeset r changeset) _ plan h λ _ current h.
                  let gates = gated_plan-IsGated p tables changeset snapshots q plan h in
                  let checks = quality_checked q p checked in
                  record {
                    bytes = bytes;
                    q = q;
                    id = id;
                    changeset = changeset;
                    stored = item-get snapshots "quality/quality-report.json" bytes stored;
                    parsed = parsed_quality-some (parse_quality bytes) q parsed;
                    named =
                        read_changeset_id-Names yaml_changeset (get root "product.yaml") id named;
                    found = find_changeset-IsFound r id changeset found;
                    of_product = checks.0;
                    of_version = checks.1;
                    releasable = check_changeset-IsReleasable r changeset current gates.is_ready;
                    gates = gates;
                  }

  -- what a plan of the product rests on
  pub record IsPlanOf (r : Registry) (table_ids : Option (List String)) (root : Dict (Node Bytes))
      (p : ProductRecord) (plan : ReleasePlan) : Type 0 where
    pub tables : List TableRecord
    pub snapshots : Dict Bytes
    pub mapped :
        AreMapped r table_ids
          (keep (λ (m : ProductTableRef). str_eq m.product_id p.product_id) (mappings r))
          tables
    pub snapped : snapshot_release_entries root false ≡ ok snapshots
    pub reported : IsReported r p tables root snapshots plan

  plan_of-IsPlanOf :
      (r : Registry) (p : ProductRecord) (root : Dict (Node Bytes))
      (table_ids : Option (List String)) (plan : ReleasePlan)
      → plan_of sha256 below_one parse_quality parse_fidelity parse_validation yaml_changeset r p
          root table_ids
        ≡ ok plan
      → IsPlanOf r table_ids root p plan
  unfolding plan_of
  plan_of-IsPlanOf r p root table_ids plan h =
      let ms = keep (λ (m : ProductTableRef). str_eq m.product_id p.product_id) (mappings r) in
      in_chain (resolve_tables r table_ids ms) _ plan h λ tables resolved h.
        in_chain
          (raise_if (not (is_file (get root "quality/quality-report.json"))) quality_report_missing)
          _ plan h
          λ _ _ h. in_chain (snapshot_release_entries root false) _ plan h λ snapshots snapped h.
            record {
              tables = tables;
              snapshots = snapshots;
              mapped = resolve_tables-AreMapped r table_ids ms tables resolved;
              snapped = snapped;
              reported = reported_plan-IsReported r p tables root snapshots plan h;
            }

  -- Where `resolve_release_plan` gives a plan, it is of the product with the identifier, or else of
  -- the first with it as its key, and of the tables of the product's mappings that are not left
  -- out, each in the Registry at its mapped version; the quality report parsed from the product's
  -- files is of this product and version, all reports pass the gates, and the hashes are of the
  -- files; and the changeset that `product.yaml` names, if it names one, is registered and ready,
  -- with every required product at the version of its readiness.
  pub resolve_release_plan-IsPlanOf :
      (identifier : String) (disk : Disk) (root_of : String → Dict (Node Bytes))
      (table_ids : Option (List String)) (plan : ReleasePlan)
      → resolve_release_plan sha256 below_one parse_quality parse_fidelity parse_validation
          yaml_changeset identifier disk root_of table_ids
        ≡ ok plan
      → (p : ProductRecord) × (IsIdentified (load disk) identifier p
          × IsPlanOf (load disk) table_ids (root_of p.product_key) p plan)
  unfolding resolve_release_plan
  resolve_release_plan-IsPlanOf identifier disk root_of table_ids plan h =
      in_chain (find_product (load disk) identifier) _ plan h λ p found h. (
        p,
        (
          find_product-IsIdentified (load disk) identifier p found,
          plan_of-IsPlanOf (load disk) p (root_of p.product_key) table_ids plan h,
        ),
      )
