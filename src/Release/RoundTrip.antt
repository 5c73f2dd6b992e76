-- ===== src/Release/RoundTrip.antt =====
-- src/ard_ossie/release.py: a bundle that is built from the files of a plan verifies against it.
use ard_ossie_provider.Prelude.{
  ◌≡◌, sym, ◌∙◌, ap, Bool, true, false, Option, some, String, ok, bind_ok, ok_injective, subst,
}
use ard_ossie_provider.Prelude.Sorting.{sort_by}
use ard_ossie_provider.Prelude.Dict.{Dict}
use ard_ossie_provider.Prelude.Reindex.{HasNodupKeys, sort_by-HasNodupKeys}
use ard_ossie_provider.Release.{QualityReport, require_quality_pass}
use ard_ossie_provider.Release.Snapshots.{Node, snapshot_release_entries, verify_release_snapshots}
use ard_ossie_provider.Release.Gates.{FidelityReport, ValidationReport}
use ard_ossie_provider.Release.Bundle.{
  verify_release_bundle, build_release_bundle, bundle_of, item, parsed_quality, verify_reports,
}
use ard_ossie_provider.Release.Bundled.{verify_release_bundle_iff}
use ard_ossie_provider.Release.Archived.{
  snapped, snapped-HasNodupKeys, archived, archived-IsBundleOf, readable, snapshot_ok,
}

module _ {Bytes Coverage : Type 0} (sha256 : Bytes → String) (below_one : Coverage → Bool)
    (parse_quality : Bytes → Option QualityReport)
    (parse_fidelity : Bytes → Option (FidelityReport Coverage))
    (parse_validation : Bytes → Option ValidationReport) (write_zip : Dict Bytes → Bytes)
    (open_zip : Bytes → Option (Dict (Option Bytes))) where
  bundle_of_ok :
      (snapshots : Dict Bytes) (payload : Bytes)
      → bundle_of below_one parse_quality parse_fidelity parse_validation write_zip snapshots
        ≡ ok payload
      → write_zip (sort_by (λ (e : String × Bytes). e.0) snapshots) ≡ payload
  unfolding bundle_of
  bundle_of_ok snapshots payload h =
      let a = bind_ok (item snapshots "quality/quality-report.json") _ payload h in
      let b = bind_ok (parsed_quality (parse_quality a.0)) _ payload a.1.1 in
      let c = bind_ok (require_quality_pass b.0) _ payload b.1.1 in
      let d =
        bind_ok (verify_reports below_one parse_quality parse_fidelity parse_validation snapshots) _
          payload c.1.1 in
      ok_injective _ payload d.1.1

  built :
      (root : Dict (Node Bytes)) (payload : Bytes)
      → build_release_bundle below_one parse_quality parse_fidelity parse_validation write_zip root
        ≡ ok payload
      → write_zip (archived sha256 root) ≡ payload
  unfolding build_release_bundle
  built root payload h =
      let a = bind_ok (snapshot_release_entries root true) _ payload h in
      ap (λ s. write_zip (sort_by (λ (e : String × Bytes). e.0) s))
        (snapshot_ok root true a.0 a.1.0)
      ∙ bundle_of_ok a.0 payload a.1.1

  -- A bundle verifies against the hashes of the plan that was made of the same files: where a ZIP
  -- archive of entries with different names opens to these entries, what build_release_bundle
  -- writes is accepted with the hashes that verify_release_snapshots gives of the snapshots.
  pub bundle_verifies :
      (root : Dict (Node Bytes)) (q : QualityReport) (payload : Bytes) (snapshots : Dict Bytes)
      (hashes : Dict String)
      → ((d : Dict Bytes) → HasNodupKeys d → open_zip (write_zip d) ≡ some (readable d))
      → snapshot_release_entries root false ≡ ok snapshots
      → verify_release_snapshots sha256 snapshots q ≡ ok hashes
      → build_release_bundle below_one parse_quality parse_fidelity parse_validation write_zip root
        ≡ ok payload
      → verify_release_bundle sha256 open_zip payload hashes ≡ ok payload
  bundle_verifies root q payload snapshots hashes zip_law snapped_ok verified built_ok =
      let same = snapshot_ok root false snapshots snapped_ok in
      let verified' : verify_release_snapshots sha256 (snapped root) q ≡ ok hashes =
        subst (λ s. verify_release_snapshots sha256 s q ≡ ok hashes) (sym same) verified in
      let opened : open_zip payload ≡ some (readable (archived sha256 root)) =
        ap open_zip (sym (built root payload built_ok))
        ∙ zip_law (archived sha256 root) (
            sort_by-HasNodupKeys (λ (e : String × Bytes). e.0) (snapped root)
              (snapped-HasNodupKeys root)) in
      (verify_release_bundle_iff sha256 open_zip payload hashes).1 (
        readable (archived sha256 root),
        (opened, archived-IsBundleOf sha256 root q hashes verified'),
      )
