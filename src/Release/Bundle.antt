-- ===== src/Release/Bundle.antt =====
-- src/ard_ossie/release.py: the bundle that is built from the snapshots, and its verification. The
-- parsers of the reports, SHA-256 and the ZIP format are parameters; a failing disk is left out.
use ard_ossie_provider.Prelude.{
  Bool, true, ◌&&◌, Option, none, some, [], ◌∷◌, String, if◌then◌else◌, Result, ok, err, ◌>>=◌,
}
use ard_ossie_provider.Prelude.Text.{str_eq}
use ard_ossie_provider.Prelude.Sorting.{sort_by}
use ard_ossie_provider.Prelude.Dict.{Dict, get, keys}
use ard_ossie_provider.Models.{all_different}
use ard_ossie_provider.Impact.{same_set}
use ard_ossie_provider.Release.{
  ReleaseBlocked, QualityReport, quality_report_invalid, require_quality_pass, key_error,
  bundle_content_mismatch, bundle_invalid, bundle_hash_mismatch,
}
use ard_ossie_provider.Release.Snapshots.{Node, snapshot_release_entries}
use ard_ossie_provider.Release.Gates.{
  FidelityReport, ValidationReport, verify_fidelity, verify_candidate_validation,
}

-- `_parse_quality_report`, on what the parser gives
abbrev pub parsed_quality : Option QualityReport → Result ReleaseBlocked QualityReport
parsed_quality none = err quality_report_invalid
parsed_quality (some q) = ok q

-- `snapshots[name]`
unfoldable pub item : {Bytes : Type 0} → Dict Bytes → String → Result ReleaseBlocked Bytes
unfolding get
item snapshots name = elim (get snapshots name) [ none ↦ err (key_error name) | some b ↦ ok b ]

module _ {Bytes Coverage : Type 0} (below_one : Coverage → Bool)
    (parse_quality : Bytes → Option QualityReport)
    (parse_fidelity : Bytes → Option (FidelityReport Coverage))
    (parse_validation : Bytes → Option ValidationReport) where
  -- the gates that the building of a bundle and the making of a plan share
  unfoldable pub verify_reports : Dict Bytes → Result ReleaseBlocked (Unit {0})
  unfolding item verify_candidate_validation verify_fidelity
  verify_reports snapshots = do
    candidate_verified ← verify_candidate_validation parse_validation snapshots
    bytes ← item snapshots "quality/semantic-fidelity.json"
    _ ← verify_fidelity below_one (parse_fidelity bytes) candidate_verified
    ok tt

  -- `build_release_bundle` from its snapshots on: what it writes
  unfoldable pub bundle_of : (Dict Bytes → Bytes) → Dict Bytes → Result ReleaseBlocked Bytes
  unfolding item verify_reports sort_by
  bundle_of write_zip snapshots = do
    bytes ← item snapshots "quality/quality-report.json"
    quality ← parsed_quality (parse_quality bytes)
    _ ← require_quality_pass quality
    _ ← verify_reports snapshots
    ok (write_zip (sort_by (λ (e : String × Bytes). e.0) snapshots))

  unfoldable pub build_release_bundle :
      (Dict Bytes → Bytes) → Dict (Node Bytes) → Result ReleaseBlocked Bytes
  unfolding snapshot_release_entries bundle_of
  build_release_bundle write_zip root = do
    snapshots ← snapshot_release_entries root true
    bundle_of write_zip snapshots

module _ {Bytes : Type 0} (sha256 : Bytes → String) where
  -- `archive.read(name)` and the test of its hash; an entry whose reading raises OSError, KeyError,
  -- ValueError or BadZipFile has no bytes, and no other exception of the reading is modelled
  unfoldable pub check_entry :
      String → String → Option (Option Bytes) → Result ReleaseBlocked (Unit {0})
  check_entry name digest (some (some bytes)) =
      if str_eq (sha256 bytes) digest then ok tt else err (bundle_hash_mismatch name)
  check_entry name digest _ = err bundle_invalid

  -- the loop over `expected_hashes.items()`
  unfoldable pub check_entries :
      Dict (Option Bytes) → Dict String → Result ReleaseBlocked (Unit {0})
  unfolding check_entry get
  check_entries archive [] = ok tt
  check_entries archive ((name, digest) ∷ expected) = do
    _ ← check_entry name digest (get archive name)
    check_entries archive expected

  unfoldable pub verify_archive :
      Bytes → Dict String → Option (Dict (Option Bytes)) → Result ReleaseBlocked Bytes
  unfolding check_entries same_set all_different
  verify_archive payload expected none = err bundle_invalid
  verify_archive payload expected (some archive) =
      if all_different (keys archive) && same_set (keys archive) (keys expected)
      then (do _ ← check_entries archive expected; ok payload)
      else err bundle_content_mismatch

  -- `open_zip` gives the entries of an archive in order, or nothing of a file that is none
  unfoldable pub verify_release_bundle :
      (Bytes → Option (Dict (Option Bytes))) → Bytes → Dict String → Result ReleaseBlocked Bytes
  unfolding verify_archive
  verify_release_bundle open_zip payload expected =
      verify_archive payload expected (open_zip payload)
