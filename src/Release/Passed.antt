-- ===== src/Release/Passed.antt =====
-- src/ard_ossie/release.py: what it means that the reports of a release pass their gates, and that
-- its hashes are of its files.
use ard_ossie_provider.Prelude.{
  ◌≡◌, ◌⊎◌, inl, inr, refl, sym, ap, ◌∙◌, Bool, true, false, ◌&&◌, Option, none, some, String,
  arith, All, ok, in_chain, ok_injective, subst, Bool-cases, Option-cases, [],
}
use ard_ossie_provider.Prelude.Dict.{Dict, get}
use ard_ossie_provider.Release.{
  ReleaseBlocked, QualityReport, PipelineStatus, verified, generated_assets,
}
use ard_ossie_provider.Release.Snapshots.{
  verify_release_snapshots, hash_names, hash_sets_match, is_quality_report, quality_names,
}
use ard_ossie_provider.Release.Hashed.{IsHashOf, hash_names-All}
use ard_ossie_provider.Release.Gates.{
  FidelityReport, ValidationReport, reads_images, is_verified, IsFaithfulText, IsFaithfulImages,
  verify_fidelity, verify_fidelity_iff, verify_fidelity-same, verify_validation,
  verify_candidate_validation,
}
use ard_ossie_provider.Release.Bundle.{item, verify_reports}

is_verified-eq : (s : PipelineStatus) → is_verified s ≡ true → s ≡ verified
is_verified-eq verified h = refl
is_verified-eq _ h = cc

module _ {Bytes : Type 0} (snapshots : Dict Bytes) where
  pub item-get :
      (name : String) (b : Bytes) → item snapshots name ≡ ok b → get snapshots name ≡ some b
  unfolding item
  item-get name b h = elim (Option-cases (get snapshots name)) [
    | inl e ↦ absurd (ground (arith, e, h))
    | inr (c, e) ↦ e ∙ ap some (ok_injective {E = ReleaseBlocked} c b (ground (arith, e, h)))
  ]

module _ {Bytes Coverage : Type 0} (below_one : Coverage → Bool)
    (parse_fidelity : Bytes → Option (FidelityReport Coverage))
    (parse_validation : Bytes → Option ValidationReport) (snapshots : Dict Bytes) where
  -- there is a validation report, of a candidate that is verified and may be published
  pub record IsValidated : Type 0 where
    pub bytes : Bytes
    pub v : ValidationReport
    pub stored : get snapshots "quality/validation-report.json" ≡ some bytes
    pub parsed : parse_validation bytes ≡ some v
    pub is_verified : v.status ≡ verified
    pub is_publishable : v.publishable ≡ true

  -- the fidelity report can be read, and the candidate is validated, or there is no validation
  -- report and the source is faithful
  pub record IsPassed : Type 0 where
    pub bytes : Bytes
    pub r : FidelityReport Coverage
    pub stored : get snapshots "quality/semantic-fidelity.json" ≡ some bytes
    pub parsed : parse_fidelity bytes ≡ some r
    pub passed :
        IsValidated
        ⊎ ((get snapshots "quality/validation-report.json" ≡ none)
            × IsFaithfulText below_one r
            × ((reads_images r.extraction_mode ≡ false) ⊎ IsFaithfulImages r))

  verify_validation-IsValidated :
      (bytes : Bytes) (o : Option ValidationReport) (b : Bool)
      → get snapshots "quality/validation-report.json" ≡ some bytes
      → parse_validation bytes ≡ o
      → verify_validation o ≡ ok b
      → IsValidated
  unfolding verify_validation
  verify_validation-IsValidated bytes none b stored parsed h = cc
  verify_validation-IsValidated bytes (some v) b stored parsed h =
      elim (Bool-cases (is_verified v.status && v.publishable)) [
        | inr e ↦ absurd (ground (arith, e, h))
        | inl e ↦ record {
          bytes = bytes;
          v = v;
          stored = stored;
          parsed = parsed;
          is_verified = is_verified-eq v.status (ground (arith, e));
          is_publishable = ground (arith, e);
        }
      ]

  candidate_cases :
      (b : Bool)
      → verify_candidate_validation parse_validation snapshots ≡ ok b
      → IsValidated ⊎ ((get snapshots "quality/validation-report.json" ≡ none) × (b ≡ false))
  unfolding verify_candidate_validation
  candidate_cases b h = elim (Option-cases (get snapshots "quality/validation-report.json")) [
    | inl e ↦ inr (e, sym (ok_injective {E = ReleaseBlocked} false b (ground (arith, e, h))))
    | inr (bytes, e) ↦ inl (
        verify_validation-IsValidated bytes (parse_validation bytes) b e refl
          (ground (arith, e, h)))
  ]

  fidelity_cases :
      (o : Option (FidelityReport Coverage)) (b : Bool) (r : FidelityReport Coverage)
      → verify_fidelity below_one o b ≡ ok r
      → (o ≡ some r)
        × ((b ≡ true)
            ⊎ (IsFaithfulText below_one r
                × ((reads_images r.extraction_mode ≡ false) ⊎ IsFaithfulImages r)))
  unfolding verify_fidelity
  fidelity_cases none b r h = cc
  fidelity_cases (some s) b r h =
      let same = verify_fidelity-same below_one s b r h in
      (
        ap some same,
        (verify_fidelity_iff below_one r b).0
            (subst (λ x. verify_fidelity below_one (some x) b ≡ ok r) same h),
      )

  pub verify_reports-IsPassed :
      (parse_quality : Bytes → Option QualityReport)
      → verify_reports below_one parse_quality parse_fidelity parse_validation snapshots ≡ ok tt
      → IsPassed
  unfolding verify_reports
  verify_reports-IsPassed parse_quality h =
      in_chain (verify_candidate_validation parse_validation snapshots) _ tt h λ b candidate h.
        in_chain (item snapshots "quality/semantic-fidelity.json") _ tt h λ bytes stored h.
          in_chain (verify_fidelity below_one (parse_fidelity bytes) b) _ tt h λ r faithful _.
            let report = fidelity_cases (parse_fidelity bytes) b r faithful in
            record {
              bytes = bytes;
              r = r;
              stored = item-get snapshots "quality/semantic-fidelity.json" bytes stored;
              parsed = report.0;
              passed = elim (candidate_cases b candidate) [
                | inl validated ↦ inl validated
                | inr (nothing, unverified) ↦ elim report.1 [
                  | inl e ↦ absurd (ground (arith, e, unverified))
                  | inr faithful ↦ inr (nothing, faithful.0, faithful.1)
                ]
              ];
            }

module _ {Bytes : Type 0} (sha256 : Bytes → String) (snapshots : Dict Bytes) where
  pub verify_release_snapshots-IsHashOf :
      (q : QualityReport) (hashes : Dict String)
      → verify_release_snapshots sha256 snapshots q ≡ ok hashes
      → All (IsHashOf sha256 snapshots) hashes
  unfolding verify_release_snapshots
  verify_release_snapshots-IsHashOf q hashes h =
      elim (Bool-cases (hash_sets_match sha256 snapshots q)) [
        | inr e ↦ absurd (ground (arith, e, h))
        | inl e ↦
            in_chain
              (hash_names sha256 snapshots q.artifact_hashes (λ _. false) "generated"
                generated_assets [])
              _ hashes (ground (arith, e, h))
              λ some_hashes first second.
                hash_names-All sha256 snapshots q.quality_artifact_hashes (is_quality_report sha256)
                  "quality" (quality_names sha256 snapshots) some_hashes hashes second
                  (hash_names-All sha256 snapshots q.artifact_hashes (λ _. false) "generated"
                    generated_assets [] some_hashes first tt)
      ]
