-- ===== src/Release/Gates.antt =====
-- src/ard_ossie/release.py: the gates on the fidelity report and on the validation report. The
-- floating-point coverage is a type of the machine with its test against 1.0.
use ard_ossie_provider.Prelude.{
  inl, inr, Bool-cases, ok_injective, ◌≡◌, ◌↔◌, ◌⊎◌, refl, arith, ℕ, zero, suc, Bool, true, false,
  not, ◌&&◌, ◌||◌, Option, none, some, List, [], ◌∷◌, ◌++◌, map, String, ltb, ◌==◌, if◌then◌else◌,
  keep, all, any, Result, ok, err,
}
use ard_ossie_provider.Prelude.Sets.{sorted_set}
use ard_ossie_provider.Prelude.Dict.{Dict, get}
use ard_ossie_provider.Release.{
  ReleaseBlocked, fidelity_report_invalid, fidelity_gate_failed, validation_report_invalid,
  validation_not_verified, Reason, status_fail, low_coverage, unmatched_spans, duplicated_spans,
  degraded_blocks, rejected_corrections, warnings, correction_outcomes, missing_correction_pages,
  QualityStatus, is_failed, PipelineStatus, verified, is_empty,
}

pub data ExtractionMode : Type 0 where
  pdf_embedded docx_xml ocr : ExtractionMode

-- the outcome of a page
pub data PageOutcome : Type 0 where
  applied reused rejected provider_failed unavailable : PageOutcome

-- the fields of `OcrCorrectionPageAudit` that the gate reads
pub record PageAudit : Type 0 where
  pub page : ℕ
  pub outcome : PageOutcome

-- the fields of `SemanticFidelityReport` that the gate reads
pub record FidelityReport (Coverage : Type 0) : Type 0 where
  pub status : QualityStatus
  pub extraction_mode : ExtractionMode
  pub page_count : ℕ
  pub unmatched_span_count : ℕ
  pub duplicated_span_count : ℕ
  pub degraded_block_count : ℕ
  pub source_text_coverage : Coverage
  pub ocr_corrections : List PageAudit
  pub ocr_correction_rejected_count : ℕ
  pub warning_codes : List String

pub record ValidationReport : Type 0 where
  pub status : PipelineStatus
  pub publishable : Bool

abbrev pub reads_images : ExtractionMode → Bool
reads_images docx_xml = false
reads_images _ = true

-- `item.outcome not in {"applied", "reused"}`
abbrev pub is_failure : PageOutcome → Bool
is_failure applied = false
is_failure reused = false
is_failure _ = true

abbrev outcome_name : PageOutcome → String
outcome_name applied = "applied"
outcome_name reused = "reused"
outcome_name rejected = "rejected"
outcome_name provider_failed = "provider_failed"
outcome_name unavailable = "unavailable"

-- `range(first, first + count)`
abbrev pub pages_from : ℕ → ℕ → List ℕ
pages_from first zero = []
pages_from first (suc count) = first ∷ pages_from (suc first) count

-- `page in pages`
abbrev pub has_page : List ℕ → ℕ → Bool
has_page pages page = any (λ p. p == page) pages

-- `range(1, page_count + 1)`, and the pages that were audited
abbrev pub expected_pages : {Coverage : Type 0} → FidelityReport Coverage → List ℕ
expected_pages r = pages_from 1 r.page_count

abbrev pub audited_pages : {Coverage : Type 0} → FidelityReport Coverage → List ℕ
audited_pages r = map (λ (a : PageAudit). a.page) r.ocr_corrections

-- `audited_pages == expected_pages`
abbrev pub same_pages : List ℕ → List ℕ → Bool
same_pages ps qs = all (has_page qs) ps && all (has_page ps) qs

-- what the gate requires of a report on a source that was read from images
pub record IsFaithfulImages {Coverage : Type 0} (r : FidelityReport Coverage) : Type 0 where
  pub no_warnings : is_empty r.warning_codes ≡ true
  pub none_rejected : r.ocr_correction_rejected_count ≡ 0
  pub no_failures : any (λ (a : PageAudit). is_failure a.outcome) r.ocr_corrections ≡ false
  pub all_audited : same_pages (audited_pages r) (expected_pages r) ≡ true

-- `if test: reasons.append(reason)`
abbrev when : Bool → Reason → List Reason
when true reason = reason ∷ []
when false reason = []

module _ {Coverage : Type 0} (below_one : Coverage → Bool) where
  abbrev text_reasons : FidelityReport Coverage → List Reason
  text_reasons r =
      when (is_failed r.status) status_fail
      ++ (when (ltb 0 r.unmatched_span_count) (unmatched_spans r.unmatched_span_count)
          ++ (when (ltb 0 r.duplicated_span_count) (duplicated_spans r.duplicated_span_count)
              ++ (when (below_one r.source_text_coverage) low_coverage
                  ++ when (ltb 0 r.degraded_block_count) (degraded_blocks r.degraded_block_count))))

  image_reasons : FidelityReport Coverage → List Reason
  unfolding sorted_set
  image_reasons r =
      when (not (is_empty r.warning_codes)) (warnings r.warning_codes)
      ++ (when (ltb 0 r.ocr_correction_rejected_count)
            (rejected_corrections r.ocr_correction_rejected_count)
          ++ (when (any (λ (a : PageAudit). is_failure a.outcome) r.ocr_corrections) (
                correction_outcomes (
                  sorted_set (
                    map (λ (a : PageAudit). outcome_name a.outcome)
                      (keep (λ (a : PageAudit). is_failure a.outcome) r.ocr_corrections))))
              ++ when (not (same_pages (audited_pages r) (expected_pages r))) (
                  missing_correction_pages
                    (keep (λ p. not (has_page (audited_pages r) p)) (expected_pages r)))))

  -- `reasons`
  pub fidelity_reasons : FidelityReport Coverage → List Reason
  unfolding image_reasons
  fidelity_reasons r =
      text_reasons r ++ (if reads_images r.extraction_mode then image_reasons r else [])

  -- `_verify_semantic_fidelity_snapshot`, on what the report's parser gives
  unfoldable pub verify_fidelity :
      Option (FidelityReport Coverage) → Bool → Result ReleaseBlocked (FidelityReport Coverage)
  unfolding fidelity_reasons
  verify_fidelity none candidate_verified = err fidelity_report_invalid
  verify_fidelity (some r) candidate_verified =
      let reasons = fidelity_reasons r in
      if candidate_verified || is_empty reasons then ok r else err (fidelity_gate_failed reasons)

  pub verify_fidelity-same :
      (s : FidelityReport Coverage) (b : Bool) (r : FidelityReport Coverage)
      → verify_fidelity (some s) b ≡ ok r
      → s ≡ r
  unfolding verify_fidelity
  verify_fidelity-same s b r h = elim (Bool-cases (b || is_empty (fidelity_reasons s))) [
    | inl e ↦ ok_injective {E = ReleaseBlocked} s r (ground (arith, e, h))
    | inr e ↦ absurd (ground (arith, e, h))
  ]

  -- what the gate requires of a report on any source
  pub record IsFaithfulText (r : FidelityReport Coverage) : Type 0 where
    pub not_failed : is_failed r.status ≡ false
    pub matched : r.unmatched_span_count ≡ 0
    pub not_duplicated : r.duplicated_span_count ≡ 0
    pub not_degraded : r.degraded_block_count ≡ 0
    pub covered : below_one r.source_text_coverage ≡ false

  is_empty-append : (xs ys : List Reason) → is_empty (xs ++ ys) ≡ (is_empty xs && is_empty ys)
  is_empty-append [] ys = refl
  is_empty-append (x ∷ xs) ys = refl

  is_empty-when : (b : Bool) (x : Reason) → is_empty (when b x) ≡ not b
  is_empty-when true x = refl
  is_empty-when false x = refl

  image_reasons_iff :
      (r : FidelityReport Coverage)
      → is_empty (image_reasons r) ≡ (
          is_empty r.warning_codes
          && (r.ocr_correction_rejected_count == 0
              && (not (any (λ (a : PageAudit). is_failure a.outcome) r.ocr_corrections)
                  && same_pages (audited_pages r) (expected_pages r))))
  unfolding image_reasons
  image_reasons_iff r = grind (arith, is_empty-append, is_empty-when)

  text_reasons_iff :
      (r : FidelityReport Coverage)
      → is_empty (text_reasons r) ≡ (
          not (is_failed r.status)
          && (r.unmatched_span_count == 0
              && (r.duplicated_span_count == 0
                  && (not (below_one r.source_text_coverage) && r.degraded_block_count == 0))))
  text_reasons_iff r = grind (arith, is_empty-append, is_empty-when)

  -- Of a report that the parser reads the gate lets pass exactly those that are verified by a
  -- candidate, or are faithful: on any source IsFaithfulText, on one read from images
  -- IsFaithfulImages besides.
  pub verify_fidelity_iff :
      (r : FidelityReport Coverage) (candidate_verified : Bool)
      → (verify_fidelity (some r) candidate_verified ≡ ok r) ↔ (
          (candidate_verified ≡ true)
          ⊎ (IsFaithfulText r × ((reads_images r.extraction_mode ≡ false) ⊎ IsFaithfulImages r)))
  unfolding verify_fidelity fidelity_reasons
  verify_fidelity_iff r candidate_verified = ground (
    arith,
    is_empty-append (text_reasons r)
        (if reads_images r.extraction_mode then image_reasons r else []),
    text_reasons_iff r,
    image_reasons_iff r,
  )

abbrev pub is_verified : PipelineStatus → Bool
is_verified verified = true
is_verified _ = false

-- `_verify_candidate_validation_snapshot`, on what the report's parser gives of the file
unfoldable pub verify_validation : Option ValidationReport → Result ReleaseBlocked Bool
verify_validation none = err validation_report_invalid
verify_validation (some v) =
    if is_verified v.status && v.publishable
    then ok true
    else err (validation_not_verified v.status)

unfoldable pub verify_candidate_validation :
    {Bytes : Type 0} → (Bytes → Option ValidationReport) → Dict Bytes → Result ReleaseBlocked Bool
unfolding get verify_validation
verify_candidate_validation parse_validation snapshots =
    elim (get snapshots "quality/validation-report.json") [
      | none ↦ ok false
      | some bytes ↦ verify_validation (parse_validation bytes)
    ]
