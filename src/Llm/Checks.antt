-- ===== src/Llm/Checks.antt =====
-- src/ard_ossie/llm/service.py: what the check of an answer gives.
use ard_ossie_provider.Prelude.{
  ◌≡◌, refl, arith, subst, Bool, true, false, Option, none, some, String, if◌then◌else◌, Result, ok,
  err, ◌>>=◌, in_chain,
}
use ard_ossie_provider.Json.{Json}
use ard_ossie_provider.Llm.{LlmResult, ProviderError, is_error_code}
use ard_ossie_provider.Llm.Service.{is_output}
use ard_ossie_provider.Llm.Fence.{
  strip_json_fence, is_object, output_error, candidate_of, check_candidate, validate_result,
}

-- an error with a proper code, of the kind that a repair answers
abbrev pub IsViolation : ProviderError → Type 0
IsViolation e = (is_error_code e.code ≡ true) × (is_output e.kind ≡ true)

module _ (loads : String → Option Json) (conforms : Json → Bool) where
  proper_code :
      (code : String) (e : ProviderError)
      → ◌≡◌ {A = Result ProviderError Json} (err (output_error code)) (err e)
      → is_error_code code ≡ true
      → IsViolation e
  proper_code code e h v =
      let same : output_error code ≡ e = cc in
      subst (λ (d : ProviderError). IsViolation d) same (v, refl)

  candidate_code :
      (r : LlmResult) (o : Option Json) (e : ProviderError)
      → candidate_of loads conforms r o ≡ err e
      → IsViolation e
  unfolding candidate_of is_error_code
  candidate_code r (some j) e h = cc
  candidate_code r none e h = split (loads (strip_json_fence r.text)) h
    where
      split :
          (o : Option Json)
          → ◌≡◌ {A = Result ProviderError Json}
              (elim o [
                | none ↦ err (output_error "LLM_INVALID_JSON")
                | some candidate ↦ ok candidate
              ])
              (err e)
          → IsViolation e
      split none h = proper_code "LLM_INVALID_JSON" e h refl
      split (some j) h = cc

  check_code :
      (j : Json) (e : ProviderError) → check_candidate loads conforms j ≡ err e → IsViolation e
  unfolding check_candidate is_error_code
  check_code j e h = split (is_object j) (conforms j) h
    where
      split :
          (b c : Bool)
          → (if b
              then (if c then ok j else err (output_error "LLM_SCHEMA_VIOLATION"))
              else err (output_error "LLM_RESPONSE_NOT_OBJECT"))
            ≡ err e
          → IsViolation e
      split true true h = cc
      split true false h = proper_code "LLM_SCHEMA_VIOLATION" e h refl
      split false c h = proper_code "LLM_RESPONSE_NOT_OBJECT" e h refl

  check-ok :
      (j k : Json)
      → check_candidate loads conforms j ≡ ok k
      → (is_object k ≡ true) × (conforms k ≡ true)
  unfolding check_candidate
  check-ok j k h = ground (arith, h)

  chain_code :
      (c : Result ProviderError Json) (e : ProviderError)
      → ((d : ProviderError) → c ≡ err d → IsViolation d)
      → (c >>= check_candidate loads conforms) ≡ err e
      → IsViolation e
  chain_code (ok j) e v h = check_code j e h
  chain_code (err d) e v h = v e h

  -- every error of the check itself is one
  pub validate_result-IsViolation :
      (r : LlmResult) (e : ProviderError) → validate_result loads conforms r ≡ err e → IsViolation e
  unfolding validate_result
  validate_result-IsViolation r e h =
      chain_code (candidate_of loads conforms r r.structured) e (candidate_code r r.structured) h

  -- what the check lets pass is an object that conforms
  pub validated :
      (r : LlmResult) (k : Json)
      → validate_result loads conforms r ≡ ok k
      → (is_object k ≡ true) × (conforms k ≡ true)
  unfolding validate_result
  validated r k h =
      in_chain (candidate_of loads conforms r r.structured) (check_candidate loads conforms) k h
        λ j ej hj. check-ok j k hj
