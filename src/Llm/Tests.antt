-- ===== src/Llm/Tests.antt =====
-- Runs of src/ard_ossie/llm/service.py, and its theorems at concrete inputs.
use ard_ossie_provider.Prelude.{
  ◌≡◌, refl, true, false, Option, none, some, List, [], ◌∷◌, String, if◌then◌else◌, subst, Result,
  ok, err,
}
use ard_ossie_provider.Prelude.Text.{str_eq}
use ard_ossie_provider.Json.{Json, object, no_fields}
use ard_ossie_provider.Llm.{
  LlmResult, ProviderError, transient, configuration, nothing, is_error_code,
}
use ard_ossie_provider.Llm.Fence.{strip_json_fence}
use ard_ossie_provider.Llm.Service.{Event, asked, slept, generate_structured}
use ard_ossie_provider.Llm.Accounts.{IsSettled, generate_structured-IsSettled}
use ard_ossie_provider.Llm.GivesUp.{HasCause, generate_structured-HasCause}

codes_tested : (is_error_code "LLM_INVALID_JSON" ≡ true) × (is_error_code "_X" ≡ false)
unfolding is_error_code
codes_tested = (refl, refl)

fence_stripped : strip_json_fence " ```json\n{}\n```\n" ≡ "{}"
unfolding strip_json_fence
fence_stripped = refl

-- the two marks share their line break
fence_empty : strip_json_fence "```json\n```" ≡ ""
unfolding strip_json_fence
fence_empty = refl

abbrev failure : String → ProviderError
failure code = record {
  code = code;
  kind = transient;
  rejected_result = nothing;
  retry_count = 0;
  repair_count = 0;
}

abbrev answer : String → LlmResult
answer content = record {
  text = content;
  structured = none;
  metadata = record {
    profile = "ard-default";
    provider = "azure_openai";
    model = "gpt";
    request_id = none;
    input_tokens = none;
    output_tokens = none;
    finish_reason = none;
    elapsed_ms = 12;
    retry_count = 0;
    repair_count = 0;
  };
  repair_validation_codes = [];
}

-- a time-out, then a text that is no JSON, then an object
abbrev flaky : List (Event String) → Result ProviderError LlmResult
flaky (asked _ ∷ []) = err (failure "LLM_TIMEOUT")
flaky (asked _ ∷ slept _ ∷ log) = ok (answer "no")
flaky log = ok (answer "{}")

abbrev loads : String → Option Json
loads s = if str_eq s "{}" then some (object no_fields) else none

repaired_after_retry :
    (generate_structured flaky (λ code. code ∷ "ask" ∷ []) loads (λ _. true) ("ask" ∷ [])).1
    ≡ asked ("LLM_INVALID_JSON" ∷ "ask" ∷ [])
      ∷ asked ("ask" ∷ [])
      ∷ slept 0
      ∷ asked ("ask" ∷ [])
      ∷ []
unfolding generate_structured
repaired_after_retry = refl

flaky_proper :
    (log : List (Event String)) (e : ProviderError)
    → flaky log ≡ err e
    → is_error_code e.code ≡ true
unfolding is_error_code
flaky_proper (asked _ ∷ []) e h =
    let same : failure "LLM_TIMEOUT" ≡ e = cc in
    subst (λ (d : ProviderError). is_error_code d.code ≡ true) same refl
flaky_proper (asked _ ∷ slept _ ∷ log) e h = cc
flaky_proper (asked _ ∷ asked _ ∷ log) e h = cc
flaky_proper (slept _ ∷ log) e h = cc
flaky_proper [] e h = cc

generate_structured-IsSettled_example :
    IsSettled
      (λ _. true)
      (generate_structured flaky (λ code. code ∷ "ask" ∷ []) loads (λ _. true) ("ask" ∷ []))
generate_structured-IsSettled_example =
    generate_structured-IsSettled (λ _. true) flaky (λ code. code ∷ "ask" ∷ []) loads flaky_proper
      ("ask" ∷ [])

-- a provider without a configuration
abbrev refusing : List (Event String) → Result ProviderError LlmResult
refusing log = err (record (failure "LLM_NOT_CONFIGURED") { kind = configuration })

refusing_proper :
    (log : List (Event String)) (e : ProviderError)
    → refusing log ≡ err e
    → is_error_code e.code ≡ true
unfolding is_error_code
refusing_proper log e h =
    let same : record (failure "LLM_NOT_CONFIGURED") { kind = configuration } ≡ e = cc in
    subst (λ (d : ProviderError). is_error_code d.code ≡ true) same refl

generate_structured-HasCause_example :
    HasCause refusing
      (generate_structured refusing (λ code. code ∷ []) loads (λ _. true) ("ask" ∷ [])).0
      (generate_structured refusing (λ code. code ∷ []) loads (λ _. true) ("ask" ∷ [])).1
generate_structured-HasCause_example =
    generate_structured-HasCause refusing (λ code. code ∷ []) loads (λ _. true) refusing_proper
      ("ask" ∷ [])
