-- ===== src/Llm/Service.antt =====
-- src/ard_ossie/llm/service.py: `LLMService`. The log of an execution holds the requests to the
-- provider and the pauses, the newest first.
use ard_ossie_provider.Prelude.{
  ℕ, zero, suc, ◌+◌, Bool, true, false, ◌&&◌, ◌||◌, not, Option, some, List, [], ◌∷◌, ◌++◌, String,
  leb, ltb, ◌==◌, if◌then◌else◌, Result, ok, err,
}
use ard_ossie_provider.Json.{Json}
use ard_ossie_provider.Llm.{
  FailureKind, transient, output, LlmResult, Rejected, rejected, ProviderError, Raised,
  provider_error, unreachable, make_error,
}
use ard_ossie_provider.Llm.Fence.{validate_result}

-- `_MAX_TOTAL_ATTEMPTS`
abbrev pub max_total_attempts : ℕ
max_total_attempts = 3

-- `_MAX_REPAIRS`
abbrev pub max_repairs : ℕ
max_repairs = 2

-- a request with its messages, or the pause before a retry with the number of the retry
pub data Event (Message : Type 0) : Type 0 where
  asked : List Message → Event Message
  slept : ℕ → Event Message

-- `_with_counts`
unfoldable pub with_counts : LlmResult → ℕ → ℕ → List String → LlmResult
with_counts result retries repairs repair_codes = record result {
  metadata = record (result.metadata) {
    retry_count = if leb retries 2 then retries else 2;
    repair_count = repairs;
  };
  repair_validation_codes = repair_codes;
}

-- `_with_attempt_counts`, and the `raise` of what it gives
unfoldable pub with_attempt_counts : ProviderError → ℕ → ℕ → Raised
unfolding make_error
with_attempt_counts error retries repairs =
    elim (make_error error.code error.kind error.rejected_result retries repairs) [
      | ok e ↦ provider_error e
      | err raised ↦ raised
    ]

-- the variables of the loop, and the log
pub record Progress (Message : Type 0) : Type 0 where
  pub retries : ℕ
  pub repairs : ℕ
  pub repair_codes : List String
  pub active_messages : List Message
  pub log : List (Event Message)

abbrev pub is_transient : FailureKind → Bool
is_transient transient = true
is_transient _ = false

abbrev pub is_output : FailureKind → Bool
is_output output = true
is_output _ = false

-- `isinstance(error.rejected_result, LLMResult)`
abbrev pub is_result : Rejected → Bool
is_result (rejected _) = true
is_result _ = false

-- how a round of the loop ends: with a `continue`, or by leaving the method
pub data Round (Message : Type 0) : Type 0 where
  again : Progress Message → Round Message
  leave : Result Raised LlmResult → List (Event Message) → Round Message

module _ {Message : Type 0} (provider : List (Event Message) → Result ProviderError LlmResult)
    (repair : String → List Message) (loads : String → Option Json) (conforms : Json → Bool) where
  -- the pause before the next retry
  abbrev retried : Progress Message → Progress Message
  retried p = record p { retries = p.retries + 1; log = slept p.retries ∷ p.log }

  -- the next request is the repair of the original messages
  abbrev repaired : Progress Message → String → Progress Message
  repaired p code = record p {
    repairs = p.repairs + 1;
    repair_codes = p.repair_codes ++ (code ∷ []);
    active_messages = repair code;
  }

  -- the test of the second `if` of an `except` clause, on an error that may be repaired
  abbrev gives_up : ℕ → Progress Message → ProviderError → Bool
  gives_up attempt p error =
      not (is_output error.kind) || leb max_repairs p.repairs || attempt + 1 == max_total_attempts

  -- `except ProviderExecutionError` around the request
  unfoldable pub on_error : ℕ → Progress Message → ProviderError → Round Message
  unfolding with_attempt_counts
  on_error attempt p error =
      if is_transient error.kind && ltb attempt 2
      then again (retried p)
      else (if not (is_result error.rejected_result) || gives_up attempt p error
          then leave (err (with_attempt_counts error p.retries p.repairs)) p.log
          else again (repaired p error.code))

  -- `except ProviderExecutionError` around the check of the answer
  unfoldable pub on_violation : ℕ → Progress Message → ProviderError → Round Message
  unfolding with_attempt_counts
  on_violation attempt p error =
      if gives_up attempt p error
      then leave (err (with_attempt_counts error p.retries p.repairs)) p.log
      else again (repaired p error.code)

  -- what follows an answer
  unfoldable pub on_answer : ℕ → Progress Message → LlmResult → Round Message
  unfolding validate_result on_violation with_counts
  on_answer attempt p result = elim (validate_result loads conforms result) [
    | err error ↦ on_violation attempt p error
    | ok structured ↦
        leave
          (ok (
            with_counts (record result { structured = some structured }) p.retries p.repairs
              p.repair_codes))
          p.log
  ]

  -- the request of a round
  abbrev asking : Progress Message → Progress Message
  asking p = record p { log = asked p.active_messages ∷ p.log }

  unfoldable pub attempt_round : ℕ → Progress Message → Round Message
  unfolding on_error on_answer
  attempt_round attempt p = elim (provider (asking p).log) [
    | err error ↦ on_error attempt (asking p) error
    | ok result ↦ on_answer attempt (asking p) result
  ]

  -- `for attempt in range(_MAX_TOTAL_ATTEMPTS)`, with the rounds that are left
  unfoldable pub attempts :
      ℕ → ℕ → Progress Message → Result Raised LlmResult × List (Event Message)
  unfolding attempt_round
  attempts zero attempt p = (err unreachable, p.log)
  attempts (suc left) attempt p = elim (attempt_round attempt p) [
    | again p' ↦ attempts left (attempt + 1) p'
    | leave result log ↦ (result, log)
  ]

  -- `_generate_structured`
  unfoldable pub generate_structured : List Message → Result Raised LlmResult × List (Event Message)
  unfolding attempts
  generate_structured messages =
      attempts max_total_attempts 0 (record {
        retries = 0;
        repairs = 0;
        repair_codes = [];
        active_messages = messages;
        log = [];
      })

-- `_retry`, with the rounds that are left, around the request for a text
module _ {Message : Type 0} (provider : List (Event Message) → Result ProviderError LlmResult)
    (messages : List Message) where
  unfoldable pub retry :
      ℕ → ℕ → List (Event Message) → Result Raised (LlmResult × ℕ) × List (Event Message)
  retry zero attempt log = (err unreachable, log)
  retry (suc left) attempt log = elim (provider (asked messages ∷ log)) [
    | ok result ↦ (ok (result, attempt), asked messages ∷ log)
    | err error ↦
        let rest = retry left (attempt + 1) (slept attempt ∷ asked messages ∷ log) in
        if not (is_transient error.kind) || attempt + 1 == max_total_attempts
        then (err (provider_error error), asked messages ∷ log)
        else rest
  ]

  unfoldable pub counted :
      Result Raised (LlmResult × ℕ) × List (Event Message)
      → Result Raised LlmResult × List (Event Message)
  unfolding with_counts
  counted (err raised, log) = (err raised, log)
  counted (ok (result, retries), log) = (ok (with_counts result retries 0 []), log)

  -- `generate_text`
  unfoldable pub generate_text : Result Raised LlmResult × List (Event Message)
  unfolding retry counted
  generate_text = counted (retry max_total_attempts 0 [])

-- `_repair_messages` and `_repair_multimodal_messages`: one instruction, printed into one message,
-- before the original messages
unfoldable pub repair_messages :
    {Message : Type 0} → (String → Message) → List Message → String → List Message
repair_messages instruct original code = instruct code ∷ original
