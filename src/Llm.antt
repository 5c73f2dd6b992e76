-- ===== src/Llm.antt =====
-- src/ard_ossie/llm/contracts.py and llm/service.py: the service that asks a language model for a
-- JSON object, retries and has its answers repaired. The provider is a parameter: what it answers
-- to a request may depend on all that went before. `json.loads`, the JSON schema's validation and
-- the printing of a repair instruction are parameters too.
pub mod Service
pub mod Checks
pub mod Accounts
pub mod GivesUp
mod Tests
pub mod Fence
use Prim.Native.Char.{Char, code}
use ard_ossie_provider.Prelude.{
  ℕ, zero, suc, Bool, true, false, ◌&&◌, ◌||◌, Option, List, String, leb, ◌==◌, if◌then◌else◌,
  Result, ok, err,
}
use ard_ossie_provider.Json.{Json}

is_upper : Char → Bool
is_upper c = leb b'A' (code c) && leb (code c) b'Z'

-- `[A-Z0-9_]{0,n}`
code_rest : ℕ → String → Bool
unfolding is_upper
code_rest n String.[] = true
code_rest zero (String.◌∷◌ c s) = false
code_rest (suc n) (String.◌∷◌ c s) =
    (is_upper c || leb b'0' (code c) && leb (code c) b'9' || code c == b'_') && code_rest n s

-- `_ERROR_CODE`: `^[A-Z][A-Z0-9_]{0,127}$`
unfoldable pub is_error_code : String → Bool
unfolding is_upper code_rest
is_error_code String.[] = false
is_error_code (String.◌∷◌ c s) = is_upper c && code_rest 127 s

-- `ProviderFailureKind`
pub data FailureKind : Type 0 where
  configuration transient output : FailureKind

-- `LLMMetadata`
pub record LlmMetadata : Type 0 where
  pub profile : String
  pub provider : String
  pub model : String
  pub request_id : Option String
  pub input_tokens : Option ℕ
  pub output_tokens : Option ℕ
  pub finish_reason : Option String
  pub elapsed_ms : ℕ
  pub retry_count : ℕ
  pub repair_count : ℕ

-- `LLMResult`; `structured` is `None` or any value that the provider put there
pub record LlmResult : Type 0 where
  pub text : String
  pub structured : Option Json
  pub metadata : LlmMetadata
  pub repair_validation_codes : List String

-- what an error may carry as `rejected_result`
pub data Rejected : Type 0 where
  nothing : Rejected
  other_object : Rejected
  rejected : LlmResult → Rejected

-- `ProviderExecutionError`
pub record ProviderError : Type 0 where
  pub code : String
  pub kind : FailureKind
  pub rejected_result : Rejected
  pub retry_count : ℕ
  pub repair_count : ℕ

-- what leaves the service as an exception: the provider's error, a `ValueError` of the error's own
-- constructor, or the assertion at the end of a loop
pub data Raised : Type 0 where
  provider_error : ProviderError → Raised
  invalid_provider_error_code invalid_provider_attempt_count : Raised
  unreachable : Raised

-- the constructor of `ProviderExecutionError`
unfoldable pub make_error : String → FailureKind → Rejected → ℕ → ℕ → Result Raised ProviderError
unfolding is_error_code
make_error code kind rejected_result retry_count repair_count =
    if is_error_code code
    then (if leb retry_count 2 && leb repair_count 2
        then ok (record {
          code = code;
          kind = kind;
          rejected_result = rejected_result;
          retry_count = retry_count;
          repair_count = repair_count;
        })
        else err invalid_provider_attempt_count)
    else err invalid_provider_error_code
