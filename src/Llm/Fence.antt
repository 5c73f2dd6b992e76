-- ===== src/Llm/Fence.antt =====
-- src/ard_ossie/llm/service.py: the Markdown fence around an answer, and the check of an answer.
use Prim.Native.Nat.{◌-◌}
use ard_ossie_provider.Prelude.{
  Bool, true, false, ◌&&◌, Option, none, some, String, if◌then◌else◌, Result, ok, err, ◌>>=◌,
}
use ard_ossie_provider.Prelude.Slices.{strip, starts, ends, drop_text, take_text, text_length}
use ard_ossie_provider.Json.{Json, object}
use ard_ossie_provider.Llm.{LlmResult, ProviderError, output, nothing}

-- `_output_error`
abbrev pub output_error : String → ProviderError
output_error code = record {
  code = code;
  kind = output;
  rejected_result = nothing;
  retry_count = 0;
  repair_count = 0;
}

-- `s[8:-4]`
unfoldable pub inside_fence : String → String
unfolding drop_text take_text text_length
inside_fence s = drop_text 8 (take_text (text_length s - 4) s)

-- `_strip_json_fence`
unfoldable pub strip_json_fence : String → String
unfolding strip starts ends inside_fence
strip_json_fence content =
    let stripped = strip content in
    if starts stripped "```json\n" && ends stripped "\n```"
    then strip (inside_fence stripped)
    else stripped

-- `isinstance(candidate, dict)`
abbrev pub is_object : Json → Bool
is_object (object _) = true
is_object _ = false

-- `json.loads`, and `jsonschema.validate` with the schema
module _ (loads : String → Option Json) (conforms : Json → Bool) where
  -- `candidate`
  unfoldable pub candidate_of : LlmResult → Option Json → Result ProviderError Json
  unfolding strip_json_fence
  candidate_of result (some structured) = ok structured
  candidate_of result none = elim (loads (strip_json_fence result.text)) [
    | none ↦ err (output_error "LLM_INVALID_JSON")
    | some candidate ↦ ok candidate
  ]

  unfoldable pub check_candidate : Json → Result ProviderError Json
  check_candidate candidate =
      if is_object candidate
      then (if conforms candidate then ok candidate else err (output_error "LLM_SCHEMA_VIOLATION"))
      else err (output_error "LLM_RESPONSE_NOT_OBJECT")

  -- `_validate_result`
  unfoldable pub validate_result : LlmResult → Result ProviderError Json
  unfolding candidate_of check_candidate
  validate_result result = do
    candidate ← candidate_of result result.structured
    check_candidate candidate
