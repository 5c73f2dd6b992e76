-- ===== src/Workflow/Tests.antt =====
-- Runs of src/ard_ossie/application/contracts.py, and its theorem at a concrete input.
use ard_ossie_provider.Prelude.{◌≡◌, refl, true, false, []}
use ard_ossie_provider.Json.{text, object, no_items, no_fields, field}
use ard_ossie_provider.Workflow.{WorkflowResult, succeeded, make_result}
use ard_ossie_provider.Workflow.Sensitive.{is_sensitive}
use ard_ossie_provider.Workflow.Redaction.{IsRedacted, make_result-IsRedacted}

keys_tested :
    (is_sensitive "API_Key" ≡ true)
    × (is_sensitive "github-token" ≡ true)
    × (is_sensitive "product_key" ≡ false)
    × (is_sensitive "tokens" ≡ false)
unfolding is_sensitive
keys_tested = (refl, refl, refl, refl)

abbrev with_secret : WorkflowResult
with_secret = record {
  command = "workflow.llm";
  status = succeeded;
  outputs = field "product" (object (field "access-token" (text "s3cret") no_fields)) no_fields;
  artifacts = [];
  findings = no_items;
  mutations = [];
  retryable = false;
}

secret_hidden :
    (make_result with_secret).outputs
    ≡ field "product" (object (field "access-token" (text "***") no_fields)) no_fields
unfolding make_result is_sensitive
secret_hidden = refl

make_result-IsRedacted_example : IsRedacted with_secret (make_result with_secret)
make_result-IsRedacted_example = make_result-IsRedacted with_secret
