-- ===== src/Workflow.antt =====
-- src/ard_ossie/application/contracts.py: what the services of the workflows return and raise, and
-- the redaction of secrets in what they return. The messages of the errors are left out.
pub mod Sensitive
pub mod Redaction
mod Tests
use ard_ossie_provider.Prelude.{
  ℕ, Bool, true, false, Option, none, some, List, [], ◌∷◌, String, ◌==◌, if◌then◌else◌,
}
use ard_ossie_provider.Json.{
  Json, text, array, object, Items, no_items, item, Fields, no_fields, field,
}
use ard_ossie_provider.Workflow.Sensitive.{is_sensitive}

-- `ExitCode`
pub data ExitCode : Type 0 where
  success validation configuration transient conflict security partial : ExitCode

abbrev pub exit_number : ExitCode → ℕ
exit_number success = 0
exit_number validation = 10
exit_number configuration = 20
exit_number transient = 30
exit_number conflict = 40
exit_number security = 50
exit_number partial = 70

-- `WorkflowStatus`
pub data WorkflowStatus : Type 0 where
  succeeded failed noop : WorkflowStatus

-- `MutationRecord`
pub record MutationRecord : Type 0 where
  pub resource : String
  pub target : String
  pub action : String
  pub result_id : Option String

-- `WorkflowError`, with the fields of `WorkflowPartialError`, which are empty in the others
pub record WorkflowError : Type 0 where
  pub code : String
  pub exit_code : ExitCode
  pub retryable : Bool
  pub outputs : Fields
  pub artifacts : List String
  pub mutations : List MutationRecord

-- `WorkflowValidationError`, `WorkflowTransientError`, `WorkflowConflict`, `WorkflowSecurityError`
abbrev raised : String → ExitCode → Bool → WorkflowError
raised code exit_code retryable = record {
  code = code;
  exit_code = exit_code;
  retryable = retryable;
  outputs = no_fields;
  artifacts = [];
  mutations = [];
}

abbrev pub validation_error : String → WorkflowError
validation_error code = raised code validation false

abbrev pub transient_error : String → WorkflowError
transient_error code = raised code transient true

abbrev pub configuration_error : String → WorkflowError
configuration_error code = raised code configuration false

abbrev pub conflict_error : String → WorkflowError
conflict_error code = raised code conflict false

abbrev pub security_error : String → WorkflowError
security_error code = raised code security false

-- `isinstance(error, WorkflowPartialError)`: no other class has this exit code
abbrev pub is_partial : WorkflowError → Bool
is_partial e = exit_number e.exit_code == 70

-- `WorkflowResult`
pub record WorkflowResult : Type 0 where
  pub command : String
  pub status : WorkflowStatus
  pub outputs : Fields
  pub artifacts : List String
  pub findings : Items
  pub mutations : List MutationRecord
  pub retryable : Bool

unfoldable mutual
  unfolding is_sensitive

  -- `_redact_mapping_values` of a value that stands under no key
  pub redact : Json → Json
  redact (array xs) = array (redact_items xs)
  redact (object fs) = object (redact_fields fs)
  redact j = j

  pub redact_items : Items → Items
  redact_items no_items = no_items
  redact_items (item j xs) = item (redact j) (redact_items xs)

  pub redact_fields : Fields → Fields
  redact_fields no_fields = no_fields
  redact_fields (field key j fs) =
      let rest = redact j in
      field key (if is_sensitive key then text "***" else rest) (redact_fields fs)

-- the construction of a result, which redacts its outputs and findings
unfoldable pub make_result : WorkflowResult → WorkflowResult
unfolding redact
make_result r = record r { outputs = redact_fields r.outputs; findings = redact_items r.findings }
