-- ===== src/Dispatch/Checks.antt =====
-- src/ard_ossie/application/release_dispatch.py: what is read from the result of the publication.
use Prim.Native.Char.{code}
use Prim.Native.Nat.{◌-◌}
use Prim.Native.String.{String, ◌++◌}
use ard_ossie_provider.Prelude.{
  ℕ, ◌+◌, ◌*◌, Bool, true, false, not, ◌&&◌, ◌||◌, Option, none, some, [], ◌∷◌, leb, ◌==◌,
  if◌then◌else◌, Result, ok, err, ◌>>=◌, raise_if,
}
use ard_ossie_provider.Prelude.Text.{str_eq}
use ard_ossie_provider.Prelude.Slices.{starts}
use ard_ossie_provider.Prelude.Separated.{has_char}
use ard_ossie_provider.Prelude.Sorting.{sort_by}
use ard_ossie_provider.Prelude.Dict.{Dict}
use ard_ossie_provider.Models.Patterns.{is_id, is_sha256}
use ard_ossie_provider.Json.{Json, text, number, object, Fields, no_fields, field}
use ard_ossie_provider.Workflow.{
  WorkflowResult, WorkflowStatus, succeeded, security_error, validation_error,
}
use ard_ossie_provider.Release.{tag}
use ard_ossie_provider.Shell.{Raised, workflow}
use ard_ossie_provider.Shell.GitHub.{lookup}
use ard_ossie_provider.Dispatch.{Ports}

abbrev pub refused : String → Raised
refused code = workflow (security_error code)

-- `_required_string`, on `result.outputs.get(key)`
unfoldable pub required_string : Option Json → Result Raised String
required_string (some (text s)) =
    if str_eq s "" then err (refused "RELEASE_RESULT_INVALID") else ok s
required_string _ = err (refused "RELEASE_RESULT_INVALID")

-- the value of the literal of an integer that is not negative, after digits of value `n`
unfoldable pub digits_value : ℕ → String → Option ℕ
digits_value n String.[] = some n
digits_value n (String.◌∷◌ c s) =
    if leb b'0' (code c) && leb (code c) b'9'
    then digits_value (10 * n + (code c - b'0')) s
    else none

-- `version` where it is an `int` in 1..999
unfoldable pub required_version : Option Json → Result Raised ℕ
unfolding digits_value
required_version (some (number s)) = elim (digits_value 0 s) [
  | none ↦ err (refused "RELEASE_VERSION_INVALID")
  | some n ↦ if leb 1 n && leb n 999 then ok n else err (refused "RELEASE_VERSION_INVALID")
]
required_version _ = err (refused "RELEASE_VERSION_INVALID")

-- `".." in Path(name).parts`, from a part of which two points or fewer were read
unfoldable pub has_parent_from : Option ℕ → String → Bool
has_parent_from dots String.[] = elim dots [ none ↦ false | some n ↦ n == 2 ]
has_parent_from dots (String.◌∷◌ c s) =
    if code c == b'/'
    then elim dots [ none ↦ false | some n ↦ n == 2 ] || has_parent_from (some 0) s
    else has_parent_from
        (if code c == b'.' then elim dots [ none ↦ none | some n ↦ some (n + 1) ] else none) s

-- the name is a relative path that stays below its root, and the value is a digest
unfoldable pub is_safe_entry : String → Json → Bool
unfolding has_char starts has_parent_from is_sha256
is_safe_entry name (text digest) =
    not (str_eq name "")
    && (not (has_char "\\" name)
        && (not (has_char "\0" name)
            && (not (starts name "/")
                && (not (has_parent_from (some 0) name) && is_sha256 digest))))
is_safe_entry name _ = false

-- the loop over the entries
unfoldable pub validated_entries : Fields → Result Raised (Dict String)
unfolding is_safe_entry
validated_entries no_fields = ok []
validated_entries (field name (text digest) fs) =
    if is_safe_entry name (text digest)
    then (do rest ← validated_entries fs; ok ((name, digest) ∷ rest))
    else err (refused "ARTIFACT_HASHES_INVALID")
validated_entries (field name _ fs) = err (refused "ARTIFACT_HASHES_INVALID")

-- `_validated_artifact_hashes`
unfoldable pub validated_artifact_hashes : Option Json → Result Raised (Dict String)
unfolding validated_entries sort_by
validated_artifact_hashes (some (object (field name j fs))) = do
  entries ← validated_entries (field name j fs)
  ok (sort_by (λ (e : String × String). e.0) entries)
validated_artifact_hashes _ = err (refused "ARTIFACT_HASHES_INVALID")

abbrev pub is_succeeded : WorkflowStatus → Bool
is_succeeded succeeded = true
is_succeeded _ = false

-- the envelope, where it is of a publication that succeeded
unfoldable pub approved : Option WorkflowResult → Result Raised WorkflowResult
approved none = err (workflow (validation_error "RELEASE_RESULT_INVALID"))
approved (some result) =
    if str_eq result.command "workflow.release-product" && is_succeeded result.status
    then ok result
    else err (refused "RELEASE_RESULT_NOT_APPROVED")

-- `_load_release_result`
unfoldable pub load_release_result : Ports → String → Result Raised WorkflowResult
unfolding approved
load_release_result ports path =
    if str_eq path (ports.root ++ "/.ard/run/workflow.release-product-result.json")
    then (do envelope ← ports.read_result path; approved envelope)
    else err (refused "RELEASE_RESULT_PATH_NOT_TRUSTED")

-- what the checks keep of the result
pub record Released : Type 0 where
  pub product_id : String
  pub version : ℕ
  pub tag_name : String
  pub commit : String

-- the fields of the result up to the test of the tag
unfoldable pub read_released : WorkflowResult → Result Raised Released
unfolding required_string required_version lookup is_id tag
read_released result = do
  product_id ← required_string (lookup result.outputs "product_id")
  tag_name ← required_string (lookup result.outputs "product_tag")
  commit ← required_string (lookup result.outputs "commit")
  _ ← raise_if (not (is_id "prd_" product_id)) (refused "RELEASE_PRODUCT_ID_INVALID")
  version ← required_version (lookup result.outputs "version")
  _ ←
      raise_if (not (str_eq tag_name (tag "product" product_id version)))
        (refused "RELEASE_TAG_MISMATCH")
  ok (record { product_id = product_id; version = version; tag_name = tag_name; commit = commit })
