-- ===== src/Finalize.antt =====
-- src/ard_ossie/application/finalize.py: `FinalizeService`. The file system port is an argument.
pub mod Safe
pub mod Kept
mod Tests
use Prim.Native.String.{◌++◌}
use ard_ossie_provider.Prelude.{
  ℕ, Bool, true, false, not, ◌&&◌, ◌||◌, Option, none, some, List, [], ◌∷◌, ◌++◌ as ◌+++◌, String,
  any, ltb, if◌then◌else◌, Result, ok, err, and_then,
}
use ard_ossie_provider.Prelude.Text.{str_eq, opt_str_eq, contains}
use ard_ossie_provider.Prelude.Separated.{has_char}
use ard_ossie_provider.Prelude.Slices.{starts, ends, drop_text, text_length}
use ard_ossie_provider.Json.{Json, text, boolean, no_items, Fields, no_fields, field}
use ard_ossie_provider.Workflow as W
use ard_ossie_provider.Workflow.{
  MutationRecord, WorkflowStatus, WorkflowResult, make_result, security_error, validation_error,
}
use ard_ossie_provider.Shell.{Shell, Machine, Raised, workflow, ◌>>=◌, give, raise, lift, stop_if}
use ard_ossie_provider.Shell.Text.{is_sha}
use ard_ossie_provider.Shell.GitHub.{lookup}
use ard_ossie_provider.Shell.Pulls.{get_status, set_status}
use ard_ossie_provider.Shell.Issues.{set_issue_labels, upsert_pr_comment}

pub data Upstream : Type 0 where
  success failure cancelled skipped : Upstream

pub record Request : Type 0 where
  pub repository : String
  pub upstream_result : Upstream
  -- the absolute form of `result_path`
  pub result_path : Option String
  pub issue_number : Option ℕ
  pub pr_number : Option ℕ
  pub expected_head : Option String
  pub target_url : String
  pub publish_success_statuses : Bool
  pub authoritative_statuses : Bool

pub record Ports : Type 0 where
  pub root : String
  -- what the port raises for the path of the result, or the parsed envelope where it is one
  pub read_result : String → Result Raised (Option WorkflowResult)

abbrev pub upstream_text : Upstream → String
upstream_text success = "success"
upstream_text failure = "failure"
upstream_text cancelled = "cancelled"
upstream_text skipped = "skipped"

-- the path is of a file with the suffix `.json` that stands in `.ard/run` itself
unfoldable pub is_trusted : String → String → Bool
unfolding starts ends drop_text text_length has_char
is_trusted root path =
    let folder = root ++ "/.ard/run/" in
    let name = drop_text (text_length folder) path in
    starts path folder
    && (not (has_char "/" name) && (ends name ".json" && ltb 5 (text_length name)))

-- the envelope, where it can be parsed
abbrev pub parsed : Option WorkflowResult → Result Raised WorkflowResult
parsed none = err (workflow (validation_error "INVALID_FINALIZE_RESULT"))
parsed (some result) = ok result

-- `_load_prior`
unfoldable pub load_prior : Ports → String → Result Raised WorkflowResult
unfolding is_trusted
load_prior ports path =
    if is_trusted ports.root path
    then and_then (ports.read_result path) parsed
    else err (workflow (security_error "FINALIZE_RESULT_PATH_NOT_TRUSTED"))

-- `prior`, for which every given path is read
unfoldable pub prior_of : Ports → Request → Result Raised (Option WorkflowResult)
unfolding load_prior
prior_of ports request = elim (request.result_path) [
  | none ↦ ok none
  | some path ↦ and_then (load_prior ports path) λ result. ok (some result)
]

abbrev is_success : Upstream → Bool
is_success success = true
is_success _ = false

abbrev is_failed : WorkflowStatus → Bool
is_failed W.failed = true
is_failed _ = false

-- `succeeded`
unfoldable pub has_succeeded : Request → Option WorkflowResult → Bool
has_succeeded request none = is_success request.upstream_result
has_succeeded request (some prior) =
    is_success request.upstream_result && not (is_failed prior.status)

abbrev text_of : Option Json → Option String
text_of (some (text s)) = some s
text_of _ = none

abbrev pub first_of : Option String → Option String → Option String
first_of none later = later
first_of (some s) later = some s

-- `prior_head`
unfoldable pub prior_head : Option WorkflowResult → Option String
unfolding lookup
prior_head none = none
prior_head (some prior) =
    first_of (text_of (lookup prior.outputs "current_head"))
      (text_of (lookup prior.outputs "expected_head"))

-- the heads that are known, the one of the request first
abbrev pub known_of : Option String → Option String → List String
known_of none none = []
known_of none (some p) = p ∷ []
known_of (some e) none = e ∷ []
known_of (some e) (some p) = e ∷ p ∷ []

-- `len(set(known)) > 1`
abbrev pub disagree : List String → Bool
disagree (e ∷ p ∷ rest) = not (str_eq e p)
disagree _ = false

abbrev pub first_known : List String → Option String
first_known [] = none
first_known (s ∷ rest) = some s

-- `_known_head`
unfoldable pub known_head : Request → Option WorkflowResult → Result Raised (Option String)
unfolding prior_head is_sha
known_head request prior =
    let known = known_of request.expected_head (prior_head prior) in
    if any (λ s. not (is_sha s)) known
    then err (workflow (validation_error "INVALID_FINALIZE_HEAD"))
    else (if disagree known
        then err (workflow (security_error "FINALIZE_HEAD_MISMATCH"))
        else ok (first_known known))

abbrev outcome_text : Bool → String
outcome_text succeeded = if succeeded then "success" else "failure"

abbrev command_of : Option WorkflowResult → String
command_of none = "unavailable"
command_of (some prior) = prior.command

-- `_summary`
unfoldable pub summary : Request → Option WorkflowResult → Bool → String
summary request prior succeeded =
    "ARD workflow finalization: **"
    ++ (outcome_text succeeded
        ++ ("**.\n\nUpstream job: `"
            ++ (upstream_text request.upstream_result
                ++ ("`. Result command: `" ++ (command_of prior ++ "`.")))))

-- what is added to the labels and removed from them
abbrev pub added_labels : Bool → List String
added_labels succeeded = if succeeded then [] else "ard:failed" ∷ []

abbrev pub removed_labels : Bool → List String
removed_labels succeeded =
    if succeeded then "ard:processing" ∷ "ard:failed" ∷ [] else "ard:processing" ∷ []

-- the status of a context stays as it is
unfoldable pub is_kept : Request → Bool → Option String → Bool
is_kept request succeeded existing =
    opt_str_eq existing (some (outcome_text succeeded))
    || not succeeded
      && (not request.authoritative_statuses
          && (opt_str_eq existing (some "success") || opt_str_eq existing (some "failure")))

abbrev pub contexts : List String
contexts = "ard/changeset" ∷ "ard/quality-gate" ∷ []

abbrev description_of : Bool → String
description_of succeeded =
    if succeeded
    then "Repository validation passed"
    else "ARD workflow did not complete successfully"

abbrev with_head : Option String → Fields
with_head none = no_fields
with_head (some head) = field "expected_head" (text head) no_fields

-- the result for the mutations
unfoldable pub result_of : Request → Bool → Option String → List MutationRecord → WorkflowResult
unfolding make_result
result_of request succeeded head mutations = make_result (record {
  command = "workflow.finalize";
  status = if any (λ item. not (str_eq item.action "noop")) mutations then W.succeeded else W.noop;
  outputs =
      field "finalized_success" (boolean succeeded)
        (field "upstream_result" (text (upstream_text request.upstream_result)) (with_head head));
  artifacts = [];
  findings = no_items;
  mutations = mutations;
  retryable = false;
})

module _ {Bytes : Type 0} (m : Machine Bytes) (raw_decode : String → Option (Json × String)) where
  -- the labels of the issue
  unfoldable pub update_issue : Bool → Option ℕ → Shell Bytes (List MutationRecord)
  unfolding set_issue_labels
  update_issue succeeded none = give []
  update_issue succeeded (some n) =
      set_issue_labels m raw_decode n (added_labels succeeded) (removed_labels succeeded)

  -- the comment of the pull request
  unfoldable pub comment_pull : String → Option ℕ → Shell Bytes (List MutationRecord)
  unfolding upsert_pr_comment
  comment_pull body none = give []
  comment_pull body (some n) = do
    mutation ← upsert_pr_comment m raw_decode n "ard:finalize" body
    give (mutation ∷ [])

  -- one context
  unfoldable pub post_unless :
      Request → Bool → String → String → Option String → Shell Bytes (List MutationRecord)
  unfolding set_status is_kept
  post_unless request succeeded head context existing =
      if is_kept request succeeded existing then give [] else (do
        mutation ←
            set_status m head context (outcome_text succeeded) (description_of succeeded)
              request.target_url
        give (mutation ∷ []))

  -- the loop over the contexts
  unfoldable pub post_contexts :
      Request → Bool → String → List String → Shell Bytes (List MutationRecord)
  unfolding get_status post_unless
  post_contexts request succeeded head [] = give []
  post_contexts request succeeded head (context ∷ rest) = do
    existing ← get_status m head context
    posted ← post_unless request succeeded head context existing
    later ← post_contexts request succeeded head rest
    give (posted +++ later)

  -- the statuses of the head
  unfoldable pub post_statuses : Request → Bool → Option String → Shell Bytes (List MutationRecord)
  unfolding post_contexts
  post_statuses request succeeded none = give []
  post_statuses request succeeded (some head) =
      if not succeeded || request.publish_success_statuses
      then post_contexts request succeeded head contexts
      else give []

  -- the three kinds of changes, one after the other
  unfoldable pub publish :
      Request → Option WorkflowResult → Option String → Shell Bytes WorkflowResult
  unfolding has_succeeded update_issue comment_pull summary post_statuses result_of
  publish request prior head = do
    labels ← update_issue (has_succeeded request prior) request.issue_number
    comments ← comment_pull (summary request prior (has_succeeded request prior)) request.pr_number
    statuses ← post_statuses request (has_succeeded request prior) head
    give (result_of request (has_succeeded request prior) head (labels +++ (comments +++ statuses)))

  -- `FinalizeService.run`
  unfoldable pub run : Ports → Request → Shell Bytes WorkflowResult
  unfolding prior_of known_head publish
  run ports request = do
    _ ←
        stop_if (not (str_eq request.repository ports.root))
          (workflow (security_error "FINALIZE_REPOSITORY_MISMATCH"))
    prior ← lift (prior_of ports request)
    head ← lift (known_head request prior)
    publish request prior head
