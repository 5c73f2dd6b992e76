-- ===== src/Finalize/Safe.antt =====
-- src/ard_ossie/application/finalize.py: what a finalization writes.
use ard_ossie_provider.Prelude.{
  ◌≡◌, ◌↔◌, ◌⊎◌, Bool, true, false, not, Option, none, some, List, String, if◌then◌else◌, ok, arith,
}
use ard_ossie_provider.Prelude.Text.{contains}
use ard_ossie_provider.Json.{Json}
use ard_ossie_provider.Workflow.{WorkflowResult, succeeded, noop}
use ard_ossie_provider.Shell.{
  Machine, Command, put_labels, post_comment, patch_comment, post_status,
}
use ard_ossie_provider.Shell.Text.{github_sha}
use ard_ossie_provider.Shell.Issues.{rendered_comment}
use ard_ossie_provider.Shell.Emits.{Emits}
use ard_ossie_provider.Shell.Reads.{is_read}
use ard_ossie_provider.Finalize.{
  Request, Ports, success, prior_of, has_succeeded, known_head, summary, contexts,
}

-- what the labels of an issue say after a finalization
pub record ShowsOutcome (good : Bool) (labels : List String) : Type 0 where
  pub failed_shown : contains labels "ard:failed" ≡ not good
  pub not_processing : contains labels "ard:processing" ≡ false

-- no prior result, or one that did not fail
abbrev pub IsPassed : Option WorkflowResult → Type 0
IsPassed none = Unit
IsPassed (some prior) = (prior.status ≡ succeeded) ⊎ (prior.status ≡ noop)

pub has_succeeded_iff :
    (request : Request) (prior : Option WorkflowResult)
    → (has_succeeded request prior ≡ true) ↔ ((request.upstream_result ≡ success) × IsPassed prior)
unfolding has_succeeded
has_succeeded_iff request none = ground arith
has_succeeded_iff request (some prior) = ground arith

module _ {Bytes : Type 0} (m : Machine Bytes) (raw_decode : String → Option (Json × String))
    (ports : Ports) (request : Request) where
  -- the result that the request names, where it names one, can be read, and ended like this
  pub record IsPrior (prior : Option WorkflowResult) (good : Bool) : Type 0 where
    pub read : prior_of ports request ≡ ok prior
    pub outcome : (good ≡ true) ↔ ((request.upstream_result ≡ success) × IsPassed prior)

  -- what a finalization may run: the labels, the comment and the statuses tell this outcome
  abbrev pub IsHonest : Command Bytes → Type 0
  IsHonest (put_labels n labels) =
      (prior : Option WorkflowResult) × (s : Bool) × IsPrior prior s
      × (request.issue_number ≡ some n)
      × ShowsOutcome s labels
  IsHonest (post_comment n body) =
      (prior : Option WorkflowResult) × (s : Bool) × IsPrior prior s
      × (request.pr_number ≡ some n)
      × (body ≡ rendered_comment "ard:finalize" (summary request prior s))
  IsHonest (patch_comment id body) =
      (prior : Option WorkflowResult) × (s : Bool) × IsPrior prior s
      × (body ≡ rendered_comment "ard:finalize" (summary request prior s))
  IsHonest (post_status sha context state description url) =
      (prior : Option WorkflowResult) × (s : Bool) × IsPrior prior s
      × ((head : String) × (known_head request prior ≡ ok (some head))
          × (github_sha m.casefold head ≡ ok sha))
      × (contains contexts context ≡ true)
      × (state ≡ (if s then "success" else "failure"))
  IsHonest c = is_read c ≡ true
