-- ===== src/Finalize/Tests.antt =====
-- Runs of src/ard_ossie/application/finalize.py, and its theorems at concrete inputs.
use ard_ossie_provider.Prelude.{
  ◌≡◌, refl, sym, subst, ◌∙◌, true, false, Option, none, some, List, [], ◌∷◌, String, ok,
  ok_injective, inl, inr, ◌⊎◌, eq_iff, arith,
}
use ard_ossie_provider.Prelude.Text.{contains}
use ard_ossie_provider.Shell.Pulls.{get_status}
use ard_ossie_provider.Prelude.Sets.{dedupe}
use ard_ossie_provider.Workflow.{WorkflowResult}
use ard_ossie_provider.Json.{Json, number, object, array, text, item, no_items, no_fields, field}
use ard_ossie_provider.Shell.{
  Machine, CommandResult, Command, Raised, get_issue, put_labels, get_comments, post_comment,
  get_commit_status, post_status, ◌>>=◌,
}
use ard_ossie_provider.Shell.Emits.{Extends}
use ard_ossie_provider.Shell.Issues.{rendered_comment}
use ard_ossie_provider.Finalize.{
  Request, Ports, contexts, failure, is_trusted, prior_of, known_head, summary, run,
}
use ard_ossie_provider.Finalize.Kept.{IsNoStatus, HasFailed, AreReported, run_keeps_reported}

paths_tested :
    (is_trusted "/repo" "/repo/.ard/run/a.json" ≡ true)
    × (is_trusted "/repo" "/repo/.ard/run/.json" ≡ false)
    × (is_trusted "/repo" "/repo/.ard/run/b/a.json" ≡ false)
    × (is_trusted "/repo" "/repo/.ard/a.json" ≡ false)
unfolding is_trusted
paths_tested = (refl, refl, refl, refl)

abbrev head : String
head = "0123456789abcdef0123456789abcdef01234567"

abbrev ports : Ports
ports = record { root = "/repo"; read_result = λ path. ok none }

abbrev request : Request
request = record {
  repository = "/repo";
  upstream_result = failure;
  result_path = none;
  issue_number = some 3;
  pr_number = some 4;
  expected_head = some head;
  target_url = "";
  publish_success_statuses = false;
  authoritative_statuses = false;
}

-- the answers, of which the kind stands in the output
abbrev reply : List (Command String) → CommandResult
reply (get_issue _ ∷ log) = record { returncode = 0; stdout = "issue"; stderr = "" }
reply (get_comments _ ∷ log) = record { returncode = 0; stdout = "comments"; stderr = "" }
reply (get_commit_status _ ∷ log) = record { returncode = 0; stdout = "status"; stderr = "" }
reply log = record { returncode = 0; stdout = "{}"; stderr = "" }

abbrev status_named : String → String → Json
status_named context state =
    object (field "context" (text context) (field "state" (text state) no_fields))

-- GitHub that has the statuses it is given
abbrev machine : Json → Machine String
machine statuses = record {
  reply = reply;
  failure = λ log. none;
  loads = λ s. some (
      object (
        field "id" (number "7") (
          field "labels"
            (array (item (object (field "name" (text "ard:processing") no_fields)) no_items))
            (field "statuses" statuses no_fields))));
  int_of = λ j. some 7;
  casefold = λ s. s;
  sha256 = λ b. "";
}

abbrev raw_decode : String → Option (Json × String)
raw_decode s = some (array no_items, "")

written :
    (run (machine (array no_items)) raw_decode ports request []).1
    ≡ post_status head "ard/quality-gate" "failure" "ARD workflow did not complete successfully" ""
      ∷ get_commit_status head
      ∷ post_status head "ard/changeset" "failure" "ARD workflow did not complete successfully" ""
      ∷ get_commit_status head
      ∷ post_comment 4 (rendered_comment "ard:finalize" (summary request none false))
      ∷ get_comments 4
      ∷ put_labels 3 ("ard:failed" ∷ [])
      ∷ get_issue 3
      ∷ []
unfolding run ◌>>=◌ dedupe
written = refl

-- both contexts were reported as successes
abbrev reported : Json
reported = array (
    item (status_named "ard/changeset" "success")
      (item (status_named "ard/quality-gate" "success") no_items))

request-HasFailed : HasFailed (machine reported) raw_decode ports request
request-HasFailed prior e k = ground (arith, k)

head_read :
    (prior : Option WorkflowResult)
    → prior_of ports request ≡ ok prior
    → known_head request prior ≡ ok (some head)
unfolding prior_of known_head
head_read prior e =
    subst (λ p. known_head request p ≡ ok (some head)) (ok_injective {E = Raised} none prior e) refl

head_only :
    (prior : Option WorkflowResult) (h : String)
    → prior_of ports request ≡ ok prior
    → known_head request prior ≡ ok (some h)
    → head ≡ h
head_only prior h e k =
    let same : some head ≡ some h =
      ok_injective {E = Raised} (some head) (some h) (sym (head_read prior e) ∙ k) in
    cc

context_named :
    (context : String)
    → contains contexts context ≡ true
    → ("ard/changeset" ≡ context) ⊎ ("ard/quality-gate" ≡ context)
context_named context h =
    ground (arith, h, eq_iff "ard/changeset" context, eq_iff "ard/quality-gate" context)

success_found :
    (context : String) (log : List (Command String))
    → ("ard/changeset" ≡ context) ⊎ ("ard/quality-gate" ≡ context)
    → (get_status (machine reported) head context log).0 ≡ ok (some "success")
unfolding get_status ◌>>=◌
success_found context log (inl e) =
    subst (λ c. (get_status (machine reported) head c log).0 ≡ ok (some "success")) e refl
success_found context log (inr e) =
    subst (λ c. (get_status (machine reported) head c log).0 ≡ ok (some "success")) e refl

request-AreReported : AreReported (machine reported) raw_decode ports request
request-AreReported prior h context log e k c = (
  some "success",
  subst (λ h'. (get_status (machine reported) h' context log).0 ≡ ok (some "success"))
      (head_only prior h e k) (success_found context log (context_named context c)),
  inl refl,
)

run_keeps_reported_example :
    Extends IsNoStatus [] (run (machine reported) raw_decode ports request []).1
run_keeps_reported_example =
    run_keeps_reported (machine reported) raw_decode ports request [] refl request-HasFailed
      request-AreReported
