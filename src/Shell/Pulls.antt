-- ===== src/Shell/Pulls.antt =====
-- src/ard_ossie/adapters/github_cli.py: pull requests, commit statuses and repository events.
use ard_ossie_provider.Prelude.{
  and_then, ◌&&◌, ℕ, Bool, true, false, not, Option, none, some, List, [], ◌∷◌, String, ◌==◌,
  if◌then◌else◌, Result, ok,
}
use Prim.Native.String.{◌++◌}
use ard_ossie_provider.Prelude.Text.{str_eq, contains}
use ard_ossie_provider.Prelude.Slices.{strip}
use ard_ossie_provider.Json.{Json, text, number, object, Fields}
use ard_ossie_provider.Workflow.{MutationRecord}
use ard_ossie_provider.Shell.{
  Shell, Machine, CommandResult, Raised, other, get_pull, get_commit_status, post_status,
  post_dispatch, ◌>>=◌, give, raise, lift, stop_if, sh, succeeded,
}
use ard_ossie_provider.Shell.Text.{github_sha, bad_name}
use ard_ossie_provider.Shell.GitHub.{
  lookup, mapping, items, required_text, text_or, truthy, required_int, PullRequestState, decode,
}

-- `str(value)` where only a text of 40 digits counts
abbrev printed : Json → String
printed (text s) = s
printed (number s) = s
printed _ = ""

abbrev when_true : Bool → Json → Option String
when_true true j = some (printed j)
when_true false j = none

-- `str(payload[key]) if payload.get(key) else None`
unfoldable pub given_text : Option Json → Option String
unfolding truthy
given_text none = none
given_text (some j) = when_true (truthy (some j)) j

module _ {Bytes : Type 0} (m : Machine Bytes) where
  unfoldable pub optional_sha : Option String → Result Raised (Option String)
  unfolding github_sha
  optional_sha none = ok none
  optional_sha (some s) = and_then (github_sha m.casefold s) λ sha. ok (some sha)

  -- `_pull_request`
  unfoldable pub read_pull : Fields → Shell Bytes PullRequestState
  unfolding required_int lookup text_or github_sha truthy given_text optional_sha
  read_pull fs = do
    n ← lift (required_int m.int_of (lookup fs "number"))
    branch ← lift (required_text (mapping (lookup fs "head")) "ref")
    head ← lift (required_text (mapping (lookup fs "head")) "sha")
    head_sha ← lift (github_sha m.casefold head)
    base ← lift (required_text (mapping (lookup fs "base")) "ref")
    merge_sha ← lift (optional_sha (given_text (lookup fs "merge_commit_sha")))
    url ← lift (required_text fs "html_url")
    give (record {
      number = n;
      head_branch = branch;
      head_sha = head_sha;
      base_branch = base;
      draft = truthy (lookup fs "draft");
      merged_at = given_text (lookup fs "merged_at");
      merge_sha = merge_sha;
      url = url;
    })

  -- `_mapping`-like access to an answer; an array has no `get`
  abbrev pub fields_of : Json → Shell Bytes Fields
  fields_of (object fs) = give fs
  fields_of _ = raise (other "AttributeError")

  -- `get_pr`
  unfoldable pub get_pr : ℕ → Shell Bytes PullRequestState
  unfolding decode read_pull
  get_pr n = do
    _ ← stop_if (n == 0) (other "ValueError")
    result ← sh m (get_pull n)
    answer ← lift (decode m result "GITHUB_API_FAILED")
    fs ← fields_of answer
    read_pull fs

  -- the first status of a context
  unfoldable pub find_status : List Fields → String → Option String
  unfolding lookup
  find_status [] context = none
  find_status (fs ∷ rest) context =
      let later = find_status rest context in
      elim (lookup fs "context") [
        | some (text s) ↦
            if str_eq s context
            then elim (lookup fs "state") [ none ↦ some "None" | some j ↦ some (printed j) ]
            else later
        | _ ↦ later
      ]

  -- `get_status`
  unfoldable pub get_status : String → String → Shell Bytes (Option String)
  unfolding github_sha decode find_status items lookup
  get_status sha context = do
    target ← lift (github_sha m.casefold sha)
    result ← sh m (get_commit_status target)
    answer ← lift (decode m result "GITHUB_API_FAILED")
    fs ← fields_of answer
    give (find_status (items (lookup fs "statuses")) context)

  -- `set_status`
  unfoldable pub set_status :
      String → String → String → String → String → Shell Bytes MutationRecord
  unfolding github_sha decode
  set_status sha context state description target_url = do
    target ← lift (github_sha m.casefold sha)
    _ ←
        stop_if (not (contains ("error" ∷ "failure" ∷ "pending" ∷ "success" ∷ []) state))
          (other "ValueError")
    result ← sh m (post_status target context state description target_url)
    _ ← lift (decode m result "GITHUB_API_FAILED")
    give (record {
      resource = "status";
      target = target ++ (":" ++ context);
      action = "set";
      result_id = none;
    })

  -- what `_api_json` makes of an answer that may be empty
  unfoldable pub empty_or_decoded : CommandResult → Result Raised (Unit {0})
  unfolding strip decode
  empty_or_decoded result =
      if succeeded result && str_eq (strip result.stdout) ""
      then ok tt
      else and_then (decode m result "GITHUB_API_FAILED") λ _. ok tt

  -- `repository_dispatch`
  unfoldable pub repository_dispatch : String → Json → Shell Bytes MutationRecord
  unfolding bad_name empty_or_decoded
  repository_dispatch event_type payload = do
    _ ← stop_if (bad_name event_type) (other "ValueError")
    result ← sh m (post_dispatch event_type payload)
    _ ← lift (empty_or_decoded result)
    give (record {
      resource = "repository_dispatch";
      target = event_type;
      action = "dispatch";
      result_id = none;
    })
