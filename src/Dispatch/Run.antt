-- ===== src/Dispatch/Run.antt =====
-- src/ard_ossie/application/release_dispatch.py: `run`.
use Prim.Native.String.{◌++◌}
use ard_ossie_provider.Prelude.{
  Bool, true, false, not, ◌||◌, Option, some, List, [], ◌∷◌, String, if◌then◌else◌, ok, err,
}
use ard_ossie_provider.Prelude.Text.{str_eq, opt_str_eq}
use ard_ossie_provider.Prelude.Dict.{Dict}
use ard_ossie_provider.Json.{
  Json, text, number, boolean, array, object, no_items, item, Fields, no_fields, field,
}
use ard_ossie_provider.Workflow as W
use ard_ossie_provider.Workflow.{
  WorkflowResult, WorkflowStatus, MutationRecord, make_result, is_partial, partial, security_error,
}
use ard_ossie_provider.Release.{decimal}
use ard_ossie_provider.Shell.{
  Shell, Machine, Raised, workflow, other, ◌>>=◌, give, raise, lift, stop_if,
}
use ard_ossie_provider.Shell.Text.{is_sha}
use ard_ossie_provider.Shell.GitHub.{lookup}
use ard_ossie_provider.Shell.Git.{current_sha}
use ard_ossie_provider.Shell.Pulls.{get_status, set_status, repository_dispatch}
use ard_ossie_provider.Dispatch.{Request, Ports}
use ard_ossie_provider.Dispatch.Checks.{
  Released, read_released, load_release_result, validated_artifact_hashes,
}

-- `artifact_hashes` as a JSON object
abbrev pub hashes_json : Dict String → Fields
hashes_json [] = no_fields
hashes_json ((name, digest) ∷ d) = field name (text digest) (hashes_json d)

-- `f"ard/dispatched:{product_id}:v{version}"`
unfoldable pub context_of : Released → String
unfolding decimal
context_of r = "ard/dispatched:" ++ (r.product_id ++ (":v" ++ decimal r.version))

-- `payload`
unfoldable pub payload_of : Released → Dict String → Json
unfolding decimal
payload_of r hashes = object (
    field "product_id" (text r.product_id) (
      field "version" (number (decimal r.version)) (
        field "tag" (text r.tag_name) (
          field "commit" (text r.commit)
            (field "artifact_hashes" (object (hashes_json hashes)) no_fields)))))

-- `outputs`
unfoldable pub outputs_of : Released → Dict String → Bool → Fields
unfolding decimal
outputs_of r hashes dispatched = field "product_id" (text r.product_id) (
    field "version" (number (decimal r.version)) (
      field "tag" (text r.tag_name) (
        field "commit" (text r.commit) (
          field "artifact_hashes" (object (hashes_json hashes)) (
            field "deduplication_key"
              (array (
                item (text r.product_id) (
                  item (number (decimal r.version))
                    (item (text r.tag_name) (item (text r.commit) no_items)))))
              (field "dispatched" (boolean dispatched) no_fields))))))

module _ {Bytes : Type 0} (m : Machine Bytes) where
  -- the test of the commit; git is asked only where the result names the commit
  unfoldable pub check_commit : String → String → Shell Bytes (Unit {0})
  unfolding current_sha is_sha
  check_commit commit current =
      if str_eq commit current
      then (do
        head ← current_sha m
        stop_if (not (str_eq head current) || not (is_sha commit))
            (workflow (security_error "RELEASE_COMMIT_MISMATCH")))
      else raise (workflow (security_error "RELEASE_COMMIT_MISMATCH"))

  unfoldable pub result_of :
      Released → Dict String → WorkflowStatus → Bool → List MutationRecord → WorkflowResult
  unfolding outputs_of make_result
  result_of r hashes status dispatched mutations = make_result (record {
    command = "workflow.release-dispatch";
    status = status;
    outputs = outputs_of r hashes dispatched;
    artifacts = [];
    findings = no_items;
    mutations = mutations;
    retryable = false;
  })

  -- the `except` clauses after the dispatch
  unfoldable pub partial_of : Released → Dict String → MutationRecord → Raised → Raised
  unfolding outputs_of
  partial_of r hashes mutation (other name) = other name
  partial_of r hashes mutation (workflow e) =
      if is_partial e
      then workflow e
      else workflow (record {
        code = "RELEASE_DISPATCH_PARTIAL";
        exit_code = partial;
        retryable = e.retryable;
        outputs = outputs_of r hashes true;
        artifacts = [];
        mutations = mutation ∷ [];
      })

  -- the status, inside the `try`
  unfoldable pub mark_dispatched :
      Request → Released → Dict String → MutationRecord → Shell Bytes MutationRecord
  unfolding set_status context_of partial_of
  mark_dispatched request r hashes mutation log =
      let act =
        set_status m r.commit (context_of r) "success" "Approved downstream linkage dispatched"
          request.target_url log in
      elim (act.0) [ ok a ↦ (ok a, act.1) | err e ↦ (err (partial_of r hashes mutation e), act.1) ]

  -- the release was not dispatched before
  unfoldable pub dispatch : Request → Released → Dict String → Shell Bytes WorkflowResult
  unfolding repository_dispatch payload_of mark_dispatched result_of
  dispatch request r hashes = do
    dispatched ← repository_dispatch m "ard_product_released" (payload_of r hashes)
    marked ← mark_dispatched request r hashes dispatched
    give (result_of r hashes W.succeeded true (dispatched ∷ marked ∷ []))

  -- on the status of the commit
  unfoldable pub dispatch_unless :
      Request → Released → Dict String → Option String → Shell Bytes WorkflowResult
  unfolding dispatch result_of
  dispatch_unless request r hashes status =
      if opt_str_eq status (some "success")
      then give (result_of r hashes W.noop false [])
      else dispatch request r hashes

  -- `ReleaseDispatchService.run`
  unfoldable pub run : Ports → Request → Shell Bytes WorkflowResult
  unfolding load_release_result read_released check_commit validated_artifact_hashes lookup
      get_status context_of dispatch_unless
  run ports request = do
    _ ←
        stop_if (not (str_eq request.repository ports.root))
          (workflow (security_error "RELEASE_DISPATCH_REPOSITORY_MISMATCH"))
    result ← lift (load_release_result ports request.result_path)
    r ← lift (read_released result)
    _ ← check_commit r.commit request.current
    hashes ← lift (validated_artifact_hashes (lookup result.outputs "artifact_hashes"))
    status ← get_status m r.commit (context_of r)
    dispatch_unless request r hashes status
