-- ===== src/Publication/Run.antt =====
-- src/ard_ossie/application/release_publication.py: the checks before a publication, the
-- publication, and `run`.
use Prim.Native.String.{◌++◌ as ◌+++◌}
use ard_ossie_provider.Prelude.{
  map, false, not, Option, none, some, List, [], ◌∷◌, ◌++◌, String, if◌then◌else◌, Result, ok, err,
}
use ard_ossie_provider.Prelude.Text.{str_eq}
use ard_ossie_provider.Prelude.Dict.{Dict, get, put}
use ard_ossie_provider.Json.{Fields, no_items}
use ard_ossie_provider.Impact.{ChangeSetRecord, ProductReadiness, ready, blocked, status}
use ard_ossie_provider.Registry.{load, get_changeset}
use ard_ossie_provider.Registry.Files.{Disk}
use ard_ossie_provider.Release.{ReleasePlan, decimal}
use ard_ossie_provider.Workflow as W
use ard_ossie_provider.Workflow.{
  WorkflowError, WorkflowResult, MutationRecord, make_result, is_partial, conflict_error,
  security_error, partial,
}
use ard_ossie_provider.Shell.{
  Shell, Machine, Raised, workflow, other, ◌>>=◌, give, lift, stop_if, now,
}
use ard_ossie_provider.Shell.Git.{
  current_sha, tag_target, create_annotated_tag, push_tags, is_ancestor,
}
use ard_ossie_provider.Shell.Pulls.{get_pr}
use ard_ossie_provider.Shell.Release.{get_release, upsert_release}
use ard_ossie_provider.Publication.{
  Request, Ports, or_conflict, verified_bytes, verify_existing_release, verify_targets, Prepared,
  tags_of, bundle_name, outputs_of,
}

abbrev stopped : String → Raised
stopped code = workflow (conflict_error code)

module _ {Bytes : Type 0} (m : Machine Bytes) where
  -- `_require_current_head`
  unfoldable pub require_current_head : String → Shell Bytes (Unit {0})
  unfolding current_sha
  require_current_head expected = do
    head ← current_sha m
    stop_if (not (str_eq head expected)) (workflow (security_error "RELEASE_HEAD_MISMATCH"))

  -- the merge commit of a pull request that is merged
  unfoldable pub merged_commit : Option String → Option String → Result Raised String
  merged_commit (some _) (some sha) = ok sha
  merged_commit _ _ = err (stopped "CHANGESET_PR_NOT_MERGED")

  -- one round of the loop over the required products
  unfoldable pub check_pull : String → ProductReadiness → Shell Bytes (Unit {0})
  unfolding get_pr merged_commit is_ancestor
  check_pull current readiness = do
    pull ← get_pr m readiness.pr_number
    _ ←
        stop_if (not (str_eq pull.head_sha readiness.head_sha))
          (stopped "CHANGESET_HEAD_SHA_MISMATCH")
    merge_sha ← lift (merged_commit pull.merged_at pull.merge_sha)
    reachable ← is_ancestor m merge_sha current
    stop_if (not reachable) (stopped "CHANGESET_MERGE_NOT_REACHABLE")

  -- `changeset.ready_products[product_id]`
  unfoldable pub readiness_of : Option ProductReadiness → Result Raised ProductReadiness
  readiness_of none = err (other "KeyError")
  readiness_of (some readiness) = ok readiness

  unfoldable pub check_pulls : String → Dict ProductReadiness → List String → Shell Bytes (Unit {0})
  unfolding check_pull get readiness_of
  check_pulls current ready_products [] = give tt
  check_pulls current ready_products (id ∷ ids) = do
    readiness ← lift (readiness_of (get ready_products id))
    _ ← check_pull current readiness
    check_pulls current ready_products ids

  -- the changeset, where it is complete
  unfoldable pub complete_changeset : Option ChangeSetRecord → Result Raised ChangeSetRecord
  unfolding status
  complete_changeset none = err (stopped "CHANGESET_INCOMPLETE")
  complete_changeset (some c) = elim (status c) [
    | ready ↦ ok c
    | blocked ↦ err (stopped "CHANGESET_INCOMPLETE")
  ]

  unfoldable pub registered : Option Disk → String → Result Raised ChangeSetRecord
  unfolding complete_changeset load
  registered none id = err (stopped "RELEASE_REGISTRY_INVALID")
  registered (some d) id = complete_changeset (get_changeset (load d) id)

  -- `_verify_changeset_readiness`
  unfoldable pub verify_changeset_readiness :
      Option Disk → Option String → String → Shell Bytes (Unit {0})
  unfolding registered check_pulls
  verify_changeset_readiness disk none current = give tt
  verify_changeset_readiness disk (some id) current = do
    changeset ← lift (registered disk id)
    check_pulls current changeset.ready_products changeset.required_product_ids

  -- `{tag: self.git.tag_target(tag) for tag in tags}`
  unfoldable pub targets_of :
      List String → Dict (Option String) → Shell Bytes (Dict (Option String))
  unfolding tag_target put
  targets_of [] targets = give targets
  targets_of (tag ∷ tags) targets = do
    target ← tag_target m tag
    targets_of tags (put targets tag target)

  -- `_require_bundle_unchanged`
  unfoldable pub require_unchanged : Option Bytes → String → Result Raised (Unit {0})
  require_unchanged none sha256 = err (stopped "RELEASE_BUNDLE_CHANGED")
  require_unchanged (some bytes) sha256 =
      if str_eq (m.sha256 bytes) sha256 then ok tt else err (stopped "RELEASE_BUNDLE_CHANGED")

  module _ (ports : Ports Bytes) where
    -- from the plan to the bundle's verified bytes
    unfoldable pub build_bundle : ReleasePlan → Shell Bytes Bytes
    unfolding verified_bytes
    build_bundle plan = do
      _ ← now (λ log. ports.sources log plan.product_key)
      _ ← lift (or_conflict "RELEASE_BUNDLE_BUILD_FAILED" (ports.bundle_builder plan))
      _ ← lift (ports.resolve_bundle plan)
      now λ log. verified_bytes m ports.open_zip plan.artifact_hashes (ports.bundle_file log)

    -- the checks of the tags and of the release that are there
    unfoldable pub check_remote :
        Request → ReleasePlan → String → Bytes → Shell Bytes (Prepared Bytes)
    unfolding require_current_head targets_of verify_targets get_release verify_existing_release
        require_unchanged bundle_name
    check_remote request plan artifact payload = do
      _ ← require_current_head request.current
      targets ← targets_of (tags_of plan) []
      _ ← lift (verify_targets targets request.current)
      existing ← get_release m plan.product_tag
      _ ← lift (verify_existing_release existing plan (bundle_name plan) (m.sha256 payload))
      _ ← now (λ log. require_unchanged (ports.bundle_file log) (m.sha256 payload))
      give (record {
        plan = plan;
        asset_name = bundle_name plan;
        artifact = artifact;
        payload = payload;
        artifact_sha256 = m.sha256 payload;
        targets = targets;
      })

    -- `run` up to the first mutation
    unfoldable pub prepare : Request → Shell Bytes (Prepared Bytes)
    unfolding require_current_head verify_changeset_readiness build_bundle check_remote
    prepare request = do
      _ ←
          stop_if (not (str_eq request.repository ports.root))
            (workflow (security_error "RELEASE_REPOSITORY_MISMATCH"))
      _ ← require_current_head request.current
      _ ← now (λ log. ports.sources log request.product_key)
      plan ← lift (or_conflict "RELEASE_PLAN_INVALID" (ports.plan_resolver request))
      _ ← verify_changeset_readiness ports.registry plan.changeset_id request.current
      artifact ← lift (ports.bundle_path plan)
      payload ← build_bundle plan
      check_remote request plan artifact payload

  abbrev tag_mutation : String → MutationRecord
  tag_mutation tag = record { resource = "tag"; target = tag; action = "create"; result_id = none }

  -- one round of the loop over the tags, on `existing_targets[tag]`: the tags that it makes
  unfoldable pub create_one : String → String → Option (Option String) → Shell Bytes (List String)
  unfolding create_annotated_tag
  create_one current tag (some (some target)) = give []
  create_one current tag _ = do _ ← create_annotated_tag m tag current; give (tag ∷ [])

  -- the loop over the tags: the new ones
  unfoldable pub create_tags :
      String → Dict (Option String) → List String → Shell Bytes (List String)
  unfolding create_one get
  create_tags current targets [] = give []
  create_tags current targets (tag ∷ tags) = do
    new ← create_one current tag (get targets tag)
    rest ← create_tags current targets tags
    give (new ++ rest)

  -- the `except` clauses once a remote call was attempted
  unfoldable pub partial_of : Fields → String → List MutationRecord → Raised → Raised
  partial_of outputs artifact mutations (other name) = other name
  partial_of outputs artifact mutations (workflow e) =
      if is_partial e
      then workflow e
      else workflow (record {
        code = "RELEASE_PUBLICATION_PARTIAL";
        exit_code = partial;
        retryable = e.retryable;
        outputs = outputs;
        artifacts = artifact ∷ [];
        mutations = mutations;
      })

  unfoldable pub guarded :
      {A : Type 0} → Fields → String → List MutationRecord → Shell Bytes A → Shell Bytes A
  unfolding partial_of
  guarded outputs artifact mutations body log = elim ((body log).0) [
    | ok a ↦ (ok a, (body log).1)
    | err e ↦ (err (partial_of outputs artifact mutations e), (body log).1)
  ]

  -- the pushing of the new tags and the release
  unfoldable pub publish_remote : Prepared Bytes → List String → Shell Bytes MutationRecord
  unfolding push_tags upsert_release decimal
  publish_remote p new_tags = do
    _ ← push_tags m new_tags
    upsert_release m p.plan.product_tag
        (p.plan.product_key +++ (" v" +++ decimal p.plan.product_version)) p.asset_name p.payload
        p.artifact_sha256

  -- `run` from the first mutation on
  unfoldable pub publish : Request → Prepared Bytes → Shell Bytes WorkflowResult
  unfolding create_tags guarded publish_remote outputs_of make_result
  publish request p = do
    new_tags ← create_tags request.current p.targets (tags_of p.plan)
    mutation ←
        guarded (outputs_of request p) p.artifact (map tag_mutation new_tags)
          (publish_remote p new_tags)
    give (
        make_result (record {
          command = "workflow.release-product";
          status = W.succeeded;
          outputs = outputs_of request p;
          artifacts = p.artifact ∷ [];
          findings = no_items;
          mutations = map tag_mutation new_tags ++ (mutation ∷ []);
          retryable = false;
        }))

  -- `ReleasePublicationService.run`
  unfoldable pub run : Ports Bytes → Request → Shell Bytes WorkflowResult
  unfolding prepare publish
  run ports request = do p ← prepare ports request; publish request p
