-- ===== src/Shell/Git.antt =====
-- src/ard_ossie/adapters/git_cli.py: `GitCli`, the methods that read and make tags.
use ard_ossie_provider.Prelude.{
  Bool, not, ◌||◌, Option, none, some, List, [], ◌∷◌, String, ◌==◌, if◌then◌else◌,
}
use ard_ossie_provider.Prelude.Text.{str_eq, opt_str_eq}
use ard_ossie_provider.Prelude.Slices.{occurs}
use ard_ossie_provider.Workflow.{transient_error, conflict_error}
use ard_ossie_provider.Shell.{
  Shell, Machine, CommandResult, Raised, workflow, Command, rev_parse_head, set_user_name,
  set_user_email, rev_parse_tag, make_tag, push_refs, merge_base, ◌>>=◌, give, raise, lift, stop_if,
  sh, succeeded,
}
use ard_ossie_provider.Shell.Text.{bad_ref, git_sha}

module _ {Bytes : Type 0} (m : Machine Bytes) where
  -- `_run_required`: `_git`, and `_require_success`
  unfoldable pub run_required : Command Bytes → String → Shell Bytes CommandResult
  run_required c code = do
    result ← sh m c
    _ ← stop_if (not (succeeded result)) (workflow (transient_error code))
    give result

  unfoldable pub current_sha : Shell Bytes String
  unfolding run_required git_sha
  current_sha = do
    result ← run_required rev_parse_head "HEAD_RESOLUTION_FAILED"
    lift (git_sha m.casefold result.stdout)

  abbrev validate_ref : String → Shell Bytes (Unit {0})
  validate_ref ref = stop_if (bad_ref ref) (workflow (conflict_error "INVALID_GIT_REF"))

  -- what `tag_target` makes of the answer of git
  unfoldable pub read_target : CommandResult → Shell Bytes (Option String)
  unfolding git_sha
  read_target result =
      if result.returncode == 1
      then give none
      else (if succeeded result
          then (do sha ← lift (git_sha m.casefold result.stdout); give (some sha))
          else raise (workflow (transient_error "TAG_LOOKUP_FAILED")))

  unfoldable pub tag_target : String → Shell Bytes (Option String)
  unfolding read_target bad_ref
  tag_target tag = do _ ← validate_ref tag; result ← sh m (rev_parse_tag tag); read_target result

  -- `create_annotated_tag` where git knows no such tag
  unfoldable pub create_absent_tag : String → String → Shell Bytes (Unit {0})
  unfolding run_required tag_target
  create_absent_tag tag target = do
    _ ← run_required set_user_name "GIT_IDENTITY_FAILED"
    _ ← run_required set_user_email "GIT_IDENTITY_FAILED"
    _ ← run_required (make_tag tag target) "TAG_CREATE_FAILED"
    made ← tag_target tag
    stop_if (not (opt_str_eq made (some target)))
        (workflow (transient_error "TAG_VERIFICATION_FAILED"))

  unfoldable pub create_unless : String → String → Option String → Shell Bytes (Unit {0})
  unfolding create_absent_tag
  create_unless tag target none = create_absent_tag tag target
  create_unless tag target (some existing) =
      stop_if (not (str_eq existing target)) (workflow (conflict_error "TAG_TARGET_CONFLICT"))

  unfoldable pub create_annotated_tag : String → String → Shell Bytes (Unit {0})
  unfolding tag_target create_unless bad_ref git_sha
  create_annotated_tag tag target = do
    _ ← validate_ref tag
    sha ← lift (git_sha m.casefold target)
    existing ← tag_target tag
    create_unless tag sha existing

  unfoldable pub validate_refs : List String → Shell Bytes (Unit {0})
  unfolding bad_ref
  validate_refs [] = give tt
  validate_refs (ref ∷ refs) = do _ ← validate_ref ref; validate_refs refs

  -- the code of a push that failed
  unfoldable pub push_failure : CommandResult → Raised
  unfolding occurs
  push_failure result =
      let said = λ (s : String).
        occurs s (m.casefold result.stdout) || occurs s (m.casefold result.stderr) in
      if said "already exists" || said "rejected"
      then workflow (conflict_error "TAG_PUSH_CONFLICT")
      else workflow (transient_error "TAG_PUSH_FAILED")

  unfoldable pub push_some : List String → Shell Bytes (Unit {0})
  unfolding validate_refs push_failure
  push_some tags = do
    _ ← validate_refs tags
    result ← sh m (push_refs tags)
    stop_if (not (succeeded result)) (push_failure result)

  unfoldable pub push_tags : List String → Shell Bytes (Unit {0})
  unfolding push_some
  push_tags [] = give tt
  push_tags (tag ∷ tags) = push_some (tag ∷ tags)

  unfoldable pub is_ancestor : String → String → Shell Bytes Bool
  unfolding git_sha
  is_ancestor ancestor descendant = do
    a ← lift (git_sha m.casefold ancestor)
    d ← lift (git_sha m.casefold descendant)
    result ← sh m (merge_base a d)
    _ ←
        stop_if (not (succeeded result || result.returncode == 1))
          (workflow (transient_error "ANCESTRY_CHECK_FAILED"))
    give (succeeded result)
