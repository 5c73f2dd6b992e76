-- ===== src/Publication/Tests.antt =====
-- Runs of src/ard_ossie/application/release_publication.py, and its theorems at concrete inputs.
use ard_ossie_provider.Prelude.{◌≡◌, refl, ℕ, none, some, List, [], ◌∷◌, String, ok, err}
use ard_ossie_provider.Prelude.Sets.{dedupe}
use ard_ossie_provider.Json.{object, no_fields, field, number}
use ard_ossie_provider.Release.{ReleasePlan}
use ard_ossie_provider.Workflow.{transient_error}
use ard_ossie_provider.Shell.{
  Machine, CommandResult, workflow, Command, rev_parse_head, rev_parse_tag, set_user_name,
  set_user_email, make_tag, stage, unstage, get_release_by_tag, post_release, upload_asset, ◌>>=◌,
}
use ard_ossie_provider.Shell.Emits.{Extends}
use ard_ossie_provider.Publication.{Request, Ports, release_conflict}
use ard_ossie_provider.Publication.Run.{run}
use ard_ossie_provider.Publication.Quiet.{NotRemote, run_without_partial}
use ard_ossie_provider.Publication.Safe.{IsPermitted, run-IsPermitted}
use ard_ossie_provider.Publication.Unpushed.{IsNoPush, known_tags_unpushed}

abbrev commit : String
commit = "0123456789abcdef0123456789abcdef01234567"

abbrev digest : String
digest = "0123456789abcdef0123456789abcdef0123456789abcdef0123456789abcdef"

abbrev answer : ℕ → String → String → CommandResult
answer returncode stdout stderr = record {
  returncode = returncode;
  stdout = stdout;
  stderr = stderr;
}

-- git that cannot make a tag, and GitHub without a release
abbrev refusing : List (Command String) → CommandResult
refusing (rev_parse_head ∷ log) = answer 0 commit ""
refusing (rev_parse_tag _ ∷ log) = answer 1 "" ""
refusing (make_tag _ _ ∷ log) = answer 128 "" "fatal"
refusing (get_release_by_tag _ ∷ log) = answer 1 "" "HTTP 404"
refusing log = answer 0 "{}" ""

-- git in whose clone all tags are, and GitHub that makes a release
abbrev tagged : List (Command String) → CommandResult
tagged (rev_parse_head ∷ log) = answer 0 commit ""
tagged (rev_parse_tag _ ∷ log) = answer 0 commit ""
tagged (get_release_by_tag _ ∷ log) = answer 1 "" "HTTP 404"
tagged log = answer 0 "{}" ""

abbrev machine : (List (Command String) → CommandResult) → Machine String
machine reply = record {
  reply = reply;
  failure = λ log. none;
  loads = λ s. some (object (field "id" (number "7") no_fields));
  int_of = λ j. some 7;
  casefold = λ s. s;
  sha256 = λ b. digest;
}

abbrev plan : ReleasePlan
plan = record {
  product_id = "prd_1";
  product_key = "sales";
  product_version = 2;
  product_tag = "product/prd_1/v2";
  table_tags = "table/tbl_1/v1" ∷ [];
  artifact_hashes = ("product.yaml", digest) ∷ [];
  changeset_id = none;
}

abbrev ports : Ports String
ports = record {
  root = "/repo";
  sources = λ log key. ok tt;
  plan_resolver = λ request. ok plan;
  registry = none;
  bundle_path = λ p. ok "dist/prd_1-v2.zip";
  bundle_builder = λ p. ok tt;
  resolve_bundle = λ p. ok tt;
  bundle_file = λ log. some "zip";
  open_zip = λ b. some (("product.yaml", some "yaml") ∷ []);
}

abbrev request : Request
request = record { repository = "/repo"; product_key = "sales"; current = commit; table_ids = [] }

-- the commands of the publication whose first tag cannot be made
abbrev stopped_at_tag : List (Command String)
stopped_at_tag =
    make_tag "product/prd_1/v2" commit
    ∷ set_user_email
    ∷ set_user_name
    ∷ rev_parse_tag "product/prd_1/v2"
    ∷ get_release_by_tag "product/prd_1/v2"
    ∷ rev_parse_tag "table/tbl_1/v1"
    ∷ rev_parse_tag "product/prd_1/v2"
    ∷ rev_parse_head
    ∷ rev_parse_head
    ∷ []

stops_at_tag :
    run (machine refusing) ports request []
    ≡ (err (workflow (transient_error "TAG_CREATE_FAILED")), stopped_at_tag)
unfolding run ◌>>=◌ release_conflict dedupe
stops_at_tag = refl

run_without_partial_example : Extends NotRemote [] stopped_at_tag
run_without_partial_example =
    run_without_partial (machine refusing) ports request [] stopped_at_tag
      (transient_error "TAG_CREATE_FAILED") stops_at_tag refl

-- the release is made, and no tag is pushed
releases_unpushed :
    (run (machine tagged) ports request []).1
    ≡ unstage
      ∷ upload_asset "product/prd_1/v2" "prd_1-v2.zip" "zip"
      ∷ post_release "product/prd_1/v2" "sales v2"
      ∷ get_release_by_tag "product/prd_1/v2"
      ∷ stage "prd_1-v2.zip" "zip"
      ∷ get_release_by_tag "product/prd_1/v2"
      ∷ rev_parse_tag "table/tbl_1/v1"
      ∷ rev_parse_tag "product/prd_1/v2"
      ∷ rev_parse_head
      ∷ rev_parse_head
      ∷ []
unfolding run ◌>>=◌ dedupe
releases_unpushed = refl

known_tags_unpushed_example : Extends IsNoPush [] (run (machine tagged) ports request []).1
known_tags_unpushed_example =
    known_tags_unpushed (machine tagged) ports request [] (λ p tag e h log. refl)

run-IsPermitted_example :
    Extends
      (IsPermitted (machine tagged) ports request)
      []
      (run (machine tagged) ports request []).1
run-IsPermitted_example = run-IsPermitted (machine tagged) ports request []
