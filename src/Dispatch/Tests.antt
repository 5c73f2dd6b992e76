-- ===== src/Dispatch/Tests.antt =====
-- Runs of src/ard_ossie/application/release_dispatch.py, and its theorems at concrete inputs.
use ard_ossie_provider.Prelude.{
  ◌≡◌, refl, sym, ◌∙◌, subst, ap, true, false, none, some, List, [], ◌∷◌, String, ok, ok_injective,
}
use ard_ossie_provider.Prelude.Dict.{Dict}
use ard_ossie_provider.Json.{Json, object, array, number, text, item, no_items, no_fields, field}
use ard_ossie_provider.Workflow.{WorkflowResult, succeeded}
use ard_ossie_provider.Shell.{
  Machine, CommandResult, Raised, Command, rev_parse_head, get_commit_status, post_dispatch,
  post_status, ◌>>=◌,
}
use ard_ossie_provider.Shell.Emits.{Extends}
use ard_ossie_provider.Shell.Pulls.{get_status}
use ard_ossie_provider.Dispatch.{Request, Ports}
use ard_ossie_provider.Dispatch.Checks.{Released, read_released, load_release_result, is_safe_entry}
use ard_ossie_provider.Dispatch.Run.{payload_of, context_of, run}
use ard_ossie_provider.Dispatch.Once.{
  IsApproved, IsAllowed, IsRead, IsMarked, run-IsAllowed, run_marked,
}

abbrev commit : String
commit = "0123456789abcdef0123456789abcdef01234567"

abbrev digest : String
digest = "0123456789abcdef0123456789abcdef0123456789abcdef0123456789abcdef"

abbrev product : String
product = "prd_01890a5d-ac96-774b-bcce-b302099a8057"

entries_tested :
    (is_safe_entry "generated/a.json" (text digest) ≡ true)
    × (is_safe_entry "a/../b" (text digest) ≡ false)
    × (is_safe_entry "a..b" (text digest) ≡ true)
    × (is_safe_entry "/a" (text digest) ≡ false)
unfolding is_safe_entry
entries_tested = (refl, refl, refl, refl)

abbrev published : WorkflowResult
published = record {
  command = "workflow.release-product";
  status = succeeded;
  outputs = field "product_id" (text product) (
      field "version" (number "2") (
        field "product_tag" (text "product/prd_01890a5d-ac96-774b-bcce-b302099a8057/v2") (
          field "commit" (text commit) (
            field "artifact_hashes" (object (field "product.yaml" (text digest) no_fields))
              no_fields))));
  artifacts = [];
  findings = no_items;
  mutations = [];
  retryable = false;
}

abbrev released : Released
released = record {
  product_id = product;
  version = 2;
  tag_name = "product/prd_01890a5d-ac96-774b-bcce-b302099a8057/v2";
  commit = commit;
}

abbrev ports : Ports
ports = record { root = "/repo"; read_result = λ path. ok (some published) }

abbrev request : Request
request = record {
  repository = "/repo";
  result_path = "/repo/.ard/run/workflow.release-product-result.json";
  current = commit;
  target_url = "";
}

released_read : read_released published ≡ ok released
unfolding read_released
released_read = refl

abbrev reply : List (Command String) → CommandResult
reply (rev_parse_head ∷ log) = record { returncode = 0; stdout = commit; stderr = "" }
reply log = record { returncode = 0; stdout = "{}"; stderr = "" }

-- GitHub that has the statuses it is given
abbrev machine : Json → Machine String
machine statuses = record {
  reply = reply;
  failure = λ log. none;
  loads = λ s. some (object (field "statuses" statuses no_fields));
  int_of = λ j. none;
  casefold = λ s. s;
  sha256 = λ b. digest;
}

dispatched :
    (run (machine (array no_items)) ports request []).1
    ≡ post_status commit "ard/dispatched:prd_01890a5d-ac96-774b-bcce-b302099a8057:v2" "success"
        "Approved downstream linkage dispatched" ""
      ∷ post_dispatch "ard_product_released" (payload_of released (("product.yaml", digest) ∷ []))
      ∷ get_commit_status commit
      ∷ rev_parse_head
      ∷ []
unfolding run ◌>>=◌
dispatched = refl

run-IsAllowed_example :
    Extends
      (IsAllowed (machine (array no_items)) ports request)
      []
      (run (machine (array no_items)) ports request []).1
run-IsAllowed_example = run-IsAllowed (machine (array no_items)) ports request []

-- the status that the dispatch left
abbrev marked : Json
marked = array (
    item
      (object (
        field "context" (text "ard/dispatched:prd_01890a5d-ac96-774b-bcce-b302099a8057:v2")
          (field "state" (text "success") no_fields)))
      no_items)

loaded : load_release_result ports request.result_path ≡ ok published
unfolding load_release_result
loaded = refl

released_only :
    (r : Released) (hashes : Dict String) → IsApproved ports request r hashes → released ≡ r
released_only r hashes v =
    let same : published ≡ v.result =
      ok_injective {E = Raised} published v.result (sym loaded ∙ v.loaded) in
    ok_injective {E = Raised} released r (sym released_read ∙ ap read_released same ∙ v.read)

status_found :
    (log : List (Command String))
    → (get_status (machine marked) commit (context_of released) log).0 ≡ ok (some "success")
unfolding get_status ◌>>=◌ context_of
status_found log = refl

is_marked : IsMarked (machine marked) ports request
is_marked r hashes log v =
    subst
      (λ (s : Released).
        (get_status (machine marked) s.commit (context_of s) log).0 ≡ ok (some "success"))
      (released_only r hashes v) (status_found log)

run_marked_example : Extends IsRead [] (run (machine marked) ports request []).1
run_marked_example = run_marked (machine marked) ports request [] is_marked
