-- ===== src/Dispatch/Once.antt =====
-- src/ard_ossie/application/release_dispatch.py: what is dispatched, and when.
use Prim.Native.String.{◌++◌}
use ard_ossie_provider.Prelude.{
  eq_iff, [], ◌∷◌, ◌≡◌, refl, sym, ◌∙◌, ok_injective, subst, true, Option, some, List, String,
  Result, ok, err, arith,
}
use ard_ossie_provider.Prelude.Text.{str_eq, opt_str_eq}
use ard_ossie_provider.Prelude.Dict.{Dict}
use ard_ossie_provider.Json.{text, number, object, Fields, no_fields, field}
use ard_ossie_provider.Release.{decimal}
use ard_ossie_provider.Dispatch.Approved.{IsRelease, approved-IsRelease}
use ard_ossie_provider.Workflow.{WorkflowResult, MutationRecord}
use ard_ossie_provider.Shell.{Shell, Machine, Raised, Command, post_dispatch, post_status}
use ard_ossie_provider.Shell.GitHub.{lookup}
use ard_ossie_provider.Shell.Text.{github_sha, is_sha}
use ard_ossie_provider.Shell.Pulls.{set_status, get_status}
use ard_ossie_provider.Shell.Reads.{is_read, Emits-current_sha, Emits-get_status}
use ard_ossie_provider.Shell.Posts.{Emits-set_status, Emits-repository_dispatch}
use ard_ossie_provider.Shell.Emits.{
  Emits, Extends, emits_rules, Emits-bind, Emits-bind-lift, Emits-give, Emits-stop_if, Emits-if,
  Emits-bind-of, Returns, Returns-if, Returns-bind, Returns-raise, Returns-stop_if,
}
use ard_ossie_provider.Dispatch.{Request, Ports}
use ard_ossie_provider.Dispatch.Checks.{
  Released, read_released, load_release_result, validated_artifact_hashes,
}
use ard_ossie_provider.Dispatch.Run.{
  hashes_json, payload_of, context_of, check_commit, mark_dispatched, dispatch, dispatch_unless,
  partial_of, run,
}

-- the releases that the approved result at the requested path names
module _ (ports : Ports) (request : Request) where
  pub record IsApproved (r : Released) (hashes : Dict String) : Type 0 where
    pub result : WorkflowResult
    pub loaded : load_release_result ports request.result_path ≡ ok result
    pub read : read_released result ≡ ok r
    pub hashed : validated_artifact_hashes (lookup result.outputs "artifact_hashes") ≡ ok hashes

abbrev pub IsRead : {Bytes : Type 0} → Command Bytes → Type 0
IsRead c = is_read c ≡ true

-- the fields are the names with their digests, in this order
abbrev pub ShowsHashes : Dict String → Fields → Type 0
ShowsHashes [] fs = fs ≡ no_fields
ShowsHashes ((name, digest) ∷ d) fs =
    (rest : Fields) × (fs ≡ field name (text digest) rest) × ShowsHashes d rest

hashes_json-ShowsHashes : (d : Dict String) → ShowsHashes d (hashes_json d)
hashes_json-ShowsHashes [] = refl
hashes_json-ShowsHashes ((name, digest) ∷ d) = (hashes_json d, refl, hashes_json-ShowsHashes d)

module _ {Bytes : Type 0} (m : Machine Bytes) (ports : Ports) (request : Request) where
  -- a release that the result approves, whose commit is the requested one and has 40 digits
  abbrev pub IsCurrentRelease : Released → Dict String → Type 0
  IsCurrentRelease r hashes =
      IsRelease ports request r hashes × (r.commit ≡ request.current) × (is_sha r.commit ≡ true)

  -- the event with the payload of the approved release, and the status of its commit
  abbrev pub IsAllowed : Command Bytes → Type 0
  IsAllowed (post_dispatch event payload) =
      (r : Released) × (hashes : Dict String) × (fs : Fields) × IsCurrentRelease r hashes
      × (event ≡ "ard_product_released")
      × ShowsHashes hashes fs
      × (payload
          ≡ object (
              field "product_id" (text r.product_id) (
                field "version" (number (decimal r.version)) (
                  field "tag" (text r.tag_name) (
                    field "commit" (text r.commit)
                      (field "artifact_hashes" (object fs) no_fields))))))
  IsAllowed (post_status sha context state description url) =
      (r : Released) × (hashes : Dict String) × IsCurrentRelease r hashes
      × (github_sha m.casefold r.commit ≡ ok sha)
      × (context ≡ "ard/dispatched:" ++ (r.product_id ++ (":v" ++ decimal r.version)))
      × (state ≡ "success")
  IsAllowed c = is_read c ≡ true

  reads-IsAllowed : (c : Command Bytes) → is_read c ≡ true → IsAllowed c
  reads-IsAllowed (post_dispatch _ _) h = ground (arith, h)
  reads-IsAllowed (post_status _ _ _ _ _) h = ground (arith, h)
  reads-IsAllowed _ h = h

  Emits-marked :
      (r : Released) (hashes : Dict String) (mutation : MutationRecord)
      → IsCurrentRelease r hashes
      → Emits IsAllowed (mark_dispatched m request r hashes mutation)
  unfolding mark_dispatched context_of
  Emits-marked r hashes mutation v = record {
    at = λ log. split log (act log).0 (act log).1 (posted.at log);
  }
    where
      act : Shell Bytes MutationRecord
      act =
          set_status m r.commit (context_of r) "success" "Approved downstream linkage dispatched"
            request.target_url

      posted : Emits IsAllowed act
      posted = Emits-set_status m _ _ _ _ _ (λ target e. (r, hashes, v, e, refl, refl))

      kept :
          Result Raised MutationRecord
          → List (Command Bytes)
          → Result Raised MutationRecord × List (Command Bytes)
      kept o log' = elim o [
        | ok a ↦ (ok a, log')
        | err e ↦ (err (partial_of m r hashes mutation e), log')
      ]

      split :
          (log : List (Command Bytes)) (o : Result Raised MutationRecord)
          (log' : List (Command Bytes))
          → Extends IsAllowed log log'
          → Extends IsAllowed log (kept o log').1
      split log (ok a) log' h = h
      split log (err e) log' h = h

  Emits-dispatch :
      (r : Released) (hashes : Dict String)
      → IsCurrentRelease r hashes
      → Emits IsAllowed (dispatch m request r hashes)
  unfolding dispatch payload_of
  Emits-dispatch r hashes v =
      Emits-bind _ _
        (Emits-repository_dispatch m _ _
          (r, hashes, hashes_json hashes, v, refl, hashes_json-ShowsHashes hashes, refl))
        λ dispatched. Emits-bind _ _ (Emits-marked r hashes dispatched v) λ marked. Emits-give _

  Emits-dispatch_unless :
      (r : Released) (hashes : Dict String) (status : Option String)
      → IsCurrentRelease r hashes
      → Emits IsAllowed (dispatch_unless m request r hashes status)
  unfolding dispatch_unless
  Emits-dispatch_unless r hashes status v =
      Emits-if (opt_str_eq status (some "success")) _ _ (λ _. Emits-give _)
        (λ _. Emits-dispatch r hashes v)

  Emits-check_commit :
      {Q : Command Bytes → Type 0} (commit current : String)
      → ((c : Command Bytes) → is_read c ≡ true → Q c)
      → Emits Q (check_commit m commit current)
  unfolding check_commit
  Emits-check_commit commit current reads = search (emits_rules, Emits-current_sha, reads)

  check_commit-IsCurrent :
      (commit current : String)
      → Returns (λ u. (commit ≡ current) × (is_sha commit ≡ true)) (check_commit m commit current)
  unfolding check_commit
  check_commit-IsCurrent commit current =
      Returns-if (str_eq commit current) _ _
        (λ e.
          Returns-bind _ _
            λ head. Returns-stop_if _ _ λ k. ((eq_iff commit current).0 e, ground (arith, k)))
        λ _. Returns-raise _

  -- Whatever the programs answer, a dispatch runs, besides commands that change nothing, only the
  -- event with the product, version, tag, commit and hashes of the release, and the success status
  -- of its commit under the context of its product and version, where the result at the trusted
  -- path is of a publication that succeeded, holds these values, each in its form, and the commit
  -- is the requested one.
  pub run-IsAllowed :
      (log : List (Command Bytes)) → Extends IsAllowed log (run m ports request log).1
  unfolding run
  run-IsAllowed log = checked.at log
    where
      checked : Emits IsAllowed (run m ports request)
      checked = Emits-bind _ _ (Emits-stop_if _ _) λ _. Emits-bind-lift _ _ λ result e.
          Emits-bind-lift _ _ λ r f.
            Emits-bind-of (λ u. (r.commit ≡ request.current) × (is_sha r.commit ≡ true)) _ _
              (check_commit-IsCurrent r.commit request.current)
              (Emits-check_commit r.commit request.current reads-IsAllowed)
              λ _ c. Emits-bind-lift _ _ λ hashes g.
                Emits-bind _ _ (Emits-get_status m reads-IsAllowed _ _) λ status.
                  Emits-dispatch_unless r hashes status
                    (approved-IsRelease ports request result r hashes e f g, c.0, c.1)

  -- the commit of the approved release has the success status that a dispatch leaves
  abbrev pub IsMarked : Type 0
  IsMarked =
      (r : Released) (hashes : Dict String) (log : List (Command Bytes))
      → IsApproved ports request r hashes
      → (get_status m r.commit (context_of r) log).0 ≡ ok (some "success")

  unless_marked :
      (r : Released) (hashes : Dict String)
      → Emits IsRead (dispatch_unless m request r hashes (some "success"))
  unfolding dispatch_unless
  unless_marked r hashes = Emits-give _

  -- Where the commit of the approved release has the success status under the context of its
  -- product and version, `run` changes nothing: the release is not dispatched again.
  pub run_marked :
      (log : List (Command Bytes)) → IsMarked → Extends IsRead log (run m ports request log).1
  unfolding run
  run_marked log h = checked.at log
    where
      checked : Emits IsRead (run m ports request)
      checked = Emits-bind _ _ (Emits-stop_if _ _) λ _. Emits-bind-lift _ _ λ result e.
          Emits-bind-lift _ _ λ r f.
            Emits-bind _ _ (Emits-check_commit r.commit request.current (λ c k. k)) λ _.
              Emits-bind-lift _ _ λ hashes g.
                Emits-bind-of (λ o. o ≡ some "success") _ _
                  (record {
                    value = λ log a k. ok_injective {E = Raised} a (some "success") (
                        sym k
                        ∙ h r hashes log
                            (record { result = result; loaded = e; read = f; hashed = g }));
                  })
                  (Emits-get_status m (λ c k. k) _ _)
                  λ status k.
                    subst (λ o. Emits IsRead (dispatch_unless m request r hashes o)) (sym k)
                      (unless_marked r hashes)
