-- ===== src/Publication/Quiet.antt =====
-- src/ard_ossie/application/release_publication.py: an error that is not partial left nothing on the
-- remote side.
use ard_ossie_provider.Prelude.{
  ◌≡◌, refl, subst, Bool, true, false, Option, none, some, List, [], ◌∷◌, ◌++◌, String, Result, ok,
  err, arith,
}
use ard_ossie_provider.Prelude.Dict.{Dict, get}
use ard_ossie_provider.Json.{Fields}
use ard_ossie_provider.Impact.{ProductReadiness}
use ard_ossie_provider.Release.{ReleasePlan}
use ard_ossie_provider.Registry.Files.{Disk}
use ard_ossie_provider.Workflow.{WorkflowError, WorkflowResult, MutationRecord, is_partial}
use ard_ossie_provider.Prelude.{not, ◌||◌}
use ard_ossie_provider.Shell.{make_tag, set_user_name, set_user_email, stage, unstage}
use ard_ossie_provider.Shell.{
  Shell, Machine, Raised, workflow, other, Command, lift, then_run, ◌>>=◌, give,
}
use ard_ossie_provider.Shell.Reads.{
  is_read, Emits-current_sha, Emits-tag_target, Emits-is_ancestor, Emits-get_release, Emits-get_pr,
  Emits-create_annotated_tag,
}
use ard_ossie_provider.Shell.Emits.{
  Emits, Extends, same, Extends-trans, emits_rules, Emits-give, Emits-lift, Emits-bind,
}
use ard_ossie_provider.Publication.{Request, Ports, Prepared, tags_of}
use ard_ossie_provider.Publication.Run.{
  require_current_head, check_pull, check_pulls, verify_changeset_readiness, targets_of,
  build_bundle, check_remote, prepare, create_one, create_tags, guarded, partial_of, publish, run,
}

-- the commands that change only the clone and a private directory
abbrev is_local : {Bytes : Type 0} → Command Bytes → Bool
is_local set_user_name = true
is_local set_user_email = true
is_local (make_tag _ _) = true
is_local (stage _ _) = true
is_local unstage = true
is_local _ = false

-- all others change what others see
abbrev pub is_remote : {Bytes : Type 0} → Command Bytes → Bool
is_remote c = not (is_read c || is_local c)

module _ {Bytes : Type 0} (m : Machine Bytes) {Q : Command Bytes → Type 0}
    (reads : (c : Command Bytes) → is_read c ≡ true → Q c) where
  Emits-require_current_head : (sha : String) → Emits Q (require_current_head m sha)
  unfolding require_current_head
  Emits-require_current_head sha = search (emits_rules, Emits-current_sha, reads)

  Emits-check_pull : (current : String) (r : ProductReadiness) → Emits Q (check_pull m current r)
  unfolding check_pull
  Emits-check_pull current r = search (emits_rules, Emits-get_pr, Emits-is_ancestor, reads) depth 12

  Emits-check_pulls :
      (current : String) (d : Dict ProductReadiness) (ids : List String)
      → Emits Q (check_pulls m current d ids)
  unfolding check_pulls
  Emits-check_pulls current d [] = search emits_rules
  Emits-check_pulls current d (id ∷ ids) =
      Emits-bind _ _ (Emits-lift _)
        λ r. Emits-bind _ _ (Emits-check_pull current r) (λ _. Emits-check_pulls current d ids)

  Emits-verify_changeset_readiness :
      (disk : Option Disk) (id : Option String) (current : String)
      → Emits Q (verify_changeset_readiness m disk id current)
  unfolding verify_changeset_readiness
  Emits-verify_changeset_readiness disk none current = search emits_rules
  Emits-verify_changeset_readiness disk (some id) current = search (emits_rules, Emits-check_pulls)

  Emits-targets_of : (tags : List String) (d : Dict (Option String)) → Emits Q (targets_of m tags d)
  unfolding targets_of
  Emits-targets_of [] d = search emits_rules
  Emits-targets_of (tag ∷ tags) d =
      Emits-bind _ _ (Emits-tag_target m reads tag) (λ target. Emits-targets_of tags _)

  Emits-check_remote :
      (ports : Ports Bytes) (request : Request) (plan : ReleasePlan) (artifact : String)
      (payload : Bytes)
      → Emits Q (check_remote m ports request plan artifact payload)
  unfolding check_remote
  Emits-check_remote ports request plan artifact payload =
      search (emits_rules, Emits-require_current_head, Emits-targets_of, Emits-get_release, reads)
        depth 20

  Emits-build_bundle :
      (ports : Ports Bytes) (plan : ReleasePlan) → Emits Q (build_bundle m ports plan)
  unfolding build_bundle
  Emits-build_bundle ports plan = search emits_rules depth 12

  -- all checks only look things up
  pub Emits-prepare : (ports : Ports Bytes) (request : Request) → Emits Q (prepare m ports request)
  unfolding prepare
  Emits-prepare ports request =
      search
        (
          emits_rules, Emits-require_current_head, Emits-verify_changeset_readiness,
          Emits-build_bundle, Emits-check_remote,
        )
        depth 24

-- the errors that a caller may take for "nothing happened"
abbrev pub FailsQuietly : {A : Type 0} → Result Raised A → Type 0
FailsQuietly (ok a) = ⊥
FailsQuietly (err (other name)) = ⊥
FailsQuietly (err (workflow e)) = is_partial e ≡ false

module _ {Bytes : Type 0} where
  abbrev pub NotRemote : Command Bytes → Type 0
  NotRemote c = is_remote c ≡ false

  reads-NotRemote : (c : Command Bytes) → is_read c ≡ true → NotRemote c
  reads-NotRemote c h = ground arith

  -- an action that ran no remote command where it fails quietly
  record IsQuiet {A : Type 0} (act : Shell Bytes A) : Type 0 where
    at : (log : List (Command Bytes)) → FailsQuietly (act log).0 → Extends NotRemote log (act log).1

  IsQuiet-bind-lift :
      {A B : Type 0} (r : Result Raised A) (f : A → Shell Bytes B) (log : List (Command Bytes))
      → ((a : A) → IsQuiet (f a))
      → FailsQuietly ((lift r >>= f) log).0
      → Extends NotRemote log ((lift r >>= f) log).1
  unfolding ◌>>=◌
  IsQuiet-bind-lift (ok a) f log kf h = (kf a).at log h
  IsQuiet-bind-lift (err e) f log kf h = same

  IsQuiet-bind :
      {A B : Type 0} (act : Shell Bytes A) (f : A → Shell Bytes B)
      → Emits NotRemote act
      → ((a : A) → IsQuiet (f a))
      → IsQuiet (act >>= f)
  unfolding ◌>>=◌
  IsQuiet-bind act f km kf = record {
    at = λ log h.
        let (r, log') = act log in Extends-trans (km.at log) (IsQuiet-bind-lift r f log' kf h);
  }

module _ {Bytes : Type 0} (m : Machine Bytes) where
  not_quiet :
      (A : Type 0) (outputs : Fields) (artifact : String) (mutations : List MutationRecord)
      (e : Raised)
      → ¬ FailsQuietly {A = A} (err (partial_of m outputs artifact mutations e))
  unfolding partial_of
  not_quiet A outputs artifact mutations (other name) h = h
  not_quiet A outputs artifact mutations (workflow e) h = ground (arith, h)

  -- what follows the tags does not fail quietly
  loud :
      {A B : Type 0} (outputs : Fields) (artifact : String) (mutations : List MutationRecord)
      (body : Shell Bytes A) (f : A → B)
      → IsQuiet (guarded m outputs artifact mutations body >>= λ a. give (f a))
  unfolding ◌>>=◌ guarded
  loud {A = A} {B = B} outputs artifact mutations body f = record {
    at = λ log h. absurd (split (body log).0 (body log).1 h);
  }
    where
      kept : Result Raised A → List (Command Bytes) → Result Raised A × List (Command Bytes)
      kept r log' = elim r [
        | ok a ↦ (ok a, log')
        | err e ↦ (err (partial_of m outputs artifact mutations e), log')
      ]

      split :
          (r : Result Raised A) (log' : List (Command Bytes))
          → ¬ FailsQuietly
              (then_run (kept r log').0 (λ (a : A). give {Bytes = Bytes} (f a)) (kept r log').1).0
      split (ok a) log' h = h
      split (err e) log' h = not_quiet B outputs artifact mutations e h

  Emits-create_one :
      (current tag : String) (o : Option (Option String))
      → Emits NotRemote (create_one m current tag o)
  unfolding create_one
  Emits-create_one current tag (some (some target)) = Emits-give []
  Emits-create_one current tag (some none) =
      Emits-bind _ _
        (Emits-create_annotated_tag m reads-NotRemote (refl, refl) tag current (λ sha e. refl))
        λ _. Emits-give (tag ∷ [])
  Emits-create_one current tag none =
      Emits-bind _ _
        (Emits-create_annotated_tag m reads-NotRemote (refl, refl) tag current (λ sha e. refl))
        λ _. Emits-give (tag ∷ [])

  Emits-create_tags :
      (current : String) (targets : Dict (Option String)) (tags : List String)
      → Emits NotRemote (create_tags m current targets tags)
  unfolding create_tags
  Emits-create_tags current targets [] = Emits-give []
  Emits-create_tags current targets (tag ∷ tags) =
      Emits-bind _ _ (Emits-create_one current tag (get targets tag)) λ new.
        Emits-bind _ _ (Emits-create_tags current targets tags) λ rest. Emits-give (new ++ rest)

  publish-IsQuiet : (request : Request) (p : Prepared Bytes) → IsQuiet (publish m request p)
  unfolding publish
  publish-IsQuiet request p =
      IsQuiet-bind _ _ (Emits-create_tags request.current p.targets (tags_of p.plan))
        λ new_tags. loud _ _ _ _ _

  run-IsQuiet : (ports : Ports Bytes) (request : Request) → IsQuiet (run m ports request)
  unfolding run
  run-IsQuiet ports request =
      IsQuiet-bind _ _ (Emits-prepare m reads-NotRemote ports request) (publish-IsQuiet request)

  -- A publication that raises an error of the workflow other than a partial one has pushed no tag,
  -- and made, changed or uploaded nothing on GitHub, whatever the programs answer.
  pub run_without_partial :
      (ports : Ports Bytes) (request : Request) (log log' : List (Command Bytes))
      (e : WorkflowError)
      → run m ports request log ≡ (err (workflow e), log')
      → is_partial e ≡ false
      → Extends NotRemote log log'
  run_without_partial ports request log log' e h k =
      subst
        (λ (x : Result Raised WorkflowResult × List (Command Bytes)).
          FailsQuietly x.0 → Extends NotRemote log x.1)
        h ((run-IsQuiet ports request).at log) k
