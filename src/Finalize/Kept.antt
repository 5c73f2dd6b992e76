-- ===== src/Finalize/Kept.antt =====
-- src/ard_ossie/application/finalize.py: a failed finalization keeps the statuses of others.
use ard_ossie_provider.Prelude.{
  ◌≡◌, refl, sym, subst, ◌∙◌, ◌⊎◌, inl, inr, ℕ, Bool, true, false, Option, none, some, List, [],
  ◌∷◌, String, ok, ok_injective, arith,
}
use text.Mathlib.TextPositions.{eq_refl}
use ard_ossie_provider.Prelude.Text.{contains}
use ard_ossie_provider.Json.{Json}
use ard_ossie_provider.Workflow.{WorkflowResult}
use ard_ossie_provider.Shell.{Machine, Raised, Command, post_status}
use ard_ossie_provider.Shell.Pulls.{get_status}
use ard_ossie_provider.Shell.Emits.{
  Emits, Extends, Emits-bind, Emits-bind-of, Emits-bind-lift, Emits-give, Emits-stop_if, Emits-if,
  Returns,
}
use ard_ossie_provider.Shell.Reads.{is_read, Emits-get_status}
use ard_ossie_provider.Shell.Notes.{Emits-set_issue_labels, Emits-upsert_pr_comment}
use ard_ossie_provider.Finalize.{
  Request, Ports, success, prior_of, has_succeeded, known_head, contexts, is_kept, update_issue,
  comment_pull, post_unless, post_contexts, post_statuses, publish, run,
}
use ard_ossie_provider.Finalize.Safe.{IsPassed, has_succeeded_iff}

-- the command posts no status
abbrev pub IsNoStatus : {Bytes : Type 0} → Command Bytes → Type 0
IsNoStatus (post_status _ _ _ _ _) = ⊥
IsNoStatus c = Unit

-- a result of a check was reported
abbrev pub IsFinal : Option String → Type 0
IsFinal o = (o ≡ some "success") ⊎ (o ≡ some "failure")

reads-IsNoStatus : {Bytes : Type 0} (c : Command Bytes) → is_read c ≡ true → IsNoStatus c
reads-IsNoStatus (post_status _ _ _ _ _) h = ground (arith, h)
reads-IsNoStatus _ h = tt

module _ {Bytes : Type 0} (m : Machine Bytes) (raw_decode : String → Option (Json × String))
    (ports : Ports) (request : Request) where
  -- the request or the result that it names tells a failure
  abbrev pub HasFailed : Type 0
  HasFailed =
      (prior : Option WorkflowResult)
      → prior_of ports request ≡ ok prior
      → ¬ ((request.upstream_result ≡ success) × IsPassed prior)

  -- both contexts of the known head have a final status, whatever is run before
  abbrev pub AreReported : Type 0
  AreReported =
      (prior : Option WorkflowResult) (head context : String) (log : List (Command Bytes))
      → prior_of ports request ≡ ok prior
      → known_head request prior ≡ ok (some head)
      → contains contexts context ≡ true
      → (o : Option String) × ((get_status m head context log).0 ≡ ok o) × IsFinal o

  Emits-update_issue : (s : Bool) (o : Option ℕ) → Emits IsNoStatus (update_issue m raw_decode s o)
  unfolding update_issue
  Emits-update_issue s none = Emits-give _
  Emits-update_issue s (some n) =
      Emits-set_issue_labels m raw_decode reads-IsNoStatus n _ _ λ current. tt

  Emits-comment_pull :
      (body : String) (o : Option ℕ) → Emits IsNoStatus (comment_pull m raw_decode body o)
  unfolding comment_pull
  Emits-comment_pull body none = Emits-give _
  Emits-comment_pull body (some n) =
      Emits-bind _ _
        (Emits-upsert_pr_comment m raw_decode reads-IsNoStatus n "ard:finalize" body tt λ id. tt)
        λ mutation. Emits-give _

  final-kept :
      (existing : Option String)
      → request.authoritative_statuses ≡ false
      → IsFinal existing
      → is_kept request false existing ≡ true
  unfolding is_kept
  final-kept existing a (inl e) = rw (e, a) refl
  final-kept existing a (inr e) = rw e refl

  module _ (prior : Option WorkflowResult) (e : prior_of ports request ≡ ok prior)
      (authority : request.authoritative_statuses ≡ false) (reported : AreReported) where
    Emits-post_unless :
        (head context : String) (existing : Option String)
        → IsFinal existing
        → Emits IsNoStatus (post_unless m raw_decode request false head context existing)
    unfolding post_unless
    Emits-post_unless head context existing f =
        Emits-if (is_kept request false existing) _ _ (λ _. Emits-give _)
          λ h. ground (arith, h, final-kept existing authority f)

    Emits-post_contexts :
        (head : String) (cs : List String)
        → known_head request prior ≡ ok (some head)
        → ((c : String) → contains cs c ≡ true → contains contexts c ≡ true)
        → Emits IsNoStatus (post_contexts m raw_decode request false head cs)
    unfolding post_contexts
    Emits-post_contexts head [] k h = Emits-give _
    Emits-post_contexts head (context ∷ cs) k h =
        Emits-bind-of IsFinal _ _ found (Emits-get_status m reads-IsNoStatus _ _) λ existing f.
          Emits-bind _ _ (Emits-post_unless head context existing f) λ posted.
            Emits-bind _ _ (Emits-post_contexts head cs k (λ c q. h c (ground (arith, q))))
              λ later. Emits-give _
      where
        found : Returns IsFinal (get_status m head context)
        found = record {
          value = λ log o q.
              let r =
                reported prior head context log e k (h context (ground (arith, eq_refl context))) in
              subst IsFinal (ok_injective {E = Raised} r.0 o (sym r.1 ∙ q)) r.2;
        }

    Emits-post_statuses :
        (o : Option String)
        → known_head request prior ≡ ok o
        → Emits IsNoStatus (post_statuses m raw_decode request false o)
    unfolding post_statuses
    Emits-post_statuses none k = Emits-give _
    Emits-post_statuses (some head) k = Emits-post_contexts head contexts k (λ c h. h)

    Emits-publish :
        (head : Option String)
        → has_succeeded request prior ≡ false
        → known_head request prior ≡ ok head
        → Emits IsNoStatus (publish m raw_decode request prior head)
    unfolding publish
    Emits-publish head bad k =
        Emits-bind _ _ (Emits-update_issue (has_succeeded request prior) request.issue_number)
          λ labels. Emits-bind _ _ (Emits-comment_pull _ request.pr_number) λ comments.
            Emits-bind _ _
              (subst (λ s. Emits IsNoStatus (post_statuses m raw_decode request s head)) (sym bad)
                (Emits-post_statuses head k))
              λ statuses. Emits-give _

  -- Where the upstream job or the prior result that the request names has failed, the request does
  -- not ask for authoritative statuses, and the known head has a final status under both contexts,
  -- whatever was run before, a finalization posts no status: it does not overwrite the results of
  -- the checks.
  pub run_keeps_reported :
      (log : List (Command Bytes))
      → request.authoritative_statuses ≡ false
      → HasFailed
      → AreReported
      → Extends IsNoStatus log (run m raw_decode ports request log).1
  unfolding run
  run_keeps_reported log authority failing reported = checked.at log
    where
      bad :
          (prior : Option WorkflowResult)
          → prior_of ports request ≡ ok prior
          → has_succeeded request prior ≡ false
      bad prior e = ground (arith, failing prior e, has_succeeded_iff request prior)

      checked : Emits IsNoStatus (run m raw_decode ports request)
      checked = Emits-bind _ _ (Emits-stop_if _ _) λ _. Emits-bind-lift _ _ λ prior e.
          Emits-bind-lift _ _
            λ head k. Emits-publish prior e authority reported head (bad prior e) k
