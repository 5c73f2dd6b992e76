-- ===== src/Publication/Guarded.antt =====
-- src/ard_ossie/application/release_publication.py: the `try` around the remote calls.
use ard_ossie_provider.Prelude.{List, String, Result, ok, err}
use ard_ossie_provider.Json.{Fields}
use ard_ossie_provider.Workflow.{MutationRecord}
use ard_ossie_provider.Shell.{Shell, Machine, Raised, Command}
use ard_ossie_provider.Shell.Emits.{Emits, Extends}
use ard_ossie_provider.Publication.Run.{guarded, partial_of}

module _ {Bytes : Type 0} (m : Machine Bytes) {Q : Command Bytes → Type 0} where
  -- the `except` clauses run nothing
  pub Emits-guarded :
      {A : Type 0} (outputs : Fields) (artifact : String) (mutations : List MutationRecord)
      (body : Shell Bytes A)
      → Emits Q body
      → Emits Q (guarded m outputs artifact mutations body)
  unfolding guarded
  Emits-guarded {A = A} outputs artifact mutations body h = record {
    at = λ log. split log (body log).0 (body log).1 (h.at log);
  }
    where
      kept : Result Raised A → List (Command Bytes) → Result Raised A × List (Command Bytes)
      kept r log' = elim r [
        | ok a ↦ (ok a, log')
        | err e ↦ (err (partial_of m outputs artifact mutations e), log')
      ]

      split :
          (log : List (Command Bytes)) (r : Result Raised A) (log' : List (Command Bytes))
          → Extends Q log log'
          → Extends Q log (kept r log').1
      split log (ok a) log' h = h
      split log (err e) log' h = h
