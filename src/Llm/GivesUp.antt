-- ===== src/Llm/GivesUp.antt =====
-- src/ard_ossie/llm/service.py: why `_generate_structured` raises.
use ard_ossie_provider.Prelude.{
  ◌≡◌, refl, arith, ℕ, zero, suc, ◌+◌, ◌<◌, ◌⊎◌, some, Bool, true, false, Option, List, ◌∷◌, String,
  Result, ok, err, [],
}
use ard_ossie_provider.Json.{Json}
use ard_ossie_provider.Llm.{
  LlmResult, ProviderError, Raised, provider_error, is_error_code, make_error,
}
use ard_ossie_provider.Llm.Service.{with_counts}
use ard_ossie_provider.Llm.Fence.{validate_result}
use ard_ossie_provider.Llm.Service.{
  Event, asked, Progress, Round, again, leave, is_transient, is_output, is_result,
  with_attempt_counts, on_error, on_violation, on_answer, attempt_round, attempts,
  generate_structured,
}
use ard_ossie_provider.Llm.Checks.{IsViolation, validate_result-IsViolation}
use ard_ossie_provider.Llm.Accounts.{calls, IsCounted, attempt_round-IsRound, IsRound}

module _ {Message : Type 0} (provider : List (Event Message) → Result ProviderError LlmResult) where
  -- the last answer is an error that neither a retry nor a repair answers
  pub record IsHopeless (code : String) (log : List (Event Message)) : Type 0 where
    pub last : ProviderError
    pub answered : provider log ≡ err last
    pub same_code : last.code ≡ code
    pub not_transient : is_transient last.kind ≡ false
    pub not_repairable : (is_output last.kind ≡ false) ⊎ (is_result last.rejected_result ≡ false)

  abbrev pub HasCause : Result Raised LlmResult → List (Event Message) → Type 0
  HasCause (err (provider_error e)) log = (calls log ≡ 3) ⊎ IsHopeless e.code log
  HasCause _ log = Unit

  abbrev pub IsCaused : Round Message → Type 0
  IsCaused (again p) = Unit
  IsCaused (leave result log) = HasCause result log

  at_limit :
      (p : Progress Message) (e : ProviderError)
      → calls p.log ≡ 3
      → HasCause (err (with_attempt_counts e p.retries p.repairs)) p.log
  unfolding with_attempt_counts make_error
  at_limit p e h = ground arith

  hopeless :
      (p : Progress Message) (e : ProviderError)
      → IsHopeless e.code p.log
      → HasCause (err (with_attempt_counts e p.retries p.repairs)) p.log
  unfolding with_attempt_counts make_error
  hopeless p e h = ground arith

  -- the limit of the repairs is the limit of the attempts
  abbrev IsFull : ℕ → Progress Message → Type 0
  IsFull attempt p = (calls p.log ≡ attempt + 1) × (p.retries + p.repairs ≡ attempt) × (attempt < 3)

  module _ (repair : String → List Message) (loads : String → Option Json)
      (conforms : Json → Bool) where
    on_violation-IsCaused :
        (attempt : ℕ) (p : Progress Message) (e : ProviderError)
        → IsFull attempt p
        → is_output e.kind ≡ true
        → IsCaused (on_violation provider repair loads conforms attempt p e)
    unfolding on_violation
    on_violation-IsCaused attempt p e v h = ground (arith, at_limit p e)

    on_error-IsCaused :
        (attempt : ℕ) (p : Progress Message) (e : ProviderError)
        → IsFull attempt p
        → provider p.log ≡ err e
        → IsCaused (on_error provider repair loads conforms attempt p e)
    unfolding on_error
    on_error-IsCaused attempt p e v h = ground (arith, at_limit p e, hopeless p e, cause)
      where
        cause :
            is_transient e.kind ≡ false
            → (is_output e.kind ≡ false) ⊎ (is_result e.rejected_result ≡ false)
            → IsHopeless e.code p.log
        cause a b = record {
          last = e;
          answered = h;
          same_code = refl;
          not_transient = a;
          not_repairable = b;
        }

    on_answer-IsCaused :
        (attempt : ℕ) (p : Progress Message) (r : LlmResult)
        → IsFull attempt p
        → IsCaused (on_answer provider repair loads conforms attempt p r)
    unfolding on_answer
    on_answer-IsCaused attempt p r v =
        split (validate_result loads conforms r) (validate_result-IsViolation loads conforms r)
      where
        split :
            (c : Result ProviderError Json)
            → ((e : ProviderError) → c ≡ err e → IsViolation e)
            → IsCaused (elim c [
              | err error ↦ on_violation provider repair loads conforms attempt p error
              | ok structured ↦
                  leave
                    (ok (
                      with_counts
                        (record r { structured = some structured })
                        p.retries
                        p.repairs
                        p.repair_codes))
                    p.log
            ])
        split (ok j) hv = tt
        split (err e) hv = on_violation-IsCaused attempt p e v (hv e refl).1

    attempt_round-IsCaused :
        (attempt : ℕ) (p : Progress Message)
        → IsCounted attempt p
        → attempt < 3
        → IsCaused (attempt_round provider repair loads conforms attempt p)
    unfolding attempt_round
    attempt_round-IsCaused attempt p v h =
        split (provider (asked p.active_messages ∷ p.log)) (λ e q. q)
      where
        split :
            (c : Result ProviderError LlmResult)
            → ((e : ProviderError) → c ≡ err e → provider (asked p.active_messages ∷ p.log) ≡ err e)
            → IsCaused (elim c [
              | err error ↦
                  on_error provider repair loads conforms attempt
                    (record p { log = asked p.active_messages ∷ p.log })
                    error
              | ok result ↦
                  on_answer provider repair loads conforms attempt
                    (record p { log = asked p.active_messages ∷ p.log })
                    result
            ])
        split (ok r) hv =
            on_answer-IsCaused attempt (record p { log = asked p.active_messages ∷ p.log }) r
              (omega arith, v.split, h)
        split (err e) hv =
            on_error-IsCaused attempt (record p { log = asked p.active_messages ∷ p.log }) e
              (omega arith, v.split, h) (hv e refl)

    module _
        (proper : (log : List (Event Message)) (e : ProviderError)
          → provider log ≡ err e
          → is_error_code e.code ≡ true) where
      attempts-HasCause :
          (left attempt : ℕ) (p : Progress Message)
          → left + attempt ≡ 3
          → 0 < left
          → IsCounted attempt p
          → HasCause
              (attempts provider repair loads conforms left attempt p).0
              (attempts provider repair loads conforms left attempt p).1
      unfolding attempts
      attempts-HasCause zero attempt p e h v = absurd (omega arith)
      attempts-HasCause (suc left) attempt p e h v =
          split (attempt_round provider repair loads conforms attempt p)
            (attempt_round-IsRound conforms provider repair loads proper attempt p v (omega arith))
            (attempt_round-IsCaused attempt p v (omega arith))
            (λ p' k w. attempts-HasCause left (attempt + 1) p' (omega arith) (omega arith) w)
        where
          next : Round Message → Result Raised LlmResult × List (Event Message)
          next r = elim r [
            | again p' ↦ attempts provider repair loads conforms left (attempt + 1) p'
            | leave result log ↦ (result, log)
          ]

          split :
              (r : Round Message)
              → IsRound conforms attempt r
              → IsCaused r
              → ((p' : Progress Message)
                  → attempt + 1 < 3
                  → IsCounted (attempt + 1) p'
                  → HasCause
                      (attempts provider repair loads conforms left (attempt + 1) p').0
                      (attempts provider repair loads conforms left (attempt + 1) p').1)
              → HasCause (next r).0 (next r).1
          split (leave result log) f c rest = c
          split (again p') f c rest = rest p' f.1 f.0

      -- Where the provider's errors have proper codes, generate_structured raises an error of the
      -- provider only after three requests, or where the answer to the last request was an error
      -- with this code that is not transient, and is no output error that carries a rejected
      -- result.
      pub generate_structured-HasCause :
          (messages : List Message)
          → HasCause
              (generate_structured provider repair loads conforms messages).0
              (generate_structured provider repair loads conforms messages).1
      unfolding generate_structured
      generate_structured-HasCause messages =
          attempts-HasCause 3 0
            (record {
              retries = 0;
              repairs = 0;
              repair_codes = [];
              active_messages = messages;
              log = [];
            })
            (omega arith) (omega arith) (ground arith)
