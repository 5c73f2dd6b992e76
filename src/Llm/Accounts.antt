-- ===== src/Llm/Accounts.antt =====
-- src/ard_ossie/llm/service.py: the attempts of `_generate_structured`, counted.
use ard_ossie_provider.Prelude.{
  ◌≡◌, arith, ℕ, suc, ◌+◌, ◌<◌, ◌≤◌, Bool, true, Option, some, List, [], ◌∷◌, ◌++◌, String, length,
  Result, ok, err, refl, zero,
}
use ard_ossie_provider.Json.{Json}
use ard_ossie_provider.Llm.{
  LlmResult, ProviderError, Raised, provider_error, is_error_code, make_error,
}
use ard_ossie_provider.Llm.Fence.{is_object, validate_result}
use ard_ossie_provider.Llm.Checks.{validate_result-IsViolation, IsViolation, validated}
use ard_ossie_provider.Llm.Service.{
  with_counts, on_violation, on_answer, attempt_round, attempts, generate_structured, Event, asked,
  slept, Progress, Round, again, leave, with_attempt_counts, on_error,
}

module _ {Message : Type 0} where
  -- the requests of a log
  abbrev pub calls : List (Event Message) → ℕ
  calls [] = 0
  calls (asked _ ∷ log) = suc (calls log)
  calls (slept _ ∷ log) = calls log

  -- the pauses of a log
  abbrev pub pauses : List (Event Message) → ℕ
  pauses [] = 0
  pauses (asked _ ∷ log) = pauses log
  pauses (slept _ ∷ log) = suc (pauses log)

length-append_one {ℓ} : {A : Type ℓ} (xs : List A) (x : A) → length (xs ++ (x ∷ [])) ≡ length xs + 1
length-append_one [] x = omega arith
length-append_one (y ∷ xs) x = omega (arith, length-append_one xs x)

-- the variables of the loop before the round `attempt`
pub record IsCounted {Message : Type 0} (attempt : ℕ) (p : Progress Message) : Type 0 where
  pub asked_before : calls p.log ≡ attempt
  pub split : p.retries + p.repairs ≡ attempt
  pub paused : pauses p.log ≡ p.retries
  pub coded : length p.repair_codes ≡ p.repairs

-- the result of the method after a number of requests and a number of pauses
pub record IsAnswer (conforms : Json → Bool) (n pauses_made : ℕ) (r : LlmResult) : Type 0 where
  pub answer : Json
  pub kept : r.structured ≡ some answer
  pub dict : is_object answer ≡ true
  pub conforming : conforms answer ≡ true
  pub counted : n ≡ r.metadata.retry_count + r.metadata.repair_count + 1
  pub paused : pauses_made ≡ r.metadata.retry_count
  pub codes : length r.repair_validation_codes ≡ r.metadata.repair_count

abbrev pub Accounts : (Json → Bool) → Result Raised LlmResult → ℕ → ℕ → Type 0
Accounts conforms (ok r) n pauses_made = IsAnswer conforms n pauses_made r
Accounts conforms (err (provider_error e)) n pauses_made =
    (n ≡ e.retry_count + e.repair_count + 1) × (pauses_made ≡ e.retry_count)
Accounts conforms (err _) n pauses_made = ⊥

module _ {Message : Type 0} (conforms : Json → Bool) where
  -- what an execution of the loop owes
  abbrev pub IsSettled : Result Raised LlmResult × List (Event Message) → Type 0
  IsSettled (result, log) =
      Accounts conforms result (calls log) (pauses log) × (1 ≤ calls log) × (calls log ≤ 3)

  abbrev pub IsRound : ℕ → Round Message → Type 0
  IsRound attempt (again p) = IsCounted (attempt + 1) p × (attempt + 1 < 3)
  IsRound attempt (leave result log) =
      Accounts conforms result (calls log) (pauses log) × (calls log ≡ attempt + 1)

  -- the variables once the request of the round `attempt` is in the log
  record IsAsked (attempt : ℕ) (p : Progress Message) : Type 0 where
    now_asked : calls p.log ≡ attempt + 1
    split : p.retries + p.repairs ≡ attempt
    paused : pauses p.log ≡ p.retries
    coded : length p.repair_codes ≡ p.repairs
    in_range : attempt < 3

  raised-Accounts :
      (attempt : ℕ) (p : Progress Message) (e : ProviderError)
      → IsAsked attempt p
      → is_error_code e.code ≡ true
      → Accounts conforms
          (err (with_attempt_counts e p.retries p.repairs))
          (calls p.log)
          (pauses p.log)
  unfolding with_attempt_counts make_error
  raised-Accounts attempt p e v h = ground arith

  module _ (provider : List (Event Message) → Result ProviderError LlmResult)
      (repair : String → List Message) (loads : String → Option Json) where
    on_error-IsRound :
        (attempt : ℕ) (p : Progress Message) (e : ProviderError)
        → IsAsked attempt p
        → is_error_code e.code ≡ true
        → IsRound attempt (on_error provider repair loads conforms attempt p e)
    unfolding on_error
    on_error-IsRound attempt p e v h =
        ground (arith, raised-Accounts attempt p e v h, length-append_one p.repair_codes e.code)

    on_violation-IsRound :
        (attempt : ℕ) (p : Progress Message) (e : ProviderError)
        → IsAsked attempt p
        → is_error_code e.code ≡ true
        → IsRound attempt (on_violation provider repair loads conforms attempt p e)
    unfolding on_violation
    on_violation-IsRound attempt p e v h =
        ground (arith, raised-Accounts attempt p e v h, length-append_one p.repair_codes e.code)

    on_ok-IsRound :
        (attempt : ℕ) (p : Progress Message) (r : LlmResult) (j : Json)
        → IsAsked attempt p
        → (is_object j ≡ true) × (conforms j ≡ true)
        → IsAnswer conforms
            (calls p.log)
            (pauses p.log)
            (with_counts (record r { structured = some j }) p.retries p.repairs p.repair_codes)
    unfolding with_counts
    on_ok-IsRound attempt p r j v h = record {
      answer = j;
      kept = refl;
      dict = h.0;
      conforming = h.1;
      counted = ground arith;
      paused = ground arith;
      codes = v.coded;
    }

    on_answer-IsRound :
        (attempt : ℕ) (p : Progress Message) (r : LlmResult)
        → IsAsked attempt p
        → IsRound attempt (on_answer provider repair loads conforms attempt p r)
    unfolding on_answer
    on_answer-IsRound attempt p r v =
        split (validate_result loads conforms r) (validate_result-IsViolation loads conforms r)
          (validated loads conforms r)
      where
        split :
            (c : Result ProviderError Json)
            → ((e : ProviderError) → c ≡ err e → IsViolation e)
            → ((j : Json) → c ≡ ok j → (is_object j ≡ true) × (conforms j ≡ true))
            → IsRound attempt (elim c [
              | err error ↦ on_violation provider repair loads conforms attempt p error
              | ok structured ↦
                  leave
                    (ok (
                      with_counts
                        (record r { structured = some structured })
                        p.retries
                        p.repairs
                        p.repair_codes))
                    p.log
            ])
        split (ok j) hv ho = (on_ok-IsRound attempt p r j v (ho j refl), v.now_asked)
        split (err e) hv ho = on_violation-IsRound attempt p e v (hv e refl).0

    asking-IsAsked :
        (attempt : ℕ) (p : Progress Message)
        → IsCounted attempt p
        → attempt < 3
        → IsAsked attempt (record p { log = asked p.active_messages ∷ p.log })
    asking-IsAsked attempt p v h = ground arith

    module _
        (proper : (log : List (Event Message)) (e : ProviderError)
          → provider log ≡ err e
          → is_error_code e.code ≡ true) where
      pub attempt_round-IsRound :
          (attempt : ℕ) (p : Progress Message)
          → IsCounted attempt p
          → attempt < 3
          → IsRound attempt (attempt_round provider repair loads conforms attempt p)
      unfolding attempt_round
      attempt_round-IsRound attempt p v h =
          split (provider (asked p.active_messages ∷ p.log))
            (λ e. proper (asked p.active_messages ∷ p.log) e)
        where
          split :
              (c : Result ProviderError LlmResult)
              → ((e : ProviderError) → c ≡ err e → is_error_code e.code ≡ true)
              → IsRound attempt (elim c [
                | err error ↦
                    on_error provider repair loads conforms attempt
                      (record p { log = asked p.active_messages ∷ p.log })
                      error
                | ok result ↦
                    on_answer provider repair loads conforms attempt
                      (record p { log = asked p.active_messages ∷ p.log })
                      result
              ])
          split (ok r) hv = on_answer-IsRound attempt _ r (asking-IsAsked attempt p v h)
          split (err e) hv = on_error-IsRound attempt _ e (asking-IsAsked attempt p v h) (hv e refl)

      attempts-IsSettled :
          (left attempt : ℕ) (p : Progress Message)
          → left + attempt ≡ 3
          → 0 < left
          → IsCounted attempt p
          → IsSettled (attempts provider repair loads conforms left attempt p)
      unfolding attempts
      attempts-IsSettled zero attempt p e h v = absurd (omega arith)
      attempts-IsSettled (suc left) attempt p e h v =
          split (attempt_round provider repair loads conforms attempt p)
            (attempt_round-IsRound attempt p v (omega arith))
            (λ p' k w. attempts-IsSettled left (attempt + 1) p' (omega arith) (omega arith) w)
        where
          split :
              (r : Round Message)
              → IsRound attempt r
              → ((p' : Progress Message)
                  → attempt + 1 < 3
                  → IsCounted (attempt + 1) p'
                  → IsSettled (attempts provider repair loads conforms left (attempt + 1) p'))
              → IsSettled (elim r [
                | again p' ↦ attempts provider repair loads conforms left (attempt + 1) p'
                | leave result log ↦ (result, log)
              ])
          split (leave result log) f rest = (f.0, omega arith, omega arith)
          split (again p') f rest = rest p' f.1 f.0

      -- Where the provider's errors have proper codes, an execution of generate_structured makes one
      -- to three requests, each but the first after one retry or one repair; it returns with an
      -- object that conforms to the schema and with the exact numbers of retries, which are the
      -- pauses, and of repairs, with one code for each, or it raises a provider's error with these
      -- numbers, and never an assertion or an error of the error's constructor.
      pub generate_structured-IsSettled :
          (messages : List Message)
          → IsSettled (generate_structured provider repair loads conforms messages)
      unfolding generate_structured
      generate_structured-IsSettled messages =
          attempts-IsSettled 3 0
            (record {
              retries = 0;
              repairs = 0;
              repair_codes = [];
              active_messages = messages;
              log = [];
            })
            (omega arith) (omega arith) (ground arith)
