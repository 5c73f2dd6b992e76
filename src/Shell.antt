-- ===== src/Shell.antt =====
-- The programs that src/ard_ossie/adapters/git_cli.py and adapters/github_cli.py run, and the
-- monad of the code that runs them. The state is the list of the commands run so far, the newest
-- first; what a command returns may depend on all of them, and on nothing else that is known.
pub mod Text
pub mod Git
pub mod GitHub
pub mod Pulls
pub mod Release
pub mod Emits
pub mod Reads
pub mod Uploads
pub mod Posts
mod Tests
pub mod Pages
pub mod Issues
pub mod Notes
pub mod Decoded
use ard_ossie_provider.Prelude.{
  ℕ, Bool, true, false, not, Option, none, some, List, [], ◌∷◌, String, ◌==◌, if◌then◌else◌, Result,
  ok, err,
}
use ard_ossie_provider.Json.{Json}
use ard_ossie_provider.Workflow.{WorkflowError, transient_error, configuration_error}

-- `CommandResult`; a negative code stands as any number above 1
pub record CommandResult : Type 0 where
  pub returncode : ℕ
  pub stdout : String
  pub stderr : String

-- what the process port raises instead of an answer
pub data ProcessFailure : Type 0 where
  timed_out not_started : ProcessFailure

-- an exception: one of the workflow, or another by its name
pub data Raised : Type 0 where
  workflow : WorkflowError → Raised
  other : String → Raised

module _ (Bytes : Type 0) where
  -- the calls of `git` and `gh` by what they pass, the staging of an asset in a private directory
  -- and its removal
  pub data Command : Type 0 where
    rev_parse_head set_user_name set_user_email unstage : Command
    rev_parse_tag : String → Command
    make_tag : String → String → Command
    push_refs : List String → Command
    merge_base : String → String → Command
    stage : String → Bytes → Command
    get_release_by_tag : String → Command
    patch_release : ℕ → String → Command
    post_release : String → String → Command
    upload_asset : String → String → Bytes → Command
    get_pull : ℕ → Command
    get_commit_status : String → Command
    post_status : String → String → String → String → String → Command
    post_dispatch : String → Json → Command
    get_issue : ℕ → Command
    put_labels : ℕ → List String → Command
    get_comments : ℕ → Command
    patch_comment : ℕ → String → Command
    post_comment : ℕ → String → Command

  -- what the code relies on outside of itself: the programs, `json.loads`, `int`, `str.casefold`,
  -- SHA-256
  pub record Machine : Type 0 where
    pub reply : List Command → CommandResult
    pub failure : List Command → Option ProcessFailure
    pub loads : String → Option Json
    pub int_of : Json → Option ℕ
    pub casefold : String → String
    pub sha256 : Bytes → String

  abbrev pub Shell : Type 0 → Type 0
  Shell A = List Command → Result Raised A × List Command

-- the answer of a program, or the exception of the process port
unfoldable pub answered : Option ProcessFailure → CommandResult → Result Raised CommandResult
answered none result = ok result
answered (some timed_out) result = err (workflow (transient_error "COMMAND_TIMEOUT"))
answered (some not_started) result = err (workflow (configuration_error "COMMAND_START_FAILED"))

module _ {Bytes : Type 0} where
  abbrev pub then_run :
      {A B : Type 0}
      → Result Raised A
      → (A → Shell Bytes B)
      → List (Command Bytes)
      → Result Raised B × List (Command Bytes)
  then_run (ok a) f log = f a log
  then_run (err e) f log = (err e, log)

  unfoldable pub give : {A : Type 0} → A → Shell Bytes A
  give a log = (ok a, log)

  unfoldable pub raise : {A : Type 0} → Raised → Shell Bytes A
  raise e log = (err e, log)

  unfoldable pub lift : {A : Type 0} → Result Raised A → Shell Bytes A
  lift r log = (r, log)

  -- what stands in a file, or is checked of one, after the programs run so far
  unfoldable pub now : {A : Type 0} → (List (Command Bytes) → Result Raised A) → Shell Bytes A
  now f log = (f log, log)

  -- `if bad: raise e`
  unfoldable pub stop_if : Bool → Raised → Shell Bytes (Unit {0})
  unfolding give raise
  stop_if true e = raise e
  stop_if false e = give tt

  -- one program is run, or tried
  unfoldable pub sh : Machine Bytes → Command Bytes → Shell Bytes CommandResult
  unfolding answered
  sh m c log = (answered (m.failure (c ∷ log)) (m.reply (c ∷ log)), c ∷ log)

  infixl 5 ◌>>=◌
  -- opening this opens the other actions too
  unfoldable pub ◌>>=◌ : {A B : Type 0} → Shell Bytes A → (A → Shell Bytes B) → Shell Bytes B
  unfolding give raise lift now stop_if sh
  ◌>>=◌ m f log = let (r, log') = m log in then_run r f log'

-- `result.returncode == 0`
abbrev pub succeeded : CommandResult → Bool
succeeded r = r.returncode == 0
