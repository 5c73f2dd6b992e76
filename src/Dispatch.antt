-- ===== src/Dispatch.antt =====
-- src/ard_ossie/application/release_dispatch.py: `ReleaseDispatchService`. The file system port is
-- an argument.
pub mod Checks
pub mod Run
pub mod Entries
pub mod Approved
pub mod Once
mod Tests
use ard_ossie_provider.Prelude.{Bool, Option, String, Result}
use ard_ossie_provider.Workflow.{WorkflowResult}
use ard_ossie_provider.Shell.{Raised}

pub record Request : Type 0 where
  pub repository : String
  -- the absolute form of `result_path`
  pub result_path : String
  pub current : String
  pub target_url : String

pub record Ports : Type 0 where
  pub root : String
  -- what the port raises for the path of the result, or the parsed envelope where it is one
  pub read_result : String → Result Raised (Option WorkflowResult)
