-- ===== src/Loop/Services.antt =====
-- What the orchestrator of src/runtime/loop.py works with: its configuration, and the engine, the
-- validator, the reviewer, the repository and the files behind interfaces.
use draindeck.Base.{ℕ, String, Bool, Option, List}
use draindeck.Base.Json.{Value, Fields, ℤ}
use draindeck.Base.Result.{Result}
use draindeck.Base.Action.{Action}
use draindeck.Events.Schema.{Event}
use draindeck.Loop.Budget.{BudgetManager}
use draindeck.Loop.Choice.{Selection}

-- EngineResult (engine/claude_headless.py)
pub record EngineResult : Type 0 where
  pub exit_status : ℤ
  pub timed_out : Bool
  pub duration_s : Value
  pub usage : Fields
  pub num_turns : Option ℕ
  pub transcript_path : String

-- What an engine does with a log that it is given: the events that it appends while it runs, and
-- how it ends.
pub record EngineRun : Type 0 where
  pub appended : List Event
  pub outcome : Result EngineResult

-- ValidationResult (validation/runner.py); `per_command` has the rows of `gate_results`.
pub record ValidationResult : Type 0 where
  pub passed : Bool
  pub per_command : List Value
  pub flake_retries : ℕ
  pub taxonomy_category : Value

-- ReviewPack and ReviewVerdict (reviewer/base.py)
pub record ReviewPack : Type 0 where
  pub execution_id : String
  pub reviewed_commit : Value
  pub issue_text : String
  pub diff : String

pub record ReviewVerdict : Type 0 where
  pub is_approved : Bool
  pub provider : String
  pub severity : String
  pub feedback : List Value

-- The orchestrator's fields, and what it reads of Config.
pub record Settings : Type 0 where
  pub target : String
  pub run_id : Value
  pub selection : Selection
  pub max_attempts_per_issue : ℕ
  pub provider : String
  pub timeout_seconds : ℕ
  pub max_turns : ℕ
  pub commands : List String
  pub new_test_pattern : String
  pub new_test_command_prefix : String
  pub is_nt : Bool
  pub pid : ℕ

-- Python's standard library, as far as the loop calls it: `==` of two JSON values, an f-string's
-- text of a number and of a value, str.strip, str.rstrip, fnmatch, and the hash of a prompt.
pub record Python : Type 0 where
  pub same : Value → Value → Bool
  pub digits : ℕ → String
  pub text : Value → String
  pub strip : String → String
  pub rstrip : String → String
  pub fnmatch : String → String → Bool
  pub prompt_hash : String → String

-- The adapter (repo/adapter.py), the engine, the validator, the reviewer, the files of prompts, and
-- the clock.
pub record Services (World : Type 0) : Type 0 where
  pub head_of : String → Action World (Option String)
  pub untracked_paths : Action World (List String)
  pub list_attempt_refs : String → Action World (List String)
  pub checkout_branch : String → Value → Action World (Unit {0})
  pub snapshot_commit : String → Action World (Option String)
  pub current_commit : Action World String
  pub set_attempt_ref : String → String → String → Action World (Unit {0})
  pub delete_attempt_ref : String → String → Action World (Unit {0})
  pub reset_hard : Value → Action World (Unit {0})
  pub added_files : Value → Value → Action World (List String)
  pub diff : Value → Value → Action World String
  pub commit_exists : Value → Action World Bool
  pub is_ancestor : Value → String → Action World Bool
  pub find_merge_commit : String → Value → Action World (Option String)
  pub merge_to : String → Value → String → Action World String
  pub write_prompt : String → String → Action World (Unit {0})
  pub has_prompt : String → Action World Bool
  pub engine_run : Bool → String → Action World EngineRun
  pub validate : Value → String → List String → Action World ValidationResult
  pub review : ReviewPack → Action World ReviewVerdict
  pub utcnow : World → String

-- What stands beside the log and the projection: the world, the budget, the reason of the stop.
pub record Beside (World : Type 0) : Type 0 where
  pub world : World
  pub budget : BudgetManager
  pub stop_reason : String
