-- ===== src/States.antt =====
-- The package `runtime/state` (model.py, transitions.py) is not part of the repository: its tables
-- are a parameter, `Env`, with the behaviour that docs/03-state-machine-and-event-schema.md (§1, §2)
-- and the comments in src/runtime document as named laws. The members of the two enumerations are
-- those that the document and the code name.
use draindeck.Base.{ℕ, List, Bool, true, false, Option, none, ◌≡◌, ◌↔◌}
use draindeck.Base.Json.{Fields}
use draindeck.Base.Result.{Result}
use draindeck.Events.Schema.{EventType}

pub data IssueState : Type 0 where
  pending active done needs_human needs_decomposition : IssueState

pub data ExecutionState : Type 0 where
  spawned executing validating reviewing accepted rejected crashed : ExecutionState

-- What the projection imports: the transition tables of `runtime.state`, and two functions of
-- Python's standard library (the class `\d` of `re`, and whether `strptime` accepts a timestamp).
pub record Env : Type 0 where
  pub issue_transitions : IssueState → EventType → Option (Fields → Result IssueState)
  pub execution_transitions : ExecutionState → EventType → Option (Fields → Result ExecutionState)
  pub execution_terminal : ExecutionState → Bool
  pub is_commit_sequence_state : ExecutionState → Bool
  pub is_decimal : ℕ → Bool
  pub strptime_accepts : List ℕ → Bool

-- "REJECTED / CRASHED: Terminal" (docs/03 §2): a terminal state has no outgoing row, and an
-- execution that still runs is not terminal.
pub record TerminalLaws (env : Env) : Type 0 where
  pub terminal_is_final :
      (s : ExecutionState) (t : EventType)
      → env.execution_terminal s ≡ true
      → env.execution_transitions s t ≡ none
  pub executing_not_terminal : env.execution_terminal ExecutionState.executing ≡ false

-- "CommitIntent/CommitCreated are only ever legal while state is ACCEPTED", and
-- "EXECUTION_TRANSITIONS has no outgoing row from ACCEPTED" (recovery/bindings.py).
pub record CommitLaws (env : Env) : Type 0 where
  pub commit_only_accepted :
      (s : ExecutionState) → (env.is_commit_sequence_state s ≡ true) ↔ (s ≡ ExecutionState.accepted)
  pub accepted_is_final :
      (t : EventType) → env.execution_transitions ExecutionState.accepted t ≡ none

abbrev pub is_active : IssueState → Bool
is_active active = true
is_active _ = false

abbrev pub is_pending : IssueState → Bool
is_pending pending = true
is_pending _ = false

abbrev pub is_done : IssueState → Bool
is_done done = true
is_done _ = false

abbrev pub is_executing : ExecutionState → Bool
is_executing executing = true
is_executing _ = false
