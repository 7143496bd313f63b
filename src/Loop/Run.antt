-- ===== src/Loop/Run.antt =====
-- `step` and `run` of src/runtime/loop.py.
use draindeck.Base.{ℕ, zero, suc, String, Bool, true, false, Option, none, some, string_comparable}
use draindeck.Base.Dict.{get}
use draindeck.Base.Result.{Result, Error, ok, err, halt, budget_exhausted}
use draindeck.Base.Action.{Action, ◌>>=◌, ◌>>◌, return, raise, modify}
use draindeck.States.{
  Env, IssueState, ExecutionState, pending, active, executing, validating, reviewing, accepted,
  rejected, crashed,
}
use draindeck.Events.Log.Codec.{Codec}
use draindeck.Events.Projection.View.{ExecutionView, latest_execution}
use draindeck.Loop.Budget.{Floats}
use draindeck.Loop.Choice.{next_actionable}
use draindeck.Loop.Services.{Services, Settings, Python}
use draindeck.Loop.Emits.{Orchestrator, reading, raising}
use draindeck.Loop.Attempt.{activate, spawn_or_escalate}
use draindeck.Loop.Work.{execute}
use draindeck.Loop.Verdicts.{validate, review, commit_sequence}

-- How a call of `run` stands: on the way, or with the reason of its stop.
pub data Progress : Type 0 where
  running stopped : Progress

abbrev pub is_exhausted : Error → Bool
is_exhausted budget_exhausted = true
is_exhausted _ = false

module _ (env : Env) (c : Codec) (py : Python) (floats : Floats) {World : Type 0}
    (settings : Settings) (services : Services World) where
  -- The rows of an ACTIVE issue, by its latest execution.
  abbrev pub move :
      ExecutionState → String → ExecutionView → Action (Orchestrator c World) (Unit {0})
  unfolding spawn_or_escalate execute validate review commit_sequence
  move rejected issue ex = spawn_or_escalate env c py floats settings services issue (some ex)
  move crashed issue ex = spawn_or_escalate env c py floats settings services issue (some ex)
  move executing issue ex = execute env c py floats settings services issue ex
  move validating issue ex = validate env c py settings services issue ex
  move reviewing issue ex = review env c py settings services issue ex
  move accepted issue ex = commit_sequence env c py settings services issue ex
  move _ issue ex = raise halt

  abbrev pub advance : String → Option ExecutionView → Action (Orchestrator c World) (Unit {0})
  unfolding spawn_or_escalate execute validate review commit_sequence
  advance issue none = spawn_or_escalate env c py floats settings services issue none
  advance issue (some ex) = move ex.state issue ex

  abbrev pub step_from : Option IssueState → String → Action (Orchestrator c World) (Unit {0})
  unfolding activate latest_execution spawn_or_escalate execute validate review commit_sequence
  step_from (some pending) issue = activate env c py floats settings services issue
  step_from (some active) issue = do
    p ← reading (λ s. s.proj)
    ex ← raising (latest_execution p issue)
    advance issue ex
  step_from _ issue = raise halt

  -- step
  unfoldable pub step : String → Action (Orchestrator c World) (Unit {0})
  unfolding activate latest_execution spawn_or_escalate execute validate review commit_sequence
  step issue = do st ← reading (λ s. get issue s.proj.issues); step_from st issue

  abbrev pub stop : String → Action (Orchestrator c World) (Unit {0})
  stop reason = modify (λ s. record s { world = record s.world { stop_reason = reason } })

  -- `except _BudgetExhausted`; any other exception leaves `run`.
  abbrev pub after_step :
      Result (Unit {0}) × Orchestrator c World → Result Progress × Orchestrator c World
  after_step (ok _, s) = (ok running, s)
  after_step (err e, s) = elim (is_exhausted e) [
    | true ↦ (stop "budget hard stop" >> return stopped) s
    | false ↦ (err e, s)
  ]

  abbrev pub go_on : Option String → Action (Orchestrator c World) Progress
  unfolding step
  go_on none = stop "queue drained — no actionable issue" >> return stopped
  go_on (some issue) = λ s. after_step (step issue s)

  -- One turn of the loop of `run`.
  unfoldable pub turn : Action (Orchestrator c World) Progress
  unfolding next_actionable step
  turn = do
    p ← reading (λ s. s.proj)
    issue ← raising (next_actionable p settings.selection)
    go_on issue

  abbrev pub unless_stopped :
      Progress → Action (Orchestrator c World) Progress → Action (Orchestrator c World) Progress
  unless_stopped stopped rest = return stopped
  unless_stopped running rest = rest

  -- `run`, as far as `fuel` turns lead.
  unfoldable pub run : ℕ → Action (Orchestrator c World) Progress
  unfolding turn
  run zero = return running
  run (suc fuel) = turn >>= λ progress. unless_stopped progress (run fuel)
