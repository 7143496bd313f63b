-- ===== src/Loop/Work.antt =====
-- `_execute` and `_finish_rejected` of src/runtime/loop.py.
use draindeck.Base.{
  ℕ, zero, String, Bool, true, false, Option, none, some, ◌==◌, string_comparable, leb,
  if◌then◌else◌,
}
use draindeck.Base.Dict.{get}
use draindeck.Base.Json.{Value, Fields, ℤ, null, str, int, obj, arr, pos, end, field, truthy}
use draindeck.Base.Result.{Result, Error, ok, err, halt, containment_unresolved}
use draindeck.Base.Action.{Action, ◌>>=◌, ◌>>◌, return, raise}
use draindeck.States.{Env}
use draindeck.Events.Schema.{issue_escalated, execution_finished}
use draindeck.Events.Log.Codec.{Codec}
use draindeck.Events.Projection.View.{StateProjection, ExecutionView}
use draindeck.Queue.Planner.{sort_ids}
use draindeck.Recovery.Containment.{join}
use draindeck.Loop.Budget.{Floats, record_usage}
use draindeck.Loop.Services.{Services, Settings, Python, EngineResult}
use draindeck.Loop.Pack.{build_prompt}
use draindeck.Loop.Emits.{
  Orchestrator, texts, number, outside, reading, raising, budgeting, emits, emit_all,
}

-- `ex.base_commit or self.proj.issue_base_commit.get(issue)`
abbrev pub base_of : StateProjection → String → Option Value → Option Value
base_of p issue none = get issue p.issue_base_commit
base_of p issue (some v) = elim (truthy v) [ true ↦ some v | false ↦ get issue p.issue_base_commit ]

-- `if base is None`
abbrev pub not_none : Option Value → Option Value
not_none none = none
not_none (some null) = none
not_none (some base) = some base

-- An unresolved containment stops the run, and so does any other exception.
abbrev pub halted : Error → Error
halted containment_unresolved = halt
halted e = e

-- How an engine's answer is routed.
pub data Route : Type 0 where
  timed_out out_of_turns failed finished : Route

abbrev reached : Option ℕ → ℕ → Bool
reached none cap = false
reached (some n) cap = leb cap n

abbrev is_zero : ℤ → Bool
is_zero (pos zero) = true
is_zero _ = false

unfoldable pub route : EngineResult → ℕ → Route
route result max_turns =
    if result.timed_out
    then timed_out
    else (if reached result.num_turns max_turns
        then out_of_turns
        else (if is_zero result.exit_status then finished else failed))

-- `common`, with what stands behind it.
unfoldable pub finished_payload : Value → String → EngineResult → ℕ → Fields → Fields
finished_payload base tip result pid rest = field "start_commit" base (
    field "end_commit" (str tip) (
      field "exit_status" (int result.exit_status) (
        field "num_turns" (turns result.num_turns) (
          field "usage" (obj result.usage) (
            field "duration_s" result.duration_s (
              field "transcript_path" (str result.transcript_path)
                (field "pid" (number pid) rest)))))))
  where
    turns : Option ℕ → Value
    turns none = null
    turns (some n) = number n

unfoldable pub rejected_as : String → Fields
rejected_as taxonomy =
    field "outcome" (str "REJECTED") (field "taxonomy_category" (str taxonomy) end)

module _ (env : Env) (c : Codec) (py : Python) (floats : Floats) {World : Type 0}
    (settings : Settings) (services : Services World) where
  -- _finish_rejected
  unfoldable pub finish_rejected :
      String
      → String
      → Value
      → (Fields → Fields)
      → String
      → Action (Orchestrator c World) (Unit {0})
  unfolding emits rejected_as
  finish_rejected issue xid base common taxonomy = do
    emits env c settings services execution_finished issue (common (rejected_as taxonomy))
        (some xid)
    outside (services.reset_hard base)

  -- The rows of `_execute`.
  unfoldable pub finish :
      Route → String → String → Value → (Fields → Fields) → Action (Orchestrator c World) (Unit {0})
  unfolding emits rejected_as finish_rejected
  finish timed_out issue xid base common = finish_rejected issue xid base common "timeout"
  finish out_of_turns issue xid base common = do
    emits env c settings services execution_finished issue
        (common (rejected_as "needs-decomposition")) (some xid)
    refs ← outside (services.list_attempt_refs issue)
    emits env c settings services issue_escalated issue
        (field "reason" (str "decompose") (
          field "taxonomy_category" (str "needs-decomposition")
            (field "evidence_refs" (arr (texts (sort_ids refs))) end)))
        none
    outside (services.reset_hard base)
  finish failed issue xid base common = finish_rejected issue xid base common "crashed"
  finish finished issue xid base common =
      emits env c settings services execution_finished issue (common end) (some xid) >> return tt

  abbrev pub ensure_prompt : Bool → String → String → Action (Orchestrator c World) (Unit {0})
  ensure_prompt true issue xid = return tt
  ensure_prompt false issue xid = do
    p ← reading (λ s. s.proj)
    prompt ← raising (build_prompt py p issue settings.commands)
    outside (services.write_prompt xid prompt)

  -- `except EngineContainmentError`
  abbrev pub engine_outcome : Result EngineResult → Action (Orchestrator c World) EngineResult
  engine_outcome (ok result) = return result
  engine_outcome (err e) = raise (halted e)

  -- `snapshot_commit(…) or current_commit()`
  abbrev pub tip_of : Option String → Action (Orchestrator c World) String
  tip_of none = outside services.current_commit
  tip_of (some tip) = elim (tip == "") [
    | true ↦ outside services.current_commit
    | false ↦ return tip
  ]

  -- What follows the engine.
  unfoldable pub conclude :
      String → String → Value → EngineResult → Action (Orchestrator c World) (Unit {0})
  unfolding finish route finished_payload record_usage join
  conclude issue xid base result = do
    taken ← outside (services.snapshot_commit (join "work " xid))
    tip ← tip_of taken
    outside (services.set_attempt_ref issue xid tip)
    budgeting (record_usage floats result.usage)
    finish (route result settings.max_turns) issue xid base
        (finished_payload base tip result settings.pid)

  unfoldable pub execute_at :
      String → String → Option Value → Action (Orchestrator c World) (Unit {0})
  unfolding conclude emit_all join
  execute_at issue xid none = raise halt
  execute_at issue xid (some base) = do
    outside (services.checkout_branch (join "issue/" issue) base)
    there ← outside (services.has_prompt xid)
    ensure_prompt there issue xid
    ran ← outside (services.engine_run settings.is_nt xid)
    emit_all env c settings services ran.appended
    result ← engine_outcome ran.outcome
    conclude issue xid base result

  -- _execute
  unfoldable pub execute : String → ExecutionView → Action (Orchestrator c World) (Unit {0})
  unfolding execute_at
  execute issue ex = do
    p ← reading (λ s. s.proj)
    execute_at issue ex.execution_id (not_none (base_of p issue ex.base_commit))
