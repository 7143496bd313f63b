-- ===== src/Recovery/Reconciler.antt =====
-- `recover` of src/runtime/recovery/reconciler.py. The functions that it is given are the record
-- `Seams`, over any type of worlds.
use draindeck.Base.{String, Bool, true, false, Option, none, some, List, [], ◌∷◌, ◌++◌}
use draindeck.Base.Lists.{length}
use draindeck.Base.Json.{Value, null, str, end, field}
use draindeck.Base.Result.{Result, ok, err, workspace_blocked}
use draindeck.Base.Action.{Action, ◌>>=◌, ◌>>◌, return, raise}
use draindeck.States.{Env, ExecutionState}
use draindeck.Events.Schema
use draindeck.Events.Schema.{Event, execution_crashed}
use draindeck.Events.Log.Codec.{Codec}
use draindeck.Events.Log.Replay.{replay}
use draindeck.Events.Projection.View.{
  StateProjection, ExecutionView, empty, is_workspace_blocked, open_executions,
}
use draindeck.Events.Projection.Replay.{rebuild}
use draindeck.Recovery.State.{Runtime, RecoveryReport, empty_report, in_world, noting, emit}

-- A check returns its events, and the strings that it leaves in its attribute `repairs`.
abbrev pub Check : Type 0 → Type 0
Check World = StateProjection → Action World (List Event × List String)

-- The keyword arguments of `recover`, the clock of `Event.ts`, and `ExecutionState.value`.
pub record Seams (World : Type 0) : Type 0 where
  pub is_execution_alive : String → Bool
  pub preserve_residue : Option (ExecutionView → Action World (Option String))
  pub recover_workspace : Option (Action World (List String))
  pub check_unwitnessed_commit : Option (Check World)
  pub check_dirty_workspace : Option (Check World)
  pub workspace_key : Option String
  pub utcnow : World → String
  pub state_value : ExecutionState → String

abbrev or_null : Option String → Value
or_null none = null
or_null (some ref) = str ref

module _ {World : Type 0} (seams : Seams World) where
  -- The ExecutionCrashed fact of check 1.
  unfoldable pub crash_event : ExecutionView → Option String → String → Event
  crash_event view ref ts = record {
    type = execution_crashed;
    payload =
        field "residue_ref" (or_null ref)
          (field "last_known_state" (str (seams.state_value view.state)) end);
    issue_id = some view.issue_id;
    execution_id = some view.execution_id;
    run_id = null;
    ts = ts;
    event_id = 0;
  }

  -- The guard in front of every seam.
  unfoldable pub blocked : StateProjection → Bool
  blocked p = elim seams.workspace_key [ none ↦ false | some key ↦ is_workspace_blocked p key ]

  module _ (env : Env) (c : Codec) where
    abbrev reading_clock : Action (Runtime c World) String
    reading_clock s = (ok (seams.utcnow s.world), s)

    -- `preserve_residue(view) if preserve_residue else None`
    abbrev pub residue :
        Option (ExecutionView → Action World (Option String))
        → ExecutionView
        → Action (Runtime c World) (Option String)
    residue none view = return none
    residue (some preserve) view = in_world env c (preserve view)

    abbrev pub note_crash : ExecutionView → RecoveryReport → RecoveryReport
    note_crash view r = record r {
      orphans_crashed = r.orphans_crashed ++ view.execution_id ∷ [];
      emitted = r.emitted ++ Schema.value execution_crashed ∷ [];
    }

    -- One orphan: residue, then the fact.
    unfoldable pub crash_orphan : ExecutionView → Action (Runtime c World) (Unit {0})
    unfolding emit crash_event
    crash_orphan view = do
      ref ← residue seams.preserve_residue view
      ts ← reading_clock
      emit env c (crash_event view ref ts)
      noting env c (note_crash view)

    -- The loop of check 1 over the executions that are open when it starts.
    unfoldable pub crash_orphans : List ExecutionView → Action (Runtime c World) (Unit {0})
    unfolding crash_orphan
    crash_orphans [] = return tt
    crash_orphans (view ∷ views) = elim (seams.is_execution_alive view.execution_id) [
      | true ↦ crash_orphans views
      | false ↦ crash_orphan view >> crash_orphans views
    ]

    abbrev pub note_emitted : Event → RecoveryReport → RecoveryReport
    note_emitted ev r = record r { emitted = r.emitted ++ Schema.value ev.type ∷ [] }

    unfoldable pub emit_all : List Event → Action (Runtime c World) (Unit {0})
    unfolding emit
    emit_all [] = return tt
    emit_all (ev ∷ evs) = do emit env c ev; noting env c (note_emitted ev); emit_all evs

    abbrev pub run_check : Check World → Action (Runtime c World) (List Event × List String)
    run_check fn s = in_world env c (fn s.proj) s

    abbrev pub note_repairs : List String → RecoveryReport → RecoveryReport
    note_repairs repairs r = record r { workspace_repairs = r.workspace_repairs ++ repairs }

    abbrev pub note_run : String → RecoveryReport → RecoveryReport
    note_run name r = record r { checks_run = r.checks_run ++ name ∷ [] }

    -- One turn of the loop over checks 2 and 3.
    unfoldable pub check : String → Option (Check World) → Action (Runtime c World) (Unit {0})
    unfolding emit_all
    check name none =
        noting env c (λ r. record r { checks_skipped = r.checks_skipped ++ name ∷ [] })
    check name (some fn) = do
      noting env c (note_run name)
      found ← run_check fn
      emit_all found.0
      noting env c (note_repairs found.1)

    abbrev pub repair_workspace :
        Option (Action World (List String)) → Action (Runtime c World) (Unit {0})
    repair_workspace none = return tt
    repair_workspace (some repair) = do
      repairs ← in_world env c repair
      noting env c (note_repairs repairs)

    -- proj.open_executions(), and the loop over it.
    unfoldable pub check_orphans : Action (Runtime c World) (Unit {0})
    unfolding crash_orphans
    check_orphans = do
      noting env c (note_run "orphaned_execution")
      λ s. crash_orphans (open_executions s.proj) s

    -- What stands behind the replay.
    unfoldable pub reconcile : Action (Runtime c World) (Unit {0})
    unfolding check_orphans check
    reconcile = do
      repair_workspace seams.recover_workspace
      check_orphans
      check "unwitnessed_commit" seams.check_unwitnessed_commit
      check "dirty_workspace" seams.check_dirty_workspace

    abbrev pub with_projection :
        List Event → Result StateProjection → Result (List Event × StateProjection)
    with_projection evs (ok p) = ok (evs, p)
    with_projection evs (err e) = err e

    abbrev pub with_events : Result (List Event) → Result (List Event × StateProjection)
    with_events (ok evs) = with_projection evs (rebuild env empty evs)
    with_events (err e) = err e

    -- `if workspace_key is not None and proj.is_workspace_blocked(workspace_key): raise …`
    abbrev pub admit : Bool → Action (Runtime c World) (Unit {0})
    admit true = raise workspace_blocked
    admit false = reconcile

    -- From the replay of the log into a new projection, if it does not raise.
    abbrev pub begin :
        Runtime c World
        → Result (List Event × StateProjection)
        → Result (Unit {0}) × Runtime c World
    begin s (err e) = (err e, s)
    begin s (ok (evs, p)) =
        admit (blocked p)
          (record s { proj = p; report = record empty_report { replayed_events = length evs } })

    -- recover: its result is `proj` and `report` of the state that it leaves.
    unfoldable pub recover : Action (Runtime c World) (Unit {0})
    unfolding reconcile blocked
    recover s = begin s (with_events (replay c s.log.content))
