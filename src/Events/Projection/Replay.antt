-- ===== src/Events/Projection/Replay.antt =====
-- `_HANDLERS`, `StateProjection.apply` and `StateProjection.rebuild`.
use draindeck.Base.{ℕ, suc, String, none, some, List, [], ◌∷◌, string_comparable}
use draindeck.Base.Dict.{Dict, get, put}
use draindeck.Base.Result.{Result, ok, ◌>>=◌}
use draindeck.States.{Env}
use draindeck.Events.Schema
use draindeck.Events.Schema.{
  Event, EventType, issue_created, issue_activated, execution_spawned,
  execution_containment_prepared, execution_containment_established,
  execution_termination_unconfirmed, execution_containment_released, execution_finished,
  execution_crashed, validation_passed, validation_failed, review_approved, review_rejected,
  commit_intent, commit_created, issue_completed, issue_escalated, human_intervention,
  guideline_promoted, run_started, run_finished,
}
use draindeck.Events.Projection.View.{StateProjection}
use draindeck.Events.Projection.Issues.{issue_created_handler, issue_transition_handler}
use draindeck.Events.Projection.Executions.{
  execution_spawned_handler, execution_transition_handler, commit_intent_handler,
  commit_created_handler,
}
use draindeck.Events.Projection.Containments.{
  containment_prepared_handler, containment_established_handler, termination_unconfirmed_handler,
  containment_released_handler,
}
use draindeck.Events.Projection.Runs.{run_started_handler, run_finished_handler}

-- self.counts.get(key, 0) + 1
abbrev bump : String → Dict String ℕ → Dict String ℕ
bump key d = put key (elim (get key d) [ none ↦ 1 | some n ↦ suc n ]) d

-- The first two lines of `apply`.
unfoldable pub note_event : Event → StateProjection → StateProjection
note_event ev p = record p {
  last_event_id = ev.event_id;
  counts = bump (Schema.value ev.type) p.counts;
}

module _ (env : Env) where
  -- _HANDLERS: a type with no handler is only counted.
  unfoldable pub handle : EventType → StateProjection → Event → Result StateProjection
  handle issue_created p ev = issue_created_handler p ev
  handle issue_activated p ev = issue_transition_handler env p ev
  handle issue_completed p ev = issue_transition_handler env p ev
  handle issue_escalated p ev = issue_transition_handler env p ev
  handle execution_spawned p ev = execution_spawned_handler env p ev
  handle execution_containment_prepared p ev = containment_prepared_handler p ev
  handle execution_containment_established p ev = containment_established_handler p ev
  handle execution_termination_unconfirmed p ev = termination_unconfirmed_handler p ev
  handle execution_containment_released p ev = containment_released_handler p ev
  handle execution_finished p ev = execution_transition_handler env p ev
  handle execution_crashed p ev = execution_transition_handler env p ev
  handle validation_passed p ev = execution_transition_handler env p ev
  handle validation_failed p ev = execution_transition_handler env p ev
  handle review_approved p ev = execution_transition_handler env p ev
  handle review_rejected p ev = execution_transition_handler env p ev
  handle commit_intent p ev = commit_intent_handler env p ev
  handle commit_created p ev = commit_created_handler env p ev
  handle run_started p ev = run_started_handler env p ev
  handle run_finished p ev = run_finished_handler env p ev
  handle human_intervention p ev = ok p
  handle guideline_promoted p ev = ok p

  -- StateProjection.apply. An exception ends the replay, so that no projection is kept on `err`.
  unfoldable pub apply : StateProjection → Event → Result StateProjection
  unfolding handle note_event
  apply p ev = handle ev.type (note_event ev p) ev

  -- StateProjection.rebuild
  unfoldable pub rebuild : StateProjection → List Event → Result StateProjection
  unfolding apply
  rebuild p [] = ok p
  rebuild p (ev ∷ evs) = do p' ← apply p ev; rebuild p' evs
