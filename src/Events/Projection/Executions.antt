-- ===== src/Events/Projection/Executions.antt =====
-- The handlers of projections.py for executions and for the commit sequence.
use draindeck.Base.{
  String, Bool, true, false, Option, none, some, List, [], ◌∷◌, ◌++◌, string_comparable, ◌==◌,
  if◌then◌else◌, not,
}
use draindeck.Base.Dict.{get, put}
use draindeck.Base.Json
use draindeck.Base.Json.{Value, Fields, str, null, truthy}
use draindeck.Base.Result.{Result, ok, transition_error, ◌>>=◌, ◌>>◌, require, of_option}
use draindeck.States.{Env, executing, is_active}
use draindeck.Events.Schema.{
  Event, EventType, execution_finished, execution_crashed, validation_passed, validation_failed,
  review_approved, review_rejected,
}
use draindeck.Events.Projection.View.{
  StateProjection, ExecutionView, executions_of, latest_execution,
}
use draindeck.Events.Projection.Issues.{is_some}
use draindeck.Events.Projection.Checks.{need, list_or_nil}

-- The view that `ExecutionView(xid, iid, EXECUTING, …)` makes.
unfoldable pub new_view : String → String → Option Value → List Value → ExecutionView
new_view xid iid base untracked = record {
  execution_id = xid;
  issue_id = iid;
  state = executing;
  commit_intended = false;
  commit_created = false;
  base_commit = base;
  start_commit = null;
  end_commit = null;
  intent_end_commit = null;
  intent_target_branch = null;
  validated_commit = null;
  reviewed_commit = null;
  taxonomy_category = null;
  feedback = [];
  pre_execution_untracked = untracked;
}

-- `x == "…"`
abbrev pub is_text : String → Value → Bool
is_text t (str s) = s == t
is_text t _ = false

abbrev or_text : Value → String → Value
or_text v t = if truthy v then v else str t

-- The fields that each event type writes, behind `view.state = fn(ev.payload)`.
unfoldable pub note_payload : EventType → Fields → ExecutionView → Result ExecutionView
note_payload execution_finished payload view = ok (record view {
  start_commit = Json.get_null "start_commit" payload;
  end_commit = Json.get_null "end_commit" payload;
  taxonomy_category =
      if is_text "REJECTED" (Json.get_null "outcome" payload)
      then Json.get_null "taxonomy_category" payload
      else view.taxonomy_category;
})
note_payload execution_crashed payload view = ok (record view {
  taxonomy_category = or_text (Json.get_null "last_known_state" payload) "crashed";
})
note_payload validation_passed payload view =
    ok (record view { validated_commit = Json.get_null "validated_commit" payload })
note_payload validation_failed payload view =
    ok (record view { taxonomy_category = Json.get_null "taxonomy_category" payload })
note_payload review_approved payload view =
    ok (record view { reviewed_commit = Json.get_null "reviewed_commit" payload })
note_payload review_rejected payload view = do
  feedback ← list_or_nil (Json.get_null "feedback" payload)
  ok (record view {
    taxonomy_category = Json.get_null "taxonomy_category" payload;
    feedback = feedback;
  })
note_payload _ payload view = ok view

abbrev pub issue_is_active : StateProjection → String → Bool
issue_is_active p iid = elim (get iid p.issues) [ none ↦ false | some st ↦ is_active st ]

-- The two writes at the end of _execution_spawned: the view, and its place in the issue's list.
unfoldable pub add_execution : StateProjection → String → String → List Value → StateProjection
unfolding new_view
add_execution p xid iid untracked = record p {
  executions = put xid (new_view xid iid (get iid p.issue_base_commit) untracked) p.executions;
  issue_executions = put iid (executions_of p iid ++ xid ∷ []) p.issue_executions;
}

-- A view is one object, which the dict holds: a change to it is a write under its key.
unfoldable pub write_view : StateProjection → String → ExecutionView → StateProjection
write_view p xid view = record p { executions = put xid view p.executions }

abbrev pub intend : Fields → ExecutionView → ExecutionView
intend payload view = record view {
  commit_intended = true;
  intent_end_commit = Json.get_null "end_commit" payload;
  intent_target_branch = Json.get_null "target_branch" payload;
}

abbrev pub commit_intent_of :
    StateProjection → Fields → String × ExecutionView → Result StateProjection
commit_intent_of p payload (xid, view) = do
  require (not view.commit_intended) transition_error
  ok (write_view p xid (intend payload view))

abbrev pub commit_created_of : StateProjection → String × ExecutionView → Result StateProjection
commit_created_of p (xid, view) = do
  require view.commit_intended transition_error
  require (not view.commit_created) transition_error
  ok (write_view p xid (record view { commit_created = true }))

module _ (env : Env) where
  -- The previous execution, if any, has ended.
  abbrev pub previous_ended : Option ExecutionView → Bool
  previous_ended none = true
  previous_ended (some prev) = env.execution_terminal prev.state

  -- _execution_spawned
  unfoldable pub execution_spawned_handler : StateProjection → Event → Result StateProjection
  unfolding need latest_execution add_execution
  execution_spawned_handler p ev = do
    xid ← need ev.execution_id
    iid ← need ev.issue_id
    require (not (is_some (get xid p.executions))) transition_error
    require (issue_is_active p iid) transition_error
    prev ← latest_execution p iid
    require (previous_ended prev) transition_error
    untracked ← list_or_nil (Json.get_null "pre_execution_untracked" ev.payload)
    ok (add_execution p xid iid untracked)

  -- _execution_transition
  unfoldable pub execution_transition_handler : StateProjection → Event → Result StateProjection
  unfolding need write_view note_payload
  execution_transition_handler p ev = do
    xid ← need ev.execution_id
    view ← of_option transition_error (get xid p.executions)
    fn ← of_option transition_error (env.execution_transitions view.state ev.type)
    next ← fn ev.payload
    view' ← note_payload ev.type ev.payload (record view { state = next })
    ok (write_view p xid view')

  -- _accepted_view
  unfoldable pub accepted_view : StateProjection → Event → Result (String × ExecutionView)
  unfolding need
  accepted_view p ev = do
    xid ← need ev.execution_id
    view ← of_option transition_error (get xid p.executions)
    require (env.is_commit_sequence_state view.state) transition_error
    ok (xid, view)

  -- _commit_intent
  unfoldable pub commit_intent_handler : StateProjection → Event → Result StateProjection
  unfolding accepted_view write_view
  commit_intent_handler p ev = do found ← accepted_view p ev; commit_intent_of p ev.payload found

  -- _commit_created
  unfoldable pub commit_created_handler : StateProjection → Event → Result StateProjection
  unfolding accepted_view write_view
  commit_created_handler p ev = do found ← accepted_view p ev; commit_created_of p found
