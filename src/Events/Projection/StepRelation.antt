-- ===== src/Events/Projection/StepRelation.antt =====
-- What an event may do to the executions of a projection, as a relation.
use draindeck.Base.{
  String, Bool, true, false, Option, none, some, List, [], ◌∷◌, ◌++◌, ◌≡◌, string_comparable,
}
use draindeck.Base.Dict.{get, put}
use draindeck.Base.Json.{Value, Fields}
use draindeck.Base.Json
use draindeck.Base.Result.{Result, ok}
use draindeck.States.{Env, ExecutionState, active}
use draindeck.Events.Schema.{
  Event, EventType, execution_spawned, execution_finished, execution_crashed, validation_passed,
  validation_failed, review_approved, review_rejected, commit_intent, commit_created,
}
use draindeck.Events.Projection.Checks.{list_or_nil}
use draindeck.Events.Projection.View.{
  StateProjection, ExecutionView, executions_of, latest_execution,
}
use draindeck.Events.Projection.Executions.{new_view, previous_ended}

-- What no later event changes in a view.
pub record SameIdentity (v w : ExecutionView) : Type 0 where
  pub execution_id : w.execution_id ≡ v.execution_id
  pub issue_id : w.issue_id ≡ v.issue_id
  pub base_commit : w.base_commit ≡ v.base_commit
  pub untracked : w.pre_execution_untracked ≡ v.pre_execution_untracked

-- Which events write executions: a spawn, a row of the transition table, a commit step.
abbrev pub is_transition : EventType → Bool
is_transition execution_finished = true
is_transition execution_crashed = true
is_transition validation_passed = true
is_transition validation_failed = true
is_transition review_approved = true
is_transition review_rejected = true
is_transition _ = false

abbrev pub is_execution_write : EventType → Bool
is_execution_write execution_spawned = true
is_execution_write commit_intent = true
is_execution_write commit_created = true
is_execution_write t = is_transition t

-- Which commits a transition records: the end with ExecutionFinished, the validated one with
-- ValidationPassed, the reviewed one with ReviewApproved, each from the payload, and none else.
abbrev pub Recorded : EventType → Fields → ExecutionView → ExecutionView → Type 0
Recorded execution_finished payload v w =
    (w.end_commit ≡ Json.get_null "end_commit" payload)
    × (w.validated_commit ≡ v.validated_commit)
    × (w.reviewed_commit ≡ v.reviewed_commit)
Recorded validation_passed payload v w =
    (w.end_commit ≡ v.end_commit)
    × (w.validated_commit ≡ Json.get_null "validated_commit" payload)
    × (w.reviewed_commit ≡ v.reviewed_commit)
Recorded review_approved payload v w =
    (w.end_commit ≡ v.end_commit)
    × (w.validated_commit ≡ v.validated_commit)
    × (w.reviewed_commit ≡ Json.get_null "reviewed_commit" payload)
Recorded _ payload v w =
    (w.end_commit ≡ v.end_commit)
    × (w.validated_commit ≡ v.validated_commit)
    × (w.reviewed_commit ≡ v.reviewed_commit)

-- What the next attempt is told: ReviewRejected records its feedback, and no other event does.
-- ReviewRejected and ValidationFailed record their category; an event of a passed gate leaves it.
abbrev pub Advised : EventType → Fields → ExecutionView → ExecutionView → Type 0
Advised review_rejected payload v w =
    (list_or_nil (Json.get_null "feedback" payload) ≡ ok w.feedback)
    × (w.taxonomy_category ≡ Json.get_null "taxonomy_category" payload)
Advised validation_failed payload v w =
    (w.feedback ≡ v.feedback) × (w.taxonomy_category ≡ Json.get_null "taxonomy_category" payload)
Advised validation_passed payload v w =
    (w.feedback ≡ v.feedback) × (w.taxonomy_category ≡ v.taxonomy_category)
Advised review_approved payload v w =
    (w.feedback ≡ v.feedback) × (w.taxonomy_category ≡ v.taxonomy_category)
Advised _ payload v w = w.feedback ≡ v.feedback

-- How an event changes a view: by its row of the transition table, whose function gives the new
-- state, or by a step of the commit sequence.
pub data Moved (env : Env) (ev : Event) (v w : ExecutionView) : Type 0 where
  table_row :
      (fn : Fields → Result ExecutionState)
      → is_transition ev.type ≡ true
      → env.execution_transitions v.state ev.type ≡ some fn
      → fn ev.payload ≡ ok w.state
      → w.commit_intended ≡ v.commit_intended
      → w.commit_created ≡ v.commit_created
      → Recorded ev.type ev.payload v w
      → Advised ev.type ev.payload v w
      → Moved env ev v w
  intended_row :
      ev.type ≡ commit_intent
      → env.is_commit_sequence_state v.state ≡ true
      → v.commit_intended ≡ false
      → w ≡ record v {
        commit_intended = true;
        intent_end_commit = Json.get_null "end_commit" ev.payload;
        intent_target_branch = Json.get_null "target_branch" ev.payload;
      }
      → Moved env ev v w
  created_row :
      ev.type ≡ commit_created
      → env.is_commit_sequence_state v.state ≡ true
      → v.commit_intended ≡ true
      → v.commit_created ≡ false
      → w ≡ record v { commit_created = true }
      → Moved env ev v w

-- The step of an event: nothing, where its type writes no execution; a new execution of an active
-- issue whose last one has ended; or a change of the one execution that the event names.
pub data ExecutionStep (env : Env) (ev : Event) (p q : StateProjection) : Type 0 where
  same :
      is_execution_write ev.type ≡ false
      → q.executions ≡ p.executions
      → q.issue_executions ≡ p.issue_executions
      → ExecutionStep env ev p q
  spawn :
      (xid iid : String) (untracked : List Value) (prev : Option ExecutionView)
      → ev.type ≡ execution_spawned
      → ev.execution_id ≡ some xid
      → ev.issue_id ≡ some iid
      → get iid p.issues ≡ some active
      → get xid p.executions ≡ none
      → latest_execution p iid ≡ ok prev
      → previous_ended env prev ≡ true
      → list_or_nil (Json.get_null "pre_execution_untracked" ev.payload) ≡ ok untracked
      → q.executions
        ≡ put xid (new_view xid iid (get iid p.issue_base_commit) untracked) p.executions
      → q.issue_executions ≡ put iid (executions_of p iid ++ xid ∷ []) p.issue_executions
      → ExecutionStep env ev p q
  move :
      (xid : String) (v w : ExecutionView)
      → ev.execution_id ≡ some xid
      → get xid p.executions ≡ some v
      → SameIdentity v w
      → Moved env ev v w
      → q.executions ≡ put xid w p.executions
      → q.issue_executions ≡ p.issue_executions
      → ExecutionStep env ev p q
