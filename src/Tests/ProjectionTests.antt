-- ===== src/Tests/ProjectionTests.antt =====
-- The replay of a short log, and the theorems about projections at it.
use draindeck.Base.{
  String, true, false, Option, none, some, List, [], ◌∷◌, ◌≡◌, refl, string_comparable, ◌⊎◌,
}
use draindeck.Base.Dict.{get, put}
use draindeck.Base.Lists.{last?}
use draindeck.Base.Json
use draindeck.Base.Result.{Result, ok, err}
use draindeck.States.{accepted, done}
use draindeck.Events.Schema
use draindeck.Events.Projection.View.{
  StateProjection, ExecutionView, executions_of, latest_execution, empty,
}
use draindeck.Events.Projection.Checks.{list_or_nil}
use draindeck.Events.Projection.Executions.{
  new_view, execution_spawned_handler, execution_transition_handler, commit_intent_handler,
  commit_created_handler,
}
use draindeck.Events.Projection.Issues.{issue_created_handler, issue_transition_handler}
use draindeck.Base.Json.{end, field, str}
use draindeck.Events.Schema.{
  Event, issue_created, issue_activated, execution_spawned, execution_finished,
}
use draindeck.Events.Projection.Replay.{apply, rebuild}
use draindeck.Events.Projection.Consistency.{CommitOrdered, rebuild-CommitOrdered}
use draindeck.Events.Projection.OneRunning.{rebuild-latest_execution, rebuild-one_running}
use draindeck.Samples.{
  sample_env, sample-CommitLaws, sample-TerminalLaws, one_issue, event, sample_issues,
  sample_executions,
}

abbrev finish : Event
finish = event execution_finished (some "A-e1") 4 (field "end_commit" (str "c1") end)

abbrev before_finish : List Event
before_finish =
    event issue_created none 1 end
    ∷ event issue_activated none 2 end
    ∷ event execution_spawned (some "A-e1") 3 end
    ∷ []

abbrev replayed : Result StateProjection → StateProjection
replayed (ok p) = p
replayed (err e) = empty

abbrev final : StateProjection
final = replayed (rebuild sample_env empty one_issue)

abbrev the_view : Option ExecutionView → ExecutionView
the_view (some v) = v
the_view none = new_view "" "" none []

abbrev first_view : ExecutionView
first_view = the_view (get "A-e1" final.executions)

program : Unit {0}
unfolding rebuild sample_issues sample_executions latest_execution get put Json.get_null
    Schema.value Json.truthy Json.to_list issue_created_handler list_or_nil issue_transition_handler
    execution_spawned_handler execution_transition_handler commit_intent_handler
    commit_created_handler
program = tt

replays : rebuild sample_env empty one_issue ≡ ok final
unfolding program
replays = refl

finds_view : get "A-e1" final.executions ≡ some first_view
unfolding program
finds_view = refl

view_is_merged :
    (first_view.state ≡ accepted)
    × (first_view.commit_created ≡ true)
    × (get "A" final.issues ≡ some done)
unfolding program
view_is_merged = (refl, refl, refl)

rebuild-CommitOrdered_example : CommitOrdered first_view
rebuild-CommitOrdered_example =
    rebuild-CommitOrdered sample_env sample-CommitLaws one_issue final replays "A-e1" first_view
      finds_view

rebuild-latest_execution_example :
    (latest_execution final "A" ≡ ok none) × (executions_of final "A" ≡ [])
    ⊎ ((v : ExecutionView) × (latest_execution final "A" ≡ ok (some v))
        × (v.issue_id ≡ "A")
        × (last? (executions_of final "A") ≡ some v.execution_id))
rebuild-latest_execution_example = rebuild-latest_execution sample_env one_issue final replays "A"

still_running : (sample_env.execution_terminal first_view.state ≡ false)
unfolding program
still_running = refl

rebuild-one_running_example : ◌≡◌ {A = String} "A-e1" "A-e1"
rebuild-one_running_example =
    rebuild-one_running sample_env sample-TerminalLaws one_issue final replays "A-e1" "A-e1"
      first_view first_view finds_view finds_view refl still_running still_running

-- The execution at its spawn, and behind ExecutionFinished.
abbrev running : StateProjection
running = replayed (rebuild sample_env empty before_finish)

abbrev finished : StateProjection
finished = replayed (apply sample_env running finish)
