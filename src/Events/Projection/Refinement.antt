-- ===== src/Events/Projection/Refinement.antt =====
-- Every event that `apply` accepts is an abstract step on the executions.
use draindeck.Base.{false, not, ◌≡◌, refl, ap, subst, string_comparable, pair_comparable}
use draindeck.Base.Dict.{get}
use draindeck.Base.Json
use draindeck.Base.Result.{ok, transition_error, bind_elim, option_elim, require_elim, ok-injective}
use draindeck.States.{Env}
use draindeck.Events.Schema.{
  Event, EventType, issue_created, issue_activated, execution_spawned,
  execution_containment_prepared, execution_containment_established,
  execution_termination_unconfirmed, execution_containment_released, execution_finished,
  execution_crashed, validation_passed, validation_failed, review_approved, review_rejected,
  commit_intent, commit_created, issue_completed, issue_escalated, human_intervention,
  guideline_promoted, run_started, run_finished,
}
use draindeck.Events.Projection.View.{StateProjection, latest_execution}
use draindeck.Events.Projection.Checks.{need, list_or_nil, run_envelope}
use draindeck.Events.Projection.Issues.{is_some, issue_created_handler, issue_transition_handler}
use draindeck.Events.Projection.Containments.{
  containment_prepared_handler, containment_established_handler, termination_unconfirmed_handler,
  containment_released_handler, containment_execution, containment_key, matching_containment,
  dict_key, has_unreleased, check_prepared, check_established, check_unconfirmed, check_released,
  is_prepared, is_established,
}
use draindeck.Events.Projection.View.{is_released}
use draindeck.Events.Projection.Runs.{
  run_started_handler, run_finished_handler, check_run_started, check_run_finished,
}
use draindeck.Events.Projection.Replay.{apply, handle, note_event}
use draindeck.Events.Projection.StepRelation.{
  ExecutionStep, same, spawn, move, is_transition, is_execution_write,
}
use draindeck.Events.Projection.Steps.{
  execution_spawned-step, execution_transition-step, commit_intent-step, commit_created-step,
}

abbrev pub KeepsExecutions : StateProjection → StateProjection → Type 0
KeepsExecutions p q = (q.executions ≡ p.executions) × (q.issue_executions ≡ p.issue_executions)

pub keeps :
    (p : StateProjection) {q r : StateProjection}
    → KeepsExecutions p r
    → ok r ≡ ok q
    → KeepsExecutions p q
keeps p h e = subst (KeepsExecutions p) (ok-injective e) h

module _ (p : StateProjection) (ev : Event) {q : StateProjection} where
  pub issue_created-keeps : issue_created_handler p ev ≡ ok q → KeepsExecutions p q
  unfolding issue_created_handler
  issue_created-keeps h = bind_elim (need ev.issue_id) h λ iid _ h1.
      require_elim (not (is_some (get iid p.issues))) transition_error h1 λ _ h2.
        bind_elim (list_or_nil (Json.get_null "depends_on" ev.payload)) h2
          λ deps _ e. keeps p (refl, refl) e

  pub issue_transition-keeps :
      (env : Env) → issue_transition_handler env p ev ≡ ok q → KeepsExecutions p q
  unfolding issue_transition_handler
  issue_transition-keeps env h = bind_elim (need ev.issue_id) h λ iid _ h1.
      option_elim transition_error (get iid p.issues) h1 λ cur _ h2.
        option_elim transition_error (env.issue_transitions cur ev.type) h2
          λ fn _ h3. bind_elim (fn ev.payload) h3 λ next _ e. keeps p (refl, refl) e

  pub prepared-keeps : containment_prepared_handler p ev ≡ ok q → KeepsExecutions p q
  unfolding containment_prepared_handler
  prepared-keeps h = bind_elim (containment_execution p ev) h λ _ _ h1.
      bind_elim (containment_key ev) h1 λ k _ h2.
        require_elim (not (is_some (get (dict_key k) p.containments))) transition_error h2 λ _ h3.
          require_elim (not (has_unreleased k.execution_id p.containments)) transition_error h3
            λ _ h4. bind_elim (check_prepared ev.payload) h4 λ _ _ e. keeps p (refl, refl) e

  pub established-keeps : containment_established_handler p ev ≡ ok q → KeepsExecutions p q
  unfolding containment_established_handler
  established-keeps h = bind_elim (matching_containment p ev) h λ found _ h1.
      require_elim (is_prepared found.1.state) transition_error h1
        λ _ h2. bind_elim (check_established ev.payload) h2 λ _ _ e. keeps p (refl, refl) e

  pub unconfirmed-keeps : termination_unconfirmed_handler p ev ≡ ok q → KeepsExecutions p q
  unfolding termination_unconfirmed_handler
  unconfirmed-keeps h = bind_elim (matching_containment p ev) h λ found _ h1.
      require_elim (is_established found.1.state) transition_error h1
        λ _ h2. bind_elim (check_unconfirmed ev.payload) h2 λ _ _ e. keeps p (refl, refl) e

  pub released-keeps : containment_released_handler p ev ≡ ok q → KeepsExecutions p q
  unfolding containment_released_handler
  released-keeps h = bind_elim (matching_containment p ev) h λ found _ h1.
      require_elim (not (is_released found.1.state)) transition_error h1
        λ _ h2. bind_elim (check_released ev.payload) h2 λ _ _ e. keeps p (refl, refl) e

  pub run_started-keeps : (env : Env) → run_started_handler env p ev ≡ ok q → KeepsExecutions p q
  unfolding run_started_handler
  run_started-keeps env h =
      bind_elim (run_envelope env ev) h
        λ _ _ h1. bind_elim (check_run_started ev.payload) h1 λ _ _ e. keeps p (refl, refl) e

  pub run_finished-keeps : (env : Env) → run_finished_handler env p ev ≡ ok q → KeepsExecutions p q
  unfolding run_finished_handler
  run_finished-keeps env h =
      bind_elim (run_envelope env ev) h
        λ _ _ h1. bind_elim (check_run_finished ev.payload) h1 λ _ _ e. keeps p (refl, refl) e

module _ (env : Env) where
  abbrev quiet :
      {ev : Event} {p q : StateProjection}
      → is_execution_write ev.type ≡ false
      → KeepsExecutions p q
      → ExecutionStep env ev p q
  quiet t h = same t h.0 h.1

  handle-step :
      (t : EventType) (p : StateProjection) (ev : Event) {q : StateProjection}
      → ev.type ≡ t
      → handle env t p ev ≡ ok q
      → ExecutionStep env ev p q
  unfolding handle
  handle-step issue_created p ev t h = quiet (ap is_execution_write t) (issue_created-keeps p ev h)
  handle-step issue_activated p ev t h =
      quiet (ap is_execution_write t) (issue_transition-keeps p ev env h)
  handle-step issue_completed p ev t h =
      quiet (ap is_execution_write t) (issue_transition-keeps p ev env h)
  handle-step issue_escalated p ev t h =
      quiet (ap is_execution_write t) (issue_transition-keeps p ev env h)
  handle-step execution_spawned p ev t h = execution_spawned-step env p ev t h
  handle-step execution_containment_prepared p ev t h =
      quiet (ap is_execution_write t) (prepared-keeps p ev h)
  handle-step execution_containment_established p ev t h =
      quiet (ap is_execution_write t) (established-keeps p ev h)
  handle-step execution_termination_unconfirmed p ev t h =
      quiet (ap is_execution_write t) (unconfirmed-keeps p ev h)
  handle-step execution_containment_released p ev t h =
      quiet (ap is_execution_write t) (released-keeps p ev h)
  handle-step execution_finished p ev t h =
      execution_transition-step env p ev (ap is_transition t) h
  handle-step execution_crashed p ev t h = execution_transition-step env p ev (ap is_transition t) h
  handle-step validation_passed p ev t h = execution_transition-step env p ev (ap is_transition t) h
  handle-step validation_failed p ev t h = execution_transition-step env p ev (ap is_transition t) h
  handle-step review_approved p ev t h = execution_transition-step env p ev (ap is_transition t) h
  handle-step review_rejected p ev t h = execution_transition-step env p ev (ap is_transition t) h
  handle-step commit_intent p ev t h = commit_intent-step env p ev t h
  handle-step commit_created p ev t h = commit_created-step env p ev t h
  handle-step run_started p ev t h = quiet (ap is_execution_write t) (run_started-keeps p ev env h)
  handle-step run_finished p ev t h =
      quiet (ap is_execution_write t) (run_finished-keeps p ev env h)
  handle-step human_intervention p ev t h = quiet (ap is_execution_write t) (keeps p (refl, refl) h)
  handle-step guideline_promoted p ev t h = quiet (ap is_execution_write t) (keeps p (refl, refl) h)

  -- `note_event` touches neither executions nor issues.
  noted-step :
      (p : StateProjection) (ev : Event) {q : StateProjection}
      → ExecutionStep env ev (note_event ev p) q
      → ExecutionStep env ev p q
  unfolding note_event latest_execution
  noted-step p ev (same t a b) = same t a b
  noted-step p ev (spawn xid iid u prev t x i l a b c d e f) =
      spawn xid iid u prev t x i l a b c d e f
  noted-step p ev (move xid v w x a b c d e) = move xid v w x a b c d e

  pub apply-step :
      (p : StateProjection) (ev : Event) {q : StateProjection}
      → apply env p ev ≡ ok q
      → ExecutionStep env ev p q
  unfolding apply
  apply-step p ev h = noted-step p ev (handle-step ev.type (note_event ev p) ev refl h)
