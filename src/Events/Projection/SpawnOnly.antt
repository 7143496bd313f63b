-- ===== src/Events/Projection/SpawnOnly.antt =====
-- Only ExecutionSpawned makes a list of executions longer.
use draindeck.Base.{
  suc, String, Bool, true, false, not, some, List, [], ◌∷◌, ◌++◌, ◌≡◌, refl, sym, ap, ◌∙◌, subst,
  arith, string_comparable, ◌==◌, ==_iff, if◌then◌else◌, Bool-cases, inl, inr,
}
use draindeck.Base.Dict.{get, put, get-put}
use draindeck.Base.Lists.{length, length-append}
use draindeck.Base.Json
use draindeck.Base.Result.{ok, transition_error, ok-injective, bind_elim, option_elim, require_elim}
use draindeck.States.{Env}
use draindeck.Events.Schema.{
  Event, EventType, issue_created, issue_activated, execution_spawned,
  execution_containment_prepared, execution_containment_established,
  execution_termination_unconfirmed, execution_containment_released, execution_finished,
  execution_crashed, validation_passed, validation_failed, review_approved, review_rejected,
  commit_intent, commit_created, issue_completed, issue_escalated, human_intervention,
  guideline_promoted, run_started, run_finished,
}
use draindeck.Events.Projection.View.{
  StateProjection, attempts, executions_of, latest_execution, or_nil,
}
use draindeck.Events.Projection.Checks.{need, need-some, list_or_nil}
use draindeck.Events.Projection.Issues.{is_some}
use draindeck.Events.Projection.Executions.{
  execution_spawned_handler, execution_transition_handler, commit_intent_handler,
  commit_created_handler, commit_intent_of, commit_created_of, add_execution, write_view,
  note_payload, issue_is_active, previous_ended,
}
use draindeck.Events.Projection.Steps.{accepted_elim}
use draindeck.Events.Projection.Refinement.{
  issue_created-keeps, issue_transition-keeps, prepared-keeps, established-keeps, unconfirmed-keeps,
  released-keeps, run_started-keeps, run_finished-keeps,
}
use draindeck.Events.Projection.Replay.{apply, handle, note_event}

abbrev pub is_spawned : EventType → Bool
is_spawned execution_spawned = true
is_spawned _ = false

abbrev lists_of : StateProjection → List (String × List String)
lists_of p = p.issue_executions

module _ (env : Env) (p : StateProjection) (ev : Event) {q : StateProjection} where
  transition-lists :
      execution_transition_handler env p ev ≡ ok q → q.issue_executions ≡ p.issue_executions
  unfolding execution_transition_handler write_view
  transition-lists h = bind_elim (need ev.execution_id) h λ xid _ h1.
      option_elim transition_error (get xid p.executions) h1 λ v _ h2.
        option_elim transition_error (env.execution_transitions v.state ev.type) h2 λ fn _ h3.
          bind_elim (fn ev.payload) h3 λ next _ h4.
            bind_elim (note_payload ev.type ev.payload (record v { state = next })) h4
              λ w _ e. ap lists_of (sym (ok-injective e))

  intent-lists : commit_intent_handler env p ev ≡ ok q → q.issue_executions ≡ p.issue_executions
  unfolding commit_intent_handler write_view
  intent-lists h = accepted_elim env p ev (commit_intent_of p ev.payload) h λ xid v _ _ _ h1.
      require_elim (not v.commit_intended) transition_error h1
        λ _ e. ap lists_of (sym (ok-injective e))

  created-lists : commit_created_handler env p ev ≡ ok q → q.issue_executions ≡ p.issue_executions
  unfolding commit_created_handler write_view
  created-lists h = accepted_elim env p ev (commit_created_of p) h λ xid v _ _ _ h1.
      require_elim v.commit_intended transition_error h1 λ _ h2.
        require_elim (not v.commit_created) transition_error h2
          λ _ e. ap lists_of (sym (ok-injective e))

module _ (env : Env) where
  handle-lists :
      (t : EventType) (p : StateProjection) (ev : Event) {q : StateProjection}
      → is_spawned t ≡ false
      → handle env t p ev ≡ ok q
      → q.issue_executions ≡ p.issue_executions
  unfolding handle
  handle-lists issue_created p ev s h = (issue_created-keeps p ev h).1
  handle-lists issue_activated p ev s h = (issue_transition-keeps p ev env h).1
  handle-lists issue_completed p ev s h = (issue_transition-keeps p ev env h).1
  handle-lists issue_escalated p ev s h = (issue_transition-keeps p ev env h).1
  handle-lists execution_spawned p ev s h = absurd (cc)
  handle-lists execution_containment_prepared p ev s h = (prepared-keeps p ev h).1
  handle-lists execution_containment_established p ev s h = (established-keeps p ev h).1
  handle-lists execution_termination_unconfirmed p ev s h = (unconfirmed-keeps p ev h).1
  handle-lists execution_containment_released p ev s h = (released-keeps p ev h).1
  handle-lists execution_finished p ev s h = transition-lists env p ev h
  handle-lists execution_crashed p ev s h = transition-lists env p ev h
  handle-lists validation_passed p ev s h = transition-lists env p ev h
  handle-lists validation_failed p ev s h = transition-lists env p ev h
  handle-lists review_approved p ev s h = transition-lists env p ev h
  handle-lists review_rejected p ev s h = transition-lists env p ev h
  handle-lists commit_intent p ev s h = intent-lists env p ev h
  handle-lists commit_created p ev s h = created-lists env p ev h
  handle-lists run_started p ev s h = (run_started-keeps p ev env h).1
  handle-lists run_finished p ev s h = (run_finished-keeps p ev env h).1
  handle-lists human_intervention p ev s h = ap lists_of (sym (ok-injective h))
  handle-lists guideline_promoted p ev s h = ap lists_of (sym (ok-injective h))

  -- An event that spawns nothing leaves the number of attempts.
  pub apply-attempts_kept :
      (p : StateProjection) (ev : Event) {q : StateProjection}
      → is_spawned ev.type ≡ false
      → apply env p ev ≡ ok q
      → (iid : String) → attempts q iid ≡ attempts p iid
  unfolding apply note_event attempts
  apply-attempts_kept p ev s h iid =
      ap (λ d. length (or_nil (get iid d))) (handle-lists ev.type (note_event ev p) ev s h)

  longer :
      (p q : StateProjection) (issue xid iid : String)
      → q.issue_executions ≡ put issue (executions_of p issue ++ xid ∷ []) p.issue_executions
      → attempts q iid ≡ (if issue == iid then suc (attempts p iid) else attempts p iid)
  unfolding attempts
  longer p q issue xid iid e = elim (Bool-cases (issue == iid)) [
    | inl s ↦
        rw (e, get-put, s)
          (length-append (executions_of p issue) (xid ∷ [])
            ∙ (rw ((==_iff issue iid).0 s) (omega arith)))
    | inr s ↦ rw (e, get-put, s) refl
  ]

  -- A spawn is one more attempt of its issue, and of no other.
  pub apply-attempts_spawned :
      (p q : StateProjection) (ev : Event) (issue : String)
      → ev.type ≡ execution_spawned
      → ev.issue_id ≡ some issue
      → apply env p ev ≡ ok q
      → (iid : String)
      → attempts q iid ≡ (if issue == iid then suc (attempts p iid) else attempts p iid)
  unfolding apply handle note_event execution_spawned_handler add_execution latest_execution
  apply-attempts_spawned p q ev issue t i h iid =
      bind_elim (need ev.execution_id) (subst (λ k. handle env k (note_event ev p) ev ≡ ok q) t h)
        λ xid _ h1. bind_elim (need ev.issue_id) h1 λ owner named h2.
          require_elim (not (is_some (get xid p.executions))) transition_error h2 λ _ h3.
            require_elim (issue_is_active p owner) transition_error h3 λ _ h4.
              bind_elim (latest_execution p owner) h4 λ prev _ h5.
                require_elim (previous_ended env prev) transition_error h5 λ _ h6.
                  bind_elim (list_or_nil (Json.get_null "pre_execution_untracked" ev.payload)) h6
                    λ untracked _ e.
                      let same : issue ≡ owner =
                        need-some issue owner (subst (λ o. need o ≡ ok owner) i named) in
                      longer p q issue xid iid (
                        subst
                          (λ o.
                            q.issue_executions
                            ≡ put o (executions_of p o ++ xid ∷ []) p.issue_executions)
                          (sym same) (ap lists_of (sym (ok-injective e))))
