-- ===== src/Events/Projection/Steps.antt =====
-- Every handler of executions refines the step relation.
use draindeck.Base.{
  String, Bool, true, false, not, Option, none, some, List, ◌≡◌, refl, sym, ap, ◌∙◌,
  string_comparable, arith,
}
use draindeck.Base.Dict.{Dict, get}
use draindeck.Base.Json.{Value, Fields}
use draindeck.Base.Json
use draindeck.Base.Result.{
  Result, ok, transition_error, ◌>>=◌, ok-injective, bind_elim, option_elim, require_elim,
}
use draindeck.States.{Env, ExecutionState, IssueState, active, is_active}
use draindeck.Events.Schema.{
  Event, EventType, execution_spawned, execution_finished, execution_crashed, validation_passed,
  validation_failed, review_approved, review_rejected, commit_intent, commit_created,
}
use draindeck.Events.Projection.View.{StateProjection, ExecutionView, latest_execution}
use draindeck.Events.Projection.Checks.{need, need-some, list_or_nil}
use draindeck.Events.Projection.Issues.{is_some}
use draindeck.Events.Projection.Executions.{
  note_payload, add_execution, write_view, previous_ended, execution_spawned_handler,
  execution_transition_handler, accepted_view, commit_intent_handler, commit_created_handler,
  intend, commit_intent_of, commit_created_of, issue_is_active,
}
use draindeck.Events.Projection.StepRelation.{
  is_transition, Recorded, Advised, table_row, intended_row, created_row, ExecutionStep, spawn,
  move,
}

not-is_some {ℓ} : {A : Type ℓ} (o : Option A) → not (is_some o) ≡ true → o ≡ none
not-is_some none h = refl
not-is_some (some a) h = cc

not-true : (b : Bool) → not b ≡ true → b ≡ false
not-true true h = cc
not-true false h = refl

is_active-active :
    (o : Option IssueState)
    → elim o [ none ↦ false | some st ↦ is_active st ] ≡ true
    → o ≡ some active
is_active-active (some active) e = refl
is_active-active (some _) e = absurd (cc)
is_active-active none e = absurd (cc)

-- The state of the view before has no part in what is recorded.
Recorded-state :
    (t : EventType) (payload : Fields) (v w : ExecutionView) (s : ExecutionState)
    → Recorded t payload (record v { state = s }) w
    → Recorded t payload v w
Recorded-state execution_finished payload v w s h = h
Recorded-state validation_passed payload v w s h = h
Recorded-state review_approved payload v w s h = h
Recorded-state _ payload v w s h = h

Advised-state :
    (t : EventType) (payload : Fields) (v w : ExecutionView) (s : ExecutionState)
    → Advised t payload (record v { state = s }) w
    → Advised t payload v w
Advised-state review_rejected payload v w s h = h
Advised-state validation_failed payload v w s h = h
Advised-state validation_passed payload v w s h = h
Advised-state review_approved payload v w s h = h
Advised-state _ payload v w s h = h

need-named : (o : Option String) (x : String) → need o ≡ ok x → o ≡ some x
unfolding need
need-named none x h = absurd (cc)
need-named (some y) x h = ap some (need-some y x h)

-- What `note_payload` keeps, and which commits it records.
abbrev Noted : EventType → Fields → ExecutionView → ExecutionView → Type 0
Noted t payload v w =
    (w.execution_id ≡ v.execution_id)
    × (w.issue_id ≡ v.issue_id)
    × (w.base_commit ≡ v.base_commit)
    × (w.pre_execution_untracked ≡ v.pre_execution_untracked)
    × (w.state ≡ v.state)
    × (w.commit_intended ≡ v.commit_intended)
    × (w.commit_created ≡ v.commit_created)
    × Recorded t payload v w
    × Advised t payload v w

note_payload-Noted :
    (t : EventType) (payload : Fields) (v w : ExecutionView)
    → is_transition t ≡ true
    → note_payload t payload v ≡ ok w
    → Noted t payload v w
unfolding note_payload
note_payload-Noted review_rejected payload v w x h =
    bind_elim (list_or_nil (Json.get_null "feedback" payload)) h
      λ fb reads e. ground (arith, reads, ok-injective e)
note_payload-Noted execution_finished payload v w x h = ground (arith, ok-injective h)
note_payload-Noted execution_crashed payload v w x h = ground (arith, ok-injective h)
note_payload-Noted validation_passed payload v w x h = ground (arith, ok-injective h)
note_payload-Noted validation_failed payload v w x h = ground (arith, ok-injective h)
note_payload-Noted review_approved payload v w x h = ground (arith, ok-injective h)
note_payload-Noted _ payload v w x h = absurd (cc)

abbrev views_of : StateProjection → Dict String ExecutionView
views_of p = p.executions

abbrev lists_of : StateProjection → Dict String (List String)
lists_of p = p.issue_executions

module _ (env : Env) (p : StateProjection) (ev : Event) {q : StateProjection} where
  pub execution_spawned-step :
      ev.type ≡ execution_spawned
      → execution_spawned_handler env p ev ≡ ok q
      → ExecutionStep env ev p q
  unfolding execution_spawned_handler add_execution
  execution_spawned-step t h = bind_elim (need ev.execution_id) h λ xid names h1.
      bind_elim (need ev.issue_id) h1 λ iid owns h2.
        require_elim (not (is_some (get xid p.executions))) transition_error h2 λ fresh h3.
          require_elim (issue_is_active p iid) transition_error h3 λ lives h4.
            bind_elim (latest_execution p iid) h4 λ prev latest h5.
              require_elim (previous_ended env prev) transition_error h5 λ ended h6.
                bind_elim (list_or_nil (Json.get_null "pre_execution_untracked" ev.payload)) h6
                  λ untracked reads e.
                    spawn xid iid untracked prev t (need-named ev.execution_id xid names)
                      (need-named ev.issue_id iid owns) (is_active-active (get iid p.issues) lives)
                      (not-is_some (get xid p.executions) fresh) latest ended reads
                      (ap views_of (sym (ok-injective e))) (ap lists_of (sym (ok-injective e)))

  pub execution_transition-step :
      is_transition ev.type ≡ true
      → execution_transition_handler env p ev ≡ ok q
      → ExecutionStep env ev p q
  unfolding execution_transition_handler write_view
  execution_transition-step t h = bind_elim (need ev.execution_id) h λ xid names h1.
      option_elim transition_error (get xid p.executions) h1 λ v found h2.
        option_elim transition_error (env.execution_transitions v.state ev.type) h2 λ fn tabled h3.
          bind_elim (fn ev.payload) h3 λ next to h4.
            bind_elim (note_payload ev.type ev.payload (record v { state = next })) h4
              λ w written e.
                let (id, issue, base, untracked, stays, intended, created, recorded, advised) =
                  note_payload-Noted ev.type ev.payload (record v { state = next }) w t written in
                move xid v w (need-named ev.execution_id xid names) found
                  (record {
                    execution_id = id;
                    issue_id = issue;
                    base_commit = base;
                    untracked = untracked;
                  })
                  (table_row fn t tabled (to ∙ ap ok (sym stays)) intended created
                    (Recorded-state ev.type ev.payload v w next recorded)
                    (Advised-state ev.type ev.payload v w next advised))
                  (ap views_of (sym (ok-injective e))) (ap lists_of (sym (ok-injective e)))

  pub accepted_elim {ℓ} :
      {C : Type ℓ} (f : String × ExecutionView → Result StateProjection)
      → (accepted_view env p ev >>= f) ≡ ok q
      → ((xid : String) (v : ExecutionView)
          → ev.execution_id ≡ some xid
          → get xid p.executions ≡ some v
          → env.is_commit_sequence_state v.state ≡ true
          → f (xid, v) ≡ ok q
          → C)
      → C
  unfolding accepted_view
  accepted_elim f h k = bind_elim (accepted_view env p ev) h λ found accepted h1.
      bind_elim (need ev.execution_id) accepted λ xid names h2.
        option_elim transition_error (get xid p.executions) h2 λ v there h3.
          require_elim (env.is_commit_sequence_state v.state) transition_error h3 λ seq e.
            k xid v (need-named ev.execution_id xid names) there seq (ap f (ok-injective e) ∙ h1)

  pub commit_intent-step :
      ev.type ≡ commit_intent → commit_intent_handler env p ev ≡ ok q → ExecutionStep env ev p q
  unfolding commit_intent_handler write_view
  commit_intent-step t h =
      accepted_elim (commit_intent_of p ev.payload) h λ xid v names there seq h1.
        require_elim (not v.commit_intended) transition_error h1 λ fresh e.
          move xid v (intend ev.payload v) names there
            (record { execution_id = refl; issue_id = refl; base_commit = refl; untracked = refl })
            (intended_row t seq (not-true v.commit_intended fresh) refl)
            (ap views_of (sym (ok-injective e))) (ap lists_of (sym (ok-injective e)))

  pub commit_created-step :
      ev.type ≡ commit_created → commit_created_handler env p ev ≡ ok q → ExecutionStep env ev p q
  unfolding commit_created_handler write_view
  commit_created-step t h = accepted_elim (commit_created_of p) h λ xid v names there seq h1.
      require_elim v.commit_intended transition_error h1 λ intended h2.
        require_elim (not v.commit_created) transition_error h2 λ fresh e.
          move xid v (record v { commit_created = true }) names there
            (record { execution_id = refl; issue_id = refl; base_commit = refl; untracked = refl })
            (created_row t seq intended (not-true v.commit_created fresh) refl)
            (ap views_of (sym (ok-injective e))) (ap lists_of (sym (ok-injective e)))
