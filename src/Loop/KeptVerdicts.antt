-- ===== src/Loop/KeptVerdicts.antt =====
-- The moves of validation, review and commit keep what no event but a spawn touches.
use draindeck.Base.{
  String, Bool, true, false, Option, none, some, ◌≡◌, refl, Bool-cases, inl, inr, string_comparable,
  ◌==◌, ◌||◌,
}
use draindeck.Base.Json.{Value, Fields}
use draindeck.Base.Result.{Result, ok, err}
use draindeck.Base.Action.{Action, ◌>>=◌, ◌>>◌, return}
use draindeck.States.{Env}
use draindeck.Events.Schema.{
  EventType, issue_escalated, issue_completed, validation_passed, validation_failed,
  review_approved, review_rejected, commit_intent, commit_created,
}
use draindeck.Events.Log.Codec.{Codec}
use draindeck.Events.Projection.View.{StateProjection, ExecutionView}
use draindeck.Events.Projection.SpawnOnly.{is_spawned}
use draindeck.Recovery.Containment.{join}
use draindeck.Loop.Budget.{BudgetManager, Floats}
use draindeck.Loop.Services.{Services, Settings, Python, ValidationResult, ReviewVerdict}
use draindeck.Loop.Emits.{Orchestrator, outside, emits, value_or_null}
use draindeck.Loop.Verdicts.{
  matching, validation_payload, review_taxonomy, validate, judge, review, unread, is_parse_error,
  reviewed, decide, commit_sequence, pin_gate, intend, merge_step, merged, complete_step,
  new_test_commands, witnessed, intent_tip, is_pinned,
}
use draindeck.Loop.KeptMoves.{Keeps}
use draindeck.Loop.KeptMoves
use draindeck.Loop.Kept.{Untouched}

module _ (env : Env) (c : Codec) (py : Python) (floats : Floats) {World : Type 0}
    (settings : Settings) (services : Services World) (P : StateProjection → BudgetManager → Type 0)
    (u : Untouched env floats P) where
  abbrev Kept {ℓ} : {T : Type ℓ} → Action (Orchestrator c World) T → Type 0
  Kept m = Keeps env c py floats settings services P u m

  after {ℓ κ} :
      {T : Type ℓ} {U : Type κ} (m : Action (Orchestrator c World) T)
      (k : T → Action (Orchestrator c World) U)
      → Kept m
      → ((v : T) → Kept (k v))
      → Kept (m >>= k)
  after m k h next = KeptMoves.then-Keeps env c py floats settings services P u m k h next

  asked {ℓ} : {T : Type ℓ} (f : Action World T) → Kept (outside f)
  asked f s p = p

  said :
      (type : EventType) (issue : String) (payload : Fields) (xid : Option String)
      → is_spawned type ≡ false
      → Kept (emits env c settings services type issue payload xid)
  said type issue payload xid quiet =
      KeptMoves.emits-Keeps env c py floats settings services P u type issue payload xid quiet

  said_last :
      (type : EventType) (issue : String) (payload : Fields) (xid : Option String)
      → is_spawned type ≡ false
      → Kept (emits env c settings services type issue payload xid >> return {T = Unit {0}} tt)
  said_last type issue payload xid quiet =
      KeptMoves.last_emits-Keeps env c py floats settings services P u type issue payload xid quiet

  judge-Keeps :
      (b : Bool) (issue : String) (ex : ExecutionView) (result : ValidationResult)
      → Kept (judge env c py settings services b issue ex result)
  unfolding emits validation_payload
  judge-Keeps true issue ex result = said_last validation_passed issue _ (some ex.execution_id) refl
  judge-Keeps false issue ex result =
      after (emits env c settings services validation_failed issue _ (some ex.execution_id)) _
        (said validation_failed issue _ (some ex.execution_id) refl)
        λ _. asked (services.reset_hard (value_or_null ex.base_commit))

  pub validate-Keeps :
      (issue : String) (ex : ExecutionView) → Kept (validate env c py settings services issue ex)
  unfolding validate new_test_commands matching
  validate-Keeps issue ex =
      after
        (new_test_commands env c py settings services (value_or_null ex.base_commit) ex.end_commit)
        _ listed
        λ extra.
          after (outside (services.validate ex.end_commit ex.execution_id extra)) _
            (asked (services.validate ex.end_commit ex.execution_id extra))
            λ result. judge-Keeps result.passed issue ex result
    where
      listed : Kept (
          new_test_commands env c py settings services (value_or_null ex.base_commit) ex.end_commit)
      listed s p =
          elim (Bool-cases
            (settings.new_test_pattern == "" || settings.new_test_command_prefix == "")) [
              | inl off ↦ rw (off, new_test_commands) p
              | inr on ↦
                  rw (on, new_test_commands)
                    (after
                      (outside (services.added_files (value_or_null ex.base_commit) ex.end_commit))
                      (λ added. return (
                        matching py settings.new_test_pattern settings.new_test_command_prefix
                          added))
                      (asked (services.added_files (value_or_null ex.base_commit) ex.end_commit))
                      (λ added t q. q) s p)
            ]

  decide-Keeps :
      (b : Bool) (issue : String) (ex : ExecutionView) (verdict : ReviewVerdict)
      → Kept (decide env c py settings services b issue ex verdict)
  unfolding emits review_taxonomy
  decide-Keeps true issue ex verdict = said_last review_approved issue _ (some ex.execution_id) refl
  decide-Keeps false issue ex verdict =
      after (emits env c settings services review_rejected issue _ (some ex.execution_id)) _
        (said review_rejected issue _ (some ex.execution_id) refl)
        λ _. asked (services.reset_hard (value_or_null ex.base_commit))

  reviewed-Keeps :
      (issue : String) (ex : ExecutionView) (r : Result ReviewVerdict)
      → Kept (reviewed env c py settings services issue ex r)
  unfolding emits review_taxonomy
  reviewed-Keeps issue ex (ok verdict) = decide-Keeps verdict.is_approved issue ex verdict
  reviewed-Keeps issue ex (err e) = unread-Keeps (is_parse_error e)
    where
      unread-Keeps : (b : Bool) → Kept (unread env c py settings services b issue ex e)
      unread-Keeps true = said_last issue_escalated issue _ (some ex.execution_id) refl
      unread-Keeps false = λ s p. p

  pub review-Keeps :
      (issue : String) (ex : ExecutionView) → Kept (review env c py settings services issue ex)
  unfolding review
  review-Keeps issue ex =
      after (outside (services.diff (value_or_null ex.base_commit) ex.end_commit)) _
        (asked (services.diff (value_or_null ex.base_commit) ex.end_commit))
        λ diff s p. reviewed-Keeps issue ex _ _ p

  pin_gate-Keeps :
      (b : Bool) (issue : String) (ex : ExecutionView)
      → Kept (pin_gate env c py settings services b issue ex)
  unfolding emits
  pin_gate-Keeps false issue ex = λ s p. p
  pin_gate-Keeps true issue ex =
      after (outside (services.commit_exists ex.end_commit)) _
        (asked (services.commit_exists ex.end_commit)) intend-Keeps
    where
      intend-Keeps : (b : Bool) → Kept (intend env c py settings services b issue ex)
      intend-Keeps true = said_last commit_intent issue _ (some ex.execution_id) refl
      intend-Keeps false = λ s p. p

  merged-Keeps :
      (b : Bool) (issue : String) (tip : Value)
      → Kept (merged env c py settings services b issue tip)
  unfolding join
  merged-Keeps false issue tip =
      after (outside (services.merge_to settings.target tip (join "merge " issue))) _
        (asked (services.merge_to settings.target tip (join "merge " issue))) λ mc s p. p
  merged-Keeps true issue tip =
      after (outside (services.find_merge_commit settings.target tip)) _
        (asked (services.find_merge_commit settings.target tip)) found
    where
      found : (o : Option String) → Kept (witnessed env c py settings services o)
      found none s p = p
      found (some mc) s p = p

  merge_step-Keeps :
      (issue : String) (ex : ExecutionView) → Kept (merge_step env c py settings services issue ex)
  unfolding merge_step
  merge_step-Keeps issue ex =
      let tip = intent_tip env c py settings services ex in
      after (outside (services.is_ancestor tip settings.target)) _
        (asked (services.is_ancestor tip settings.target))
        λ on_target.
          after (merged env c py settings services on_target issue tip) _
            (merged-Keeps on_target issue tip)
            λ mc. said_last commit_created issue _ (some ex.execution_id) refl

  complete_step-Keeps :
      (issue : String) (ex : ExecutionView)
      → Kept (complete_step env c py settings services issue ex)
  unfolding complete_step
  complete_step-Keeps issue ex =
      after (emits env c settings services issue_completed issue _ none) _
        (said issue_completed issue _ none refl)
        λ _. asked (services.delete_attempt_ref issue ex.execution_id)

  pub commit_sequence-Keeps :
      (issue : String) (ex : ExecutionView)
      → Kept (commit_sequence env c py settings services issue ex)
  unfolding commit_sequence
  commit_sequence-Keeps issue ex s p = elim (Bool-cases ex.commit_intended) [
    | inr fresh ↦
        rw (fresh, commit_sequence)
          (pin_gate-Keeps (is_pinned env c py settings services ex) issue ex s p)
    | inl intended ↦ elim (Bool-cases ex.commit_created) [
      | inr unmade ↦ rw (intended, unmade, commit_sequence) (merge_step-Keeps issue ex s p)
      | inl made ↦ rw (intended, made, commit_sequence) (complete_step-Keeps issue ex s p)
    ]
  ]
