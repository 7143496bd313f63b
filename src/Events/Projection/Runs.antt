-- ===== src/Events/Projection/Runs.antt =====
-- The handlers of projections.py for the run lifecycle. They only validate.
use draindeck.Base.{String, List, [], ◌∷◌, string_comparable, ◌==◌, if◌then◌else◌}
use draindeck.Base.Json
use draindeck.Base.Json.{Value, Fields, null, str}
use draindeck.Base.Result.{Result, ok, err, transition_error, ◌>>=◌, ◌>>◌, require, of_option}
use draindeck.States.{Env}
use draindeck.Events.Schema.{Event}
use draindeck.Events.Projection.View.{StateProjection}
use draindeck.Events.Projection.Checks.{
  run_envelope, exact_keys, mapping_of, string_of, field_of, positive_int, positive_cost,
  is_config_digest, member,
}

-- A reviewer's model is None, or a text that is not empty.
abbrev optional_string : Value → Result (Unit {0})
optional_string null = ok tt
optional_string (str s) = if s == "" then err transition_error else ok tt
optional_string _ = err transition_error

abbrev must_be_null : Value → Result (Unit {0})
must_be_null null = ok tt
must_be_null _ = err transition_error

abbrev run_outcomes : List String
run_outcomes =
    "CHECKOUT_FAILED" ∷ "REVIEWER_UNREACHABLE" ∷ "BASELINE_FAILED" ∷ "INGEST_FAILED" ∷ "COMPLETED"
    ∷ "HALTED" ∷ "INTERRUPTED" ∷ []

unfoldable pub check_budget : Fields → Result (Unit {0})
check_budget budget = do
  exact_keys budget (
      "max_attempts_per_issue" ∷ "max_executions_per_run" ∷ "hard_stop_proxy_cost_per_run_usd"
      ∷ "proxy_pricing" ∷ [])
  positive_int budget "max_attempts_per_issue"
  positive_int budget "max_executions_per_run"
  cost ← field_of budget "hard_stop_proxy_cost_per_run_usd"
  positive_cost cost
  pricing ← string_of budget "proxy_pricing"
  require (member pricing ("api_list_rates" ∷ [])) transition_error

unfoldable pub check_run_started : Fields → Result (Unit {0})
unfolding check_budget
check_run_started payload = do
  exact_keys payload ("engine" ∷ "reviewer" ∷ "budget" ∷ "config_digest" ∷ [])
  engine ← mapping_of payload "engine"
  exact_keys engine ("provider" ∷ "model" ∷ [])
  string_of engine "provider"
  string_of engine "model"
  reviewer ← mapping_of payload "reviewer"
  exact_keys reviewer ("provider" ∷ "model" ∷ [])
  string_of reviewer "provider"
  model ← of_option transition_error (Json.get "model" reviewer)
  optional_string model
  budget ← mapping_of payload "budget"
  check_budget budget
  digest ← string_of payload "config_digest"
  require (is_config_digest digest) transition_error

unfoldable pub check_run_finished : Fields → Result (Unit {0})
check_run_finished payload = do
  exact_keys payload ("outcome" ∷ "detail" ∷ [])
  outcome ← string_of payload "outcome"
  require (member outcome run_outcomes) transition_error
  detail ← of_option transition_error (Json.get "detail" payload)
  must_be_null detail

module _ (env : Env) where
  -- _run_started
  unfoldable pub run_started_handler : StateProjection → Event → Result StateProjection
  run_started_handler p ev = do run_envelope env ev; check_run_started ev.payload; ok p

  -- _run_finished
  unfoldable pub run_finished_handler : StateProjection → Event → Result StateProjection
  run_finished_handler p ev = do run_envelope env ev; check_run_finished ev.payload; ok p
