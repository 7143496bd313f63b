-- ===== src/Dashboard/RunPlan.antt =====
-- `plan_run` of src/draindeck_dashboard/run_queue.py: the planner on the configured issues.
use draindeck.Base.{
  ℕ, ◌+◌, String, Bool, true, false, not, ◌||◌, Option, none, some, List, [], ◌∷◌, ◌==◌,
  string_comparable, if◌then◌else◌,
}
use draindeck.Base.Dict.{put}
use draindeck.Base.Lists.{length}
use draindeck.Base.Result.{issues_revision_conflict, projection_unavailable}
use draindeck.Base.Action.{Action, ◌>>=◌, ◌>>◌, return, raise}
use draindeck.Queue.Selection.{IssueSpec, PlanResult, TerminalExclusion, States}
use draindeck.Queue.Planner.{plan_selected, plan_run_all}
use draindeck.Dashboard.Machine.{Machine, Desk, Configured, asking}

-- The counts of `terminalCounts`, and the others of the response.
pub record RunPlan : Type 0 where
  pub result : PlanResult
  pub to_run_count : ℕ
  pub total_terminal_count : ℕ
  pub done_count : ℕ
  pub needs_human_count : ℕ
  pub needs_decomposition_count : ℕ

abbrev pub specs_of : List (IssueSpec × String) → List IssueSpec
specs_of [] = []
specs_of ((spec, state) ∷ issues) = spec ∷ specs_of issues

abbrev is_known_state : String → Bool
is_known_state state = not (state == "NOT_INGESTED" || state == "UNAVAILABLE")

-- The dict of the issues' states.
unfoldable pub known_states : States → List (IssueSpec × String) → States
unfolding put
known_states states [] = states
known_states states ((spec, state) ∷ issues) =
    known_states (if is_known_state state then put spec.id state states else states) issues

-- `states[iid] = "ACTIVE"` for the issues that are in no file
unfoldable pub with_active : States → List String → States
unfolding put
with_active states [] = states
with_active states (iid ∷ ids) = with_active (put iid "ACTIVE" states) ids

unfoldable pub count_state : String → List TerminalExclusion → ℕ
count_state state [] = 0
count_state state (e ∷ es) = (if e.state == state then 1 else 0) + count_state state es

abbrev ids_or_empty : Option (List String) → List String
ids_or_empty none = []
ids_or_empty (some ids) = ids

unfoldable pub planned : List IssueSpec → States → String → Option (List String) → PlanResult
planned specs states mode issue_ids =
    if mode == "ALL"
    then plan_run_all specs states
    else plan_selected specs states (ids_or_empty issue_ids)

abbrev pub exclusions_of : String → PlanResult → List TerminalExclusion
exclusions_of mode result = if mode == "ALL" then result.excluded else result.terminal_selected

unfoldable pub summary : PlanResult → List TerminalExclusion → RunPlan
unfolding count_state
summary result terminal = record {
  result = result;
  to_run_count = length result.ordered_ids;
  total_terminal_count = length terminal;
  done_count = count_state "DONE" terminal;
  needs_human_count = count_state "NEEDS_HUMAN" terminal;
  needs_decomposition_count = count_state "NEEDS_DECOMPOSITION" terminal;
}

unfoldable pub plan_of : Configured → String → Option (List String) → RunPlan
unfolding planned known_states with_active
plan_of configured mode issue_ids =
    let states =
      with_active (known_states [] configured.issues) configured.active_issues_outside_file in
    let result = planned (specs_of configured.issues) states mode issue_ids in
    summary result (exclusions_of mode result)

module _ {World : Type 0} (machine : Machine World) where
  abbrev pub demand : Bool → Action (Desk World) (Unit {0}) → Action (Desk World) (Unit {0})
  demand true otherwise = return tt
  demand false otherwise = otherwise

  -- plan_run
  unfoldable pub plan_run : ℕ → String → Option (List String) → String → Action (Desk World) RunPlan
  unfolding plan_of
  plan_run repo mode issue_ids expected = do
    configured ← asking machine (machine.get_configured_issues repo)
    demand (configured.issues_file_revision == expected) (raise issues_revision_conflict)
    demand (configured.read_model_status == "READY") (raise projection_unavailable)
    return (plan_of configured mode issue_ids)
