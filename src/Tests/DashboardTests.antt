-- ===== src/Tests/DashboardTests.antt =====
-- The dashboard's queue, over a machine on which git is clean and a child ends at once.
use draindeck.Base.{
  ℕ, String, true, false, none, some, List, [], ◌∷◌, ◌≡◌, refl, ◌⊎◌, inl, ◌==◌, string_comparable,
}
use draindeck.Base.Lists.{In}
use draindeck.Base.Json.{pos}
use draindeck.Base.Result.{ok}
use draindeck.Base.Dict.{get}
use draindeck.Queue.Selection.{IssueSpec, spec_by_id}
use draindeck.Queue.Planner.{plan_run_all, sort_ids}
use draindeck.Queue.Topology.{topological_order, first_ready, remove}
use draindeck.Dashboard.RunPlan.{summary}
use draindeck.Dashboard.Kept.{insert_row-Slots}
use draindeck.Recovery.Containment.{dead}
use draindeck.Dashboard.Commands.{
  Store, Command, empty_store, abnormal_exit, is_acknowledged, acknowledged,
  acknowledged_by_operator, find_where, has_launchable_command, is_some,
}
use draindeck.Dashboard.Transactions.{
  claim_transaction, cancel_transaction, new_command, normalized, insert_row,
}
use draindeck.Dashboard.Machine.{Machine, Desk, CommandView, get_command}
use draindeck.Dashboard.RunQueue.{enqueue_command, command, acknowledge_abnormal_command}
use draindeck.Dashboard.Requests.{Call, serve, serve_all, enqueues, drains, acknowledges}
use draindeck.Dashboard.Slots.{Slots, empty-Slots}
use draindeck.Dashboard.Reachable.{serve_all-empty-Slots}
use draindeck.Dashboard.ClaimOrder.{claim_transaction-launchable}
use draindeck.Dashboard.CancelRace.{claim-cancel, cancel-claim}
use draindeck.Dashboard.AckGates.{Proven, acknowledge-Proven}
use draindeck.Dashboard.LaunchEnv.{build_runtime_launch_env-allowed}
use draindeck.Dashboard.Launcher.{
  Environment, build_runtime_launch_env, one_of, allowed_names, denied_names,
}
use draindeck.Dashboard.Retries.{enqueue_command-retry}

abbrev upper : String → String
upper s = s

abbrev spec : String → IssueSpec
spec iid = record { id = iid; title = iid; body = ""; depends_on = []; acceptance_criteria = [] }

abbrev machine : Machine (Unit {0})
machine = record {
  get_configured_issues = λ repo w. (
    ok (record {
      issues_file_revision = "r1";
      read_model_status = "READY";
      issues = (spec "A", "PENDING") ∷ (spec "B", "DONE") ∷ [];
      active_issues_outside_file = [];
    }),
    w,
  );
  worktree_clean = some (λ repo w. (ok true, w));
  config_path = λ repo w. (ok "runtime.yaml", w);
  auth_mode = λ path w. (ok "api_key", w);
  environ = λ w. ("PATH", "/bin") ∷ ("HOME", "/root") ∷ [];
  popen = λ argv env w. (ok 77, w);
  creation_time = λ pid w. (ok (some "t1"), w);
  poll = λ n w. (ok (some (pos 3)), w);
  confirmed_run = λ repo n w. (ok none, w);
  probe = λ pid created w. (ok dead, w);
  runtime_outcome = λ w repo run. none;
  now = λ w. "now";
}

abbrev opened : Desk (Unit {0})
opened = record { store = empty_store; live = []; world = tt }

abbrev day : List Call
day =
    enqueues 1 "ALL" none "r1" "k1"
    ∷ enqueues 1 "SELECTED" (some ("A" ∷ [])) "r1" "k2"
    ∷ drains 1
    ∷ []

abbrev at_noon : Desk (Unit {0})
at_noon = serve_all machine upper "draindeck" day opened

serve_all-empty-Slots_example : Slots at_noon.store
serve_all-empty-Slots_example = serve_all-empty-Slots machine upper "draindeck" day tt

abbrev first : Desk (Unit {0})
first = serve machine upper "draindeck" (enqueues 1 "ALL" none "r1" "k1") opened

abbrev first_row : Command
first_row = new_command 1 1 "ALL" none "r1" "k1" (normalized "ALL" none "r1") "now"

abbrev first_view : CommandView
first_view = record { row = first_row; queue_position = some 1; runtime_outcome = none }

first_answer :
    enqueue_command machine 1 "ALL" none "r1" "k1" opened ≡ (ok (command first_view), first)
unfolding serve enqueue_command summary plan_run_all get spec_by_id topological_order first_ready
    remove sort_ids
first_answer = refl

enqueue_command-retry_example :
    enqueue_command machine 1 "ALL" none "r1" "k1" first ≡ (ok (command first_view), first)
enqueue_command-retry_example =
    enqueue_command-retry machine 1 "ALL" none "r1" "k1" first_view opened first empty-Slots
      first_answer

abbrev row_one : ℕ → Command
row_one n = new_command n 1 "ALL" none "r1" "k1" (normalized "ALL" none "r1") "now"

abbrev row_two : ℕ → Command
row_two n =
    new_command n 1 "SELECTED" (some ("A" ∷ [])) "r1" "k2"
      (normalized "SELECTED" (some ("A" ∷ [])) "r1") "now"

abbrev queued_one : Store
unfolding insert_row
queued_one = insert_row row_one empty_store

abbrev queued_two : Store
unfolding insert_row
queued_two = insert_row row_two queued_one

queued_two-Slots : Slots queued_two
unfolding insert_row new_command find_where
queued_two-Slots =
    insert_row-Slots queued_one row_two (λ n. refl) (λ n. refl) refl
      (insert_row-Slots empty_store row_one (λ n. refl) (λ n. refl) refl empty-Slots)

abbrev claimed_one : Store
unfolding claim_transaction
claimed_one = (claim_transaction 1 "then" queued_two).1

claims_first : claim_transaction 1 "then" queued_two ≡ (some 1, claimed_one)
unfolding claim_transaction insert_row new_command
claims_first = refl

claim_transaction-launchable_example :
    is_some (claim_transaction 1 "then" queued_two).0 ≡ has_launchable_command queued_two 1
claim_transaction-launchable_example = claim_transaction-launchable 1 "then" queued_two

claim-cancel_example : cancel_transaction 1 1 "later" claimed_one ≡ (false, claimed_one)
claim-cancel_example =
    claim-cancel 1 1 "then" "later" queued_two claimed_one queued_two-Slots claims_first

cancel-claim_example :
    (cancel_transaction 1 1 "then" queued_two ≡ (false, queued_two))
    ⊎ (((cancel_transaction 1 1 "then" queued_two).0 ≡ true)
        × (claim_transaction 1 "later" (cancel_transaction 1 1 "then" queued_two).1
            ≡ (none, (cancel_transaction 1 1 "then" queued_two).1)))
cancel-claim_example = cancel-claim 1 1 "then" "later" queued_two

abbrev abnormal_row : Command
unfolding new_command
abnormal_row = record (row_one 1) { status = abnormal_exit; process_pid = some 77 }

abbrev ended : Desk (Unit {0})
ended = record {
  store = record { commands = abnormal_row ∷ []; pauses = []; next_id = 2 };
  live = [];
  world = tt;
}

abbrev acknowledged_view : CommandView
acknowledged_view = record {
  row = record abnormal_row {
    status = acknowledged;
    refusal_reason = some acknowledged_by_operator;
    finished_at = some "now";
  };
  queue_position = none;
  runtime_outcome = none;
}

acknowledges_first :
    acknowledge_abnormal_command machine 1 1 ended
    ≡ (ok acknowledged_view, serve machine upper "draindeck" (acknowledges 1 1) ended)
unfolding serve acknowledge_abnormal_command abnormal_row
acknowledges_first = refl

acknowledge-Proven_example :
    (view : CommandView) × (get_command machine 1 ended ≡ (ok view, ended))
    × (view.row.repository_id ≡ 1)
    × (((is_acknowledged view.row.status ≡ true)
          × (serve machine upper "draindeck" (acknowledges 1 1) ended ≡ ended))
        ⊎ Proven machine 1 view ended)
acknowledge-Proven_example =
    acknowledge-Proven machine 1 1 acknowledged_view ended
      (serve machine upper "draindeck" (acknowledges 1 1) ended) acknowledges_first

abbrev login : String
login = "login"

abbrev base : Environment
base = ("PATH", "/bin") ∷ ("HOME", "/root") ∷ []

passes_path : In ("PATH", "/bin") (build_runtime_launch_env upper base login)
unfolding build_runtime_launch_env
passes_path = inl refl

build_runtime_launch_env-allowed_example :
    In ("PATH", "/bin") base
    × (((one_of (upper "PATH") allowed_names ≡ true) × ((login == "api_key") ≡ true))
        ⊎ (((upper "PATH" == "ANTHROPIC_API_KEY") ≡ true) × ((login == "api_key") ≡ true))
        ⊎ ((one_of (upper "PATH") allowed_names ≡ true)
            × (one_of "PATH" denied_names ≡ false)
            × ((login == "api_key") ≡ false)))
build_runtime_launch_env-allowed_example =
    build_runtime_launch_env-allowed upper base login "PATH" "/bin" passes_path
