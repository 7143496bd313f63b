-- ===== src/Dashboard/Launcher.antt =====
-- src/draindeck_dashboard/run_launcher.py: the child's arguments and environment, the launch of a
-- claimed command, the reconciliation of a launched one, and the entry point that joins them.
use draindeck.Base.{
  ℕ, zero, String, Bool, true, false, not, ◌&&◌, ◌||◌, Option, none, some, List, [], ◌∷◌, ◌++◌,
  ◌==◌, string_comparable, if◌then◌else◌, nat_eq,
}
use draindeck.Base.Json.{ℤ, pos}
use draindeck.Base.Result.{Result, ok, err, os_error}
use draindeck.Base.Action.{Action, ◌>>=◌, ◌>>◌, return, raise}
use draindeck.Recovery.Containment.{is_gone}
use draindeck.Dashboard.Commands.{
  Command, launched, launch_failed, completed, abnormal_exit, not_started, exited_with,
  exited_unobserved, is_launched, is_claimed, of_repository, find_where, update_row,
  has_launchable_command,
}
use draindeck.Dashboard.Machine.{
  Machine, Desk, CommandView, get_command, asking, reading, clean_worktree,
}
use draindeck.Dashboard.RunQueue.{
  claim_next_launchable_command, revalidate_claimed_command, rewrite, attempt,
}

-- `--issue id` for each id
unfoldable pub issue_args : List String → List String
issue_args [] = []
issue_args (iid ∷ ids) = "--issue" ∷ iid ∷ issue_args ids

abbrev ids_or_empty : Option (List String) → List String
ids_or_empty none = []
ids_or_empty (some ids) = ids

-- build_launch_argv
unfoldable pub build_launch_argv :
    String → String → String → String → Option (List String) → List String
unfolding issue_args
build_launch_argv executable config_path digest mode issue_ids =
    executable
    ∷ "run"
    ∷ "--config"
    ∷ config_path
    ∷ "--issues-digest"
    ∷ digest
    ∷ (if mode == "ALL" then "--all-issues" ∷ [] else issue_args (ids_or_empty issue_ids))

abbrev pub one_of : String → List String → Bool
one_of x [] = false
one_of x (y ∷ ys) = x == y || one_of x ys

-- _RUNTIME_LAUNCH_ALLOWED_ENV_KEY_NAMES
abbrev pub allowed_names : List String
allowed_names =
    "PATH" ∷ "SYSTEMROOT" ∷ "PATHEXT" ∷ "TEMP" ∷ "TMP" ∷ "WINDIR" ∷ "COMSPEC" ∷ "USERPROFILE"
    ∷ "HOMEDRIVE" ∷ "HOMEPATH" ∷ "APPDATA" ∷ "LOCALAPPDATA" ∷ "CLAUDE_CONFIG_DIR" ∷ []

-- _SUBSCRIPTION_CREDENTIAL_DENYLIST
abbrev pub denied_names : List String
denied_names = "ANTHROPIC_API_KEY" ∷ "ANTHROPIC_AUTH_TOKEN" ∷ "ANTHROPIC_BASE_URL" ∷ []

abbrev pub Environment : Type 0
Environment = List (String × String)

-- The entries whose key passes a test; a dict comprehension keeps the order, and a key once.
unfoldable pub keep_keys : (String → Bool) → Environment → Environment
keep_keys test [] = []
keep_keys test ((key, value) ∷ env) =
    let rest = keep_keys test env in if test key then (key, value) ∷ rest else rest

-- build_runtime_launch_env, with `str.upper` as a parameter. The key of the API is no allowed name,
-- so it is a new entry.
unfoldable pub build_runtime_launch_env : (String → String) → Environment → String → Environment
unfolding keep_keys
build_runtime_launch_env upper base auth_mode =
    let allowed = keep_keys (λ key. one_of (upper key) allowed_names) base in
    if auth_mode == "api_key"
    then allowed ++ keep_keys (λ key. upper key == "ANTHROPIC_API_KEY") base
    else keep_keys (λ key. not (one_of key denied_names)) allowed

abbrev pub start_failed : String → Command → Command
start_failed now c = record c {
  status = launch_failed;
  refusal_reason = some not_started;
  finished_at = some now;
}

abbrev pub start : ℕ → Option String → String → Command → Command
start pid created now c = record c {
  status = launched;
  process_pid = some pid;
  process_creation_time = created;
}

abbrev pub finish : Option String → String → Command → Command
finish run_id now c = record c {
  status = completed;
  finished_at = some now;
  run_id_correlation = run_id;
}

abbrev pub fail : ℤ → Option String → String → Command → Command
fail code run_id now c = record c {
  status = abnormal_exit;
  refusal_reason = some (exited_with code);
  finished_at = some now;
  run_id_correlation = run_id;
}

abbrev pub lose : String → Command → Command
lose now c = record c { status = abnormal_exit; refusal_reason = some exited_unobserved }

abbrev pub remove : ℕ → List ℕ → List ℕ
remove n [] = []
remove n (m ∷ ms) = let rest = remove n ms in if nat_eq m n then rest else m ∷ rest

abbrev pub holds : ℕ → List ℕ → Bool
holds n [] = false
holds n (m ∷ ms) = nat_eq m n || holds n ms

abbrev pub exit_change : ℤ → Option String → String → Command → Command
exit_change (pos zero) run_id = finish run_id
exit_change code run_id = fail code run_id

module _ {World : Type 0} (machine : Machine World) (upper : String → String)
    (executable : String) where
  abbrev pub keeping_live : (List ℕ → List ℕ) → Action (Desk World) (Unit {0})
  keeping_live f d = (ok tt, record d { live = f d.live })

  abbrev pub reading_env : Action (Desk World) Environment
  reading_env d = (ok (machine.environ d.world), d)

  -- `except OSError` around the probe of the creation time
  abbrev pub known_time : Result (Option String) → Action (Desk World) (Option String)
  known_time (ok time) = return time
  known_time (err os_error) = return none
  known_time (err e) = raise e

  -- What follows Popen: an OSError leaves LAUNCH_FAILED, a child LAUNCHED.
  unfoldable pub record_launch : CommandView → Result ℕ → Action (Desk World) CommandView
  unfolding get_command update_row
  record_launch view (err os_error) = rewrite machine view.row.id start_failed
  record_launch view (err e) = raise e
  record_launch view (ok pid) = do
    probed ← attempt machine (asking machine (machine.creation_time pid))
    created ← known_time probed
    keeping_live (λ live. view.row.id ∷ live)
    rewrite machine view.row.id (start pid created)

  -- launch_claimed_command
  unfoldable pub launch_claimed_command : CommandView → String → Action (Desk World) CommandView
  unfolding build_launch_argv build_runtime_launch_env record_launch
  launch_claimed_command view config_path = do
    mode ← asking machine (machine.auth_mode config_path)
    environ ← reading_env
    spawned ← attempt machine (
        asking machine (
          machine.popen
            (build_launch_argv executable config_path view.row.issues_digest view.row.mode
              view.row.issue_ids)
            (build_runtime_launch_env upper environ mode)))
    record_launch view spawned

  abbrev pub observe_exit : CommandView → Option ℤ → Action (Desk World) CommandView
  unfolding get_command update_row
  observe_exit view none = return view
  observe_exit view (some code) = do
    keeping_live (remove view.row.id)
    run_id ← asking machine (machine.confirmed_run view.row.repository_id view.row.id)
    rewrite machine view.row.id (exit_change code run_id)

  abbrev pub observe_gone : CommandView → Bool → Action (Desk World) CommandView
  unfolding get_command update_row
  observe_gone view true = rewrite machine view.row.id lose
  observe_gone view false = return view

  abbrev pub observe_probed : CommandView → Action (Desk World) CommandView
  observe_probed view = do
    state ← asking machine (machine.probe view.row.process_pid view.row.process_creation_time)
    observe_gone view (is_gone state)

  abbrev pub observe_polled : CommandView → Action (Desk World) CommandView
  observe_polled view = do code ← asking machine (machine.poll view.row.id); observe_exit view code

  abbrev pub observe_child : Bool → CommandView → Action (Desk World) CommandView
  observe_child true view = observe_polled view
  observe_child false view = observe_probed view

  -- reconcile_launched_command
  unfoldable pub reconcile_launched_command : CommandView → Action (Desk World) CommandView
  reconcile_launched_command view = elim (is_launched view.row.status) [
    | false ↦ return view
    | true ↦ λ d. observe_child (holds view.row.id d.live) view d
  ]

  abbrev pub launched_in : ℕ → Command → Bool
  launched_in repo c = of_repository repo c && is_launched c.status

  abbrev pub reconcile_found : Option Command → Action (Desk World) (Unit {0})
  unfolding get_command reconcile_launched_command
  reconcile_found none = return tt
  reconcile_found (some row) = do
    view ← get_command machine row.id
    reconcile_launched_command view
    return tt

  -- `worktree_probe is not None and has_launchable_command(…)`, and the preflight.
  abbrev pub preflight_if : Bool → ℕ → Action (Desk World) Bool
  preflight_if false repo = return true
  preflight_if true repo = clean_worktree machine machine.worktree_clean repo

  abbrev pub launch_valid : ℕ → CommandView → Action (Desk World) CommandView
  unfolding launch_claimed_command
  launch_valid repo view = elim (is_claimed view.row.status) [
    | false ↦ return view
    | true ↦ do
      config_path ← asking machine (machine.config_path repo)
      launch_claimed_command view config_path
  ]

  abbrev pub launch_claim : ℕ → Option CommandView → Action (Desk World) (Option CommandView)
  unfolding revalidate_claimed_command
  launch_claim repo none = return none
  launch_claim repo (some claimed) = do
    valid ← revalidate_claimed_command machine claimed
    final ← launch_valid repo valid
    return (some final)

  abbrev pub launch_if : Bool → ℕ → Action (Desk World) (Option CommandView)
  unfolding claim_next_launchable_command
  launch_if false repo = return none
  launch_if true repo = do
    claimed ← claim_next_launchable_command machine repo
    launch_claim repo claimed

  -- try_launch_next
  unfoldable pub try_launch_next : ℕ → Action (Desk World) (Option CommandView)
  unfolding find_where has_launchable_command
  try_launch_next repo = do
    row ← reading machine (λ s. find_where (launched_in repo) s.commands)
    reconcile_found row
    launchable ← reading machine (λ s. has_launchable_command s repo)
    clean ← preflight_if launchable repo
    launch_if clean repo
