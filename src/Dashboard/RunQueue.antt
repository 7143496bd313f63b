-- ===== src/Dashboard/RunQueue.antt =====
-- The operations of src/draindeck_dashboard/run_queue.py. A transaction is one
-- step on the store; between them stand what the operation reads and asks.
use draindeck.Base.{
  ℕ, String, Bool, true, false, Option, none, some, List, ◌==◌, string_comparable, if◌then◌else◌,
  nat_eq,
}
use draindeck.Base.Result.{
  Result, Error, ok, err, not_found, idempotency_key_reused, selection_refused, worktree_not_clean,
  ack_not_abnormal, ack_process_not_terminal, ack_run_not_terminal, ack_target_unverifiable,
  cancel_not_queued, issues_revision_conflict, projection_unavailable, configured_issues,
}
use draindeck.Base.Action.{Action, ◌>>=◌, ◌>>◌, return, raise}
use draindeck.Queue.Selection.{TerminalExclusion}
use draindeck.Queue.Planner.{is_nil}
use draindeck.Recovery.Containment.{ControllerIdentityState, dead}
use draindeck.Dashboard.Commands.{
  Store, Command, RunRequest, raised, invalid_at_dequeue, dirty_at_dequeue, is_queued,
  is_abnormal_exit, is_acknowledged, find_where, is_some, update_row,
}
use draindeck.Dashboard.Machine.{
  Machine, Desk, Configured, CommandView, get_command, asking, reading_clock, storing, reading,
  clean_worktree,
}
use draindeck.Dashboard.RunPlan.{RunPlan, plan_run}
use draindeck.Dashboard.Transactions.{
  same_request, normalized, has_key, new_command, insert_row, refuse, complete, claim_transaction,
  cancel_transaction, acknowledge_transaction,
}

-- What `enqueue_command` returns: a command, or nothing to run.
pub data Enqueued : Type 0 where
  command : CommandView → Enqueued
  noop : List TerminalExclusion → Enqueued

-- `isinstance(exc, DashboardApiError)`
unfoldable pub is_api_error : Error → Bool
is_api_error not_found = true
is_api_error idempotency_key_reused = true
is_api_error issues_revision_conflict = true
is_api_error projection_unavailable = true
is_api_error selection_refused = true
is_api_error worktree_not_clean = true
is_api_error configured_issues = true
is_api_error _ = false

module _ {World : Type 0} (machine : Machine World) where
  abbrev pub on_store {ℓ} : {T : Type ℓ} → (Store → T × Store) → Action (Desk World) T
  on_store f d = let (v, s) = f d.store in (ok v, record d { store = s })

  abbrev pub existing_command :
      RunRequest → Option Command → Action (Desk World) Enqueued → Action (Desk World) Enqueued
  existing_command request none otherwise = otherwise
  existing_command request (some row) otherwise =
      elim (same_request row.normalized_request request) [
        | false ↦ raise idempotency_key_reused
        | true ↦ do found ← get_command machine row.id; return (command found)
      ]

  -- The INSERT, and the fallback on the unique index: another request may have come between.
  unfoldable pub insert_command :
      ℕ
      → String
      → Option (List String)
      → String
      → String
      → RunRequest
      → Action (Desk World) Enqueued
  unfolding find_where insert_row new_command same_request get_command
  insert_command repo mode stored_ids expected key request = do
    now ← reading_clock machine
    clash ← reading machine (λ s. find_where (has_key repo key) s.commands)
    existing_command request clash do
      n ← reading machine (λ s. s.next_id)
      storing machine
          (insert_row (λ n. new_command n repo mode stored_ids expected key request now))
      found ← get_command machine n
      return (command found)

  abbrev pub stored_ids : String → List String → Option (List String)
  stored_ids mode ordered = if mode == "SELECTED" then some ordered else none

  abbrev pub only_clean : Bool → Action (Desk World) Enqueued → Action (Desk World) Enqueued
  only_clean true next = next
  only_clean false next = raise worktree_not_clean

  -- What follows a plan: a refusal, nothing to run, or the preflight and the row.
  unfoldable pub enqueue_planned :
      ℕ → String → String → String → RunRequest → RunPlan → Action (Desk World) Enqueued
  unfolding insert_command
  enqueue_planned repo mode expected key request plan = elim plan.result.is_ok [
    | false ↦ raise selection_refused
    | true ↦ elim (is_nil plan.result.ordered_ids) [
      | true ↦ return (noop plan.result.excluded)
      | false ↦ do
        clean ← clean_worktree machine machine.worktree_clean repo
        only_clean clean (
            insert_command repo mode (stored_ids mode plan.result.ordered_ids) expected key request)
    ]
  ]

  -- enqueue_command
  unfoldable pub enqueue_command :
      ℕ → String → Option (List String) → String → String → Action (Desk World) Enqueued
  unfolding find_where normalized enqueue_planned plan_run same_request get_command
  enqueue_command repo mode issue_ids expected key = do
    existing ← reading machine (λ s. find_where (has_key repo key) s.commands)
    existing_command (normalized mode issue_ids expected) existing do
      plan ← plan_run machine repo mode issue_ids expected
      enqueue_planned repo mode expected key (normalized mode issue_ids expected) plan

  abbrev pub shown_claim : Option ℕ → Action (Desk World) (Option CommandView)
  shown_claim none = return none
  shown_claim (some n) = do found ← get_command machine n; return (some found)

  -- claim_next_launchable_command
  unfoldable pub claim_next_launchable_command : ℕ → Action (Desk World) (Option CommandView)
  unfolding claim_transaction get_command
  claim_next_launchable_command repo = do
    now ← reading_clock machine
    taken ← on_store (claim_transaction repo now)
    shown_claim taken

  -- One change of the row of a command, which is then read back.
  abbrev pub rewrite : ℕ → (String → Command → Command) → Action (Desk World) CommandView
  unfolding update_row get_command
  rewrite n change = do
    now ← reading_clock machine
    storing machine (update_row n (change now))
    get_command machine n

  abbrev pub attempt {ℓ} : {T : Type ℓ} → Action (Desk World) T → Action (Desk World) (Result T)
  attempt m d = let (r, d') = m d in (ok r, d')

  abbrev pub revalidate_clean : Bool → CommandView → Action (Desk World) CommandView
  unfolding update_row get_command
  revalidate_clean true view = return view
  revalidate_clean false view = rewrite view.row.id (refuse dirty_at_dequeue)

  -- The tests behind a plan at the time of dequeue.
  unfoldable pub revalidate_planned : CommandView → RunPlan → Action (Desk World) CommandView
  unfolding update_row get_command
  revalidate_planned view plan = elim plan.result.is_ok [
    | false ↦ rewrite view.row.id (refuse invalid_at_dequeue)
    | true ↦ elim (is_nil plan.result.ordered_ids) [
      | true ↦ rewrite view.row.id complete
      | false ↦ do
        clean ← clean_worktree machine machine.worktree_clean view.row.repository_id
        revalidate_clean clean view
    ]
  ]

  abbrev pub refuse_raised : Bool → CommandView → Error → Action (Desk World) CommandView
  unfolding update_row get_command
  refuse_raised true view e = rewrite view.row.id (refuse (raised e))
  refuse_raised false view e = raise e

  abbrev pub revalidate_outcome : CommandView → Result RunPlan → Action (Desk World) CommandView
  unfolding revalidate_planned is_api_error
  revalidate_outcome view (ok plan) = revalidate_planned view plan
  revalidate_outcome view (err e) = refuse_raised (is_api_error e) view e

  -- revalidate_claimed_command
  unfoldable pub revalidate_claimed_command : CommandView → Action (Desk World) CommandView
  unfolding plan_run revalidate_planned is_api_error
  revalidate_claimed_command view = do
    outcome ← attempt (
        plan_run machine view.row.repository_id view.row.mode view.row.issue_ids
          view.row.issues_digest)
    revalidate_outcome view outcome

  -- A command of another repository is not found.
  abbrev pub in_repository : ℕ → ℕ → Action (Desk World) CommandView
  unfolding get_command
  in_repository repo n = do
    view ← get_command machine n
    elim (nat_eq view.row.repository_id repo) [ true ↦ return view | false ↦ raise not_found ]

  abbrev pub after_cancel : ℕ → Bool → Action (Desk World) CommandView
  after_cancel n true = get_command machine n
  after_cancel n false = get_command machine n >> raise cancel_not_queued

  -- cancel_queued_command
  unfoldable pub cancel_queued_command : ℕ → ℕ → Action (Desk World) CommandView
  unfolding cancel_transaction get_command
  cancel_queued_command repo n = do
    view ← in_repository repo n
    elim (is_queued view.row.status) [
      | false ↦ raise cancel_not_queued
      | true ↦ do
        now ← reading_clock machine
        changed ← on_store (cancel_transaction repo n now)
        after_cancel n changed
    ]

  abbrev pub is_dead : ControllerIdentityState → Bool
  is_dead dead = true
  is_dead _ = false

  -- Gate 2: a correlated run has an outcome.
  abbrev pub run_is_terminal : CommandView → Bool
  run_is_terminal view = elim view.row.run_id_correlation [
    | none ↦ true
    | some run_id ↦ is_some view.runtime_outcome
  ]

  abbrev pub target_raises : Bool → Error → Action (Desk World) (Unit {0})
  target_raises true e = raise ack_target_unverifiable
  target_raises false e = raise e

  abbrev pub target_checked : Result Configured → Action (Desk World) (Unit {0})
  unfolding is_api_error
  target_checked (ok configured) = return tt
  target_checked (err e) = target_raises (is_api_error e) e

  -- Gate 3: the configured issues can be read.
  abbrev pub verify_target : ℕ → Action (Desk World) (Unit {0})
  verify_target repo = do
    outcome ← attempt (asking machine (machine.get_configured_issues repo))
    target_checked outcome

  abbrev pub gate : Bool → Error → Action (Desk World) (Unit {0})
  gate true e = return tt
  gate false e = raise e

  -- The transaction, and what the row then says.
  unfoldable pub acknowledge_final : CommandView → Action (Desk World) CommandView
  unfolding acknowledge_transaction get_command
  acknowledge_final view = do
    now ← reading_clock machine
    storing machine (acknowledge_transaction view.row.id now)
    final ← get_command machine view.row.id
    gate (is_acknowledged final.row.status) ack_not_abnormal
    return final

  -- The gates, the transaction, and what the row then says.
  unfoldable pub acknowledge_gated : ℕ → CommandView → Action (Desk World) CommandView
  unfolding acknowledge_final is_api_error
  acknowledge_gated repo view = do
    gate (is_abnormal_exit view.row.status) ack_not_abnormal
    state ← asking machine (machine.probe view.row.process_pid view.row.process_creation_time)
    gate (is_dead state) ack_process_not_terminal
    gate (run_is_terminal view) ack_run_not_terminal
    verify_target repo
    acknowledge_final view

  -- acknowledge_abnormal_command
  unfoldable pub acknowledge_abnormal_command : ℕ → ℕ → Action (Desk World) CommandView
  unfolding acknowledge_gated
  acknowledge_abnormal_command repo n = do
    view ← in_repository repo n
    elim (is_acknowledged view.row.status) [
      | true ↦ return view
      | false ↦ acknowledge_gated repo view
    ]
