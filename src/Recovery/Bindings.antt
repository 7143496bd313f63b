-- ===== src/Recovery/Bindings.antt =====
-- Check 2 of src/runtime/recovery/bindings.py: the commits that a crash left without a witness.
use draindeck.Base.{
  String, Bool, true, false, not, ◌&&◌, Option, none, some, List, [], ◌∷◌, ◌==◌, string_comparable,
}
use draindeck.Base.Json.{Value, null, str, bool, truthy, end, field}
use draindeck.Base.Result.{Result, tamper_error}
use draindeck.Base.Action.{Action, ◌>>=◌, ◌>>◌, return, raise}
use draindeck.Events.Schema.{Event, commit_created}
use draindeck.Events.Projection.View.{ExecutionView, values}
use draindeck.Recovery.Reconciler.{Check}
use draindeck.Recovery.Containment.{join}

-- What check 2 calls of a RepositoryAdapter (src/runtime/repo/adapter.py), and the clock. Commits
-- and branches that come out of a payload are passed on as they are.
pub record Adapter (World : Type 0) : Type 0 where
  pub is_ancestor : Value → Value → Action World Bool
  pub find_merge_commit : Value → Value → Action World (Option String)
  pub head_of : Value → Action World (Option String)
  pub current_commit : Action World String
  pub checkout_branch : String → Value → Action World (Unit {0})
  pub merge_to : Value → Value → String → Action World String
  pub utcnow : World → String

-- The CommitCreated fact: the merge commit, and whether it was found rather than made.
unfoldable pub commit_event : ExecutionView → Value → String × Bool → String → Event
commit_event view target (mc, backfilled) ts = record {
  type = commit_created;
  payload =
      field "merge_commit" (str mc)
        (field "target_branch" target (field "backfilled" (bool backfilled) end));
  issue_id = some view.issue_id;
  execution_id = some view.execution_id;
  run_id = null;
  ts = ts;
  event_id = 0;
}

module _ {World : Type 0} (adapter : Adapter World) (target_branch : String) where
  abbrev target_of : Value → Value
  target_of v = elim (truthy v) [ true ↦ v | false ↦ str target_branch ]

  abbrev pub witnessed : Option String → Action World (String × Bool)
  witnessed none = raise tamper_error
  witnessed (some mc) = return (mc, true)

  -- HEAD leaves the target branch, onto the issue's branch at the execution's base.
  abbrev pub leave_target : Bool → String → Option Value → Action World (Unit {0})
  leave_target false iid base = return tt
  leave_target true iid none = raise tamper_error
  leave_target true iid (some null) = raise tamper_error
  leave_target true iid (some base) = adapter.checkout_branch (join "issue/" iid) base

  abbrev is_at : Option String → String → Bool
  is_at none commit = false
  is_at (some head) commit = head == commit

  -- The merge that did not happen.
  unfoldable pub redo_merge : ExecutionView → Value → Value → Action World (String × Bool)
  unfolding join
  redo_merge view tip target = do
    head ← adapter.head_of target
    current ← adapter.current_commit
    leave_target (is_at head current) view.issue_id view.base_commit
    mc ← adapter.merge_to target tip (join "merge " view.issue_id)
    return (mc, false)

  abbrev pub merge_by : Bool → ExecutionView → Value → Value → Action World (String × Bool)
  merge_by true view tip target = adapter.find_merge_commit target tip >>= witnessed
  merge_by false view tip target = redo_merge view tip target

  abbrev reading_clock : Action World String
  reading_clock w = (Result.ok (adapter.utcnow w), w)

  -- One execution with an intent and no fact.
  unfoldable pub witness_commit : ExecutionView → Value → Value → Action World Event
  unfolding redo_merge commit_event
  witness_commit view null target = raise tamper_error
  witness_commit view tip target = do
    merged ← adapter.is_ancestor tip target
    mc ← merge_by merged view tip target
    ts ← reading_clock
    return (commit_event view target mc ts)

  unfoldable pub witness_all : List ExecutionView → Action World (List Event)
  unfolding witness_commit truthy
  witness_all [] = return []
  witness_all (view ∷ views) = elim (view.commit_intended && not view.commit_created) [
    | false ↦ witness_all views
    | true ↦ do
      ev ← witness_commit view view.intent_end_commit (target_of view.intent_target_branch)
      evs ← witness_all views
      return (ev ∷ evs)
  ]

  -- check_unwitnessed_commit: it has no attribute `repairs`.
  unfoldable pub check_unwitnessed_commit : Check World
  unfolding witness_all
  check_unwitnessed_commit p = do evs ← witness_all (values p.executions); return (evs, [])
