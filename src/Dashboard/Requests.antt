-- ===== src/Dashboard/Requests.antt =====
-- The requests that the dashboard serves (src/draindeck_dashboard/app.py, queue_scheduler.py), each
-- as one step: between two awaits of the event loop no other request comes in.
use draindeck.Base.{ℕ, String, true, false, Option, List, [], ◌∷◌}
use draindeck.Dashboard.Commands.{repository_has_active_command}
use draindeck.Dashboard.Transactions.{
  resume_repository_queue, delete_commands_for_repository, reconcile_ambiguous_claims,
}
use draindeck.Dashboard.Machine.{Machine, Desk}
use draindeck.Dashboard.RunQueue.{
  enqueue_command, cancel_queued_command, acknowledge_abnormal_command,
}
use draindeck.Dashboard.Launcher.{try_launch_next}

pub data Call : Type 0 where
  enqueues :
      (repo : ℕ) (mode : String) (issue_ids : Option (List String)) (digest key : String) → Call
  drains resumes unregisters : (repo : ℕ) → Call
  cancels acknowledges : (repo command : ℕ) → Call
  restarts : Call

module _ {World : Type 0} (machine : Machine World) (upper : String → String)
    (executable : String) where
  -- The store and the children behind a request, whether it returned or raised. A restart loses the
  -- handles, and an active repository is not unregistered.
  unfoldable pub serve : Call → Desk World → Desk World
  unfolding repository_has_active_command
  serve (enqueues repo mode issue_ids digest key) d =
      (enqueue_command machine repo mode issue_ids digest key d).1
  serve (drains repo) d = (try_launch_next machine upper executable repo d).1
  serve (resumes repo) d = record d { store = resume_repository_queue repo d.store }
  serve (unregisters repo) d = elim (repository_has_active_command d.store repo) [
    | true ↦ d
    | false ↦ record d { store = delete_commands_for_repository repo d.store }
  ]
  serve (cancels repo n) d = (cancel_queued_command machine repo n d).1
  serve (acknowledges repo n) d = (acknowledge_abnormal_command machine repo n d).1
  serve restarts d = record d { store = reconcile_ambiguous_claims d.store; live = [] }

  unfoldable pub serve_all : List Call → Desk World → Desk World
  unfolding serve
  serve_all [] d = d
  serve_all (call ∷ calls) d = serve_all calls (serve call d)
