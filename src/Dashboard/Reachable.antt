-- ===== src/Dashboard/Reachable.antt =====
-- The invariant of the tables holds after any requests.
use draindeck.Base.{String, List, [], ◌∷◌, Bool-cases, inl, inr}
use draindeck.Dashboard.Commands.{empty_store, repository_has_active_command}
use draindeck.Dashboard.Machine.{Machine, Desk}
use draindeck.Dashboard.Requests.{
  Call, serve, serve_all, enqueues, drains, resumes, unregisters, cancels, acknowledges, restarts,
}
use draindeck.Dashboard.Slots.{Slots, empty-Slots}
use draindeck.Dashboard.Kept.{resume-Slots, delete_commands-Slots, reconcile_claims-Slots}
use draindeck.Dashboard.Served.{enqueue_command-Safe}
use draindeck.Dashboard.ServedAnswers.{cancel-Safe, acknowledge-Safe}
use draindeck.Dashboard.LaunchSlots.{try_launch_next-Safe}

module _ {World : Type 0} (machine : Machine World) (upper : String → String)
    (executable : String) where
  serve-Slots :
      (call : Call) (d : Desk World)
      → Slots d.store
      → Slots (serve machine upper executable call d).store
  unfolding serve
  serve-Slots (enqueues repo mode ids digest key) d h =
      enqueue_command-Safe machine repo mode ids digest key d h
  serve-Slots (drains repo) d h = try_launch_next-Safe machine upper executable repo d h
  serve-Slots (resumes repo) d h = resume-Slots d.store repo h
  serve-Slots (unregisters repo) d h =
      elim (Bool-cases (repository_has_active_command d.store repo)) [
        | inl active ↦ rw (active, serve) h
        | inr idle ↦ rw (idle, serve) (delete_commands-Slots d.store repo h)
      ]
  serve-Slots (cancels repo n) d h = cancel-Safe machine repo n d h
  serve-Slots (acknowledges repo n) d h = acknowledge-Safe machine repo n d h
  serve-Slots restarts d h = reconcile_claims-Slots d.store h

  pub serve_all-Slots :
      (calls : List Call) (d : Desk World)
      → Slots d.store
      → Slots (serve_all machine upper executable calls d).store
  unfolding serve_all
  serve_all-Slots [] d h = h
  serve_all-Slots (call ∷ calls) d h =
      serve_all-Slots calls (serve machine upper executable call d) (serve-Slots call d h)

  -- Whatever requests the dashboard serves from empty tables on, whatever the world answers and
  -- whichever of them raise: a repository has at most one command that is claimed, launched, of
  -- unknown ownership or abnormally ended; at most one command for each idempotency key; and ids
  -- that rise in the order of the rows, all below the next one.
  pub serve_all-empty-Slots :
      (calls : List Call) (w : World)
      → Slots
          (serve_all machine upper executable calls
            (record { store = empty_store; live = []; world = w })).store
  serve_all-empty-Slots calls w =
      serve_all-Slots calls (record { store = empty_store; live = []; world = w }) empty-Slots
