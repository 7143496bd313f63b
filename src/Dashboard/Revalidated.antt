-- ===== src/Dashboard/Revalidated.antt =====
-- The revalidation of a claimed command keeps the invariant of the tables, and returns a command
-- that stands in them.
use draindeck.Base.{Bool, true, false, refl, Bool-cases, inl, inr}
use draindeck.Base.Lists.{In}
use draindeck.Base.Result.{Result, Error, ok, err}
use draindeck.Base.Action.{Ends, follow-Ends, any-Ends, Ends-weaken}
use draindeck.Queue.Planner.{is_nil}
use draindeck.Dashboard.Commands.{Store, update_row, raised, invalid_at_dequeue, dirty_at_dequeue}
use draindeck.Dashboard.Transactions.{refuse, complete}
use draindeck.Dashboard.Machine.{Machine, Desk, CommandView, get_command, clean_worktree}
use draindeck.Dashboard.RunPlan.{RunPlan, plan_run}
use draindeck.Dashboard.RunQueue.{
  revalidate_planned, revalidate_clean, refuse_raised, revalidate_outcome,
  revalidate_claimed_command, is_api_error,
}
use draindeck.Dashboard.Slots.{Slots}
use draindeck.Dashboard.Effects.{Safe, Shown, release-Ends, plan_run-kept, clean_worktree-kept}

module _ {World : Type 0} (machine : Machine World) where
  abbrev pub Held : CommandView → Store → Type 0
  Held view s = Slots s × In view.row s.commands

  revalidate_clean-Ends :
      (clean : Bool) (view : CommandView) (d : Desk World)
      → Held view d.store
      → Ends (Shown machine) (Safe machine) (revalidate_clean machine clean view d)
  unfolding update_row get_command
  revalidate_clean-Ends true view d h = h
  revalidate_clean-Ends false view d h =
      release-Ends machine view.row.id (refuse dirty_at_dequeue) d (λ n c. refl) (λ n c. refl)
        (λ n c. refl) (λ n c. refl) h.0

  revalidate_planned-Ends :
      (view : CommandView) (plan : RunPlan) (d : Desk World)
      → Held view d.store
      → Ends (Shown machine) (Safe machine) (revalidate_planned machine view plan d)
  unfolding revalidate_planned update_row get_command
  revalidate_planned-Ends view plan d h = elim (Bool-cases plan.result.is_ok) [
    | inr refused ↦
        rw (refused, revalidate_planned)
          (release-Ends machine view.row.id (refuse invalid_at_dequeue) d (λ n c. refl)
            (λ n c. refl) (λ n c. refl) (λ n c. refl) h.0)
    | inl fine ↦ elim (Bool-cases (is_nil plan.result.ordered_ids)) [
      | inl nothing ↦
          rw (fine, nothing, revalidate_planned)
            (release-Ends machine view.row.id complete d (λ n c. refl) (λ n c. refl) (λ n c. refl)
              (λ n c. refl) h.0)
      | inr runs ↦
          let kept =
            clean_worktree-kept machine (Held view) machine.worktree_clean view.row.repository_id d
              h in
          rw (fine, runs, revalidate_planned)
            (follow-Ends (λ _ e. Held view e.store) (Shown machine) (Safe machine)
              (clean_worktree machine machine.worktree_clean view.row.repository_id d) _
              (Ends-weaken (λ _ e. Held view e.store) (λ _ e. Held view e.store)
                (λ e. Held view e.store) (Safe machine)
                (clean_worktree machine machine.worktree_clean view.row.repository_id d)
                (any-Ends (λ e. Held view e.store)
                  (clean_worktree machine machine.worktree_clean view.row.repository_id d) kept)
                (λ v s k. k) (λ s k. k.0))
              (λ clean s k. revalidate_clean-Ends clean view s k))
    ]
  ]

  refuse_raised-Ends :
      (b : Bool) (view : CommandView) (e : Error) (d : Desk World)
      → Held view d.store
      → Ends (Shown machine) (Safe machine) (refuse_raised machine b view e d)
  unfolding update_row get_command
  refuse_raised-Ends true view e d h =
      release-Ends machine view.row.id (refuse (raised e)) d (λ n c. refl) (λ n c. refl)
        (λ n c. refl) (λ n c. refl) h.0
  refuse_raised-Ends false view e d h = h.0

  revalidate_outcome-Ends :
      (view : CommandView) (r : Result RunPlan) (d : Desk World)
      → Held view d.store
      → Ends (Shown machine) (Safe machine) (revalidate_outcome machine view r d)
  unfolding revalidate_planned is_api_error
  revalidate_outcome-Ends view (ok plan) d h = revalidate_planned-Ends view plan d h
  revalidate_outcome-Ends view (err e) d h = refuse_raised-Ends (is_api_error e) view e d h

  pub revalidate-Ends :
      (view : CommandView) (d : Desk World)
      → Held view d.store
      → Ends (Shown machine) (Safe machine) (revalidate_claimed_command machine view d)
  unfolding revalidate_claimed_command
  revalidate-Ends view d h =
      let r =
        plan_run machine view.row.repository_id view.row.mode view.row.issue_ids
          view.row.issues_digest d in
      revalidate_outcome-Ends view r.0 r.1 (
        plan_run-kept machine (Held view) view.row.repository_id view.row.mode view.row.issue_ids
          view.row.issues_digest d h)
