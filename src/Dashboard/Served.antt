-- ===== src/Dashboard/Served.antt =====
-- An enqueue and a claim keep the invariant of the tables.
use draindeck.Base.{
  ℕ, String, Bool, true, false, Option, none, some, List, ◌≡◌, refl, ap, subst, Bool-cases, inl,
  inr,
}
use draindeck.Base.Lists.{In}
use draindeck.Base.Action.{Ends, follow-Ends, keep-Ends, any-Ends, Ends-state, Ends-weaken}
use draindeck.Queue.Planner.{is_nil}
use draindeck.Dashboard.Commands.{RunRequest, is_some, find_where}
use draindeck.Dashboard.Transactions.{
  new_command, insert_row, has_key, claim_transaction, normalized,
}
use draindeck.Dashboard.Machine.{Machine, Desk, CommandView, get_command, clean_worktree}
use draindeck.Dashboard.RunPlan.{RunPlan, plan_run}
use draindeck.Dashboard.RunQueue.{
  insert_command, enqueue_planned, enqueue_command, stored_ids, only_clean,
  claim_next_launchable_command, shown_claim,
}
use draindeck.Dashboard.Slots.{Slots}
use draindeck.Dashboard.Kept.{insert_row-Slots, claim_transaction-Slots}
use draindeck.Dashboard.Effects.{
  Safe, Shown, get_command-Ends, plan_run-kept, clean_worktree-kept, existing_command-Ends,
}

module _ {World : Type 0} (machine : Machine World) where
  -- A command that is read at the end.
  pub shown_last :
      (n : ℕ) (d : Desk World) → Safe machine d → Safe machine (get_command machine n d).1
  shown_last n d h = Ends-state (Safe machine) (get_command machine n d) (
      Ends-weaken (Shown machine) (λ _. Safe machine) (Safe machine) (Safe machine)
        (get_command machine n d) (get_command-Ends machine n d h) (λ v s shown. shown.0)
        (λ s k. k))

  insert_command-Safe :
      (repo : ℕ) (mode : String) (ids : Option (List String)) (expected key : String)
      (request : RunRequest) (d : Desk World)
      → Safe machine d
      → Safe machine (insert_command machine repo mode ids expected key request d).1
  unfolding insert_command new_command
  insert_command-Safe repo mode ids expected key request d h =
      existing_command-Ends machine request (find_where (has_key repo key) d.store.commands) _ d h
        λ free.
          let row =
            λ (n : ℕ). new_command n repo mode ids expected key request (machine.now d.world) in
          let inserted = record d { store = insert_row row d.store } in
          Ends-state (Safe machine) _ (
            keep-Ends (Safe machine) (λ _. Safe machine)
              (get_command machine d.store.next_id inserted) _
              (shown_last d.store.next_id inserted
                (insert_row-Slots d.store row (λ n. refl) (λ n. refl) (ap is_some free) h))
              λ v s k. k)

  enqueue_planned-Safe :
      (repo : ℕ) (mode expected key : String) (request : RunRequest) (plan : RunPlan)
      (d : Desk World)
      → Safe machine d
      → Safe machine (enqueue_planned machine repo mode expected key request plan d).1
  unfolding enqueue_planned
  enqueue_planned-Safe repo mode expected key request plan d h =
      elim (Bool-cases plan.result.is_ok) [
        | inr refused ↦ rw (refused, enqueue_planned) h
        | inl fine ↦ elim (Bool-cases (is_nil plan.result.ordered_ids)) [
          | inl nothing ↦ rw (fine, nothing, enqueue_planned) h
          | inr runs ↦
              rw (fine, runs, enqueue_planned)
                (Ends-state (Safe machine) _ (
                  keep-Ends (Safe machine) (λ _. Safe machine)
                    (clean_worktree machine machine.worktree_clean repo d) _
                    (clean_worktree-kept machine Slots machine.worktree_clean repo d h)
                    (λ clean s k. any-Ends (Safe machine) _ (after clean s k))))
        ]
      ]
    where
      after :
          (clean : Bool) (s : Desk World)
          → Safe machine s
          → Safe machine
              (only_clean machine clean
                (insert_command machine repo mode
                  (stored_ids machine mode plan.result.ordered_ids)
                  expected
                  key
                  request)
                s).1
      after true s k =
          insert_command-Safe repo mode (stored_ids machine mode plan.result.ordered_ids) expected
            key request s k
      after false s k = k

  pub enqueue_command-Safe :
      (repo : ℕ) (mode : String) (ids : Option (List String)) (expected key : String)
      (d : Desk World)
      → Safe machine d
      → Safe machine (enqueue_command machine repo mode ids expected key d).1
  unfolding enqueue_command
  enqueue_command-Safe repo mode ids expected key d h =
      existing_command-Ends machine (normalized mode ids expected)
        (find_where (has_key repo key) d.store.commands) _ d h
        λ free. Ends-state (Safe machine) _ (
          keep-Ends (Safe machine) (λ _. Safe machine) (plan_run machine repo mode ids expected d) _
            (plan_run-kept machine Slots repo mode ids expected d h)
            λ plan s k.
              any-Ends (Safe machine) _ (
                enqueue_planned-Safe repo mode expected key (normalized mode ids expected) plan s
                  k))

  -- A claim returns a command of the table.
  abbrev pub Claimed : Option CommandView → Desk World → Type 0
  Claimed o d =
      Safe machine d × ((view : CommandView) → o ≡ some view → In view.row d.store.commands)

  shown_claim-Ends :
      (o : Option ℕ) (d : Desk World)
      → Safe machine d
      → Ends Claimed (Safe machine) (shown_claim machine o d)
  unfolding get_command
  shown_claim-Ends none d h = (h, λ view e. absurd (cc))
  shown_claim-Ends (some n) d h =
      follow-Ends (Shown machine) Claimed (Safe machine) (get_command machine n d) _
        (get_command-Ends machine n d h)
        λ v s k.
          (k.0, λ view e. subst (λ (w : CommandView). In w.row s.store.commands) (some-same e) k.1)
    where
      some-same : {a b : CommandView} → some a ≡ some b → a ≡ b
      some-same e = cc

  pub claim-Ends :
      (repo : ℕ) (d : Desk World)
      → Safe machine d
      → Ends Claimed (Safe machine) (claim_next_launchable_command machine repo d)
  unfolding claim_next_launchable_command
  claim-Ends repo d h =
      let taken = claim_transaction repo (machine.now d.world) d.store in
      shown_claim-Ends taken.0 (record d { store = taken.1 })
        (claim_transaction-Slots d.store repo (machine.now d.world) h)
