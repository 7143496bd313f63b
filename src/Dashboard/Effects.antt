-- ===== src/Dashboard/Effects.antt =====
-- The operations of the queue keep the invariant of the tables.
use draindeck.Base.{
  ℕ, String, Bool, true, false, Option, none, some, List, ◌≡◌, refl, Bool-cases, inl, inr, ◌==◌,
  string_comparable,
}
use draindeck.Base.Lists.{In}
use draindeck.Base.Result.{Error, issues_revision_conflict, projection_unavailable}
use draindeck.Base.Action.{Action, raise, Ends, follow-Ends, keep-Ends, Ends-state}
use draindeck.Dashboard.Commands.{
  Store, Command, RunRequest, is_blocking, find_where, has_id, update_row,
}
use draindeck.Dashboard.Transactions.{same_request}
use draindeck.Dashboard.Machine.{
  Machine, Desk, CommandView, get_command, shown, asking, clean_worktree, view_of,
}
use draindeck.Dashboard.RunPlan.{plan_run, demand}
use draindeck.Dashboard.RunQueue.{Enqueued, existing_command, rewrite}
use draindeck.Dashboard.Rows.{find_where-In}
use draindeck.Dashboard.Slots.{Slots}
use draindeck.Dashboard.Kept.{released-Quiet, update_row-Slots}

module _ {World : Type 0} (machine : Machine World) where
  abbrev pub Safe : Desk World → Type 0
  Safe d = Slots d.store

  -- The command that is returned stands in the table.
  abbrev pub Shown : CommandView → Desk World → Type 0
  Shown v d = Slots d.store × In v.row d.store.commands

  shown-Ends :
      (d : Desk World) (n : ℕ) (o : Option Command)
      → find_where (has_id n) d.store.commands ≡ o
      → Safe d
      → Ends Shown Safe (shown machine d o, d)
  unfolding view_of
  shown-Ends d n none e h = h
  shown-Ends d n (some c) e h = (h, (find_where-In (has_id n) d.store.commands e).0)

  pub get_command-Ends :
      (n : ℕ) (d : Desk World) → Safe d → Ends Shown Safe (get_command machine n d)
  unfolding get_command
  get_command-Ends n d h = shown-Ends d n (find_where (has_id n) d.store.commands) refl h

  pub rewrite-Ends :
      (n : ℕ) (change : String → Command → Command) (d : Desk World)
      → Slots (update_row n (change (machine.now d.world)) d.store)
      → Ends Shown Safe (rewrite machine n change d)
  unfolding get_command update_row
  rewrite-Ends n change d h =
      get_command-Ends n (record d { store = update_row n (change (machine.now d.world)) d.store })
        h

  -- A change that leaves the command outside the active ones.
  pub release-Ends :
      (n : ℕ) (change : String → Command → Command) (d : Desk World)
      → ((now : String) (c : Command) → (change now c).id ≡ c.id)
      → ((now : String) (c : Command) → (change now c).repository_id ≡ c.repository_id)
      → ((now : String) (c : Command) → (change now c).idempotency_key ≡ c.idempotency_key)
      → ((now : String) (c : Command) → is_blocking (change now c).status ≡ false)
      → Safe d
      → Ends Shown Safe (rewrite machine n change d)
  release-Ends n change d i r k off h =
      let now = machine.now d.world in
      rewrite-Ends n change d (
        update_row-Slots d.store n (change now)
          (released-Quiet d.store.commands (has_id n) (change now) (i now) (r now) (k now)
            (off now))
          h)

  demand-Ends :
      (P : Store → Type 0) (b : Bool) (e : Error) (d : Desk World)
      → P d.store
      → P (demand machine b (raise e) d).1.store
  demand-Ends P true e d h = h
  demand-Ends P false e d h = h

  -- A plan only reads.
  pub plan_run-kept :
      (P : Store → Type 0) (repo : ℕ) (mode : String) (ids : Option (List String))
      (expected : String) (d : Desk World)
      → P d.store
      → P (plan_run machine repo mode ids expected d).1.store
  unfolding plan_run
  plan_run-kept P repo mode ids expected d h =
      let R = λ (e : Desk World). P e.store in
      Ends-state R (plan_run machine repo mode ids expected d) (
        keep-Ends R (λ _. R) (asking machine (machine.get_configured_issues repo) d) _ h
          λ configured d1 h1.
            keep-Ends R (λ _. R)
              (demand machine (configured.issues_file_revision == expected)
                (raise issues_revision_conflict) d1)
              _
              (demand-Ends P (configured.issues_file_revision == expected) issues_revision_conflict
                d1 h1)
              λ _ d2 h2.
                keep-Ends R (λ _. R)
                  (demand machine (configured.read_model_status == "READY")
                    (raise projection_unavailable) d2)
                  _
                  (demand-Ends P (configured.read_model_status == "READY") projection_unavailable d2
                    h2)
                  λ _ d3 h3. h3)

  pub clean_worktree-kept :
      (P : Store → Type 0) (preflight : Option (ℕ → Action World Bool)) (repo : ℕ) (d : Desk World)
      → P d.store
      → P (clean_worktree machine preflight repo d).1.store
  clean_worktree-kept P none repo d h = h
  clean_worktree-kept P (some f) repo d h = h

  pub existing_command-Ends :
      (request : RunRequest) (o : Option Command) (otherwise : Action (Desk World) Enqueued)
      (d : Desk World)
      → Safe d
      → (o ≡ none → Safe (otherwise d).1)
      → Safe (existing_command machine request o otherwise d).1
  unfolding same_request get_command
  existing_command-Ends request none otherwise d h next = next refl
  existing_command-Ends request (some row) otherwise d h next =
      elim (Bool-cases (same_request row.normalized_request request)) [
        | inr other ↦ rw (other, existing_command) h
        | inl same ↦
            rw (same, existing_command)
              (Ends-state Safe _ (
                follow-Ends Shown (λ _. Safe) Safe (get_command machine row.id d) _
                  (get_command-Ends row.id d h) λ view d1 shown. shown.0))
      ]
