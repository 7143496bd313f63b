-- ===== src/Dashboard/LaunchSlots.antt =====
-- The launcher keeps the invariant of the tables: it makes no command active but by a claim.
use draindeck.Base.{
  ℕ, zero, suc, String, Bool, true, false, Option, none, some, ◌∷◌, ◌≡◌, refl, Bool-cases, inl, inr,
  arith,
}
use draindeck.Base.Json.{ℤ, pos, negsuc}
use draindeck.Base.Result.{Result, ok, err, os_error}
use draindeck.Base.Action.{Action, follow, Ends, follow-Ends, keep-Ends, any-Ends, Ends-state}
use draindeck.Recovery.Containment.{is_gone}
use draindeck.Dashboard.Commands.{
  Store, Command, Status, is_launched, is_claimed, is_blocking, find_where, update_row,
  has_launchable_command,
}
use draindeck.Dashboard.Machine.{Machine, Desk, CommandView, get_command, asking}
use draindeck.Dashboard.RunQueue.{
  claim_next_launchable_command, rewrite, attempt, revalidate_claimed_command,
}
use draindeck.Dashboard.Launcher.{
  start, start_failed, finish, fail, lose, exit_change, record_launch, known_time,
  launch_claimed_command, observe_exit, observe_gone, observe_child, reconcile_launched_command,
  holds, remove, launched_in, reconcile_found, preflight_if, launch_valid, launch_claim, launch_if,
  try_launch_next, build_launch_argv, build_runtime_launch_env,
}
use draindeck.Dashboard.Slots.{Slots}
use draindeck.Dashboard.Kept.{update_row-Slots, active-Quiet}
use draindeck.Dashboard.Effects.{Safe, Shown, get_command-Ends, rewrite-Ends, clean_worktree-kept}
use draindeck.Dashboard.Served.{Claimed, claim-Ends}
use draindeck.Dashboard.Revalidated.{Held, revalidate-Ends}

module _ {World : Type 0} (machine : Machine World) (upper : String → String)
    (executable : String) where
  known_time-kept :
      (P : Store → Type 0) (r : Result (Option String)) (d : Desk World)
      → P d.store
      → P (known_time machine upper executable r d).1.store
  known_time-kept P (ok time) d h = h
  known_time-kept P (err os_error) d h = h
  known_time-kept P (err e) d h = h

  -- A step that only asks, while a command is at hand.
  Held-Ends {ℓ} :
      {T : Type ℓ} (view : CommandView) (r : Result T × Desk World)
      (k : T → Action (Desk World) CommandView)
      → Held machine view r.1.store
      → ((v : T) (s : Desk World)
          → Held machine view s.store
          → Ends (Shown machine) (Safe machine) (k v s))
      → Ends (Shown machine) (Safe machine) (follow k r)
  Held-Ends view (ok v, s) k h next = next v s h
  Held-Ends view (err e, s) k h next = h.0

  -- A change of an active command, whose row is at hand.
  active-Ends :
      (view : CommandView) (change : String → Command → Command) (d : Desk World)
      → ((now : String) (c : Command) → (change now c).id ≡ c.id)
      → ((now : String) (c : Command) → (change now c).repository_id ≡ c.repository_id)
      → ((now : String) (c : Command) → (change now c).idempotency_key ≡ c.idempotency_key)
      → is_blocking view.row.status ≡ true
      → Held machine view d.store
      → Ends (Shown machine) (Safe machine) (rewrite machine view.row.id change d)
  active-Ends view change d i r k active h =
      let now = machine.now d.world in
      rewrite-Ends machine view.row.id change d (
        update_row-Slots d.store view.row.id (change now)
          (active-Quiet d.store view.row (change now) (i now) (r now) (k now) h.0.ordered h.1
            active)
          h.0)

  claimed_blocks : (st : Status) → is_claimed st ≡ true → is_blocking st ≡ true
  claimed_blocks st e = ground arith

  launched_blocks : (st : Status) → is_launched st ≡ true → is_blocking st ≡ true
  launched_blocks st e = ground arith

  record_launch-Ends :
      (view : CommandView) (r : Result ℕ) (d : Desk World)
      → is_claimed view.row.status ≡ true
      → Held machine view d.store
      → Ends (Shown machine) (Safe machine) (record_launch machine upper executable view r d)
  unfolding record_launch get_command update_row
  record_launch-Ends view (err os_error) d claimed h =
      active-Ends view start_failed d (λ n c. refl) (λ n c. refl) (λ n c. refl)
        (claimed_blocks view.row.status claimed) h
  record_launch-Ends view (err e) d claimed h = h.0
  record_launch-Ends view (ok pid) d claimed h =
      let probed = attempt machine (asking machine (machine.creation_time pid)) d in
      let kept : Held machine view probed.1.store = h in
      Held-Ends view
        (known_time machine upper executable (machine.creation_time pid d.world).0 probed.1) _
        (known_time-kept (Held machine view) (machine.creation_time pid d.world).0 probed.1 kept)
        λ created s k.
          active-Ends view (start pid created) (record s { live = view.row.id ∷ s.live })
            (λ n c. refl) (λ n c. refl) (λ n c. refl) (claimed_blocks view.row.status claimed) k

  launch_claimed-Ends :
      (view : CommandView) (config_path : String) (d : Desk World)
      → is_claimed view.row.status ≡ true
      → Held machine view d.store
      → Ends
          (Shown machine)
          (Safe machine)
          (launch_claimed_command machine upper executable view config_path d)
  unfolding launch_claimed_command
  launch_claimed-Ends view config_path d claimed h =
      Held-Ends view (asking machine (machine.auth_mode config_path) d) _ h λ mode s k.
        let argv =
          build_launch_argv executable config_path view.row.issues_digest view.row.mode
            view.row.issue_ids in
        let environment = build_runtime_launch_env upper (machine.environ s.world) mode in
        record_launch-Ends view (machine.popen argv environment s.world).0
          (asking machine (machine.popen argv environment) s).1 claimed k

  launch_valid-Safe :
      (repo : ℕ) (view : CommandView) (d : Desk World)
      → Held machine view d.store
      → Ends (Shown machine) (Safe machine) (launch_valid machine upper executable repo view d)
  unfolding launch_claimed_command
  launch_valid-Safe repo view d h = elim (Bool-cases (is_claimed view.row.status)) [
    | inr other ↦ rw (other, launch_valid) h
    | inl claimed ↦
        rw (claimed, launch_valid)
          (Held-Ends view (asking machine (machine.config_path repo) d) _ h
            λ config_path s k. launch_claimed-Ends view config_path s claimed k)
  ]

  launch_claim-Safe :
      (repo : ℕ) (o : Option CommandView) (d : Desk World)
      → ((view : CommandView) → o ≡ some view → Held machine view d.store)
      → Safe machine d
      → Safe machine (launch_claim machine upper executable repo o d).1
  unfolding revalidate_claimed_command
  launch_claim-Safe repo none d held h = h
  launch_claim-Safe repo (some view) d held h = Ends-state (Safe machine) _ (
      follow-Ends (Shown machine) (λ _. Safe machine) (Safe machine)
        (revalidate_claimed_command machine view d) _
        (revalidate-Ends machine view d (held view refl))
        λ valid s k.
          follow-Ends (Shown machine) (λ _. Safe machine) (Safe machine)
            (launch_valid machine upper executable repo valid s) _
            (launch_valid-Safe repo valid s k) λ final s2 k2. k2.0)

  launch_if-Safe :
      (b : Bool) (repo : ℕ) (d : Desk World)
      → Safe machine d
      → Safe machine (launch_if machine upper executable b repo d).1
  unfolding claim_next_launchable_command
  launch_if-Safe false repo d h = h
  launch_if-Safe true repo d h = Ends-state (Safe machine) _ (
      follow-Ends (Claimed machine) (λ _. Safe machine) (Safe machine)
        (claim_next_launchable_command machine repo d) _ (claim-Ends machine repo d h)
        λ o s k.
          any-Ends (Safe machine) _ (launch_claim-Safe repo o s (λ view e. (k.0, k.1 view e)) k.0))

  exit_change-Ends :
      (code : ℤ) (run_id : Option String) (view : CommandView) (d : Desk World)
      → is_blocking view.row.status ≡ true
      → Held machine view d.store
      → Ends
          (Shown machine)
          (Safe machine)
          (rewrite machine view.row.id (exit_change code run_id) d)
  exit_change-Ends (pos zero) run_id view d active h =
      active-Ends view (finish run_id) d (λ n c. refl) (λ n c. refl) (λ n c. refl) active h
  exit_change-Ends (pos (suc n)) run_id view d active h =
      active-Ends view (fail (pos (suc n)) run_id) d (λ n c. refl) (λ n c. refl) (λ n c. refl)
        active h
  exit_change-Ends (negsuc n) run_id view d active h =
      active-Ends view (fail (negsuc n) run_id) d (λ n c. refl) (λ n c. refl) (λ n c. refl) active h

  observe_exit-Ends :
      (view : CommandView) (o : Option ℤ) (d : Desk World)
      → is_blocking view.row.status ≡ true
      → Held machine view d.store
      → Ends (Shown machine) (Safe machine) (observe_exit machine upper executable view o d)
  unfolding get_command update_row
  observe_exit-Ends view none d active h = h
  observe_exit-Ends view (some code) d active h =
      let e = record d { live = remove view.row.id d.live } in
      Held-Ends view (asking machine (machine.confirmed_run view.row.repository_id view.row.id) e) _
        h λ run_id s k. exit_change-Ends code run_id view s active k

  observe_gone-Ends :
      (view : CommandView) (b : Bool) (d : Desk World)
      → is_blocking view.row.status ≡ true
      → Held machine view d.store
      → Ends (Shown machine) (Safe machine) (observe_gone machine upper executable view b d)
  unfolding get_command update_row
  observe_gone-Ends view false d active h = h
  observe_gone-Ends view true d active h =
      active-Ends view lose d (λ n c. refl) (λ n c. refl) (λ n c. refl) active h

  observe_child-Ends :
      (b : Bool) (view : CommandView) (d : Desk World)
      → is_blocking view.row.status ≡ true
      → Held machine view d.store
      → Ends (Shown machine) (Safe machine) (observe_child machine upper executable b view d)
  unfolding get_command update_row
  observe_child-Ends true view d active h =
      Held-Ends view (asking machine (machine.poll view.row.id) d) _ h
        λ code s k. observe_exit-Ends view code s active k
  observe_child-Ends false view d active h =
      Held-Ends view
        (asking machine (machine.probe view.row.process_pid view.row.process_creation_time) d) _ h
        λ state s k. observe_gone-Ends view (is_gone state) s active k

  reconcile-Ends :
      (view : CommandView) (d : Desk World)
      → Held machine view d.store
      → Ends
          (Shown machine)
          (Safe machine)
          (reconcile_launched_command machine upper executable view d)
  unfolding reconcile_launched_command
  reconcile-Ends view d h = elim (Bool-cases (is_launched view.row.status)) [
    | inr other ↦ rw (other, reconcile_launched_command) h
    | inl runs ↦
        rw (runs, reconcile_launched_command)
          (observe_child-Ends (holds view.row.id d.live) view d
            (launched_blocks view.row.status runs) h)
  ]

  reconcile_found-Safe :
      (o : Option Command) (d : Desk World)
      → Safe machine d
      → Safe machine (reconcile_found machine upper executable o d).1
  unfolding get_command reconcile_launched_command
  reconcile_found-Safe none d h = h
  reconcile_found-Safe (some row) d h = Ends-state (Safe machine) _ (
      follow-Ends (Shown machine) (λ _. Safe machine) (Safe machine) (get_command machine row.id d)
        _ (get_command-Ends machine row.id d h)
        λ view s k.
          follow-Ends (Shown machine) (λ _. Safe machine) (Safe machine)
            (reconcile_launched_command machine upper executable view s) _ (reconcile-Ends view s k)
            λ v s2 k2. k2.0)

  preflight_if-Safe :
      (b : Bool) (repo : ℕ) (d : Desk World)
      → Safe machine d
      → Safe machine (preflight_if machine upper executable b repo d).1
  preflight_if-Safe false repo d h = h
  preflight_if-Safe true repo d h =
      clean_worktree-kept machine Slots machine.worktree_clean repo d h

  pub try_launch_next-Safe :
      (repo : ℕ) (d : Desk World)
      → Safe machine d
      → Safe machine (try_launch_next machine upper executable repo d).1
  unfolding try_launch_next
  try_launch_next-Safe repo d h =
      let R = Safe machine in
      let Q = λ (v : Option CommandView) (s : Desk World). Safe machine s in
      let row = find_where (launched_in machine upper executable repo) d.store.commands in
      Ends-state R _ (
        keep-Ends R Q (reconcile_found machine upper executable row d) _
          (reconcile_found-Safe row d h)
          λ _ d1 h1.
            let launchable = has_launchable_command d1.store repo in
            keep-Ends R Q (preflight_if machine upper executable launchable repo d1) _
              (preflight_if-Safe launchable repo d1 h1)
              λ clean d2 h2. any-Ends R _ (launch_if-Safe clean repo d2 h2))
