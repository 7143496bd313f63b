-- ===== src/Dashboard/AckGates.antt =====
-- The gates before an abnormal exit is acknowledged.
use draindeck.Base.{
  ℕ, String, Bool, true, false, some, ◌≡◌, refl, sym, ap, subst, Bool-cases, inl, inr, ◌⊎◌, nat_eq,
  nat_eq_iff,
}
use draindeck.Base.Result.{
  Result, Error, ok, err, ack_not_abnormal, ack_process_not_terminal, ack_run_not_terminal,
}
use draindeck.Base.Action.{follow_elim}
use draindeck.Recovery.Containment.{ControllerIdentityState, dead, live_match, pid_reused, unknown}
use draindeck.Dashboard.Commands.{is_some, is_abnormal_exit, is_acknowledged}
use draindeck.Dashboard.Machine.{Machine, Desk, Configured, CommandView, asking, get_command}
use draindeck.Dashboard.RunQueue.{
  acknowledge_gated, acknowledge_final, gate, verify_target, target_checked, target_raises,
  acknowledge_abnormal_command, in_repository, run_is_terminal, is_dead, is_api_error,
}

module _ {World : Type 0} (machine : Machine World) where
  -- What has been seen before a command is acknowledged.
  pub record Proven (repo : ℕ) (view : CommandView) (d : Desk World) : Type 0 where
    pub was_abnormal : is_abnormal_exit view.row.status ≡ true
    pub process_dead :
        (machine.probe view.row.process_pid view.row.process_creation_time d.world).0 ≡ ok dead
    pub run_ended :
        (run : String)
        → view.row.run_id_correlation ≡ some run
        → is_some view.runtime_outcome ≡ true
    pub target_read :
        (c : Configured) × ((machine.get_configured_issues repo
            (machine.probe view.row.process_pid view.row.process_creation_time d.world).1).0
          ≡ ok c)

  gate-open :
      (b : Bool) (e : Error) (d : Desk World) (u : Unit {0}) (d' : Desk World)
      → gate machine b e d ≡ (ok u, d')
      → (b ≡ true) × (d ≡ d')
  gate-open true e d u d' h = (refl, ap (λ (p : Result (Unit {0}) × Desk World). p.1) h)
  gate-open false e d u d' h = absurd (ok-err (ap (λ (p : Result (Unit {0}) × Desk World). p.0) h))
    where
      ok-err : err e ≡ ok u → ⊥
      ok-err q = absurd (cc)

  probed :
      (view : CommandView) (d : Desk World) (state : ControllerIdentityState) (d' : Desk World)
      → asking machine (machine.probe view.row.process_pid view.row.process_creation_time) d
        ≡ (ok state, d')
      → ((machine.probe view.row.process_pid view.row.process_creation_time d.world).0 ≡ ok state)
        × (d'.world ≡ (machine.probe view.row.process_pid view.row.process_creation_time d.world).1)
  probed view d state d' h = (
    ap (λ (p : Result ControllerIdentityState × Desk World). p.0) h,
    sym (ap (λ (p : Result ControllerIdentityState × Desk World). p.1.world) h),
  )

  is_dead-dead : (state : ControllerIdentityState) → is_dead machine state ≡ true → state ≡ dead
  is_dead-dead dead e = refl
  is_dead-dead live_match e = absurd (cc)
  is_dead-dead pid_reused e = absurd (cc)
  is_dead-dead unknown e = absurd (cc)

  run_is_terminal-ended :
      (view : CommandView)
      → run_is_terminal machine view ≡ true
      → (run : String) → view.row.run_id_correlation ≡ some run
      → is_some view.runtime_outcome ≡ true
  run_is_terminal-ended view e run r = rw (r, run_is_terminal) at e

  target_read :
      (repo : ℕ) (r : Result Configured) (d : Desk World) (u : Unit {0}) (d' : Desk World)
      → target_checked machine r d ≡ (ok u, d')
      → (c : Configured) × (r ≡ ok c)
  unfolding is_api_error
  target_read repo (ok c) d u d' h = (c, refl)
  target_read repo (err e) d u d' h = absurd (raises (is_api_error e) h)
    where
      ok-err : {x : Error} → err x ≡ ok u → ⊥
      ok-err q = absurd (cc)

      raises : (b : Bool) → target_raises machine b e d ≡ (ok u, d') → ⊥
      raises true q = ok-err (ap (λ (p : Result (Unit {0}) × Desk World). p.0) q)
      raises false q = ok-err (ap (λ (p : Result (Unit {0}) × Desk World). p.0) q)

  pub acknowledge_gated-Proven :
      (repo : ℕ) (view final : CommandView) (d d' : Desk World)
      → acknowledge_gated machine repo view d ≡ (ok final, d')
      → Proven repo view d
  unfolding acknowledge_gated is_api_error acknowledge_final
  acknowledge_gated-Proven repo view final d d' h =
      follow_elim (gate machine (is_abnormal_exit view.row.status) ack_not_abnormal d) h
        λ _ d1 e1 h1.
          follow_elim
            (asking machine (machine.probe view.row.process_pid view.row.process_creation_time) d1)
            h1
            λ state d2 e2 h2.
              follow_elim (gate machine (is_dead machine state) ack_process_not_terminal d2) h2
                λ _ d3 e3 h3.
                  follow_elim (gate machine (run_is_terminal machine view) ack_run_not_terminal d3)
                    h3
                    λ _ d4 e4 h4. follow_elim (verify_target machine repo d4) h4 λ _ d5 e5 h5.
                      let (abnormal, s1) =
                        gate-open (is_abnormal_exit view.row.status) ack_not_abnormal d _ d1 e1 in
                      let (asked, w2) = probed view d1 state d2 e2 in
                      let (gone, s3) =
                        gate-open (is_dead machine state) ack_process_not_terminal d2 _ d3 e3 in
                      let (ended, s4) =
                        gate-open (run_is_terminal machine view) ack_run_not_terminal d3 _ d4 e4 in
                      let (configured, read) =
                        target_read repo (machine.get_configured_issues repo d4.world).0
                          (asking machine (machine.get_configured_issues repo) d4).1 _ d5 e5 in
                      record {
                        was_abnormal = abnormal;
                        process_dead = cc (s1, asked, is_dead-dead state gone);
                        run_ended = run_is_terminal-ended view ended;
                        target_read = (configured, cc (s1, w2, s3, s4, read));
                      }

  shown_row :
      (repo n : ℕ) (view : CommandView) (d d' : Desk World)
      → in_repository machine repo n d ≡ (ok view, d')
      → (get_command machine n d ≡ (ok view, d)) × (view.row.repository_id ≡ repo) × (d' ≡ d)
  unfolding get_command
  shown_row repo n view d d' h = follow_elim (get_command machine n d) h λ v d1 e hh.
      elim (Bool-cases (nat_eq v.row.repository_id repo)) [
        | inr other ↦
            absurd (ok-err (ap (λ (p : Result CommandView × Desk World). p.0) (rw other at hh)))
        | inl mine ↦
            let p = rw mine at hh in
            let same : d ≡ d1 = ap (λ (p : Result CommandView × Desk World). p.1) e in
            let same_view : v ≡ view =
              ok-same (ap (λ (p : Result CommandView × Desk World). p.0) p) in
            (
              cc (e, same, same_view),
              cc (same_view, (nat_eq_iff v.row.repository_id repo).0 mine),
              cc (same, ap (λ (p : Result CommandView × Desk World). p.1) p),
            )
      ]
    where
      ok-err : {x : Error} → err x ≡ ok view → ⊥
      ok-err q = absurd (cc)

      ok-same : {a b : CommandView} → ok a ≡ ok b → a ≡ b
      ok-same q = cc

  -- An acknowledgement that returns is of a command of the repository. Either it was acknowledged
  -- already and nothing changes, or its exit was abnormal, the probe named its process dead, its
  -- run has an outcome if one is known, and the issues of the repository could be read.
  pub acknowledge-Proven :
      (repo n : ℕ) (final : CommandView) (d d' : Desk World)
      → acknowledge_abnormal_command machine repo n d ≡ (ok final, d')
      → (view : CommandView) × (get_command machine n d ≡ (ok view, d))
        × (view.row.repository_id ≡ repo)
        × (((is_acknowledged view.row.status ≡ true) × (d' ≡ d)) ⊎ Proven repo view d)
  unfolding acknowledge_abnormal_command
  acknowledge-Proven repo n final d d' h =
      follow_elim (in_repository machine repo n d) h λ view d1 e1 h1.
        let (found, mine, same) = shown_row repo n view d d1 e1 in
        (
          view,
          found,
          mine,
          elim (Bool-cases (is_acknowledged view.row.status)) [
            | inl already ↦ inl (
              already,
              cc (same, ap (λ (p : Result CommandView × Desk World). p.1) (rw already at h1)),
            )
            | inr not_yet ↦ inr (
                subst (Proven repo view) same
                  (acknowledge_gated-Proven repo view final d1 d' (rw not_yet at h1)))
          ],
        )
