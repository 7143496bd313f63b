-- ===== src/Dashboard/ServedAnswers.antt =====
-- A cancel and an acknowledgement keep the invariant of the tables.
use draindeck.Base.{ℕ, Bool, true, false, Bool-cases, inl, inr, nat_eq}
use draindeck.Base.Result.{
  Result, Error, ok, err, ack_not_abnormal, ack_process_not_terminal, ack_run_not_terminal,
}
use draindeck.Base.Action.{Ends, follow-Ends, keep-Ends, any-Ends, Ends-state}
use draindeck.Dashboard.Commands.{is_queued, is_abnormal_exit, is_acknowledged}
use draindeck.Dashboard.Transactions.{cancel_transaction, acknowledge_transaction}
use draindeck.Dashboard.Machine.{Machine, Desk, Configured, CommandView, get_command, asking}
use draindeck.Dashboard.RunQueue.{
  in_repository, after_cancel, cancel_queued_command, gate, verify_target, target_checked,
  target_raises, acknowledge_gated, acknowledge_final, acknowledge_abnormal_command, is_api_error,
  is_dead, run_is_terminal,
}
use draindeck.Dashboard.Kept.{cancel_transaction-Slots, acknowledge_transaction-Slots}
use draindeck.Dashboard.Effects.{Safe, Shown, get_command-Ends}
use draindeck.Dashboard.Served.{shown_last}

module _ {World : Type 0} (machine : Machine World) where
  in_repository-Ends :
      (repo n : ℕ) (d : Desk World)
      → Safe machine d
      → Ends (Shown machine) (Safe machine) (in_repository machine repo n d)
  unfolding get_command
  in_repository-Ends repo n d h =
      follow-Ends (Shown machine) (Shown machine) (Safe machine) (get_command machine n d) _
        (get_command-Ends machine n d h)
        λ view s shown. elim (Bool-cases (nat_eq view.row.repository_id repo)) [
          | inl mine ↦ rw mine shown
          | inr other ↦ rw other shown.0
        ]

  after_cancel-Safe :
      (n : ℕ) (b : Bool) (d : Desk World)
      → Safe machine d
      → Safe machine (after_cancel machine n b d).1
  unfolding get_command
  after_cancel-Safe n true d h = shown_last machine n d h
  after_cancel-Safe n false d h = Ends-state (Safe machine) _ (
      keep-Ends (Safe machine) (λ _. Safe machine) (get_command machine n d) _
        (shown_last machine n d h) λ v s k. k)

  pub cancel-Safe :
      (repo n : ℕ) (d : Desk World)
      → Safe machine d
      → Safe machine (cancel_queued_command machine repo n d).1
  unfolding cancel_queued_command
  cancel-Safe repo n d h = Ends-state (Safe machine) _ (
      follow-Ends (Shown machine) (λ _. Safe machine) (Safe machine)
        (in_repository machine repo n d) _ (in_repository-Ends repo n d h)
        λ view s shown. elim (Bool-cases (is_queued view.row.status)) [
          | inr other ↦ rw other shown.0
          | inl waits ↦
              let done = cancel_transaction repo n (machine.now s.world) s.store in
              rw waits (
                any-Ends (Safe machine) _ (
                  after_cancel-Safe n done.0 (record s { store = done.1 })
                    (cancel_transaction-Slots s.store repo n (machine.now s.world) shown.0)))
        ])

  gate-Safe :
      (b : Bool) (e : Error) (d : Desk World) → Safe machine d → Safe machine (gate machine b e d).1
  gate-Safe true e d h = h
  gate-Safe false e d h = h

  target_raises-Safe :
      (b : Bool) (e : Error) (d : Desk World)
      → Safe machine d
      → Safe machine (target_raises machine b e d).1
  target_raises-Safe true e d h = h
  target_raises-Safe false e d h = h

  target_checked-Safe :
      (r : Result Configured) (d : Desk World)
      → Safe machine d
      → Safe machine (target_checked machine r d).1
  unfolding is_api_error
  target_checked-Safe (ok configured) d h = h
  target_checked-Safe (err e) d h = target_raises-Safe (is_api_error e) e d h

  verify_target-Safe :
      (repo : ℕ) (d : Desk World) → Safe machine d → Safe machine (verify_target machine repo d).1
  unfolding is_api_error
  verify_target-Safe repo d h =
      target_checked-Safe (machine.get_configured_issues repo d.world).0
        (asking machine (machine.get_configured_issues repo) d).1 h

  acknowledge_final-Safe :
      (view : CommandView) (d : Desk World)
      → Safe machine d
      → Safe machine (acknowledge_final machine view d).1
  unfolding acknowledge_final
  acknowledge_final-Safe view d h =
      let done = record d {
        store = acknowledge_transaction view.row.id (machine.now d.world) d.store;
      } in
      Ends-state (Safe machine) _ (
        keep-Ends (Safe machine) (λ _. Safe machine) (get_command machine view.row.id done) _
          (shown_last machine view.row.id done
            (acknowledge_transaction-Slots d.store view.row.id (machine.now d.world) h))
          λ final s k.
            keep-Ends (Safe machine) (λ _. Safe machine)
              (gate machine (is_acknowledged final.row.status) ack_not_abnormal s) _
              (gate-Safe (is_acknowledged final.row.status) ack_not_abnormal s k) λ _ s2 k2. k2)

  acknowledge_gated-Safe :
      (repo : ℕ) (view : CommandView) (d : Desk World)
      → Safe machine d
      → Safe machine (acknowledge_gated machine repo view d).1
  unfolding acknowledge_gated
  acknowledge_gated-Safe repo view d h =
      let R = Safe machine in
      let Q = λ (v : CommandView) (s : Desk World). Safe machine s in
      Ends-state R _ (
        keep-Ends R Q (gate machine (is_abnormal_exit view.row.status) ack_not_abnormal d) _
          (gate-Safe (is_abnormal_exit view.row.status) ack_not_abnormal d h)
          λ _ d1 h1.
            keep-Ends R Q
              (asking machine (machine.probe view.row.process_pid view.row.process_creation_time)
                d1)
              _ h1
              λ state d2 h2.
                keep-Ends R Q (gate machine (is_dead machine state) ack_process_not_terminal d2) _
                  (gate-Safe (is_dead machine state) ack_process_not_terminal d2 h2)
                  λ _ d3 h3.
                    keep-Ends R Q
                      (gate machine (run_is_terminal machine view) ack_run_not_terminal d3) _
                      (gate-Safe (run_is_terminal machine view) ack_run_not_terminal d3 h3)
                      λ _ d4 h4.
                        keep-Ends R Q (verify_target machine repo d4) _
                          (verify_target-Safe repo d4 h4) λ _ d5 h5. flipped d5 h5)
    where
      flipped :
          (s : Desk World)
          → Safe machine s
          → Ends
              (λ (v : CommandView). Safe machine)
              (Safe machine)
              (acknowledge_final machine view s)
      flipped s k = any-Ends (Safe machine) _ (acknowledge_final-Safe view s k)

  pub acknowledge-Safe :
      (repo n : ℕ) (d : Desk World)
      → Safe machine d
      → Safe machine (acknowledge_abnormal_command machine repo n d).1
  unfolding acknowledge_abnormal_command
  acknowledge-Safe repo n d h = Ends-state (Safe machine) _ (
      follow-Ends (Shown machine) (λ _. Safe machine) (Safe machine)
        (in_repository machine repo n d) _ (in_repository-Ends repo n d h)
        λ view s shown. elim (Bool-cases (is_acknowledged view.row.status)) [
          | inl already ↦ rw already shown.0
          | inr not_yet ↦
              rw not_yet (any-Ends (Safe machine) _ (acknowledge_gated-Safe repo view s shown.0))
        ])
