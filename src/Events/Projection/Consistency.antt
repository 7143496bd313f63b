-- ===== src/Events/Projection/Consistency.antt =====
-- Invariants of a replayed projection: which executions its lists name, and who may still run.
use draindeck.Base.{
  String, true, some, List, [], ◌∷◌, ◌≡◌, sym, ap, ◌∙◌, subst, string_comparable, inl, inr,
}
use draindeck.Base.Dict.{get, put_cases}
use draindeck.Base.Result.{ok, bind_elim, ok-injective}
use draindeck.States.{Env, CommitLaws, accepted}
use draindeck.Events.Schema.{Event}
use draindeck.Events.Projection.View.{StateProjection, ExecutionView, empty}
use draindeck.Events.Projection.Executions.{new_view}
use draindeck.Events.Projection.Replay.{apply, rebuild}
use draindeck.Events.Projection.StepRelation.{
  ExecutionStep, same, spawn, move, Moved, table_row, intended_row, created_row,
}
use draindeck.Events.Projection.Refinement.{apply-step}

-- What every accepted event keeps holds after a replay.
pub rebuild_induction {ℓ} :
    (env : Env) (P : StateProjection → Type ℓ)
    → ((ev : Event) (p q : StateProjection) → ExecutionStep env ev p q → P p → P q)
    → (evs : List Event) (p : StateProjection) {q : StateProjection} → P p
    → rebuild env p evs ≡ ok q
    → P q
unfolding rebuild
rebuild_induction env P step [] p h e = subst P (ok-injective e) h
rebuild_induction env P step (ev ∷ evs) p h e = bind_elim (apply env p ev) e λ p' applied rest.
    rebuild_induction env P step evs p' (step ev p p' (apply-step env p ev applied) h) rest

-- The commit sequence of one execution: CommitCreated only behind CommitIntent, and both only in
-- the state ACCEPTED.
pub record CommitOrdered (v : ExecutionView) : Type 0 where
  pub created_intended : v.commit_created ≡ true → v.commit_intended ≡ true
  pub intended_accepted : v.commit_intended ≡ true → v.state ≡ accepted

abbrev AllOrdered : StateProjection → Type 0
AllOrdered p = (xid : String) (v : ExecutionView) → get xid p.executions ≡ some v → CommitOrdered v

module _ (env : Env) (laws : CommitLaws env) where
  Moved-CommitOrdered :
      (ev : Event) (v w : ExecutionView) → Moved env ev v w → CommitOrdered v → CommitOrdered w
  Moved-CommitOrdered ev v w (table_row fn t row to intended created recorded _) h = record {
    created_intended = λ e. intended ∙ h.created_intended (sym created ∙ e);
    intended_accepted = λ e. absurd (unmoved (h.intended_accepted (sym intended ∙ e)));
  }
    where
      unmoved : ¬ (v.state ≡ accepted)
      unmoved e =
          cc (laws.accepted_is_final ev.type, ap (λ s. env.execution_transitions s ev.type) e)
  Moved-CommitOrdered ev v w (intended_row t seq fresh e) h = record {
    created_intended = λ _. cc;
    intended_accepted = λ _. cc ((laws.commit_only_accepted v.state).0 seq);
  }
  Moved-CommitOrdered ev v w (created_row t seq intended fresh e) h = record {
    created_intended = λ _. cc;
    intended_accepted = λ _. cc ((laws.commit_only_accepted v.state).0 seq);
  }

  step-AllOrdered :
      (ev : Event) (p q : StateProjection) → ExecutionStep env ev p q → AllOrdered p → AllOrdered q
  step-AllOrdered ev p q (same t a b) h xid v e = h xid v (rw a at e)
  step-AllOrdered ev p q (spawn x iid u prev t names owns lives fresh latest ended reads a b) h xid
        v e =
      elim (put_cases x xid (new_view x iid (get iid p.issue_base_commit) u) p.executions
        (rw a at e)) [
          | inl (_, new) ↦ subst CommitOrdered new new_view-ordered
          | inr (_, old) ↦ h xid v old
        ]
    where
      new_view-ordered : CommitOrdered (new_view x iid (get iid p.issue_base_commit) u)
      new_view-ordered =
          unfold new_view in record { created_intended = λ k. cc; intended_accepted = λ k. cc }
  step-AllOrdered ev p q (move x v w names there ident moved a b) h xid u e =
      elim (put_cases x xid w p.executions (rw a at e)) [
        | inl (_, new) ↦ subst CommitOrdered new (Moved-CommitOrdered ev v w moved (h x v there))
        | inr (_, old) ↦ h xid u old
      ]

  -- In the projection of any log that replays, whatever execution is recorded: its CommitCreated
  -- was recorded only behind its CommitIntent, and its CommitIntent only if it stands in ACCEPTED.
  pub rebuild-CommitOrdered :
      (evs : List Event) (p : StateProjection)
      → rebuild env empty evs ≡ ok p
      → (xid : String) (v : ExecutionView) → get xid p.executions ≡ some v
      → CommitOrdered v
  unfolding get
  rebuild-CommitOrdered evs p e =
      rebuild_induction env AllOrdered step-AllOrdered evs empty (λ xid v absent. cc) e
