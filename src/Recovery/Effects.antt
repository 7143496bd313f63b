-- ===== src/Recovery/Effects.antt =====
-- What recovery's own events do to the executions.
use draindeck.Base.{
  ℕ, String, true, not, Option, none, some, ◌≡◌, refl, sym, ap, ◌∙◌, subst, string_comparable,
}
use draindeck.Base.Dict.{get, put}
use draindeck.Base.Json.{Fields}
use draindeck.Base.Result.{
  Result, ok, transition_error, ok-injective, bind_elim, option_elim, require_elim,
}
use draindeck.Base.Action.{Action, follow_elim}
use draindeck.States.{Env, ExecutionState, crashed}
use draindeck.Events.Schema.{Event, execution_crashed, commit_created}
use draindeck.Events.Log.Codec.{Codec}
use draindeck.Events.Projection.View.{StateProjection, ExecutionView}
use draindeck.Events.Projection.Checks.{need, need-some}
use draindeck.Events.Projection.Executions.{
  execution_transition_handler, commit_created_handler, note_payload, write_view, commit_created_of,
}
use draindeck.Events.Projection.Steps.{accepted_elim}
use draindeck.Events.Projection.Replay.{apply, handle, note_event}
use draindeck.Recovery.State.{Runtime, emit, emit-applied}
use draindeck.Recovery.Reconciler.{Seams, crash_event, crash_orphan, residue}

-- "ExecutionCrashed" leads to CRASHED from every state that has a row for it (docs/03 §2).
pub record CrashLaws (env : Env) : Type 0 where
  pub crash_row :
      (s next : ExecutionState) (fn : Fields → Result ExecutionState) (payload : Fields)
      → env.execution_transitions s execution_crashed ≡ some fn
      → fn payload ≡ ok next
      → next ≡ crashed

-- One view is written, under its key.
pub record Written (P : ExecutionView → Type 0) (x : String) (p q : StateProjection) : Type 0 where
  pub view : ExecutionView
  pub holds : P view
  pub written : q.executions ≡ put x view p.executions

views_of : (p q : StateProjection) → ok p ≡ ok q → p.executions ≡ q.executions
views_of p q e = ap (λ r. r.executions) (ok-injective e)

module _ (env : Env) where
  pub commit_created-Written :
      (ev : Event) (p q : StateProjection)
      → apply env p ev ≡ ok q
      → ev.type ≡ commit_created
      → (x : String) × (v : ExecutionView) × (get x p.executions ≡ some v)
        × Written (λ w. w.state ≡ v.state) x p q
  unfolding apply handle note_event commit_created_handler write_view
  commit_created-Written ev p q h e =
      accepted_elim env (note_event ev p) ev (commit_created_of (note_event ev p))
        (subst (λ t. handle env t (note_event ev p) ev ≡ ok q) e h)
        λ x v _ there seq h1. require_elim v.commit_intended transition_error h1 λ _ h2.
          require_elim (not v.commit_created) transition_error h2 λ _ e1. (
            x,
            v,
            there,
            record {
              view = record v { commit_created = true };
              holds = refl;
              written = sym (views_of _ q e1);
            },
          )

  module _ (laws : CrashLaws env) {World : Type 0} (seams : Seams World) (c : Codec) where
    crash_event-Written :
        (view : ExecutionView) (ref : Option String) (ts : String) (n : ℕ) (p q : StateProjection)
        → apply env p (record (crash_event seams view ref ts) { event_id = n }) ≡ ok q
        → Written (λ w. w.state ≡ crashed) view.execution_id p q
    unfolding apply handle note_event execution_transition_handler write_view crash_event need
        note_payload
    crash_event-Written view ref ts n p q h =
        bind_elim (need (some view.execution_id)) h λ x named h1.
          option_elim transition_error (get x p.executions) h1 λ v there h2.
            option_elim transition_error (env.execution_transitions v.state execution_crashed) h2
              λ fn row h3. bind_elim (fn (crash_event seams view ref ts).payload) h3 λ next to e.
                subst (λ y. Written (λ w. w.state ≡ crashed) y p q)
                  (sym (need-some view.execution_id x named))
                  (record {
                    view = _;
                    holds = laws.crash_row v.state next fn _ row to;
                    written = sym (views_of _ q e);
                  })

    residue_kept :
        (o : Option (ExecutionView → Action World (Option String))) (view : ExecutionView)
        {ref : Option String} (s t : Runtime c World)
        → residue seams env c o view s ≡ (ok ref, t)
        → t.proj ≡ s.proj
    residue_kept none view s t h = ap (λ r. r.1.proj) (sym h)
    residue_kept (some f) view s t h = ap (λ r. r.1.proj) (sym h)

    -- A crashed orphan stands in CRASHED, and nothing else has changed.
    pub crash_orphan-Written :
        (view : ExecutionView) {u : Unit {0}} (s t : Runtime c World)
        → crash_orphan seams env c view s ≡ (ok u, t)
        → Written (λ w. w.state ≡ crashed) view.execution_id s.proj t.proj
    unfolding crash_orphan
    crash_orphan-Written view s t h =
        follow_elim (residue seams env c seams.preserve_residue view s) h λ ref s1 e1 h1.
          follow_elim (emit env c (crash_event seams view ref (seams.utcnow s1.world)) s1) h1
            λ ev s2 e2 h2.
              let (n, done) = emit-applied env c _ ev s1 s2 e2 in
              subst (λ p. Written (λ w. w.state ≡ crashed) view.execution_id p t.proj)
                (residue_kept seams.preserve_residue view s s1 e1)
                (crash_event-Written view ref (seams.utcnow s1.world) n s1.proj t.proj
                  (done ∙ ap (λ r. ok r.1.proj) h2))
