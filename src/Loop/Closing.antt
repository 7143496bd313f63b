-- ===== src/Loop/Closing.antt =====
-- The last move of `_commit_sequence`: the close of the issue.
use draindeck.Base.{String, none, ◌≡◌, refl, inl, inr, ◌⊎◌}
use draindeck.Base.Json.{str, arr, cons, nil, end, field}
use draindeck.Base.Result.{Result, Error, ok, err}
use draindeck.Base.Action.{Ends}
use draindeck.States.{Env}
use draindeck.Events.Schema.{issue_completed}
use draindeck.Events.Log.Codec.{Codec}
use draindeck.Events.Projection.View.{ExecutionView}
use draindeck.Loop.Services.{Services, Settings, Python}
use draindeck.Loop.Emits.{Orchestrator, outside}
use draindeck.Loop.Verdicts.{complete_step}
use draindeck.Loop.Pinned.{with_world, Emitted, emits_then}

module _ (env : Env) (c : Codec) (py : Python) {World : Type 0} (settings : Settings)
    (services : Services World) where
  -- The issue is closed.
  abbrev pub Completed :
      String → ExecutionView → Orchestrator c World → Orchestrator c World → Type 0
  Completed issue ex s t =
      Emitted env c py settings services issue_completed issue none
        (field "reason" (str "accepted") (field "evidence_refs" (arr (cons ex.end_commit nil)) end))
        s t

  -- The issue is closed, and the execution's own attempt ref is deleted.
  abbrev pub Closed : String → ExecutionView → Orchestrator c World → Orchestrator c World → Type 0
  Closed issue ex s t =
      Completed issue ex s t
      × (services.delete_attempt_ref issue ex.execution_id s.world.world ≡ (ok tt, t.world.world))

  -- A close that raised: the issue was not closed, and no service was called; or it was closed, and
  -- then the deletion of the ref raised.
  abbrev pub HalfClosed :
      String → ExecutionView → Orchestrator c World → Orchestrator c World → Type 0
  HalfClosed issue ex s t =
      ((t.world ≡ s.world) × (t.proj ≡ s.proj))
      ⊎ (Completed issue ex s t
          × ((e : Error) × (services.delete_attempt_ref issue ex.execution_id s.world.world
                ≡ (err e, t.world.world))))

  pub complete_step-Closed :
      (issue : String) (ex : ExecutionView) (s : Orchestrator c World)
      → Ends
          (λ _ t. Closed issue ex s t)
          (λ t. HalfClosed issue ex s t)
          (complete_step env c py settings services issue ex s)
  unfolding complete_step
  complete_step-Closed issue ex s =
      emits_then env c py settings services (λ _ t. Closed issue ex s t)
        (λ t. HalfClosed issue ex s t) issue_completed issue
        (field "reason" (str "accepted") (field "evidence_refs" (arr (cons ex.end_commit nil)) end))
        none (λ _. outside (services.delete_attempt_ref issue ex.execution_id)) s
        (λ ev log q sent.
          deleted (record s { log = log; proj = q }) sent
            (services.delete_attempt_ref issue ex.execution_id s.world.world) refl)
        (λ t kept same. inl (kept, same))
    where
      deleted :
          (t : Orchestrator c World)
          → Completed issue ex s t
          → (r : Result (Unit {0}) × World)
          → services.delete_attempt_ref issue ex.execution_id s.world.world ≡ r
          → Ends (λ _ u. Closed issue ex s u) (λ u. HalfClosed issue ex s u) (r.0, with_world t r.1)
      deleted t sent (ok v, w) e = (sent, e)
      deleted t sent (err x, w) e = inr (sent, (x, e))
