-- ===== src/Recovery/State.antt =====
-- What recovery works on: the log, the projection, the world behind the seams, and the report
-- (`RecoveryReport` and `_emit` of src/runtime/recovery/reconciler.py).
use draindeck.Base.{ℕ, String, List, [], ◌≡◌, refl, ap, sym, subst, ◌∙◌}
use draindeck.Base.Result.{Result, ok, err}
use draindeck.Base.Action.{Action, ◌>>=◌, ◌>>◌, modify, return, follow, follow_elim, Ends}
use draindeck.States.{Env}
use draindeck.Events.Schema.{Event}
use draindeck.Events.Log.Codec.{Codec}
use draindeck.Events.Log.Append.{EventLog, append}
use draindeck.Events.Projection.View.{StateProjection}
use draindeck.Events.Projection.Replay.{apply}

pub record RecoveryReport : Type 0 where
  pub replayed_events : ℕ
  pub orphans_crashed : List String
  pub emitted : List String
  pub checks_run : List String
  pub checks_skipped : List String
  pub workspace_repairs : List String

abbrev pub empty_report : RecoveryReport
empty_report = record {
  replayed_events = 0;
  orphans_crashed = [];
  emitted = [];
  checks_run = [];
  checks_skipped = [];
  workspace_repairs = [];
}

-- `world` is what the injected functions read and change: the repository, the clock.
pub record Runtime (c : Codec) (World : Type 0) : Type 0 where
  pub log : EventLog c
  pub proj : StateProjection
  pub world : World
  pub report : RecoveryReport

append-id :
    (c : Codec) (log : EventLog c) (ev : Event) (n : ℕ)
    → append c log (record ev { event_id = n }) ≡ append c log ev
unfolding append
append-id c log ev n = refl

module _ (env : Env) (c : Codec) {World : Type 0} where
  -- An injected function: it changes the world, and may raise.
  abbrev pub in_world {ℓ} : {T : Type ℓ} → Action World T → Action (Runtime c World) T
  in_world f s = let (r, w) = f s.world in (r, record s { world = w })

  abbrev pub noting : (RecoveryReport → RecoveryReport) → Action (Runtime c World) (Unit {0})
  noting f = modify (λ s. record s { report = f s.report })

  abbrev pub take_log : Runtime c World → Result (ℕ × EventLog c) → Result ℕ × Runtime c World
  take_log s (ok (eid, log)) = (ok eid, record s { log = log })
  take_log s (err e) = (err e, s)

  -- log.append(ev)
  abbrev pub logged : Event → Action (Runtime c World) ℕ
  logged ev s = take_log s (append c s.log ev)

  abbrev pub take_proj :
      Runtime c World → Result StateProjection → Result (Unit {0}) × Runtime c World
  take_proj s (ok p) = (ok tt, record s { proj = p })
  take_proj s (err e) = (err e, s)

  -- proj.apply(ev): an exception ends the recovery, and the projection with it.
  abbrev pub applied : Event → Action (Runtime c World) (Unit {0})
  applied ev s = take_proj s (apply env s.proj ev)

  -- _emit: the event is in the log before the projection takes it.
  unfoldable pub emit : Event → Action (Runtime c World) Event
  emit ev = do
    eid ← logged ev
    applied (record ev { event_id = eid })
    return (record ev { event_id = eid })

  take_log_kept :
      (s : Runtime c World) (r : Result (ℕ × EventLog c)) {eid : ℕ} {t : Runtime c World}
      → take_log s r ≡ (ok eid, t)
      → t.proj ≡ s.proj
  take_log_kept s (ok (eid, log)) e = ap (λ q. q.1.proj) (sym e)
  take_log_kept s (err e) h = absurd (cc (ap (λ q. q.0) h))

  take_proj_taken :
      (s : Runtime c World) (r : Result StateProjection) {u : Unit {0}} {t : Runtime c World}
      → take_proj s r ≡ (ok u, t)
      → r ≡ ok t.proj
  take_proj_taken s (ok p) e = ap (λ q. ok q.1.proj) e
  take_proj_taken s (err e) h = absurd (cc (ap (λ q. q.0) h))

  -- An emission that returns has applied the event, under the id that the log gave it.
  pub emit-applied :
      (ev ev' : Event) (s t : Runtime c World)
      → emit ev s ≡ (ok ev', t)
      → (eid : ℕ) × (apply env s.proj (record ev { event_id = eid }) ≡ ok t.proj)
  unfolding emit
  emit-applied ev ev' s t h = follow_elim (logged ev s) h λ eid s1 e1 h1.
      follow_elim (applied (record ev { event_id = eid }) s1) h1 λ _ s2 e2 h2. (
        eid,
        subst (λ p. apply env p (record ev { event_id = eid }) ≡ ok t.proj)
            (take_log_kept s (append c s.log ev) e1)
            (take_proj_taken s1 (apply env s1.proj (record ev { event_id = eid })) e2
              ∙ ap (λ q. ok q.1.proj) h2),
      )

  pub in_world-ran {ℓ} :
      {T : Type ℓ} (f : Action World T) {v : T} (s t : Runtime c World)
      → in_world f s ≡ (ok v, t)
      → (f s.world ≡ (ok v, t.world)) × (t.proj ≡ s.proj)
  in_world-ran f s t h =
      let value = ap (λ r. r.0) h in
      let left = ap (λ r. r.1) h in
      (cc (value, ap (λ r. r.world) left), sym (ap (λ r. r.proj) left))

  take_log-world :
      (s : Runtime c World) (r : Result (ℕ × EventLog c)) → (take_log s r).1.world ≡ s.world
  take_log-world s (ok (eid, log)) = refl
  take_log-world s (err e) = refl

  take_proj-world :
      (s : Runtime c World) (r : Result StateProjection) → (take_proj s r).1.world ≡ s.world
  take_proj-world s (ok p) = refl
  take_proj-world s (err e) = refl

  -- An emission leaves the world as it is.
  pub emit-world :
      (ev ev' : Event) (s t : Runtime c World) → emit ev s ≡ (ok ev', t) → t.world ≡ s.world
  unfolding emit
  emit-world ev ev' s t h = follow_elim (logged ev s) h λ eid s1 e1 h1.
      follow_elim (applied (record ev { event_id = eid }) s1) h1 λ _ s2 e2 h2.
        sym (ap (λ r. r.1.world) h2)
        ∙ sym (ap (λ r. r.1.world) e2)
        ∙ take_proj-world s1 (apply env s1.proj (record ev { event_id = eid }))
        ∙ sym (ap (λ r. r.1.world) e1)
        ∙ take_log-world s (append c s.log ev)

  -- How an emission ends, with what follows it: the event is in the log, under the id that the log
  -- gave it, and applied; or it raised, and neither the world nor the projection has changed.
  pub emit_then {κ ν} :
      {U : Type κ} (Q : U → Runtime c World → Type ν) (R : Runtime c World → Type ν) (ev : Event)
      (k : Event → Action (Runtime c World) U) (s : Runtime c World)
      → ((n : ℕ) (log : EventLog c) (q : StateProjection)
          → append c s.log (record ev { event_id = n }) ≡ ok (n, log)
          → apply env s.proj (record ev { event_id = n }) ≡ ok q
          → Ends Q R (k (record ev { event_id = n }) (record s { log = log; proj = q })))
      → ((t : Runtime c World) → t.world ≡ s.world → t.proj ≡ s.proj → R t)
      → Ends Q R ((emit ev >>= k) s)
  unfolding emit
  emit_then Q R ev k s sent raised = go (append c s.log ev) refl
    where
      done :
          (n : ℕ) (log : EventLog c) (r : Result StateProjection)
          → append c s.log ev ≡ ok (n, log)
          → apply env s.proj (record ev { event_id = n }) ≡ r
          → Ends Q R (
              follow k (
                follow
                  (λ _. return (record ev { event_id = n }))
                  (take_proj (record s { log = log }) r)))
      done n log (ok q) a e = sent n log q (append-id c s.log ev n ∙ a) e
      done n log (err x) a e = raised (record s { log = log }) refl refl

      go :
          (r : Result (ℕ × EventLog c))
          → append c s.log ev ≡ r
          → Ends Q R (
              follow k (
                follow
                  (λ n. applied (record ev { event_id = n }) >> return (record ev { event_id = n }))
                  (take_log s r)))
      go (ok (n, log)) a = done n log (apply env s.proj (record ev { event_id = n })) a refl
      go (err x) a = raised s refl refl
