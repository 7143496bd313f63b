-- ===== src/Loop/Kept.antt =====
-- What every turn of the orchestrator keeps: a predicate of the projection and the budget that no
-- event but a spawn touches, and that a guarded spawn keeps.
use draindeck.Base.{ℕ, String, Bool, false, List, [], ◌∷◌, ◌≡◌, refl, string_comparable}
use draindeck.Base.Json.{Fields}
use draindeck.Base.Result.{Result, ok, err}
use draindeck.Base.Action.{Action, ◌>>=◌, ◌>>◌, return, follow}
use draindeck.States.{Env}
use draindeck.Events.Schema.{Event}
use draindeck.Events.Log.Codec.{Codec}
use draindeck.Events.Log.Append.{EventLog, append}
use draindeck.Events.Projection.View.{StateProjection}
use draindeck.Events.Projection.SpawnOnly.{is_spawned}
use draindeck.Events.Projection.Replay.{apply}
use draindeck.Recovery.State.{emit, applied, take_log, take_proj}
use draindeck.Loop.Budget.{BudgetManager, Floats, record_usage}
use draindeck.Loop.Services.{Services, EngineRun}
use draindeck.Loop.Emits.{Orchestrator, outside}

-- What the comments of src/runtime/loop.py say of an engine: it appends containment facts, and spawns
-- nothing itself.
abbrev pub NoSpawns : List Event → Type 0
NoSpawns [] = Unit {0}
NoSpawns (ev ∷ evs) = (is_spawned ev.type ≡ false) × NoSpawns evs

abbrev pub EngineLaw : {World : Type 0} → Services World → Type 0
EngineLaw {World} services =
    (nt : Bool) (xid : String) (w : World) (ran : EngineRun)
    → (services.engine_run nt xid w).0 ≡ ok ran
    → NoSpawns ran.appended

module _ (env : Env) (floats : Floats) (P : StateProjection → BudgetManager → Type 0) where
  -- No event but a spawn touches the predicate, and no usage does.
  pub record Untouched : Type 0 where
    pub events :
        (p q : StateProjection) (b : BudgetManager) (ev : Event)
        → is_spawned ev.type ≡ false
        → apply env p ev ≡ ok q
        → P p b
        → P q b
    pub usage :
        (p : StateProjection) (b : BudgetManager) (u : Fields)
        → P p b
        → P p (record_usage floats u b)

module _ (env : Env) (c : Codec) (floats : Floats) {World : Type 0}
    (P : StateProjection → BudgetManager → Type 0) where
  abbrev pub Keeping : Orchestrator c World → Type 0
  Keeping s = P s.proj s.world.budget

  pub follow-Keeping {ℓ κ} :
      {T : Type ℓ} {U : Type κ} (r : Result T × Orchestrator c World)
      (k : T → Action (Orchestrator c World) U)
      → Keeping r.1
      → ((v : T) (s : Orchestrator c World) → Keeping s → Keeping (k v s).1)
      → Keeping (follow k r).1
  follow-Keeping (ok v, s) k h next = next v s h
  follow-Keeping (err e, s) k h next = h

  -- A call of a service, and what follows it where it returned.
  pub outside-Keeping {ℓ κ} :
      {T : Type ℓ} {U : Type κ} (f : Action World T) (k : T → Action (Orchestrator c World) U)
      (s : Orchestrator c World)
      → Keeping s
      → ((v : T) (w : World)
          → f s.world.world ≡ (ok v, w)
          → Keeping (k v (record s { world = record s.world { world = w } })).1)
      → Keeping ((outside f >>= k) s).1
  outside-Keeping {T = T} f k s h next = go (f s.world.world) refl
    where
      go :
          (r : Result T × World)
          → f s.world.world ≡ r
          → Keeping (follow k (r.0, record s { world = record s.world { world = r.1 } })).1
      go (ok v, w) e = next v w e
      go (err x, w) e = h

  -- What an emission leaves where it raises, and what its event does where it returns.
  pub emit-Keeping {κ} :
      {U : Type κ} (ev : Event) (k : Event → Action (Orchestrator c World) U)
      (s : Orchestrator c World)
      → Keeping s
      → ((n : ℕ) (q : StateProjection) (log : EventLog c)
          → apply env s.proj (record ev { event_id = n }) ≡ ok q
          → Keeping (k (record ev { event_id = n }) (record s { log = log; proj = q })).1)
      → Keeping ((emit env c ev >>= k) s).1
  unfolding emit
  emit-Keeping ev k s h next = go (append c s.log ev)
    where
      done :
          (n : ℕ) (log : EventLog c) (r : Result StateProjection)
          → apply env s.proj (record ev { event_id = n }) ≡ r
          → Keeping
              (follow k (
                follow
                  (λ _. return (record ev { event_id = n }))
                  (take_proj env c (record s { log = log }) r))).1
      done n log (ok q) e = next n q log e
      done n log (err x) e = h

      go :
          (r : Result (ℕ × EventLog c))
          → Keeping
              (follow k (
                follow
                  (λ n.
                    applied env c (record ev { event_id = n })
                    >> return (record ev { event_id = n }))
                  (take_log env c s r))).1
      go (ok (n, log)) = done n log (apply env s.proj (record ev { event_id = n })) refl
      go (err x) = h
