-- ===== src/Loop/KeptMoves.antt =====
-- The moves of `step` but for the spawn keep what no event but a spawn touches.
use draindeck.Base.{
  String, Bool, true, false, Option, none, some, List, [], ◌∷◌, ◌≡◌, refl, ap, subst, Bool-cases,
  inl, inr, string_comparable, ◌==◌,
}
use draindeck.Base.Json.{Value, Fields}
use draindeck.Base.Result.{Result, ok, err}
use draindeck.Base.Action.{Action, ◌>>=◌, ◌>>◌, return, follow}
use draindeck.States.{Env}
use draindeck.Events.Schema.{Event, EventType, issue_activated, issue_escalated, execution_finished}
use draindeck.Events.Log.Codec.{Codec}
use draindeck.Events.Projection.View.{StateProjection, ExecutionView}
use draindeck.Events.Projection.SpawnOnly.{is_spawned}
use draindeck.Recovery.State.{emit}
use draindeck.Recovery.Containment.{join}
use draindeck.Loop.Budget.{BudgetManager, Floats, record_usage}
use draindeck.Loop.Services.{Services, Settings, Python, EngineResult}
use draindeck.Loop.Pack.{build_prompt}
use draindeck.Loop.Emits.{Orchestrator, outside, raising, budgeting, emits, emit_all, event}
use draindeck.Loop.Attempt.{activate, activate_at, escalate}
use draindeck.Loop.Work.{
  execute, execute_at, conclude, finish, finish_rejected, Route, timed_out, out_of_turns, failed,
  finished, base_of, not_none, engine_outcome, tip_of, ensure_prompt, route, finished_payload,
}
use draindeck.Loop.Kept.{
  Untouched, NoSpawns, EngineLaw, follow-Keeping, outside-Keeping, emit-Keeping,
}

module _ (env : Env) (c : Codec) (py : Python) (floats : Floats) {World : Type 0}
    (settings : Settings) (services : Services World) (P : StateProjection → BudgetManager → Type 0)
    (u : Untouched env floats P) where
  abbrev pub Keeps {ℓ} : {T : Type ℓ} → Action (Orchestrator c World) T → Type 0
  Keeps m =
      (s : Orchestrator c World) → P s.proj s.world.budget → P (m s).1.proj (m s).1.world.budget

  pub then-Keeps {ℓ κ} :
      {T : Type ℓ} {U : Type κ} (m : Action (Orchestrator c World) T)
      (k : T → Action (Orchestrator c World) U)
      → Keeps m
      → ((v : T) → Keeps (k v))
      → Keeps (m >>= k)
  then-Keeps m k h next s p = follow-Keeping env c floats P (m s) k (h s p) (λ v t. next v t)

  pub outside-Keeps {ℓ} : {T : Type ℓ} (f : Action World T) → Keeps (outside f)
  outside-Keeps f s p = p

  pub emits-Keeps :
      (type : EventType) (issue : String) (payload : Fields) (xid : Option String)
      → is_spawned type ≡ false
      → Keeps (emits env c settings services type issue payload xid)
  unfolding emits event emit
  emits-Keeps type issue payload xid quiet s p =
      let ev =
        event env c settings services type issue payload xid (services.utcnow s.world.world) in
      subst (λ (r : Result Event × Orchestrator c World). P r.1.proj r.1.world.budget)
        (follow_return (emit env c ev s))
        (emit-Keeping env c floats P ev return s p
          λ n q log e. u.events s.proj q s.world.budget (record ev { event_id = n }) quiet e p)
    where
      follow_return :
          (r : Result Event × Orchestrator c World)
          → follow (return {S = Orchestrator c World} {T = Event}) r ≡ r
      follow_return (ok v, t) = refl
      follow_return (err e, t) = refl

  pub last_emits-Keeps :
      (type : EventType) (issue : String) (payload : Fields) (xid : Option String)
      → is_spawned type ≡ false
      → Keeps (emits env c settings services type issue payload xid >> return {T = Unit {0}} tt)
  unfolding emits
  last_emits-Keeps type issue payload xid quiet =
      then-Keeps (emits env c settings services type issue payload xid) _
        (emits-Keeps type issue payload xid quiet) λ _ s p. p

  pub activate-Keeps : (issue : String) → Keeps (activate env c py floats settings services issue)
  unfolding activate emits
  activate-Keeps issue =
      then-Keeps (outside (services.head_of settings.target)) _
        (outside-Keeps (services.head_of settings.target)) at_head
    where
      at_head : (o : Option String) → Keeps (activate_at env c py floats settings services issue o)
      at_head none s p = p
      at_head (some base) s p = last_emits-Keeps issue_activated issue _ none refl s p

  pub escalate-Keeps :
      (issue reason taxonomy : String)
      → Keeps (escalate env c py floats settings services issue reason taxonomy)
  unfolding escalate emits
  escalate-Keeps issue reason taxonomy =
      then-Keeps (outside (services.list_attempt_refs issue)) _
        (outside-Keeps (services.list_attempt_refs issue))
        λ refs. last_emits-Keeps issue_escalated issue _ none refl

  finish_rejected-Keeps :
      (issue xid : String) (base : Value) (common : Fields → Fields) (taxonomy : String)
      → Keeps (finish_rejected env c py floats settings services issue xid base common taxonomy)
  unfolding finish_rejected
  finish_rejected-Keeps issue xid base common taxonomy =
      then-Keeps (emits env c settings services execution_finished issue _ (some xid)) _
        (emits-Keeps execution_finished issue _ (some xid) refl)
        λ _. outside-Keeps (services.reset_hard base)

  finish-Keeps :
      (r : Route) (issue xid : String) (base : Value) (common : Fields → Fields)
      → Keeps (finish env c py floats settings services r issue xid base common)
  unfolding finish
  finish-Keeps timed_out issue xid base common =
      finish_rejected-Keeps issue xid base common "timeout"
  finish-Keeps failed issue xid base common = finish_rejected-Keeps issue xid base common "crashed"
  finish-Keeps finished issue xid base common =
      last_emits-Keeps execution_finished issue _ (some xid) refl
  finish-Keeps out_of_turns issue xid base common =
      then-Keeps (emits env c settings services execution_finished issue _ (some xid)) _
        (emits-Keeps execution_finished issue _ (some xid) refl)
        λ _.
          then-Keeps (outside (services.list_attempt_refs issue)) _
            (outside-Keeps (services.list_attempt_refs issue))
            λ refs.
              then-Keeps (emits env c settings services issue_escalated issue _ none) _
                (emits-Keeps issue_escalated issue _ none refl)
                λ _. outside-Keeps (services.reset_hard base)

  conclude-Keeps :
      (issue xid : String) (base : Value) (result : EngineResult)
      → Keeps (conclude env c py floats settings services issue xid base result)
  unfolding conclude join
  conclude-Keeps issue xid base result =
      then-Keeps (outside (services.snapshot_commit (join "work " xid))) _
        (outside-Keeps (services.snapshot_commit (join "work " xid)))
        λ taken.
          then-Keeps (tip_of env c py floats settings services taken) _ (tip-Keeps taken) λ tip.
            then-Keeps (outside (services.set_attempt_ref issue xid tip)) _
              (outside-Keeps (services.set_attempt_ref issue xid tip))
              λ _.
                then-Keeps (budgeting (record_usage floats result.usage))
                  (λ _.
                    finish env c py floats settings services (route result settings.max_turns) issue
                      xid base (finished_payload base tip result settings.pid))
                  (λ s p. u.usage s.proj s.world.budget result.usage p)
                  λ _.
                    finish-Keeps (route result settings.max_turns) issue xid base
                      (finished_payload base tip result settings.pid)
    where
      tip-Keeps : (o : Option String) → Keeps (tip_of env c py floats settings services o)
      tip-Keeps none s p = p
      tip-Keeps (some tip) s p = elim (Bool-cases (tip == "")) [
        | inl e ↦ rw (e, tip_of) p
        | inr e ↦ rw (e, tip_of) p
      ]

  emit_all-Keeps : (evs : List Event) → NoSpawns evs → Keeps (emit_all env c settings services evs)
  unfolding emit_all emit
  emit_all-Keeps [] quiet s p = p
  emit_all-Keeps (ev ∷ evs) quiet s p =
      emit-Keeping env c floats P ev (λ _. emit_all env c settings services evs) s p
        λ n q log e.
          emit_all-Keeps evs quiet.1 (record s { log = log; proj = q })
            (u.events s.proj q s.world.budget (record ev { event_id = n }) quiet.0 e p)

  execute_at-Keeps :
      EngineLaw services
      → (issue xid : String) (base : Option Value)
      → Keeps (execute_at env c py floats settings services issue xid base)
  unfolding execute_at join
  execute_at-Keeps law issue xid none = λ s p. p
  execute_at-Keeps law issue xid (some base) =
      then-Keeps (outside (services.checkout_branch (join "issue/" issue) base)) _
        (outside-Keeps (services.checkout_branch (join "issue/" issue) base))
        λ _.
          then-Keeps (outside (services.has_prompt xid)) _ (outside-Keeps (services.has_prompt xid))
            λ there.
              then-Keeps (ensure_prompt env c py floats settings services there issue xid) _
                (ensured there)
                λ _ s p.
                  outside-Keeping env c floats P (services.engine_run settings.is_nt xid) _ s p
                    λ ran w e.
                      then-Keeps (emit_all env c settings services ran.appended)
                        (λ _.
                          engine_outcome env c py floats settings services ran.outcome >>= λ result.
                          conclude env c py floats settings services issue xid base result)
                        (emit_all-Keeps ran.appended
                          (law settings.is_nt xid s.world.world ran (ap (λ r. r.0) e)))
                        (λ _. settled ran.outcome)
                        (record s { world = record s.world { world = w } }) p
    where
      ensured : (b : Bool) → Keeps (ensure_prompt env c py floats settings services b issue xid)
      ensured true s p = p
      ensured false s p = prompted (build_prompt py s.proj issue settings.commands) s p
        where
          prompted :
              (r : Result String)
              → Keeps (raising r >>= λ prompt. outside (services.write_prompt xid prompt))
          prompted (ok prompt) s p = p
          prompted (err e) s p = p

      settled :
          (r : Result EngineResult)
          → Keeps (
              engine_outcome env c py floats settings services r >>= λ result.
              conclude env c py floats settings services issue xid base result)
      settled (ok result) = conclude-Keeps issue xid base result
      settled (err e) = λ s p. p

  pub execute-Keeps :
      EngineLaw services
      → (issue : String) (ex : ExecutionView)
      → Keeps (execute env c py floats settings services issue ex)
  unfolding execute
  execute-Keeps law issue ex s p =
      execute_at-Keeps law issue ex.execution_id (not_none (base_of s.proj issue ex.base_commit)) s
        p
