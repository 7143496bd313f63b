-- ===== src/Loop/Emits.antt =====
-- What the steps of src/runtime/loop.py share: its state, `_emit`, `_event`, and calls of services.
use draindeck.Base.{ℕ, String, Option, none, some, List, [], ◌∷◌}
use draindeck.Base.Json.{Value, Fields, Items, null, str, int, pos, nil, cons}
use draindeck.Base.Result.{Result, ok}
use draindeck.Base.Action.{Action, ◌>>◌, return, modify}
use draindeck.States.{Env}
use draindeck.Events.Schema.{Event, EventType}
use draindeck.Events.Log.Codec.{Codec}
use draindeck.Recovery.State.{Runtime, emit}
use draindeck.Loop.Budget.{BudgetManager}
use draindeck.Loop.Services.{Services, Settings, Beside}

abbrev pub texts : List String → Items
texts [] = nil
texts (s ∷ ss) = cons (str s) (texts ss)

abbrev pub items : List Value → Items
items [] = nil
items (v ∷ vs) = cons v (items vs)

abbrev pub number : ℕ → Value
number n = int (pos n)

-- None as a JSON value
abbrev pub text_or_null : Option String → Value
text_or_null none = null
text_or_null (some s) = str s

abbrev pub value_or_null : Option Value → Value
value_or_null none = null
value_or_null (some v) = v

-- The orchestrator keeps the log and the projection as recovery does; it has no report.
abbrev pub Orchestrator : Codec → Type 0 → Type 0
Orchestrator c World = Runtime c (Beside World)

module _ {c : Codec} {World : Type 0} where
  -- A call that changes the world and nothing else of the orchestrator.
  abbrev pub outside {ℓ} : {T : Type ℓ} → Action World T → Action (Orchestrator c World) T
  outside f s =
      let (r, w) = f s.world.world in (r, record s { world = record s.world { world = w } })

  abbrev pub reading {ℓ} :
      {T : Type ℓ} → (Orchestrator c World → T) → Action (Orchestrator c World) T
  reading f s = (ok (f s), s)

  abbrev pub raising {ℓ} : {T : Type ℓ} → Result T → Action (Orchestrator c World) T
  raising r s = (r, s)

  abbrev pub budgeting : (BudgetManager → BudgetManager) → Action (Orchestrator c World) (Unit {0})
  budgeting f = modify (λ s. record s { world = record s.world { budget = f s.world.budget } })

module _ (env : Env) (c : Codec) {World : Type 0} (settings : Settings)
    (services : Services World) where
  -- _event
  unfoldable pub event : EventType → String → Fields → Option String → String → Event
  event type issue payload xid ts = record {
    type = type;
    payload = payload;
    issue_id = some issue;
    execution_id = xid;
    run_id = settings.run_id;
    ts = ts;
    event_id = 0;
  }

  -- self._emit(self._event(…))
  unfoldable pub emits :
      EventType → String → Fields → Option String → Action (Orchestrator c World) Event
  unfolding emit event
  emits type issue payload xid s =
      emit env c (event type issue payload xid (services.utcnow s.world.world)) s

  -- The events that an engine appends, in their order.
  unfoldable pub emit_all : List Event → Action (Orchestrator c World) (Unit {0})
  unfolding emit
  emit_all [] = return tt
  emit_all (ev ∷ evs) = do emit env c ev; emit_all evs
