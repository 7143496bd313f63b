-- ===== src/Loop/Pinned.antt =====
-- The pin gate of `_commit_sequence`: what holds once an intent to commit is written.
use draindeck.Base.{String, Bool, true, false, ◌&&◌, Option, some, ◌≡◌, refl, and-true}
use draindeck.Base.Json.{Fields, str, end, field, truthy}
use draindeck.Base.Result.{Result, Error, ok, err}
use draindeck.Base.Action.{Action, ◌>>=◌, follow, Ends}
use draindeck.States.{Env}
use draindeck.Events.Schema.{Event, EventType, commit_intent}
use draindeck.Events.Log.Codec.{Codec}
use draindeck.Events.Log.Append.{EventLog, append}
use draindeck.Events.Projection.View.{StateProjection, ExecutionView}
use draindeck.Events.Projection.Replay.{apply}
use draindeck.Recovery.State.{emit_then}
use draindeck.Loop.Services.{Services, Settings, Python}
use draindeck.Loop.Emits.{Orchestrator, outside, emits, event}
use draindeck.Loop.Verdicts.{pin_gate, intend, is_pinned}

module _ {c : Codec} {World : Type 0} where
  -- The orchestrator once a service has left the world `w`.
  abbrev pub with_world : Orchestrator c World → World → Orchestrator c World
  with_world s w = record s { world = record s.world { world = w } }

  -- How a call of a service ends, with what follows it.
  pub outside_then {ℓ κ ν} :
      {T : Type ℓ} {U : Type κ} (Q : U → Orchestrator c World → Type ν)
      (R : Orchestrator c World → Type ν) (f : Action World T)
      (k : T → Action (Orchestrator c World) U) (s : Orchestrator c World)
      → ((v : T) (w : World) → f s.world.world ≡ (ok v, w) → Ends Q R (k v (with_world s w)))
      → ((e : Error) (w : World) → f s.world.world ≡ (err e, w) → R (with_world s w))
      → Ends Q R ((outside f >>= k) s)
  outside_then {T = T} Q R f k s returned raised = go (f s.world.world) refl
    where
      go :
          (r : Result T × World) → f s.world.world ≡ r → Ends Q R (follow k (r.0, with_world s r.1))
      go (ok v, w) e = returned v w e
      go (err x, w) e = raised x w e

module _ (env : Env) (c : Codec) (py : Python) {World : Type 0} (settings : Settings)
    (services : Services World) where
  -- An event of this type, issue, execution and payload is the next one of the log, and applied.
  abbrev pub Emitted :
      EventType
      → String
      → Option String
      → Fields
      → Orchestrator c World
      → Orchestrator c World
      → Type 0
  Emitted type issue xid payload s t =
      (ev : Event) × (ev.type ≡ type)
      × (ev.issue_id ≡ some issue)
      × (ev.execution_id ≡ xid)
      × (ev.payload ≡ payload)
      × (append c s.log ev ≡ ok (ev.event_id, t.log))
      × (apply env s.proj ev ≡ ok t.proj)

  -- The end that is about to be committed was validated and reviewed as it is, and exists; the world
  -- is as that question left it: nothing has been merged.
  pub record Pinned (issue : String) (ex : ExecutionView) (s t : Orchestrator c World)
      : Type 0 where
    pub has_end : truthy ex.end_commit ≡ true
    pub validated : py.same ex.end_commit ex.validated_commit ≡ true
    pub reviewed : py.same ex.validated_commit ex.reviewed_commit ≡ true
    pub exists : services.commit_exists ex.end_commit s.world.world ≡ (ok true, t.world.world)
    pub intended :
        Emitted commit_intent issue
          (some ex.execution_id)
          (field "end_commit" ex.end_commit (field "target_branch" (str settings.target) end))
          s
          t

  -- How an emission of the orchestrator ends, with what follows it.
  pub emits_then {κ ν} :
      {U : Type κ} (Q : U → Orchestrator c World → Type ν) (R : Orchestrator c World → Type ν)
      (type : EventType) (issue : String) (payload : Fields) (xid : Option String)
      (k : Event → Action (Orchestrator c World) U) (s : Orchestrator c World)
      → ((ev : Event) (log : EventLog c) (q : StateProjection)
          → Emitted type issue xid payload s (record s { log = log; proj = q })
          → Ends Q R (k ev (record s { log = log; proj = q })))
      → ((t : Orchestrator c World) → t.world ≡ s.world → t.proj ≡ s.proj → R t)
      → Ends Q R ((emits env c settings services type issue payload xid >>= k) s)
  unfolding emits event
  emits_then Q R type issue payload xid k s sent raised =
      let ev =
        event env c settings services type issue payload xid (services.utcnow s.world.world) in
      emit_then env c Q R ev k s
        (λ n log q a e.
          sent (record ev { event_id = n }) log q
            (record ev { event_id = n }, refl, refl, refl, refl, a, e))
        raised

  pub pin_gate-Pinned :
      (b : Bool) (issue : String) (ex : ExecutionView) (s : Orchestrator c World)
      → is_pinned env c py settings services ex ≡ b
      → Ends
          (λ _ t. Pinned issue ex s t)
          (λ t. t.proj ≡ s.proj)
          (pin_gate env c py settings services b issue ex s)
  unfolding is_pinned emits
  pin_gate-Pinned false issue ex s e = refl
  pin_gate-Pinned true issue ex s e =
      outside_then (λ _ t. Pinned issue ex s t) (λ t. t.proj ≡ s.proj)
        (services.commit_exists ex.end_commit)
        (λ exists. intend env c py settings services exists issue ex) s answered (λ x w _. refl)
    where
      answered :
          (exists : Bool) (w : World)
          → services.commit_exists ex.end_commit s.world.world ≡ (ok exists, w)
          → Ends
              (λ _ t. Pinned issue ex s t)
              (λ t. t.proj ≡ s.proj)
              (intend env c py settings services exists issue ex (with_world s w))
      answered false w asked = refl
      answered true w asked =
          let (has_end, rest) =
            and-true (truthy ex.end_commit)
              (py.same ex.end_commit ex.validated_commit
                && py.same ex.validated_commit ex.reviewed_commit)
              e in
          let (validated, reviewed) =
            and-true (py.same ex.end_commit ex.validated_commit)
              (py.same ex.validated_commit ex.reviewed_commit) rest in
          emits_then (λ _ t. Pinned issue ex s t) (λ t. t.proj ≡ s.proj) commit_intent issue
            (field "end_commit" ex.end_commit (field "target_branch" (str settings.target) end))
            (some ex.execution_id) (λ _ t. (ok tt, t)) (with_world s w)
            (λ ev log q sent. record {
              has_end = has_end;
              validated = validated;
              reviewed = reviewed;
              exists = asked;
              intended = sent;
            })
            (λ t _ same. same)
