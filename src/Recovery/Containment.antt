-- ===== src/Recovery/Containment.antt =====
-- src/runtime/recovery/containment.py: which containments a new controller may release at startup.
use draindeck.Base.{
  String, Bool, true, false, ◌&&◌, Option, none, some, List, [], ◌∷◌, string_comparable,
  if◌then◌else◌,
}
use draindeck.Base.Dict.{get}
use draindeck.Base.Json
use draindeck.Base.Json.{Value, Fields, null, str, obj, end, field}
use draindeck.Base.Result.{Result, ok, err, workspace_blocked}
use draindeck.Base.Action.{Action, ◌>>=◌, ◌>>◌, return, raise}
use draindeck.States.{Env}
use draindeck.Events.Schema.{Event, execution_containment_released}
use draindeck.Events.Log.Codec.{Codec}
use draindeck.Events.Log.Replay.{replay}
use draindeck.Events.Projection.View.{
  StateProjection, ExecutionView, ContainmentView, ContainmentState, established, unconfirmed,
  empty, is_workspace_blocked, unreleased_containments,
}
use draindeck.Events.Projection.Executions.{is_text}
use draindeck.Events.Projection.Containments.{valid_job}
use draindeck.Events.Projection.Replay.{rebuild}
use draindeck.Recovery.State.{Runtime, emit}

-- ControllerIdentityState and ControllerIdentityResult of src/runtime/workspace_lease.py
pub data ControllerIdentityState : Type 0 where
  live_match dead pid_reused unknown : ControllerIdentityState

pub record ControllerIdentityResult : Type 0 where
  pub state : ControllerIdentityState
  pub detail : String

unfoldable pub controller_value : ControllerIdentityState → String
controller_value live_match = "LIVE_MATCH"
controller_value dead = "DEAD"
controller_value pid_reused = "PID_REUSED"
controller_value unknown = "UNKNOWN"

abbrev pub is_gone : ControllerIdentityState → Bool
is_gone dead = true
is_gone pid_reused = true
is_gone _ = false

-- What the world answers: the probe of a controller, and the time in the formats of the proof
-- and of the envelope.
pub record Probes (World : Type 0) : Type 0 where
  pub controller_probe : World → Value → ControllerIdentityResult
  pub now : World → String
  pub utcnow : World → String

-- f"{xid}/{generation}"
unfoldable pub join : String → String → String
join String.[] t = t
join (String.◌∷◌ x s) t = String.◌∷◌ x (join s t)

-- The lease of a prepared boundary, if it is the one that the protocol asks for.
abbrev pub approved_lease : Value → Option Fields
approved_lease (obj lease) =
    if is_text "Global" (Json.get_null "scope" lease)
      && is_text "v1" (Json.get_null "version" lease)
    then some lease
    else none
approved_lease _ = none

abbrev pub job_of : Option Fields → Value
job_of none = null
job_of (some payload) = Json.get_null "job" payload

abbrev pub is_valid_job : Value → Bool
is_valid_job (obj job) = valid_job job
is_valid_job _ = false

-- The test on the job, which is made only once the boundary is established.
abbrev pub approved_job : ContainmentState → Option Fields → Bool
approved_job established payload = is_valid_job (job_of payload)
approved_job unconfirmed payload = is_valid_job (job_of payload)
approved_job _ payload = true

unfoldable pub reason_fields : ControllerIdentityResult → Fields → Fields → Fields
unfolding Json.get_null controller_value
reason_fields result prepared lease =
    field "controller_identity_state" (str (controller_value result.state)) (
      field "controller_identity_detail" (str result.detail) (
        field "atomic_launch" (Json.get_null "launch_mode" prepared) (
          field "protocol_version" (Json.get_null "protocol_version" prepared)
            (field "lease" (obj lease) end))))

abbrev pub when_gone : ControllerIdentityResult → Fields → Fields → Option Fields
when_gone result prepared lease =
    if is_gone result.state then some (reason_fields result prepared lease) else none

-- The tests behind the one on the lease.
abbrev pub leased_reason :
    (Value → ControllerIdentityResult) → ContainmentView → Option Fields → Option Fields
leased_reason probe view none = none
leased_reason probe view (some lease) =
    if approved_job view.state view.established_payload
    then when_gone (probe (Json.get_null "controller" view.prepared_payload)) view.prepared_payload
        lease
    else none

-- _restart_release_reason
unfoldable pub restart_release_reason :
    (Value → ControllerIdentityResult) → ContainmentView → Option Fields
unfolding Json.get_null reason_fields
restart_release_reason probe view =
    if is_text "windows-job-v1" (Json.get_null "protocol_version" view.prepared_payload)
      && is_text "windows-job-list-at-create" (Json.get_null "launch_mode" view.prepared_payload)
    then leased_reason probe view (approved_lease (Json.get_null "lease" view.prepared_payload))
    else none

-- The ExecutionContainmentReleased fact.
unfoldable pub release_event :
    String → ExecutionView → ContainmentView → Fields → String → String → Event
release_event key execution view reason proof_ts ts = record {
  type = execution_containment_released;
  payload = field "workspace_key" (str key) (
      field "containment_generation" (str view.generation) (
        field "proof_kind" (str "restart-controller-death")
          (field "proof" (obj reason) (field "proof_ts" (str proof_ts) end))));
  issue_id = some execution.issue_id;
  execution_id = some view.execution_id;
  run_id = null;
  ts = ts;
  event_id = 0;
}

module _ {World : Type 0} (probes : Probes World) (env : Env) (c : Codec) (key : String) where
  -- One view whose reason and execution are known: the event, and its label.
  abbrev pub release_one :
      ContainmentView
      → Option Fields
      → Option ExecutionView
      → Action (Runtime c World) (List String)
  release_one view none execution = return []
  release_one view (some reason) none = return []
  release_one view (some reason) (some execution) = do
    λ s.
        emit env c
          (release_event key execution view reason (probes.now s.world) (probes.utcnow s.world)) s
    return (join view.execution_id (join "/" view.generation) ∷ [])

  -- The body of the loop.
  unfoldable pub release_view : ContainmentView → Action (Runtime c World) (List String)
  unfolding restart_release_reason release_event emit join
  release_view view s =
      release_one view (restart_release_reason (probes.controller_probe s.world) view)
        (get view.execution_id s.proj.executions) s

  abbrev prepend : List String → List String → List String
  prepend [] ys = ys
  prepend (x ∷ xs) ys = x ∷ prepend xs ys

  unfoldable pub release_all : List ContainmentView → Action (Runtime c World) (List String)
  unfolding release_view
  release_all [] = return []
  release_all (view ∷ views) = do
    labels ← release_view view
    rest ← release_all views
    return (prepend labels rest)

  abbrev pub refuse_blocked : Bool → List String → Action (Runtime c World) (List String)
  refuse_blocked true labels = raise workspace_blocked
  refuse_blocked false labels = return labels

  -- The body behind the replay.
  unfoldable pub resolve_replayed : Action (Runtime c World) (List String)
  unfolding release_all unreleased_containments is_workspace_blocked
  resolve_replayed = do
    released ← (λ s. release_all (unreleased_containments s.proj (some key)) s)
    λ s. refuse_blocked (is_workspace_blocked s.proj key) released s

  abbrev pub resolve_from :
      Runtime c World → Result StateProjection → Result (List String) × Runtime c World
  resolve_from s (err e) = (err e, s)
  resolve_from s (ok p) = resolve_replayed (record s { proj = p })

  abbrev pub rebuilt : Result (List Event) → Result StateProjection
  rebuilt (err e) = err e
  rebuilt (ok evs) = rebuild env empty evs

  -- resolve_startup_containment: `projection` is that of the state that it leaves.
  unfoldable pub resolve_startup_containment : Action (Runtime c World) (List String)
  unfolding resolve_replayed
  resolve_startup_containment s = resolve_from s (rebuilt (replay c s.log.content))
