-- ===== src/Events/Projection/Containments.antt =====
-- The handlers of projections.py for execution containment.
use draindeck.Base.{
  String, Bool, true, false, none, some, [], ◌∷◌, ◌==◌, string_comparable, pair_comparable, not,
  ◌&&◌, ◌||◌,
}
use draindeck.Base.Dict.{Dict, get, put}
use draindeck.Base.Json
use draindeck.Base.Json.{Value, Fields, is_true, is_false}
use draindeck.Base.Result.{Result, ok, transition_error, ◌>>=◌, ◌>>◌, require, of_option}
use draindeck.States.{is_executing}
use draindeck.Events.Schema.{Event}
use draindeck.Events.Projection.View.{
  StateProjection, ExecutionView, ContainmentView, ContainmentState, prepared, established,
  unconfirmed, released, is_released,
}
use draindeck.Events.Projection.Issues.{is_some}
use draindeck.Events.Projection.Checks.{
  need, string_of, mapping_of, field_of, nonempty_mapping, positive_int, required_identity,
}

-- _containment_execution
unfoldable pub containment_execution : StateProjection → Event → Result ExecutionView
unfolding need
containment_execution p ev = do
  xid ← need ev.execution_id
  iid ← need ev.issue_id
  view ← of_option transition_error (get xid p.executions)
  require (view.issue_id == iid) transition_error
  require (is_executing view.state) transition_error
  ok view

pub record ContainmentKey : Type 0 where
  pub execution_id : String
  pub workspace_key : String
  pub generation : String

-- _containment_key
unfoldable pub containment_key : Event → Result ContainmentKey
unfolding need
containment_key ev = do
  xid ← need ev.execution_id
  workspace_key ← string_of ev.payload "workspace_key"
  generation ← string_of ev.payload "containment_generation"
  ok (record { execution_id = xid; workspace_key = workspace_key; generation = generation })

abbrev pub dict_key : ContainmentKey → String × String
dict_key k = (k.execution_id, k.generation)

-- `any(existing.execution_id == xid and existing.state is not RELEASED …)`
unfoldable pub has_unreleased : String → Dict (String × String) ContainmentView → Bool
has_unreleased xid [] = false
has_unreleased xid ((k, view) ∷ d) =
    view.execution_id == xid && not (is_released view.state) || has_unreleased xid d

abbrev prepared_checks : Fields → Result (Unit {0})
prepared_checks payload = do
  string_of payload "protocol_version"
  string_of payload "launch_mode"
  required_identity payload "controller"
  lease ← mapping_of payload "lease"
  string_of lease "scope"
  string_of lease "version"
  ok tt

unfoldable pub check_prepared : Fields → Result (Unit {0})
check_prepared payload = prepared_checks payload

abbrev new_containment : ContainmentKey → Fields → ContainmentView
new_containment k payload = record {
  execution_id = k.execution_id;
  workspace_key = k.workspace_key;
  generation = k.generation;
  state = prepared;
  prepared_payload = payload;
  established_payload = none;
  unconfirmed_payload = none;
  released_payload = none;
}

-- _containment_prepared
unfoldable pub containment_prepared_handler : StateProjection → Event → Result StateProjection
unfolding containment_execution containment_key
containment_prepared_handler p ev = do
  containment_execution p ev
  k ← containment_key ev
  require (not (is_some (get (dict_key k) p.containments))) transition_error
  require (not (has_unreleased k.execution_id p.containments)) transition_error
  check_prepared ev.payload
  ok (record p { containments = put (dict_key k) (new_containment k ev.payload) p.containments })

abbrev pub matching_view :
    StateProjection → ContainmentKey → Result (ContainmentKey × ContainmentView)
matching_view p k = do
  view ← of_option transition_error (get (dict_key k) p.containments)
  require (view.workspace_key == k.workspace_key) transition_error
  ok (k, view)

-- _matching_containment
unfoldable pub matching_containment :
    StateProjection → Event → Result (ContainmentKey × ContainmentView)
unfolding containment_execution containment_key
matching_containment p ev = do containment_execution p ev; k ← containment_key ev; matching_view p k

-- The view is one object, which the dict holds.
abbrev write_containment : StateProjection → ContainmentKey → ContainmentView → StateProjection
write_containment p k view = record p { containments = put (dict_key k) view p.containments }

abbrev pub is_prepared : ContainmentState → Bool
is_prepared prepared = true
is_prepared _ = false

abbrev pub is_established : ContainmentState → Bool
is_established established = true
is_established _ = false

-- job.get(…) is not True, job.get(…) is not False
abbrev pub valid_job : Fields → Bool
valid_job job =
    is_true (Json.get_null "kill_on_job_close" job)
    && is_false (Json.get_null "breakaway_ok" job)
    && is_false (Json.get_null "silent_breakaway_ok" job)

abbrev established_checks : Fields → Result (Unit {0})
established_checks payload = do
  root_suspended ← field_of payload "root_suspended"
  require (is_true root_suspended) transition_error
  required_identity payload "root"
  job ← mapping_of payload "job"
  require (valid_job job) transition_error
  membership ← mapping_of payload "membership"
  require (is_true (Json.get_null "root_member" membership)) transition_error
  positive_int membership "member_count"
  ok tt

unfoldable pub check_established : Fields → Result (Unit {0})
check_established payload = established_checks payload

abbrev establish :
    StateProjection → Fields → ContainmentKey × ContainmentView → Result StateProjection
establish p payload (k, view) = do
  require (is_prepared view.state) transition_error
  check_established payload
  ok (
      write_containment p k
        (record view { state = established; established_payload = some payload }))

-- _containment_established
unfoldable pub containment_established_handler : StateProjection → Event → Result StateProjection
unfolding matching_containment
containment_established_handler p ev = do
  found ← matching_containment p ev
  establish p ev.payload found

abbrev unconfirmed_checks : Fields → Result (Unit {0})
unconfirmed_checks payload = do
  string_of payload "stage"
  string_of payload "category"
  nonempty_mapping payload "diagnostic"
  ok tt

unfoldable pub check_unconfirmed : Fields → Result (Unit {0})
check_unconfirmed payload = unconfirmed_checks payload

abbrev mark_unconfirmed :
    StateProjection → Fields → ContainmentKey × ContainmentView → Result StateProjection
mark_unconfirmed p payload (k, view) = do
  require (is_established view.state) transition_error
  check_unconfirmed payload
  ok (
      write_containment p k
        (record view { state = unconfirmed; unconfirmed_payload = some payload }))

-- _termination_unconfirmed
unfoldable pub termination_unconfirmed_handler : StateProjection → Event → Result StateProjection
unfolding matching_containment
termination_unconfirmed_handler p ev = do
  found ← matching_containment p ev
  mark_unconfirmed p ev.payload found

abbrev released_checks : Fields → Result (Unit {0})
released_checks payload = do
  string_of payload "proof_kind"
  nonempty_mapping payload "proof"
  string_of payload "proof_ts"
  ok tt

unfoldable pub check_released : Fields → Result (Unit {0})
check_released payload = released_checks payload

abbrev pub release :
    StateProjection → Fields → ContainmentKey × ContainmentView → Result StateProjection
release p payload (k, view) = do
  require (not (is_released view.state)) transition_error
  check_released payload
  ok (write_containment p k (record view { state = released; released_payload = some payload }))

-- _containment_released
unfoldable pub containment_released_handler : StateProjection → Event → Result StateProjection
unfolding matching_containment
containment_released_handler p ev = do found ← matching_containment p ev; release p ev.payload found
