-- ===== src/Tests/RecoveryTests.antt =====
-- Recovery of a log that a crash left behind a spawn, and of one with an open containment.
use draindeck.Base.{
  ℕ, true, false, Option, none, some, List, [], ◌∷◌, ◌++◌, ◌≡◌, refl, string_comparable,
  pair_comparable, ◌==◌,
}
use draindeck.Base.Dict.{get, put}
use draindeck.Base.Json
use draindeck.Base.Json.{Value, Fields, null, str, bool, int, obj, pos, end, field}
use draindeck.Base.Result.{ok, err, workspace_blocked}
use draindeck.States.{crashed, is_executing}
use draindeck.Events.Schema
use draindeck.Events.Schema.{
  Event, issue_created, issue_activated, execution_spawned, execution_containment_prepared,
}
use draindeck.Events.Log.Codec.{to_line}
use draindeck.Events.Log.Replay.{replay}
use draindeck.Events.Log.Append.{open_log, append}
use draindeck.Events.Projection.View.{
  StateProjection, ExecutionView, ContainmentView, empty, prepared,
}
use draindeck.Events.Projection.View.{is_workspace_blocked, open_executions}
use draindeck.Events.Projection.Checks.{list_or_nil, string_of, required_identity}
use draindeck.Events.Projection.Issues.{issue_created_handler, issue_transition_handler}
use draindeck.Events.Projection.Executions.{
  new_view, execution_spawned_handler, execution_transition_handler,
}
use draindeck.Events.Projection.Containments.{
  containment_prepared_handler, has_unreleased, check_prepared,
}
use draindeck.Events.Projection.Replay.{rebuild}
use draindeck.Recovery.State.{Runtime, empty_report}
use draindeck.Recovery.Reconciler.{Seams, recover}
use draindeck.Recovery.Orphans.{recover-orphans}
use draindeck.Recovery.Gate.{recover-blocked}
use draindeck.Recovery.LogKept.{recover-log_grows}
use draindeck.Samples.{event, sample_env, sample_issues, sample_executions, sample-CrashLaws}
use draindeck.Tests.LogTests.{whole_values, reads_back, one_line}

-- A repository with nothing to preserve, and nobody alive.
abbrev seams : Seams (Unit {0})
seams = record {
  is_execution_alive = λ x. false;
  preserve_residue = some (λ view w. (ok (some "refs/attempts/A/A-e1"), w));
  recover_workspace = some (λ w. (ok [], w));
  check_unwitnessed_commit = none;
  check_dirty_workspace = none;
  workspace_key = some "w1";
  utcnow = λ w. "2026-07-05T21:20:00Z";
  state_value = λ s. "EXECUTING";
}

abbrev spawned_events : List Event
spawned_events =
    event issue_created none 1 (field "title" (str "Add tests") end)
    ∷ event issue_activated none 2 (field "base_commit" (str "c0") end)
    ∷ event execution_spawned (some "A-e1") 3 end
    ∷ []

abbrev written : List Event → List (Option Value)
written [] = []
written (ev ∷ evs) = to_line whole_values ev ++ written evs

abbrev pub runtime : List Event → ℕ → Runtime whole_values (Unit {0})
runtime evs n = record {
  log = record { content = written evs; sidecars = []; last_event_id = n; is_closed = false };
  proj = empty;
  world = tt;
  report = empty_report;
}

-- The engine of A-e1 still runs.
abbrev alive_seams : Seams (Unit {0})
alive_seams = record seams { is_execution_alive = λ x. x == "A-e1" }

abbrev controller : Fields
controller = field "pid" (int (pos 7)) (field "creation_time" (str "t0") end)

abbrev contained : Fields
contained = field "workspace_key" (str "w1") (
    field "containment_generation" (str "g1") (
      field "protocol_version" (str "windows-job-v1") (
        field "launch_mode" (str "windows-job-list-at-create") (
          field "controller" (obj controller) (
            field "lease" (obj (field "scope" (str "Global") (field "version" (str "v1") end)))
              end)))))

abbrev pub contained_events : List Event
contained_events =
    spawned_events ++ event execution_containment_prepared (some "A-e1") 4 contained ∷ []

abbrev after : Runtime whole_values (Unit {0})
after = (recover seams sample_env whole_values (runtime spawned_events 3)).1

abbrev after_alive : Runtime whole_values (Unit {0})
after_alive = (recover alive_seams sample_env whole_values (runtime spawned_events 3)).1

abbrev or_default : Option ExecutionView → ExecutionView
or_default none = new_view "" "" none []
or_default (some v) = v

abbrev alive_view : ExecutionView
alive_view = or_default (get "A-e1" after_alive.proj.executions)

abbrev pub replayed : StateProjection
replayed = elim (rebuild sample_env empty contained_events) [ ok p ↦ p | err e ↦ empty ]

abbrev pub contained_view : ContainmentView
contained_view = record {
  execution_id = "A-e1";
  workspace_key = "w1";
  generation = "g1";
  state = prepared;
  prepared_payload = contained;
  established_payload = none;
  unconfirmed_payload = none;
  released_payload = none;
}

program : Unit {0}
unfolding open_log replay rebuild recover to_line get put Json.get Json.get_null Schema.value
    Schema.of_value sample_executions sample_issues append is_workspace_blocked open_executions
    issue_created_handler list_or_nil issue_transition_handler execution_spawned_handler
    execution_transition_handler new_view containment_prepared_handler string_of has_unreleased
    check_prepared required_identity
program = tt

-- The orphan is crashed, and the log has one event more.
orphan_crashed : (or_default (get "A-e1" after.proj.executions)).state ≡ crashed
unfolding program
orphan_crashed = refl

one_more : after.log.last_event_id ≡ 4
unfolding program
one_more = refl

returns_alive :
    recover alive_seams sample_env whole_values (runtime spawned_events 3) ≡ (ok tt, after_alive)
unfolding program
returns_alive = refl

finds_alive : get "A-e1" after_alive.proj.executions ≡ some alive_view
unfolding program
finds_alive = refl

still_executing : is_executing alive_view.state ≡ true
unfolding program
still_executing = refl

recover-orphans_example : alive_seams.is_execution_alive "A-e1" ≡ true
recover-orphans_example =
    recover-orphans alive_seams sample_env sample-CrashLaws whole_values (runtime spawned_events 3)
      after_alive returns_alive tt tt "A-e1" alive_view finds_alive still_executing

opens : open_log whole_values (written spawned_events) ≡ ok (runtime spawned_events 3).log
unfolding program
opens = refl

recover-log_grows_example :
    (evs more : List Event) × (replay whole_values (runtime spawned_events 3).log.content ≡ ok evs)
    × (replay whole_values after.log.content ≡ ok (evs ++ more))
recover-log_grows_example =
    recover-log_grows whole_values reads_back one_line sample_env seams (runtime spawned_events 3)
      (written spawned_events) opens

pub replays_contained :
    replay whole_values (runtime contained_events 4).log.content ≡ ok contained_events
unfolding program
replays_contained = refl

pub rebuilds_contained : rebuild sample_env empty contained_events ≡ ok replayed
unfolding program
rebuilds_contained = refl

finds_contained : get ("A-e1", "g1") replayed.containments ≡ some contained_view
unfolding program
finds_contained = refl

recover-blocked_example :
    (t : Runtime whole_values (Unit {0})) × (recover seams sample_env whole_values
        (runtime contained_events 4)
      ≡ (err workspace_blocked, t))
    × (t.log ≡ (runtime contained_events 4).log)
    × (t.world ≡ tt)
recover-blocked_example =
    recover-blocked seams sample_env whole_values (runtime contained_events 4) contained_events
      replayed ("A-e1", "g1") contained_view replays_contained rebuilds_contained finds_contained
      refl refl
