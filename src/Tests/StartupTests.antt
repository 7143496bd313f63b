-- ===== src/Tests/StartupTests.antt =====
-- The startup resolution of a log whose execution is contained, by a controller that is gone.
use draindeck.Base.{
  true, Option, none, some, [], ◌∷◌, ◌≡◌, refl, ◌⊎◌, string_comparable, pair_comparable,
}
use draindeck.Base.Dict.{get, put}
use draindeck.Base.Json
use draindeck.Base.Json.{obj, str, Fields}
use draindeck.Base.Result.{ok}
use draindeck.Events.Schema
use draindeck.Events.Log.Codec.{to_line}
use draindeck.Events.Log.Replay.{replay}
use draindeck.Events.Log.Append.{append}
use draindeck.Events.Projection.View.{ContainmentView, is_released, unreleased_containments}
use draindeck.Events.Projection.Checks.{list_or_nil, string_of, required_identity, nonempty_mapping}
use draindeck.Events.Projection.Issues.{issue_created_handler, issue_transition_handler}
use draindeck.Events.Projection.Executions.{new_view, execution_spawned_handler}
use draindeck.Events.Projection.Containments.{
  containment_prepared_handler, containment_released_handler, has_unreleased, check_prepared,
  check_released,
}
use draindeck.Events.Projection.Replay.{rebuild}
use draindeck.Recovery.State.{Runtime}
use draindeck.Recovery.Containment.{Probes, dead, reason_fields, join, resolve_startup_containment}
use draindeck.Recovery.Release.{
  Proved, resolve_startup_containment-Proved, resolve_startup_containment-clear,
}
use draindeck.Samples.{sample_env, sample_issues}
use draindeck.Tests.LogTests.{whole_values}
use draindeck.Tests.RecoveryTests.{
  contained_events, contained_view, replayed, runtime, rebuilds_contained, replays_contained,
}

abbrev probes : Probes (Unit {0})
probes = record {
  controller_probe = λ w identity. record { state = dead; detail = "no such process" };
  now = λ w. "2026-07-05T22:00:00.5Z";
  utcnow = λ w. "2026-07-05T22:00:00Z";
}

abbrev start : Runtime whole_values (Unit {0})
start = runtime contained_events 4

abbrev after : Runtime whole_values (Unit {0})
after = (resolve_startup_containment probes sample_env whole_values "w1" start).1

abbrev or_prepared : Option ContainmentView → ContainmentView
or_prepared none = contained_view
or_prepared (some v) = v

abbrev view_after : ContainmentView
view_after = or_prepared (get ("A-e1", "g1") after.proj.containments)

program : Unit {0}
unfolding replay rebuild resolve_startup_containment to_line get put Json.get Json.get_null
    Schema.value Schema.of_value sample_issues append issue_created_handler list_or_nil
    issue_transition_handler execution_spawned_handler new_view containment_prepared_handler
    containment_released_handler string_of has_unreleased check_prepared check_released
    required_identity nonempty_mapping reason_fields join
program = tt

returns :
    resolve_startup_containment probes sample_env whole_values "w1" start
    ≡ (ok ("A-e1/g1" ∷ []), after)
unfolding program
returns = refl

finds_view : get ("A-e1", "g1") after.proj.containments ≡ some view_after
unfolding program
finds_view = refl

is_free : is_released view_after.state ≡ true
unfolding program
is_free = refl

in_workspace : view_after.workspace_key ≡ "w1"
unfolding program
in_workspace = refl

resolve_startup_containment-Proved_example :
    ((u : ContainmentView) × (get ("A-e1", "g1") replayed.containments ≡ some u)
      × (is_released u.state ≡ true))
    ⊎ Proved probes tt (unreleased_containments replayed (some "w1")) ("A-e1", "g1")
resolve_startup_containment-Proved_example =
    resolve_startup_containment-Proved probes sample_env whole_values "w1" start after
      ("A-e1/g1" ∷ []) contained_events replayed ("A-e1", "g1") view_after replays_contained
      rebuilds_contained returns finds_view is_free

resolve_startup_containment-clear_example : is_released view_after.state ≡ true
resolve_startup_containment-clear_example =
    resolve_startup_containment-clear probes sample_env whole_values "w1" start after
      ("A-e1/g1" ∷ []) ("A-e1", "g1") view_after returns finds_view in_workspace
