-- ===== src/Events/Projection/Issues.antt =====
-- The handlers of projections.py for issues.
use draindeck.Base.{
  String, Bool, true, false, Option, none, some, List, [], string_comparable, if◌then◌else◌, not,
}
use draindeck.Base.Dict.{Dict, get, put}
use draindeck.Base.Json
use draindeck.Base.Json.{Value, Fields, str, null, arr, nil, truthy}
use draindeck.Base.Result.{Result, ok, transition_error, ◌>>=◌, ◌>>◌, require, of_option}
use draindeck.States.{Env, pending}
use draindeck.Events.Schema.{Event, EventType, issue_activated}
use draindeck.Events.Projection.View.{StateProjection}
use draindeck.Events.Projection.Checks.{need, list_or_nil}

abbrev pub is_some {ℓ} : {A : Type ℓ} → Option A → Bool
is_some none = false
is_some (some _) = true

-- payload.get(name, default)
abbrev get_default : Value → String → Fields → Value
get_default v name fs = elim (Json.get name fs) [ none ↦ v | some w ↦ w ]

abbrev or_empty_list : Value → Value
or_empty_list v = if truthy v then v else arr nil

-- `if deps: p.issue_depends_on[iid] = list(deps)`
abbrev record_deps : String → List Value → Dict String (List Value) → Dict String (List Value)
record_deps iid [] d = d
record_deps iid deps d = put iid deps d

-- _issue_created
unfoldable pub issue_created_handler : StateProjection → Event → Result StateProjection
unfolding need
issue_created_handler p ev = do
  iid ← need ev.issue_id
  require (not (is_some (get iid p.issues))) transition_error
  deps ← list_or_nil (Json.get_null "depends_on" ev.payload)
  ok (record p {
    issues = put iid pending p.issues;
    issue_depends_on = record_deps iid deps p.issue_depends_on;
    issue_meta =
        put iid
          (record {
            title = get_default (str "") "title" ev.payload;
            body = get_default (str "") "body" ev.payload;
            acceptance_criteria = or_empty_list (Json.get_null "acceptance_criteria" ev.payload);
          })
          p.issue_meta;
  })

-- `if ev.type is EventType.ISSUE_ACTIVATED`: a truthy base commit is pinned for the issue.
abbrev pin_base : EventType → String → Fields → Dict String Value → Dict String Value
pin_base issue_activated iid payload d =
    let bc = Json.get_null "base_commit" payload in if truthy bc then put iid bc d else d
pin_base _ iid payload d = d

module _ (env : Env) where
  -- _issue_transition
  unfoldable pub issue_transition_handler : StateProjection → Event → Result StateProjection
  unfolding need
  issue_transition_handler p ev = do
    iid ← need ev.issue_id
    cur ← of_option transition_error (get iid p.issues)
    fn ← of_option transition_error (env.issue_transitions cur ev.type)
    next ← fn ev.payload
    ok (record p {
      issues = put iid next p.issues;
      issue_base_commit = pin_base ev.type iid ev.payload p.issue_base_commit;
    })
