-- ===== src/Samples.antt =====
-- Inputs on which the theorems are tried: tables as docs/03-state-machine-and-event-schema.md draws
-- them, and a short log.
use draindeck.Base.{
  ℕ, String, Bool, true, false, Option, none, some, List, [], ◌∷◌, ◌≡◌, refl, sym, ap, ◌∙◌, ◌↔◌,
  ◌==◌, string_comparable, if◌then◌else◌, arith,
}
use draindeck.Base.Json
use draindeck.Base.Json.{Value, Fields, null, str, bool, int, obj, arr, pos, nil, cons, end, field}
use draindeck.Base.Result.{Result, ok, ok-injective}
use draindeck.States.{
  Env, IssueState, ExecutionState, TerminalLaws, CommitLaws, pending, active, done, needs_human,
  needs_decomposition, spawned, executing, validating, reviewing, accepted, rejected, crashed,
}
use draindeck.Events.Schema.{
  Event, EventType, issue_created, issue_activated, execution_spawned, execution_finished,
  execution_crashed, validation_passed, validation_failed, review_approved, review_rejected,
  commit_intent, commit_created, issue_completed, issue_escalated,
}
use draindeck.Recovery.Effects.{CrashLaws}

abbrev is_rejected : Fields → Bool
is_rejected payload = elim (Json.get_null "outcome" payload) [ str s ↦ s == "REJECTED" | _ ↦ false ]

abbrev is_decompose : Fields → Bool
is_decompose payload = elim (Json.get_null "reason" payload) [
  | str s ↦ s == "decompose"
  | _ ↦ false
]

unfoldable pub sample_issues : IssueState → EventType → Option (Fields → Result IssueState)
unfolding Json.get_null
sample_issues pending issue_activated = some (λ p. ok active)
sample_issues active issue_completed = some (λ p. ok done)
sample_issues active issue_escalated =
    some (λ p. ok (if is_decompose p then needs_decomposition else needs_human))
sample_issues _ _ = none

unfoldable pub sample_executions :
    ExecutionState → EventType → Option (Fields → Result ExecutionState)
unfolding Json.get_null
sample_executions executing execution_finished =
    some (λ p. ok (if is_rejected p then rejected else validating))
sample_executions executing execution_crashed = some (λ p. ok crashed)
sample_executions validating validation_passed = some (λ p. ok reviewing)
sample_executions validating validation_failed = some (λ p. ok rejected)
sample_executions reviewing review_approved = some (λ p. ok accepted)
sample_executions reviewing review_rejected = some (λ p. ok rejected)
sample_executions _ _ = none

abbrev ends : ExecutionState → Bool
ends rejected = true
ends crashed = true
ends _ = false

abbrev is_accepted : ExecutionState → Bool
is_accepted accepted = true
is_accepted _ = false

abbrev pub sample_env : Env
sample_env = record {
  issue_transitions = sample_issues;
  execution_transitions = sample_executions;
  execution_terminal = ends;
  is_commit_sequence_state = is_accepted;
  is_decimal = λ c. true;
  strptime_accepts = λ cs. true;
}

ends-final : (s : ExecutionState) (t : EventType) → ends s ≡ true → sample_executions s t ≡ none
unfolding sample_executions
ends-final rejected t e = refl
ends-final crashed t e = refl
ends-final spawned t e = absurd (cc)
ends-final _ t e = absurd (cc)

pub sample-TerminalLaws : TerminalLaws sample_env
sample-TerminalLaws = record { terminal_is_final = ends-final; executing_not_terminal = refl }

accepted_iff : (s : ExecutionState) → (is_accepted s ≡ true) ↔ (s ≡ accepted)
accepted_iff s = ground arith

accepted-final : (t : EventType) → sample_executions accepted t ≡ none
unfolding sample_executions
accepted-final t = refl

pub sample-CommitLaws : CommitLaws sample_env
sample-CommitLaws = record {
  commit_only_accepted = accepted_iff;
  accepted_is_final = accepted-final;
}

crash-row :
    (s next : ExecutionState) (fn : Fields → Result ExecutionState) (payload : Fields)
    → sample_executions s execution_crashed ≡ some fn
    → fn payload ≡ ok next
    → next ≡ crashed
unfolding sample_executions
crash-row executing next fn payload row to =
    sym (ok-injective (ap (λ o. elim o [ none ↦ ok crashed | some f ↦ f payload ]) row ∙ to))
crash-row _ next fn payload row to = absurd (cc)

pub sample-CrashLaws : CrashLaws sample_env
sample-CrashLaws = record { crash_row = crash-row }

abbrev pub event : EventType → Option String → ℕ → Fields → Event
event t xid n payload = record {
  type = t;
  payload = payload;
  issue_id = some "A";
  execution_id = xid;
  run_id = null;
  ts = "2026-07-05T21:14:03Z";
  event_id = n;
}

abbrev commits : Fields
commits = field "start_commit" (str "c0") (field "end_commit" (str "c1") end)

-- One issue, carried from its creation to DONE.
abbrev pub one_issue : List Event
one_issue =
    event issue_created none 1 (field "title" (str "Add tests") end)
    ∷ event issue_activated none 2 (field "base_commit" (str "c0") end)
    ∷ event execution_spawned (some "A-e1") 3 end
    ∷ event execution_finished (some "A-e1") 4 commits
    ∷ event validation_passed (some "A-e1") 5 (field "validated_commit" (str "c1") end)
    ∷ event review_approved (some "A-e1") 6 (field "reviewed_commit" (str "c1") end)
    ∷ event commit_intent (some "A-e1") 7 (field "end_commit" (str "c1") end)
    ∷ event commit_created (some "A-e1") 8 (field "merge_commit" (str "m1") end)
    ∷ event issue_completed none 9 end
    ∷ []
