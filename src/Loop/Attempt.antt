-- ===== src/Loop/Attempt.antt =====
-- From the choice of an issue to the end of an execution's work: `_activate`, `_spawn_or_escalate`,
-- `_escalate`, `_execute` and `_finish_rejected` of src/runtime/loop.py.
use draindeck.Base.{
  ℕ, ◌+◌, String, Bool, true, false, ◌||◌, Option, none, some, List, [], ◌∷◌, string_comparable,
  leb, if◌then◌else◌,
}
use draindeck.Base.Json.{Value, Fields, null, str, obj, arr, end, field}
use draindeck.Base.Result.{Result, ok, err, halt, budget_exhausted, type_error}
use draindeck.Base.Action.{Action, ◌>>=◌, ◌>>◌, return, raise}
use draindeck.States.{Env}
use draindeck.Events.Schema.{issue_activated, issue_escalated, execution_spawned}
use draindeck.Events.Log.Codec.{Codec}
use draindeck.Events.Projection.View.{ExecutionView, attempts, reviewer_feedback_categories}
use draindeck.Queue.Planner.{sort_ids}
use draindeck.Recovery.Containment.{join}
use draindeck.Loop.Budget.{Floats, check, note_execution_started}
use draindeck.Loop.Services.{Services, Settings, Python}
use draindeck.Loop.Pack.{build_prompt}
use draindeck.Loop.Emits.{Orchestrator, texts, number, outside, reading, raising, budgeting, emits}

-- A list or a dict has no hash.
abbrev hashable : Value → Bool
hashable (arr _) = false
hashable (obj _) = false
hashable _ = true

abbrev all_hashable : List Value → Bool
all_hashable [] = true
all_hashable (v ∷ vs) = if hashable v then all_hashable vs else false

abbrev occurs : (Value → Value → Bool) → Value → List Value → Bool
occurs same v [] = false
occurs same v (w ∷ ws) = same v w || occurs same v ws

unfoldable pub repeats : (Value → Value → Bool) → List Value → Bool
repeats same [] = false
repeats same (v ∷ vs) = occurs same v vs || repeats same vs

-- _has_duplicate_feedback
unfoldable pub has_duplicate_feedback : (Value → Value → Bool) → List Value → Result Bool
unfolding repeats
has_duplicate_feedback same categories =
    if all_hashable categories then ok (repeats same categories) else err type_error

-- `issue/{issue}`, `{issue}-e{n}`, `work {xid}`
abbrev issue_branch : String → String
unfolding join
issue_branch issue = join "issue/" issue

unfoldable pub attempt_id : Python → String → ℕ → String
unfolding join
attempt_id py issue n = join issue (join "-e" (py.digits n))

module _ (env : Env) (c : Codec) (py : Python) (floats : Floats) {World : Type 0}
    (settings : Settings) (services : Services World) where
  abbrev pub activate_at : String → Option String → Action (Orchestrator c World) (Unit {0})
  unfolding emits
  activate_at issue none = raise halt
  activate_at issue (some base) =
      emits env c settings services issue_activated issue (field "base_commit" (str base) end) none
      >> return tt

  -- _activate
  unfoldable pub activate : String → Action (Orchestrator c World) (Unit {0})
  unfolding emits
  activate issue = outside (services.head_of settings.target) >>= activate_at issue

  -- _escalate
  unfoldable pub escalate : String → String → String → Action (Orchestrator c World) (Unit {0})
  unfolding emits
  escalate issue reason taxonomy = do
    refs ← outside (services.list_attempt_refs issue)
    emits env c settings services issue_escalated issue
        (field "reason" (str reason) (
          field "taxonomy_category" (str taxonomy)
            (field "evidence_refs" (arr (texts (sort_ids refs))) end)))
        none
    return tt

  abbrev parent_of : Option ExecutionView → Value
  parent_of none = null
  parent_of (some view) = str view.execution_id

  abbrev spawn_reason : Option ExecutionView → Value
  spawn_reason none = str "initial"
  spawn_reason (some _) = str "retry"

  -- The payload of ExecutionSpawned.
  unfoldable pub spawn_payload : Option ExecutionView → String → List String → Fields
  spawn_payload prev prompt untracked = field "parent_execution_id" (parent_of prev) (
      field "spawn_reason" (spawn_reason prev) (
        field "engine" (str settings.provider) (
          field "prompt_hash" (str (py.prompt_hash prompt)) (
            field "budget"
              (obj (
                field "wall_seconds" (number settings.timeout_seconds)
                  (field "max_turns" (number settings.max_turns) end)))
              (field "pid" (number settings.pid)
                (field "pre_execution_untracked" (arr (texts (sort_ids untracked))) end))))))

  -- The spawn, past its guards.
  unfoldable pub spawn :
      String → Option ExecutionView → ℕ → Action (Orchestrator c World) (Unit {0})
  unfolding emits attempt_id spawn_payload note_execution_started
  spawn issue prev n = do
    p ← reading (λ s. s.proj)
    prompt ← raising (build_prompt py p issue settings.commands)
    outside (services.write_prompt (attempt_id py issue (n + 1)) prompt)
    untracked ← outside services.untracked_paths
    emits env c settings services execution_spawned issue (spawn_payload prev prompt untracked)
        (some (attempt_id py issue (n + 1)))
    budgeting (note_execution_started floats)

  abbrev pub spawn_if :
      Bool → String → Option ExecutionView → ℕ → Action (Orchestrator c World) (Unit {0})
  spawn_if true issue prev n = spawn issue prev n
  spawn_if false issue prev n = raise budget_exhausted

  abbrev pub unless_repeated :
      Bool → String → Option ExecutionView → ℕ → Action (Orchestrator c World) (Unit {0})
  unfolding check escalate
  unless_repeated true issue prev n = escalate issue "duplicate-feedback" "needs-human"
  unless_repeated false issue prev n = do
    allowed ← reading (λ s. check floats s.world.budget)
    spawn_if allowed issue prev n

  abbrev pub under_cap :
      Bool → String → Option ExecutionView → ℕ → Action (Orchestrator c World) (Unit {0})
  unfolding check escalate has_duplicate_feedback reviewer_feedback_categories
  under_cap true issue prev n = escalate issue "cap-hit" "needs-human"
  under_cap false issue prev n = do
    p ← reading (λ s. s.proj)
    categories ← raising (reviewer_feedback_categories p issue)
    repeated ← raising (has_duplicate_feedback py.same categories)
    unless_repeated repeated issue prev n

  -- _spawn_or_escalate
  unfoldable pub spawn_or_escalate :
      String → Option ExecutionView → Action (Orchestrator c World) (Unit {0})
  unfolding attempts
  spawn_or_escalate issue prev = do
    n ← reading (λ s. attempts s.proj issue)
    under_cap (leb settings.max_attempts_per_issue n) issue prev n
