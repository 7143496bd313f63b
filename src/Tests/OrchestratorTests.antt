-- ===== src/Tests/OrchestratorTests.antt =====
-- A run of the orchestrator over services on which everything passes.
use draindeck.Base.{
  ◌+◌, ◌≤◌, String, List, inl, Bool, true, false, none, some, [], ◌∷◌, ◌≡◌, refl, subst, ◌⊎◌, arith,
  ◌==◌, string_comparable,
}
use draindeck.Base.Lists.{In}
use draindeck.Recovery.Containment.{join}
use draindeck.Base.Dict.{get, put}
use draindeck.Base.Json
use draindeck.Base.Json.{Value, Fields, finite, null, str, obj, field, pos, end, truthy}
use draindeck.Base.Action.{Ends}
use draindeck.Events.Projection.Issues.{issue_transition_handler}
use draindeck.Base.Result.{Result, ok, err, ok-injective}
use draindeck.States.{pending, active, accepted}
use draindeck.Events.Schema
use draindeck.Events.Projection.View.{
  StateProjection, ExecutionView, empty, attempts, executions_of,
}
use draindeck.Events.Projection.Counting.{execution_count}
use draindeck.Events.Projection.Executions.{new_view}
use draindeck.Events.Projection.Replay.{apply, handle, note_event}
use draindeck.Events.Log.Append.{append}
use draindeck.Events.Log.Codec.{to_line}
use draindeck.Recovery.State.{empty_report}
use draindeck.Loop.Budget.{Floats}
use draindeck.Loop.Services.{Services, Settings, Python, EngineResult, EngineRun}
use draindeck.Loop.Emits.{Orchestrator}
use draindeck.Loop.Run.{run, Progress}
use draindeck.Loop.Verdicts.{commit_sequence}
use draindeck.Loop.Pack.{build_prompt, join_lines}
use draindeck.Loop.PackFeedback.{Says, build_prompt-Feedback}
use draindeck.Loop.Kept.{EngineLaw, NoSpawns}
use draindeck.Loop.Caps.{Capped, WithinBudget, run-Capped, run-WithinBudget}
use draindeck.Loop.Pinned.{Pinned}
use draindeck.Loop.Closing.{Closed, HalfClosed}
use draindeck.Loop.CommitMoves.{Merged, commit_sequence-Gated}
use draindeck.Samples.{sample_env, sample_issues}
use draindeck.Tests.LogTests.{whole_values}

abbrev floats : Floats
floats = record { add = λ x y. y; at_least = λ x y. false; of_int = λ n. finite false 0 (pos 0) }

abbrev text_eq : Value → Value → Bool
text_eq (str a) (str b) = a == b
text_eq _ _ = false

abbrev text_of : Value → String
text_of (str s) = s
text_of _ = ""

abbrev py : Python
py = record {
  same = text_eq;
  digits = λ n. "1";
  text = text_of;
  strip = λ s. s;
  rstrip = λ s. s;
  fnmatch = λ s p. false;
  prompt_hash = λ s. "h";
}

abbrev worked : EngineResult
worked = record {
  exit_status = pos 0;
  timed_out = false;
  duration_s = null;
  usage = end;
  num_turns = some 4;
  transcript_path = "t.jsonl";
}

abbrev services : Services (Unit {0})
services = record {
  head_of = λ branch w. (ok (some "c0"), w);
  untracked_paths = λ w. (ok [], w);
  list_attempt_refs = λ issue w. (ok [], w);
  checkout_branch = λ branch base w. (ok tt, w);
  snapshot_commit = λ message w. (ok (some "c1"), w);
  current_commit = λ w. (ok "c1", w);
  set_attempt_ref = λ issue xid tip w. (ok tt, w);
  delete_attempt_ref = λ issue xid w. (ok tt, w);
  reset_hard = λ base w. (ok tt, w);
  added_files = λ base tip w. (ok [], w);
  diff = λ base tip w. (ok "diff", w);
  commit_exists = λ tip w. (ok true, w);
  is_ancestor = λ tip target w. (ok false, w);
  find_merge_commit = λ target tip w. (ok none, w);
  merge_to = λ target tip message w. (ok "m1", w);
  write_prompt = λ xid prompt w. (ok tt, w);
  has_prompt = λ xid w. (ok true, w);
  engine_run = λ nt xid w. (ok (record { appended = []; outcome = ok worked }), w);
  validate = λ tip xid extra w. (
    ok (record { passed = true; per_command = []; flake_retries = 0; taxonomy_category = null }),
    w,
  );
  review = λ pack w. (
    ok (record { is_approved = true; provider = "qwen"; severity = "blocking"; feedback = [] }),
    w,
  );
  utcnow = λ w. "2026-07-05T21:14:03Z";
}

appends_nothing : EngineLaw services
appends_nothing nt xid w ran e = subst (λ (r : EngineRun). NoSpawns r.appended) (ok-injective e) tt

abbrev settings : Settings
settings = record {
  target = "main";
  run_id = str "r1";
  selection = record {
    allowed_issue_ids = none;
    selection_order = none;
    selection_dependencies = none;
  };
  max_attempts_per_issue = 2;
  provider = "claude";
  timeout_seconds = 60;
  max_turns = 40;
  commands = [];
  new_test_pattern = "";
  new_test_command_prefix = "";
  is_nt = false;
  pid = 7;
}

abbrev created : StateProjection
created = record empty { issues = ("A", pending) ∷ []; last_event_id = 1 }

abbrev start : Orchestrator whole_values (Unit {0})
start = record {
  log = record { content = []; sidecars = []; last_event_id = 1; is_closed = false };
  proj = created;
  world = record {
    world = tt;
    budget = record {
      max_executions_per_run = 3;
      hard_stop_proxy_cost_per_run_usd = finite false 5 (pos 0);
      executions_started = 0;
      proxy_dollars = finite false 0 (pos 0);
    };
    stop_reason = "";
  };
  report = empty_report;
}

abbrev drained : Result Progress × Orchestrator whole_values (Unit {0})
drained = run sample_env whole_values py floats settings services 9 start

none_before : Capped 2 created
unfolding attempts get
none_before iid = omega arith

run-Capped_example : Capped 2 drained.1.proj
run-Capped_example =
    run-Capped sample_env whole_values py floats settings services appends_nothing 9 start
      none_before

run-WithinBudget_example :
    (execution_count drained.1.proj + 0 ≤ execution_count created + 3)
    × WithinBudget
        (execution_count created)
        start.world.budget
        drained.1.proj
        drained.1.world.budget
run-WithinBudget_example =
    run-WithinBudget sample_env whole_values py floats settings services appends_nothing 9 start
      (omega arith)

-- An execution that has passed its gates and its review.
abbrev passed : ExecutionView
unfolding new_view
passed = record (new_view "A-e1" "A" (some (str "c0")) []) {
  state = accepted;
  end_commit = str "c1";
  validated_commit = str "c1";
  reviewed_commit = str "c1";
}

-- The same execution once its merge is a fact: the issue is about to be closed.
abbrev merged_view : ExecutionView
merged_view = record passed { commit_intended = true; commit_created = true }

abbrev to_close : Orchestrator whole_values (Unit {0})
to_close = record start {
  proj = record created { issues = ("A", active) ∷ []; executions = ("A-e1", merged_view) ∷ [] };
}

commit_sequence-Gated_example :
    ((merged_view.commit_intended ≡ false)
      × Ends
          (λ _ t. Pinned sample_env whole_values py settings services "A" merged_view to_close t)
          (λ t. t.proj ≡ to_close.proj)
          (commit_sequence sample_env whole_values py settings services "A" merged_view to_close))
    ⊎ ((merged_view.commit_intended ≡ true)
        × (merged_view.commit_created ≡ false)
        × Ends
            (λ _ t. Merged sample_env whole_values py settings services "A" merged_view to_close t)
            (λ t. t.proj ≡ to_close.proj)
            (commit_sequence sample_env whole_values py settings services "A" merged_view to_close))
    ⊎ ((merged_view.commit_intended ≡ true)
        × (merged_view.commit_created ≡ true)
        × Ends
            (λ _ t. Closed sample_env whole_values py settings services "A" merged_view to_close t)
            (λ t.
              HalfClosed sample_env whole_values py settings services "A" merged_view to_close t)
            (commit_sequence sample_env whole_values py settings services "A" merged_view to_close))
commit_sequence-Gated_example =
    commit_sequence-Gated sample_env whole_values py settings services "A" merged_view to_close

-- It returns, with the issue closed.
closes :
    (commit_sequence sample_env whole_values py settings services "A" merged_view to_close).0
    ≡ ok tt
unfolding commit_sequence append to_line apply handle note_event issue_transition_handler
    sample_issues put get Json.get_null Schema.value
closes = refl

-- A retry whose first attempt was rejected with one message.
abbrev told : Fields
told = field "category" (str "missing-tests") (field "message" (str "add a test") end)

abbrev told_view : ExecutionView
told_view = record (new_view "A-e1" "A" none []) { feedback = obj told ∷ [] }

abbrev rejected_once : StateProjection
rejected_once = record created {
  executions = ("A-e1", told_view) ∷ [];
  issue_executions = ("A", "A-e1" ∷ []) ∷ [];
}

abbrev retry_prompt : String
unfolding build_prompt
retry_prompt = elim (build_prompt py rejected_once "A" []) [ ok s ↦ s | err e ↦ "" ]

has_attempt : In {A = String} "A-e1" (executions_of rejected_once "A")
unfolding get
has_attempt = inl refl

there : get "A-e1" rejected_once.executions ≡ some told_view
unfolding get
there = refl

builds : build_prompt py rejected_once "A" [] ≡ ok retry_prompt
unfolding build_prompt get
builds = refl

says : truthy (Json.get_null "message" told) ≡ true
unfolding Json.get_null truthy
says = refl

build_prompt-Feedback_example :
    (lines : List String) × (retry_prompt ≡ join (join_lines lines) "\n")
    × ((line : String) × In line lines × Says py told line)
build_prompt-Feedback_example =
    build_prompt-Feedback py rejected_once "A" [] retry_prompt "A-e1" told_view told has_attempt
      there (inl refl) says builds
