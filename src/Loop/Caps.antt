-- ===== src/Loop/Caps.antt =====
-- The caps that the orchestrator and the budget promise, over whole runs.
use draindeck.Base.{
  ℕ, ◌+◌, ◌≤◌, ◌∙◌, String, true, false, Option, none, some, ◌≡◌, refl, sym, subst, arith, leb,
  Bool-cases, inl, inr, string_comparable, ==_iff,
}
use draindeck.Base.Json.{Value, Fields, Float}
use draindeck.Base.Json
use draindeck.States.{Env}
use draindeck.Events.Log.Codec.{Codec}
use draindeck.Events.Projection.View.{StateProjection, attempts}
use draindeck.Events.Projection.SpawnOnly.{apply-attempts_kept, apply-attempts_spawned}
use draindeck.Events.Projection.Counting.{execution_count, apply-count_kept, apply-count_at_most}
use draindeck.Loop.Budget.{
  BudgetManager, Floats, check, note_execution_started, record_usage, dollars_of, spend,
}
use draindeck.Loop.Services.{Services, Settings, Python}
use draindeck.Loop.Emits.{Orchestrator}
use draindeck.Loop.Run.{run}
use draindeck.Loop.Kept.{Untouched, EngineLaw}
use draindeck.Loop.KeptRun.{Guarded, run-Keeps}

-- No issue has had more attempts than the cap.
abbrev pub Capped : ℕ → StateProjection → Type 0
Capped cap p = (iid : String) → attempts p iid ≤ cap

-- The caps of a run whose budget was `b` at its start, when `n` executions were recorded: each one
-- more is counted, and no more are counted than the budget allows.
pub record WithinBudget (n : ℕ) (b : BudgetManager) (p : StateProjection) (b' : BudgetManager)
    : Type 0 where
  pub limit : b'.max_executions_per_run ≡ b.max_executions_per_run
  pub counted : execution_count p + b.executions_started ≤ n + b'.executions_started
  pub capped : b'.executions_started ≤ b'.max_executions_per_run

record_usage-counts :
    (floats : Floats) (usage : Fields) (b : BudgetManager)
    → ((record_usage floats usage b).executions_started ≡ b.executions_started)
      × ((record_usage floats usage b).max_executions_per_run ≡ b.max_executions_per_run)
unfolding record_usage Json.get
record_usage-counts floats usage b = counted (dollars_of floats (Json.get "dollars" usage))
  where
    counted :
        (o : Option Float)
        → ((spend floats o b).executions_started ≡ b.executions_started)
          × ((spend floats o b).max_executions_per_run ≡ b.max_executions_per_run)
    counted none = (refl, refl)
    counted (some x) = (refl, refl)

module _ (env : Env) (floats : Floats) where
  attempts-Untouched : (cap : ℕ) → Untouched env floats (λ p b. Capped cap p)
  attempts-Untouched cap = record {
    events = λ p q b ev quiet e h iid.
        subst (λ n. n ≤ cap) (sym (apply-attempts_kept env p ev quiet e iid)) (h iid);
    usage = λ p b u h. h;
  }

  attempts-Guarded : (cap : ℕ) → Guarded env floats cap (λ p b. Capped cap p)
  attempts-Guarded cap = record {
    spawns = λ issue p q b ev t i e under allowed h iid.
        ground (
          arith,
          apply-attempts_spawned env p q ev issue t i e iid,
          h iid,
          under,
          ==_iff issue iid,
        );
  }

  budget-Untouched : (n : ℕ) (b : BudgetManager) → Untouched env floats (WithinBudget n b)
  budget-Untouched n b = record {
    events = λ p q b' ev quiet e h. record {
      limit = h.limit;
      counted = omega (arith, h.counted, apply-count_kept env p q ev quiet e);
      capped = h.capped;
    };
    usage = λ p b' u h. record {
      limit = (record_usage-counts floats u b').1 ∙ h.limit;
      counted = omega (arith, (record_usage-counts floats u b').0, h.counted);
      capped = omega (
        arith,
        (record_usage-counts floats u b').0,
        (record_usage-counts floats u b').1,
        h.capped,
      );
    };
  }

  check-room :
      (b : BudgetManager)
      → check floats b ≡ true
      → leb b.max_executions_per_run b.executions_started ≡ false
  unfolding check
  check-room b allowed = elim (Bool-cases (leb b.max_executions_per_run b.executions_started)) [
    | inr room ↦ room
    | inl full ↦ absurd (cc (rw (full, check) at allowed))
  ]

  budget-Guarded : (cap n : ℕ) (b : BudgetManager) → Guarded env floats cap (WithinBudget n b)
  unfolding note_execution_started
  budget-Guarded cap n b = record {
    spawns = λ issue p q b' ev t i e under allowed h. record {
      limit = h.limit;
      counted = omega (arith, h.counted, apply-count_at_most env p q ev e);
      capped = ground (arith, check-room b' allowed, h.capped);
    };
  }

module _ (env : Env) (c : Codec) (py : Python) (floats : Floats) {World : Type 0}
    (settings : Settings) (services : Services World) (law : EngineLaw services) where
  -- However many turns a run takes, and however the last one ends: if no issue had more attempts
  -- than `max_attempts_per_issue` before, none has more after, whatever the repository, the engine,
  -- the gates and the reviewer answer. Assumes that the engine itself appends no ExecutionSpawned.
  pub run-Capped :
      (fuel : ℕ) (s : Orchestrator c World)
      → Capped settings.max_attempts_per_issue s.proj
      → Capped settings.max_attempts_per_issue (run env c py floats settings services fuel s).1.proj
  run-Capped fuel s h =
      run-Keeps env c py floats settings services law
        (λ p b. Capped settings.max_attempts_per_issue p)
        (attempts-Untouched env floats settings.max_attempts_per_issue)
        (attempts-Guarded env floats settings.max_attempts_per_issue) fuel s h

  -- However many turns a run takes, and however the last one ends: the log has recorded no more new
  -- executions than `max_executions_per_run` left room for at the start, the budget has counted each
  -- of them, and its count stays within the cap. Assumes that the count was within the cap at the
  -- start, where it is 0, and that the engine itself appends no ExecutionSpawned.
  pub run-WithinBudget :
      (fuel : ℕ) (s : Orchestrator c World)
      → s.world.budget.executions_started ≤ s.world.budget.max_executions_per_run
      → (execution_count (run env c py floats settings services fuel s).1.proj
            + s.world.budget.executions_started
          ≤ execution_count s.proj + s.world.budget.max_executions_per_run)
        × WithinBudget
            (execution_count s.proj)
            s.world.budget
            (run env c py floats settings services fuel s).1.proj
            (run env c py floats settings services fuel s).1.world.budget
  run-WithinBudget fuel s h =
      let n = execution_count s.proj in
      let b = s.world.budget in
      let kept =
        run-Keeps env c py floats settings services law (WithinBudget n b)
          (budget-Untouched env floats n b)
          (budget-Guarded env floats settings.max_attempts_per_issue n b) fuel s
          (record { limit = refl; counted = omega arith; capped = h }) in
      (omega (arith, kept.limit, kept.counted, kept.capped), kept)
