-- ===== src/Loop/KeptRun.antt =====
-- What a guarded spawn keeps, and no other event touches, holds after any number of turns of `run`.
use draindeck.Base.{
  ℕ, zero, suc, ◌+◌, String, Bool, true, false, Option, none, some, List, ◌≡◌, refl, leb,
  Bool-cases, inl, inr, string_comparable,
}
use draindeck.Base.Dict.{get}
use draindeck.Base.Json.{Value}
use draindeck.Base.Result.{Result, ok, err}
use draindeck.Base.Action.{Action, ◌>>=◌, ◌>>◌, follow}
use draindeck.States.{
  Env, IssueState, ExecutionState, pending, active, done, needs_human, needs_decomposition, spawned,
  executing, validating, reviewing, accepted, rejected, crashed,
}
use draindeck.Events.Schema.{Event, execution_spawned}
use draindeck.Events.Log.Codec.{Codec}
use draindeck.Events.Projection.View.{
  StateProjection, ExecutionView, attempts, latest_execution, reviewer_feedback_categories,
}
use draindeck.Events.Projection.Replay.{apply}
use draindeck.Loop.Budget.{BudgetManager, Floats, check, note_execution_started}
use draindeck.Loop.Choice.{next_actionable}
use draindeck.Loop.Services.{Services, Settings, Python}
use draindeck.Loop.Pack.{build_prompt}
use draindeck.Loop.Emits.{Orchestrator, outside, raising, budgeting, emits, event}
use draindeck.Loop.Attempt.{
  spawn, spawn_if, unless_repeated, under_cap, spawn_or_escalate, attempt_id, spawn_payload,
  has_duplicate_feedback, escalate, activate,
}
use draindeck.Loop.Work.{execute}
use draindeck.Loop.Verdicts.{validate, review, commit_sequence}
use draindeck.Loop.Run.{
  Progress, running, stopped, move, advance, step_from, step, after_step, go_on, turn, run,
  unless_stopped, is_exhausted,
}
use draindeck.Loop.Kept.{Untouched, EngineLaw, outside-Keeping, emit-Keeping, follow-Keeping}
use draindeck.Loop.KeptMoves
use draindeck.Loop.KeptMoves.{Keeps}
use draindeck.Loop.KeptVerdicts

-- A spawn that the attempts' cap and the budget let pass keeps the predicate.
pub record Guarded (env : Env) (floats : Floats) (cap : ℕ)
    (P : StateProjection → BudgetManager → Type 0) : Type 0 where
  pub spawns :
      (issue : String) (p q : StateProjection) (b : BudgetManager) (ev : Event)
      → ev.type ≡ execution_spawned
      → ev.issue_id ≡ some issue
      → apply env p ev ≡ ok q
      → leb cap (attempts p issue) ≡ false
      → check floats b ≡ true
      → P p b
      → P q (note_execution_started floats b)

module _ (env : Env) (c : Codec) (py : Python) (floats : Floats) {World : Type 0}
    (settings : Settings) (services : Services World) (law : EngineLaw services)
    (P : StateProjection → BudgetManager → Type 0) (u : Untouched env floats P)
    (g : Guarded env floats settings.max_attempts_per_issue P) where
  abbrev Kept {ℓ} : {T : Type ℓ} → Action (Orchestrator c World) T → Type 0
  Kept m = Keeps env c py floats settings services P u m

  spawn-Keeps :
      (issue : String) (prev : Option ExecutionView) (n : ℕ) (s : Orchestrator c World)
      → leb settings.max_attempts_per_issue (attempts s.proj issue) ≡ false
      → check floats s.world.budget ≡ true
      → P s.proj s.world.budget
      → P
          (spawn env c py floats settings services issue prev n s).1.proj
          (spawn env c py floats settings services issue prev n s).1.world.budget
  unfolding spawn emits event
  spawn-Keeps issue prev n s under allowed p =
      prompted (build_prompt py s.proj issue settings.commands)
    where
      rest : String → Action (Orchestrator c World) (Unit {0})
      rest prompt = do
        outside (services.write_prompt (attempt_id py issue (n + 1)) prompt)
        untracked ← outside services.untracked_paths
        emits env c settings services execution_spawned issue
            (spawn_payload env c py floats settings services prev prompt untracked)
            (some (attempt_id py issue (n + 1)))
        budgeting (note_execution_started floats)

      prompted :
          (r : Result String)
          → P (follow rest (raising r s)).1.proj (follow rest (raising r s)).1.world.budget
      prompted (err e) = p
      prompted (ok prompt) =
          outside-Keeping env c floats P
            (services.write_prompt (attempt_id py issue (n + 1)) prompt) _ s p
            λ _ w _.
              outside-Keeping env c floats P services.untracked_paths _
                (record s { world = record s.world { world = w } }) p
                λ untracked v _.
                  let ev =
                    event env c settings services execution_spawned issue
                      (spawn_payload env c py floats settings services prev prompt untracked)
                      (some (attempt_id py issue (n + 1))) (services.utcnow v) in
                  emit-Keeping env c floats P ev (λ _. budgeting (note_execution_started floats))
                    (record s { world = record s.world { world = v } }) p
                    λ k q log e.
                      g.spawns issue s.proj q s.world.budget (record ev { event_id = k }) refl refl
                        e under allowed p

  spawn_or_escalate-Keeps :
      (issue : String) (prev : Option ExecutionView)
      → Kept (spawn_or_escalate env c py floats settings services issue prev)
  unfolding spawn_or_escalate check escalate has_duplicate_feedback reviewer_feedback_categories
  spawn_or_escalate-Keeps issue prev s p = capped (leb settings.max_attempts_per_issue n) refl
    where
      n : ℕ
      n = attempts s.proj issue

      Ends : Action (Orchestrator c World) (Unit {0}) → Type 0
      Ends m = P (m s).1.proj (m s).1.world.budget

      gated :
          (b : Bool)
          → check floats s.world.budget ≡ b
          → leb settings.max_attempts_per_issue n ≡ false
          → Ends (spawn_if env c py floats settings services b issue prev n)
      gated true allowed under = spawn-Keeps issue prev n s under allowed p
      gated false denied under = p

      fresh :
          (b : Bool)
          → leb settings.max_attempts_per_issue n ≡ false
          → Ends (unless_repeated env c py floats settings services b issue prev n)
      fresh true under =
          KeptMoves.escalate-Keeps env c py floats settings services P u issue "duplicate-feedback"
            "needs-human" s p
      fresh false under = gated (check floats s.world.budget) refl under

      looked :
          (r : Result Bool)
          → leb settings.max_attempts_per_issue n ≡ false
          → Ends
              (raising r >>= λ b. unless_repeated env c py floats settings services b issue prev n)
      looked (ok b) under = fresh b under
      looked (err e) under = p

      read :
          (r : Result (List Value))
          → leb settings.max_attempts_per_issue n ≡ false
          → Ends (
              raising r >>= λ cs. raising (has_duplicate_feedback py.same cs) >>= λ b.
              unless_repeated env c py floats settings services b issue prev n)
      read (ok cs) under = looked (has_duplicate_feedback py.same cs) under
      read (err e) under = p

      capped :
          (b : Bool)
          → leb settings.max_attempts_per_issue n ≡ b
          → Ends (under_cap env c py floats settings services b issue prev n)
      capped true over =
          KeptMoves.escalate-Keeps env c py floats settings services P u issue "cap-hit"
            "needs-human" s p
      capped false under = read (reviewer_feedback_categories s.proj issue) under

  move-Keeps :
      (st : ExecutionState) (issue : String) (ex : ExecutionView)
      → Kept (move env c py floats settings services st issue ex)
  unfolding spawn_or_escalate execute validate review commit_sequence
  move-Keeps rejected issue ex = spawn_or_escalate-Keeps issue (some ex)
  move-Keeps crashed issue ex = spawn_or_escalate-Keeps issue (some ex)
  move-Keeps executing issue ex =
      KeptMoves.execute-Keeps env c py floats settings services P u law issue ex
  move-Keeps validating issue ex =
      KeptVerdicts.validate-Keeps env c py floats settings services P u issue ex
  move-Keeps reviewing issue ex =
      KeptVerdicts.review-Keeps env c py floats settings services P u issue ex
  move-Keeps accepted issue ex =
      KeptVerdicts.commit_sequence-Keeps env c py floats settings services P u issue ex
  move-Keeps spawned issue ex = λ s p. p

  pub step-Keeps : (issue : String) → Kept (step env c py floats settings services issue)
  unfolding step activate latest_execution spawn_or_escalate execute validate review commit_sequence
  step-Keeps issue s p = from (get issue s.proj.issues) s p
    where
      advanced :
          (r : Result (Option ExecutionView))
          → Kept (raising r >>= λ ex. advance env c py floats settings services issue ex)
      advanced (ok none) = spawn_or_escalate-Keeps issue none
      advanced (ok (some ex)) = move-Keeps ex.state issue ex
      advanced (err e) = λ s p. p

      from : (o : Option IssueState) → Kept (step_from env c py floats settings services o issue)
      from (some pending) = KeptMoves.activate-Keeps env c py floats settings services P u issue
      from (some active) = λ s p. advanced (latest_execution s.proj issue) s p
      from (some done) = λ s p. p
      from (some needs_human) = λ s p. p
      from (some needs_decomposition) = λ s p. p
      from none = λ s p. p

  turn-Keeps : Kept (turn env c py floats settings services)
  unfolding turn step
  turn-Keeps s p = chosen (next_actionable s.proj settings.selection)
    where
      after :
          (r : Result (Unit {0}) × Orchestrator c World)
          → P r.1.proj r.1.world.budget
          → P
              (after_step env c py floats settings services r).1.proj
              (after_step env c py floats settings services r).1.world.budget
      after (ok v, t) q = q
      after (err e, t) q = elim (Bool-cases (is_exhausted e)) [
        | inl x ↦ rw (x, after_step) q
        | inr x ↦ rw (x, after_step) q
      ]

      chosen :
          (r : Result (Option String))
          → P
              ((raising r >>= go_on env c py floats settings services) s).1.proj
              ((raising r >>= go_on env c py floats settings services) s).1.world.budget
      chosen (ok none) = p
      chosen (ok (some issue)) =
          after (step env c py floats settings services issue s) (step-Keeps issue s p)
      chosen (err e) = p

  -- After any number of turns, however the last of them ended.
  pub run-Keeps : (fuel : ℕ) → Kept (run env c py floats settings services fuel)
  unfolding run
  run-Keeps zero s p = p
  run-Keeps (suc fuel) s p =
      follow-Keeping env c floats P (turn env c py floats settings services s) _ (turn-Keeps s p)
        (λ progress t q. next (run-Keeps fuel) progress t q)
    where
      next :
          Kept (run env c py floats settings services fuel)
          → (progress : Progress)
          → Kept (
              unless_stopped env c py floats settings services progress
                (run env c py floats settings services fuel))
      next later running = later
      next later stopped = λ t q. q
