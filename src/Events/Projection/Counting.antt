-- ===== src/Events/Projection/Counting.antt =====
-- How many executions a projection records: only ExecutionSpawned adds one.
use draindeck.Base.{ℕ, suc, ◌≤◌, String, List, false, ◌≡◌, ap, ◌∙◌, arith, string_comparable}
use draindeck.Base.Dict.{length-put_fresh, length-put_there}
use draindeck.Base.Lists.{length}
use draindeck.Base.Result.{ok}
use draindeck.States.{Env}
use draindeck.Events.Schema.{Event}
use draindeck.Events.Projection.View.{StateProjection, ExecutionView}
use draindeck.Events.Projection.StepRelation.{ExecutionStep, same, spawn, move}
use draindeck.Events.Projection.Refinement.{apply-step}
use draindeck.Events.Projection.SpawnOnly.{is_spawned}
use draindeck.Events.Projection.Replay.{apply}

abbrev pub execution_count : StateProjection → ℕ
execution_count p = length p.executions

abbrev sized : List (String × ExecutionView) → ℕ
sized d = length d

module _ (env : Env) (p q : StateProjection) (ev : Event) where
  step-kept :
      is_spawned ev.type ≡ false → ExecutionStep env ev p q → execution_count q ≡ execution_count p
  step-kept s (same t a b) = ap sized a
  step-kept s (spawn x i u prev t _ _ _ _ _ _ _ _ _) = absurd (cc (ap is_spawned t))
  step-kept s (move x v w names there ident moved a b) =
      ap sized a ∙ length-put_there x w p.executions there

  step-at_most : ExecutionStep env ev p q → execution_count q ≤ suc (execution_count p)
  step-at_most (same t a b) = omega (arith, ap sized a)
  step-at_most (spawn x i u prev t _ _ _ fresh _ _ _ a b) =
      omega (arith, ap sized a, length-put_fresh x _ p.executions fresh)
  step-at_most (move x v w names there ident moved a b) =
      omega (arith, ap sized a, length-put_there x w p.executions there)

  -- An event that spawns nothing leaves the number of executions.
  pub apply-count_kept :
      is_spawned ev.type ≡ false → apply env p ev ≡ ok q → execution_count q ≡ execution_count p
  apply-count_kept s h = step-kept s (apply-step env p ev h)

  pub apply-count_at_most : apply env p ev ≡ ok q → execution_count q ≤ suc (execution_count p)
  apply-count_at_most h = step-at_most (apply-step env p ev h)
