-- ===== src/Loop/Budget.antt =====
-- src/runtime/budget/manager.py: the caps of a run, and its meter.
use draindeck.Base.{ℕ, suc, Bool, true, false, Option, none, some, leb, if◌then◌else◌}
use draindeck.Base.Json
use draindeck.Base.Json.{Value, Fields, ℤ, Float, int, float, bool, obj, pos, truthy}

-- Python's operations on floats.
pub record Floats : Type 0 where
  pub add : Float → Float → Float
  pub at_least : Float → Float → Bool
  pub of_int : ℤ → Float

pub record BudgetManager : Type 0 where
  pub max_executions_per_run : ℕ
  pub hard_stop_proxy_cost_per_run_usd : Float
  pub executions_started : ℕ
  pub proxy_dollars : Float

pub record ExperimentMetrics : Type 0 where
  pub executions_this_run : ℕ
  pub proxy_dollars_this_run : Float

module _ (floats : Floats) where
  -- BudgetManager.check, as `allowed`
  unfoldable pub check : BudgetManager → Bool
  check b =
      if leb b.max_executions_per_run b.executions_started
      then false
      else (if floats.at_least b.proxy_dollars b.hard_stop_proxy_cost_per_run_usd
          then false
          else true)

  -- BudgetManager.note_execution_started
  unfoldable pub note_execution_started : BudgetManager → BudgetManager
  note_execution_started b = record b { executions_started = suc b.executions_started }

  -- `isinstance(dollars, (int, float))`, and `float(dollars)`; a bool is an int.
  abbrev pub dollars_of : Option Value → Option Float
  dollars_of (some (int n)) = some (floats.of_int n)
  dollars_of (some (float x)) = some x
  dollars_of (some (bool true)) = some (floats.of_int (pos 1))
  dollars_of (some (bool false)) = some (floats.of_int (pos 0))
  dollars_of _ = none

  abbrev pub spend : Option Float → BudgetManager → BudgetManager
  spend none b = b
  spend (some x) b = record b { proxy_dollars = floats.add b.proxy_dollars x }

  -- BudgetManager.record_usage, of a dict
  unfoldable pub record_usage : Fields → BudgetManager → BudgetManager
  unfolding Json.get
  record_usage usage b = spend (dollars_of (Json.get "dollars" usage)) b
