-- ===== src/Validation/Runner.antt =====
-- src/runtime/validation/runner.py: the validation commands, each retried once. What runs a command
-- is the record `Shell`.
use draindeck.Base.{
  ℕ, suc, ◌+◌, zero, String, Bool, true, false, not, ◌&&◌, ◌||◌, Option, none, some, List, [], ◌∷◌,
  ◌++◌, ◌==◌, string_comparable, if◌then◌else◌,
}
use draindeck.Base.Dict.{Dict, put}
use draindeck.Base.Json.{ℤ, Float, pos}
use draindeck.Base.Result.{Result, ok, err, value_error}
use draindeck.Base.Action.{Action, ◌>>=◌, return, raise}

-- How `subprocess.run` ends.
pub data Child : Type 0 where
  exited : ℤ → Child
  timed_out : Child

-- The process, which appends its output to the log file or starts it; the clock; the path of a
-- command's log; and Python's floats.
pub record Shell (World : Type 0) : Type 0 where
  pub run : String → String → Bool → Dict String String → Action World Child
  pub environ : World → Dict String String
  pub monotonic : World → Float
  pub log_path : String → ℕ → String
  pub minus : Float → Float → Float
  pub plus : Float → Float → Float
  pub round3 : Float → Float

pub record Validator : Type 0 where
  pub commands : List String
  pub env : Dict String (Option String)

pub record Gate : Type 0 where
  pub name : String
  pub passed : Bool
  pub duration_s : Float
  pub log_path : String

pub record ValidationResult : Type 0 where
  pub passed : Bool
  pub validated_commit : String
  pub per_command : List Gate
  pub flake_retries : ℕ
  pub taxonomy_category : Option String

-- "$" in command
unfoldable pub has_dollar : String → Bool
has_dollar String.[] = false
has_dollar (String.◌∷◌ x s) = (String.◌∷◌ x String.[] == "$") || has_dollar s

unfoldable pub any_dollar : List String → Bool
unfolding has_dollar
any_dollar [] = false
any_dollar (c ∷ cs) = has_dollar c || any_dollar cs

abbrev is_nil : List String → Bool
is_nil [] = true
is_nil (_ ∷ _) = false

-- Validator.__init__
unfoldable pub new_validator : List String → Bool → Dict String (Option String) → Result Validator
unfolding any_dollar
new_validator commands acknowledged_no_gate env =
    if is_nil commands && not acknowledged_no_gate
    then err value_error
    else (if any_dollar commands
        then err value_error
        else ok (record { commands = commands; env = env }))

-- built.pop(key, None)
unfoldable pub pop : String → Dict String String → Dict String String
pop key [] = []
pop key ((k, v) ∷ d) = let rest = pop key d in if k == key then rest else (k, v) ∷ rest

-- _child_env
unfoldable pub child_env : Dict String String → Dict String (Option String) → Dict String String
unfolding pop put
child_env built [] = built
child_env built ((key, none) ∷ env) = child_env (pop key built) env
child_env built ((key, some value) ∷ env) = child_env (put key value built) env

abbrev pub is_success : Child → Bool
is_success (exited (pos zero)) = true
is_success _ = false

module _ {World : Type 0} (shell : Shell World) (validator : Validator) where
  abbrev clock : Action World Float
  clock w = (ok (shell.monotonic w), w)

  abbrev reading_env : Action World (Dict String String)
  reading_env w = (ok (shell.environ w), w)

  -- _run_once
  unfoldable pub run_once : String → String → Bool → Action World (Bool × Float)
  unfolding child_env
  run_once cmd log append = do
    start ← clock
    base ← reading_env
    child ← shell.run cmd log append (child_env base validator.env)
    finish ← clock
    return (is_success child, shell.minus finish start)

  -- The outcome of a command with its retry: whether it passed, how long it took, and the retries.
  abbrev pub retried : String → String → Bool × Float → Action World (Bool × Float × ℕ)
  unfolding run_once
  retried cmd log (true, dur) = return (true, dur, 0)
  retried cmd log (false, dur) = do
    again ← run_once cmd log true
    return (again.0, shell.plus dur again.1, 1)

  unfoldable pub run_gate : String → String → Action World (Bool × Float × ℕ)
  unfolding run_once
  run_gate cmd log = do first ← run_once cmd log false; retried cmd log first

  -- One row of the result.
  abbrev pub note_gate : String → String → Bool × Float × ℕ → ValidationResult → ValidationResult
  note_gate cmd log (passed, dur, retries) r = record r {
    per_command =
        r.per_command
        ++ (record { name = cmd; passed = passed; duration_s = shell.round3 dur; log_path = log })
          ∷ [];
    flake_retries = r.flake_retries + retries;
  }

  abbrev pub fail_gates : ValidationResult → ValidationResult
  fail_gates r = record r { passed = false; taxonomy_category = some "validation-test" }

  abbrev pub next_gate :
      Bool → Action World ValidationResult → ValidationResult → Action World ValidationResult
  next_gate true next r = next
  next_gate false next r = return (fail_gates r)

  -- The loop over the commands, which stops at the first that fails.
  unfoldable pub run_gates :
      String → ℕ → List String → ValidationResult → Action World ValidationResult
  unfolding run_gate
  run_gates xid i [] r = return r
  run_gates xid i (cmd ∷ cmds) r = run_gate cmd (shell.log_path xid i) >>= λ outcome.
      next_gate outcome.0
        (run_gates xid (suc i) cmds (note_gate cmd (shell.log_path xid i) outcome r))
        (note_gate cmd (shell.log_path xid i) outcome r)

  -- validate
  unfoldable pub validate : String → String → List String → Action World ValidationResult
  unfolding run_gates any_dollar
  validate commit xid extra =
      if any_dollar (validator.commands ++ extra)
      then raise value_error
      else run_gates xid 0 (validator.commands ++ extra) (record {
        passed = true;
        validated_commit = commit;
        per_command = [];
        flake_retries = 0;
        taxonomy_category = none;
      })
