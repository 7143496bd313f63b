-- ===== src/Tests/ValidationTests.antt =====
-- Validation of two commands, of which the first passes at its second try, and the second never.
use draindeck.Base.{
  ◌≤◌, String, true, false, Option, none, some, List, [], ◌∷◌, ◌++◌, ◌≡◌, refl, string_comparable,
}
use draindeck.Base.Dict.{Dict, get}
use draindeck.Base.Lists.{length}
use draindeck.Base.Json.{Float, finite, pos}
use draindeck.Base.Result.{Result, ok}
use draindeck.Validation.Runner.{
  Shell, Validator, Child, exited, timed_out, ValidationResult, validate, child_env,
}
use draindeck.Validation.Tries.{Ran}
use draindeck.Validation.Reports.{Verdict, validate-Gained}
use draindeck.Validation.Overlay.{Distinct, overlaid, child_env-overlaid}

-- The children that are still to end.
abbrev next_child : List Child → Result Child × List Child
next_child [] = (ok timed_out, [])
next_child (c ∷ cs) = (ok c, cs)

abbrev nothing : Float
nothing = finite false 0 (pos 0)

abbrev shell : Shell (List Child)
shell = record {
  run = λ cmd log append env cs. next_child cs;
  environ = λ cs. [];
  monotonic = λ cs. nothing;
  log_path = λ xid i. "log";
  minus = λ x y. nothing;
  plus = λ x y. nothing;
  round3 = λ x. x;
}

abbrev validator : Validator
validator = record { commands = "pytest" ∷ []; env = [] }

abbrev children : List Child
children = exited (pos 1) ∷ exited (pos 0) ∷ exited (pos 1) ∷ []

abbrev outcome : ValidationResult
outcome = record {
  passed = false;
  validated_commit = "c1";
  per_command =
      (record { name = "pytest"; passed = true; duration_s = nothing; log_path = "log" })
      ∷ (record { name = "mypy"; passed = false; duration_s = nothing; log_path = "log" })
      ∷ [];
  flake_retries = 2;
  taxonomy_category = some "validation-test";
}

validates : validate shell validator "c1" "A-e1" ("mypy" ∷ []) children ≡ (ok outcome, [])
unfolding validate
validates = refl

validate-Gained_example :
    (outcome.validated_commit ≡ "c1")
    × Ran shell validator "A-e1" 0
        (validator.commands ++ "mypy" ∷ [])
        outcome.per_command
        outcome.flake_retries
        children
        []
    × (outcome.flake_retries ≤ length outcome.per_command)
    × Verdict (validator.commands ++ "mypy" ∷ []) outcome.per_command outcome
validate-Gained_example =
    validate-Gained shell validator "c1" "A-e1" ("mypy" ∷ []) outcome children [] validates

abbrev parent : Dict String String
parent = ("VIRTUAL_ENV", "/v") ∷ []

abbrev overlay : Dict String (Option String)
overlay = ("VIRTUAL_ENV", none) ∷ []

abbrev key : String
key = "VIRTUAL_ENV"

once_each : Distinct overlay
unfolding get
once_each = (refl, tt)

child_env-overlaid_example :
    get key (child_env parent overlay) ≡ overlaid (get key overlay) (get key parent)
child_env-overlaid_example = child_env-overlaid parent overlay key once_each
