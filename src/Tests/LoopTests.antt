-- ===== src/Tests/LoopTests.antt =====
-- The choice of the next issue, with one issue DONE and two PENDING.
use draindeck.Base.{String, Option, some, List, [], ◌∷◌, ◌≡◌, refl, ◌⊎◌}
use draindeck.Base.Dict.{Dict, get}
use draindeck.Base.Lists.{In}
use draindeck.States.{active, pending, done}
use draindeck.Events.Projection.View.{StateProjection, empty}
use draindeck.Loop.Choice.{next_actionable_selected}
use draindeck.Loop.ChoiceSound.{Startable, next_actionable_selected-Startable}

abbrev issues : StateProjection
issues = record empty { issues = ("A", done) ∷ ("C", pending) ∷ ("B", pending) ∷ [] }

abbrev deps : Option (Dict String (List String))
deps = some (("B", "A" ∷ []) ∷ ("C", "B" ∷ []) ∷ [])

-- C waits on B, and stands first in the log.
chooses : next_actionable_selected issues ("B" ∷ "C" ∷ []) ("B" ∷ "C" ∷ []) deps ≡ some "B"
unfolding next_actionable_selected get
chooses = refl

next_actionable_selected-Startable_example :
    (In {A = String} "B" ("B" ∷ "C" ∷ []) × In ("B", active) issues.issues)
    ⊎ (((x : String) → In x ("B" ∷ "C" ∷ []) → ¬ In (x, active) issues.issues)
        × In {A = String} "B" ("B" ∷ "C" ∷ [])
        × Startable issues deps "B")
next_actionable_selected-Startable_example =
    next_actionable_selected-Startable issues ("B" ∷ "C" ∷ []) ("B" ∷ "C" ∷ []) deps "B" chooses
