-- ===== src/Tests/PlannerTests.antt =====
-- Small plans, and the theorems about the planner at them.
use draindeck.Base.{
  ℕ, String, true, false, List, [], ◌∷◌, ◌≡◌, refl, string_comparable, arith, ◌==◌, ==_iff,
  if◌then◌else◌, ◌<◌,
}
use draindeck.Base.Dict.{get, put}
use draindeck.Queue.Selection.{
  IssueSpec, States, contains, keep, is_terminal, is_satisfied, spec_by_id, dependency_state_label,
}
use draindeck.Queue.Topology.{topological_order, remove, first_ready, release_all}
use draindeck.Queue.Topology.Counting.{count}
use draindeck.Queue.Topology.Order.{IsSorted, topological_order-IsSorted, topological_order-acyclic}
use draindeck.Queue.Planner.{
  plan_selected, known_selected, duplicates, from_keys, exclusions, all_blockers, omitted_active,
  sort_ids,
}
use draindeck.Queue.Planner.Soundness.{IsRunnable, plan_selected_sound}

abbrev spec : String → List String → IssueSpec
spec i ds = record { id = i; title = i; body = ""; depends_on = ds; acceptance_criteria = [] }

-- "B" needs "A", and "C" needs both.
abbrev specs : List IssueSpec
specs = spec "C" ("A" ∷ "B" ∷ []) ∷ spec "B" ("A" ∷ []) ∷ spec "A" ("Z" ∷ []) ∷ []

abbrev states : States
states = ("Z", "DONE") ∷ ("A", "ACTIVE") ∷ []

abbrev needs : String → List String
needs x = if x == "C" then "A" ∷ "B" ∷ [] else if x == "B" then "A" ∷ [] else []

program : Unit {0}
unfolding plan_selected known_selected topological_order remove first_ready release_all contains
    keep is_terminal is_satisfied spec_by_id dependency_state_label duplicates from_keys exclusions
    all_blockers omitted_active sort_ids get put count
program = tt

order_abc : topological_order needs ("C" ∷ "B" ∷ "A" ∷ []) ≡ ("A" ∷ "B" ∷ "C" ∷ [], [])
unfolding program
order_abc = refl

order_cycle : topological_order (λ x. "A" ∷ []) ("A" ∷ []) ≡ ([], "A" ∷ [])
unfolding program
order_cycle = refl

plan_abc : (plan_selected specs states ("A" ∷ "C" ∷ "B" ∷ [])).ordered_ids ≡ "A" ∷ "B" ∷ "C" ∷ []
unfolding program
plan_abc = refl

plan_ok : (plan_selected specs states ("A" ∷ "C" ∷ "B" ∷ [])).is_ok ≡ true
unfolding program
plan_ok = refl

-- The active issue may not be left out.
plan_omitted : (plan_selected specs states ("B" ∷ [])).omitted_active_ids ≡ "A" ∷ []
unfolding program
plan_omitted = refl

distinct :
    (contains "C" ("B" ∷ "A" ∷ []) ≡ false)
    × ((contains "B" ("A" ∷ []) ≡ false) × ((contains "A" [] ≡ false) × Unit {0}))
unfolding contains
distinct = (refl, (refl, (refl, tt)))

topological_order-IsSorted_example :
    IsSorted needs ("C" ∷ "B" ∷ "A" ∷ []) (topological_order needs ("C" ∷ "B" ∷ "A" ∷ []))
topological_order-IsSorted_example =
    topological_order-IsSorted needs ("C" ∷ "B" ∷ "A" ∷ []) distinct

abbrev rank : String → ℕ
rank x = if x == "C" then 2 else if x == "B" then 1 else 0

ranked :
    (x d : String)
    → contains x ("C" ∷ "B" ∷ "A" ∷ []) ≡ true
    → contains d (needs x) ≡ true
    → contains d ("C" ∷ "B" ∷ "A" ∷ []) ≡ true
    → rank d < rank x
unfolding contains
ranked x d m n k = ground (
  arith,
  ==_iff x "C",
  ==_iff x "B",
  ==_iff d "C",
  ==_iff d "B",
  ==_iff "A" d,
  ==_iff "B" d,
  ==_iff {T = String} "A" "B",
  ==_iff {T = String} "A" "C",
  ==_iff {T = String} "B" "C",
)

topological_order-acyclic_example :
    ((topological_order needs ("C" ∷ "B" ∷ "A" ∷ [])).1 ≡ [])
    × ((x : String)
        → count x (topological_order needs ("C" ∷ "B" ∷ "A" ∷ [])).0
          ≡ count x ("C" ∷ "B" ∷ "A" ∷ []))
topological_order-acyclic_example =
    topological_order-acyclic needs ("C" ∷ "B" ∷ "A" ∷ []) rank distinct ranked

plan_selected_sound_example :
    ((x : String)
      → count x (plan_selected specs states ("A" ∷ "C" ∷ "B" ∷ [])).ordered_ids
        ≡ count x ("A" ∷ "C" ∷ "B" ∷ []))
    × IsRunnable
        (spec_by_id specs [])
        states
        (plan_selected specs states ("A" ∷ "C" ∷ "B" ∷ [])).ordered_ids
plan_selected_sound_example =
    plan_selected_sound specs states ("A" ∷ "C" ∷ "B" ∷ []) distinct plan_ok
