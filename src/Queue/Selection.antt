-- ===== src/Queue/Selection.antt =====
-- src/runtime/queue/selection.py: the pure selection and dependency planner.
use draindeck.Base.{
  String, Bool, true, false, ◌||◌, none, some, List, [], ◌∷◌, string_comparable, ◌==◌,
  if◌then◌else◌,
}
use draindeck.Base.Dict.{Dict, get, put}

-- IssueSpec (queue/issues_md.py)
pub record IssueSpec : Type 0 where
  pub id : String
  pub title : String
  pub body : String
  pub depends_on : List String
  pub acceptance_criteria : List String

pub record Blocker : Type 0 where
  pub issue_id : String
  pub missing_dependency_id : String
  pub dependency_state : String

pub record TerminalExclusion : Type 0 where
  pub issue_id : String
  pub state : String

pub record PlanResult : Type 0 where
  pub is_ok : Bool
  pub ordered_ids : List String
  pub unknown_ids : List String
  pub duplicate_ids : List String
  pub terminal_selected : List TerminalExclusion
  pub blockers : List Blocker
  pub cycle_members : List String
  pub omitted_active_ids : List String
  pub excluded : List TerminalExclusion
  pub empty_selection : Bool

abbrev pub States : Type 0
States = Dict String String

-- x in xs, over a set or a list of ids
unfoldable pub contains : String → List String → Bool
contains x [] = false
contains x (y ∷ ys) = y == x || contains x ys

-- [x for x in xs if test(x)]
unfoldable pub keep {ℓ} : {A : Type ℓ} → (A → Bool) → List A → List A
keep p [] = []
keep p (x ∷ xs) = let rest = keep p xs in if p x then x ∷ rest else rest

abbrev pub is_terminal_state : String → Bool
is_terminal_state s = s == "DONE" || s == "NEEDS_HUMAN" || s == "NEEDS_DECOMPOSITION"

-- _is_terminal
unfoldable pub is_terminal : String → States → Bool
is_terminal iid states = elim (get iid states) [ none ↦ false | some s ↦ is_terminal_state s ]

-- _is_satisfied
unfoldable pub is_satisfied : String → States → Bool
is_satisfied dep states = elim (get dep states) [ none ↦ false | some s ↦ s == "DONE" ]

-- {s.id: s for s in specs}: of two specs with one id the later stands.
unfoldable pub spec_by_id : List IssueSpec → Dict String IssueSpec → Dict String IssueSpec
spec_by_id [] d = d
spec_by_id (s ∷ ss) d = spec_by_id ss (put s.id s d)

abbrev pub has_key : String → Dict String IssueSpec → Bool
has_key k d = elim (get k d) [ none ↦ false | some _ ↦ true ]

-- _dependency_state_label
unfoldable pub dependency_state_label : String → Dict String IssueSpec → States → String
dependency_state_label dep by_id states = elim (get dep states) [
  | some s ↦ s
  | none ↦ if has_key dep by_id then "NOT_INGESTED" else "UNKNOWN"
]

-- spec_by_id[iid].depends_on, for an id that is there
abbrev pub depends_on_of : Dict String IssueSpec → String → List String
depends_on_of by_id iid = elim (get iid by_id) [ none ↦ [] | some s ↦ s.depends_on ]
