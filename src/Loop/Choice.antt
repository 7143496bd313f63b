-- ===== src/Loop/Choice.antt =====
-- `_next_actionable` and `_next_actionable_selected` of src/runtime/loop.py.
use draindeck.Base.{
  String, Bool, true, false, ◌&&◌, Option, none, some, List, [], ◌∷◌, string_comparable, ◌==◌,
}
use draindeck.Base.Dict.{Dict, get}
use draindeck.Base.Result.{Result, ok, ◌>>=◌}
use draindeck.States.{IssueState, is_active, is_pending, is_done}
use draindeck.Events.Projection.View.{StateProjection, deps_met, or_nil}

-- The orchestrator's fields that narrow its choice; `none` is None.
pub record Selection : Type 0 where
  pub allowed_issue_ids : Option (List String)
  pub selection_order : Option (List String)
  pub selection_dependencies : Option (Dict String (List String))

abbrev pub member : String → List String → Bool
member x [] = false
member x (y ∷ ys) = elim (y == x) [ true ↦ true | false ↦ member x ys ]

-- `self.allowed_issue_ids is None or iid in self.allowed_issue_ids`
unfoldable pub is_allowed : Option (List String) → String → Bool
is_allowed none iid = true
is_allowed (some ids) iid = member iid ids

-- `self.proj.issues.get(iid) is …`
abbrev pub stands : (IssueState → Bool) → StateProjection → String → Bool
stands test p iid = elim (get iid p.issues) [ none ↦ false | some st ↦ test st ]

abbrev or_next : Bool → String → Option String → Option String
or_next true iid next = some iid
or_next false iid next = next

-- The scan for an ACTIVE issue that is selected.
unfoldable pub first_active : List String → Dict String IssueState → Option String
first_active ids [] = none
first_active ids ((iid, st) ∷ issues) =
    or_next (member iid ids && is_active st) iid (first_active ids issues)

-- `all(self.proj.issues.get(dep) is IssueState.DONE for dep in …)`
unfoldable pub all_stand_done : StateProjection → List String → Bool
all_stand_done p [] = true
all_stand_done p (dep ∷ deps) = stands is_done p dep && all_stand_done p deps

abbrev pub dependencies : Option (Dict String (List String)) → String → List String
dependencies none iid = []
dependencies (some deps) iid = or_nil (get iid deps)

unfoldable pub is_ready : StateProjection → Option (Dict String (List String)) → String → Bool
unfolding all_stand_done
is_ready p deps iid = stands is_pending p iid && all_stand_done p (dependencies deps iid)

-- The scan of the validated order.
unfoldable pub first_ready :
    StateProjection → Option (Dict String (List String)) → List String → Option String
unfolding is_ready
first_ready p deps [] = none
first_ready p deps (iid ∷ order) = or_next (is_ready p deps iid) iid (first_ready p deps order)

abbrev pub or_ready : Option String → Option String → Option String
or_ready none ready = ready
or_ready (some iid) ready = some iid

-- _next_actionable_selected
unfoldable pub next_actionable_selected :
    StateProjection → List String → List String → Option (Dict String (List String)) → Option String
unfolding first_active first_ready
next_actionable_selected p ids order deps =
    or_ready (first_active ids p.issues) (first_ready p deps order)

-- Whether one issue is taken by the scan in the order of the projection: `deps_met` is only asked
-- of a PENDING issue, and may raise.
abbrev takes : StateProjection → Option (List String) → String → IssueState → Result Bool
takes p ids iid st = elim (is_allowed ids iid) [
  | false ↦ ok false
  | true ↦ elim (is_active st) [
    | true ↦ ok true
    | false ↦ elim (is_pending st) [ true ↦ deps_met p iid | false ↦ ok false ]
  ]
]

abbrev found_or : Bool → String → Result (Option String) → Result (Option String)
found_or true iid rest = ok (some iid)
found_or false iid rest = rest

unfoldable pub scan_issues :
    StateProjection → Option (List String) → Dict String IssueState → Result (Option String)
unfolding is_allowed
scan_issues p ids [] = ok none
scan_issues p ids ((iid, st) ∷ issues) =
    let rest = scan_issues p ids issues in do taken ← takes p ids iid st; found_or taken iid rest

-- _next_actionable
unfoldable pub next_actionable : StateProjection → Selection → Result (Option String)
unfolding next_actionable_selected scan_issues
next_actionable p sel = elim sel.allowed_issue_ids [
  | none ↦ scan_issues p none p.issues
  | some ids ↦ elim sel.selection_order [
    | none ↦ scan_issues p (some ids) p.issues
    | some order ↦ ok (next_actionable_selected p ids order sel.selection_dependencies)
  ]
]
