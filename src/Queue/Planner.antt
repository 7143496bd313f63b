-- ===== src/Queue/Planner.antt =====
-- `plan_selected` and `plan_run_all` of src/runtime/queue/selection.py.
pub mod Parts
pub mod Soundness
use Prim.Native.Nat.{Ordering}
use Prim.Native.String.{compare}
use draindeck.Base.{
  String, Bool, true, false, not, ◌&&◌, ◌||◌, Option, none, some, List, [], ◌∷◌, ◌++◌, map,
  string_comparable, ◌==◌, if◌then◌else◌,
}
use draindeck.Base.Dict.{Dict, get}
use draindeck.Queue.Selection.{
  IssueSpec, Blocker, TerminalExclusion, PlanResult, States, contains, keep, is_terminal,
  is_satisfied, spec_by_id, has_key, dependency_state_label, depends_on_of,
}
use draindeck.Queue.Topology.{topological_order}

-- The loop over `selected_ids`: the ids that occur again, each once.
unfoldable pub duplicates : List String → List String → List String → List String
unfolding contains
duplicates seen found [] = found
duplicates seen found (x ∷ xs) =
    duplicates (x ∷ seen)
      (if contains x seen && not (contains x found) then found ++ x ∷ [] else found) xs

-- dict.fromkeys(selected_ids)
unfoldable pub from_keys : List String → List String → List String
unfolding contains
from_keys seen [] = []
from_keys seen (x ∷ xs) = elim (contains x seen) [
  | true ↦ from_keys seen xs
  | false ↦ x ∷ from_keys (x ∷ seen) xs
]

abbrev id_of : IssueSpec → String
id_of s = s.id

abbrev pub ids_of : List IssueSpec → List String
ids_of [] = []
ids_of (s ∷ ss) = s.id ∷ ids_of ss

-- states[iid], for an id whose state is terminal
abbrev state_of : States → String → String
state_of states iid = elim (get iid states) [ none ↦ "" | some s ↦ s ]

unfoldable pub exclusions : States → List String → List TerminalExclusion
unfolding is_terminal
exclusions states [] = []
exclusions states (iid ∷ ids) =
    let rest = exclusions states ids in
    if is_terminal iid states
    then (record { issue_id = iid; state = state_of states iid }) ∷ rest
    else rest

-- The inner loop over one issue's dependencies.
unfoldable pub blockers_of :
    Dict String IssueSpec → States → List String → String → List String → List Blocker
unfolding contains is_satisfied dependency_state_label
blockers_of by_id states chosen iid [] = []
blockers_of by_id states chosen iid (dep ∷ deps) =
    let rest = blockers_of by_id states chosen iid deps in
    if contains dep chosen || is_satisfied dep states
    then rest
    else (record {
      issue_id = iid;
      missing_dependency_id = dep;
      dependency_state = dependency_state_label dep by_id states;
    })
      ∷ rest

unfoldable pub all_blockers :
    Dict String IssueSpec → States → List String → List String → List Blocker
unfolding blockers_of
all_blockers by_id states chosen [] = []
all_blockers by_id states chosen (iid ∷ ids) =
    blockers_of by_id states chosen iid (depends_on_of by_id iid)
    ++ all_blockers by_id states chosen ids

-- [iid for iid, st in states.items() if st == "ACTIVE" and not test(iid)]
unfoldable pub omitted_active : (String → Bool) → States → List String
omitted_active covered [] = []
omitted_active covered ((iid, st) ∷ states) =
    let rest = omitted_active covered states in
    if st == "ACTIVE" && not (covered iid) then iid ∷ rest else rest

-- sorted(ids), in the order of code points
abbrev comes_first : String → String → Bool
comes_first a b = elim (compare a b) [ Ordering.gt ↦ false | _ ↦ true ]

unfoldable pub insert_sorted : String → List String → List String
insert_sorted x [] = x ∷ []
insert_sorted x (y ∷ ys) = if comes_first x y then x ∷ y ∷ ys else y ∷ insert_sorted x ys

unfoldable pub sort_ids : List String → List String
unfolding insert_sorted
sort_ids [] = []
sort_ids (x ∷ xs) = insert_sorted x (sort_ids xs)

abbrev pub is_nil {ℓ} : {A : Type ℓ} → List A → Bool
is_nil [] = true
is_nil (_ ∷ _) = false

abbrev empty_plan : PlanResult
empty_plan = record {
  is_ok = false;
  ordered_ids = [];
  unknown_ids = [];
  duplicate_ids = [];
  terminal_selected = [];
  blockers = [];
  cycle_members = [];
  omitted_active_ids = [];
  excluded = [];
  empty_selection = true;
}

-- The selected ids that have a spec, in the order of the file.
unfoldable pub known_selected : List IssueSpec → List String → List String
unfolding keep contains from_keys
known_selected specs selected =
    let chosen = keep (λ iid. has_key iid (spec_by_id specs [])) (from_keys [] selected) in
    keep (λ iid. contains iid chosen) (ids_of specs)

-- `ok = not (unknown_ids or duplicate_ids or …)`, and the order only if it holds.
abbrev pub finish : PlanResult → List String → Bool → PlanResult
finish plan order fine = record plan { is_ok = fine; ordered_ids = if fine then order else [] }

-- plan_selected, for a selection that is not empty
unfoldable pub plan_known : List IssueSpec → States → List String → PlanResult
unfolding keep from_keys duplicates exclusions all_blockers omitted_active
plan_known specs states selected =
    let by_id = spec_by_id specs [] in
    let known = known_selected specs selected in
    let sorted = topological_order (depends_on_of by_id) known in
    let unknown = keep (λ iid. not (has_key iid by_id)) (from_keys [] selected) in
    let repeated = duplicates [] [] selected in
    let terminal = exclusions states known in
    let blocked = all_blockers by_id states known known in
    let omitted = sort_ids (omitted_active (λ iid. contains iid known) states) in
    finish
      (record {
        is_ok = false;
        ordered_ids = [];
        unknown_ids = unknown;
        duplicate_ids = repeated;
        terminal_selected = terminal;
        blockers = blocked;
        cycle_members = sorted.1;
        omitted_active_ids = omitted;
        excluded = [];
        empty_selection = false;
      })
      sorted.0
      (is_nil unknown
        && is_nil repeated
        && is_nil terminal
        && is_nil blocked
        && is_nil omitted
        && is_nil sorted.1)

-- plan_selected
unfoldable pub plan_selected : List IssueSpec → States → List String → PlanResult
unfolding plan_known
plan_selected specs states [] = empty_plan
plan_selected specs states (x ∷ xs) = plan_known specs states (x ∷ xs)

-- plan_run_all
unfoldable pub plan_run_all : List IssueSpec → States → PlanResult
unfolding keep exclusions all_blockers omitted_active
plan_run_all specs states =
    let by_id = spec_by_id specs [] in
    let live = keep (λ iid. not (is_terminal iid states)) (ids_of specs) in
    let sorted = topological_order (depends_on_of by_id) live in
    let blocked = all_blockers by_id states live live in
    let omitted = sort_ids (omitted_active (λ iid. has_key iid by_id) states) in
    finish
      (record {
        is_ok = false;
        ordered_ids = [];
        unknown_ids = [];
        duplicate_ids = [];
        terminal_selected = [];
        blockers = blocked;
        cycle_members = sorted.1;
        omitted_active_ids = omitted;
        excluded = exclusions states (ids_of specs);
        empty_selection = false;
      })
      sorted.0 (is_nil blocked && is_nil sorted.1 && is_nil omitted)
