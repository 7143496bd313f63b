-- ===== src/Queue/Topology.antt =====
-- `_topological_order` of src/runtime/queue/selection.py: Kahn's algorithm over two dicts.
pub mod Counting
pub mod Degrees
pub mod Order
use draindeck.Base.{
  ℕ, zero, suc, String, Bool, true, false, Option, none, some, List, [], ◌∷◌, ◌++◌,
  string_comparable, ◌==◌, if◌then◌else◌,
}
use draindeck.Base.Dict.{Dict, get, put}
use draindeck.Base.Lists.{length}
use draindeck.Base.Json.{ℤ, pos, negsuc}
use draindeck.Queue.Selection.{contains}

-- n + 1 and n - 1 on Python's integers.
abbrev pub inc : ℤ → ℤ
inc (pos n) = pos (suc n)
inc (negsuc zero) = pos 0
inc (negsuc (suc n)) = negsuc n

abbrev pub dec : ℤ → ℤ
dec (pos (suc n)) = pos n
dec (pos zero) = negsuc 0
dec (negsuc n) = negsuc (suc n)

-- `indegree` and `dependents`
pub record Graph : Type 0 where
  pub indegree : Dict String ℤ
  pub dependents : Dict String (List String)

-- indegree[iid] and dependents[iid]; every id of the list is a key of both dicts.
abbrev pub degree : Dict String ℤ → String → ℤ
degree d iid = elim (get iid d) [ none ↦ pos 0 | some n ↦ n ]

abbrev pub dependents_of : Dict String (List String) → String → List String
dependents_of d iid = elim (get iid d) [ none ↦ [] | some l ↦ l ]

-- {iid: 0 for iid in ids} and {iid: [] for iid in ids}
unfoldable pub initial : List String → Graph → Graph
initial [] g = g
initial (iid ∷ ids) g =
    initial ids
      (record { indegree = put iid (pos 0) g.indegree; dependents = put iid [] g.dependents })

-- The body of the inner `for dep`.
unfoldable pub add_edge : List String → String → String → Graph → Graph
add_edge id_set iid dep g =
    if contains dep id_set
    then record {
      indegree = put iid (inc (degree g.indegree iid)) g.indegree;
      dependents = put dep (dependents_of g.dependents dep ++ iid ∷ []) g.dependents;
    }
    else g

unfoldable pub add_edges : List String → String → List String → Graph → Graph
add_edges id_set iid [] g = g
add_edges id_set iid (dep ∷ deps) g = add_edges id_set iid deps (add_edge id_set iid dep g)

-- remaining.remove(iid): the first occurrence
unfoldable pub remove : String → List String → List String
remove x [] = []
remove x (y ∷ ys) = if y == x then ys else y ∷ remove x ys

abbrev pub is_zero : ℤ → Bool
is_zero (pos zero) = true
is_zero _ = false

-- next((iid for iid in remaining if indegree[iid] == 0), None)
unfoldable pub first_ready : Dict String ℤ → List String → Option String
first_ready d [] = none
first_ready d (iid ∷ ids) = if is_zero (degree d iid) then some iid else first_ready d ids

-- for dependent in dependents[ready]: indegree[dependent] -= 1
unfoldable pub release_all : List String → Dict String ℤ → Dict String ℤ
release_all [] d = d
release_all (x ∷ xs) d = release_all xs (put x (dec (degree d x)) d)

module _ (deps : String → List String) where
  unfoldable pub build : List String → List String → Graph → Graph
  build id_set [] g = g
  build id_set (iid ∷ ids) g = build id_set ids (add_edges id_set iid (deps iid) g)

-- The `while remaining` loop, with its variables as arguments. Each round removes one id.
unfoldable pub kahn :
    ℕ
    → Dict String (List String)
    → Dict String ℤ
    → List String
    → List String
    → List String × List String
kahn fuel dependents indegree [] ordered = (ordered, [])
kahn zero dependents indegree (r ∷ rs) ordered = (ordered, r ∷ rs)
kahn (suc fuel) dependents indegree (r ∷ rs) ordered = elim (first_ready indegree (r ∷ rs)) [
  | none ↦ (ordered, r ∷ rs)
  | some ready ↦
      kahn fuel dependents (release_all (dependents_of dependents ready) indegree)
        (remove ready (r ∷ rs)) (ordered ++ ready ∷ [])
]

abbrev no_graph : Graph
no_graph = record { indegree = []; dependents = [] }

unfoldable pub graph_of : (String → List String) → List String → Graph
unfolding initial build add_edges add_edge
graph_of deps ids = build deps ids ids (initial ids no_graph)

-- _topological_order: the ordered ids, and those that are left over.
unfoldable pub topological_order : (String → List String) → List String → List String × List String
unfolding graph_of kahn
topological_order deps ids =
    let g = graph_of deps ids in kahn (length ids) g.dependents g.indegree ids []
