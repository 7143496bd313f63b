-- ===== src/Queue/Topology/Degrees.antt =====
-- What the two dicts of `_topological_order` count.
use draindeck.Base.{
  ℕ, zero, suc, ◌+◌, String, true, ◌&&◌, List, [], ◌∷◌, ◌++◌, ◌≡◌, refl, ap, arith,
  string_comparable, ◌==◌, ==_iff, if◌then◌else◌, Bool-cases, inl, inr, ◌∙◌,
}
use draindeck.Base.Dict.{Dict, get, put, get-put}
use draindeck.Base.Json.{ℤ, pos}
use draindeck.Queue.Selection.{contains}
use draindeck.Queue.Topology.{
  Graph, inc, dec, degree, dependents_of, initial, add_edge, add_edges, build, release_all,
  graph_of, no_graph,
}
use draindeck.Queue.Topology.Counting.{count, tally, IsDistinct, count-append}

degree-put :
    (k y : String) (n : ℤ) (d : Dict String ℤ)
    → degree (put k n d) y ≡ (if k == y then n else degree d y)
degree-put k y n d = ground (arith, get-put k y n d)

dependents_of-put :
    (k y : String) (l : List String) (d : Dict String (List String))
    → dependents_of (put k l d) y ≡ (if k == y then l else dependents_of d y)
dependents_of-put k y l d = ground (arith, get-put k y l d)

abbrev pub dec_times : ℕ → ℤ → ℤ
dec_times zero n = n
dec_times (suc k) n = dec_times k (dec n)

pub dec_times-pos : (k n : ℕ) → dec_times k (pos (n + k)) ≡ pos n
dec_times-pos zero n = let e : n + 0 ≡ n = omega arith in ap pos e
dec_times-pos (suc k) n = let e : n + suc k ≡ suc (n + k) = omega arith in rw e (dec_times-pos k n)

pub degree-release_all :
    (y : String) (l : List String) (d : Dict String ℤ)
    → degree (release_all l d) y ≡ dec_times (count y l) (degree d y)
unfolding release_all count
degree-release_all y [] d = refl
degree-release_all y (x ∷ xs) d = elim (Bool-cases (x == y)) [
  | inl s ↦
      degree-release_all y xs (put x (dec (degree d x)) d)
      ∙ rw (degree-put, s) (rw ((==_iff x y).0 s) refl)
  | inr s ↦ degree-release_all y xs (put x (dec (degree d x)) d) ∙ rw (degree-put, s)
]

module _ (ids : List String) (iid y : String) where
  degree-add_edge :
      (dep : String) (g : Graph) (n : ℕ)
      → degree g.indegree y ≡ pos n
      → degree (add_edge ids iid dep g).indegree y
        ≡ (if contains dep ids && iid == y then pos (suc n) else pos n)
  unfolding add_edge
  degree-add_edge dep g n e =
      ground (arith, degree-put iid y (inc (degree g.indegree iid)) g.indegree, ==_iff iid y)

  count-add_edge :
      (dep d : String) (g : Graph)
      → count y (dependents_of (add_edge ids iid dep g).dependents d)
        ≡ count y (dependents_of g.dependents d)
          + (if contains dep ids && dep == d && iid == y then 1 else 0)
  unfolding add_edge count
  count-add_edge dep d g = ground (
    arith,
    dependents_of-put dep d (dependents_of g.dependents dep ++ iid ∷ []) g.dependents,
    count-append y (dependents_of g.dependents dep) (iid ∷ []),
    ==_iff dep d,
  )

  degree-add_edges :
      (ds : List String) (g : Graph) (n : ℕ)
      → degree g.indegree y ≡ pos n
      → degree (add_edges ids iid ds g).indegree y
        ≡ (if iid == y then pos (n + tally ids ds) else pos n)
  unfolding add_edges tally
  degree-add_edges [] g n e = ground arith
  degree-add_edges (dep ∷ ds) g n e = ground (
    arith,
    degree-add_edge dep g n,
    degree-add_edges ds (add_edge ids iid dep g) n,
    degree-add_edges ds (add_edge ids iid dep g) (suc n),
  )

  count-add_edges :
      (ds : List String) (d : String) (g : Graph)
      → count y (dependents_of (add_edges ids iid ds g).dependents d)
        ≡ count y (dependents_of g.dependents d)
          + (if iid == y && contains d ids then count d ds else 0)
  unfolding add_edges count
  count-add_edges [] d g = ground arith
  count-add_edges (dep ∷ ds) d g =
      ground
        (arith, count-add_edge dep d g, count-add_edges ds d (add_edge ids iid dep g), ==_iff dep d)

module _ (deps : String → List String) (ids : List String) (y : String) where
  degree-build :
      (l : List String) (g : Graph) (n : ℕ)
      → IsDistinct l
      → degree g.indegree y ≡ pos n
      → degree (build deps ids l g).indegree y
        ≡ (if contains y l then pos (n + tally ids (deps y)) else pos n)
  unfolding build contains
  degree-build [] g n h e = e
  degree-build (x ∷ l) g n h e = elim (Bool-cases (x == y)) [
    | inl s ↦ ground (
      arith,
      ==_iff x y,
      degree-add_edges ids x y (deps x) g n,
      degree-build l (add_edges ids x (deps x) g) (n + tally ids (deps x)) h.1,
    )
    | inr s ↦ ground (
      arith,
      degree-add_edges ids x y (deps x) g n,
      degree-build l (add_edges ids x (deps x) g) n h.1,
    )
  ]

  count-build :
      (d : String) (l : List String) (g : Graph)
      → IsDistinct l
      → count y (dependents_of (build deps ids l g).dependents d)
        ≡ count y (dependents_of g.dependents d)
          + (if contains y l && contains d ids then count d (deps y) else 0)
  unfolding build contains
  count-build d [] g h = omega arith
  count-build d (x ∷ l) g h = ground (
    arith,
    ==_iff x y,
    count-add_edges ids x y (deps x) d g,
    count-build d l (add_edges ids x (deps x) g) h.1,
  )

degree-initial :
    (y : String) (ids : List String) (g : Graph)
    → degree g.indegree y ≡ pos 0
    → degree (initial ids g).indegree y ≡ pos 0
unfolding initial
degree-initial y [] g e = e
degree-initial y (x ∷ ids) g e =
    degree-initial y ids
      (record { indegree = put x (pos 0) g.indegree; dependents = put x [] g.dependents })
      (ground (arith, degree-put x y (pos 0) g.indegree))

dependents_of-initial :
    (y : String) (ids : List String) (g : Graph)
    → dependents_of g.dependents y ≡ []
    → dependents_of (initial ids g).dependents y ≡ []
unfolding initial
dependents_of-initial y [] g e = e
dependents_of-initial y (x ∷ ids) g e =
    dependents_of-initial y ids
      (record { indegree = put x (pos 0) g.indegree; dependents = put x [] g.dependents })
      (ground (arith, dependents_of-put x y [] g.dependents))

module _ (deps : String → List String) (ids : List String) (h : IsDistinct ids) (y : String)
    (m : contains y ids ≡ true) where
  -- The indegree of a listed id is the number of its listed dependencies.
  pub degree-graph_of : degree (graph_of deps ids).indegree y ≡ pos (tally ids (deps y))
  unfolding graph_of get
  degree-graph_of = ground (
    arith,
    degree-initial y ids no_graph refl,
    degree-build deps ids y ids (initial ids no_graph) 0 h,
  )

  -- It stands among the dependents of a listed id as often as it names it.
  pub count-graph_of :
      (d : String)
      → contains d ids ≡ true
      → count y (dependents_of (graph_of deps ids).dependents d) ≡ count d (deps y)
  unfolding graph_of get count
  count-graph_of d n = ground (
    arith,
    dependents_of-initial d ids no_graph refl,
    count-build deps ids y d ids (initial ids no_graph) h,
  )
