-- ===== src/Queue/Topology/Order.antt =====
-- What `_topological_order` promises: an order of the ids in which each stands behind its listed
-- dependencies, and leftover ids only where each waits on another one.
use draindeck.Base.{
  ℕ, zero, suc, ◌≤◌, ◌<◌, subst, String, true, false, none, some, List, [], ◌∷◌, ◌++◌, ◌≡◌, ◌≢◌,
  refl, sym, ap, ◌∙◌, arith, string_comparable, ==_iff, Option-cases, inl, inr,
}
use draindeck.Base.Dict.{Dict}
use draindeck.Base.Lists.{length}
use draindeck.Base.Json.{ℤ, pos}
use draindeck.Queue.Selection.{contains}
use draindeck.Queue.Topology.{
  degree, dependents_of, release_all, remove, first_ready, is_zero, kahn, graph_of,
  topological_order,
}
use draindeck.Queue.Topology.Counting.{
  count, tally, IsDistinct, count-append, contains-append, contains-count, count-contains,
  contains-remove, remove-IsDistinct, count-remove, length-remove, tally-remove, tally-zero,
  tally-pos, count-nil, count-absent,
}
use draindeck.Queue.Topology.Degrees.{
  dec_times-pos, degree-release_all, degree-graph_of, count-graph_of,
}

first_ready-some :
    (d : Dict String ℤ) (l : List String) (r : String)
    → first_ready d l ≡ some r
    → (contains r l ≡ true) × (is_zero (degree d r) ≡ true)
unfolding first_ready contains
first_ready-some d [] r e = absurd (cc)
first_ready-some d (x ∷ xs) r e = ground (arith, first_ready-some d xs r, ==_iff x r)

first_ready-none :
    (d : Dict String ℤ) (l : List String) (y : String)
    → first_ready d l ≡ none
    → contains y l ≡ true
    → is_zero (degree d y) ≡ false
unfolding first_ready contains
first_ready-none d [] y e m = absurd (cc)
first_ready-none d (x ∷ xs) y e m = ground (arith, first_ready-none d xs y, ==_iff x y)

module _ (deps : String → List String) (ids : List String) where
  -- Every dependency of `x` that is listed stands in `seen`.
  abbrev Satisfied : List String → String → Type 0
  Satisfied seen x =
      (d : String) → contains d (deps x) ≡ true → contains d ids ≡ true → contains d seen ≡ true

  -- Each of the ids stands behind its listed dependencies; `seen` are those before them.
  abbrev pub Follows : List String → List String → Type 0
  Follows seen [] = Unit
  Follows seen (x ∷ xs) =
      ((d : String) → contains d (deps x) ≡ true → contains d ids ≡ true → contains d seen ≡ true)
      × Follows (seen ++ x ∷ []) xs

  -- The result of a topological sort: together the same ids, each behind its dependencies, and
  -- whatever is left over waits on something left over.
  pub record IsSorted (result : List String × List String) : Type 0 where
    pub same : (x : String) → count x (result.0 ++ result.1) ≡ count x ids
    pub follows : Follows [] result.0
    pub stuck :
        (y : String)
        → contains y result.1 ≡ true
        → (d : String) × (contains d (deps y) ≡ true) × (contains d result.1 ≡ true)

  Follows-snoc :
      (seen xs : List String) (r : String)
      → Follows seen xs
      → ((d : String)
          → contains d (deps r) ≡ true
          → contains d ids ≡ true
          → contains d (seen ++ xs) ≡ true)
      → Follows seen (xs ++ r ∷ [])
  unfolding contains
  Follows-snoc seen [] r h k = (λ d m n. ground (arith, k d m n, contains-append d seen []), tt)
  Follows-snoc seen (x ∷ xs) r h k = (
    h.0,
    Follows-snoc (seen ++ x ∷ []) xs r h.1 λ d m n. ground (
      arith,
      k d m n,
      contains-append d seen (x ∷ xs),
      contains-append d (seen ++ x ∷ []) xs,
      contains-append d seen (x ∷ []),
    ),
  )

  record Inv (remaining ordered : List String) (indegree : Dict String ℤ) : Type 0 where
    distinct : IsDistinct remaining
    degrees :
        (y : String)
        → contains y remaining ≡ true
        → degree indegree y ≡ pos (tally remaining (deps y))
    same_ids : (x : String) → count x (ordered ++ remaining) ≡ count x ids
    ordered_follow : Follows [] ordered

  abbrev Edges : Dict String (List String) → Type 0
  Edges dependents =
      (y d : String)
      → contains y ids ≡ true
      → contains d ids ≡ true
      → count y (dependents_of dependents d) ≡ count d (deps y)

  is_zero-pos : (n : ℕ) → is_zero (pos n) ≡ true → n ≡ 0
  is_zero-pos zero e = refl
  is_zero-pos (suc n) e = absurd (cc)

  is_zero-ne : (n : ℕ) → is_zero (pos n) ≡ false → n ≢ 0
  is_zero-ne zero e h = cc
  is_zero-ne (suc n) e h = omega arith

  module _ {remaining ordered : List String} {indegree : Dict String ℤ}
      (inv : Inv remaining ordered indegree) where
    remaining-ids : (y : String) → contains y remaining ≡ true → contains y ids ≡ true
    remaining-ids y m = count-contains y ids (λ e.
        contains-count y remaining m
          (omega (arith, inv.same_ids y, count-append y ordered remaining)))

    stuck_here :
        first_ready indegree remaining ≡ none
        → (y : String) → contains y remaining ≡ true
        → (d : String) × (contains d (deps y) ≡ true) × (contains d remaining ≡ true)
    stuck_here e y m = tally-pos remaining (deps y) (
        is_zero-ne _
          (ap is_zero (sym (inv.degrees y m)) ∙ first_ready-none indegree remaining y e m))

    module _ (r : String) (m : contains r remaining ≡ true)
        (z : is_zero (degree indegree r) ≡ true) where
      no_deps : tally remaining (deps r) ≡ 0
      no_deps = is_zero-pos _ (ap is_zero (sym (inv.degrees r m)) ∙ z)

      placed :
          (d : String)
          → contains d (deps r) ≡ true
          → contains d ids ≡ true
          → contains d ordered ≡ true
      placed d dep listed = count-contains d ordered λ e. contains-count d ids listed (
          omega (
            arith,
            inv.same_ids d,
            count-append d ordered remaining,
            count-absent d remaining (tally-zero remaining (deps r) d no_deps dep),
          ))

      same_round : (x : String) → count x ((ordered ++ r ∷ []) ++ remove r remaining) ≡ count x ids
      unfolding count
      same_round x = ground (
        arith,
        inv.same_ids x,
        count-append x ordered remaining,
        count-remove r x remaining m,
        count-append x (ordered ++ r ∷ []) (remove r remaining),
        count-append x ordered (r ∷ []),
      )

      degrees_round :
          (dependents : Dict String (List String))
          → Edges dependents
          → (y : String) → contains y (remove r remaining) ≡ true
          → degree (release_all (dependents_of dependents r) indegree) y
            ≡ pos (tally (remove r remaining) (deps y))
      degrees_round dependents edges y n =
          let before : contains y remaining ≡ true =
            ground (arith, contains-remove r y remaining inv.distinct) in
          degree-release_all y (dependents_of dependents r) indegree
          ∙ rw
              (
                edges y r (remaining-ids y before) (remaining-ids r m),
                inv.degrees y before,
                tally-remove r remaining (deps y) inv.distinct m,
              )
              (dec_times-pos (count r (deps y)) (tally (remove r remaining) (deps y)))

      round-Inv :
          (dependents : Dict String (List String))
          → Edges dependents
          → Inv
              (remove r remaining)
              (ordered ++ r ∷ [])
              (release_all (dependents_of dependents r) indegree)
      round-Inv dependents edges = record {
        distinct = remove-IsDistinct r remaining inv.distinct;
        degrees = degrees_round dependents edges;
        same_ids = same_round;
        ordered_follow = Follows-snoc [] ordered r inv.ordered_follow placed;
      }

  kahn-IsSorted :
      (dependents : Dict String (List String))
      → Edges dependents
      → (fuel : ℕ) (remaining ordered : List String) (indegree : Dict String ℤ)
      → length remaining ≤ fuel
      → Inv remaining ordered indegree
      → IsSorted (kahn fuel dependents indegree remaining ordered)
  unfolding kahn contains
  kahn-IsSorted dependents edges fuel [] ordered indegree h inv = record {
    same = inv.same_ids;
    follows = inv.ordered_follow;
    stuck = λ y m. absurd (cc);
  }
  kahn-IsSorted dependents edges zero (r ∷ rs) ordered indegree h inv = absurd (omega arith)
  kahn-IsSorted dependents edges (suc fuel) (r ∷ rs) ordered indegree h inv =
      elim (Option-cases (first_ready indegree (r ∷ rs))) [
        | inl e ↦
            rw (e, kahn)
              (record {
                same = inv.same_ids;
                follows = inv.ordered_follow;
                stuck = stuck_here inv e;
              })
        | inr (ready, e) ↦
            let (m, z) = first_ready-some indegree (r ∷ rs) ready e in
            rw (e, kahn)
              (kahn-IsSorted dependents edges fuel (remove ready (r ∷ rs)) (ordered ++ ready ∷ [])
                (release_all (dependents_of dependents ready) indegree)
                (omega (arith, length-remove ready (r ∷ rs) m))
                (round-Inv inv ready m z dependents edges))
      ]

  -- For ids of which none stands twice: `_topological_order` returns each of them once, ordered or
  -- left over; each ordered id stands behind those of its dependencies that are among the ids; and
  -- each id left over depends on one that is left over.
  pub topological_order-IsSorted : IsDistinct ids → IsSorted (topological_order deps ids)
  unfolding topological_order
  topological_order-IsSorted h =
      kahn-IsSorted (graph_of deps ids).dependents (λ y d m n. count-graph_of deps ids h y m d n)
        (length ids) ids [] (graph_of deps ids).indegree (omega arith)
        (record {
          distinct = h;
          degrees = λ y m. degree-graph_of deps ids h y m;
          same_ids = λ x. refl;
          ordered_follow = tt;
        })

module _ (deps : String → List String) (ids : List String) (rank : String → ℕ)
    (ranked : (x d : String)
      → contains x ids ≡ true
      → contains d (deps x) ≡ true
      → contains d ids ≡ true
      → rank d < rank x)
    {result : List String × List String} (sorted : IsSorted deps ids result) where
  leftover-ids : (y : String) → contains y result.1 ≡ true → contains y ids ≡ true
  leftover-ids y m = count-contains y ids λ e.
      contains-count y result.1 m (omega (arith, sorted.same y, count-append y result.0 result.1))

  descent : (n : ℕ) (y : String) → rank y < n → contains y result.1 ≡ true → ⊥
  descent zero y h m = elim h [ ]
  descent (suc n) y h m =
      let (d, dep, left) = sorted.stuck y m in
      let below = ranked y d (leftover-ids y m) dep (leftover-ids d left) in
      descent n d (omega arith) left

  nothing_left : (l : List String) → l ≡ result.1 → l ≡ []
  unfolding contains
  nothing_left [] e = refl
  nothing_left (x ∷ xs) e = absurd (
      descent (suc (rank x)) x (omega arith)
        (subst (λ l. contains x l ≡ true) e (ground (arith, ==_iff x x))))

-- If the dependencies among the ids have no cycle (a rank falls along each of them) and no id
-- stands twice, then nothing is left over: `_topological_order` orders all of the ids.
pub topological_order-acyclic :
    (deps : String → List String) (ids : List String) (rank : String → ℕ)
    → IsDistinct ids
    → ((x d : String)
        → contains x ids ≡ true
        → contains d (deps x) ≡ true
        → contains d ids ≡ true
        → rank d < rank x)
    → ((topological_order deps ids).1 ≡ [])
      × ((x : String) → count x (topological_order deps ids).0 ≡ count x ids)
topological_order-acyclic deps ids rank h ranked =
    let sorted = topological_order-IsSorted deps ids h in
    let left = nothing_left deps ids rank ranked sorted (topological_order deps ids).1 refl in
    (
      left,
      λ x. omega (
        arith,
        sorted.same x,
        count-append x (topological_order deps ids).0 (topological_order deps ids).1,
        ap (count x) left,
        count-nil x,
      ),
    )
