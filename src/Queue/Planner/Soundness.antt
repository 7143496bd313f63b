-- ===== src/Queue/Planner/Soundness.antt =====
-- A plan that is ok can be run as it stands.
use draindeck.Base.{
  String, Bool, true, false, not, ◌&&◌, ◌||◌, some, List, [], ◌∷◌, ◌++◌, ◌≡◌, refl, sym, ap, ◌∙◌,
  arith, string_comparable, ◌==◌, ==_iff, if◌then◌else◌, Bool-cases, inl, inr,
}
use draindeck.Base.Dict.{Dict, get}
use draindeck.Base.Lists.{In}
use draindeck.Queue.Selection.{
  IssueSpec, States, contains, keep, is_terminal, is_satisfied, spec_by_id, has_key, depends_on_of,
}
use draindeck.Queue.Topology.{topological_order}
use draindeck.Queue.Topology.Counting.{
  count, IsDistinct, count-append, count-nil, contains-count, count-contains,
}
use draindeck.Queue.Topology.Order.{Follows, topological_order-IsSorted}
use draindeck.Queue.Planner.{
  duplicates, from_keys, ids_of, exclusions, all_blockers, omitted_active, is_nil, known_selected,
  plan_known, plan_selected,
}
use draindeck.Queue.Planner.Parts.{
  contains-keep, keep-IsDistinct, contains-from_keys, has_key-spec_by_id, exclusions-nil,
  all_blockers-nil, omitted_active-nil, sort_ids-nil, duplicates-IsDistinct, count-IsDistinct,
}

-- Whoever runs the ids in this order finds every dependency DONE or run before; `seen` have run.
abbrev pub Runs : Dict String IssueSpec → States → List String → List String → Type 0
Runs by_id states seen [] = Unit
Runs by_id states seen (x ∷ xs) =
    ((d : String)
      → contains d (depends_on_of by_id x) ≡ true
      → (contains d seen || is_satisfied d states) ≡ true)
    × Runs by_id states (seen ++ x ∷ []) xs

-- A batch that can be run: no issue of it has ended, every dependency is DONE or comes earlier, and
-- every ACTIVE issue belongs to it.
pub record IsRunnable (by_id : Dict String IssueSpec) (states : States) (order : List String)
    : Type 0 where
  pub live : (x : String) → contains x order ≡ true → is_terminal x states ≡ false
  pub runs : Runs by_id states [] order
  pub active : (x : String) → get x states ≡ some "ACTIVE" → contains x order ≡ true

get-In : (x v : String) (d : Dict String String) → get x d ≡ some v → In (x, v) d
unfolding get
get-In x v [] e = absurd (cc)
get-In x v ((y, w) ∷ d) e = elim (Bool-cases (y == x)) [
  | inl s ↦ inl (pair ((==_iff y x).0 s) (ground arith))
  | inr s ↦ inr (get-In x v d (ground arith))
]
  where
    pair : y ≡ x → w ≡ v → ◌≡◌ {A = String × String} (y, w) (x, v)
    pair p q = λ i. (p i, q i)

is_nil-eq {ℓ} : {A : Type ℓ} (xs : List A) → is_nil xs ≡ true → xs ≡ []
is_nil-eq [] e = refl
is_nil-eq (x ∷ xs) e = absurd (cc)

Follows→Runs :
    (by_id : Dict String IssueSpec) (states : States) (ids seen xs : List String)
    → ((x d : String)
        → contains x ids ≡ true
        → contains d (depends_on_of by_id x) ≡ true
        → (contains d ids || is_satisfied d states) ≡ true)
    → ((x : String) → contains x xs ≡ true → contains x ids ≡ true)
    → Follows (depends_on_of by_id) ids seen xs
    → Runs by_id states seen xs
unfolding contains
Follows→Runs by_id states ids seen [] h k f = tt
Follows→Runs by_id states ids seen (x ∷ xs) h k f = (
  λ d m. ground (arith, f.0 d m, h x d (k x (ground (arith, ==_iff x x))) m),
  Follows→Runs by_id states ids (seen ++ x ∷ []) xs h (λ y m. k y (ground arith)) f.1,
)

-- An order of distinct ids with nothing left over and no blocker.
module _ (by_id : Dict String IssueSpec) (states : States) (ids : List String)
    (h : IsDistinct ids) where
  abbrev order : List String
  order = (topological_order (depends_on_of by_id) ids).0

  module _ (left : (topological_order (depends_on_of by_id) ids).1 ≡ []) where
    count-order : (x : String) → count x order ≡ count x ids
    count-order x =
        let sorted = topological_order-IsSorted (depends_on_of by_id) ids h in
        ground (
          arith,
          sorted.same x,
          count-append x order ((topological_order (depends_on_of by_id) ids).1),
          left,
          count-nil x,
        )

    in-ids : (x : String) → contains x order ≡ true → contains x ids ≡ true
    in-ids x m = count-contains x ids (λ e. contains-count x order m (count-order x ∙ e))

    in-order : (x : String) → contains x ids ≡ true → contains x order ≡ true
    in-order x m = count-contains x order (λ e. contains-count x ids m (sym (count-order x) ∙ e))

    order-Runs : all_blockers by_id states ids ids ≡ [] → Runs by_id states [] order
    order-Runs none_blocked =
        Follows→Runs by_id states ids [] order
          (λ x d m n. all_blockers-nil by_id states ids ids x d none_blocked m n) in-ids
          (topological_order-IsSorted (depends_on_of by_id) ids h).follows

module _ (specs : List IssueSpec) (states : States) (h : IsDistinct (ids_of specs)) where
  abbrev by_id : Dict String IssueSpec
  by_id = spec_by_id specs []

  has_key-ids : (x : String) → has_key x by_id ≡ contains x (ids_of specs)
  unfolding get
  has_key-ids x = ground (arith, has_key-spec_by_id x specs [])

  contains-known :
      (selected : List String) (x : String)
      → contains x (known_selected specs selected)
        ≡ (contains x selected && contains x (ids_of specs))
  unfolding known_selected contains
  contains-known selected x = ground (
    arith,
    has_key-ids x,
    contains-keep (λ iid. contains iid (keep (λ k. has_key k by_id) (from_keys [] selected))) x
        (ids_of specs),
    contains-keep (λ k. has_key k by_id) x (from_keys [] selected),
    contains-from_keys x [] selected,
  )

  known-IsDistinct : (selected : List String) → IsDistinct (known_selected specs selected)
  unfolding known_selected
  known-IsDistinct selected = keep-IsDistinct _ (ids_of specs) h

  -- The tests of `ok`, one by one.
  record Passed (selected : List String) : Type 0 where
    unknown_nil : keep (λ iid. not (has_key iid by_id)) (from_keys [] selected) ≡ []
    repeated_nil : duplicates [] [] selected ≡ []
    terminal_nil : exclusions states (known_selected specs selected) ≡ []
    blocked_nil :
        all_blockers by_id states (known_selected specs selected) (known_selected specs selected)
        ≡ []
    omitted_nil : omitted_active (λ iid. contains iid (known_selected specs selected)) states ≡ []
    left_nil : (topological_order (depends_on_of by_id) (known_selected specs selected)).1 ≡ []

  plan_known-Passed :
      (selected : List String) → (plan_known specs states selected).is_ok ≡ true → Passed selected
  unfolding plan_known
  plan_known-Passed selected e = all_six _ _ _ _ _ _ e λ a b c d o l. record {
    unknown_nil = is_nil-eq _ a;
    repeated_nil = is_nil-eq _ b;
    terminal_nil = is_nil-eq _ c;
    blocked_nil = is_nil-eq _ d;
    omitted_nil = sort_ids-nil _ (is_nil-eq _ o);
    left_nil = is_nil-eq _ l;
  }
    where
      all_six :
          {C : Type 0} (a b c d o l : Bool)
          → (a && b && c && d && o && l) ≡ true
          → (a ≡ true → b ≡ true → c ≡ true → d ≡ true → o ≡ true → l ≡ true → C)
          → C
      all_six true true true true true true e k = k refl refl refl refl refl refl
      all_six _ _ _ _ _ _ e k = absurd (cc)

  module _ (selected : List String) (ok : Passed selected) where
    selected-known : (x : String) → contains x (known_selected specs selected) ≡ contains x selected
    unfolding contains
    selected-known x = elim (Bool-cases (contains x selected)) [
      | inr e ↦ ground (arith, contains-known selected x)
      | inl e ↦ ground (
        arith,
        contains-known selected x,
        has_key-ids x,
        ok.unknown_nil,
        contains-keep (λ iid. not (has_key iid by_id)) x (from_keys [] selected),
        contains-from_keys x [] selected,
      )
    ]

    count-known : (x : String) → count x (known_selected specs selected) ≡ count x selected
    count-known x =
        count-IsDistinct x (known_selected specs selected) (known-IsDistinct selected)
        ∙ rw (selected-known x)
            (sym (count-IsDistinct x selected (duplicates-IsDistinct selected ok.repeated_nil)))

    known-IsRunnable :
        IsRunnable by_id states
          (topological_order (depends_on_of by_id) (known_selected specs selected)).0
    known-IsRunnable =
        let known = known_selected specs selected in
        let distinct = known-IsDistinct selected in
        record {
          live = λ x m.
              exclusions-nil states known x ok.terminal_nil
                (in-ids by_id states known distinct ok.left_nil x m);
          runs = order-Runs by_id states known distinct ok.left_nil ok.blocked_nil;
          active = λ x e. in-order by_id states known distinct ok.left_nil x (
              omitted_active-nil (λ iid. contains iid known) states x ok.omitted_nil
                (get-In x "ACTIVE" states e));
        }

  plan_known_sound :
      (selected : List String)
      → (plan_known specs states selected).is_ok ≡ true
      → ((x : String) → count x (plan_known specs states selected).ordered_ids ≡ count x selected)
        × IsRunnable by_id states (plan_known specs states selected).ordered_ids
  plan_known_sound selected e =
      let ok = plan_known-Passed selected e in
      let known = known_selected specs selected in
      let order_is : (plan_known specs states selected).ordered_ids
          ≡ (topological_order (depends_on_of by_id) known).0 =
        unfold plan_known in
        ap (λ b. if b then (topological_order (depends_on_of by_id) known).0 else [])
          (unfold plan_known in e) in
      rw order_is (
        λ x.
            count-order by_id states known (known-IsDistinct selected) ok.left_nil x
            ∙ count-known selected ok x,
        known-IsRunnable selected ok,
      )

-- A selection that `plan_selected` accepts can be run in the order it gives. For specs with
-- distinct ids: the order holds exactly the selected ids, each once; none of them is in a terminal
-- state; each stands behind its dependencies, but for those that are DONE; and every ACTIVE issue
-- is among them.
pub plan_selected_sound :
    (specs : List IssueSpec) (states : States) (selected : List String)
    → IsDistinct (ids_of specs)
    → (plan_selected specs states selected).is_ok ≡ true
    → ((x : String) → count x (plan_selected specs states selected).ordered_ids ≡ count x selected)
      × IsRunnable (spec_by_id specs []) states (plan_selected specs states selected).ordered_ids
unfolding plan_selected
plan_selected_sound specs states [] h e = absurd (cc)
plan_selected_sound specs states (x ∷ xs) h e = plan_known_sound specs states h (x ∷ xs) e
