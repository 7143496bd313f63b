-- ===== src/Loop/ChoiceSound.antt =====
-- What the loop's choice of the next issue respects.
use draindeck.Base.{
  String, Bool, and-true, true, false, ◌&&◌, Option, none, some, List, [], ◌∷◌, ◌≡◌, refl, ap, ◌∙◌,
  subst, arith, string_comparable, ◌==◌, ==_iff, ◌⊎◌, inl, inr, Bool-cases,
}
use draindeck.Base.Dict.{Dict, get}
use draindeck.Base.Lists.{In}
use draindeck.States.{IssueState, is_active, is_pending, is_done, active, pending, done}
use draindeck.Events.Projection.View.{StateProjection}
use draindeck.Loop.Choice.{
  member, stands, first_active, all_stand_done, dependencies, is_ready, first_ready, or_ready,
  next_actionable_selected,
}

member-In : (x : String) (ys : List String) → member x ys ≡ true → In x ys
member-In x [] e = absurd (cc)
member-In x (y ∷ ys) e = elim (Bool-cases (y == x)) [
  | inl same ↦ inl ((==_iff y x).0 same)
  | inr ne ↦ inr (member-In x ys (rw (ne, member) at e))
]

stands-get :
    (test : IssueState → Bool) (p : StateProjection) (iid : String)
    → stands test p iid ≡ true
    → (st : IssueState) × (get iid p.issues ≡ some st) × (test st ≡ true)
stands-get test p iid e = go (get iid p.issues) refl e
  where
    go :
        (o : Option IssueState)
        → get iid p.issues ≡ o
        → elim o [ none ↦ false | some st ↦ test st ] ≡ true
        → (st : IssueState) × (get iid p.issues ≡ some st) × (test st ≡ true)
    go none found e = absurd (cc)
    go (some st) found e = (st, found, e)

all_stand_done-In :
    (p : StateProjection) (deps : List String)
    → all_stand_done p deps ≡ true
    → (dep : String) → In dep deps
    → get dep p.issues ≡ some done
unfolding all_stand_done
all_stand_done-In p [] e dep m = absurd m
all_stand_done-In p (d ∷ deps) e dep m =
    let (first, rest) = and-true (stands is_done p d) (all_stand_done p deps) e in
    elim m [
      | inl same ↦
          let (st, found, is) = stands-get is_done p d first in
          subst (λ x. get x p.issues ≡ some done) same (found ∙ ap some (done_is st is))
      | inr later ↦ all_stand_done-In p deps rest dep later
    ]
  where
    done_is : (st : IssueState) → is_done st ≡ true → st ≡ done
    done_is st e = ground arith

In-member : (x : String) (ys : List String) → In x ys → member x ys ≡ true
In-member x [] m = absurd m
In-member x (y ∷ ys) m = elim (Bool-cases (y == x)) [
  | inl same ↦ rw (same, member) refl
  | inr ne ↦ elim m [
    | inl e ↦ absurd (cc (ne, (==_iff y x).1 e))
    | inr later ↦ rw (ne, member) (In-member x ys later)
  ]
]

active_is : (st : IssueState) → is_active st ≡ true → st ≡ active
active_is st e = ground arith

pending_is : (st : IssueState) → is_pending st ≡ true → st ≡ pending
pending_is st e = ground arith

some-same : {a b : String} → some a ≡ some b → a ≡ b
some-same e = cc

first_active-found :
    (ids : List String) (issues : Dict String IssueState) (iid : String)
    → first_active ids issues ≡ some iid
    → In iid ids × In (iid, active) issues
unfolding first_active
first_active-found ids [] iid e = absurd (cc)
first_active-found ids ((x, st) ∷ issues) iid e = elim (Bool-cases (member x ids && is_active st)) [
  | inl taken ↦
      let same : x ≡ iid = some-same (rw (taken, first_active) at e) in
      let (chosen, running) = and-true (member x ids) (is_active st) taken in
      (subst (λ y. In y ids) same (member-In x ids chosen), inl (cc (same, active_is st running)))
  | inr skipped ↦
      let (chosen, later) = first_active-found ids issues iid (rw (skipped, first_active) at e) in
      (chosen, inr later)
]

first_active-none :
    (ids : List String) (issues : Dict String IssueState)
    → first_active ids issues ≡ none
    → (x : String) → In x ids
    → In (x, active) issues
    → ⊥
unfolding first_active
first_active-none ids [] e x chosen m = m
first_active-none ids ((y, st) ∷ issues) e x chosen m =
    elim (Bool-cases (member y ids && is_active st)) [
      | inl taken ↦ absurd (the_none (rw (taken, first_active) at e))
      | inr skipped ↦ elim m [
        | inl same ↦
            cc (skipped, ap (λ q. member q.0 ids && is_active q.1) same, In-member x ids chosen)
        | inr later ↦ first_active-none ids issues (rw (skipped, first_active) at e) x chosen later
      ]
    ]
  where
    the_none : {a : String} → some a ≡ none → ⊥
    the_none e = cc

-- A selected issue that may be started.
pub record Startable (p : StateProjection) (deps : Option (Dict String (List String)))
    (iid : String) : Type 0 where
  pub is_waiting : get iid p.issues ≡ some pending
  pub dependencies_done :
      (dep : String) → In dep (dependencies deps iid) → get dep p.issues ≡ some done

is_ready-Startable :
    (p : StateProjection) (deps : Option (Dict String (List String))) (iid : String)
    → is_ready p deps iid ≡ true
    → Startable p deps iid
unfolding is_ready
is_ready-Startable p deps iid e =
    let (waits, ended) =
      and-true (stands is_pending p iid) (all_stand_done p (dependencies deps iid)) e in
    let (st, found, is) = stands-get is_pending p iid waits in
    record {
      is_waiting = found ∙ ap some (pending_is st is);
      dependencies_done = all_stand_done-In p (dependencies deps iid) ended;
    }

first_ready-found :
    (p : StateProjection) (deps : Option (Dict String (List String))) (order : List String)
    (iid : String)
    → first_ready p deps order ≡ some iid
    → In iid order × Startable p deps iid
unfolding first_ready
first_ready-found p deps [] iid e = absurd (cc)
first_ready-found p deps (x ∷ order) iid e = elim (Bool-cases (is_ready p deps x)) [
  | inl ready ↦
      let same : x ≡ iid = some-same (rw (ready, first_ready) at e) in
      (inl same, subst (Startable p deps) same (is_ready-Startable p deps x ready))
  | inr waits ↦
      let (m, startable) = first_ready-found p deps order iid (rw (waits, first_ready) at e) in
      (inr m, startable)
]

-- The issue that a validated selection runs next is an ACTIVE one of the selection; or, while none
-- of the selection is ACTIVE, a PENDING one of the validated order, whose dependencies in the
-- current issue file are all DONE.
pub next_actionable_selected-Startable :
    (p : StateProjection) (ids order : List String) (deps : Option (Dict String (List String)))
    (iid : String)
    → next_actionable_selected p ids order deps ≡ some iid
    → (In iid ids × In (iid, active) p.issues)
      ⊎ (((x : String) → In x ids → ¬ In (x, active) p.issues)
          × In iid order
          × Startable p deps iid)
unfolding next_actionable_selected
next_actionable_selected-Startable p ids order deps iid e = go (first_active ids p.issues) refl e
  where
    go :
        (o : Option String)
        → first_active ids p.issues ≡ o
        → or_ready o (first_ready p deps order) ≡ some iid
        → (In iid ids × In (iid, active) p.issues)
          ⊎ (((x : String) → In x ids → ¬ In (x, active) p.issues)
              × In iid order
              × Startable p deps iid)
    go (some x) found e = inl (first_active-found ids p.issues iid (found ∙ e))
    go none absent e =
        let (m, startable) = first_ready-found p deps order iid e in
        inr (first_active-none ids p.issues absent, m, startable)
