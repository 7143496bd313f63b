-- ===== src/Events/Projection/Attempts.antt =====
-- Which executions the lists of a replayed projection name, and which of them may still run.
use draindeck.Base.{
  String, true, false, Option, none, some, List, [], ◌∷◌, ◌++◌, ◌≡◌, refl, sym, ap, ◌∙◌, subst,
  arith, string_comparable, ◌==◌, ==_iff, ◌⊎◌, inl, inr, ◌≢◌, Bool-cases, if◌then◌else◌,
}
use draindeck.Base.Dict.{get, put, get-put, get-put_self, get-put_ne, put_cases}
use draindeck.Base.Lists.{In, last?, last?-snoc, In-append, In-append_left, In-append_right}
use draindeck.Base.Result.{ok}
use draindeck.States.{Env, TerminalLaws}
use draindeck.Events.Schema.{Event}
use draindeck.Events.Projection.View.{
  StateProjection, ExecutionView, executions_of, latest_execution, or_nil,
}
use draindeck.Events.Projection.Executions.{previous_ended}
use draindeck.Events.Projection.StepRelation.{
  Moved, table_row, intended_row, created_row, SameIdentity,
}

-- The execution is recorded, under its own id, for that issue.
pub record IsRecorded (p : StateProjection) (iid xid : String) : Type 0 where
  pub view : ExecutionView
  pub found : get xid p.executions ≡ some view
  pub issue : view.issue_id ≡ iid

-- The lists name recorded executions, and every recorded one stands in its issue's list.
pub record IsListed (p : StateProjection) : Type 0 where
  pub named :
      (xid : String) (v : ExecutionView) → get xid p.executions ≡ some v → v.execution_id ≡ xid
  pub known : (iid xid : String) → In xid (executions_of p iid) → IsRecorded p iid xid
  pub placed :
      (xid : String) (v : ExecutionView)
      → get xid p.executions ≡ some v
      → In xid (executions_of p v.issue_id)

-- Only an issue's last execution may run.
abbrev pub OnlyLastRuns : Env → StateProjection → Type 0
OnlyLastRuns env p =
    (iid xid : String) (v : ExecutionView)
    → In xid (executions_of p iid)
    → get xid p.executions ≡ some v
    → env.execution_terminal v.state ≡ false
    → last? (executions_of p iid) ≡ some xid

executions_of-put :
    (p q : StateProjection) (iid : String) (l : List String) (j : String)
    → q.issue_executions ≡ put iid l p.issue_executions
    → executions_of q j ≡ (if iid == j then l else executions_of p j)
executions_of-put p q iid l j e = elim (Bool-cases (iid == j)) [
  | inl s ↦ rw (e, get-put, s)
  | inr s ↦ rw (e, get-put, s)
]

pub executions_of-same :
    (p q : StateProjection) (j : String)
    → q.issue_executions ≡ p.issue_executions
    → executions_of q j ≡ executions_of p j
executions_of-same p q j e = ap (λ d. or_nil (get j d)) e

-- What `latest_execution` returns is the view of the list's last entry.
latest_execution-last :
    (p : StateProjection) (iid y : String) (prev : Option ExecutionView) (v : ExecutionView)
    → latest_execution p iid ≡ ok prev
    → last? (executions_of p iid) ≡ some y
    → get y p.executions ≡ some v
    → prev ≡ some v
unfolding latest_execution
latest_execution-last p iid y prev v latest last there = ground arith

-- A step that adds execution `x` to the list of issue `iid`.
module _ (p q : StateProjection) (x iid : String) (w : ExecutionView)
    (fresh : get x p.executions ≡ none) (a : q.executions ≡ put x w p.executions)
    (b : q.issue_executions ≡ put iid (executions_of p iid ++ x ∷ []) p.issue_executions) where
  lists_at :
      (j : String)
      → executions_of q j ≡ (if iid == j then executions_of p iid ++ x ∷ [] else executions_of p j)
  lists_at j = executions_of-put p q iid (executions_of p iid ++ x ∷ []) j b

  lists_at_iid : executions_of q iid ≡ executions_of p iid ++ x ∷ []
  lists_at_iid = rw (lists_at iid, (==_iff iid iid).1 refl)

  lists_off : (j : String) → (iid == j) ≡ false → executions_of q j ≡ executions_of p j
  lists_off j s = rw (lists_at j, s)

  In-grown :
      (j y : String) → In y (executions_of q j) → In y (executions_of p j) ⊎ (j ≡ iid) × (x ≡ y)
  In-grown j y m = elim (Bool-cases (iid == j)) [
    | inl s ↦
        let e = (==_iff iid j).0 s in
        elim (In-append y (executions_of p iid) (x ∷ [])
          (subst (In y) lists_at_iid (subst (λ k. In y (executions_of q k)) (sym e) m))) [
            | inl old ↦ inl (subst (λ k. In y (executions_of p k)) e old)
            | inr (inl new) ↦ inr (sym e, new)
            | inr (inr none') ↦ absurd none'
          ]
    | inr s ↦ inl (subst (In y) (lists_off j s) m)
  ]

  In-grows : (j y : String) → In y (executions_of p j) → In y (executions_of q j)
  In-grows j y m = elim (Bool-cases (iid == j)) [
    | inl s ↦
        let e = (==_iff iid j).0 s in
        subst (λ k. In y (executions_of q k)) e
          (subst (In y) (sym lists_at_iid) (
            In-append_left y (executions_of p iid) (x ∷ [])
              (subst (λ k. In y (executions_of p k)) (sym e) m)))
    | inr s ↦ subst (In y) (sym (lists_off j s)) m
  ]

  not_fresh : (y : String) {v : ExecutionView} → get y p.executions ≡ some v → x ≢ y
  not_fresh y e s = cc (subst (λ k. get k p.executions ≡ none) s fresh)

  old_view :
      (y : String) {v : ExecutionView} → get y p.executions ≡ some v → get y q.executions ≡ some v
  old_view y e = rw a (get-put_ne x y w p.executions (not_fresh y e) ∙ e)

  pub grown-IsListed : w.execution_id ≡ x → w.issue_id ≡ iid → IsListed p → IsListed q
  grown-IsListed id issue h = record {
    named = λ y v e. elim (put_cases x y w p.executions (rw a at e)) [
      | inl (s, new) ↦ sym (ap (λ (t : ExecutionView). t.execution_id) new) ∙ id ∙ s
      | inr (_, old) ↦ h.named y v old
    ];
    known = λ j y m. elim (In-grown j y m) [
      | inl old ↦
          let r = h.known j y old in
          record { view = r.view; found = old_view y r.found; issue = r.issue }
      | inr (at, new) ↦ record {
        view = w;
        found = subst (λ k. get k q.executions ≡ some w) new (rw a (get-put_self x w p.executions));
        issue = issue ∙ sym at;
      }
    ];
    placed = λ y v e. elim (put_cases x y w p.executions (rw a at e)) [
      | inl (s, new) ↦
          subst (λ k. In y (executions_of q k))
            (sym issue ∙ ap (λ (t : ExecutionView). t.issue_id) new)
            (subst (In y) (sym lists_at_iid)
              (In-append_right y (executions_of p iid) (x ∷ []) (inl s)))
      | inr (_, old) ↦ In-grows v.issue_id y (h.placed y v old)
    ];
  }

  pub grown-OnlyLastRuns :
      (env : Env) (prev : Option ExecutionView)
      → latest_execution p iid ≡ ok prev
      → previous_ended env prev ≡ true
      → IsListed p
      → OnlyLastRuns env p
      → OnlyLastRuns env q
  grown-OnlyLastRuns env prev latest ended listed h j y v m e runs = elim (In-grown j y m) [
    | inr (at, new) ↦
        subst (λ k. last? (executions_of q k) ≡ some y) (sym at)
          (rw lists_at_iid (last?-snoc (executions_of p iid) x ∙ ap some new))
    | inl old ↦
        let r = listed.known j y old in
        let same_view : r.view ≡ v = cc (old_view y r.found) in
        let runs_before : env.execution_terminal r.view.state ≡ false =
          subst (λ (t : ExecutionView). env.execution_terminal t.state ≡ false) (sym same_view)
            runs in
        let last = h j y r.view old r.found runs_before in
        elim (Bool-cases (iid == j)) [
          | inl s ↦
              let at = sym ((==_iff iid j).0 s) in
              let prev_is =
                latest_execution-last p iid y prev r.view latest
                  (subst (λ k. last? (executions_of p k) ≡ some y) at last) r.found in
              absurd (cc (subst (λ o. previous_ended env o ≡ true) prev_is ended))
          | inr s ↦ rw (lists_off j s) last
        ]
  ]

-- A step that writes the view `w` over the view `v` of execution `x`.
module _ (p q : StateProjection) (x : String) (v w : ExecutionView)
    (there : get x p.executions ≡ some v) (ident : SameIdentity v w)
    (a : q.executions ≡ put x w p.executions) (b : q.issue_executions ≡ p.issue_executions) where
  moved_old :
      (y : String) (u : ExecutionView) → get y p.executions ≡ some u → IsRecorded q u.issue_id y
  moved_old y u e = elim (Bool-cases (x == y)) [
    | inl s ↦
        let at = (==_iff x y).0 s in
        let same_view : v ≡ u = cc (subst (λ k. get k p.executions ≡ some u) (sym at) e) in
        record {
          view = w;
          found =
              subst (λ k. get k q.executions ≡ some w) at (rw a (get-put_self x w p.executions));
          issue = ident.issue_id ∙ ap (λ (t : ExecutionView). t.issue_id) same_view;
        }
    | inr s ↦ record { view = u; found = rw a (rw get-put (rw s e)); issue = refl }
  ]

  -- The view that stood there before, with what a step keeps.
  before :
      (y : String) (u : ExecutionView)
      → get y q.executions ≡ some u
      → (t : ExecutionView) × (get y p.executions ≡ some t)
        × (t.execution_id ≡ u.execution_id)
        × (t.issue_id ≡ u.issue_id)
  before y u e = elim (put_cases x y w p.executions (rw a at e)) [
    | inl (s, new) ↦ (
      v,
      subst (λ k. get k p.executions ≡ some v) s there,
      sym ident.execution_id ∙ ap (λ (t : ExecutionView). t.execution_id) new,
      sym ident.issue_id ∙ ap (λ (t : ExecutionView). t.issue_id) new,
    )
    | inr (_, old) ↦ (u, old, refl, refl)
  ]

  pub moved-IsListed : IsListed p → IsListed q
  moved-IsListed h = record {
    named = λ y u e. let (t, old, id, _) = before y u e in sym id ∙ h.named y t old;
    known = λ j y m.
        let r = h.known j y (rw (executions_of-same p q j b) at m) in
        let r' = moved_old y r.view r.found in
        record { view = r'.view; found = r'.found; issue = r'.issue ∙ r.issue };
    placed = λ y u e.
        let (t, old, _, issue) = before y u e in
        rw (executions_of-same p q u.issue_id b)
          (subst (λ k. In y (executions_of p k)) issue (h.placed y t old));
  }

  pub Moved-OnlyLastRuns :
      (env : Env) (ev : Event) (laws : TerminalLaws env)
      → Moved env ev v w
      → OnlyLastRuns env p
      → OnlyLastRuns env q
  Moved-OnlyLastRuns env ev laws moved h j y u m e runs =
      rw (executions_of-same p q j b) (elim (put_cases x y w p.executions (rw a at e)) [
        | inl (s, new) ↦
            h j y v (rw (executions_of-same p q j b) at m)
              (subst (λ k. get k p.executions ≡ some v) s there)
              (ran moved (
                subst (λ (t : ExecutionView). env.execution_terminal t.state ≡ false) (sym new)
                  runs))
        | inr (_, old) ↦ h j y u (rw (executions_of-same p q j b) at m) old runs
      ])
    where
      ran :
          Moved env ev v w
          → env.execution_terminal w.state ≡ false
          → env.execution_terminal v.state ≡ false
      ran (table_row fn _ row _ _ _ _ _) _ = elim (Bool-cases (env.execution_terminal v.state)) [
        | inl over ↦ absurd (cc (laws.terminal_is_final v.state ev.type over))
        | inr live ↦ live
      ]
      ran (intended_row _ _ _ e) live =
          cc (ap (λ (t : ExecutionView). env.execution_terminal t.state) e)
      ran (created_row _ _ _ _ e) live =
          cc (ap (λ (t : ExecutionView). env.execution_terminal t.state) e)
