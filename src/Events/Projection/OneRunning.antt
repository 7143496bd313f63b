-- ===== src/Events/Projection/OneRunning.antt =====
-- A replayed projection never fails to find an issue's latest execution, and has at most one
-- running execution for each issue.
use draindeck.Base.{
  String, false, none, some, List, [], ◌∷◌, ◌≡◌, refl, sym, ap, ◌∙◌, subst, string_comparable, ◌⊎◌,
  inl, inr, Option-cases,
}
use draindeck.Base.Dict.{get}
use draindeck.Base.Lists.{last?, last?-In}
use draindeck.Base.Result.{ok}
use draindeck.States.{Env, TerminalLaws}
use draindeck.Events.Schema.{Event}
use draindeck.Events.Projection.View.{
  StateProjection, ExecutionView, executions_of, latest_execution, empty,
}
use draindeck.Events.Projection.Executions.{new_view}
use draindeck.Events.Projection.Replay.{rebuild}
use draindeck.Events.Projection.StepRelation.{ExecutionStep, same, spawn, move}
use draindeck.Events.Projection.Consistency.{rebuild_induction}
use draindeck.Events.Projection.Attempts.{
  IsListed, OnlyLastRuns, executions_of-same, grown-IsListed, grown-OnlyLastRuns, moved-IsListed,
  Moved-OnlyLastRuns,
}

same-IsListed :
    (p q : StateProjection)
    → q.executions ≡ p.executions
    → q.issue_executions ≡ p.issue_executions
    → IsListed p
    → IsListed q
same-IsListed p q a b h = record {
  named = λ y v e. h.named y v (rw a at e);
  known = λ j y m.
      let r = h.known j y (rw (executions_of-same p q j b) at m) in
      record {
        view = r.view;
        found = subst (λ d. get y d ≡ some r.view) (sym a) r.found;
        issue = r.issue;
      };
  placed = λ y v e. rw (executions_of-same p q v.issue_id b) (h.placed y v (rw a at e));
}

step-IsListed :
    (env : Env) (ev : Event) (p q : StateProjection)
    → ExecutionStep env ev p q
    → IsListed p
    → IsListed q
step-IsListed env ev p q (same t a b) h = same-IsListed p q a b h
step-IsListed env ev p q (spawn x iid u prev t names owns lives fresh latest ended reads a b) h =
    grown-IsListed p q x iid (new_view x iid (get iid p.issue_base_commit) u) fresh a b
      (unfold new_view in refl) (unfold new_view in refl) h
step-IsListed env ev p q (move x v w names there ident moved a b) h =
    moved-IsListed p q x v w there ident a b h

empty-IsListed : IsListed empty
unfolding get
empty-IsListed = record {
  named = λ y v e. absurd (cc);
  known = λ j y m. absurd m;
  placed = λ y v e. absurd (cc);
}

pub rebuild-IsListed :
    (env : Env) (evs : List Event) (p : StateProjection) → rebuild env empty evs ≡ ok p → IsListed p
rebuild-IsListed env evs p e =
    rebuild_induction env IsListed (step-IsListed env) evs empty empty-IsListed e

latest-found :
    (p : StateProjection) (iid : String)
    → IsListed p
    → (latest_execution p iid ≡ ok none) × (executions_of p iid ≡ [])
      ⊎ ((v : ExecutionView) × (latest_execution p iid ≡ ok (some v))
          × (v.issue_id ≡ iid)
          × (last? (executions_of p iid) ≡ some v.execution_id))
unfolding latest_execution
latest-found p iid h = elim (Option-cases (last? (executions_of p iid))) [
  | inl e ↦ inl (rw (e, latest_execution), last?-none (executions_of p iid) e)
  | inr (xid, e) ↦
      let r = h.known iid xid (last?-In xid (executions_of p iid) e) in
      inr (
        r.view,
        rw (e, latest_execution) (rw r.found),
        r.issue,
        e ∙ ap some (sym (h.named xid r.view r.found)),
      )
]
  where
    last?-none : (xs : List String) → last? xs ≡ none → xs ≡ []
    last?-none [] e = refl
    last?-none (x ∷ []) e = cc
    last?-none (x ∷ y ∷ xs) e = absurd (cc (last?-none (y ∷ xs) e))

-- After any replay, `latest_execution` finds an execution of every issue that has one: it is the
-- last of the issue's list and belongs to that issue. For an issue without executions it returns
-- None. It never raises KeyError.
pub rebuild-latest_execution :
    (env : Env) (evs : List Event) (p : StateProjection)
    → rebuild env empty evs ≡ ok p
    → (iid : String)
    → (latest_execution p iid ≡ ok none) × (executions_of p iid ≡ [])
      ⊎ ((v : ExecutionView) × (latest_execution p iid ≡ ok (some v))
          × (v.issue_id ≡ iid)
          × (last? (executions_of p iid) ≡ some v.execution_id))
rebuild-latest_execution env evs p e iid = latest-found p iid (rebuild-IsListed env evs p e)

abbrev Sound : Env → StateProjection → Type 0
Sound env p = IsListed p × OnlyLastRuns env p

step-Sound :
    (env : Env) (laws : TerminalLaws env) (ev : Event) (p q : StateProjection)
    → ExecutionStep env ev p q
    → Sound env p
    → Sound env q
step-Sound env laws ev p q (same t a b) (h, runs) = (
  same-IsListed p q a b h,
  λ j y v m e live.
      rw (executions_of-same p q j b)
        (runs j y v (rw (executions_of-same p q j b) at m) (rw a at e) live),
)
step-Sound env laws ev p q (spawn x iid u prev t names owns lives fresh latest ended reads a b)
      (h, runs) =
    (
      step-IsListed env ev p q (spawn x iid u prev t names owns lives fresh latest ended reads a b)
          h,
      grown-OnlyLastRuns p q x iid (new_view x iid (get iid p.issue_base_commit) u) fresh a b env
          prev latest ended h runs,
    )
step-Sound env laws ev p q (move x v w names there ident moved a b) (h, runs) = (
  moved-IsListed p q x v w there ident a b h,
  Moved-OnlyLastRuns p q x v w there ident a b env ev laws moved runs,
)

-- In the projection of any log that replays, two executions of one issue that have both not
-- reached a terminal state are the same execution. Assumes of the transition table that terminal
-- states have no row.
pub rebuild-one_running :
    (env : Env) (laws : TerminalLaws env) (evs : List Event) (p : StateProjection)
    → rebuild env empty evs ≡ ok p
    → (x y : String) (v w : ExecutionView) → get x p.executions ≡ some v
    → get y p.executions ≡ some w
    → v.issue_id ≡ w.issue_id
    → env.execution_terminal v.state ≡ false
    → env.execution_terminal w.state ≡ false
    → x ≡ y
unfolding get
rebuild-one_running env laws evs p e x y v w ex ey issue vx wy =
    let (h, runs) =
      rebuild_induction env (Sound env) (step-Sound env laws) evs empty
        (empty-IsListed, λ j y v m e live. absurd m) e in
    let last_x = runs v.issue_id x v (h.placed x v ex) ex vx in
    let last_y = runs w.issue_id y w (h.placed y w ey) ey wy in
    cc (subst (λ k. last? (executions_of p k) ≡ some x) issue last_x)
