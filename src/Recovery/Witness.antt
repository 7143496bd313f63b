-- ===== src/Recovery/Witness.antt =====
-- What check 2 of recovery returns.
use draindeck.Base.{
  String, Bool, true, false, not, ◌&&◌, some, List, [], ◌∷◌, ◌≡◌, refl, sym, ap, ◌∙◌, subst, inl,
  inr, Bool-cases,
}
use draindeck.Base.Lists.{In}
use draindeck.Base.Json.{Value, null}
use draindeck.Base.Result.{ok, ok-injective}
use draindeck.Base.Action.{follow_elim}
use draindeck.Events.Schema.{Event, commit_created}
use draindeck.Events.Projection.View.{StateProjection, ExecutionView, values}
use draindeck.Recovery.Bindings.{
  Adapter, commit_event, merge_by, witness_commit, witness_all, check_unwitnessed_commit,
}

-- A CommitCreated for one of the views, whose intent has no fact.
pub record Owed (views : List ExecutionView) (ev : Event) : Type 0 where
  pub view : ExecutionView
  pub recorded : In view views
  pub intended : view.commit_intended ≡ true
  pub open_fact : view.commit_created ≡ false
  pub type_is : ev.type ≡ commit_created
  pub named : ev.execution_id ≡ some view.execution_id

Owed-later :
    (views : List ExecutionView) (v : ExecutionView) (ev : Event)
    → Owed views ev
    → Owed (v ∷ views) ev
Owed-later views v ev o = record {
  view = o.view;
  recorded = inr o.recorded;
  intended = o.intended;
  open_fact = o.open_fact;
  type_is = o.type_is;
  named = o.named;
}

and-not : (a b : Bool) → (a && not b) ≡ true → (a ≡ true) × (b ≡ false)
and-not true false e = (refl, refl)
and-not true true e = absurd (cc)
and-not false b e = absurd (cc)

module _ {World : Type 0} (adapter : Adapter World) (target_branch : String) where
  abbrev Names : ExecutionView → Event → Type 0
  Names view ev = (ev.type ≡ commit_created) × (ev.execution_id ≡ some view.execution_id)

  witness_commit-fact :
      (view : ExecutionView) (tip target : Value) (ev : Event) (w w' : World)
      → witness_commit adapter target_branch view tip target w ≡ (ok ev, w')
      → Names view ev
  unfolding witness_commit commit_event
  witness_commit-fact view null target ev w w' h = absurd (cc (ap (λ r. r.0) h))
  witness_commit-fact view tip target ev w w' h =
      follow_elim (adapter.is_ancestor tip target w) h λ merged w1 _ h1.
        follow_elim (merge_by adapter target_branch merged view tip target w1) h1 λ mc w2 _ h2.
          let same = ok-injective (ap (λ r. r.0) h2) in
          (ap (λ e. e.type) (sym same), ap (λ e. e.execution_id) (sym same))

  witness_all-Owed :
      (views : List ExecutionView) (evs : List Event) (w w' : World)
      → witness_all adapter target_branch views w ≡ (ok evs, w')
      → (ev : Event) → In ev evs
      → Owed views ev
  unfolding witness_all
  witness_all-Owed [] evs w w' h ev m =
      absurd (subst (In ev) (sym (ok-injective (ap (λ r. r.0) h))) m)
  witness_all-Owed (view ∷ views) evs w w' h ev m =
      elim (Bool-cases (view.commit_intended && not view.commit_created)) [
        | inr skipped ↦
            Owed-later views view ev
              (witness_all-Owed views evs w w' (rw (skipped, witness_all) at h) ev m)
        | inl owed ↦
            let (intended, open_fact) = and-not view.commit_intended view.commit_created owed in
            follow_elim (witness_commit adapter target_branch view view.intent_end_commit _ w)
              (rw (owed, witness_all) at h)
              λ first w1 e1 h1.
                follow_elim (witness_all adapter target_branch views w1) h1 λ rest w2 e2 h2.
                  elim (subst (In ev) (sym (ok-injective (ap (λ r. r.0) h2))) m) [
                    | inl same ↦
                        let (type_is, named) =
                          witness_commit-fact view view.intent_end_commit _ first w w1 e1 in
                        record {
                          view = view;
                          recorded = inl refl;
                          intended = intended;
                          open_fact = open_fact;
                          type_is = ap (λ e. e.type) (sym same) ∙ type_is;
                          named = ap (λ e. e.execution_id) (sym same) ∙ named;
                        }
                    | inr later ↦
                        Owed-later views view ev (witness_all-Owed views rest w1 w2 e2 ev later)
                  ]
      ]

  -- Whatever the repository answers: an event that check 2 returns is a CommitCreated for an
  -- execution of the projection, which has a CommitIntent and no CommitCreated; and it leaves no
  -- repairs.
  pub check_unwitnessed_commit-Owed :
      (p : StateProjection) (w w' : World) (evs : List Event) (repairs : List String)
      → check_unwitnessed_commit adapter target_branch p w ≡ (ok (evs, repairs), w')
      → (repairs ≡ []) × ((ev : Event) → In ev evs → Owed (values p.executions) ev)
  unfolding check_unwitnessed_commit
  check_unwitnessed_commit-Owed p w w' evs repairs h =
      follow_elim (witness_all adapter target_branch (values p.executions) w) h λ found w1 e1 h1.
        let same = ok-injective (ap (λ r. r.0) h1) in
        (
          ap (λ q. q.1) (sym same),
          λ ev m.
              witness_all-Owed (values p.executions) found w w1 e1 ev
                (subst (In ev) (ap (λ q. q.0) (sym same)) m),
        )
