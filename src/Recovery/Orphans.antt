-- ===== src/Recovery/Orphans.antt =====
-- Check 1 of src/runtime/recovery/reconciler.py: which executions may still run when `recover`
-- returns.
use draindeck.Base.{
  String, Bool, true, false, Option, none, some, List, [], ◌∷◌, ◌≡◌, refl, sym, ap, ◌∙◌, subst,
  string_comparable, ◌⊎◌, inl, inr, Bool-cases, ◌==◌, if◌then◌else◌,
}
use draindeck.Base.Dict.{Dict, get, put_cases}
use draindeck.Base.Lists.{In}
use draindeck.Base.Result.{Result, ok, err, ok-injective}
use draindeck.Base.Action.{Action, follow_elim}
use draindeck.States.{Env, is_executing, crashed}
use draindeck.Events.Schema.{Event, commit_created}
use draindeck.Events.Log.Codec.{Codec}
use draindeck.Events.Projection.View.{
  StateProjection, ExecutionView, select, values, open_executions, empty,
}
use draindeck.Events.Projection.Attempts.{IsListed}
use draindeck.Events.Projection.Replay.{rebuild}
use draindeck.Events.Projection.OneRunning.{rebuild-IsListed}
use draindeck.Events.Log.Replay.{replay}
use draindeck.Recovery.State.{Runtime, emit, emit-applied, noting, in_world, in_world-ran}
use draindeck.Recovery.Reconciler.{
  Seams, Check, crash_orphan, crash_orphans, emit_all, check, run_check, note_run, repair_workspace,
  reconcile, check_orphans, recover, begin, admit, with_events, with_projection, blocked,
}
use draindeck.Recovery.Effects.{CrashLaws, Written, commit_created-Written, crash_orphan-Written}

abbrev pub xids : List ExecutionView → List String
xids [] = []
xids (v ∷ vs) = v.execution_id ∷ xids vs

some-injective : {v w : ExecutionView} → some v ≡ some w → v ≡ w
some-injective e = cc

In-skipped :
    (y : String) (b : Bool) (w : ExecutionView) (rest : List ExecutionView)
    → In y (xids rest)
    → In y (xids (if b then w ∷ rest else rest))
In-skipped y true w rest m = inr m
In-skipped y false w rest m = m

In-first :
    (b : Bool) (w : ExecutionView) (rest : List ExecutionView)
    → b ≡ true
    → In w.execution_id (xids (if b then w ∷ rest else rest))
In-first true w rest e = inl refl
In-first false w rest e = absurd (cc)

-- An execution that is found and runs is selected.
In-selected :
    (x : String) (v : ExecutionView) (d : Dict String ExecutionView)
    → get x d ≡ some v
    → is_executing v.state ≡ true
    → In v.execution_id (xids (select (λ w. is_executing w.state) (values d)))
unfolding get
In-selected x v [] there running = absurd (cc)
In-selected x v ((y, w) ∷ d) there running = elim (Bool-cases (y == x)) [
  | inl e ↦
      let same : w ≡ v = some-injective (rw (e, get) at there) in
      subst (λ u. In u.execution_id (xids (select (λ k. is_executing k.state) (w ∷ values d)))) same
        (In-first (is_executing w.state) w (select (λ k. is_executing k.state) (values d))
          (ap (λ u. is_executing u.state) same ∙ running))
  | inr e ↦
      In-skipped v.execution_id (is_executing w.state) w
        (select (λ k. is_executing k.state) (values d))
        (In-selected x v d (rw (e, get) at there) running)
]

-- What the checks of recovery/bindings.py return: no event but CommitCreated.
abbrev pub OnlyCommits : {World : Type 0} → Check World → Type 0
OnlyCommits {World} fn =
    (p : StateProjection) (w w' : World) (evs : List Event) (repairs : List String)
    → fn p w ≡ (ok (evs, repairs), w')
    → (ev : Event) → In ev evs
    → ev.type ≡ commit_created

abbrev pub CheckLaw : {World : Type 0} → Option (Check World) → Type 0
CheckLaw none = Unit
CheckLaw (some fn) = OnlyCommits fn

module _ {World : Type 0} (seams : Seams World) (env : Env) (laws : CrashLaws env) (c : Codec) where
  -- Whoever is recorded as EXECUTING is alive, or one of `left`.
  abbrev pub Accounted : List String → StateProjection → Type 0
  Accounted left p =
      (x : String) (v : ExecutionView)
      → get x p.executions ≡ some v
      → is_executing v.state ≡ true
      → (seams.is_execution_alive x ≡ true) ⊎ In x left

  crashed_one :
      (x : String) (left : List String) (p q : StateProjection)
      → Written (λ w. w.state ≡ crashed) x p q
      → Accounted (x ∷ left) p
      → Accounted left q
  crashed_one x left p q w h y v there running =
      elim (put_cases x y w.view p.executions (rw w.written at there)) [
        | inl (_, new) ↦ absurd (cc (w.holds, ap (λ u. u.state) new, running))
        | inr (ne, old) ↦ elim (h y v old running) [
          | inl alive ↦ inl alive
          | inr (inl e) ↦ absurd (ne e)
          | inr (inr m) ↦ inr m
        ]
      ]

  alive_one :
      (x : String) (left : List String) (p : StateProjection)
      → seams.is_execution_alive x ≡ true
      → Accounted (x ∷ left) p
      → Accounted left p
  alive_one x left p alive h y v there running = elim (h y v there running) [
    | inl a ↦ inl a
    | inr (inl e) ↦ inl (cc)
    | inr (inr m) ↦ inr m
  ]

  crash_orphans-Accounted :
      (views : List ExecutionView) {u : Unit {0}} (s t : Runtime c World)
      → crash_orphans seams env c views s ≡ (ok u, t)
      → Accounted (xids views) s.proj
      → Accounted [] t.proj
  unfolding crash_orphans
  crash_orphans-Accounted [] s t h acc = subst (Accounted []) (ap (λ r. r.1.proj) h) acc
  crash_orphans-Accounted (view ∷ views) s t h acc =
      elim (Bool-cases (seams.is_execution_alive view.execution_id)) [
        | inl alive ↦
            crash_orphans-Accounted views s t (rw (alive, crash_orphans) at h)
              (alive_one view.execution_id (xids views) s.proj alive acc)
        | inr dead ↦
            follow_elim (crash_orphan seams env c view s) (rw (dead, crash_orphans) at h)
              λ _ s1 e1 h1. crash_orphans-Accounted views s1 t h1 (
                crashed_one view.execution_id (xids views) s.proj s1.proj
                  (crash_orphan-Written env laws seams c view s s1 e1) acc)
      ]

  -- A CommitCreated leaves every state as it is.
  committed_one :
      (ev ev' : Event) (s t : Runtime c World)
      → emit env c ev s ≡ (ok ev', t)
      → ev.type ≡ commit_created
      → Accounted [] s.proj
      → Accounted [] t.proj
  committed_one ev ev' s t h e acc y v there running =
      let (n, done) = emit-applied env c ev ev' s t h in
      let (x, u, old, w) = commit_created-Written env _ s.proj t.proj done e in
      elim (put_cases x y w.view s.proj.executions (rw w.written at there)) [
        | inl (same, new) ↦ acc y u (rw same at old) (cc (w.holds, ap (λ k. k.state) new, running))
        | inr (_, kept) ↦ acc y v kept running
      ]

  emit_all-Accounted :
      (evs : List Event) {u : Unit {0}} (s t : Runtime c World)
      → emit_all seams env c evs s ≡ (ok u, t)
      → ((ev : Event) → In ev evs → ev.type ≡ commit_created)
      → Accounted [] s.proj
      → Accounted [] t.proj
  unfolding emit_all
  emit_all-Accounted [] s t h only acc = subst (Accounted []) (ap (λ r. r.1.proj) h) acc
  emit_all-Accounted (ev ∷ evs) s t h only acc = follow_elim (emit env c ev s) h λ ev' s1 e1 h1.
      emit_all-Accounted evs _ t h1 (λ k m. only k (inr m))
        (committed_one ev ev' s s1 e1 (only ev (inl refl)) acc)

  check-Accounted :
      (name : String) (o : Option (Check World)) {u : Unit {0}} (s t : Runtime c World)
      → check seams env c name o s ≡ (ok u, t)
      → CheckLaw o
      → Accounted [] s.proj
      → Accounted [] t.proj
  unfolding check
  check-Accounted name none s t h law acc = subst (Accounted []) (ap (λ r. r.1.proj) h) acc
  check-Accounted name (some fn) s t h law acc =
      let s1 = (noting env c (note_run seams env c name) s).1 in
      follow_elim (run_check seams env c fn s1) h λ found s2 e1 h1.
        let (ran, kept) = in_world-ran env c (fn s.proj) s1 s2 e1 in
        follow_elim (emit_all seams env c found.0 s2) h1 λ _ s3 e2 h2.
          subst (Accounted []) (ap (λ r. r.1.proj) h2) (
            emit_all-Accounted found.0 s2 s3 e2 (law s.proj s.world s2.world found.0 found.1 ran)
              (subst (Accounted []) (sym kept) acc))

  open_xids : (p : StateProjection) → IsListed p → Accounted (xids (open_executions p)) p
  unfolding open_executions
  open_xids p listed x v there running = inr (
      subst (λ y. In y (xids (open_executions p))) (listed.named x v there)
        (unfold open_executions in In-selected x v p.executions there running))

  repair-kept :
      (o : Option (Action World (List String))) {u : Unit {0}} (s t : Runtime c World)
      → repair_workspace seams env c o s ≡ (ok u, t)
      → t.proj ≡ s.proj
  repair-kept none s t h = ap (λ r. r.1.proj) (sym h)
  repair-kept (some repair) s t h =
      follow_elim (in_world env c repair s) h
        λ repairs s1 e1 h1. ap (λ r. r.1.proj) (sym h1) ∙ (in_world-ran env c repair s s1 e1).1

  reconcile-Accounted :
      {u : Unit {0}} (s t : Runtime c World)
      → reconcile seams env c s ≡ (ok u, t)
      → CheckLaw seams.check_unwitnessed_commit
      → CheckLaw seams.check_dirty_workspace
      → IsListed s.proj
      → Accounted [] t.proj
  unfolding reconcile check_orphans
  reconcile-Accounted s t h law2 law3 listed =
      follow_elim (repair_workspace seams env c seams.recover_workspace s) h λ _ s1 e1 h1.
        follow_elim (check_orphans seams env c s1) h1 λ _ s2 e2 h2.
          follow_elim (check seams env c "unwitnessed_commit" seams.check_unwitnessed_commit s2) h2
            λ _ s3 e3 h3.
              check-Accounted "dirty_workspace" seams.check_dirty_workspace s3 t h3 law3 (
                check-Accounted "unwitnessed_commit" seams.check_unwitnessed_commit s2 s3 e3 law2 (
                  crash_orphans-Accounted (open_executions s1.proj) _ s2 e2 (
                    open_xids s1.proj
                      (subst IsListed (sym (repair-kept seams.recover_workspace s s1 e1)) listed))))

  admit-Accounted :
      (b : Bool) {u : Unit {0}} (s t : Runtime c World)
      → admit seams env c b s ≡ (ok u, t)
      → CheckLaw seams.check_unwitnessed_commit
      → CheckLaw seams.check_dirty_workspace
      → IsListed s.proj
      → Accounted [] t.proj
  admit-Accounted true s t h law2 law3 listed = absurd (cc (ap (λ r. r.0) h))
  admit-Accounted false s t h law2 law3 listed = reconcile-Accounted s t h law2 law3 listed

  with_projection-IsListed :
      (evs events : List Event) (r : Result StateProjection) (p : StateProjection)
      → rebuild env empty evs ≡ r
      → with_projection seams env c evs r ≡ ok (events, p)
      → IsListed p
  with_projection-IsListed evs events (ok q) p e h =
      subst IsListed (ap (λ k. k.1) (ok-injective h)) (rebuild-IsListed env evs q e)
  with_projection-IsListed evs events (err x) p e h = absurd (cc)

  with_events-IsListed :
      (r : Result (List Event)) (events : List Event) (p : StateProjection)
      → with_events seams env c r ≡ ok (events, p)
      → IsListed p
  with_events-IsListed (ok evs) events p h =
      with_projection-IsListed evs events (rebuild env empty evs) p refl h
  with_events-IsListed (err x) events p h = absurd (cc)

  begin-Accounted :
      (r : Result (List Event × StateProjection)) {u : Unit {0}} (s t : Runtime c World)
      → ((events : List Event) (p : StateProjection) → r ≡ ok (events, p) → IsListed p)
      → begin seams env c s r ≡ (ok u, t)
      → CheckLaw seams.check_unwitnessed_commit
      → CheckLaw seams.check_dirty_workspace
      → Accounted [] t.proj
  begin-Accounted (ok (events, p)) s t listed h law2 law3 =
      admit-Accounted (blocked seams p) _ t h law2 law3 (listed events p refl)
  begin-Accounted (err e) s t listed h law2 law3 = absurd (cc (ap (λ r. r.0) h))

  -- When recover returns, no execution is left as EXECUTING but those that the liveness test names
  -- as alive: every orphan has been crashed. Assumes that ExecutionCrashed leads to CRASHED, and
  -- that the two checks on the repository return no event but CommitCreated.
  pub recover-orphans :
      (s t : Runtime c World) {u : Unit {0}}
      → recover seams env c s ≡ (ok u, t)
      → CheckLaw seams.check_unwitnessed_commit
      → CheckLaw seams.check_dirty_workspace
      → (x : String) (v : ExecutionView) → get x t.proj.executions ≡ some v
      → is_executing v.state ≡ true
      → seams.is_execution_alive x ≡ true
  unfolding recover
  recover-orphans s t h law2 law3 x v there running =
      elim (begin-Accounted (with_events seams env c (replay c s.log.content)) s t
        (with_events-IsListed (replay c s.log.content)) h law2 law3 x v there running) [
          | inl alive ↦ alive
          | inr none_left ↦ absurd none_left
        ]
