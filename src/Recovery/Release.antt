-- ===== src/Recovery/Release.antt =====
-- Which containments `resolve_startup_containment` releases, and which it leaves when it returns.
use draindeck.Base.{
  ℕ, String, Bool, true, false, not, Option, none, some, List, [], ◌∷◌, ◌≡◌, refl, sym, ap, ◌∙◌,
  subst, string_comparable, pair_comparable, ◌==◌, ◌⊎◌, inl, inr, Bool-cases,
}
use draindeck.Base.Dict.{get, put, put_cases}
use draindeck.Base.Lists.{In}
use draindeck.Base.Json
use draindeck.Base.Json.{Value, Fields}
use draindeck.Base.Result.{
  Result, ok, err, transition_error, ok-injective, bind_elim, option_elim, require_elim,
}
use draindeck.Base.Action.{follow_elim}
use draindeck.States.{Env}
use draindeck.Events.Schema.{Event}
use draindeck.Events.Log.Codec.{Codec}
use draindeck.Events.Log.Replay.{replay}
use draindeck.Events.Projection.View.{
  StateProjection, ExecutionView, ContainmentView, released, is_released, empty,
  is_workspace_blocked, unreleased_containments,
}
use draindeck.Events.Projection.Checks.{need, need-some, if-ok, string_of, field_of}
use draindeck.Events.Projection.Containments.{
  ContainmentKey, dict_key, containment_execution, containment_key, matching_containment, release,
  check_released, containment_released_handler,
}
use draindeck.Events.Projection.Replay.{apply, handle, note_event, rebuild}
use draindeck.Recovery.State.{Runtime, emit, emit-applied, emit-world}
use draindeck.Recovery.Gate.{is_workspace_blocked-unreleased}
use draindeck.Recovery.Proofs.{Ended, restart_release_reason-Ended}
use draindeck.Recovery.Containment.{
  Probes, restart_release_reason, release_event, release_one, release_view, release_all,
  refuse_blocked, resolve_replayed, resolve_from, rebuilt, resolve_startup_containment,
}

-- One containment is written, and it is released.
record Released (k : String × String) (p q : StateProjection) : Type 0 where
  view : ContainmentView
  is_released : view.state ≡ released
  written : q.containments ≡ put k view p.containments

release-Released :
    (p q : StateProjection) (payload : Fields) (k : ContainmentKey) (v : ContainmentView)
    → release p payload (k, v) ≡ ok q
    → Released (dict_key k) p q
release-Released p q payload k v h =
    require_elim (not (is_released v.state)) transition_error h λ _ h1.
      bind_elim (check_released payload) h1 λ _ _ e. record {
        view = record v { state = released; released_payload = some payload };
        is_released = refl;
        written = sym (ap (λ r. r.containments) (ok-injective e));
      }

module _ (key : String) (execution : ExecutionView) (view : ContainmentView) (reason : Fields)
    (pt ts : String) (n : ℕ) where
  abbrev fact : Event
  fact = record (release_event key execution view reason pt ts) { event_id = n }

  abbrev its_key : String × String
  its_key = (view.execution_id, view.generation)

  containment_key-fact : (k : ContainmentKey) → containment_key fact ≡ ok k → dict_key k ≡ its_key
  unfolding containment_key release_event string_of field_of Json.get
  containment_key-fact k h = bind_elim (need (some view.execution_id)) h λ xid named h1.
      bind_elim (string_of fact.payload "workspace_key") h1 λ _ _ h2.
        bind_elim (string_of fact.payload "containment_generation") h2 λ gen generated e. cc (
          need-some view.execution_id xid named,
          if-ok (view.generation == "") generated,
          ok-injective e,
        )

  matching_containment-fact :
      (p : StateProjection) (found : ContainmentKey × ContainmentView)
      → matching_containment p fact ≡ ok found
      → dict_key found.0 ≡ its_key
  unfolding matching_containment
  matching_containment-fact p found h = bind_elim (containment_execution p fact) h λ _ _ h1.
      bind_elim (containment_key fact) h1 λ k keyed h2.
        option_elim transition_error (get (dict_key k) p.containments) h2 λ v _ h3.
          require_elim (v.workspace_key == _) transition_error h3
            λ _ e. ap (λ f. dict_key f.0) (sym (ok-injective e)) ∙ containment_key-fact k keyed

  fact-Released :
      (env : Env) (p q : StateProjection) → apply env p fact ≡ ok q → Released its_key p q
  unfolding apply handle note_event containment_released_handler release_event
  fact-Released env p q h =
      bind_elim (matching_containment (note_event fact p) fact) h λ found matched e.
        subst (λ k. Released k p q) (matching_containment-fact (note_event fact p) found matched)
          (kept (release-Released (note_event fact p) q fact.payload found.0 found.1 e))
    where
      kept : {k : String × String} → Released k (note_event fact p) q → Released k p q
      kept r = record {
        view = r.view;
        is_released = r.is_released;
        written = unfold note_event in r.written;
      }

-- What a release needs: the view is one of `views`, the key is its own, and its controller has ended
-- in the world `w`.
pub record Proved {World : Type 0} (probes : Probes World) (w : World)
    (views : List ContainmentView) (k : String × String) : Type 0 where
  pub view : ContainmentView
  pub listed : In view views
  pub its_key : k ≡ (view.execution_id, view.generation)
  pub ended : Ended (probes.controller_probe w) view

module _ {World : Type 0} (probes : Probes World) (env : Env) (c : Codec) (key : String) where
  -- A released containment was so in `p`, or has its proof.
  abbrev pub OnlyProved : StateProjection → World → List ContainmentView → StateProjection → Type 0
  OnlyProved p w views q =
      (k : String × String) (v : ContainmentView)
      → get k q.containments ≡ some v
      → is_released v.state ≡ true
      → ((u : ContainmentView) × (get k p.containments ≡ some u) × (is_released u.state ≡ true))
        ⊎ Proved probes w views k

  extend_permits :
      (p q r : StateProjection) (w : World) (views : List ContainmentView) (k : String × String)
      → Proved probes w views k
      → Released k q r
      → OnlyProved p w views q
      → OnlyProved p w views r
  extend_permits p q r w views k proved step h j v there free =
      elim (put_cases k j step.view q.containments (rw step.written at there)) [
        | inl (same, _) ↦ inr (subst (Proved probes w views) same proved)
        | inr (_, old) ↦ h j v old free
      ]

  -- The states of the loop: the world is that of its start.
  record Loop (p : StateProjection) (w : World) (views : List ContainmentView) (s : Runtime c World)
      : Type 0 where
    world_is : s.world ≡ w
    only : OnlyProved p w views s.proj

  release_one-Loop :
      (p : StateProjection) (w : World) (views : List ContainmentView) (view : ContainmentView)
      (reason : Option Fields) (execution : Option ExecutionView) {labels : List String}
      (s t : Runtime c World)
      → In view views
      → restart_release_reason (probes.controller_probe w) view ≡ reason
      → release_one probes env c key view reason execution s ≡ (ok labels, t)
      → Loop p w views s
      → Loop p w views t
  release_one-Loop p w views view none x s t m e h loop =
      subst (Loop p w views) (ap (λ r. r.1) h) loop
  release_one-Loop p w views view (some reason) none s t m e h loop =
      subst (Loop p w views) (ap (λ r. r.1) h) loop
  release_one-Loop p w views view (some reason) (some execution) s t m e h loop =
      let ev =
        release_event key execution view reason (probes.now s.world) (probes.utcnow s.world) in
      follow_elim (emit env c ev s) h λ ev' s1 e1 h1.
        let (n, done) = emit-applied env c ev ev' s s1 e1 in
        subst (Loop p w views) (ap (λ r. r.1) h1) (record {
          world_is = emit-world env c ev ev' s s1 e1 ∙ loop.world_is;
          only =
              extend_permits p s.proj s1.proj w views (view.execution_id, view.generation)
                (record {
                  view = view;
                  listed = m;
                  its_key = refl;
                  ended = restart_release_reason-Ended (probes.controller_probe w) view reason e;
                })
                (fact-Released key execution view reason (probes.now s.world)
                  (probes.utcnow s.world) n env s.proj s1.proj done)
                loop.only;
        })

  release_all-Loop :
      (p : StateProjection) (w : World) (views left : List ContainmentView) {labels : List String}
      (s t : Runtime c World)
      → ((v : ContainmentView) → In v left → In v views)
      → release_all probes env c key left s ≡ (ok labels, t)
      → Loop p w views s
      → Loop p w views t
  unfolding release_all release_view
  release_all-Loop p w views [] s t within h loop = subst (Loop p w views) (ap (λ r. r.1) h) loop
  release_all-Loop p w views (view ∷ left) s t within h loop =
      follow_elim (release_view probes env c key view s) h λ labels s1 e1 h1.
        follow_elim (release_all probes env c key left s1) h1 λ rest s2 e2 h2.
          subst (Loop p w views) (ap (λ r. r.1) h2) (
            release_all-Loop p w views left s1 s2 (λ v m. within v (inr m)) e2
              (release_one-Loop p w views view
                (restart_release_reason (probes.controller_probe s.world) view)
                (get view.execution_id s.proj.executions) s s1 (within view (inl refl))
                (ap (λ u. restart_release_reason (probes.controller_probe u) view)
                  (sym loop.world_is))
                e1 loop))

  refuse_blocked-clear :
      (b : Bool) (labels labels' : List String) (s t : Runtime c World)
      → refuse_blocked probes env c key b labels s ≡ (ok labels', t)
      → (b ≡ false) × (s ≡ t)
  refuse_blocked-clear true labels labels' s t h = absurd (cc (ap (λ r. r.0) h))
  refuse_blocked-clear false labels labels' s t h = (refl, ap (λ r. r.1) h)

  resolve_replayed-only :
      (s t : Runtime c World) {labels : List String}
      → resolve_replayed probes env c key s ≡ (ok labels, t)
      → (is_workspace_blocked t.proj key ≡ false)
        × OnlyProved s.proj s.world (unreleased_containments s.proj (some key)) t.proj
  unfolding resolve_replayed
  resolve_replayed-only s t {labels} h =
      let views = unreleased_containments s.proj (some key) in
      follow_elim (release_all probes env c key views s) h λ found s1 e1 h1.
        let (clear, same) =
          refuse_blocked-clear (is_workspace_blocked s1.proj key) found labels s1 t h1 in
        let done =
          release_all-Loop s.proj s.world views views s s1 (λ v m. m) e1
            (record { world_is = refl; only = λ k v there free. inl (v, there, free) }) in
        (
          ap (λ r. is_workspace_blocked r.proj key) (sym same) ∙ clear,
          subst (λ r. OnlyProved s.proj s.world views r.proj) same done.only,
        )

  resolve_from-only :
      (r : Result StateProjection) (s t : Runtime c World) {labels : List String}
      → resolve_from probes env c key s r ≡ (ok labels, t)
      → (p : StateProjection) × (r ≡ ok p)
        × (is_workspace_blocked t.proj key ≡ false)
        × OnlyProved p s.world (unreleased_containments p (some key)) t.proj
  resolve_from-only (err e) s t h = absurd (cc (ap (λ r. r.0) h))
  resolve_from-only (ok p) s t h =
      let (clear, only) = resolve_replayed-only (record s { proj = p }) t h in
      (p, refl, clear, only)

  -- When the startup resolution returns, a containment that is released was so in the projection
  -- that the log replays to, or it was one of the workspace's unreleased ones there, and its
  -- controller has ended: the probe says DEAD or PID_REUSED of it, and what was recorded of the
  -- boundary is the approved protocol, launch mode and lease, and, once it was established, a job
  -- object that kills its processes when it is closed and lets none break away.
  pub resolve_startup_containment-Proved :
      (s t : Runtime c World) (labels : List String) (evs : List Event) (p : StateProjection)
      (k : String × String) (v : ContainmentView)
      → replay c s.log.content ≡ ok evs
      → rebuild env empty evs ≡ ok p
      → resolve_startup_containment probes env c key s ≡ (ok labels, t)
      → get k t.proj.containments ≡ some v
      → is_released v.state ≡ true
      → ((u : ContainmentView) × (get k p.containments ≡ some u) × (is_released u.state ≡ true))
        ⊎ Proved probes s.world (unreleased_containments p (some key)) k
  unfolding resolve_startup_containment
  resolve_startup_containment-Proved s t labels evs p k v replays rebuilds h there free =
      let (q, same, _, only) =
        resolve_from-only (rebuild env empty evs) s t (rw (replays, rebuilt) at h) in
      subst
        (λ r.
          ((u : ContainmentView) × (get k r.containments ≡ some u) × (is_released u.state ≡ true))
          ⊎ Proved probes s.world (unreleased_containments r (some key)) k)
        (ok-injective (sym same ∙ rebuilds)) (only k v there free)

  -- When the startup resolution returns, every recorded containment of the workspace is released.
  pub resolve_startup_containment-clear :
      (s t : Runtime c World) (labels : List String) (k : String × String) (v : ContainmentView)
      → resolve_startup_containment probes env c key s ≡ (ok labels, t)
      → get k t.proj.containments ≡ some v
      → v.workspace_key ≡ key
      → is_released v.state ≡ true
  unfolding resolve_startup_containment
  resolve_startup_containment-clear s t labels k v h there its =
      let (_, _, clear, _) =
        resolve_from-only (rebuilt probes env c key (replay c s.log.content)) s t h in
      elim (Bool-cases (is_released v.state)) [
        | inl free ↦ free
        | inr held ↦ absurd (
            cc (
              clear,
              ap (λ w. is_workspace_blocked t.proj w) its,
              is_workspace_blocked-unreleased t.proj k v there held,
            ))
      ]
