-- ===== src/Recovery/LogKept.antt =====
-- Whatever `recover` does, its log only grows.
use draindeck.Base.{
  ℕ, String, Bool, true, false, Option, none, some, List, [], ◌∷◌, ◌++◌, ◌≡◌, refl, sym, subst,
  Bool-cases, inl, inr,
}
use mathlib.Core.List.{append-nil, append_assoc}
use draindeck.Base.Result.{Result, ok, err}
use draindeck.Base.Action.{Action, follow}
use draindeck.States.{Env}
use draindeck.Events.Schema.{Event}
use draindeck.Events.Log.Codec.{Codec, ReadBack}
use draindeck.Events.Log.Append.{
  EventLog, OneLine, Holds, append, append-Holds, Holds-replay, open_log, open_log-Holds,
}
use draindeck.Events.Log.Replay.{replay}
use draindeck.Events.Projection.View.{StateProjection, ExecutionView, open_executions}
use draindeck.Events.Projection.Replay.{apply}
use draindeck.Recovery.State.{Runtime, logged, applied, take_log, take_proj, emit, noting, in_world}
use draindeck.Recovery.Reconciler.{
  Seams, Check, residue, crash_event, crash_orphan, crash_orphans, emit_all, check, run_check,
  note_run, repair_workspace, check_orphans, reconcile, admit, begin, with_events, recover, blocked,
}

module _ (c : Codec) (laws : ReadBack c) (text : OneLine c) where
  -- The events that a log holds are followed by those that a later one holds.
  abbrev pub Extends : EventLog c → EventLog c → Type 0
  Extends old new =
      (evs : List Event) → Holds c old evs → (more : List Event) × Holds c new (evs ++ more)

  Extends-refl : (log : EventLog c) → Extends log log
  Extends-refl log evs h = ([], subst (Holds c log) (sym (append-nil evs)) h)

  Extends-trans : (a b d : EventLog c) → Extends a b → Extends b d → Extends a d
  Extends-trans a b d f g evs h =
      let (more, h1) = f evs h in
      let (rest, h2) = g (evs ++ more) h1 in
      (more ++ rest, subst (Holds c d) (append_assoc evs more rest) h2)

  module _ {World : Type 0} (env : Env) where
    -- An action only extends the log, whether it returns or raises.
    abbrev pub Growing {ℓ} : {T : Type ℓ} → Action (Runtime c World) T → Type 0
    Growing m = (s : Runtime c World) → Extends s.log (m s).1.log

    follow-Growing {ℓ κ} :
        {T : Type ℓ} {U : Type κ} (r : Result T × Runtime c World)
        (k : T → Action (Runtime c World) U) (log : EventLog c)
        → Extends log r.1.log
        → ((v : T) → Growing (k v))
        → Extends log (follow k r).1.log
    follow-Growing (ok v, s) k log h g = Extends-trans log s.log (k v s).1.log h (g v s)
    follow-Growing (err e, s) k log h g = h

    logged-Growing : (ev : Event) → Growing (logged env c ev)
    logged-Growing ev s = go (append c s.log ev) refl
      where
        go :
            (r : Result (ℕ × EventLog c))
            → append c s.log ev ≡ r
            → Extends s.log (take_log env c s r).1.log
        go (ok (eid, log)) e = λ evs h. (_, (append-Holds c laws text s.log log evs ev eid h e).1)
        go (err x) e = Extends-refl s.log

    applied-Growing : (ev : Event) → Growing (applied env c ev)
    applied-Growing ev s = go (apply env s.proj ev)
      where
        go : (r : Result StateProjection) → Extends s.log (take_proj env c s r).1.log
        go (ok p) = Extends-refl s.log
        go (err x) = Extends-refl s.log

    pub emit-Growing : (ev : Event) → Growing (emit env c ev)
    unfolding emit
    emit-Growing ev s = follow-Growing (logged env c ev s) _ s.log (logged-Growing ev s) λ eid s1.
        follow-Growing (applied env c (record ev { event_id = eid }) s1) _ s1.log
          (applied-Growing (record ev { event_id = eid }) s1) λ _ s2. Extends-refl s2.log

    module _ (seams : Seams World) where
      residue-Growing :
          (o : Option (ExecutionView → Action World (Option String))) (view : ExecutionView)
          → Growing (residue seams env c o view)
      residue-Growing none view s = Extends-refl s.log
      residue-Growing (some f) view s = Extends-refl s.log

      crash_orphan-Growing : (view : ExecutionView) → Growing (crash_orphan seams env c view)
      unfolding crash_orphan
      crash_orphan-Growing view s =
          follow-Growing (residue seams env c seams.preserve_residue view s) _ s.log
            (residue-Growing seams.preserve_residue view s)
            λ ref s1.
              follow-Growing (emit env c (crash_event seams view ref (seams.utcnow s1.world)) s1) _
                s1.log (emit-Growing (crash_event seams view ref (seams.utcnow s1.world)) s1)
                λ _ s2. Extends-refl s2.log

      crash_orphans-Growing :
          (views : List ExecutionView) → Growing (crash_orphans seams env c views)
      unfolding crash_orphans
      crash_orphans-Growing [] s = Extends-refl s.log
      crash_orphans-Growing (view ∷ views) s =
          elim (Bool-cases (seams.is_execution_alive view.execution_id)) [
            | inl alive ↦ rw (alive, crash_orphans) (crash_orphans-Growing views s)
            | inr dead ↦
                rw (dead, crash_orphans)
                  (follow-Growing (crash_orphan seams env c view s) _ s.log
                    (crash_orphan-Growing view s) λ _. crash_orphans-Growing views)
          ]

      emit_all-Growing : (evs : List Event) → Growing (emit_all seams env c evs)
      unfolding emit_all
      emit_all-Growing [] s = Extends-refl s.log
      emit_all-Growing (ev ∷ evs) s =
          follow-Growing (emit env c ev s) _ s.log (emit-Growing ev s)
            λ _ s1. emit_all-Growing evs _

      check-Growing :
          (name : String) (o : Option (Check World)) → Growing (check seams env c name o)
      unfolding check
      check-Growing name none s = Extends-refl s.log
      check-Growing name (some fn) s =
          let s1 = (noting env c (note_run seams env c name) s).1 in
          follow-Growing (run_check seams env c fn s1) _ s.log (Extends-refl s.log) λ found s2.
            follow-Growing (emit_all seams env c found.0 s2) _ s2.log (emit_all-Growing found.0 s2)
              λ _ s3. Extends-refl s3.log

      repair-Growing :
          (o : Option (Action World (List String))) → Growing (repair_workspace seams env c o)
      repair-Growing none s = Extends-refl s.log
      repair-Growing (some f) s =
          follow-Growing (in_world env c f s) _ s.log (Extends-refl s.log)
            λ _ s1. Extends-refl s1.log

      reconcile-Growing : Growing (reconcile seams env c)
      unfolding reconcile check_orphans
      reconcile-Growing s =
          follow-Growing (repair_workspace seams env c seams.recover_workspace s) _ s.log
            (repair-Growing seams.recover_workspace s)
            λ _ s1.
              follow-Growing (check_orphans seams env c s1) _ s1.log
                (crash_orphans-Growing (open_executions s1.proj) _)
                λ _ s2.
                  follow-Growing
                    (check seams env c "unwitnessed_commit" seams.check_unwitnessed_commit s2) _
                    s2.log (check-Growing "unwitnessed_commit" seams.check_unwitnessed_commit s2)
                    λ _. check-Growing "dirty_workspace" seams.check_dirty_workspace

      admit-Growing : (b : Bool) → Growing (admit seams env c b)
      admit-Growing true s = Extends-refl s.log
      admit-Growing false s = reconcile-Growing s

      begin-Growing :
          (s : Runtime c World) (r : Result (List Event × StateProjection))
          → Extends s.log (begin seams env c s r).1.log
      begin-Growing s (err e) = Extends-refl s.log
      begin-Growing s (ok (evs, p)) = admit-Growing (blocked seams p) _

      -- Whether recover returns or raises, on a log that was opened: the log that it leaves replays
      -- to the events that it found, and further ones behind them. None is lost or changed. Assumes
      -- that `json` reads back what it writes, and writes no newline inside a line.
      pub recover-log_grows :
          (s : Runtime c World) (file : List c.Byte)
          → open_log c file ≡ ok s.log
          → (evs more : List Event) × (replay c s.log.content ≡ ok evs)
            × (replay c (recover seams env c s).1.log.content ≡ ok (evs ++ more))
      unfolding recover
      recover-log_grows s file opened =
          let (evs, h) = open_log-Holds c file s.log opened in
          let (more, after) =
            begin-Growing s (with_events seams env c (replay c s.log.content)) evs h in
          (evs, more, Holds-replay c s.log evs h, Holds-replay c _ (evs ++ more) after)
