-- ===== src/Recovery/Gate.antt =====
-- The guard of `recover` on unreleased containments: it stands in front of every seam.
use draindeck.Base.{
  String, Bool, true, false, some, List, [], ◌∷◌, ◌≡◌, refl, ap, ◌∙◌, string_comparable,
  pair_comparable, ◌==◌, ==_iff, if◌then◌else◌, Bool-cases, inl, inr,
}
use draindeck.Base.Dict.{Dict, get}
use draindeck.Base.Lists.{length}
use draindeck.Base.Result.{ok, err, workspace_blocked}
use draindeck.States.{Env}
use draindeck.Events.Schema.{Event}
use draindeck.Events.Log.Codec.{Codec}
use draindeck.Events.Log.Replay.{replay}
use draindeck.Events.Projection.View.{
  StateProjection, ContainmentView, empty, is_released, is_nonempty, select, values,
  is_workspace_blocked, unreleased_containments,
}
use draindeck.Events.Projection.Replay.{rebuild}
use draindeck.Recovery.State.{Runtime, empty_report}
use draindeck.Recovery.Reconciler.{Seams, recover, blocked}

is_nonempty-first :
    (b : Bool) (w : ContainmentView) (rest : List ContainmentView)
    → b ≡ true
    → is_nonempty (if b then w ∷ rest else rest) ≡ true
is_nonempty-first true w rest e = refl
is_nonempty-first false w rest e = absurd (cc)

is_nonempty-later :
    (b : Bool) (w : ContainmentView) (rest : List ContainmentView)
    → is_nonempty rest ≡ true
    → is_nonempty (if b then w ∷ rest else rest) ≡ true
is_nonempty-later true w rest e = refl
is_nonempty-later false w rest e = e

-- A recorded view that passes a test is selected.
select-found :
    (test : ContainmentView → Bool) (k : String × String) (v : ContainmentView)
    (d : Dict (String × String) ContainmentView)
    → get k d ≡ some v
    → test v ≡ true
    → is_nonempty (select test (values d)) ≡ true
unfolding get
select-found test k v [] there passes = absurd (cc)
select-found test k v ((j, w) ∷ d) there passes = elim (Bool-cases (j == k)) [
  | inl e ↦
      is_nonempty-first (test w) w (select test (values d))
        (ap test (some-same (rw (e, get) at there)) ∙ passes)
  | inr e ↦
      is_nonempty-later (test w) w (select test (values d))
        (select-found test k v d (rw (e, get) at there) passes)
]
  where
    some-same : {a b : ContainmentView} → some a ≡ some b → a ≡ b
    some-same e = cc

-- An unreleased containment blocks its workspace.
pub is_workspace_blocked-unreleased :
    (p : StateProjection) (k : String × String) (v : ContainmentView)
    → get k p.containments ≡ some v
    → is_released v.state ≡ false
    → is_workspace_blocked p v.workspace_key ≡ true
unfolding is_workspace_blocked unreleased_containments
is_workspace_blocked-unreleased p k v there held =
    select-found _ k v p.containments there
      (rw held ((==_iff v.workspace_key v.workspace_key).1 refl))

module _ {World : Type 0} (seams : Seams World) (env : Env) (c : Codec) where
  -- While the log records a containment of the workspace that is not released, recover raises
  -- WorkspaceContainmentBlocked: it appends nothing to the log, and calls nothing that changes the
  -- world.
  pub recover-blocked :
      (s : Runtime c World) (evs : List Event) (p : StateProjection) (k : String × String)
      (v : ContainmentView)
      → replay c s.log.content ≡ ok evs
      → rebuild env empty evs ≡ ok p
      → get k p.containments ≡ some v
      → is_released v.state ≡ false
      → seams.workspace_key ≡ some v.workspace_key
      → (t : Runtime c World) × (recover seams env c s ≡ (err workspace_blocked, t))
        × (t.log ≡ s.log)
        × (t.world ≡ s.world)
  unfolding recover blocked
  recover-blocked s evs p k v replays rebuilds there held key = (
    record s { proj = p; report = record empty_report { replayed_events = length evs } },
    rw (replays, rebuilds, key, is_workspace_blocked-unreleased p k v there held) refl,
    refl,
    refl,
  )
