-- ===== src/Recovery/Proofs.antt =====
-- What `_restart_release_reason` of src/runtime/recovery/containment.py asks before it gives a reason.
use draindeck.Base.{
  String, true, false, ◌&&◌, Option, none, some, ◌≡◌, refl, ap, subst, ◌⊎◌, inl, inr, Bool-cases,
  and-true, string_comparable, ==_iff,
}
use draindeck.Base.Json
use draindeck.Base.Json.{Value, Fields, obj, str, bool, is_true, is_false}
use draindeck.Events.Projection.View.{ContainmentState, ContainmentView, established, unconfirmed}
use draindeck.Events.Projection.Executions.{is_text}
use draindeck.Recovery.Containment.{
  ControllerIdentityState, ControllerIdentityResult, dead, pid_reused, is_gone, approved_lease,
  approved_job, is_valid_job, job_of, when_gone, leased_reason, restart_release_reason,
}

-- The job object of the established boundary: its processes die with it, and none can leave it.
abbrev pub JobHeld : Option Fields → Type 0
JobHeld none = ⊥
JobHeld (some payload) =
    (job : Fields) × (Json.get_null "job" payload ≡ obj job)
    × (Json.get_null "kill_on_job_close" job ≡ bool true)
    × (Json.get_null "breakaway_ok" job ≡ bool false)
    × (Json.get_null "silent_breakaway_ok" job ≡ bool false)

-- It is asked for once the boundary is established.
abbrev pub Confined : ContainmentState → Option Fields → Type 0
Confined established payload = JobHeld payload
Confined unconfirmed payload = JobHeld payload
Confined _ payload = Unit {0}

-- The controller that prepared the boundary is dead, or its process id is another process's by now;
-- the boundary was prepared by the protocol under which its processes end with the controller.
pub record Ended (probe : Value → ControllerIdentityResult) (view : ContainmentView) : Type 0 where
  pub gone :
      ((probe (Json.get_null "controller" view.prepared_payload)).state ≡ dead)
      ⊎ ((probe (Json.get_null "controller" view.prepared_payload)).state ≡ pid_reused)
  pub protocol : Json.get_null "protocol_version" view.prepared_payload ≡ str "windows-job-v1"
  pub launch : Json.get_null "launch_mode" view.prepared_payload ≡ str "windows-job-list-at-create"
  pub lease : Fields
  pub leased : Json.get_null "lease" view.prepared_payload ≡ obj lease
  pub scope : Json.get_null "scope" lease ≡ str "Global"
  pub version : Json.get_null "version" lease ≡ str "v1"
  pub confined : Confined view.state view.established_payload

is_text-str : (t : String) (v : Value) → is_text t v ≡ true → v ≡ str t
is_text-str t (str s) h = ap str ((==_iff s t).0 h)
is_text-str t _ h = absurd (cc)

is_true-bool : (v : Value) → is_true v ≡ true → v ≡ bool true
unfolding is_true
is_true-bool (bool true) h = refl
is_true-bool (bool false) h = absurd (cc)
is_true-bool _ h = absurd (cc)

is_false-bool : (v : Value) → is_false v ≡ true → v ≡ bool false
unfolding is_false
is_false-bool (bool false) h = refl
is_false-bool (bool true) h = absurd (cc)
is_false-bool _ h = absurd (cc)

is_gone-cases : (s : ControllerIdentityState) → is_gone s ≡ true → (s ≡ dead) ⊎ (s ≡ pid_reused)
is_gone-cases dead h = inl refl
is_gone-cases pid_reused h = inr refl
is_gone-cases _ h = absurd (cc)

approved_lease-inv :
    (v : Value) (l : Fields)
    → approved_lease v ≡ some l
    → (v ≡ obj l)
      × (Json.get_null "scope" l ≡ str "Global")
      × (Json.get_null "version" l ≡ str "v1")
approved_lease-inv (obj l) l' h =
    elim (Bool-cases
      (is_text "Global" (Json.get_null "scope" l) && is_text "v1" (Json.get_null "version" l))) [
        | inl both ↦
            let same : l ≡ l' = cc (rw both at h) in
            let (scope, version) =
              and-true (is_text "Global" (Json.get_null "scope" l))
                (is_text "v1" (Json.get_null "version" l)) both in
            (
              ap obj same,
              subst (λ x. Json.get_null "scope" x ≡ str "Global") same (is_text-str _ _ scope),
              subst (λ x. Json.get_null "version" x ≡ str "v1") same (is_text-str _ _ version),
            )
        | inr other ↦ absurd (cc (rw other at h))
      ]
approved_lease-inv _ l h = absurd (cc)

held : (payload : Option Fields) → is_valid_job (job_of payload) ≡ true → JobHeld payload
held none h = absurd (cc)
held (some payload) h = valid (Json.get_null "job" payload) refl h
  where
    valid :
        (v : Value)
        → Json.get_null "job" payload ≡ v
        → is_valid_job v ≡ true
        → JobHeld (some payload)
    valid (obj job) e ok =
        let (both, silent) =
          and-true
            (is_true (Json.get_null "kill_on_job_close" job)
              && is_false (Json.get_null "breakaway_ok" job))
            (is_false (Json.get_null "silent_breakaway_ok" job)) ok in
        let (kill, away) =
          and-true (is_true (Json.get_null "kill_on_job_close" job))
            (is_false (Json.get_null "breakaway_ok" job)) both in
        (job, e, is_true-bool _ kill, is_false-bool _ away, is_false-bool _ silent)
    valid _ e ok = absurd (cc)

approved_job-Confined :
    (s : ContainmentState) (payload : Option Fields)
    → approved_job s payload ≡ true
    → Confined s payload
approved_job-Confined established payload h = held payload h
approved_job-Confined unconfirmed payload h = held payload h
approved_job-Confined _ payload h = tt

module _ (probe : Value → ControllerIdentityResult) (view : ContainmentView) where
  leased-inv :
      (o : Option Fields) (reason : Fields)
      → leased_reason probe view o ≡ some reason
      → (l : Fields) × (o ≡ some l)
        × (approved_job view.state view.established_payload ≡ true)
        × (is_gone (probe (Json.get_null "controller" view.prepared_payload)).state ≡ true)
  leased-inv none reason h = absurd (cc)
  leased-inv (some l) reason h =
      elim (Bool-cases (approved_job view.state view.established_payload)) [
        | inr other ↦ absurd (cc (rw (other, leased_reason) at h))
        | inl approved ↦
            elim (Bool-cases
              (is_gone (probe (Json.get_null "controller" view.prepared_payload)).state)) [
                | inl gone ↦ (l, refl, approved, gone)
                | inr other ↦
                    absurd (cc (rw (other, when_gone) at (rw (approved, leased_reason) at h)))
              ]
      ]

  -- A reason is given only where the controller has ended under the protocol.
  pub restart_release_reason-Ended :
      (reason : Fields) → restart_release_reason probe view ≡ some reason → Ended probe view
  unfolding restart_release_reason
  restart_release_reason-Ended reason h =
      let prepared = view.prepared_payload in
      elim (Bool-cases (
        is_text "windows-job-v1" (Json.get_null "protocol_version" prepared)
        && is_text "windows-job-list-at-create" (Json.get_null "launch_mode" prepared))) [
          | inr other ↦ absurd (cc (rw (other, restart_release_reason) at h))
          | inl both ↦
              let (protocol, launch) =
                and-true (is_text "windows-job-v1" (Json.get_null "protocol_version" prepared)) _
                  both in
              let (l, approved, job, gone) =
                leased-inv (approved_lease (Json.get_null "lease" prepared)) reason
                  (rw (both, restart_release_reason) at h) in
              let (leased, scope, version) =
                approved_lease-inv (Json.get_null "lease" prepared) l approved in
              record {
                gone = is_gone-cases _ gone;
                protocol = is_text-str _ _ protocol;
                launch = is_text-str _ _ launch;
                lease = l;
                leased = leased;
                scope = scope;
                version = version;
                confined = approved_job-Confined view.state view.established_payload job;
              }
        ]
