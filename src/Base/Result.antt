-- ===== src/Base/Result.antt =====
-- Exceptions as values: `err` stands for a raised exception of the named class.
use mathlib.Core.Path.{◌≡◌, refl}
use draindeck.Base.{Bool, true, false, Option, none, some}

pub data Error : Type 0 where
  transition_error type_error key_error schema_error corruption_error incomplete_log halt
        overflow_error budget_exhausted workspace_blocked tamper_error closed untyped_field
        not_found idempotency_key_reused issues_revision_conflict projection_unavailable
        selection_refused worktree_not_clean configured_issues integrity_error ack_not_abnormal
        ack_process_not_terminal ack_run_not_terminal ack_target_unverifiable cancel_not_queued
        os_error value_error containment_unresolved reviewer_unavailable review_parse
        attribute_error json_decode_error unicode_decode_error :
      Error

pub data Result {ℓ} (T : Type ℓ) : Type ℓ where
  err : Error → Result T
  ok : T → Result T

-- A missing value raises `e`.
abbrev pub of_option {ℓ} : {T : Type ℓ} → Error → Option T → Result T
of_option e found = elim found [ none ↦ err e | some v ↦ ok v ]

-- `if not test: raise e`
abbrev pub require : Bool → Error → Result (Unit {0})
require true e = ok tt
require false e = err e

-- The rest of a body runs on a value; an exception leaves it.
infixl 5 ◌>>=◌ ◌>>◌
abbrev pub ◌>>=◌ {ℓ κ} : {T : Type ℓ} {U : Type κ} → Result T → (T → Result U) → Result U
raised >>= rest = elim raised [ err e ↦ err e | ok v ↦ rest v ]

abbrev pub ◌>>◌ {ℓ κ} : {T : Type ℓ} {U : Type κ} → Result T → Result U → Result U
first >> second = first >>= λ _. second

pub ok-injective {ℓ} : {T : Type ℓ} {v w : T} → ok v ≡ ok w → v ≡ w
ok-injective e = cc

-- Inversions of a do block: what follows a successful step may assume that it succeeded.
pub require_elim {κ μ} :
    {B : Type κ} {C : Type μ} (t : Bool) (e : Error) {m : Result B} {b : B}
    → (require t e >> m) ≡ ok b
    → (t ≡ true → m ≡ ok b → C)
    → C
require_elim true e h k = k refl h
require_elim false e h k = absurd (cc)

pub option_elim {ℓ κ μ} :
    {T : Type ℓ} {B : Type κ} {C : Type μ} (e : Error) (o : Option T) {f : T → Result B} {b : B}
    → (of_option e o >>= f) ≡ ok b
    → ((v : T) → o ≡ some v → f v ≡ ok b → C)
    → C
option_elim e none h k = absurd (cc)
option_elim e (some v) h k = k v refl h

pub bind_elim {ℓ κ μ} :
    {T : Type ℓ} {B : Type κ} {C : Type μ} (m : Result T) {f : T → Result B} {b : B}
    → (m >>= f) ≡ ok b
    → ((v : T) → m ≡ ok v → f v ≡ ok b → C)
    → C
bind_elim (ok v) h k = k v refl h
bind_elim (err e) h k = absurd (cc)
