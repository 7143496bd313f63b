-- ===== src/Base/Action.antt =====
-- Code that changes a state and may raise: the state it leaves stands beside its result, also when
-- it raises.
use mathlib.Core.Path.{◌≡◌, refl}
use draindeck.Base.Result.{Result, ok, err, Error}

abbrev pub Action {ℓ κ} : Type ℓ → Type κ → Type (ℓ ⊔ κ)
Action S T = S → Result T × S

abbrev pub follow {ℓ κ μ} :
    {S : Type ℓ} {T : Type κ} {U : Type μ} → (T → Action S U) → Result T × S → Result U × S
follow k (ok v, s) = k v s
follow k (err e, s) = (err e, s)

infixl 5 ◌>>=◌ ◌>>◌
abbrev pub ◌>>=◌ {ℓ κ μ} :
    {S : Type ℓ} {T : Type κ} {U : Type μ} → Action S T → (T → Action S U) → Action S U
m >>= k = λ s. follow k (m s)

abbrev pub ◌>>◌ {ℓ κ μ} :
    {S : Type ℓ} {T : Type κ} {U : Type μ} → Action S T → Action S U → Action S U
m >> n = m >>= λ _. n

abbrev pub return {ℓ κ} : {S : Type ℓ} {T : Type κ} → T → Action S T
return v = λ s. (ok v, s)

abbrev pub raise {ℓ κ} : {S : Type ℓ} {T : Type κ} → Error → Action S T
raise e = λ s. (err e, s)

abbrev pub modify {ℓ} : {S : Type ℓ} → (S → S) → Action S (Unit {0})
modify f = λ s. (ok tt, f s)

-- What follows a step that returned may assume that it did, and from which state.
pub follow_elim {ℓ κ μ ν} :
    {S : Type ℓ} {T : Type κ} {U : Type μ} {C : Type ν} (r : Result T × S) {k : T → Action S U}
    {u : U} {t : S}
    → follow k r ≡ (ok u, t)
    → ((v : T) (s : S) → r ≡ (ok v, s) → k v s ≡ (ok u, t) → C)
    → C
follow_elim (ok v, s) h next = next v s refl h
follow_elim (err e, s) h next = absurd (cc)

-- What holds of a result and its state: one predicate where it returned, one where it raised.
abbrev pub Ends {ℓ κ μ} :
    {S : Type ℓ} {T : Type κ} → (T → S → Type μ) → (S → Type μ) → Result T × S → Type μ
Ends Q R (ok v, s) = Q v s
Ends Q R (err e, s) = R s

pub follow-Ends {ℓ κ μ ν} :
    {S : Type ℓ} {T : Type κ} {U : Type μ} (Q : T → S → Type ν) (Q' : U → S → Type ν)
    (R : S → Type ν) (r : Result T × S) (k : T → Action S U)
    → Ends Q R r
    → ((v : T) (s : S) → Q v s → Ends Q' R (k v s))
    → Ends Q' R (follow k r)
follow-Ends Q Q' R (ok v, s) k h next = next v s h
follow-Ends Q Q' R (err e, s) k h next = h

pub Ends-weaken {ℓ κ ν} :
    {S : Type ℓ} {T : Type κ} (Q Q' : T → S → Type ν) (R R' : S → Type ν) (r : Result T × S)
    → Ends Q R r
    → ((v : T) (s : S) → Q v s → Q' v s)
    → ((s : S) → R s → R' s)
    → Ends Q' R' r
Ends-weaken Q Q' R R' (ok v, s) h q e = q v s h
Ends-weaken Q Q' R R' (err x, s) h q e = e s h

-- What holds of the state in both cases.
pub Ends-state {ℓ κ ν} :
    {S : Type ℓ} {T : Type κ} (R : S → Type ν) (r : Result T × S) → Ends (λ _. R) R r → R r.1
Ends-state R (ok v, s) h = h
Ends-state R (err e, s) h = h

pub any-Ends {ℓ κ ν} :
    {S : Type ℓ} {T : Type κ} (R : S → Type ν) (r : Result T × S) → R r.1 → Ends (λ _. R) R r
any-Ends R (ok v, s) h = h
any-Ends R (err e, s) h = h

-- A step that is known to keep a predicate of the state, and what follows it.
pub keep-Ends {ℓ κ μ ν} :
    {S : Type ℓ} {T : Type κ} {U : Type μ} (R : S → Type ν) (Q : U → S → Type ν) (r : Result T × S)
    (k : T → Action S U)
    → R r.1
    → ((v : T) (s : S) → R s → Ends Q R (k v s))
    → Ends Q R (follow k r)
keep-Ends R Q r k h next = follow-Ends (λ _. R) Q R r k (any-Ends R r h) next
