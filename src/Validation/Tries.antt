-- ===== src/Validation/Tries.antt =====
-- What was run for each row of a validation result, and what each row says of it.
use draindeck.Base.{
  ℕ, zero, suc, ◌+◌, ◌≤◌, String, Bool, true, false, List, [], ◌∷◌, ◌≡◌, refl, sym, ap, ◌∙◌, arith,
  inl, inr, Bool-cases,
}
use draindeck.Base.Lists.{length}
use draindeck.Base.Json.{Float, pos}
use draindeck.Base.Result.{Result, ok, ok-injective}
use draindeck.Base.Action.{follow_elim}
use draindeck.Validation.Runner.{
  Child, exited, is_success, child_env, Shell, Validator, Gate, run_gate, run_once, retried,
}

is_success-zero : (child : Child) → is_success child ≡ true → child ≡ exited (pos 0)
is_success-zero (exited (pos zero)) h = refl
is_success-zero _ h = absurd (cc)

is_success-other : (child : Child) → is_success child ≡ false → ¬ (child ≡ exited (pos 0))
is_success-other child h e = cc (h, ap is_success e)

module _ {World : Type 0} (shell : Shell World) (validator : Validator) where
  -- A command is run in the world `w`: its child, and the world that it leaves.
  abbrev pub Runs : String → String → Bool → World → Child → World → Type 0
  Runs cmd log append w child w' =
      shell.run cmd log append (child_env (shell.environ w) validator.env) w ≡ (ok child, w')

  -- The tries of a command, whether it passed, and its retries: it passes with the exit code 0 and
  -- with nothing else, and is run again, behind the same log, exactly where its first try fails.
  pub data Tried (cmd log : String) (w w' : World) (passed : Bool) (retries : ℕ) : Type 0 where
    at_once :
        Runs cmd log false w (exited (pos 0)) w'
        → passed ≡ true
        → retries ≡ 0
        → Tried cmd log w w' passed retries
    at_second :
        (child : Child) (v : World)
        → Runs cmd log false w child v
        → ¬ (child ≡ exited (pos 0))
        → Runs cmd log true v (exited (pos 0)) w'
        → passed ≡ true
        → retries ≡ 1
        → Tried cmd log w w' passed retries
    in_vain :
        (child again : Child) (v : World)
        → Runs cmd log false w child v
        → ¬ (child ≡ exited (pos 0))
        → Runs cmd log true v again w'
        → ¬ (again ≡ exited (pos 0))
        → passed ≡ false
        → retries ≡ 1
        → Tried cmd log w w' passed retries

  -- The rows tell what was run from `w` to `w'`: the commands in their order, each with its name, its
  -- log and its flag, with so many retries in all.
  abbrev pub Ran : String → ℕ → List String → List Gate → ℕ → World → World → Type 0
  Ran xid i commands [] n w w' = (n ≡ 0) × (w' ≡ w)
  Ran xid i [] (g ∷ gs) n w w' = ⊥
  Ran xid i (cmd ∷ commands) (g ∷ gs) n w w' =
      (v : World) × (once : ℕ) × (rest : ℕ) × (n ≡ once + rest)
      × (g.name ≡ cmd)
      × (g.log_path ≡ shell.log_path xid i)
      × Tried cmd (shell.log_path xid i) w v g.passed once
      × Ran xid (suc i) commands gs rest v w'

  run_once-Runs :
      (cmd log : String) (append : Bool) (first : Bool × Float) (w w' : World)
      → run_once shell validator cmd log append w ≡ (ok first, w')
      → (child : Child) × Runs cmd log append w child w' × (is_success child ≡ first.0)
  unfolding run_once
  run_once-Runs cmd log append first w w' h =
      follow_elim (shell.run cmd log append (child_env (shell.environ w) validator.env) w) h
        λ child v e h1. (
          child,
          e ∙ ap (λ (r : Result (Bool × Float) × World). (ok child, r.1)) h1,
          ap (λ (b : Bool × Float). b.0)
              (ok-injective (ap (λ (r : Result (Bool × Float) × World). r.0) h1)),
        )

  pub run_gate-Tried :
      (cmd log : String) (outcome : Bool × Float × ℕ) (w w' : World)
      → run_gate shell validator cmd log w ≡ (ok outcome, w')
      → Tried cmd log w w' outcome.0 outcome.2
  unfolding run_gate
  run_gate-Tried cmd log outcome w w' h =
      follow_elim (run_once shell validator cmd log false w) h λ first w1 e1 h1.
        let (child, ran, told) = run_once-Runs cmd log false first w w1 e1 in
        once first w1 child ran told h1
    where
      once :
          (first : Bool × Float) (w1 : World) (child : Child)
          → Runs cmd log false w child w1
          → is_success child ≡ first.0
          → retried shell validator cmd log first w1 ≡ (ok outcome, w')
          → Tried cmd log w w' outcome.0 outcome.2
      once (true, dur) w1 child ran told q =
          let left = ap (λ (r : Result (Bool × Float × ℕ) × World). r.1) q in
          let e = ok-injective (ap (λ (r : Result (Bool × Float × ℕ) × World). r.0) q) in
          at_once (cc (ran, is_success-zero child told, left))
            (ap (λ (o : Bool × Float × ℕ). o.0) (sym e))
            (ap (λ (o : Bool × Float × ℕ). o.2) (sym e))
      once (false, dur) w1 child ran told q =
          follow_elim (run_once shell validator cmd log true w1) q λ again w2 e2 h2.
            let (second, reran, retold) = run_once-Runs cmd log true again w1 w2 e2 in
            let left = ap (λ (r : Result (Bool × Float × ℕ) × World). r.1) h2 in
            let e = ok-injective (ap (λ (r : Result (Bool × Float × ℕ) × World). r.0) h2) in
            let flag : outcome.0 ≡ again.0 = ap (λ (o : Bool × Float × ℕ). o.0) (sym e) in
            let count : outcome.2 ≡ 1 = ap (λ (o : Bool × Float × ℕ). o.2) (sym e) in
            elim (Bool-cases again.0) [
              | inl passed ↦
                  at_second child w1 ran (is_success-other child told)
                    (cc (reran, is_success-zero second (retold ∙ passed), left)) (flag ∙ passed)
                    count
              | inr failed ↦
                  in_vain child second w1 ran (is_success-other child told) (cc (reran, left))
                    (is_success-other second (retold ∙ failed)) (flag ∙ failed) count
            ]

  Tried-at_most :
      (cmd log : String) (w w' : World) (passed : Bool) (n : ℕ)
      → Tried cmd log w w' passed n
      → n ≤ 1
  Tried-at_most cmd log w w' passed n (at_once _ _ e) = omega (arith, e)
  Tried-at_most cmd log w w' passed n (at_second _ _ _ _ _ _ e) = omega (arith, e)
  Tried-at_most cmd log w w' passed n (in_vain _ _ _ _ _ _ _ _ e) = omega (arith, e)

  pub Ran-at_most :
      (xid : String) (i : ℕ) (commands : List String) (rows : List Gate) (n : ℕ) (w w' : World)
      → Ran xid i commands rows n w w'
      → n ≤ length rows
  Ran-at_most xid i commands [] n w w' (none_left, _) = omega (arith, none_left)
  Ran-at_most xid i [] (g ∷ gs) n w w' r = absurd r
  Ran-at_most xid i (cmd ∷ commands) (g ∷ gs) n w w' (v, once, rest, sum, _, _, tried, ran) =
      omega (
        arith,
        sum,
        Tried-at_most cmd (shell.log_path xid i) w v g.passed once tried,
        Ran-at_most xid (suc i) commands gs rest v w' ran,
      )
