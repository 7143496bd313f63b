-- ===== src/Validation/Reports.antt =====
-- What a returned validation result says of the commands.
use draindeck.Base.{
  ℕ, suc, ◌+◌, ◌≤◌, String, Bool, true, false, none, some, List, [], ◌∷◌, ◌++◌, ◌≡◌, refl, sym, ap,
  ◌∙◌, subst, arith, ◌⊎◌, inl, inr, Bool-cases,
}
use mathlib.Core.List.{append-nil, append_assoc}
use draindeck.Base.Lists.{length}
use draindeck.Base.Json.{Float}
use draindeck.Base.Result.{Result, ok, err, value_error, ok-injective}
use draindeck.Base.Action.{follow_elim}
use draindeck.Validation.Runner.{
  Shell, Validator, Gate, ValidationResult, validate, run_gates, run_gate, next_gate, note_gate,
  fail_gates, any_dollar,
}
use draindeck.Validation.Tries.{Tried, Ran, run_gate-Tried, Ran-at_most}

abbrev pub names : List Gate → List String
names [] = []
names (g ∷ gs) = g.name ∷ names gs

abbrev pub AllPassed : List Gate → Type 0
AllPassed [] = Unit {0}
AllPassed (g ∷ gs) = (g.passed ≡ true) × AllPassed gs

-- Either every command has a row, and every row passed; or the last row failed, the rows before it
-- passed, and the commands behind it were not run.
abbrev pub Verdict : List String → List Gate → ValidationResult → Type 0
Verdict commands rows r =
    ((r.passed ≡ true) × (names rows ≡ commands) × AllPassed rows)
    ⊎ ((r.passed ≡ false)
        × (r.taxonomy_category ≡ some "validation-test")
        × ((good : List Gate) × (last : Gate) × (left : List String) × (rows ≡ good ++ last ∷ [])
            × AllPassed good
            × (last.passed ≡ false)
            × (names rows ++ left ≡ commands)))

Verdict-cons :
    (cmd : String) (commands : List String) (g : Gate) (rows : List Gate) (r : ValidationResult)
    → g.name ≡ cmd
    → g.passed ≡ true
    → Verdict commands rows r
    → Verdict (cmd ∷ commands) (g ∷ rows) r
Verdict-cons cmd commands g rows r n p (inl (passed, named, all)) =
    inl (passed, cc (n, named), (p, all))
Verdict-cons cmd commands g rows r n p
      (inr (failed, taxonomy, (good, last, left, e, all, bad, named))) =
    inr
      (failed, taxonomy, (g ∷ good, last, left, ap (λ gs. g ∷ gs) e, (p, all), bad, cc (n, named)))

module _ {World : Type 0} (shell : Shell World) (validator : Validator) where
  -- The rows that a result has gained.
  pub record Gained (xid : String) (i : ℕ) (commands : List String) (before r : ValidationResult)
      (w w' : World) : Type 0 where
    pub rows : List Gate
    pub listed : r.per_command ≡ before.per_command ++ rows
    pub retried : ℕ
    pub retries : r.flake_retries ≡ before.flake_retries + retried
    pub ran : Ran shell validator xid i commands rows retried w w'
    pub commit : r.validated_commit ≡ before.validated_commit
    pub verdict : Verdict commands rows r

  run_gates-Gained :
      (xid : String) (i : ℕ) (commands : List String) (before r : ValidationResult) (w w' : World)
      → before.passed ≡ true
      → run_gates shell validator xid i commands before w ≡ (ok r, w')
      → Gained xid i commands before r w w'
  unfolding run_gates run_gate
  run_gates-Gained xid i [] before r w w' fine h =
      let same : before ≡ r = ok-injective (ap (λ (p : Result ValidationResult × World). p.0) h) in
      record {
        rows = [];
        listed = cc (same, append-nil before.per_command);
        retried = 0;
        retries = omega (arith, ap (λ (v : ValidationResult). v.flake_retries) same);
        ran = (refl, ap (λ (p : Result ValidationResult × World). p.1) (sym h));
        commit = cc;
        verdict = inl (cc (same, fine), refl, tt);
      }
  run_gates-Gained xid i (cmd ∷ commands) before r w w' fine h =
      follow_elim (run_gate shell validator cmd (shell.log_path xid i) w) h λ outcome w1 e1 h1.
        ran outcome w1 (run_gate-Tried shell validator cmd (shell.log_path xid i) outcome w w1 e1)
          (λ after q. run_gates-Gained xid (suc i) commands after r w1 w' q) h1
    where
      ran :
          (outcome : Bool × Float × ℕ) (w1 : World)
          → Tried shell validator cmd (shell.log_path xid i) w w1 outcome.0 outcome.2
          → ((after : ValidationResult)
              → after.passed ≡ true
              → run_gates shell validator xid (suc i) commands after w1 ≡ (ok r, w')
              → Gained xid (suc i) commands after r w1 w')
          → next_gate shell validator outcome.0
              (run_gates shell validator xid
                (suc i)
                commands
                (note_gate shell validator cmd (shell.log_path xid i) outcome before))
              (note_gate shell validator cmd (shell.log_path xid i) outcome before)
              w1
            ≡ (ok r, w')
          → Gained xid i (cmd ∷ commands) before r w w'
      ran (true, dur, n) w1 tried later q =
          let after = note_gate shell validator cmd (shell.log_path xid i) (true, dur, n) before in
          let row : Gate = record {
            name = cmd;
            passed = true;
            duration_s = shell.round3 dur;
            log_path = shell.log_path xid i;
          } in
          let g = later after fine q in
          record {
            rows = row ∷ g.rows;
            listed = g.listed ∙ append_assoc before.per_command (row ∷ []) g.rows;
            retried = n + g.retried;
            retries = omega (arith, g.retries);
            ran = (w1, n, g.retried, refl, refl, refl, tried, g.ran);
            commit = g.commit;
            verdict = Verdict-cons cmd commands row g.rows r refl refl g.verdict;
          }
      ran (false, dur, n) w1 tried later q =
          let row : Gate = record {
            name = cmd;
            passed = false;
            duration_s = shell.round3 dur;
            log_path = shell.log_path xid i;
          } in
          let same : fail_gates shell validator
                (note_gate shell validator cmd (shell.log_path xid i) (false, dur, n) before)
              ≡ r =
            ok-injective (ap (λ (p : Result ValidationResult × World). p.0) q) in
          record {
            rows = row ∷ [];
            listed = ap (λ (v : ValidationResult). v.per_command) (sym same);
            retried = n;
            retries = ap (λ (v : ValidationResult). v.flake_retries) (sym same);
            ran = (
              w1,
              n,
              0,
              omega arith,
              refl,
              refl,
              tried,
              (refl, ap (λ (p : Result ValidationResult × World). p.1) (sym q)),
            );
            commit = ap (λ (v : ValidationResult). v.validated_commit) (sym same);
            verdict = inr (
              ap (λ (v : ValidationResult). v.passed) (sym same),
              ap (λ (v : ValidationResult). v.taxonomy_category) (sym same),
              ([], row, commands, refl, tt, refl, refl),
            );
          }

  -- A validation that returns tells what it ran: its rows are the commands that were run one after
  -- the other, the configured ones first, each with its name, its log and its flag. A command passes
  -- with the exit code 0 and with nothing else, and is run a second time exactly where its first try
  -- fails; the retries are the second runs, no more than the rows. Either every command was run and
  -- passed; or the last row failed, those before it passed, and the commands behind it were not run.
  -- The commit is the one that was asked for.
  pub validate-Gained :
      (commit xid : String) (extra : List String) (r : ValidationResult) (w w' : World)
      → validate shell validator commit xid extra w ≡ (ok r, w')
      → (r.validated_commit ≡ commit)
        × Ran shell validator xid 0 (validator.commands ++ extra) r.per_command r.flake_retries w w'
        × (r.flake_retries ≤ length r.per_command)
        × Verdict (validator.commands ++ extra) r.per_command r
  unfolding validate any_dollar
  validate-Gained commit xid extra r w w' h =
      elim (Bool-cases (any_dollar (validator.commands ++ extra))) [
        | inl bad ↦
            absurd
              (stuck (ap (λ (p : Result ValidationResult × World). p.0) (rw (bad, validate) at h)))
        | inr fine ↦
            let g =
              run_gates-Gained xid 0 (validator.commands ++ extra) first r w w' refl
                (rw (fine, validate) at h) in
            let count : g.retried ≡ r.flake_retries = omega (arith, g.retries) in
            (
              g.commit,
              subst
                  (λ rows.
                    Ran shell validator xid 0 (validator.commands ++ extra) rows r.flake_retries w
                      w')
                  (sym g.listed)
                  (subst
                    (λ n. Ran shell validator xid 0 (validator.commands ++ extra) g.rows n w w')
                    count g.ran),
              omega (
                arith,
                g.retries,
                ap length g.listed,
                Ran-at_most shell validator xid 0 (validator.commands ++ extra) g.rows g.retried w
                    w' g.ran,
              ),
              subst (λ rows. Verdict (validator.commands ++ extra) rows r) (sym g.listed) g.verdict,
            )
      ]
    where
      stuck : err value_error ≡ ok r → ⊥
      stuck q = absurd (cc)

      first : ValidationResult
      first = record {
        passed = true;
        validated_commit = commit;
        per_command = [];
        flake_retries = 0;
        taxonomy_category = none;
      }
