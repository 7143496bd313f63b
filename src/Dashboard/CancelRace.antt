-- ===== src/Dashboard/CancelRace.antt =====
-- A cancel against the claim of the same command, and against the next claim of its repository.
use draindeck.Base.{
  ℕ, String, true, false, none, some, List, [], ◌∷◌, ◌≡◌, refl, sym, subst, arith, nat_eq_iff,
  Bool-cases, inl, inr, ◌⊎◌,
}
use draindeck.Dashboard.Commands.{
  Store, Command, is_some, find_where, update_where, update_row, has_id, is_queue_paused,
  repository_has_active_command,
}
use draindeck.Dashboard.Transactions.{
  claim, cancel, cancellable, cancel_transaction, claim_transaction, add_pause,
}
use draindeck.Dashboard.ClaimOrder.{claim_transaction-Taken}
use draindeck.Dashboard.Slots.{Slots}

-- After the change of every row of an id to one that is not queued, none of that id is cancellable.
cancellable-none :
    (n : ℕ) (now : String) (rows : List Command)
    → is_some (find_where (cancellable n) (update_where (has_id n) (claim now) rows)) ≡ false
unfolding find_where update_where
cancellable-none n now [] = refl
cancellable-none n now (c ∷ rows) = ground (arith, cancellable-none n now rows)

-- A command that a claim has taken cannot be cancelled any more: a cancel that comes behind the
-- claim changes nothing, and pauses nothing.
pub claim-cancel :
    (repo n : ℕ) (now later : String) (s s' : Store)
    → Slots s
    → claim_transaction repo now s ≡ (some n, s')
    → cancel_transaction repo n later s' ≡ (false, s')
unfolding cancel_transaction update_row
claim-cancel repo n now later s s' h e =
    let t = claim_transaction-Taken repo s now h.ordered n s' e in
    let gone : is_some (find_where (cancellable n) s'.commands) ≡ false =
      subst (λ (q : Store). is_some (find_where (cancellable n) q.commands) ≡ false) (sym t.after)
        (cancellable-none n now s.commands) in
    rw (gone, cancel_transaction) refl

add_pause-paused :
    (repo n : ℕ) (now : String) (s : Store) → is_queue_paused (add_pause repo now n s) repo ≡ true
unfolding add_pause is_queue_paused find_where
add_pause-paused repo n now s = elim (Bool-cases (is_queue_paused s repo)) [
  | inl already ↦ rw (already, add_pause) already
  | inr not_yet ↦
      rw (not_yet, add_pause) (rw ((nat_eq_iff repo repo).1 refl, is_queue_paused, find_where) refl)
]

claim-paused :
    (repo : ℕ) (now : String) (s : Store)
    → is_queue_paused s repo ≡ true
    → claim_transaction repo now s ≡ (none, s)
unfolding claim_transaction
claim-paused repo now s paused = elim (Bool-cases (repository_has_active_command s repo)) [
  | inl busy ↦ rw (busy, claim_transaction) refl
  | inr idle ↦ rw (idle, paused, claim_transaction) refl
]

-- A cancel either changes nothing and says so, or it leaves a queue from which a claim takes
-- nothing, whatever else waits in it.
pub cancel-claim :
    (repo n : ℕ) (now later : String) (s : Store)
    → (cancel_transaction repo n now s ≡ (false, s))
      ⊎ (((cancel_transaction repo n now s).0 ≡ true)
          × (claim_transaction repo later (cancel_transaction repo n now s).1
              ≡ (none, (cancel_transaction repo n now s).1)))
unfolding cancel_transaction
cancel-claim repo n now later s =
    elim (Bool-cases (is_some (find_where (cancellable n) s.commands))) [
      | inr gone ↦ inl (rw (gone, cancel_transaction) refl)
      | inl waits ↦ inr (
        rw (waits, cancel_transaction) refl,
        rw (waits, cancel_transaction)
            (claim-paused repo later
              (add_pause repo now n
                (record s { commands = update_where (cancellable n) (cancel now) s.commands }))
              (add_pause-paused repo n now
                (record s { commands = update_where (cancellable n) (cancel now) s.commands }))),
      )
    ]
