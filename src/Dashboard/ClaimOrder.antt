-- ===== src/Dashboard/ClaimOrder.antt =====
-- The order in which claim_next_launchable_command takes the commands of a repository.
use draindeck.Base.{
  ℕ, suc, ◌≤◌, String, true, false, Option, none, some, List, [], ◌∷◌, ◌≡◌, refl, sym, ap, subst,
  arith, nat_eq_iff, Bool-cases, inl, inr, and-true,
}
use draindeck.Base.Lists.{In}
use draindeck.Dashboard.Commands.{
  Store, Command, Status, queued, claimed, launched, launch_failed, launch_ownership_unknown,
  refused, completed, abnormal_exit, acknowledged, cancelled, is_some, is_queued, is_blocking,
  holds_place, find_where, count_where, update_row, active_in, of_repository, queued_in,
  counts_before, queue_position, repository_has_active_command, is_queue_paused,
  has_launchable_command,
}
use draindeck.Dashboard.Transactions.{claim, claim_first, claim_transaction}
use draindeck.Dashboard.Rows.{Ordered, find_where-none, find_where-In}

-- What a claim takes: a queued command of the repository, at the head of its queue, which has no
-- active command and is not paused.
pub record Taken (repo : ℕ) (s : Store) (n : ℕ) (now : String) (s' : Store) : Type 0 where
  pub row : Command
  pub is_row : row.id ≡ n
  pub there : In row s.commands
  pub of_repo : row.repository_id ≡ repo
  pub waits : is_queued row.status ≡ true
  pub first : queue_position s row ≡ some 1
  pub idle : repository_has_active_command s repo ≡ false
  pub going : is_queue_paused s repo ≡ false
  pub after : s' ≡ update_row n (claim now) s

counts_after-none :
    (repo n lo hi : ℕ) (rows : List Command)
    → suc n ≤ lo
    → Ordered lo rows hi
    → count_where (counts_before repo n) rows ≡ 0
unfolding count_where
counts_after-none repo n lo hi [] above h = refl
counts_after-none repo n lo hi (c ∷ rows) above h =
    ground (arith, h.0, counts_after-none repo n (suc c.id) hi rows (omega (arith, above, h.0)) h.1)

-- A status that holds a place is that of a queued or of an active command.
place_lost : (s : Status) → is_queued s ≡ false → is_blocking s ≡ false → holds_place s ≡ false
place_lost queued q b = absurd (cc)
place_lost claimed q b = absurd (cc)
place_lost launched q b = refl
place_lost launch_failed q b = refl
place_lost launch_ownership_unknown q b = refl
place_lost refused q b = refl
place_lost completed q b = refl
place_lost abnormal_exit q b = refl
place_lost acknowledged q b = refl
place_lost cancelled q b = refl

place_held : (s : Status) → is_queued s ≡ true → holds_place s ≡ true
place_held queued q = refl
place_held claimed q = refl
place_held launched q = absurd (cc)
place_held launch_failed q = absurd (cc)
place_held launch_ownership_unknown q = absurd (cc)
place_held refused q = absurd (cc)
place_held completed q = absurd (cc)
place_held abnormal_exit q = absurd (cc)
place_held acknowledged q = absurd (cc)
place_held cancelled q = absurd (cc)

-- Where nothing is active, the first queued command has no other before it.
counts_before-head :
    (repo lo hi : ℕ) (rows : List Command) (r : Command)
    → Ordered lo rows hi
    → count_where (active_in repo) rows ≡ 0
    → find_where (queued_in repo) rows ≡ some r
    → count_where (counts_before repo r.id) rows ≡ 1
unfolding count_where find_where
counts_before-head repo lo hi [] r h idle e = absurd (cc)
counts_before-head repo lo hi (c ∷ rows) r h idle e = elim (Bool-cases (queued_in repo c)) [
  | inl waits ↦
      let same : c ≡ r = some-same (rw (waits, find_where) at e) in
      let (mine, q) = and-true (of_repository repo c) (is_queued c.status) waits in
      ground (
        arith,
        ap (λ (x : Command). x.id) same,
        mine,
        place_held c.status q,
        counts_after-none repo r.id (suc c.id) hi rows
            (omega (arith, ap (λ (x : Command). x.id) same)) h.1,
      )
  | inr other ↦ ground (
    arith,
    place_lost c.status,
    idle,
    other,
    counts_before-head repo (suc c.id) hi rows r h.1 (omega (arith, idle))
        (rw (other, find_where) at e),
  )
]
  where
    some-same : {a b : Command} → some a ≡ some b → a ≡ b
    some-same e = cc

claim_first_lem :
    (repo : ℕ) (s : Store) (now : String) (o : Option Command)
    → find_where (queued_in repo) s.commands ≡ o
    → Ordered 0 s.commands s.next_id
    → repository_has_active_command s repo ≡ false
    → is_queue_paused s repo ≡ false
    → (n : ℕ) (s' : Store) → claim_first o now s ≡ (some n, s')
    → Taken repo s n now s'
unfolding queue_position update_row
claim_first_lem repo s now none e h idle going n s' is =
    absurd (none-some (ap (λ (p : Option ℕ × Store). p.0) is))
  where
    none-some : none ≡ some n → ⊥
    none-some e = absurd (cc)
claim_first_lem repo s now (some row) e h idle going n s' is =
    let (there, passes) = find_where-In (queued_in repo) s.commands e in
    let (mine, waits) = and-true (of_repository repo row) (is_queued row.status) passes in
    let mine : row.repository_id ≡ repo = (nat_eq_iff row.repository_id repo).0 mine in
    record {
      row = row;
      is_row = cc;
      there = there;
      of_repo = mine;
      waits = waits;
      first =
          rw (place_held row.status waits, queue_position)
            (ap some (
              subst (λ q. count_where (counts_before q row.id) s.commands ≡ 1) (sym mine)
                (counts_before-head repo 0 s.next_id s.commands row h
                  (find_where-none (active_in repo) s.commands
                    (unfold repository_has_active_command in idle))
                  e)));
      idle = idle;
      going = going;
      after = cc;
    }

pub claim_transaction-Taken :
    (repo : ℕ) (s : Store) (now : String)
    → Ordered 0 s.commands s.next_id
    → (n : ℕ) (s' : Store) → claim_transaction repo now s ≡ (some n, s')
    → Taken repo s n now s'
unfolding claim_transaction
claim_transaction-Taken repo s now h n s' e =
    elim (Bool-cases (repository_has_active_command s repo)) [
      | inl busy ↦ absurd (cc (rw (busy, claim_transaction) at e))
      | inr idle ↦ elim (Bool-cases (is_queue_paused s repo)) [
        | inl paused ↦ absurd (cc (rw (idle, paused, claim_transaction) at e))
        | inr going ↦
            claim_first_lem repo s now (find_where (queued_in repo) s.commands) refl h idle going n
              s' (rw (idle, going, claim_transaction) at e)
      ]
    ]

claim_first-taken :
    (o : Option Command) (now : String) (s : Store) → is_some (claim_first o now s).0 ≡ is_some o
unfolding update_row
claim_first-taken none now s = refl
claim_first-taken (some c) now s = refl

-- The prober asks has_launchable_command, the transaction decides again, and they agree: a claim
-- takes a command exactly if there is a launchable one.
pub claim_transaction-launchable :
    (repo : ℕ) (now : String) (s : Store)
    → is_some (claim_transaction repo now s).0 ≡ has_launchable_command s repo
unfolding claim_transaction has_launchable_command
claim_transaction-launchable repo now s = elim (Bool-cases (repository_has_active_command s repo)) [
  | inl busy ↦ rw (busy, claim_transaction, has_launchable_command) refl
  | inr idle ↦ elim (Bool-cases (is_queue_paused s repo)) [
    | inl paused ↦ rw (idle, paused, claim_transaction, has_launchable_command) refl
    | inr going ↦
        rw (idle, going, claim_transaction, has_launchable_command)
          (claim_first-taken (find_where (queued_in repo) s.commands) now s)
  ]
]
