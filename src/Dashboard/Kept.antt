-- ===== src/Dashboard/Kept.antt =====
-- Every transaction of the queue and the launcher keeps the invariant of the tables.
use draindeck.Base.{
  ℕ, String, Bool, and-true, true, false, Option, none, some, List, [], ◌∷◌, ◌≡◌, refl, sym, ap,
  subst, arith, nat_eq, nat_eq_iff, Bool-cases, inl, inr, ◌==◌, ==_iff, string_comparable,
}
use draindeck.Base.Lists.{In}
use draindeck.Dashboard.Commands.{
  Store, Command, is_blocking, is_queued, is_claimed, active_in, of_repository, queued_in, has_id,
  is_some, find_where, count_where, update_row, repository_has_active_command, is_queue_paused,
  queued,
}
use draindeck.Dashboard.Transactions.{
  has_key, insert_row, claim, lose_ownership, acknowledge, cancel, add_pause, claim_first,
  claim_transaction, cancellable, cancel_transaction, acknowledgeable, acknowledge_transaction,
  resume_repository_queue, delete_commands_for_repository, reconcile_ambiguous_claims,
}
use draindeck.Dashboard.Rows.{
  Ordered, Ordered-unique, Ordered-update, Ordered-snoc, count_where-update_le, count_where-append,
  count_where-update_row_le, find_where-none, find_where-In,
}
use draindeck.Dashboard.Slots.{Slots, Quiet, update-Slots, delete-Slots}

-- A change that leaves every command outside the active ones.
pub released-Quiet :
    (rows : List Command) (t : Command → Bool) (f : Command → Command)
    → ((c : Command) → (f c).id ≡ c.id)
    → ((c : Command) → (f c).repository_id ≡ c.repository_id)
    → ((c : Command) → (f c).idempotency_key ≡ c.idempotency_key)
    → ((c : Command) → is_blocking (f c).status ≡ false)
    → Quiet rows t f
released-Quiet rows t f i r k off = record {
  id = i;
  repository = r;
  key = k;
  quiet = λ c m hit on. cc (off c, on);
}

pub update_row-Slots :
    (s : Store) (n : ℕ) (f : Command → Command)
    → Quiet s.commands (has_id n) f
    → Slots s
    → Slots (update_row n f s)
unfolding update_row
update_row-Slots s n f q h = update-Slots s (has_id n) f q h

-- An INSERT of a queued row whose key is free.
pub insert_row-Slots :
    (s : Store) (row : ℕ → Command)
    → ((n : ℕ) → (row n).id ≡ n)
    → ((n : ℕ) → (row n).status ≡ queued)
    → is_some (
        find_where
          (has_key (row s.next_id).repository_id (row s.next_id).idempotency_key)
          s.commands)
      ≡ false
    → Slots s
    → Slots (insert_row row s)
unfolding insert_row count_where
insert_row-Slots s row is_id is_queued_row free h = record {
  ordered = Ordered-snoc 0 s.next_id s.commands (row s.next_id) (is_id s.next_id) h.ordered;
  one_active = λ repo. ground (
    arith,
    count_where-append (active_in repo) s.commands (row s.next_id ∷ []),
    is_queued_row s.next_id,
    h.one_active repo,
  );
  one_key = λ repo key. elim (Bool-cases (has_key repo key (row s.next_id))) [
    | inl same ↦ ground (
      arith,
      count_where-append (has_key repo key) s.commands (row s.next_id ∷ []),
      taken_by_none repo key same,
    )
    | inr other ↦ ground (
      arith,
      count_where-append (has_key repo key) s.commands (row s.next_id ∷ []),
      h.one_key repo key,
    )
  ];
}
  where
    taken_by_none :
        (repo : ℕ) (key : String)
        → has_key repo key (row s.next_id) ≡ true
        → count_where (has_key repo key) s.commands ≡ 0
    taken_by_none repo key same =
        let new = row s.next_id in
        let (r, k) = and-true (of_repository repo new) (new.idempotency_key == key) same in
        subst (λ q. count_where (has_key q key) s.commands ≡ 0)
          ((nat_eq_iff new.repository_id repo).0 r)
          (subst (λ q. count_where (has_key new.repository_id q) s.commands ≡ 0)
            ((==_iff new.idempotency_key key).0 k)
            (find_where-none (has_key new.repository_id new.idempotency_key) s.commands free))

claim_first-Slots :
    (s : Store) (repo : ℕ) (now : String) (o : Option Command)
    → find_where (queued_in repo) s.commands ≡ o
    → repository_has_active_command s repo ≡ false
    → Slots s
    → Slots (claim_first o now s).1
unfolding update_row
claim_first-Slots s repo now none e idle h = h
claim_first-Slots s repo now (some next) e idle h = record {
  ordered =
      Ordered-update 0 s.next_id (has_id next.id) (claim now) s.commands (λ c. refl) h.ordered;
  one_active = λ r. elim (Bool-cases (nat_eq r repo)) [
    | inl same ↦
        let none_active =
          subst (λ q. count_where (active_in q) s.commands ≡ 0) (sym ((nat_eq_iff r repo).0 same))
            (find_where-none (active_in repo) s.commands
              (unfold repository_has_active_command in idle)) in
        omega (
          arith,
          none_active,
          count_where-update_row_le (active_in r) next.id 0 s.next_id (claim now) s.commands
              h.ordered,
        )
    | inr other ↦ omega (
      arith,
      h.one_active r,
      count_where-update_le (active_in r) (has_id next.id) (claim now) s.commands
          (λ c m hit on. elsewhere r c other m hit on),
    )
  ];
  one_key = λ r key. omega (
    arith,
    h.one_key r key,
    count_where-update_le (has_key r key) (has_id next.id) (claim now) s.commands
        (λ c m hit on. on),
  );
}
  where
    elsewhere :
        (r : ℕ) (c : Command)
        → nat_eq r repo ≡ false
        → In c s.commands
        → has_id next.id c ≡ true
        → active_in r (claim now c) ≡ true
        → active_in r c ≡ true
    elsewhere r c other m hit on =
        let (there, queued_there) = find_where-In (queued_in repo) s.commands e in
        let same =
          Ordered-unique 0 s.next_id s.commands c next h.ordered m there
            ((nat_eq_iff c.id next.id).0 hit) in
        let (mine, _) = and-true (of_repository repo next) (is_queued next.status) queued_there in
        let (its, _) = and-true (of_repository r c) true on in
        absurd (
          ground (
            arith,
            nat_eq_iff r repo,
            nat_eq_iff next.repository_id repo,
            nat_eq_iff c.repository_id r,
            ap (λ (x : Command). x.repository_id) same,
          ))

pub claim_transaction-Slots :
    (s : Store) (repo : ℕ) (now : String) → Slots s → Slots (claim_transaction repo now s).1
unfolding claim_transaction
claim_transaction-Slots s repo now h = elim (Bool-cases (repository_has_active_command s repo)) [
  | inl busy ↦ rw (busy, claim_transaction) h
  | inr idle ↦ elim (Bool-cases (is_queue_paused s repo)) [
    | inl paused ↦ rw (idle, paused, claim_transaction) h
    | inr going ↦
        rw (idle, going, claim_transaction)
          (claim_first-Slots s repo now (find_where (queued_in repo) s.commands) refl idle h)
  ]
]

-- A change of a row that is active already.
pub active-Quiet :
    (s : Store) (row : Command) (f : Command → Command)
    → ((c : Command) → (f c).id ≡ c.id)
    → ((c : Command) → (f c).repository_id ≡ c.repository_id)
    → ((c : Command) → (f c).idempotency_key ≡ c.idempotency_key)
    → Ordered 0 s.commands s.next_id
    → In row s.commands
    → is_blocking row.status ≡ true
    → Quiet s.commands (has_id row.id) f
active-Quiet s row f i r k ordered there active = record {
  id = i;
  repository = r;
  key = k;
  quiet = λ c m hit on.
      let same =
        Ordered-unique 0 s.next_id s.commands c row ordered m there
          ((nat_eq_iff c.id row.id).0 hit) in
      cc (same, active);
}

pub add_pause-Slots :
    (s : Store) (repo : ℕ) (now : String) (n : ℕ) → Slots s → Slots (add_pause repo now n s)
unfolding add_pause
add_pause-Slots s repo now n h = record {
  ordered = h.ordered;
  one_active = h.one_active;
  one_key = h.one_key;
}

pub cancel_transaction-Slots :
    (s : Store) (repo n : ℕ) (now : String) → Slots s → Slots (cancel_transaction repo n now s).1
unfolding cancel_transaction
cancel_transaction-Slots s repo n now h =
    elim (Bool-cases (is_some (find_where (cancellable n) s.commands))) [
      | inr gone ↦ rw (gone, cancel_transaction) h
      | inl waits ↦
          rw (waits, cancel_transaction)
            (add_pause-Slots _ repo now n (
              update-Slots s (cancellable n) (cancel now)
                (released-Quiet s.commands (cancellable n) (cancel now) (λ c. refl) (λ c. refl)
                  (λ c. refl) (λ c. refl))
                h))
    ]

pub acknowledge_transaction-Slots :
    (s : Store) (n : ℕ) (now : String) → Slots s → Slots (acknowledge_transaction n now s)
unfolding acknowledge_transaction
acknowledge_transaction-Slots s n now h =
    update-Slots s (acknowledgeable n) (acknowledge now)
      (released-Quiet s.commands (acknowledgeable n) (acknowledge now) (λ c. refl) (λ c. refl)
        (λ c. refl) (λ c. refl))
      h

pub resume-Slots : (s : Store) (repo : ℕ) → Slots s → Slots (resume_repository_queue repo s)
unfolding resume_repository_queue
resume-Slots s repo h = record {
  ordered = h.ordered;
  one_active = h.one_active;
  one_key = h.one_key;
}

pub delete_commands-Slots :
    (s : Store) (repo : ℕ) → Slots s → Slots (delete_commands_for_repository repo s)
unfolding delete_commands_for_repository
delete_commands-Slots s repo h =
    let k = delete-Slots s (of_repository repo) h in
    record { ordered = k.ordered; one_active = k.one_active; one_key = k.one_key }

pub reconcile_claims-Slots : (s : Store) → Slots s → Slots (reconcile_ambiguous_claims s)
unfolding reconcile_ambiguous_claims
reconcile_claims-Slots s h =
    update-Slots s (λ c. is_claimed c.status) lose_ownership
      (record {
        id = λ c. refl;
        repository = λ c. refl;
        key = λ c. refl;
        quiet = λ c m hit on. ground arith;
      })
      h
