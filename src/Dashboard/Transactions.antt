-- ===== src/Dashboard/Transactions.antt =====
-- The transactions of src/draindeck_dashboard/run_queue.py, as functions on the store.
use draindeck.Base.{
  ℕ, suc, String, Bool, true, false, ◌&&◌, Option, none, some, List, [], ◌∷◌, ◌++◌, ◌==◌,
  string_comparable,
}
use draindeck.Queue.Planner.{sort_ids}
use draindeck.Dashboard.Commands.{
  Store, Command, Reason, RunRequest, queued, claimed, refused, completed, launch_ownership_unknown,
  acknowledged, cancelled, restarted_with_claim, acknowledged_by_operator, cancelled_by_operator,
  is_queued, is_claimed, is_abnormal_exit, find_where, update_where, delete_where, has_id,
  of_repository, queued_in, pause_of, is_some, repository_has_active_command, is_queue_paused,
  update_row,
}

abbrev pub list_eq : List String → List String → Bool
list_eq [] [] = true
list_eq (x ∷ xs) (y ∷ ys) = x == y && list_eq xs ys
list_eq _ _ = false

abbrev pub ids_eq : Option (List String) → Option (List String) → Bool
ids_eq none none = true
ids_eq (some xs) (some ys) = list_eq xs ys
ids_eq _ _ = false

-- The comparison of two normalised requests, which the code makes on their JSON texts.
unfoldable pub same_request : RunRequest → RunRequest → Bool
same_request a b =
    a.mode == b.mode && (ids_eq a.issue_ids b.issue_ids && (a.issues_digest == b.issues_digest))

abbrev sorted_ids : Option (List String) → Option (List String)
sorted_ids none = none
sorted_ids (some []) = none
sorted_ids (some (x ∷ xs)) = some (sort_ids (x ∷ xs))

unfoldable pub normalized : String → Option (List String) → String → RunRequest
normalized mode issue_ids expected = record {
  mode = mode;
  issue_ids = sorted_ids issue_ids;
  issues_digest = expected;
}

abbrev pub has_key : ℕ → String → Command → Bool
has_key repo key c = of_repository repo c && (c.idempotency_key == key)

-- The row of an INSERT.
unfoldable pub new_command :
    ℕ → ℕ → String → Option (List String) → String → String → RunRequest → String → Command
new_command n repo mode issue_ids expected key request now = record {
  id = n;
  repository_id = repo;
  mode = mode;
  issue_ids = issue_ids;
  issues_digest = expected;
  idempotency_key = key;
  normalized_request = request;
  status = queued;
  refusal_reason = none;
  process_pid = none;
  process_creation_time = none;
  run_id_correlation = none;
  created_at = now;
  claimed_at = none;
  finished_at = none;
}

unfoldable pub insert_row : (ℕ → Command) → Store → Store
insert_row row s = record s { commands = s.commands ++ row s.next_id ∷ []; next_id = suc s.next_id }

abbrev pub refuse : Reason → String → Command → Command
refuse reason now c = record c {
  status = refused;
  refusal_reason = some reason;
  finished_at = some now;
}

abbrev pub complete : String → Command → Command
complete now c = record c { status = completed; finished_at = some now }

abbrev pub claim : String → Command → Command
claim now c = record c { status = claimed; claimed_at = some now }

abbrev pub lose_ownership : Command → Command
lose_ownership c = record c {
  status = launch_ownership_unknown;
  refusal_reason = some restarted_with_claim;
}

abbrev pub acknowledge : String → Command → Command
acknowledge now c = record c {
  status = acknowledged;
  refusal_reason = some acknowledged_by_operator;
  finished_at = some now;
}

abbrev pub cancel : String → Command → Command
cancel now c = record c {
  status = cancelled;
  refusal_reason = some cancelled_by_operator;
  finished_at = some now;
}

-- INSERT OR IGNORE INTO run_queue_pauses
unfoldable pub add_pause : ℕ → String → ℕ → Store → Store
unfolding is_queue_paused
add_pause repo now n s = record s {
  pauses = elim (is_queue_paused s repo) [
    | true ↦ s.pauses
    | false ↦ (record { repository_id = repo; paused_at = now; cancelled_command = n }) ∷ s.pauses
  ];
}

-- The transaction of the claim: the id that it takes, and the store behind it.
abbrev pub claim_first : Option Command → String → Store → Option ℕ × Store
unfolding update_row
claim_first none now s = (none, s)
claim_first (some next) now s = (some next.id, update_row next.id (claim now) s)

unfoldable pub claim_transaction : ℕ → String → Store → Option ℕ × Store
unfolding repository_has_active_command is_queue_paused find_where update_row
claim_transaction repo now s = elim (repository_has_active_command s repo) [
  | true ↦ (none, s)
  | false ↦ elim (is_queue_paused s repo) [
    | true ↦ (none, s)
    | false ↦ claim_first (find_where (queued_in repo) s.commands) now s
  ]
]

-- The transaction of a cancel: whether it changed the row.
abbrev pub cancellable : ℕ → Command → Bool
cancellable n c = has_id n c && is_queued c.status

unfoldable pub cancel_transaction : ℕ → ℕ → String → Store → Bool × Store
unfolding find_where update_where add_pause
cancel_transaction repo n now s = elim (is_some (find_where (cancellable n) s.commands)) [
  | false ↦ (false, s)
  | true ↦ (
    true,
    add_pause repo now n
        (record s { commands = update_where (cancellable n) (cancel now) s.commands }),
  )
]

abbrev pub acknowledgeable : ℕ → Command → Bool
acknowledgeable n c = has_id n c && is_abnormal_exit c.status

-- The transaction of an acknowledgement.
unfoldable pub acknowledge_transaction : ℕ → String → Store → Store
unfolding update_where
acknowledge_transaction n now s = record s {
  commands = update_where (acknowledgeable n) (acknowledge now) s.commands;
}

-- resume_repository_queue
unfoldable pub resume_repository_queue : ℕ → Store → Store
unfolding delete_where
resume_repository_queue repo s = record s { pauses = delete_where (pause_of repo) s.pauses }

-- delete_commands_for_repository
unfoldable pub delete_commands_for_repository : ℕ → Store → Store
unfolding delete_where
delete_commands_for_repository repo s = record s {
  commands = delete_where (of_repository repo) s.commands;
  pauses = delete_where (pause_of repo) s.pauses;
}

-- reconcile_ambiguous_claims_on_startup
unfoldable pub reconcile_ambiguous_claims : Store → Store
unfolding update_where
reconcile_ambiguous_claims s = record s {
  commands = update_where (λ c. is_claimed c.status) lose_ownership s.commands;
}
