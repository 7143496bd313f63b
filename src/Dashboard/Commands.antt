-- ===== src/Dashboard/Commands.antt =====
-- The tables `run_commands` and `run_queue_pauses` (src/draindeck_dashboard/migrations.py), and the
-- statements that src/draindeck_dashboard/run_queue.py makes of them. Rows stand in the order of
-- their ids, which SQLite hands out and never again.
use draindeck.Base.{
  ℕ, ◌+◌, String, Bool, true, false, ◌&&◌, Option, none, some, List, [], ◌∷◌, nat_eq, leb,
  string_comparable, if◌then◌else◌,
}
use draindeck.Base.Json.{ℤ}
use draindeck.Base.Result.{Error}

pub data Status : Type 0 where
  queued claimed launched launch_failed launch_ownership_unknown refused completed abnormal_exit
        acknowledged cancelled :
      Status

-- The texts of `refusal_reason`, each with what its f-string shows.
pub data Reason : Type 0 where
  raised : Error → Reason
  invalid_at_dequeue dirty_at_dequeue restarted_with_claim acknowledged_by_operator
        cancelled_by_operator not_started exited_unobserved :
      Reason
  exited_with : ℤ → Reason

-- The request as it is normalised for the idempotency key.
pub record RunRequest : Type 0 where
  pub mode : String
  pub issue_ids : Option (List String)
  pub issues_digest : String

pub record Command : Type 0 where
  pub id : ℕ
  pub repository_id : ℕ
  pub mode : String
  pub issue_ids : Option (List String)
  pub issues_digest : String
  pub idempotency_key : String
  pub normalized_request : RunRequest
  pub status : Status
  pub refusal_reason : Option Reason
  pub process_pid : Option ℕ
  pub process_creation_time : Option String
  pub run_id_correlation : Option String
  pub created_at : String
  pub claimed_at : Option String
  pub finished_at : Option String

pub record Pause : Type 0 where
  pub repository_id : ℕ
  pub paused_at : String
  pub cancelled_command : ℕ

-- `next_id` is what AUTOINCREMENT gives next.
pub record Store : Type 0 where
  pub commands : List Command
  pub pauses : List Pause
  pub next_id : ℕ

abbrev pub empty_store : Store
empty_store = record { commands = []; pauses = []; next_id = 1 }

abbrev pub is_queued : Status → Bool
is_queued queued = true
is_queued _ = false

abbrev pub is_claimed : Status → Bool
is_claimed claimed = true
is_claimed _ = false

abbrev pub is_launched : Status → Bool
is_launched launched = true
is_launched _ = false

abbrev pub is_abnormal_exit : Status → Bool
is_abnormal_exit abnormal_exit = true
is_abnormal_exit _ = false

abbrev pub is_acknowledged : Status → Bool
is_acknowledged acknowledged = true
is_acknowledged _ = false

-- _BLOCKING_STATUSES
abbrev pub is_blocking : Status → Bool
is_blocking claimed = true
is_blocking launched = true
is_blocking launch_ownership_unknown = true
is_blocking abnormal_exit = true
is_blocking _ = false

-- SELECT … WHERE test LIMIT 1, on rows in the order of their ids
unfoldable pub find_where {ℓ} : {R : Type ℓ} → (R → Bool) → List R → Option R
find_where test [] = none
find_where test (r ∷ rs) = elim (test r) [ true ↦ some r | false ↦ find_where test rs ]

-- SELECT COUNT(*) … WHERE test
unfoldable pub count_where {ℓ} : {R : Type ℓ} → (R → Bool) → List R → ℕ
count_where test [] = 0
count_where test (r ∷ rs) = (if test r then 1 else 0) + count_where test rs

-- UPDATE … SET change WHERE test
unfoldable pub update_where {ℓ} : {R : Type ℓ} → (R → Bool) → (R → R) → List R → List R
update_where test change [] = []
update_where test change (r ∷ rs) = (if test r then change r else r) ∷ update_where test change rs

-- DELETE … WHERE test
unfoldable pub delete_where {ℓ} : {R : Type ℓ} → (R → Bool) → List R → List R
delete_where test [] = []
delete_where test (r ∷ rs) = let rest = delete_where test rs in if test r then rest else r ∷ rest

abbrev pub has_id : ℕ → Command → Bool
has_id n c = nat_eq c.id n

abbrev pub of_repository : ℕ → Command → Bool
of_repository repo c = nat_eq c.repository_id repo

abbrev pub active_in : ℕ → Command → Bool
active_in repo c = of_repository repo c && is_blocking c.status

abbrev pub queued_in : ℕ → Command → Bool
queued_in repo c = of_repository repo c && is_queued c.status

abbrev pub pause_of : ℕ → Pause → Bool
pause_of repo p = nat_eq p.repository_id repo

abbrev pub is_some {ℓ} : {A : Type ℓ} → Option A → Bool
is_some none = false
is_some (some _) = true

-- repository_has_active_command
unfoldable pub repository_has_active_command : Store → ℕ → Bool
unfolding find_where
repository_has_active_command s repo = is_some (find_where (active_in repo) s.commands)

-- is_queue_paused
unfoldable pub is_queue_paused : Store → ℕ → Bool
unfolding find_where
is_queue_paused s repo = is_some (find_where (pause_of repo) s.pauses)

-- has_launchable_command
unfoldable pub has_launchable_command : Store → ℕ → Bool
unfolding repository_has_active_command is_queue_paused find_where
has_launchable_command s repo = elim (repository_has_active_command s repo) [
  | true ↦ false
  | false ↦ elim (is_queue_paused s repo) [
    | true ↦ false
    | false ↦ is_some (find_where (queued_in repo) s.commands)
  ]
]

abbrev pub holds_place : Status → Bool
holds_place queued = true
holds_place claimed = true
holds_place _ = false

abbrev pub counts_before : ℕ → ℕ → Command → Bool
counts_before repo n c = of_repository repo c && (holds_place c.status && leb c.id n)

-- `queuePosition` of _row_to_command_dict
unfoldable pub queue_position : Store → Command → Option ℕ
unfolding count_where
queue_position s c = elim (holds_place c.status) [
  | true ↦ some (count_where (counts_before c.repository_id c.id) s.commands)
  | false ↦ none
]

-- One row is changed, by its id.
unfoldable pub update_row : ℕ → (Command → Command) → Store → Store
unfolding update_where
update_row n change s = record s { commands = update_where (has_id n) change s.commands }
