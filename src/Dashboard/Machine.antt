-- ===== src/Dashboard/Machine.antt =====
-- What the queue and the launcher work on: the store, the handles of this process's children, and
-- the world; and what they ask of the world.
use draindeck.Base.{ℕ, String, Bool, true, Option, none, some, List}
use draindeck.Base.Json.{ℤ}
use draindeck.Base.Result.{Result, ok, err, not_found}
use draindeck.Base.Action.{Action, return}
use draindeck.Queue.Selection.{IssueSpec}
use draindeck.Recovery.Containment.{ControllerIdentityState}
use draindeck.Dashboard.Commands.{Store, Command, has_id, find_where, queue_position}

-- What `get_configured_issues` (configured_issues.py) returns: the issues with their states.
pub record Configured : Type 0 where
  pub issues_file_revision : String
  pub read_model_status : String
  pub issues : List (IssueSpec × String)
  pub active_issues_outside_file : List String

-- The world's part: files and the read model, git, processes, the clock. `poll` is Popen.poll, of
-- a live handle; `confirmed_run` is the run id hinted on a child's output, if the read model has it.
pub record Machine (World : Type 0) : Type 0 where
  pub get_configured_issues : ℕ → Action World Configured
  pub worktree_clean : Option (ℕ → Action World Bool)
  pub config_path : ℕ → Action World String
  pub auth_mode : String → Action World String
  pub environ : World → List (String × String)
  pub popen : List String → List (String × String) → Action World ℕ
  pub creation_time : ℕ → Action World (Option String)
  pub poll : ℕ → Action World (Option ℤ)
  pub confirmed_run : ℕ → ℕ → Action World (Option String)
  pub probe : Option ℕ → Option String → Action World ControllerIdentityState
  pub runtime_outcome : World → ℕ → String → Option String
  pub now : World → String

-- `live` is _LIVE_PROCESSES: the ids of the commands whose child this process holds.
pub record Desk (World : Type 0) : Type 0 where
  pub store : Store
  pub live : List ℕ
  pub world : World

-- _row_to_command_dict
pub record CommandView : Type 0 where
  pub row : Command
  pub queue_position : Option ℕ
  pub runtime_outcome : Option String

module _ {World : Type 0} (machine : Machine World) where
  -- _resolve_runtime_outcome
  abbrev pub resolve_runtime_outcome : World → ℕ → Option String → Option String
  resolve_runtime_outcome w repo none = none
  resolve_runtime_outcome w repo (some run_id) = machine.runtime_outcome w repo run_id

  unfoldable pub view_of : Desk World → Command → CommandView
  unfolding queue_position
  view_of d c = record {
    row = c;
    queue_position = queue_position d.store c;
    runtime_outcome = resolve_runtime_outcome d.world c.repository_id c.run_id_correlation;
  }

  abbrev pub shown : Desk World → Option Command → Result CommandView
  shown d none = err not_found
  shown d (some c) = ok (view_of d c)

  -- get_command
  unfoldable pub get_command : ℕ → Action (Desk World) CommandView
  unfolding find_where view_of
  get_command n d = (shown d (find_where (has_id n) d.store.commands), d)

  abbrev pub asking {ℓ} : {T : Type ℓ} → Action World T → Action (Desk World) T
  asking f d = let (r, w) = f d.world in (r, record d { world = w })

  abbrev pub reading_clock : Action (Desk World) String
  reading_clock d = (ok (machine.now d.world), d)

  abbrev pub storing : (Store → Store) → Action (Desk World) (Unit {0})
  storing f d = (ok tt, record d { store = f d.store })

  abbrev pub reading {ℓ} : {T : Type ℓ} → (Store → T) → Action (Desk World) T
  reading f d = (ok (f d.store), d)

  -- The worktree preflight, where one is injected.
  abbrev pub clean_worktree : Option (ℕ → Action World Bool) → ℕ → Action (Desk World) Bool
  clean_worktree none repo = return true
  clean_worktree (some preflight) repo = asking (preflight repo)
