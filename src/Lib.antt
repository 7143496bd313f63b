-- ===== src/Lib.antt =====
-- A verification library for draindeck: the event-sourced core of the runtime, as pure functions
-- over explicit states, and what it promises.
--
-- The program drains a queue of issues with coding agents. Everything it does is an event in an
-- append-only log (src/runtime/events/log.py); its state is a projection that replays the log
-- (src/runtime/events/projections.py). At each start crash recovery (src/runtime/recovery) replays
-- the log and writes the facts that a crash kept from it. The orchestrator (src/runtime/loop.py)
-- then takes one step of one issue after the other. The planner
-- (src/runtime/queue/selection.py) says which selected issues may run, and in which order.
--
-- Parts, with the files of this library that model them:
-- - Base: Python's values. Json has the values of `json.loads`; Dict is a `dict` in insertion order;
--   Result has an exception as a value, one constructor for each class; Action is code that changes
--   a state and may raise, with the state that it leaves. Texts of exceptions are not modelled.
-- - States: `runtime/state` (model.py, transitions.py) is imported by the code but is not in the
--   repository. Its tables are the parameter `Env`, and what docs/03-state-machine-and-event-schema.md
--   and the code's comments say of them the named laws `TerminalLaws`, `CommitLaws`, and `CrashLaws`
--   of Recovery.Effects. Samples has tables as the document draws them, for which the laws hold.
-- - Events.Schema: src/runtime/events/schema.py, types, kinds and the envelope.
-- - Events.Projection: src/runtime/events/projections.py. View has the data and the queries (`view`,
--   `latest_execution`, `attempts`, …), Checks the payload checks (`_need`, `_string`, …), Issues,
--   Executions, Containments and Runs the handlers, Replay the dispatch (`_HANDLERS`, `apply`,
--   `rebuild`). A handler is a function from a projection and an event to a new projection or an
--   exception; a view, which is one mutable object in a dict, is written back under its key. An
--   exception ends a replay, so the half-changed projection behind it is not kept. StepRelation
--   has the abstract step of an event on the executions, Steps and Refinement that every handler
--   refines it; Consistency, Attempts and OneRunning the invariants, by induction on the replay,
--   SpawnOnly and Counting what only ExecutionSpawned changes.
-- - Events.Log: src/runtime/events/log.py. The file is a list of bytes. `Codec` is the parameter for
--   `json.dumps` and `json.loads`, with the laws `ReadBack` and `OneLine`. Codec has `to_line` and
--   `from_line`, Lines the cut of bytes into lines, Replay `_replay` and `_scan_last_event_id`,
--   Append the object (`EventLog`: open, repair, append, close), Durability what holds across them.
-- - Queue: src/runtime/queue/selection.py. Selection has the tests on one issue, Topology
--   `_topological_order` (Kahn's algorithm), Planner `plan_selected` and `plan_run_all`.
-- - Recovery: src/runtime/recovery/reconciler.py. State has the log, the projection, the report and
--   `_emit`, Reconciler `recover`; the functions that it is given (`Seams`: git, liveness, clock) act
--   on any type of worlds. Effects, Orphans, Gate and LogKept have its properties. Containment has
--   src/runtime/recovery/containment.py (`Probes`: the probe of a controller, the clock), Proofs what
--   a reason for a release asks, Release its properties; Bindings has check 2 of src/runtime/recovery/bindings.py over the git adapter's
--   interface, Witness what it returns.
-- - Validation: src/runtime/validation/runner.py in Runner, over the record `Shell` (processes with
--   their log file, the clock, floats); Tries has what was run for a row, Reports what a result says,
--   Overlay the environment.
-- - Loop: src/runtime/loop.py. Choice has the choice of the next issue, and ChoiceSound what it
--   respects; Budget src/runtime/budget/manager.py; Services the configuration and what the loop
--   calls: adapter, engine, validator, reviewer, files, clock (`Services`, over any type of worlds),
--   and Python's library (`Python`); Pack src/runtime/context/pack.py. Emits has `_emit`, Attempt the moves up to a
--   spawn, Work `_execute`, Verdicts `_validate`, `_review` and `_commit_sequence`, Run `step` and `run`. What an
--   engine appends through the callback that it is given is a list in its answer; the loop's
--   `_emit` is recovery's, whose state it shares. Kept, KeptMoves, KeptVerdicts and KeptRun carry a
--   predicate through a whole run, Caps has what it gives, Pinned, Closing and CommitMoves
--   the commit sequence, PackFeedback what a prompt has.
-- - Dashboard: the run-command queue and the launcher of src/draindeck_dashboard. Commands has the
--   tables and the SQL statements on them, Transactions what run_queue.py does in one transaction,
--   RunPlan and RunQueue its operations, Launcher run_launcher.py, Requests the routes of app.py that
--   change the tables. `Machine` is the parameter for files, read model, git, processes and clock;
--   `Desk` has the store, the children held (`_LIVE_PROCESSES`) and the world. Each request is one
--   step, since the event loop serves no other in between; the launch behind an enqueue or a resume is
--   a request of its own. A normalised request is a record, where the code compares its JSON text.
--   Rows has the lemmas on tables, Slots the invariant, Kept, Effects, Served, ServedAnswers,
--   Revalidated and LaunchSlots that each transaction and operation keeps it, Reachable that every
--   run does; ClaimOrder, CancelRace, AckGates, Retries and LaunchEnv have the other properties.
-- - Samples and Tests: inputs, runs of the code, and each theorem at a concrete input.
--
-- Loops are recursion on lists, but for Kahn's algorithm, which has as fuel the number of ids: each
-- round orders one id that was not ordered before; and `run` of the loop, whose fuel is a number of
-- turns, so that what holds for every fuel holds at each point of a run. Numbers are Python's unbounded integers; an
-- indegree is kept with its sign. Floats are data only.
--
-- Not modelled: `StateProjection.digest` (a hash of a JSON text), the lease and its mutex, fsync,
-- threads, the contents of messages, and the parts of the program that are git, processes, HTTP or
-- SQL: the engine, the reviewers, the adapter, the rest of the dashboard and the intake. Of the launcher, the threads that drain a child's streams and their counts are not.
-- Check 3 and preserve_residue of the bindings and the parser of the issue file are not modelled
-- either.
-- The liveness of an execution is a function of its id, which answers the same for a whole recovery.
-- Acknowledging reads the outcome of the correlated run with the command's view, in front of the
-- probe of the child; the code reads it again behind the probe. The overflow of `float` at an integer
-- of more than 308 digits, in a usage, is not modelled.
-- An event whose envelope has a text field of another type is refused by the model's `from_line` as
-- `untyped_field`, where the code keeps the value outside its declared type.
pub mod Base
pub mod States
pub mod Events
pub mod Queue
pub mod Recovery
pub mod Validation
pub mod Loop
pub mod Dashboard
pub mod Samples
pub mod Tests
