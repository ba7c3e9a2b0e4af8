-- ===== src/Lib.antt =====
-- Kirakira, a personal agent that runs as an online service: a model of the parts that keep its
-- promises across workers, crashes and reloads, and the theorems that they keep them.
--
-- The service stores everything that must survive a process in one database, which `CloudStore`
-- (cloud/store.py, on the tables of cloud/models.py) writes in transactions. An API process
-- submits a user's message and queues a run for it; workers claim runs, renew their leases,
-- record events, fence the side effects of tool calls by checkpoints, and complete, fail or
-- cancel the runs; a reaper gives the runs of lost workers back to the queue. In a process,
-- `RuntimeSnapshotStore` (agent/plugins/snapshot.py) keeps the capabilities that a turn sees
-- while plugins are replaced, `PluginGenerationRegistry` (agent/plugins/generation.py) does the
-- same for each plugin, `ReloadJournal` (agent/plugins/reload_journal.py) records each
-- replacement so that a new process can recover, `ChatLane` (bus/queue.py) orders what is sent to
-- one chat, and `RestartCoordinator` (agent/restart.py) lets a turn ask for a restart that
-- happens only once the turn has ended and its answer is delivered; the phases of a turn run
-- modules in the order that agent/lifecycle/phase.py sorts them; `ToolExecutor`
-- (agent/tool_hooks) makes a tool call between hooks, of which `CloudToolCheckpointHook`
-- (cloud/tool_checkpoints.py) keeps a call that was begun in the store from being made again; and
-- `SchedulerService` (agent/scheduler.py) publishes messages at their times. A subagent's work is
-- a job in the store with a lease of its own, and so is the delivery of a message to a linked
-- chat, which `ChannelDeliveryWorker` (cloud/channel_gateway.py) sends.
--
-- Files. Store.antt holds the tables (`Run`, `RunEvent`, `Conversation`, `Message`,
-- `ChannelLink`, `ChannelDelivery`, `AgentAutomation`, `UserFile`; together `Db`) and what the
-- transactions share: `append_run_event` is `_append_run_event`, `enqueue_channel_deliveries` is
-- `_enqueue_channel_deliveries`. Store/Runs.antt has the methods `claim_next_run`,
-- `heartbeat_run`, `complete_run`, `cancel_owned_run`, `fail_run`, `request_cancel`, `get_run`,
-- `list_run_events` and `append_runtime_run_event`, each under its own name; Store/Reaper.antt
-- `requeue_expired_runs`; Store/Submit.antt `append_user_message_and_run` as `submit`.
-- Store/Valid.antt states the invariant; Store/Invariant, Claim, Completion, Recovery,
-- Submission, Idempotency, Retry, Steps, Cancelling and Cancellation prove what the transactions
-- keep and give. Store/Checkpoints.antt has `begin_tool_checkpoint` and `finish_tool_checkpoint`,
-- Store/RateLimit.antt `consume_rate_limit`, with their proofs in Fence.antt and Window.antt.
-- Restart.antt is agent/restart.py, with Restart/Invariant.antt and Restart/Handshake.antt.
-- Snapshot.antt is the store and the leases of agent/plugins/snapshot.py, with
-- Snapshot/Invariant, Switch, Leases and Drain. ReloadJournal.antt is
-- agent/plugins/reload_journal.py with the recovery of `PluginManager.load_all`
-- (agent/plugins/manager.py) in ReloadJournal/Loading as `recover_all`, with
-- ReloadJournal/Recovery, Loops, Startup and History. Store/Deliveries.antt has
-- `claim_channel_delivery` and `finish_channel_delivery` of cloud/store.py and
-- `ChannelDeliveryWorker.run_once` (cloud/channel_gateway.py), with Store/Deliveries/Rounds,
-- Drained, Calls and Exclusive. Store/Subagents.antt has `create_subagent_job`,
-- `cancel_subagent_job`, `claim_next_subagent_job`, `claim_subagent_job`,
-- `heartbeat_subagent_job` and `finish_subagent_job` of cloud/store.py, with
-- Store/Subagents/Moves, Requeue, Changes and Fate. Generation.antt is
-- agent/plugins/generation.py, with Generation/Counts and Leases. ChatLane.antt is `ChatLane` of
-- bus/queue.py for one chat, with ChatLane/Tickets, Invariant and Order. Phase.antt is the
-- dependency graph of agent/lifecycle/phase.py, with Phase/Active, Links, Ordered, Loop, Plan and
-- Sorted. Hooks.antt is agent/tool_hooks/__init__.py, with Hooks/Execute, and Hooks/Cloud is
-- cloud/tool_checkpoints.py on top of it and of Store/Checkpoints; Hooks/Rules, Fenced, Once,
-- Passing, Ending and Replay are their proofs. Scheduler.antt is the jobs of agent/scheduler.py,
-- Scheduler/Asked its `schedule` with the texts of Scheduler/Duration, Scheduler/Service the
-- whole service as a step relation, with Service/Changes, Capacity, Rows, RunsLeft, Budget and
-- Recovery. Prelude.antt and its children hold tables, lists, text, integers and JSON values;
-- Samples.antt and its children apply the theorems at concrete inputs.
--
-- State and operations. A method is a function from its arguments and the state to its answer and
-- the state; an exception is an error value. A transaction that fails leaves the tables as they
-- were. A UUID, a reference to a Python object and an instant are natural numbers; `utc_now()`,
-- `uuid4()` and the clock are arguments. A table is a list of rows in the order of their
-- insertion. What another transaction may do between a read and a commit is an argument as well:
-- `seen` are the rows that a query without a lock read, `locked` the rows that SKIP LOCKED passes
-- over, and the unique indexes are tested at the commit, on the rows as they are then. Python's
-- integers that may be negative are `ℤ`; the rest of the arithmetic is on natural numbers, where
-- a subtraction is of a number that is not greater, or the source clamps it at 0. Text is cut,
-- stripped and compared by code points.
--
-- Bounds. The loops of the modelled code run over a list and are structural recursion, except
-- these. The loop of `_skip_cancelled_non_passive` is recursion on the number of cancelled
-- tickets, since each round removes one. The two attempts of `consume_rate_limit` are written
-- out. Four loops take fuel. `active_from` (the cascade of `_active_module_slots`) has one round
-- more than there are modules, since each round but the last disables one; `run_queue` (the queue
-- of `topo_sort_modules`) has a round for each module; `past` (`while next_time <= now`) has now
-- - next_time + 2 rounds, since a step is at least a second; for these a theorem of their
-- component says that the fuel does not run out. `show_from`, the decimal text of a count in a
-- message, has as many rounds as the number, which has no more digits than that.
--
-- What is a parameter: the outcome of the restart commit channel; the tool hooks and the tool of
-- a call, which act on a state and may raise; the digest of a tool call's arguments, the reading
-- of a UUID and the texts of exceptions; dates, time zones, `lower()` and the digits of a text
-- (`Calendar`); the next time of a cron expression (`CronFire`); the text of a random id; what
-- plugins are installed and what their activation comes to; the sending of a message to a chat.
-- What is left out: the database's own isolation beyond the reads above, the calls of `on_drain`
-- that fail, the binding of a lease to an asyncio task, and the parts of the program that are
-- input and output, model calls or assembly.
mod Prelude
pub mod Restart
pub mod Store
pub mod Snapshot
pub mod ReloadJournal
pub mod Generation
pub mod ChatLane
pub mod Phase
pub mod Hooks
pub mod Scheduler
mod Samples
