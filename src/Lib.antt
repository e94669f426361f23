-- ===== src/Lib.antt =====
-- XiaoMing is a coding agent for the terminal. A main agent talks to the user; a coordinator hands
-- tasks to background workers, which run tools in the workspace under a permission engine, lease the
-- files they write, report their results for review, and talk to the main agent through a mailbox.
-- This library models those parts and proves what they promise each other.
--
-- The parts, the code they model, and the files here:
--   Permissions      src/xiaoming/permissions/{types,rules,engine,store}.py and
--                    src/xiaoming/policy/{shell_policy,paths}.py. Types, Rules, Shell (tokens and
--                    segments of a command), Engine (PermissionEngine), Policy, Store (the project's
--                    rules as JSON). Segments, Downloads, Severity, Modes, Files and Denials prove.
--                    The lexer shlex, fnmatchcase, the workspace and the resolution of paths are the
--                    fields of Engine.Platform, about which nothing is assumed.
--   Leases           src/xiaoming/async_runtime/leases.py. Server is WriteLeaseServer, whose lock makes
--                    each method one step; Client is FileWriteLeaseClient, over the lease directory as
--                    a dictionary from file names to tasks; sha256 is a parameter. Exclusion, Trace,
--                    Refinement and Sharing prove.
--   Tasks            src/xiaoming/async_runtime/tasks.py, agents.py, task_store.py, and the data of
--                    context_packets.py. Status, Spec, Report, Agents, Packet and Record are the data
--                    with to_dict and from_dict; Registry is TaskRegistry; Registry/Recovery is
--                    TaskStore.load_registry and _recover_loaded_registry.
--   Memory           src/xiaoming/memory/models.py: the records of the memory with their payloads. And
--                    memory/packetizer.py: Packetizer splits the fragments of a day; Cover proves.
--   Context          src/xiaoming/context/truncation.py and windows.py: the middle of a text that is too long,
--                    and the windows of models.
--   Coordinator      src/xiaoming/async_runtime/coordinator.py, events.py, protocol.py, and the records of
--                    external_sessions.py (External). State is the state of AsyncCoordinator with its
--                    notices and its saving; Services what it calls; Fork the history that a worker
--                    is forked with; Start the start of workers and of waiting tasks; Review the verdicts
--                    and revisions; Reports, Verifiers and Questions the handlers of reports, of verifier
--                    workers' events and of questions; Handling is _handle_worker_event_locked and the
--                    loop around it; Cancel the cancelling of tasks; Commands the user's answers; Scheduler is
--                    scheduler.py, Decisions _apply_decision_locked; Events is WorkerEvent with its JSON.
--                    Frame and its children prove what a handler leaves alone, Ended that a task that
--                    has ended stays so, Reachable that each operation saves what it changes, Fork/Complete
--                    that a forked history has the outputs of its calls, Commands/Replies that a
--                    question is answered once.
--   Mailbox          src/xiaoming/async_runtime/mailbox.py. Message, Store (the methods that change
--                    messages, and the snapshot) and Views (what the main agent is shown).
--   Prelude, Json    dictionaries in the order of insertion, texts, lists and tests shared by the
--                    parts; JSON values, and the coercions of the readers of saved data. What these
--                    take from the Python runtime (str of a value that is no text, json.loads,
--                    ast.literal_eval, int of other values) are the fields of Json.Python.
--
-- How they interact: the coordinator keeps the Tasks.Registry, sends words to the workers, and applies
-- the reports of Tasks.Report; the mailbox's views take the titles of tasks from the registry; the task
-- store saves the dicts of Tasks and Mailbox and reads them back after a restart; the policy asks the
-- permission engine, and the readers of all saved data go through Json.
--
-- Conventions: the time and new ids are arguments of the operations that take them. A raised exception
-- is `error` or `none`. A set of texts is a list whose order is not observed. Numbers that the program
-- counts are natural numbers; a negative limit counts as 0. All loops are over finite lists, by
-- structural recursion, but for one: the split of fragments into packets, whose fuel is one more than
-- the number of fragments, as each part is shorter than the whole. Each Samples file applies the
-- theorems to concrete values.
--
-- Each handler of the coordinator takes the services as they answer at its time (the clock, new ids, the
-- verifier, the decider of questions); its lock makes it one step. The objects that the program shares
-- between the registry and a handler are changed in place by the source, and put into the registry at
-- each change by the model, under the task_id that no handler changes.
--
-- Not modelled: of the coordinator, the talk with peers, the following of a task and the texts for the user,
-- the configuration of a worker's process, and the reading of a verifier's message by regular expressions;
-- the building of context packets, the agent loop and the rest of the conversation's context, the tools, the
-- memory's dream runs, sessions, checkpoints and skills; and, since
-- they are input and output only, the language model's providers, the prompts, the worker processes, the
-- terminal, hooks, logging and the evaluations. The reading and writing of a file is its value before and
-- after. Values of unexpected JSON types in saved data are modelled only where the comment of a reader says
-- so.
pub mod Prelude
pub mod Json
pub mod Leases
pub mod Tasks
pub mod Memory
pub mod Coordinator
pub mod Mailbox
pub mod Permissions
pub mod Context
