-- ===== src/Tasks/Status.antt =====
-- TaskStatus of async_runtime/tasks.py, and the sets of statuses that the program tests for.
use xiao_ming.Prelude.{String, Bool, true, false, Option, none, some, ◌==◌, if◌then◌else◌}

-- The statuses of the Literal, and what else a saved record can hold, for its type is not checked: a
-- value that is none of them, and one whose membership test raises a TypeError, both by their text.
pub data TaskStatus : Type 0 where
  planning waiting running needs_user reported_completed verifying needs_revision : TaskStatus
  needs_user_decision accepted rejected failed blocked cancelled : TaskStatus
  other unhashable : String → TaskStatus

abbrev pub status_text : TaskStatus → String
status_text planning = "planning"
status_text waiting = "waiting"
status_text running = "running"
status_text needs_user = "needs_user"
status_text reported_completed = "reported_completed"
status_text verifying = "verifying"
status_text needs_revision = "needs_revision"
status_text needs_user_decision = "needs_user_decision"
status_text accepted = "accepted"
status_text rejected = "rejected"
status_text failed = "failed"
status_text blocked = "blocked"
status_text cancelled = "cancelled"
status_text (other s) = s
status_text (unhashable s) = s

-- The status of a text; other texts are no TaskStatus.
unfoldable pub status_of : String → Option TaskStatus
status_of s =
    if s == "planning"
    then some planning
    else if s == "waiting"
    then some waiting
    else if s == "running"
    then some running
    else if s == "needs_user"
    then some needs_user
    else if s == "reported_completed"
    then some reported_completed
    else if s == "verifying"
    then some verifying
    else if s == "needs_revision"
    then some needs_revision
    else if s == "needs_user_decision"
    then some needs_user_decision
    else if s == "accepted"
    then some accepted
    else if s == "rejected"
    then some rejected
    else if s == "failed"
    then some failed
    else if s == "blocked"
    then some blocked
    else if s == "cancelled"
    then some cancelled
    else none

-- A status that is a text, as it is saved.
unfoldable pub status_or_other : String → TaskStatus
unfolding status_of
status_or_other s = elim (status_of s) [ some status ↦ status | none ↦ other s ]

-- A list or a dict, for which `in` a set raises a TypeError.
abbrev pub is_unhashable : TaskStatus → Bool
is_unhashable (unhashable s) = true
is_unhashable _ = false

-- The set in TaskRegistry.current and TaskRegistry.active.
abbrev pub is_active : TaskStatus → Bool
is_active planning = true
is_active waiting = true
is_active running = true
is_active needs_user = true
is_active reported_completed = true
is_active verifying = true
is_active needs_revision = true
is_active needs_user_decision = true
is_active _ = false

-- TERMINAL_TASK_STATUSES of coordinator.py
abbrev pub is_terminal : TaskStatus → Bool
is_terminal accepted = true
is_terminal rejected = true
is_terminal failed = true
is_terminal blocked = true
is_terminal cancelled = true
is_terminal _ = false

abbrev pub is_waiting : TaskStatus → Bool
is_waiting waiting = true
is_waiting _ = false

-- The set that _recover_loaded_registry of task_store.py fails after a restart.
abbrev pub is_stale : TaskStatus → Bool
is_stale planning = true
is_stale running = true
is_stale needs_user = true
is_stale reported_completed = true
is_stale verifying = true
is_stale needs_revision = true
is_stale _ = false

-- The set for which _try_start_waiting_locked of coordinator.py keeps a task waiting.
abbrev pub is_busy : TaskStatus → Bool
is_busy planning = true
is_busy running = true
is_busy needs_user = true
is_busy _ = false
