-- ===== src/Coordinator/Scheduler.antt =====
-- async_runtime/scheduler.py: the decisions of the scheduler, read from the answer of a language model.
-- The model's answer to each attempt is a parameter; a timeout is an error of it.
pub mod Validated
use xiao_ming.Prelude.{
  ℕ, zero, suc, ◌+◌, String, Bool, true, false, not, ◌&&◌, ◌||◌, Option, none, some, List, [], ◌∷◌,
  ◌++◌, map, ◌==◌, if◌then◌else◌, any, contains, keep, concat, join, strip, split, Result, ok,
  error, ◌>>=◌, guard, ◌>>◌, eqb,
}
use Prim.Native.Char.{Char, code}
use xiao_ming.Json
use xiao_ming.Json.{Value, null, str, arr, obj, num, Fields, Python, text, text_or, truthy, to_list}
use xiao_ming.Tasks.Status.{TaskStatus, planning, running, needs_user, reported_completed}
use xiao_ming.Tasks.Record.{TaskRecord, set_of}
use xiao_ming.Tasks.Registry
use xiao_ming.Tasks.Registry.{TaskRegistry}

pub data DecisionAction : Type 0 where
  start_new_task attach_to_task queue_task ask_user reject_duplicate cancel_and_restart chat_reply :
      DecisionAction

pub record SchedulerDecision : Type 0 where
  pub action : DecisionAction
  pub user_intent : String
  pub task_title : String
  pub visible_message : String
  pub reason : String
  pub target_task_id : Option String
  pub affected_files : List String
  pub affected_modules : List String
  pub domains : List String
  pub conflict_task_ids : List String
  pub duplicate_task_ids : List String

abbrev pub action_text : DecisionAction → String
action_text start_new_task = "start_new_task"
action_text attach_to_task = "attach_to_task"
action_text queue_task = "queue_task"
action_text ask_user = "ask_user"
action_text reject_duplicate = "reject_duplicate"
action_text cancel_and_restart = "cancel_and_restart"
action_text chat_reply = "chat_reply"

-- The action of a text; other texts are no action.
unfoldable pub action_of : String → Option DecisionAction
action_of s =
    if s == "start_new_task"
    then some start_new_task
    else if s == "attach_to_task"
    then some attach_to_task
    else if s == "queue_task"
    then some queue_task
    else if s == "ask_user"
    then some ask_user
    else if s == "reject_duplicate"
    then some reject_duplicate
    else if s == "cancel_and_restart"
    then some cancel_and_restart
    else if s == "chat_reply"
    then some chat_reply
    else none

-- An action that is a list or a dict raises a TypeError, which is an error as well.
unfoldable pub read_action : Option Value → Result DecisionAction
unfolding action_of
read_action (some (str s)) = elim (action_of s) [
  | some action ↦ ok action
  | none ↦ error (concat ("invalid scheduler action: " ∷ s ∷ []))
]
read_action value = error "invalid scheduler action"

-- _string_set
unfoldable pub string_set : Python → Option Value → List String
string_set python (some (arr items)) =
    set_of (keep (λ s. not (s == "")) (map (text python) (to_list items)))
string_set python value = []

-- text[:n]
abbrev pub first : ℕ → String → String
first zero s = String.[]
first (suc n) String.[] = String.[]
first (suc n) (String.◌∷◌ c s) = String.◌∷◌ c (first n s)

-- _title
unfoldable pub title : String → String
unfolding split join
title message =
    let start = first 24 (join " " (split message)) in if start == "" then "后台任务" else start

-- What stands from the first "{" on.
abbrev from_brace : String → Option String
from_brace String.[] = none
from_brace (String.◌∷◌ c s) =
    let rest = from_brace s in if eqb (code c) 123 then some (String.◌∷◌ c s) else rest

-- What stands up to the last "}", with it.
abbrev to_brace : String → Option String
to_brace String.[] = none
to_brace (String.◌∷◌ c s) = elim (to_brace s) [
  | some kept ↦ some (String.◌∷◌ c kept)
  | none ↦ if eqb (code c) 125 then some (String.◌∷◌ c String.[]) else none
]

-- _extract_json_object: from the first "{" to the last "}" behind it
unfoldable pub extract_json_object : String → Result String
unfolding strip
extract_json_object message = elim (from_brace (strip message)) [
  | none ↦ error "scheduler response did not contain a JSON object"
  | some opened ↦ elim (to_brace opened) [
    | none ↦ error "scheduler response did not contain a JSON object"
    | some object ↦ ok object
  ]
]

-- A status of a task that another one can wait for.
abbrev pub can_conflict : TaskStatus → Bool
can_conflict planning = true
can_conflict running = true
can_conflict needs_user = true
can_conflict reported_completed = true
can_conflict _ = false

-- The conflicting tasks of a decision that are active.
abbrev pub is_valid_conflict : SchedulerDecision → TaskRecord → Bool
is_valid_conflict decision task =
    contains decision.conflict_task_ids task.task_id && can_conflict task.status

-- The checks of _validate_scheduler_decision, by the action.
unfoldable pub validate_action :
    DecisionAction → SchedulerDecision → TaskRegistry → Result (Unit {0})
unfolding Registry.active strip
validate_action queue_task decision registry =
    guard (any (is_valid_conflict decision) (Registry.active registry))
      "queue_task requires conflict_task_ids containing at least one active conflicting task id"
    >> guard (not (strip decision.reason == ""))
        "queue_task requires a reason explaining the exact conflict"
validate_action action decision registry = ok tt

-- _validate_scheduler_decision
unfoldable pub validate_scheduler_decision : SchedulerDecision → TaskRegistry → Result (Unit {0})
unfolding validate_action
validate_scheduler_decision decision registry = validate_action decision.action decision registry

-- parsed.get("visible_message"), stripped
abbrev pub visible : Option Value → Result String
unfolding strip
visible (some (str s)) =
    if strip s == "" then error "scheduler response missing visible_message" else ok (strip s)
visible value = error "scheduler response missing visible_message"

-- parsed.get("target_task_id") or None, for a text or null
abbrev target : Python → Option Value → Option String
target python none = none
target python (some v) = if truthy v then some (text python v) else none

-- The decision of an action, a visible message and the other fields.
unfoldable pub decision_with :
    Python → Fields → String → DecisionAction → String → SchedulerDecision
unfolding string_set title
decision_with python parsed user_message action visible_message = record {
  action = action;
  user_intent = text_or python (Json.get parsed "user_intent") user_message;
  task_title = text_or python (Json.get parsed "task_title") (title user_message);
  visible_message = visible_message;
  reason = text_or python (Json.get parsed "reason") "";
  target_task_id = target python (Json.get parsed "target_task_id");
  affected_files = string_set python (Json.get parsed "affected_files");
  affected_modules = string_set python (Json.get parsed "affected_modules");
  domains = string_set python (Json.get parsed "domains");
  conflict_task_ids = string_set python (Json.get parsed "conflict_task_ids");
  duplicate_task_ids = string_set python (Json.get parsed "duplicate_task_ids");
}

-- A decision that passes its validation.
unfoldable pub validated : TaskRegistry → SchedulerDecision → Result SchedulerDecision
unfolding validate_scheduler_decision
validated registry decision = validate_scheduler_decision decision registry >> ok decision

unfoldable pub decision_of : Python → Fields → TaskRegistry → String → Result SchedulerDecision
unfolding read_action decision_with validated visible
decision_of python parsed registry user_message =
    read_action (Json.get parsed "action") >>= λ action.
    visible (Json.get parsed "visible_message") >>= λ visible_message.
    validated registry (decision_with python parsed user_message action visible_message)

unfoldable pub decision_of_value :
    Python → Option Value → TaskRegistry → String → Result SchedulerDecision
unfolding decision_of
decision_of_value python (some (obj parsed)) registry user_message =
    decision_of python parsed registry user_message
decision_of_value python value registry user_message = error "not a JSON object"

-- _decision_from_json
unfoldable pub decision_from_json :
    Python → String → TaskRegistry → String → Result SchedulerDecision
unfolding extract_json_object decision_of_value
decision_from_json python message registry user_message = extract_json_object message >>= λ object.
    decision_of_value python (python.loads object) registry user_message

-- What follows an error.
abbrev pub or_else {ℓ} : {A : Type ℓ} → (String → Result A) → Result A → Result A
or_else f (ok a) = ok a
or_else f (error e) = f e

-- The loop of LLMScheduler.schedule: the attempts left, the number of the next, and the errors so far.
unfoldable pub attempts :
    Python
    → (ℕ → Result String)
    → TaskRegistry
    → String
    → ℕ
    → ℕ
    → List String
    → Result SchedulerDecision
unfolding decision_from_json
attempts python complete registry user_message zero attempt errors =
    error (concat ("Xiaoming scheduler failed after 3 attempts: " ∷ join "; " errors ∷ []))
attempts python complete registry user_message (suc left) attempt errors =
    or_else
      (λ e.
        attempts python complete registry user_message left (suc attempt)
          (errors ++ concat ("attempt " ∷ python.repr (num attempt) ∷ ": " ∷ e ∷ []) ∷ []))
      (complete attempt >>= λ message. decision_from_json python message registry user_message)

-- LLMScheduler.schedule
unfoldable pub schedule :
    Python → (ℕ → Result String) → ℕ → String → TaskRegistry → Result SchedulerDecision
unfolding attempts
schedule python complete max_attempts user_message registry =
    attempts python complete registry user_message max_attempts 1 []
