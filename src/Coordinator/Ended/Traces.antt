-- ===== src/Coordinator/Ended/Traces.antt =====
-- A task that the user cancelled is cancelled after all events that come later.
use xiao_ming.Prelude.{
  String, Bool, true, false, not, ◌≡◌, refl, sym, ap, ◌∙◌, Option, some, List, [], ◌∷◌, ◌==◌,
  if◌then◌else◌, All, keep, strip, Bool-cases, inl, inr, subst, eq_iff, eq_refl, arith,
}
use mathlib.Core.Option.{some-injective}
use xiao_ming.Prelude.Dict
use xiao_ming.Prelude.Dict.{Dict}
use xiao_ming.Tasks.Status.{TaskStatus, is_terminal, cancelled}
use xiao_ming.Tasks.Record.{TaskRecord, transition}
use xiao_ming.Mailbox.Store
use xiao_ming.Coordinator.Events.{WorkerEvent}
use xiao_ming.Coordinator.State.{
  Coordinator, terminate, store_task, send_to_worker, clear_current, persist,
}
use xiao_ming.Coordinator.Services.{Services}
use xiao_ming.Coordinator.Start.{try_start_waiting}
use xiao_ming.Coordinator.Cancel.{
  of_parent, terminate_verifiers, cancel_found, cancel, cancel_known, cancel_task,
}
use xiao_ming.Coordinator.Handling.{handle_worker_event, raises, run_worker_events}
use xiao_ming.Coordinator.Frame.{
  IsKeyed, status_in, entry, shared, Frame-store, shared-send_to_worker, shared-clear_current,
}
use xiao_ming.Coordinator.Frame.Starts.{Frame-try_start_waiting}
use xiao_ming.Coordinator.Frame.Handling.{keyed-get}
use xiao_ming.Coordinator.Ended.{Ended, Ended-Frame, Ended-handle_worker_event, asks_for}

-- No event is a question of the worker of a task.
abbrev pub AsksNothing : String → List (Services × WorkerEvent) → Type 0
AsksNothing id events = All (λ e. asks_for id e.1 ≡ false) events

-- A task that has ended and that no verifier worker checks, in a registry that holds each task under its
-- id and none twice, keeps its status under any sequence of events in which its worker asks no question,
-- and no verifier worker checks it then.
pub Ended-run_worker_events :
    (id : String) (status : TaskStatus) (events : List (Services × WorkerEvent)) (c : Coordinator)
    → AsksNothing id events
    → Ended status id c
    → Ended status id (run_worker_events events c)
unfolding run_worker_events
Ended-run_worker_events id status [] c silent h = h
Ended-run_worker_events id status ((services, event) ∷ events) c silent h =
    let handled = handle_worker_event services event c in
    let ended = Ended-handle_worker_event services id status event c silent.0 h in
    elim (Bool-cases (raises event c)) [
      | inl stops ↦ rw stops ended
      | inr goes_on ↦ rw goes_on (Ended-run_worker_events id status events handled silent.1 ended)
    ]

another : (id : String) → (other : String) × ((id == other) ≡ false)
another id = elim (Bool-cases (id == "")) [
  | inl blank ↦ ("a", rw ((eq_iff id "").0 blank) refl)
  | inr something ↦ ("", something)
]

pub Ended-try_start_waiting :
    (services : Services) (id : String) (status : TaskStatus) (c : Coordinator)
    → Ended status id c
    → Ended status id (try_start_waiting services c)
Ended-try_start_waiting services id status c h =
    let other = another id in
    Ended-Frame services id status other.0 c (try_start_waiting services c) other.1
      (Frame-try_start_waiting services other.0 c h.keyed) h

entry_not :
    (b : Bool) (parent id : String) (o : Option String)
    → (parent == id) ≡ false
    → ¬ (o ≡ some id)
    → ¬ ((if b then some parent else o) ≡ some id)
entry_not true parent id o other none_left =
    λ has. ground (arith, other, eq_iff parent id, some-injective parent id has)
entry_not false parent id o other none_left = none_left

keep-unchecked :
    (id : String) (d : Dict String) (v : String)
    → ¬ (Dict.get (keep (λ e. not (of_parent id e)) d) v ≡ some id)
unfolding Dict.get
keep-unchecked id [] v = λ has. absurd (cc)
keep-unchecked id ((j, parent) ∷ d) v = elim (Bool-cases (parent == id)) [
  | inl own ↦ rw own (keep-unchecked id d v)
  | inr other ↦ rw other (entry_not (j == v) parent id _ other (keep-unchecked id d v))
]

Ended-shared :
    (status : TaskStatus) (id : String) (c d : Coordinator)
    → shared d ≡ shared c
    → Ended status id c
    → Ended status id d
Ended-shared status id c d same h = record {
  keyed = subst (λ s. IsKeyed s.0) (sym same) h.keyed;
  ended = ap (λ s. status_in (Dict.get s.0 id)) same ∙ h.ended;
  terminal = h.terminal;
  unchecked = λ v has. h.unchecked v (ap (λ s. Dict.get s.1 v) (sym same) ∙ has);
}

module _ (services : Services) (task : TaskRecord) (c : Coordinator)
    (h : IsKeyed c.registry.tasks) where
  abbrev ended_task : TaskRecord
  unfolding transition
  ended_task = transition services.now cancelled (some "用户请求取消。") task

  abbrev told : Coordinator
  told =
      send_to_worker task.task_id terminate
        (record c { mailbox = Store.cancel_task_messages services.now task.task_id c.mailbox })

  Ended-stored :
      Ended cancelled task.task_id (store_task ended_task (terminate_verifiers task.task_id told))
  unfolding terminate_verifiers transition
  Ended-stored =
      let stopped = terminate_verifiers task.task_id told in
      let same : stopped.registry.tasks ≡ c.registry.tasks =
        ap (λ s. s.0)
          (shared-send_to_worker task.task_id terminate (record c {
            mailbox = Store.cancel_task_messages services.now task.task_id c.mailbox;
          })) in
      record {
        keyed = (Frame-store stopped ended_task (subst IsKeyed (sym same) h)).keyed;
        ended =
            subst (λ o. status_in o ≡ some cancelled)
              (sym (Dict.get-put stopped.registry.tasks task.task_id ended_task task.task_id))
              (rw (eq_refl task.task_id) refl);
        terminal = refl;
        unchecked = keep-unchecked task.task_id told.verifiers;
      }

  pub Ended-cancel_found : Ended cancelled task.task_id (cancel_found services task c)
  unfolding cancel_found terminate_verifiers transition
  Ended-cancel_found =
      let stored = store_task ended_task (terminate_verifiers task.task_id told) in
      Ended-shared cancelled task.task_id stored (persist (clear_current task.task_id stored))
        (shared-clear_current task.task_id stored) Ended-stored

module _ (services : Services) (task_id : String) (task : TaskRecord) (c : Coordinator)
    (h : IsKeyed c.registry.tasks) (named : (strip task_id == "") ≡ false)
    (there : entry c (strip task_id) ≡ some task) (active : is_terminal task.status ≡ false) where
  Ended-cancel : Ended cancelled (strip task_id) (cancel services (strip task_id) c)
  unfolding cancel
  Ended-cancel =
      rw (cancel, there)
        (subst (λ id. Ended cancelled id (cancel_found services task c))
          (keyed-get c.registry.tasks (strip task_id) task h.keyed there)
          (Ended-cancel_found services task c h))

  -- The tool cancel_task of a task in the registry that has not ended cancels it and leaves it no verifier.
  Ended-cancel_task : Ended cancelled (strip task_id) (cancel_task services task_id c).1
  unfolding cancel_task cancel_known
  Ended-cancel_task =
      rw (named, there, active)
        (Ended-try_start_waiting services (strip task_id) cancelled
          (cancel services (strip task_id) c) Ended-cancel)

  -- A task that has not ended, of a registry that holds each task under its id and none twice, is cancelled
  -- once the user cancels it by its id, and is still cancelled after any sequence of events in which its
  -- worker asks no question, whatever its worker and its verifiers report.
  pub cancel_task-stays :
      (events : List (Services × WorkerEvent))
      → AsksNothing (strip task_id) events
      → status_in
          (entry (run_worker_events events (cancel_task services task_id c).1) (strip task_id))
        ≡ some cancelled
  cancel_task-stays events silent =
      (Ended-run_worker_events (strip task_id) cancelled events (cancel_task services task_id c).1
        silent Ended-cancel_task).ended
