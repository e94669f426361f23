-- ===== src/Coordinator/Events/RoundTrip.antt =====
-- What the coordinator reads of a worker's event is what the worker wrote.
use xiao_ming.Prelude.{◌≡◌, refl, ok}
use xiao_ming.Json.{Python, text_or-str}
use xiao_ming.Coordinator.Events.{
  QuestionKind, WorkerEventKind, WorkerEvent, asks, event_kind_text, event_kind_of, event_from_json,
  event_to_json,
}

event_kind-eq : (k : WorkerEventKind) → event_kind_of (event_kind_text k) ≡ ok k
unfolding event_kind_of
event_kind-eq WorkerEventKind.started = refl
event_kind-eq WorkerEventKind.heartbeat = refl
event_kind-eq WorkerEventKind.progress = refl
event_kind-eq WorkerEventKind.assistant_delta = refl
event_kind-eq WorkerEventKind.tool_started = refl
event_kind-eq WorkerEventKind.tool_finished = refl
event_kind-eq (asks QuestionKind.approval_request) = refl
event_kind-eq (asks QuestionKind.clarification_request) = refl
event_kind-eq (asks QuestionKind.decision_request) = refl
event_kind-eq WorkerEventKind.reported = refl
event_kind-eq WorkerEventKind.completed = refl
event_kind-eq WorkerEventKind.peer_reply = refl
event_kind-eq WorkerEventKind.failed = refl
event_kind-eq WorkerEventKind.cancelled = refl

-- Every event of a worker is read back from its JSON as it was.
pub event_from-to_json :
    (python : Python) (event : WorkerEvent)
    → event_from_json python (event_to_json event) ≡ ok event
unfolding event_from_json event_to_json
event_from-to_json python event = rw (event_kind-eq event.kind) (λ i. ok (record {
  task_id = event.task_id;
  kind = event.kind;
  message = text_or-str python event.message i;
  data_fields = event.data_fields;
}))
