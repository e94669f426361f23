-- ===== src/Coordinator/Services.antt =====
-- What the handlers of the coordinator call: the parts of the program that other modules model, and
-- the runtime. A handler takes the services as they answer at its time.
use xiao_ming.Prelude.{ℕ, String, Option, Result}
use xiao_ming.Json.{Python}
use xiao_ming.Tasks.Spec.{TaskSpec}
use xiao_ming.Tasks.Report.{TaskResultReport, VerificationResult, ReviewReport}
use xiao_ming.Tasks.Packet.{WorkerContextPacket}
use xiao_ming.Tasks.Record.{TaskRecord}
use xiao_ming.Tasks.Registry.{TaskRegistry}
use xiao_ming.Coordinator.Events.{Question}
use xiao_ming.Coordinator.Fork.{ParentSession}

-- Decision and WorkerQuestionDecision of question_decider.py
pub data Decision : Type 0 where
  approved denied ask_user : Decision

pub record WorkerQuestionDecision : Type 0 where
  pub decision : Decision
  pub answer : String
  pub reason : String

-- The time as text and in milliseconds, a new id, and the process id of a started worker;
-- session_provider() or its default; ContextPacketBuilder.build with a session; Verifier.verify;
-- the reading of a verifier's message by regular expressions; and WorkerQuestionDecider.decide, `none`
-- where there is no decider, with an error where it raises.
pub record Services : Type 0 where
  pub python : Python
  pub now : String
  pub clock : ℕ
  pub new_id : String
  pub pid : Option ℕ
  pub workspace : String
  pub parent_session : ParentSession
  pub build_packet : ParentSession → TaskRecord → TaskSpec → TaskRegistry → WorkerContextPacket
  pub verify : TaskSpec → TaskResultReport → VerificationResult
  pub review_report_from_message : String → ℕ → String → Result ReviewReport
  pub decide : Option (TaskRecord → Question → Result WorkerQuestionDecision)
