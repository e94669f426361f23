-- ===== src/Coordinator/Scheduler/Validated.antt =====
-- A decision that the scheduler returns was validated.
use xiao_ming.Prelude.{
  ℕ, zero, suc, String, Bool, true, false, not, ◌≡◌, refl, ap, Option, none, some, List, [], ◌∷◌,
  ◌++◌, ◌==◌, any, concat, strip, Result, ok, error, ◌>>=◌, guard, subst,
}
use xiao_ming.Json
use xiao_ming.Json.{Value, null, bool, literal, str, arr, obj, num, Fields, Python}
use xiao_ming.Tasks.Registry
use xiao_ming.Tasks.Registry.{TaskRegistry}
use xiao_ming.Coordinator.Scheduler.{
  DecisionAction, SchedulerDecision, queue_task, read_action, is_valid_conflict,
  validate_scheduler_decision, visible, validate_action, validated, decision_with,
  decision_of_value, or_else, decision_of, extract_json_object, decision_from_json, attempts,
  schedule,
}

ok-injective {ℓ} : {A : Type ℓ} (a b : A) → ok a ≡ ok b → a ≡ b
ok-injective a b same = ap (λ r. elim r [ ok x ↦ x | error e ↦ a ]) same

-- Both steps of a computation that does not raise.
>>=-inverse {ℓ κ} :
    {A : Type ℓ} {B : Type κ} (m : Result A) (f : A → Result B) (b : B)
    → (m >>= f) ≡ ok b
    → (a : A) × (m ≡ ok a) × (f a ≡ ok b)
>>=-inverse (ok a) f b gives = (a, refl, gives)
>>=-inverse (error e) f b gives = absurd (cc)

guard-inverse : (b : Bool) (message : String) → guard b message ≡ ok tt → b ≡ true
guard-inverse true message holds = refl
guard-inverse false message holds = absurd (cc)

-- What makes a decision acceptable: one that queues its task names an active task to wait for, and says why.
abbrev pub Acceptable : SchedulerDecision → TaskRegistry → Type 0
Acceptable decision registry =
    decision.action ≡ queue_task
    → (any (is_valid_conflict decision) (Registry.active registry) ≡ true)
      × ((strip decision.reason == "") ≡ false)

not-false : (b : Bool) → not b ≡ true → b ≡ false
not-false true h = absurd (cc)
not-false false h = refl

validated-Acceptable :
    (decision : SchedulerDecision) (registry : TaskRegistry)
    → validate_scheduler_decision decision registry ≡ ok tt
    → Acceptable decision registry
unfolding validate_scheduler_decision validate_action
validated-Acceptable decision registry valid queues =
    let conflicts = any (is_valid_conflict decision) (Registry.active registry) in
    let named =
      guard conflicts
        "queue_task requires conflict_task_ids containing at least one active conflicting task id" in
    let explained =
      guard (not (strip decision.reason == ""))
        "queue_task requires a reason explaining the exact conflict" in
    let queued : (named >>= λ x. explained) ≡ ok tt =
      subst (λ action. validate_action action decision registry ≡ ok tt) queues valid in
    let both = >>=-inverse named (λ x. explained) tt queued in
    (
      guard-inverse conflicts _ both.1,
      not-false (strip decision.reason == "")
          (guard-inverse (not (strip decision.reason == "")) _ both.2),
    )

checked-Acceptable :
    (registry : TaskRegistry) (made decision : SchedulerDecision)
    → validated registry made ≡ ok decision
    → Acceptable decision registry
unfolding validated
checked-Acceptable registry made decision gives =
    let both =
      >>=-inverse (validate_scheduler_decision made registry) (λ x. ok made) decision gives in
    subst (λ d. Acceptable d registry) (ok-injective made decision both.2)
      (validated-Acceptable made registry both.1)

or_else-case {ℓ κ} :
    {A : Type ℓ} {P : Type κ} (f : String → Result A) (m : Result A) (a : A)
    → or_else f m ≡ ok a
    → (m ≡ ok a → P)
    → ((e : String) → f e ≡ ok a → P)
    → P
or_else-case f (ok b) a gives if_ok if_error = if_ok gives
or_else-case f (error e) a gives if_ok if_error = if_error e gives

module _ (python : Python) (registry : TaskRegistry) (user_message : String) where
  decision_of-Acceptable :
      (parsed : Fields) (decision : SchedulerDecision)
      → decision_of python parsed registry user_message ≡ ok decision
      → Acceptable decision registry
  unfolding decision_of
  decision_of-Acceptable parsed decision gives =
      let with_message = λ (action : DecisionAction) (message : String).
        validated registry (decision_with python parsed user_message action message) in
      let said = visible (Json.get parsed "visible_message") in
      let first =
        >>=-inverse (read_action (Json.get parsed "action"))
          (λ action. said >>= with_message action) decision gives in
      let second = >>=-inverse said (with_message first.0) decision first.2 in
      checked-Acceptable registry (decision_with python parsed user_message first.0 second.0)
        decision second.2

  decision_of_value-Acceptable :
      (value : Option Value) (decision : SchedulerDecision)
      → decision_of_value python value registry user_message ≡ ok decision
      → Acceptable decision registry
  unfolding decision_of_value
  decision_of_value-Acceptable (some (obj parsed)) decision gives =
      decision_of-Acceptable parsed decision gives
  decision_of_value-Acceptable none decision gives = absurd (cc)
  decision_of_value-Acceptable (some null) decision gives = absurd (cc)
  decision_of_value-Acceptable (some (bool b)) decision gives = absurd (cc)
  decision_of_value-Acceptable (some (num n)) decision gives = absurd (cc)
  decision_of_value-Acceptable (some (literal s)) decision gives = absurd (cc)
  decision_of_value-Acceptable (some (str s)) decision gives = absurd (cc)
  decision_of_value-Acceptable (some (arr vs)) decision gives = absurd (cc)

  module _ (complete : ℕ → Result String) where
    attempts-Acceptable :
        (left attempt : ℕ) (errors : List String) (decision : SchedulerDecision)
        → attempts python complete registry user_message left attempt errors ≡ ok decision
        → Acceptable decision registry
    unfolding attempts decision_from_json
    attempts-Acceptable zero attempt errors decision gives = absurd (cc)
    attempts-Acceptable (suc left) attempt errors decision gives =
        or_else-case _
          (complete attempt >>= λ message. decision_from_json python message registry user_message)
          decision gives
          (λ answered.
            let message =
              >>=-inverse (complete attempt)
                (λ m. decision_from_json python m registry user_message) decision answered in
            let object =
              >>=-inverse (extract_json_object message.0)
                (λ o. decision_of_value python (python.loads o) registry user_message) decision
                message.2 in
            decision_of_value-Acceptable (python.loads object.0) decision object.2)
          (λ e again.
            attempts-Acceptable left (suc attempt)
              (errors ++ concat ("attempt " ∷ python.repr (num attempt) ∷ ": " ∷ e ∷ []) ∷ [])
              decision again)

    -- A decision that the scheduler returns and that queues its task names, among the tasks to wait for, one
    -- that is active and planned, running, waiting for the user or reported, and gives a reason that is not
    -- blank, whatever the language model answers.
    pub schedule-Acceptable :
        (max_attempts : ℕ) (decision : SchedulerDecision)
        → schedule python complete max_attempts user_message registry ≡ ok decision
        → Acceptable decision registry
    unfolding schedule
    schedule-Acceptable max_attempts = attempts-Acceptable max_attempts 1 []
