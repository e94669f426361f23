-- ===== src/Coordinator/Frame.antt =====
-- What a handler of the coordinator leaves alone: the tasks other than its own, except waiting ones.
pub mod Starts
pub mod Reviews
pub mod Events
pub mod Handling
pub mod Progress
use xiao_ming.Prelude.{
  ℕ, ◌-◌, ltb, String, Bool, true, false, not, ◌≡◌, refl, sym, ap, ◌∙◌, Option, none, some, List,
  [], ◌∷◌, ◌==◌, if◌then◌else◌, Bool-cases, inl, inr, arith, All, contains, any, keep, eq_iff,
  eq_refl, subst,
}
use mathlib.Core.Option.{some-injective}
use xiao_ming.Prelude.Dict
use xiao_ming.Prelude.Dict.{Dict, Distinct, put-Distinct}
use xiao_ming.Tasks.Status.{TaskStatus, is_waiting}
use xiao_ming.Tasks.Record.{TaskRecord}
use xiao_ming.Tasks.Registry.{TaskRegistry, clear_current_if, is_current}
use xiao_ming.Coordinator.State.{
  Coordinator, WorkerMessage, store_task, send_to_worker, clear_current, notice_once, same_notice,
  status_of_task,
}

-- Each task stands under its id, and none twice.
pub record IsKeyed (d : Dict TaskRecord) : Type 0 where
  pub distinct : Distinct d
  pub keyed : All (λ e. e.1.task_id ≡ e.0) d

abbrev pub entry : Coordinator → String → Option TaskRecord
entry c k = Dict.get c.registry.tasks k

abbrev pub waits : Option TaskRecord → Bool
waits none = false
waits (some task) = is_waiting task.status

abbrev pub status_in : Option TaskRecord → Option TaskStatus
status_in none = none
status_in (some task) = some task.status

-- The tasks, and the verifier workers with the task that each checks.
abbrev pub shared : Coordinator → Dict TaskRecord × Dict String
shared c = (c.registry.tasks, c.verifiers)

-- The tasks after a step are keyed, and are those before it, but for the one under an id and the waiting
-- ones; no other task has a verifier that it did not have.
pub record Keeps (id : String) (before after : Dict TaskRecord × Dict String) : Type 0 where
  pub keyed : IsKeyed after.0
  pub kept :
      (k : String)
      → (k == id) ≡ false
      → waits (Dict.get before.0 k) ≡ false
      → Dict.get after.0 k ≡ Dict.get before.0 k
  pub checks :
      (k v : String)
      → (k == id) ≡ false
      → waits (Dict.get before.0 k) ≡ false
      → Dict.get after.1 v ≡ some k
      → Dict.get before.1 v ≡ some k

abbrev pub Frame : String → Coordinator → Coordinator → Type 0
Frame id c c' = Keeps id (shared c) (shared c')

keyed-put :
    (d : Dict TaskRecord) (k : String) (t : TaskRecord)
    → t.task_id ≡ k
    → All (λ e. e.1.task_id ≡ e.0) d
    → All (λ e. e.1.task_id ≡ e.0) (Dict.put d k t)
unfolding Dict.put
keyed-put [] k t h all = (h, tt)
keyed-put ((j, w) ∷ d) k t h all = elim (Bool-cases (j == k)) [
  | inl same ↦ rw same (h ∙ sym ((eq_iff j k).0 same), all.1)
  | inr other ↦ rw other (all.0, keyed-put d k t h all.1)
]

pub Frame-store :
    (c : Coordinator) (task : TaskRecord)
    → IsKeyed c.registry.tasks
    → Frame task.task_id c (store_task task c)
Frame-store c task h = record {
  keyed = record {
    distinct = put-Distinct c.registry.tasks task.task_id task h.distinct;
    keyed = keyed-put c.registry.tasks task.task_id task refl h.keyed;
  };
  kept = λ k other still.
      Dict.get-put c.registry.tasks task.task_id task k
      ∙ ground (arith, other, eq_iff k task.task_id, eq_iff task.task_id k);
  checks = λ k v other still has. has;
}

pub Frame-self : (id : String) (c : Coordinator) → IsKeyed c.registry.tasks → Frame id c c
Frame-self id c h = record {
  keyed = h;
  kept = λ k other still. refl;
  checks = λ k v other still has. has;
}

pub Frame-trans : (id : String) (c d e : Coordinator) → Frame id c d → Frame id d e → Frame id c e
Frame-trans id c d e f g = record {
  keyed = g.keyed;
  kept = λ k other still.
      let same = f.kept k other still in g.kept k other (ap waits same ∙ still) ∙ same;
  checks = λ k v other still has.
      f.checks k v other still (g.checks k v other (ap waits (f.kept k other still) ∙ still) has);
}

-- Only the tasks and the verifiers of a coordinator count.
pub Frame-shared :
    (id : String) (c d e : Coordinator) → shared e ≡ shared d → Frame id c d → Frame id c e
Frame-shared id c d e same f = subst (Keeps id (shared c)) (sym same) f

-- A handler of a waiting task keeps all but the waiting tasks.
pub Frame-waiting :
    (id k : String) (c d : Coordinator) → waits (entry c k) ≡ true → Frame k c d → Frame id c d
Frame-waiting id k c d waiting f =
    let other_than : (j : String) → waits (entry c j) ≡ false → (j == k) ≡ false = λ j still.
      elim (Bool-cases (j == k)) [
        | inl same ↦
            let at_k : waits (entry c k) ≡ false =
              subst (λ i. waits (entry c i) ≡ false) ((eq_iff j k).0 same) still in
            absurd (cc)
        | inr different ↦ different
      ] in
    record {
      keyed = f.keyed;
      kept = λ j other still. f.kept j (other_than j still) still;
      checks = λ j v other still. f.checks j v (other_than j still) still;
    }

still_there :
    (b : Bool) (o : Option String) (k : String) → (if b then none else o) ≡ some k → o ≡ some k
still_there true o k has = absurd (cc)
still_there false o k has = has

newly_there :
    (b : Bool) (o : Option String) (id k : String)
    → (k == id) ≡ false
    → (if b then some id else o) ≡ some k
    → o ≡ some k
newly_there true o id k other has = ground (arith, some-injective id k has, other, eq_iff k id)
newly_there false o id k other has = has

-- A verifier is forgotten, or the task under the id has one more.
pub Frame-forget :
    (id : String) (c d : Coordinator) (verifier : String)
    → Frame id c d
    → Frame id c (record d { verifiers = Dict.remove d.verifiers verifier })
Frame-forget id c d verifier f = record {
  keyed = f.keyed;
  kept = f.kept;
  checks = λ k v other still has. f.checks k v other still (
      still_there (verifier == v) (Dict.get d.verifiers v) k
        (sym (Dict.get-remove d.verifiers verifier v) ∙ has));
}

pub Frame-add :
    (id : String) (c d : Coordinator) (verifier : String)
    → Frame id c d
    → Frame id c (record d { verifiers = Dict.put d.verifiers verifier id })
Frame-add id c d verifier f = record {
  keyed = f.keyed;
  kept = f.kept;
  checks = λ k v other still has. f.checks k v other still (
      newly_there (verifier == v) (Dict.get d.verifiers v) id k other
        (sym (Dict.get-put d.verifiers verifier id v) ∙ has));
}

pub shared-clear_current :
    (task_id : String) (c : Coordinator) → shared (clear_current task_id c) ≡ shared c
unfolding clear_current_if
shared-clear_current task_id c = elim (Bool-cases (is_current c.registry.current_task_id task_id)) [
  | inl same ↦ rw same refl
  | inr other ↦ rw other refl
]

pub shared-send_to_worker :
    (task_id : String) (message : WorkerMessage) (c : Coordinator)
    → shared (send_to_worker task_id message c) ≡ shared c
unfolding send_to_worker
shared-send_to_worker task_id message c = elim (Bool-cases (contains c.workers task_id)) [
  | inl present ↦ rw present
  | inr gone ↦ rw gone
]

pub shared-notice_once :
    (clock : ℕ) (task_id text : String) (c : Coordinator)
    → shared (notice_once clock task_id text c) ≡ shared c
unfolding notice_once
shared-notice_once clock task_id text c = elim (Bool-cases (text == "")) [
  | inl nothing ↦ rw nothing
  | inr something ↦
      rw something
        (elim (Bool-cases (
          any (same_notice task_id (status_of_task (Dict.get c.registry.tasks task_id)) text)
            (keep (λ seen. not (ltb 30000 (clock - seen.seen_at))) c.notice_cache))) [
              | inl said_before ↦ rw said_before
              | inr fresh ↦ rw fresh
            ])
]

-- Where a step keeps both, all that the frame asks for is that the tasks are keyed.
pub Frame-same :
    (id : String) (c d : Coordinator)
    → shared d ≡ shared c
    → IsKeyed c.registry.tasks
    → Frame id c d
Frame-same id c d same h = Frame-shared id c c d same (Frame-self id c h)

-- One step after others: a change of the task, or a handler of it.
pub Frame-then_store :
    (id : String) (c d : Coordinator) (task : TaskRecord)
    → task.task_id ≡ id
    → Frame id c d
    → Frame id c (store_task task d)
Frame-then_store id c d task same f =
    Frame-trans id c d (store_task task d) f
      (subst (λ i. Frame i d (store_task task d)) same (Frame-store d task f.keyed))

pub Frame-then :
    (id : String) (c d e : Coordinator)
    → Frame id c d
    → (IsKeyed d.registry.tasks → Frame id d e)
    → Frame id c e
Frame-then id c d e f step = Frame-trans id c d e f (step f.keyed)

-- Both branches of a test.
pub Frame-if :
    (id : String) (c : Coordinator) (b : Bool) (d e : Coordinator)
    → Frame id c d
    → Frame id c e
    → Frame id c (if b then d else e)
Frame-if id c true d e f g = f
Frame-if id c false d e f g = g
