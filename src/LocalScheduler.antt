-- ===== src/LocalScheduler.antt =====
-- src/nodeagent/extensions/schedulers/default/default_local_scheduler.cc, which runs the child tasks
-- of the node's own tasks or forwards them, with src/nodeagent/core/local_result_receiver_storage.cc,
-- storage_result_sender.cc and the variant of RunTask in run_task_service.cc that takes a sender. A
-- receiver is a number, and what it is given is appended to `deliveries`. The forwarder is the
-- parameter `forward`, if there is one: whether it takes a task. Protobuf is the parameter `Codec`.
pub mod Outcome
pub mod Stream
use strij.Base.{
  ℕ, String, Bool, true, false, not, List, [], ◌∷◌, ◌++◌, Option, none, some, ◌==◌, if◌then◌else◌,
  Assoc, lookup, contains, insert, erase,
}
use strij.Task.{Task, TaskResult, capacity_refused, is_task_result_ok, is_final_result}
use strij.Tlv.{Frame, result, task_rejected}
use strij.Admission.{Controller, Status, admit}
use strij.Admission.Scope.{AdmissionScope, release_scope}
use strij.ResultStorage.{Delivery, chunk, error, error_body}
use strij.GatewayFrames.{status_of}

-- A task that was handed to its handler, with the scope that its sender holds.
pub record Running : Type 0 where
  pub task : Task
  pub scope : AdmissionScope

-- `DefaultLocalScheduler`, with its storage and the parts that it drives
pub record LocalScheduler : Type 0 where
  pub admission : Controller
  pub handlers : Assoc ℕ
  pub receivers : Assoc ℕ
  pub deliveries : List (ℕ × Delivery)
  pub forwarded : List Task
  pub running : List Running

pub record Codec : Type 0 where
  pub parse_result : List ℕ → Option TaskResult
  pub parse_rejected : List ℕ → Option (String × String)

pub data FrameStatus : Type 0 where
  frame_ok invalid_argument not_found : FrameStatus

-- `LocalResultReceiverStorage::Put`
abbrev pub put : LocalScheduler → String → ℕ → LocalScheduler
put s task_id receiver = record s { receivers = insert task_id receiver s.receivers }

-- `LocalResultReceiverStorage::Get`
abbrev pub get : LocalScheduler → String → Option ℕ
get s task_id = lookup task_id s.receivers

-- `LocalResultReceiverStorage::Erase`
abbrev pub erase_task : LocalScheduler → String → LocalScheduler
erase_task s task_id = record s { receivers = erase task_id s.receivers }

abbrev pub deliver : LocalScheduler → ℕ → Delivery → LocalScheduler
deliver s receiver delivery = record s { deliveries = s.deliveries ++ (receiver, delivery) ∷ [] }

-- if (receiver != nullptr) receiver->DeliverError(...)
abbrev pub fail_to : LocalScheduler → Option ℕ → LocalScheduler
fail_to s none = s
fail_to s (some receiver) =
    deliver s receiver
      (error "no local capacity and no gateway forward path is configured" capacity_refused)

-- `RunTask(task, sender, reserved)` of src/nodeagent/core/run_task_service.cc: with no handler the
-- reservation is released by its destructor.
unfoldable pub run_task : LocalScheduler → Task → AdmissionScope → LocalScheduler
unfolding release_scope
run_task s task reserved = elim (lookup task.type s.handlers) [
  | none ↦ record s { admission = (release_scope s.admission reserved).0 }
  | some handler ↦ record s { running = s.running ++ record { task = task; scope = reserved } ∷ [] }
]

module _ (forward : Option (Task → Bool)) where
  abbrev pub is_forwarded : Task → Bool
  is_forwarded task = elim forward [ none ↦ false | some takes ↦ takes task ]

  -- `forwardOrError`
  unfoldable pub forward_or_error : LocalScheduler → Task → LocalScheduler
  forward_or_error s task =
      if is_forwarded task
      then record s { forwarded = s.forwarded ++ task ∷ [] }
      else erase_task (fail_to s (get s task.id)) task.id

  -- The end of `Schedule`, with what `Admit` returned.
  abbrev pub schedule_admitted : LocalScheduler → Task → Controller × Status → LocalScheduler
  schedule_admitted s task (admission, Status.ok) =
      run_task (record s { admission = admission }) task
        (record { task_type = task.type; requirements = task.requirements; released = false })
  schedule_admitted s task (admission, refusal) =
      forward_or_error (record s { admission = admission }) task

  -- `Schedule`
  unfoldable pub schedule : LocalScheduler → Task → ℕ → LocalScheduler
  unfolding forward_or_error run_task admit
  schedule s task receiver =
      let stored = put s task.id receiver in
      if not (contains task.type s.handlers)
      then forward_or_error stored task
      else schedule_admitted stored task (admit s.admission task.type task.requirements)

-- `StorageResultSender::Send`, of a sender for this task, with the receiver found
unfoldable pub send_to : LocalScheduler → String → TaskResult → Option ℕ → LocalScheduler
send_to s task_id r none = s
send_to s task_id r (some receiver) =
    if not (is_task_result_ok r)
    then erase_task (deliver s receiver (error_body r.body (status_of r))) task_id
    else let delivered = deliver s receiver (chunk r.body (is_final_result r)) in
      if is_final_result r then erase_task delivered task_id else delivered

abbrev pub send : LocalScheduler → String → TaskResult → LocalScheduler
send s task_id r = send_to s task_id r (get s task_id)

-- `handleResultFrame` of a parsed result, with the receiver found
unfoldable pub handle_result : LocalScheduler → TaskResult → Option ℕ → LocalScheduler
handle_result s r none = s
handle_result s r (some receiver) =
    if not (is_task_result_ok r)
    then erase_task (deliver s receiver (error_body r.body (status_of r))) r.id
    else let delivered = deliver s receiver (chunk r.body (is_final_result r)) in
      if is_final_result r then erase_task delivered r.id else delivered

-- `handleRejectedFrame` of a parsed rejection, with the receiver found
unfoldable pub handle_rejected : LocalScheduler → String → String → Option ℕ → LocalScheduler
handle_rejected s id reason none = s
handle_rejected s id reason (some receiver) =
    erase_task (deliver s receiver (error reason capacity_refused)) id

-- `HandleFrame`
unfoldable pub handle_frame : Codec → LocalScheduler → Frame → LocalScheduler × FrameStatus
unfolding handle_result handle_rejected
handle_frame codec s frame =
    if frame.type_id == result
    then (elim (codec.parse_result frame.value) [
      | none ↦ (s, invalid_argument)
      | some r ↦ (handle_result s r (get s r.id), frame_ok)
    ])
    else if frame.type_id == task_rejected
    then (elim (codec.parse_rejected frame.value) [
      | none ↦ (s, invalid_argument)
      | some (id, reason) ↦ (handle_rejected s id reason (get s id), frame_ok)
    ])
    else (s, not_found)
