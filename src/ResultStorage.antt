-- ===== src/ResultStorage.antt =====
-- src/gateway/core/result_receiver_storage.hh and .cc: which receiver waits for which task, and
-- which node has the task. A receiver is a number; what it is given is appended to `deliveries`,
-- with its number. The order of `std::unordered_map` is that of the list.
pub mod Cleanup
pub mod Pairing
use strij.Base.{
  ℕ, String, Bool, List, [], ◌∷◌, ◌++◌, Option, none, some, if◌then◌else◌, length, Assoc, lookup,
  contains, insert, erase, str_eq,
}
use strij.Task.{TaskStatus, capacity_refused}
use strij.StateTracker.{Tracker, record_completion}

-- What a receiver is given: `Deliver` of a chunk, which may be the last one, or `DeliverError`, with
-- a reason of the program or with the bytes that a message has for it.
pub data Delivery : Type 0 where
  chunk : List ℕ → Bool → Delivery
  error : String → TaskStatus → Delivery
  error_body : List ℕ → TaskStatus → Delivery

-- `ResultReceiverStorageImpl`, with the receivers' log
pub record Storage : Type 0 where
  pub state_tracker : Option Tracker
  pub receivers : Assoc ℕ
  pub node_of_task : Assoc String
  pub deliveries : List (ℕ × Delivery)

-- `emplace`: a key that is there keeps its value.
unfoldable pub emplace {ℓ} : {V : Type ℓ} → String → V → Assoc V → Assoc V
emplace key v m = if contains key m then m else insert key v m

-- `Put`
unfoldable pub put : Storage → String → ℕ → String → Storage
unfolding emplace
put s task_id receiver node_id = record s {
  receivers = emplace task_id receiver s.receivers;
  node_of_task = emplace task_id node_id s.node_of_task;
}

-- `Get`
abbrev pub get : Storage → String → Option ℕ
get s task_id = lookup task_id s.receivers

-- `Erase`
abbrev pub erase_task : Storage → String → Storage
erase_task s task_id = record s {
  receivers = erase task_id s.receivers;
  node_of_task = erase task_id s.node_of_task;
}

-- `Size`
abbrev pub size : Storage → ℕ
size s = length s.receivers

abbrev pub deliver : Storage → ℕ → Delivery → Storage
deliver s receiver delivery = record s { deliveries = s.deliveries ++ (receiver, delivery) ∷ [] }

-- if (state_tracker_ != nullptr) state_tracker_->RecordCompletion(task_id)
abbrev pub completed_in : Option Tracker → String → Option Tracker
completed_in none task_id = none
completed_in (some t) task_id = some (record_completion t task_id)

-- `NotifyClientDisconnected`
unfoldable pub notify_client_disconnected : Storage → String → Storage
notify_client_disconnected s task_id = record (erase_task s task_id) {
  state_tracker = completed_in s.state_tracker task_id;
}

-- The first loop of `NotifyNodeDisconnected`.
unfoldable pub tasks_of : String → Assoc String → List String
tasks_of node_id [] = []
tasks_of node_id ((task_id, nid) ∷ entries) =
    if str_eq nid node_id then task_id ∷ tasks_of node_id entries else tasks_of node_id entries

-- if (receiver != nullptr) receiver->DeliverError(...)
abbrev pub fail_to : Storage → Option ℕ → Storage
fail_to s none = s
fail_to s (some receiver) = deliver s receiver (error "node disconnected" capacity_refused)

-- A round of the second loop of `NotifyNodeDisconnected`.
unfoldable pub disconnect_task : Storage → String → Storage
unfolding notify_client_disconnected
disconnect_task s task_id = notify_client_disconnected (fail_to s (get s task_id)) task_id

unfoldable pub disconnect_tasks : Storage → List String → Storage
unfolding disconnect_task
disconnect_tasks s [] = s
disconnect_tasks s (task_id ∷ task_ids) = disconnect_tasks (disconnect_task s task_id) task_ids

-- `NotifyNodeDisconnected`
unfoldable pub notify_node_disconnected : Storage → String → Storage
unfolding tasks_of disconnect_tasks
notify_node_disconnected s node_id = disconnect_tasks s (tasks_of node_id s.node_of_task)
