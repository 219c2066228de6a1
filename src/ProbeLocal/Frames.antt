-- ===== src/ProbeLocal/Frames.antt =====
-- `removeQueued`, `ProcessCommand` and `HandleFrame` of the probe local scheduler, and the variant of
-- `RunTask` that it calls (src/nodeagent/core/run_task_service.cc).
use strij.Base.{
  ℕ, zero, suc, String, Bool, true, false, not, List, [], ◌∷◌, ◌++◌, Option, none, some, ◌==◌,
  if◌then◌else◌, lookup, erase, str_eq,
}
use strij.Task.{Task}
use strij.Tlv.{Frame, task_probe, task_probe_cancel, task_grant}
use strij.BoundedQueue.{BoundedQueue, size, push, try_pop, push_all}
use strij.Admission.{Status}
use strij.Admission.Scope.{AdmissionScope, release_scope}
use strij.ProbeLocal.{Codec, QueuedProbe, PullPending, Scheduler, drop_scope, walk, handle_probe}

-- The items kept, and whether one was found.
pub record Removal : Type 0 where
  pub left : BoundedQueue QueuedProbe
  pub kept : List QueuedProbe
  pub found : Bool

-- The first loop of `removeQueued`: each round pops an item, so the fuel is the queue's size.
unfoldable pub remove_loop : ℕ → String → Removal → Removal
unfolding try_pop
remove_loop zero task_id r = r
remove_loop (suc fuel) task_id r = elim (try_pop r.left) [
  | none ↦ r
  | some (item, rest) ↦ remove_loop fuel task_id (
      if not (str_eq item.probe.id task_id)
      then record r { left = rest; kept = r.kept ++ item ∷ [] }
      else record r { left = rest; found = true })
]

-- `removeQueued`
unfoldable pub remove_queued : BoundedQueue QueuedProbe → String → BoundedQueue QueuedProbe × Bool
unfolding remove_loop push_all push
remove_queued q task_id =
    let r = remove_loop (size q) task_id (record { left = q; kept = []; found = false }) in
    (push_all r.left r.kept, r.found)

-- `RunTask(task, conn, reserved)`: with no handler the reservation is released by its destructor.
unfoldable pub run_task : Scheduler → Task → AdmissionScope → Scheduler
unfolding release_scope
run_task s task reserved = elim (lookup task.type s.handlers) [
  | none ↦ record s { admission = (release_scope s.admission reserved).0 }
  | some handler ↦ record s { running = s.running ++ (task, reserved) ∷ [] }
]

-- The types of command that reach the scheduler; the others are ignored.
pub data Command : Type 0 where
  capacity_released dep_completed other_command : Command

module _ (codec : Codec) where
  -- `ProcessCommand`
  unfoldable pub process_command : Scheduler → Command → Scheduler
  process_command s capacity_released = walk codec s
  process_command s dep_completed = walk codec s
  process_command s other_command = s

  -- `case kTaskGrant`, with the entry found
  unfoldable pub handle_grant : Scheduler → Task → Option PullPending → Scheduler
  unfolding run_task
  handle_grant s task none = s
  handle_grant s task (some pending) =
      run_task (record s { pull_pending = erase task.id s.pull_pending }) task pending.scope

  -- `case kTaskProbeCancel`
  unfoldable pub handle_cancel : Scheduler → String → Scheduler
  unfolding drop_scope remove_queued
  handle_cancel s task_id =
      let (q, found) = remove_queued s.queue task_id in
      record s {
        admission = drop_scope s.admission (lookup task_id s.pull_pending);
        pull_pending = erase task_id s.pull_pending;
        queue = q;
      }

  -- `HandleFrame`, on a connection whose mailbox is `mailbox`.
  unfoldable pub handle_frame : Scheduler → Frame → ℕ → Scheduler × Status
  unfolding handle_grant handle_cancel
  handle_frame s frame mailbox =
      if frame.type_id == task_probe
      then (elim (codec.parse_probe frame.value) [
        | none ↦ (s, Status.invalid_argument)
        | some probe ↦ (handle_probe codec (walk codec s) probe mailbox, Status.ok)
      ])
      else if frame.type_id == task_grant
      then (elim (codec.parse_task frame.value) [
        | none ↦ (s, Status.invalid_argument)
        | some task ↦ (handle_grant s task (lookup task.id s.pull_pending), Status.ok)
      ])
      else if frame.type_id == task_probe_cancel
      then (elim (codec.parse_cancel frame.value) [
        | none ↦ (s, Status.invalid_argument)
        | some task_id ↦ (handle_cancel s task_id, Status.ok)
      ])
      else (s, Status.not_found)
