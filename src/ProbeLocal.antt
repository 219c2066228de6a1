-- ===== src/ProbeLocal.antt =====
-- src/nodeagent/extensions/schedulers/probe/probe_local_scheduler.hh and .cc: the node's half of
-- the probe protocol, with the parts that it drives. The messages are parsed and written by
-- protobuf, which is the parameter `Codec`. A mailbox is a number, and `enqueued` are the frames put
-- into mailboxes, oldest first. `running` are the tasks handed to a task handler, each with the
-- scope that its sender holds. Logging is left out.
pub mod Frames
pub mod Books
pub mod Pending
pub mod Capacity
pub mod Handlers
pub mod Walk
pub mod Fates
pub mod Rounds
pub mod Balance
pub mod Removal
pub mod Running
pub mod Safety
pub mod Protocol
pub mod Node
use strij.Base.{
  ℕ, zero, suc, ◌+◌, String, Bool, true, false, not, ◌||◌, List, [], ◌∷◌, ◌++◌, Option, none, some,
  leb, ◌==◌, if◌then◌else◌, length, Assoc, lookup, contains, insert, erase, str_eq,
}
use strij.Task.{Task, DataRef}
use strij.Tlv.{
  Frame, serialize_tlv_frame, task_probe, task_probe_cancel, task_pull, task_grant, task_decline,
}
use strij.BoundedQueue.{BoundedQueue, size, push, try_pop, push_all}
use strij.Admission.{Controller, Status, admit, register_capacity_observer}
use strij.Admission.Scope.{AdmissionScope, release_scope}
use strij.FetchRouter.{Router, all_cached, fetch_all}

-- `task::TaskProbe`
pub record TaskProbe : Type 0 where
  pub id : String
  pub type : String
  pub requirements : Assoc ℕ
  pub deps : List DataRef

-- What protobuf does with the messages of the protocol; `none` means malformed.
pub record Codec : Type 0 where
  pub parse_probe : List ℕ → Option TaskProbe
  pub parse_task : List ℕ → Option Task
  pub parse_cancel : List ℕ → Option String
  pub write_pull : String → List ℕ
  pub write_decline : String → String → List ℕ

pub record QueuedProbe : Type 0 where
  pub probe : TaskProbe
  pub pull_mailbox : ℕ

pub record PullPending : Type 0 where
  pub probe : TaskProbe
  pub scope : AdmissionScope

pub record Scheduler : Type 0 where
  pub admission : Controller
  pub router : Router
  pub max_concurrent_preallocations : ℕ
  pub queue : BoundedQueue QueuedProbe
  pub pull_pending : Assoc PullPending
  pub handlers : Assoc ℕ
  pub running : List (Task × AdmissionScope)
  pub enqueued : List (ℕ × List ℕ)

-- `ProbeLocalScheduler::ProbeLocalScheduler`, over the parts that it is given. The scheduler, which
-- is `observer`, registers with the controller.
unfoldable pub initial : ℕ → Controller → Router → Assoc ℕ → ℕ → ℕ → Scheduler
unfolding register_capacity_observer
initial observer admission router handlers max_concurrent_preallocations max_queue_size = record {
  admission = register_capacity_observer admission observer;
  router = router;
  max_concurrent_preallocations = max_concurrent_preallocations;
  queue = record { max_size = max_queue_size; queue = [] };
  pull_pending = [];
  handlers = handlers;
  running = [];
  enqueued = [];
}

abbrev pub new_scope : TaskProbe → AdmissionScope
new_scope probe = record {
  task_type = probe.type;
  requirements = probe.requirements;
  released = false;
}

-- The destructor of the scope of an entry of `pull_pending_` that goes.
unfoldable pub drop_scope : Controller → Option PullPending → Controller
drop_scope c none = c
drop_scope c (some pending) = (release_scope c pending.scope).0

-- `pull_pending_.insert_or_assign`: the scope of an entry that is replaced is destroyed.
unfoldable pub put_pending : Scheduler → TaskProbe → Scheduler
unfolding drop_scope
put_pending s probe = record s {
  admission = drop_scope s.admission (lookup probe.id s.pull_pending);
  pull_pending = insert probe.id (record { probe = probe; scope = new_scope probe }) s.pull_pending;
}

-- `mailbox->Enqueue`
abbrev pub enqueue : Scheduler → ℕ → List ℕ → Scheduler
enqueue s mailbox frame = record s { enqueued = s.enqueued ++ (mailbox, frame) ∷ [] }

module _ (codec : Codec) where
  -- `sendDecline`
  abbrev pub send_decline : Scheduler → ℕ → String → String → Scheduler
  send_decline s mailbox task_id reason =
      enqueue s mailbox (serialize_tlv_frame task_decline (codec.write_decline task_id reason))

  abbrev pub send_pull : Scheduler → ℕ → String → Scheduler
  send_pull s mailbox task_id =
      enqueue s mailbox (serialize_tlv_frame task_pull (codec.write_pull task_id))

  -- What `walk` does with a popped item, once its dependencies are cached and `Admit` answered.
  unfoldable pub walk_admitted :
      Scheduler → List QueuedProbe → QueuedProbe → Status → Scheduler × List QueuedProbe
  unfolding put_pending
  walk_admitted s deferred item Status.ok =
      (send_pull (put_pending s item.probe) item.pull_mailbox item.probe.id, deferred)
  walk_admitted s deferred item Status.failed_precondition =
      (send_decline s item.pull_mailbox item.probe.id "requirements unsatisfiable", deferred)
  walk_admitted s deferred item _ = (s, deferred ++ item ∷ [])

  -- A round of the loop of `walk`, on a popped item.
  unfoldable pub walk_item :
      Scheduler → List QueuedProbe → QueuedProbe → Scheduler × List QueuedProbe
  unfolding walk_admitted
  walk_item s deferred item =
      if not (all_cached s.router item.probe.deps)
      then (s, deferred ++ item ∷ [])
      else (let (c, status) = admit s.admission item.probe.type item.probe.requirements in
          walk_admitted (record s { admission = c }) deferred item status)

  -- The loop of `walk`: each round pops an item, so the fuel is the size of the queue.
  unfoldable pub walk_loop : ℕ → Scheduler → List QueuedProbe → Scheduler × List QueuedProbe
  unfolding walk_item try_pop
  walk_loop zero s deferred = (s, deferred)
  walk_loop (suc fuel) s deferred =
      elim (leb s.max_concurrent_preallocations (length s.pull_pending)) [
        | true ↦ (s, deferred)
        | false ↦ elim (try_pop s.queue) [
          | none ↦ (s, deferred)
          | some (item, rest) ↦
              let (s', deferred') = walk_item (record s { queue = rest }) deferred item in
              walk_loop fuel s' deferred'
        ]
      ]

  -- `walk`
  unfoldable pub walk : Scheduler → Scheduler
  unfolding walk_loop push_all push
  walk s =
      let (s', deferred) = walk_loop (size s.queue) s [] in
      record s' { queue = push_all s'.queue deferred }

  -- `startPrefetch`
  unfoldable pub start_prefetch : Scheduler → TaskProbe → Scheduler
  start_prefetch s probe =
      if length probe.deps == 0 || all_cached s.router probe.deps
      then s
      else record s { router = fetch_all s.router probe.deps probe.id }

  -- `handleProbe` after the answer of `Admit`
  unfoldable pub handle_admitted : Scheduler → TaskProbe → ℕ → Status → Scheduler
  unfolding put_pending start_prefetch push
  handle_admitted s probe mailbox Status.ok =
      start_prefetch (send_pull (put_pending s probe) mailbox probe.id) probe
  handle_admitted s probe mailbox Status.resource_exhausted =
      let (q, done) = push s.queue (record { probe = probe; pull_mailbox = mailbox }) in
      if not done
      then send_decline s mailbox probe.id "queue full"
      else start_prefetch (record s { queue = q }) probe
  handle_admitted s probe mailbox _ = send_decline s mailbox probe.id "requirements unsatisfiable"

  -- `handleProbe`
  unfoldable pub handle_probe : Scheduler → TaskProbe → ℕ → Scheduler
  unfolding handle_admitted
  handle_probe s probe mailbox =
      let (c, status) = admit s.admission probe.type probe.requirements in
      handle_admitted (record s { admission = c }) probe mailbox status
