-- ===== src/PushGateway.antt =====
-- The schedulers of the gateway that push a task to a node they choose:
-- src/gateway/extensions/schedulers/round_robin/round_robin_scheduler.cc, and what
-- capability_aware_scheduler.cc has in common with it. `write_task` is protobuf's serialisation,
-- which may fail. A call through the null connection of a node that has none is `none`, the end of
-- the process.
use strij.Base.{ℕ, String, List, [], ◌∷◌, ◌++◌, Option, none, some, if◌then◌else◌}
use strij.Task.{Task, capacity_refused, internal}
use strij.Tlv.{serialize_tlv_frame, task_submission}
use strij.NodeDirectory.{Node, Directory}
use strij.NodeDirectory.Choice.{choose}
use strij.ResultStorage.{Storage, error, deliver, put}

-- A scheduler, with the frames that were written to the connections of nodes.
pub record PushScheduler : Type 0 where
  pub directory : Directory
  pub storage : Storage
  pub next_index : ℕ
  pub written : List (String × List ℕ)

abbrev pub refuse : PushScheduler → ℕ → String → PushScheduler
refuse s receiver reason = record s {
  storage = deliver s.storage receiver (error reason capacity_refused);
}

module _ (write_task : Task → Option (List ℕ)) where
  -- `Schedule` from the chosen node on
  unfoldable pub submit_to : PushScheduler → Task → ℕ → Node → Option PushScheduler
  submit_to s task receiver node = elim (write_task task) [
    | none ↦ some (record s {
      storage =
          deliver s.storage receiver (error "failed to serialize task for submission" internal);
    })
    | some bytes ↦
        if node.has_connection
        then some (record s {
          storage = put s.storage task.id receiver node.node_id;
          written = s.written ++ (node.node_id, serialize_tlv_frame task_submission bytes) ∷ [];
        })
        else none
  ]

  -- `RoundRobinScheduler::Schedule`
  unfoldable pub round_robin_schedule : PushScheduler → Task → ℕ → Option PushScheduler
  unfolding submit_to
  round_robin_schedule s task receiver = elim (choose s.directory s.next_index) [
    | none ↦ some (refuse s receiver "no available node for task submission")
    | some (node, next_index) ↦ submit_to (record s { next_index = next_index }) task receiver node
  ]
