-- ===== src/GatewayFrames.antt =====
-- src/gateway/core/gateway_tlv_handler.cc: the frames that the gateway gets from nodes. Protobuf is
-- the parameter `Codec`; the scheduler that gets the other frames is the parameter `scheduler`, if
-- there is one. The tracker is the storage's: gateway_framework.cc gives both the same one. The node
-- that owns a connection is named by its id in the directory.
pub mod Results
pub mod Identity
use strij.Base.{
  ℕ, String, Bool, true, false, not, List, Option, none, some, ◌==◌, if◌then◌else◌, Assoc, lookup,
  insert, str_eq,
}
use strij.Task.{
  Task, TaskResult, TaskStatus, ok, capacity_refused, is_task_result_ok, is_final_result,
}
use strij.Tlv.{Frame, result, task_rejected}
use strij.Admission.Snapshot.{NodeState}
use strij.Capabilities.{NodeCapabilities}
use strij.StateTracker.{Tracker, apply_state_snapshot}
use strij.NodeDirectory.{Node, Directory, store_capabilities, update_state, rekey_node}
use strij.ResultStorage.{
  Storage, chunk, error, error_body, get, deliver, notify_client_disconnected,
}
use strij.ProbeGateway.{
  Connection, FrameStatus, frame_ok, invalid_argument, not_found, internal_error,
}

pub record Codec : Type 0 where
  pub parse_capabilities : List ℕ → Option NodeCapabilities
  pub parse_state : List ℕ → Option NodeState
  pub parse_rejected : List ℕ → Option (String × String)
  pub parse_result : List ℕ → Option TaskResult

pub record Gateway : Type 0 where
  pub directory : Directory
  pub storage : Storage

abbrev pub heartbeat : ℕ
heartbeat = 2

abbrev pub node_advertisement : ℕ
node_advertisement = 3

abbrev pub node_state : ℕ
node_state = 4

-- A change of the node that the directory has under a key.
abbrev pub update_node : Directory → String → Node → Directory
update_node d node_id node = record d { nodes = insert node_id node d.nodes }

-- storage_.Erase(id), and RecordCompletion(id) if there is a tracker: what ends a task here and in
-- `NotifyClientDisconnected`.
abbrev pub finish : Storage → String → Storage
finish = notify_client_disconnected

-- `handleTaskRejectedFrame` of a parsed message, with the receiver that the storage has
unfoldable pub handle_rejected : Gateway → String → String → Option ℕ → Gateway × FrameStatus
handle_rejected g id reason none = (g, internal_error)
handle_rejected g id reason (some receiver) = (
  record g { storage = finish (deliver g.storage receiver (error reason capacity_refused)) id },
  frame_ok,
)

-- result.status(); an unset one reads as the first value of the schema.
abbrev pub status_of : TaskResult → TaskStatus
status_of r = elim r.status [ none ↦ ok | some s ↦ s ]

-- `handleTaskResultFrame` of a parsed result, with the receiver that the storage has
unfoldable pub handle_result : Gateway → TaskResult → Option ℕ → Gateway × FrameStatus
handle_result g r none = (g, internal_error)
handle_result g r (some receiver) =
    if not (is_task_result_ok r)
    then (
      record g {
        storage = finish (deliver g.storage receiver (error_body r.body (status_of r))) r.id;
      },
      frame_ok,
    )
    else let delivered = deliver g.storage receiver (chunk r.body (is_final_result r)) in
      if is_final_result r
      then (record g { storage = finish delivered r.id }, frame_ok)
      else (record g { storage = delivered }, frame_ok)

-- `handleNodeStateFrame` of a parsed state, on the node that the directory has
abbrev pub snapshot_in : Option Tracker → NodeState → Option Tracker
snapshot_in none state = none
snapshot_in (some t) state = some (apply_state_snapshot t state)

unfoldable pub handle_state : Gateway → NodeState → String → Node → Gateway × FrameStatus
handle_state g state owner node = (
  record {
    directory = update_node g.directory owner (update_state node state);
    storage = record g.storage { state_tracker = snapshot_in g.storage.state_tracker state };
  },
  frame_ok,
)

-- `owningNode`: the owner of the connection and its node.
unfoldable pub owning_node : Gateway → Connection → Option (String × Node)
owning_node g conn = elim conn.owner [
  | none ↦ none
  | some node_id ↦ elim (lookup node_id g.directory.nodes) [
    | none ↦ none
    | some node ↦ some (node_id, node)
  ]
]

module _ (less : String → String → Bool) (codec : Codec)
    (scheduler : Option (Gateway → Frame → Connection → Gateway × FrameStatus)) where
  -- `handleNodeAdvertisementFrame` of parsed capabilities, on the node that owns the connection
  unfoldable pub handle_advertisement :
      Gateway → NodeCapabilities → String → Node → Gateway × FrameStatus
  handle_advertisement g capabilities owner node =
      let d = update_node g.directory owner (store_capabilities node capabilities) in
      if not (str_eq capabilities.node_id owner)
      then (record g { directory = rekey_node less d owner capabilities.node_id }, frame_ok)
      else (record g { directory = d }, frame_ok)

  -- The case of `HandleFrame` for frames of no other type.
  abbrev pub to_scheduler : Gateway → Frame → Connection → Gateway × FrameStatus
  to_scheduler g frame conn = elim scheduler [
    | none ↦ (g, invalid_argument)
    | some handle ↦ handle g frame conn
  ]

  -- `HandleFrame`, with the parsing at the beginning of each handler
  unfoldable pub handle_frame : Gateway → Frame → Connection → Gateway × FrameStatus
  unfolding owning_node handle_advertisement handle_state handle_rejected handle_result
  handle_frame g frame conn =
      if frame.type_id == node_advertisement
      then (elim (codec.parse_capabilities frame.value) [
        | none ↦ (g, invalid_argument)
        | some capabilities ↦ elim (owning_node g conn) [
          | none ↦ (g, invalid_argument)
          | some (owner, node) ↦ handle_advertisement g capabilities owner node
        ]
      ])
      else if frame.type_id == node_state
      then (elim (codec.parse_state frame.value) [
        | none ↦ (g, invalid_argument)
        | some state ↦ elim (owning_node g conn) [
          | none ↦ (g, internal_error)
          | some (owner, node) ↦ handle_state g state owner node
        ]
      ])
      else if frame.type_id == task_rejected
      then (elim (codec.parse_rejected frame.value) [
        | none ↦ (g, invalid_argument)
        | some (id, reason) ↦ handle_rejected g id reason (get g.storage id)
      ])
      else if frame.type_id == result
      then (elim (codec.parse_result frame.value) [
        | none ↦ (g, invalid_argument)
        | some r ↦ handle_result g r (get g.storage r.id)
      ])
      else if frame.type_id == heartbeat
      then (g, frame_ok)
      else to_scheduler g frame conn
