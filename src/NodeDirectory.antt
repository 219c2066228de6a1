-- ===== src/NodeDirectory.antt =====
-- src/gateway/core/node_directory.hh and .cc, with the parts of src/gateway/core/node.cc that it
-- calls: the gateway's pool of nodes, which follows the snapshots of node discovery. Whether an
-- address parses and a socket can be made for it is the parameter `valid`; if not, StartConnect
-- throws, and the exception leaves the directory. The order of `std::map`, `std::less` on the ids,
-- is the parameter `less`. The results of connecting come later, as completions.
pub mod Members
pub mod Snapshots
pub mod Choice
use strij.Base.{
  ℕ, zero, suc, ◌+◌, ◌%◌, String, Bool, true, false, ◌||◌, List, [], ◌∷◌, ◌++◌, Option, none, some,
  if◌then◌else◌, length, get_elem?, Assoc, has_id, lookup, contains, insert, erase, str_eq,
}
use strij.Admission.Snapshot.{NodeState}
use strij.Capabilities.{NodeCapabilities}

-- `Node::Status`
pub data NodeStatus : Type 0 where
  initial_status connecting connected disconnected : NodeStatus

-- `Node`, with the capabilities that the node advertised and the state that it reported, if it did.
pub record Node : Type 0 where
  pub node_id : String
  pub address : String
  pub status : NodeStatus
  pub has_connection : Bool
  pub capabilities : Option NodeCapabilities
  pub state : Option NodeState

pub record NodeInfo : Type 0 where
  pub node_id : String
  pub address : String

pub record Directory : Type 0 where
  pub nodes : Assoc Node
  pub origin_to_canonical : Assoc String
  pub next_node_index : ℕ

-- An operation is done, or an exception leaves it; either way the directory is what it left.
pub data Outcome : Type 0 where
  done thrown : Directory → Outcome

-- `IsAvailable`
abbrev pub is_available : Node → Bool
is_available node = elim node.status [ connected ↦ true | _ ↦ false ]

-- `Disconnect`
abbrev pub disconnect : Node → Node
disconnect node = record node { status = disconnected; has_connection = false }

-- `HandleCompletion` of a connect, with its result
abbrev pub handle_completion : Node → Bool → Node
handle_completion node true = record node { status = connected; has_connection = true }
handle_completion node false = record node { status = disconnected }

-- `ProcessCommand` of DEFERRED_DELETE
abbrev pub process_deferred_delete : Node → Node
process_deferred_delete node = record node { status = disconnected; has_connection = false }

-- `StoreCapabilities`
abbrev pub store_capabilities : Node → NodeCapabilities → Node
store_capabilities node capabilities = record node { capabilities = some capabilities }

-- `UpdateState`
abbrev pub update_state : Node → NodeState → Node
update_state node state = record node { state = some state }

-- The canonical id of an announced id.
abbrev pub resolve : Directory → String → String
resolve d node_id = elim (lookup node_id d.origin_to_canonical) [
  | none ↦ node_id
  | some canonical ↦ canonical
]

-- The loop of `RemoveNode` over the origins.
unfoldable pub drop_origins : String → Assoc String → Assoc String
drop_origins node_id [] = []
drop_origins node_id ((origin, canonical) ∷ origins) =
    if str_eq canonical node_id
    then drop_origins node_id origins
    else (origin, canonical) ∷ drop_origins node_id origins

-- `RemoveNode`
unfoldable pub remove_node : Directory → String → Directory
remove_node d node_id = elim (lookup node_id d.nodes) [
  | none ↦ d
  | some node ↦ record d {
    nodes = erase node_id d.nodes;
    origin_to_canonical = drop_origins node_id d.origin_to_canonical;
  }
]

-- `present_ids` of `Reconcile`; the origins do not change while it is filled.
abbrev pub present_ids : Directory → List NodeInfo → List String
present_ids d [] = []
present_ids d (info ∷ infos) = resolve d info.node_id ∷ present_ids d infos

-- The second loop of `Reconcile`: the nodes that are not in the snapshot go.
unfoldable pub sweep : List String → Assoc Node → Assoc Node
sweep present [] = []
sweep present ((node_id, node) ∷ nodes) =
    if has_id node_id present then (node_id, node) ∷ sweep present nodes else sweep present nodes

-- The loop of `RekeyNode` over the origins.
unfoldable pub move_origins : String → String → Assoc String → Assoc String
move_origins from_id to_id [] = []
move_origins from_id to_id ((origin, canonical) ∷ origins) =
    (origin, if str_eq canonical from_id then to_id else canonical)
    ∷ move_origins from_id to_id origins

module _ (less : String → String → Bool) where
  -- `insert_or_assign` and `emplace` on `nodes_`
  unfoldable pub put : String → Node → Assoc Node → Assoc Node
  put node_id node [] = (node_id, node) ∷ []
  put node_id node (entry ∷ nodes) =
      if str_eq entry.0 node_id
      then (node_id, node) ∷ nodes
      else if less node_id entry.0
      then (node_id, node) ∷ entry ∷ nodes
      else entry ∷ put node_id node nodes

  -- `RekeyNode`
  unfoldable pub rekey_node : Directory → String → String → Directory
  unfolding put move_origins insert contains
  rekey_node d from_id to_id = if str_eq from_id to_id then d else (elim (lookup from_id d.nodes) [
    | none ↦ d
    | some node ↦ if contains to_id d.nodes then d else record d {
      nodes = erase from_id (put to_id (record node { node_id = to_id }) d.nodes);
      origin_to_canonical = insert from_id to_id (move_origins from_id to_id d.origin_to_canonical);
    }
  ])

  module _ (valid : String → Bool) where
    -- `StartConnect` of a node whose status is kInitial, which is then put into the directory
    abbrev pub connect : Directory → String → Node → Outcome
    connect d node_id node =
        if valid node.address
        then done (record d { nodes = put node_id (record node { status = connecting }) d.nodes })
        else thrown (record d { nodes = put node_id node d.nodes })

    -- `AddNode`
    unfoldable pub add_node : Directory → String → String → Outcome
    unfolding put
    add_node d node_id address = connect d node_id (record {
      node_id = node_id;
      address = address;
      status = initial_status;
      has_connection = false;
      capabilities = none;
      state = none;
    })

    -- `ReconnectTo`, on the node under a key of the directory
    abbrev pub reconnect_to : Directory → String → Node → String → Outcome
    reconnect_to d key node address =
        connect d key
          (record node { address = address; status = initial_status; has_connection = false })

    -- A round of the first loop of `Reconcile`.
    unfoldable pub announce_one : Directory → NodeInfo → Outcome
    unfolding add_node
    announce_one d info = elim (lookup (resolve d info.node_id) d.nodes) [
      | none ↦ add_node d info.node_id info.address
      | some node ↦
          if str_eq node.address info.address
          then done d
          else reconnect_to d (resolve d info.node_id) node info.address
    ]

    -- The first loop of `Reconcile`.
    unfoldable pub announce : Directory → List NodeInfo → Outcome
    unfolding announce_one
    announce d [] = done d
    announce d (info ∷ infos) = elim (announce_one d info) [
      | thrown d' ↦ thrown d'
      | done d' ↦ announce d' infos
    ]

    -- `Reconcile`
    unfoldable pub reconcile : Directory → List NodeInfo → Outcome
    unfolding announce sweep
    reconcile d infos = elim (announce d infos) [
      | thrown d' ↦ thrown d'
      | done d' ↦ done (record d' { nodes = sweep (present_ids d infos) d'.nodes })
    ]
