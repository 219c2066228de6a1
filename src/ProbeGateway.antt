-- ===== src/ProbeGateway.antt =====
-- src/gateway/extensions/schedulers/probe/probe_scheduler.hh and .cc: the gateway's half of the
-- probe protocol. A connection is a number with the id of the node that owns it, if a node does. The
-- clock is read into the argument `now`. What the seeded generator draws for a seed, between two
-- bounds that it includes, is the parameter `draw`, and protobuf is the parameter `Codec`. A call
-- through the null connection of a node that has none is `none`, the end of the process.
pub mod Crash
pub mod Grants
pub mod History
pub mod Pull
pub mod Decline
pub mod Rounds
pub mod Opening
pub mod Sample
pub mod Steps
pub mod Sweep
use strij.Base.{
  ℕ, zero, suc, ◌+◌, ◌-◌, min, String, Bool, true, false, not, ◌||◌, List, [], ◌∷◌, ◌++◌, Option,
  none, some, leb, ◌==◌, if◌then◌else◌, length, get_elem?, take, Assoc, has_id, lookup, insert,
  erase, str_eq,
}
use strij.Task.{Task, capacity_refused, deadline_exceeded}
use strij.Tlv.{
  Frame, serialize_tlv_frame, task_probe, task_probe_cancel, task_pull, task_grant, task_decline,
}
use strij.NodeDirectory.{Node, Directory}
use strij.NodeDirectory.Choice.{get_candidates}
use strij.ProbeLocal.{TaskProbe}
use strij.ResultStorage.{Storage, error, deliver}
use strij.ResultStorage as ResultStorage

-- What protobuf does with the messages of the protocol; `none` means malformed.
pub record Codec : Type 0 where
  pub parse_pull : List ℕ → Option String
  pub parse_decline : List ℕ → Option (String × String)
  pub write_probe : TaskProbe → List ℕ
  pub write_task : Task → List ℕ
  pub write_cancel : String → List ℕ

pub record Connection : Type 0 where
  pub number : ℕ
  pub owner : Option String

-- The connection a message is written to: that of a node, or the one a frame came on.
pub data Target : Type 0 where
  to_node : String → Target
  to_connection : ℕ → Target

pub data Message : Type 0 where
  probe : TaskProbe → Message
  grant : Task → Message
  cancel : String → Message

pub record PendingProbe : Type 0 where
  pub task : Task
  pub receiver : ℕ
  pub probed_node_ids : List String
  pub deadline : ℕ

-- `ProbeScheduler`; `sent` is what was written to connections, oldest first.
pub record ProbeScheduler : Type 0 where
  pub directory : Directory
  pub storage : Storage
  pub candidate_count : ℕ
  pub probe_deadline : ℕ
  pub pending : Assoc PendingProbe
  pub sent : List (Target × Message)

-- The status that `HandleFrame` returns.
pub data FrameStatus : Type 0 where
  frame_ok invalid_argument not_found internal_error : FrameStatus

-- The message of `serializeTaskProbe`
abbrev pub probe_of : Task → TaskProbe
probe_of task = record {
  id = task.id;
  type = task.type;
  requirements = task.requirements;
  deps = task.deps;
}

-- `serializeTaskProbe`, `serializeCancel` and `serializeGrant`: the bytes written for a message.
unfoldable pub serialize : Codec → Message → List ℕ
serialize codec (probe p) = serialize_tlv_frame task_probe (codec.write_probe p)
serialize codec (grant task) = serialize_tlv_frame task_grant (codec.write_task task)
serialize codec (cancel task_id) =
    serialize_tlv_frame task_probe_cancel (codec.write_cancel task_id)

abbrev pub set {ℓ} : {A : Type ℓ} → List A → ℕ → A → List A
set [] i a = []
set (x ∷ xs) zero a = a ∷ xs
set (x ∷ xs) (suc i) a = x ∷ set xs i a

-- `std::swap(pool[i], pool[j])`
abbrev pub swap {ℓ} : {A : Type ℓ} → List A → ℕ → ℕ → List A
swap pool i j = elim (get_elem? pool i) [
  | none ↦ pool
  | some a ↦ elim (get_elem? pool j) [ none ↦ pool | some b ↦ set (set pool i b) j a ]
]

-- `sendProbe` to each sampled node
abbrev pub send_probes :
    Task → List Node → List (Target × Message) → Option (List (Target × Message))
send_probes task [] sent = some sent
send_probes task (node ∷ nodes) sent =
    let rest =
      send_probes task nodes (sent ++ (to_node node.node_id, probe (probe_of task)) ∷ []) in
    if node.has_connection then rest else none

-- `sendCancel` to each node of the list that is in the directory
abbrev pub send_cancels :
    Directory → String → List String → List (Target × Message) → Option (List (Target × Message))
send_cancels d task_id [] sent = some sent
send_cancels d task_id (node_id ∷ ids) sent =
    let skipped = send_cancels d task_id ids sent in
    let written = send_cancels d task_id ids (sent ++ (to_node node_id, cancel task_id) ∷ []) in
    elim (lookup node_id d.nodes) [
      | none ↦ skipped
      | some node ↦ if node.has_connection then written else none
    ]

-- The ids but one: what `std::remove` leaves, and what the loop over the losers does not skip.
abbrev pub others : String → List String → List String
others node_id [] = []
others node_id (id ∷ ids) =
    if str_eq id node_id then others node_id ids else id ∷ others node_id ids

abbrev pub node_ids : List Node → List String
node_ids [] = []
node_ids (node ∷ nodes) = node.node_id ∷ node_ids nodes

abbrev pub fail : ProbeScheduler → ℕ → ResultStorage.Delivery → ProbeScheduler
fail s receiver e = record s { storage = deliver s.storage receiver e }

module _ (draw : String → ℕ → ℕ → ℕ) where
  -- The loop of `sampleCandidates`, from round `i` on, for `left` more rounds.
  unfoldable pub shuffle {ℓ} : {A : Type ℓ} → String → ℕ → ℕ → List A → List A
  shuffle seed zero i pool = pool
  shuffle seed (suc left) i pool =
      shuffle seed left (suc i) (swap pool i (draw seed i (length pool - 1)))

  -- `sampleCandidates`
  unfoldable pub sample_candidates {ℓ} : {A : Type ℓ} → List A → ℕ → String → List A
  unfolding shuffle
  sample_candidates candidates node_num seed =
      let count = min node_num (length candidates) in take count (shuffle seed count 0 candidates)

  -- The round that `Schedule` begins with the sampled nodes.
  unfoldable pub start_round : ProbeScheduler → Task → ℕ → ℕ → List Node → Option ProbeScheduler
  start_round s task receiver now sampled = elim (send_probes task sampled s.sent) [
    | none ↦ none
    | some sent ↦ some (record s {
      pending =
          insert task.id
            (record {
              task = task;
              receiver = receiver;
              probed_node_ids = node_ids sampled;
              deadline = now + s.probe_deadline;
            })
            s.pending;
      sent = sent;
    })
  ]

  -- `Schedule`
  unfoldable pub schedule : ProbeScheduler → Task → ℕ → ℕ → Option ProbeScheduler
  unfolding start_round sample_candidates
  schedule s task receiver now =
      let candidates = get_candidates s.directory "probe" in
      let effective_k = min s.candidate_count (length candidates) in
      if effective_k == 0
      then some (fail s receiver (error "no probe-eligible nodes available" capacity_refused))
      else start_round s task receiver now (sample_candidates candidates effective_k task.id)

-- A round that is overdue: the rest of the body of `SweepExpired`'s loop. The entry is taken off the
-- map by the loop.
unfoldable pub expire : ProbeScheduler → String → PendingProbe → Option ProbeScheduler
expire s task_id p = elim (send_cancels s.directory task_id p.probed_node_ids s.sent) [
  | none ↦ none
  | some sent ↦ some (
      fail (record s { sent = sent }) p.receiver
        (error "no node claimed the task within the probe deadline" deadline_exceeded))
]

-- `SweepExpired`, over the entries that are left, with those that it keeps
unfoldable pub sweep_from :
    ℕ → Assoc PendingProbe → Assoc PendingProbe → ProbeScheduler → Option ProbeScheduler
unfolding expire
sweep_from now [] kept s = some (record s { pending = kept })
sweep_from now ((task_id, p) ∷ rounds) kept s =
    let spared = sweep_from now rounds (kept ++ (task_id, p) ∷ []) s in
    if leb now p.deadline
    then spared
    else (elim (expire s task_id p) [ none ↦ none | some s' ↦ sweep_from now rounds kept s' ])

-- `SweepExpired`
unfoldable pub sweep_expired : ℕ → ProbeScheduler → Option ProbeScheduler
unfolding sweep_from
sweep_expired now s = sweep_from now s.pending [] s

abbrev pub write_on : ProbeScheduler → Connection → Message → ProbeScheduler
write_on s conn message = record s { sent = s.sent ++ (to_connection conn.number, message) ∷ [] }

-- The end of `handleTaskPullFrame`: the pulling node is granted the task.
unfoldable pub grant_to :
    ProbeScheduler → Connection → String → PendingProbe → String → Option ProbeScheduler
grant_to s conn task_id p winner =
    let granted = write_on s conn (grant p.task) in
    elim (send_cancels s.directory task_id (others winner p.probed_node_ids) granted.sent) [
      | none ↦ none
      | some sent ↦ some (record s {
        storage = ResultStorage.put s.storage task_id p.receiver winner;
        pending = erase task_id s.pending;
        sent = sent;
      })
    ]

abbrev pub with_status : FrameStatus → Option ProbeScheduler → Option (ProbeScheduler × FrameStatus)
with_status status none = none
with_status status (some s) = some (s, status)

-- `handleTaskPullFrame` of a parsed pull, with the round that `pending_` has for it
unfoldable pub handle_pull :
    ProbeScheduler
    → Connection
    → String
    → Option PendingProbe
    → Option (ProbeScheduler × FrameStatus)
unfolding grant_to
handle_pull s conn task_id none = some (write_on s conn (cancel task_id), frame_ok)
handle_pull s conn task_id (some p) = elim conn.owner [
  | none ↦ some (s, internal_error)
  | some winner ↦
      if not (has_id winner p.probed_node_ids)
      then some (write_on s conn (cancel task_id), frame_ok)
      else with_status frame_ok (grant_to s conn task_id p winner)
]

abbrev pub without : Option String → List String → List String
without none ids = ids
without (some decliner) ids = others decliner ids

-- `handleTaskDeclineFrame` of a parsed decline, with the round that `pending_` has for it
unfoldable pub handle_decline :
    ProbeScheduler → Connection → String → String → Option PendingProbe → ProbeScheduler
handle_decline s conn task_id reason none = s
handle_decline s conn task_id reason (some p) = elim (without conn.owner p.probed_node_ids) [
  | [] ↦
      fail (record s { pending = erase task_id s.pending }) p.receiver
        (error reason capacity_refused)
  | id ∷ ids ↦ record s {
    pending = insert task_id (record p { probed_node_ids = id ∷ ids }) s.pending;
  }
]

-- `HandleFrame`
unfoldable pub handle_frame :
    Codec → ProbeScheduler → Frame → Connection → Option (ProbeScheduler × FrameStatus)
unfolding handle_pull handle_decline
handle_frame codec s frame conn =
    if frame.type_id == task_pull
    then (elim (codec.parse_pull frame.value) [
      | none ↦ some (s, invalid_argument)
      | some task_id ↦ handle_pull s conn task_id (lookup task_id s.pending)
    ])
    else if frame.type_id == task_decline
    then (elim (codec.parse_decline frame.value) [
      | none ↦ some (s, invalid_argument)
      | some (task_id, reason) ↦
          some (handle_decline s conn task_id reason (lookup task_id s.pending), frame_ok)
    ])
    else some (s, not_found)
