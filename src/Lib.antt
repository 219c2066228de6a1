-- ===== src/Lib.antt =====
-- A verification library for strij, which runs tasks on nodes on behalf of gateways.
--
-- A gateway and a node exchange frames (type, length, value) over a connection. The node probes its
-- own capacity for every task that a gateway offers, pulls the tasks that fit, runs those that are
-- granted, and gives their capacity back when they end. The gateway keeps, for every task, who waits
-- for its results. What is modelled is the core of a node, the framing that both sides share, and the
-- gateway's nodes, schedulers and receivers:
--
--   * Tlv (src/common/core/io/tlv_frame.hh, tlv_frame.cc): frames and SerializeTlvFrame.
--     Tlv/Parser (src/common/core/io/tlv_parser.hh, tlv_parser.cc) is the incremental parser over its
--     buffer of 4096 bytes: `get_read_buffer`, `on_data`, `iterate`, `set_state` are the methods of
--     those names. `receive` is one read of a connection, and `receive_all` several. Tlv/Bytes holds
--     byte order and buffer access. The other children hold proofs: Pieces, Conserve (a round),
--     Delivery (OnData), Reads (GetReadBuffer), Chunks (reads), RoundTrip, Boundary.
--   * BoundedQueue (src/common/core/utils/bounded_queue.hh).
--   * Task (api/common/task/task.proto, src/common/core/utils/task_status.cc).
--   * Admission (src/nodeagent/core/admission_controller.hh, admission_controller.cc): the controller's
--     books. Admission/Scope has AdmissionScope and AdmissionTrackingSender
--     (src/nodeagent/core/admission_tracking_sender.hh); Admission/Snapshot has BuildStateSnapshot.
--     Accounts, Holders and Capacity hold proofs.
--   * FetchRouter (src/nodeagent/core/data_dependency_fetcher_router.cc, object_cache.cc).
--   * ProbeLocal (src/nodeagent/extensions/schedulers/probe/probe_local_scheduler.hh and .cc): the
--     walk over the queue and the handling of probes; ProbeLocal/Frames has the frames and commands,
--     and the variant of RunTask in src/nodeagent/core/run_task_service.cc that takes a reserved
--     scope. It uses Admission, BoundedQueue, FetchRouter and Tlv. The other children hold proofs.
--   * NodeDirectory (src/gateway/core/node_directory.hh, node_directory.cc, node.cc): the gateway's
--     pool of nodes, `reconcile` with a snapshot, `rekey_node`; NodeDirectory/Choice has GetNextNode,
--     GetCandidates and the choice of src/gateway/extensions/schedulers/round_robin, with proofs in
--     Search and Turns. Members and Snapshots hold proofs. The order of the ids and whether an address is valid are parameters.
--   * Capabilities (api/common/node/capabilities.proto): what a node advertises.
--   * StateTracker (src/gateway/core/exact_state_tracker.hh, exact_state_tracker.cc): the gateway's
--     count of the load of its nodes. Exact and Counting hold proofs.
--   * ResultStorage (src/gateway/core/result_receiver_storage.hh, result_receiver_storage.cc): the
--     receivers of the tasks' results, and what they are given. Cleanup and Pairing hold proofs.
--   * PushGateway: `Schedule` of the round robin, and what it shares with CapabilityAware
--     (src/gateway/extensions/schedulers/capability_aware/capability_aware_scheduler.cc), which chooses
--     the least loaded node among those that can take a task. Fit, Improve and Least hold proofs.
--   * ProbeGateway (src/gateway/extensions/schedulers/probe/probe_scheduler.hh and .cc): the gateway's
--     half of the probe protocol. It uses NodeDirectory and ResultStorage. Sample, Opening, Pull,
--     Decline, Sweep and Crash hold proofs on the operations; Grants, Rounds, Steps and History are
--     about histories of them.
--   * GatewayFrames (src/gateway/core/gateway_tlv_handler.cc): the frames that the gateway gets from
--     nodes. It uses NodeDirectory, ResultStorage and StateTracker. Results and Identity hold proofs.
--   * LocalScheduler (src/nodeagent/extensions/schedulers/default/default_local_scheduler.cc, and in
--     src/nodeagent/core local_result_receiver_storage.cc, storage_result_sender.cc and a variant of
--     RunTask): the child tasks of a node's tasks. It uses Admission. Outcome and Stream hold proofs.
--   * Workflow (src/openworkflow/task.hh, and frame.hh and frame.cc in
--     src/nodeagent/extensions/task_handlers/openworkflow): documents, flow directives and the frames
--     that run them. Sequence has the state of a sequence and the steps without a frame of their own,
--     Advance its loop, Composites the loop task, Forks the fork, `abandon`, and `advance` of every
--     frame. The other children hold proofs. The interpreter that owns the frames is a parameter.
--   * Base: numbers, lists, association lists for maps, and counters (Base/Amounts).
--   * Tests: the theorems at concrete inputs.
--
-- State is passed explicitly. Callbacks and mailboxes are lists of what they were handed, oldest
-- first. uint64_t arithmetic wraps modulo 2^64. An `assert`, `at()` or null dereference of the
-- parser that fails is the result `abort`, and the flag `asserts` tells builds with and without
-- NDEBUG apart. The parser's loop runs on fuel, one unit more than the unread bytes, and each round
-- of it reads a byte or stops; the loops over the queue have the size of the queue as fuel, since
-- each round pops an item. Both are shown to be enough. `advance` of a workflow's frame has fuel
-- for the depth of its nesting, and the loops in it for as many rounds as their budgets allow. A
-- sequence of events is a step relation (Step and Reach of Admission/Holders and of
-- ProbeLocal/Protocol), whose steps ask that a node holds fewer than 2^64 - 1 scopes.
--
-- What protobuf makes of the messages is the parameter `Codec`; of it the theorems only use that a
-- parsed map has no key twice. Task handlers and fetchers are other code: only that they are called
-- is recorded. A receiver is a number, and what it is given is a log. Not modelled are the other
-- schedulers of nodes, the workflow interpreter and the decoding of its documents, nor sockets,
-- HTTP, processes, logging, random ids and the start-up, which are input and output.
pub mod Admission
mod Base
pub mod BoundedQueue
pub mod Capabilities
pub mod CapabilityAware
pub mod FetchRouter
pub mod GatewayFrames
pub mod LocalScheduler
pub mod NodeDirectory
pub mod ProbeGateway
pub mod ProbeLocal
pub mod PushGateway
pub mod ResultStorage
pub mod StateTracker
pub mod Task
mod Tests
pub mod Tlv
pub mod Workflow
