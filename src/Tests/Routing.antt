-- ===== src/Tests/Routing.antt =====
-- The theorems on the gateway's frames and its choice of nodes at concrete states.
use strij.Base.{
  arith, eq_iff, ℕ, ◌+◌, ◌/◌, ◌≤◌, ◌<◌, ◌≡◌, refl, String, Bool, true, false, List, [], ◌∷◌, ◌++◌,
  Option, none, some, lookup, contains, get_elem?, if◌then◌else◌,
}
use strij.Task.{Task, TaskResult, internal}
use strij.Tlv.{Frame}
use strij.Capabilities.{NodeCapabilities, HandlerCapability}
use strij.NodeDirectory.{Node, Directory, resolve}
use strij.NodeDirectory.Choice.{get_candidates, candidates_of}
use strij.ResultStorage.{get, notify_node_disconnected}
use strij.ProbeGateway.{Connection, FrameStatus}
use strij.GatewayFrames.{Codec, Gateway, node_advertisement, handle_frame}
use strij.GatewayFrames.Results.{handle_results, handle_results-stream, stream, ends}
use strij.GatewayFrames.Identity.{advertisement-identifies, advertisement-orphans, told, IsOwn}
use strij.CapabilityAware.{
  eligible, choose, find_handler, pool_total, pool_reserved, pool_in_use, type_in_flight,
  choose_from, has_room_for, handler_among, load_ratio, reserved_among,
}
use strij.CapabilityAware.Fit.{eligible-fits}
use strij.CapabilityAware.Least.{NoMoreLoaded, choose-Least}
use strij.Tests.Probes.{ready}

abbrev less : String → String → Bool
less a b = false

abbrev echoes : HandlerCapability
echoes = record { task_type = "echo"; concurrency = 2 }

abbrev offer : NodeCapabilities
offer = record {
  node_id = "n9";
  pools = ("cpu", 8) ∷ [];
  reservations = record { task_type = "echo"; pool = "cpu"; amount = 2 } ∷ [];
  handlers = echoes ∷ [];
  scheduling_protocols = "push" ∷ [];
}

abbrev codec : Codec
codec = record {
  parse_capabilities = λ bytes. some offer;
  parse_state = λ bytes. none;
  parse_rejected = λ bytes. none;
  parse_result = λ bytes. none;
}

abbrev gateway : Gateway
gateway = record {
  directory = record {
    nodes = ("n1", ready "n1") ∷ [];
    origin_to_canonical = [];
    next_node_index = 0;
  };
  storage = record {
    state_tracker = none;
    receivers = ("t1", 4) ∷ [];
    node_of_task = ("t1", "n1") ∷ [];
    deliveries = [];
  };
}

abbrev advertisement : Frame
advertisement = record { type_id = node_advertisement; value = [] }

abbrev from_n1 : Connection
from_n1 = record { number = 9; owner = some "n1" }

abbrev no_scheduler : Option (Gateway → Frame → Connection → Gateway × FrameStatus)
no_scheduler = none

advertisement-identifies_example :
    let d' = ((handle_frame less codec no_scheduler gateway advertisement from_n1).0).directory in
    (lookup "n9" d'.nodes
      ≡ some (record (ready "n1") { node_id = "n9"; capabilities = some offer }))
    × (lookup "n1" d'.nodes ≡ none)
    × (resolve d' "n1" ≡ "n9")
unfolding lookup contains
advertisement-identifies_example =
    advertisement-identifies less codec no_scheduler gateway advertisement from_n1 "n1" (ready "n1")
      offer refl refl refl refl refl refl

only_task : IsOwn gateway.storage.receivers 4 "t1"
unfolding lookup
only_task other found = ground (arith, found, eq_iff "t1" other)

advertisement-orphans_example :
    let g' = (handle_frame less codec no_scheduler gateway advertisement from_n1).0 in
    let after = notify_node_disconnected g'.storage "n9" in
    (get after "t1" ≡ some 4) × (told 4 after.deliveries ≡ told 4 gateway.storage.deliveries)
unfolding lookup
advertisement-orphans_example =
    advertisement-orphans less codec no_scheduler gateway advertisement from_n1 "n1" (ready "n1")
      offer refl refl refl refl refl "t1" 4 refl refl (refl, tt) only_task

abbrev pub part : TaskResult
part = record { id = "t1"; body = 7 ∷ []; is_final = some false; status = none }

abbrev pub failure : TaskResult
failure = record { id = "t1"; body = 8 ∷ []; is_final = none; status = some internal }

abbrev results : List TaskResult
results = part ∷ failure ∷ part ∷ []

handle_results-stream_example :
    ((handle_results gateway results).storage.deliveries
      ≡ gateway.storage.deliveries ++ stream 4 results)
    × (get (handle_results gateway results).storage "t1" ≡ (if ends results then none else some 4))
unfolding lookup
handle_results-stream_example =
    handle_results-stream 4 gateway "t1" results (refl, (refl, (refl, tt))) refl

abbrev able : Node
able = record (ready "n9") { capabilities = some offer }

abbrev task : Task
task = record { id = "t2"; type = "echo"; body = []; requirements = ("cpu", 6) ∷ []; deps = [] }

abbrev directory : Directory
directory = record { nodes = ("n9", able) ∷ []; origin_to_canonical = []; next_node_index = 0 }

abbrev divide : ℕ → ℕ → ℕ
divide a b = a / b

eligible-fits_example :
    (caps : NodeCapabilities) × (able.capabilities ≡ some caps)
    × ((pool : String) (amount : ℕ)
        → lookup pool task.requirements ≡ some amount
        → 0 < amount
        → pool_reserved able.capabilities pool + pool_in_use able.state pool + amount
          ≤ pool_total able.capabilities pool)
    × ((handler : HandlerCapability)
        → find_handler able.capabilities task.type ≡ some handler
        → 0 < handler.concurrency
        → type_in_flight able.state task.type < handler.concurrency)
unfolding eligible has_room_for handler_among reserved_among lookup
eligible-fits_example = eligible-fits able task refl

choose-Least_example :
    (eligible able task ≡ true)
    × ((i : ℕ) × (get_elem? (get_candidates directory "push") i ≡ some able))
    × ((i : ℕ) (other : Node)
        → get_elem? (get_candidates directory "push") i ≡ some other
        → eligible other task ≡ true
        → NoMoreLoaded divide task able other)
unfolding choose choose_from eligible has_room_for handler_among reserved_among lookup load_ratio
    candidates_of
choose-Least_example = choose-Least divide task directory able refl
