-- ===== src/Tests/Probes.antt =====
-- The theorems on the gateway's probe scheduler at concrete states.
use strij.Base.{
  Bool, List, ℕ, ◌+◌, ◌≤◌, ◌≡◌, refl, String, true, false, [], ◌∷◌, ◌++◌, none, some, arith, lookup,
  length, min, insert, erase,
}
use strij.Task.{Task, capacity_refused}
use strij.Tlv.{Frame, task_pull}
use strij.NodeDirectory.{Node, Directory, connected}
use strij.ResultStorage.{Storage, get, error, put}
use strij.NodeDirectory.Choice.{candidates_of}
use strij.ProbeGateway.{
  Codec, Connection, PendingProbe, ProbeScheduler, schedule, sweep_expired, handle_frame, write_on,
  cancel, grant, frame_ok, to_connection, others, node_ids, probe, probe_of, to_node, handle_pull,
  handle_decline, grant_to, start_round, sample_candidates, shuffle,
}
use strij.ProbeGateway.Sweep.{swept, sweep_expired-resolves, cancels_of}
use strij.ProbeGateway.Crash.{sweep_expired-crashes}
use strij.ProbeGateway.Grants.{grants}
use strij.ProbeGateway.Rounds.{open_rounds}
use strij.ProbeGateway.History.{History, created, scheduled, received, grants-bounded}
use strij.ProbeGateway.Opening.{schedule-opens, candidates, probes_of}
use strij.ProbeGateway.Sample.{count}
use strij.ProbeGateway.Pull.{pull-wins}
use strij.ProbeGateway.Decline.{decline_all, decline_all-resolves}

abbrev pub ready : String → Node
ready id = record {
  node_id = id;
  address = "10.0.0.1:7";
  status = connected;
  has_connection = true;
  capabilities = none;
  state = none;
}

abbrev storage : Storage
storage = record { state_tracker = none; receivers = []; node_of_task = []; deliveries = [] }

abbrev directory : Directory
directory = record {
  nodes = ("n1", ready "n1") ∷ ("n2", ready "n2") ∷ [];
  origin_to_canonical = [];
  next_node_index = 0;
}

abbrev task : Task
task = record { id = "t1"; type = "echo"; body = 1 ∷ []; requirements = []; deps = [] }

abbrev round : PendingProbe
round = record { task = task; receiver = 4; probed_node_ids = "n1" ∷ "n2" ∷ []; deadline = 100 }

abbrev probing : ProbeScheduler
probing = record {
  directory = directory;
  storage = storage;
  candidate_count = 2;
  probe_deadline = 100;
  pending = ("t1", round) ∷ [];
  sent = [];
}

abbrev idle : ProbeScheduler
idle = record probing { pending = [] }

abbrev first_of : String → ℕ → ℕ → ℕ
first_of seed i last = i

abbrev codec : Codec
codec = record {
  parse_pull = λ bytes. some "t1";
  parse_decline = λ bytes. some ("t1", "busy");
  write_probe = λ p. [];
  write_task = λ t. [];
  write_cancel = λ id. [];
}

abbrev pull : Frame
pull = record { type_id = task_pull; value = [] }

abbrev from_n1 : Connection
from_n1 = record { number = 9; owner = some "n1" }

sweep_expired-resolves_example :
    sweep_expired 101 probing ≡ some (swept 101 probing.pending [] probing)
unfolding lookup
sweep_expired-resolves_example =
    sweep_expired-resolves 101 probing
      ((λ node e. ground (arith, e), (λ node e. ground (arith, e), tt)), tt)

abbrev lost : Node
lost = record (ready "n2") { has_connection = false }

abbrev cut_off : ProbeScheduler
cut_off = record probing { directory = record directory { nodes = ("n2", lost) ∷ [] } }

sweep_expired-crashes_example : sweep_expired 101 cut_off ≡ none
unfolding lookup
sweep_expired-crashes_example =
    sweep_expired-crashes 101 cut_off "t1" "n2" round lost refl refl refl refl refl

abbrev started : ProbeScheduler
started = record probing {
  sent = (to_node "n1", probe (probe_of task)) ∷ (to_node "n2", probe (probe_of task)) ∷ [];
}

abbrev granted : ProbeScheduler
granted = record idle {
  storage = put storage "t1" 4 "n1";
  sent =
      (to_node "n1", probe (probe_of task))
      ∷ (to_node "n2", probe (probe_of task))
      ∷ (to_connection 9, grant task)
      ∷ (to_node "n2", cancel "t1")
      ∷ [];
}

history_of_started : History first_of codec "t1" started 1
unfolding schedule start_round sample_candidates shuffle candidates_of insert
history_of_started =
    scheduled {s = idle} {s' = started} task 4 0 (created {s = idle} refl refl) refl

history_of_granted : History first_of codec "t1" granted 1
unfolding handle_frame handle_pull grant_to lookup erase
history_of_granted =
    received {s = started} {s' = granted} pull from_n1 frame_ok history_of_started refl

grants-bounded_example : grants "t1" granted.sent + open_rounds "t1" granted.pending ≤ 1
grants-bounded_example = grants-bounded first_of codec "t1" granted 1 history_of_granted

schedule-opens_example :
    (s' : ProbeScheduler) × (nodes : List Node) × (schedule first_of idle task 4 0 ≡ some s')
    × (length nodes ≡ min 2 (length (candidates first_of idle task 4 0)))
    × ((p : Node → Bool) → count p nodes ≤ count p (candidates first_of idle task 4 0))
    × (lookup "t1" s'.pending
        ≡ some (record {
          task = task;
          receiver = 4;
          probed_node_ids = node_ids nodes;
          deadline = 0 + 100;
        }))
    × (s'.sent ≡ idle.sent ++ probes_of task nodes)
unfolding candidates_of
schedule-opens_example = schedule-opens first_of idle task 4 0 (omega arith) (omega arith) refl

pull-wins_example :
    (s' : ProbeScheduler) × (handle_frame codec probing pull from_n1 ≡ some (s', frame_ok))
    × (s'.sent
        ≡ probing.sent
          ++ (to_connection 9, grant task)
            ∷ cancels_of directory "t1" (others "n1" round.probed_node_ids))
    × (get s'.storage "t1" ≡ some 4)
    × ((later : Connection)
        → handle_frame codec s' pull later ≡ some (write_on s' later (cancel "t1"), frame_ok))
unfolding lookup
pull-wins_example =
    pull-wins codec probing "t1" "n1" round from_n1 pull refl refl refl refl refl
      (λ node e. ground (arith, e), tt) refl

abbrev from_n2 : Connection
from_n2 = record { number = 8; owner = some "n2" }

abbrev from_nobody : Connection
from_nobody = record { number = 7; owner = none }

abbrev declines : List (Connection × String)
declines = (from_n2, "full") ∷ (from_nobody, "gone") ∷ (from_n2, "full") ∷ []

decline_all-resolves_example :
    let waiting = decline_all probing "t1" declines in
    let over = handle_decline waiting from_n1 "t1" "busy" (lookup "t1" waiting.pending) in
    (lookup "t1" waiting.pending ≡ some (record round { probed_node_ids = "n1" ∷ [] }))
    × (waiting.storage ≡ storage)
    × (lookup "t1" over.pending ≡ none)
    × (over.storage.deliveries ≡ storage.deliveries ++ (4, error "busy" capacity_refused) ∷ [])
unfolding lookup
decline_all-resolves_example =
    decline_all-resolves "t1" probing round declines from_n1 "busy" "n1" [] refl refl refl
