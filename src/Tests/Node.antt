-- ===== src/Tests/Node.antt =====
-- A node that is probed, cancelled and granted: the theorems of ProbeLocal at these runs.
use strij.Base.{
  ◌⊎◌, suc, ◌+◌, ◌≤◌, ◌<◌, ◌≡◌, refl, String, [], ◌∷◌, none, some, arith, lookup, insert, erase,
  amount_of, length, u64_mod, contains, add_to, add_all, if◌then◌else◌, ◌==◌,
}
use strij.Task.{Task}
use strij.Tlv.{Frame}
use strij.BoundedQueue.{size, push_all}
use strij.Admission.{
  Capabilities, create, admit, reserve, in_flight, assign_all, check_pools, check_concurrency,
  shared_free, register_capacity_observer,
}
use strij.Admission.Holders.{held, running}
use strij.FetchRouter.{Router}
use strij.ProbeLocal.{
  Codec, TaskProbe, Scheduler, initial, walk, walk_loop, handle_probe, handle_admitted, put_pending,
  drop_scope, start_prefetch,
}
use strij.ProbeLocal.Frames.{handle_frame, handle_cancel, remove_queued}
use strij.ProbeLocal.Books.{holders}
use strij.ProbeLocal.Node.{scopes_within_capacity, idle-drained}
use strij.ProbeLocal.Protocol.{ParsesMaps, frame_came, Reach, here, then_step}
use strij.ProbeLocal.Removal.{remove_queued-others, others, has_probe}

abbrev probe : TaskProbe
probe = record { id = "t1"; type = "echo"; requirements = ("cpu", 2) ∷ []; deps = [] }

abbrev task : Task
task = record { id = "t1"; type = "echo"; body = []; requirements = ("cpu", 2) ∷ []; deps = [] }

-- Messages that are empty are malformed, and all others read alike.
abbrev codec : Codec
codec = record {
  parse_probe = λ bytes. if length bytes == 0 then none else some probe;
  parse_task = λ bytes. if length bytes == 0 then none else some task;
  parse_cancel = λ bytes. if length bytes == 0 then none else some "t1";
  write_pull = λ id. 1 ∷ [];
  write_decline = λ id reason. 2 ∷ [];
}

codec-ParsesMaps : ParsesMaps codec
unfolding lookup
codec-ParsesMaps [] p e = absurd (ground (arith, e))
codec-ParsesMaps (x ∷ bytes) p e = ground (arith, e)

abbrev capabilities : Capabilities
capabilities = record {
  pools = ("cpu", 4) ∷ [];
  reservations = ("cpu", 1) ∷ [];
  handlers = ("echo", 2) ∷ [];
}

abbrev router : Router
router = record { by_source = []; objects = []; task_id_tokens = []; fetches = [] }

abbrev start : Scheduler
start = initial 7 (create capabilities) router (("echo", 0) ∷ []) 4 1

abbrev probe_frame : Frame
probe_frame = record { type_id = 6; value = 0 ∷ [] }

abbrev cancel_frame : Frame
cancel_frame = record { type_id = 7; value = 0 ∷ [] }

abbrev probed : Scheduler
probed = (handle_frame codec start probe_frame 5).0

probed_once : length (holders probed) ≡ 1
unfolding handle_frame initial create handle_probe handle_admitted walk walk_loop admit check_pools
    check_concurrency reserve put_pending drop_scope start_prefetch push_all assign_all insert
    lookup contains shared_free add_all add_to register_capacity_observer
probed_once = refl

probed_queue : size probed.queue ≡ 0
unfolding handle_frame initial create handle_probe handle_admitted walk walk_loop admit check_pools
    check_concurrency reserve put_pending drop_scope start_prefetch push_all assign_all insert
    lookup contains shared_free add_all add_to register_capacity_observer
probed_queue = refl

start_room : length (holders start) + suc (size start.queue) < u64_mod
unfolding initial
start_room = omega arith

probed_room : length (holders probed) + suc (size probed.queue) < u64_mod
probed_room = omega (arith, probed_once, probed_queue)

abbrev cancelled : Scheduler
cancelled = (handle_frame codec probed cancel_frame 5).0

Reach-probed : Reach codec start probed
Reach-probed = then_step here (frame_came probe_frame 5 start_room)

Reach-cancelled : Reach codec start cancelled
Reach-cancelled = then_step Reach-probed (frame_came cancel_frame 5 probed_room)

scopes_within_capacity_example :
    ((pool : String)
      → (held pool (holders probed) ≡ 0)
        ⊎ (amount_of pool probed.admission.pool_reserved_map + held pool (holders probed)
            ≤ amount_of pool probed.admission.pool_total_map))
    × ((t : String)
        → (amount_of t probed.admission.type_concurrency_map ≡ 0)
          ⊎ (running t (holders probed) ≤ amount_of t probed.admission.type_concurrency_map))
scopes_within_capacity_example =
    scopes_within_capacity codec capabilities router (("echo", 0) ∷ []) 7 4 1 probed
      codec-ParsesMaps (omega arith, tt) Reach-probed

idle-drained_example :
    ((pool : String) → amount_of pool cancelled.admission.pool_in_use_map ≡ 0)
    × ((t : String) → in_flight cancelled.admission t ≡ 0)
unfolding handle_frame initial create handle_probe handle_admitted walk walk_loop admit check_pools
    check_concurrency reserve put_pending drop_scope start_prefetch push_all assign_all insert
    lookup contains shared_free add_all add_to register_capacity_observer handle_cancel erase
idle-drained_example =
    idle-drained codec capabilities router (("echo", 0) ∷ []) 7 4 1 cancelled codec-ParsesMaps
      (omega arith, tt) Reach-cancelled refl refl

abbrev queued : Scheduler
queued = record start {
  queue = record { max_size = 1; queue = record { probe = probe; pull_mailbox = 5 } ∷ [] };
}

remove_queued-others_example : remove_queued queued.queue "t1" ≡ (
  record queued.queue { queue = others "t1" queued.queue.queue },
  has_probe "t1" queued.queue.queue,
)
remove_queued-others_example = remove_queued-others queued.queue "t1" (omega arith)
