-- ===== src/Tests/Capacity.antt =====
-- The theorems of Admission and BoundedQueue at concrete controllers and queues.
use strij.Base.{
  List, ℕ, ◌+◌, ◌≤◌, ◌≡◌, ◌⊎◌, refl, String, false, [], ◌∷◌, none, some, arith, lookup, insert,
  contains, amount_of, add_to, add_all, if◌then◌else◌,
}
use strij.Task.{TaskResult, TaskStatus}
use strij.BoundedQueue.{BoundedQueue, Op, pushes, pops, clears, run, run-fifo, KeepsOrder}
use strij.Admission.{
  Capabilities, Controller, ok, create, admit, reserve, release, in_flight, assign_all, check_pools,
  check_concurrency, shared_free,
}
use strij.Admission.Capacity.{AllWords, create-IsExact, held_within_capacity, drained}
use strij.Admission.Holders.{
  Holder, held, running, Step, admitted, released, Reach, here, next, IsExact, Step-IsExact,
}
use strij.Admission.Scope.{TrackingSender, live, live-releases_once}
use strij.Admission.Snapshot.{build_state_snapshot, snapshot-pools}

abbrev capabilities : Capabilities
capabilities = record {
  pools = ("cpu", 4) ∷ [];
  reservations = ("cpu", 1) ∷ [];
  handlers = ("echo", 2) ∷ [];
}

capabilities-AllWords : AllWords capabilities.pools
capabilities-AllWords = (omega arith, tt)

abbrev task : Holder
task = record { task_type = "echo"; resources = ("cpu", 2) ∷ [] }

abbrev started : Controller
started = create capabilities

abbrev busy : Controller
busy = reserve started "echo" (("cpu", 2) ∷ [])

abbrev idle : Controller
idle = release busy "echo" (("cpu", 2) ∷ [])

task_admitted : admit started "echo" (("cpu", 2) ∷ []) ≡ (busy, ok)
unfolding admit create check_pools check_concurrency reserve assign_all insert lookup contains
    shared_free add_all add_to
task_admitted = refl

admission : Step started [] busy (task ∷ [])
admission = admitted task (unfold lookup in (refl, tt)) (omega arith) task_admitted

the_release : Step busy (task ∷ []) idle []
the_release = released [] task [] refl refl refl

Reach-busy : Reach started busy (task ∷ [])
Reach-busy = next (here refl refl) admission

held_within_capacity_example :
    ((pool : String)
      → (held pool (task ∷ []) ≡ 0)
        ⊎ (amount_of pool busy.pool_reserved_map + held pool (task ∷ [])
            ≤ amount_of pool busy.pool_total_map))
    × ((t : String)
        → (amount_of t busy.type_concurrency_map ≡ 0)
          ⊎ (running t (task ∷ []) ≤ amount_of t busy.type_concurrency_map))
held_within_capacity_example =
    held_within_capacity capabilities busy (task ∷ []) capabilities-AllWords Reach-busy

drained_example :
    ((pool : String) → amount_of pool idle.pool_in_use_map ≡ 0)
    × ((t : String) → in_flight idle t ≡ 0)
drained_example = drained capabilities idle capabilities-AllWords (next Reach-busy the_release)

Step-IsExact_example : IsExact busy (task ∷ [])
Step-IsExact_example = Step-IsExact admission (create-IsExact capabilities capabilities-AllWords)

abbrev failed : TaskResult
failed = record { id = "t1"; body = []; is_final = some false; status = some TaskStatus.internal }

abbrev sender : TrackingSender
sender = record {
  sent = [];
  scope = record { task_type = "echo"; requirements = ("cpu", 2) ∷ []; released = false };
}

live-releases_once_example :
    live busy sender (failed ∷ failed ∷ []) ≡ release busy "echo" (("cpu", 2) ∷ [])
live-releases_once_example = live-releases_once busy sender (failed ∷ failed ∷ []) refl

snapshot-pools_example :
    lookup "cpu" (build_state_snapshot busy "n1" 1 0).pools
    ≡ (if contains "cpu" busy.pool_total_map then some (held "cpu" (task ∷ [])) else none)
snapshot-pools_example =
    snapshot-pools busy (task ∷ []) "n1" 1 0 "cpu"
      (Step-IsExact admission (create-IsExact capabilities capabilities-AllWords))

abbrev pair : BoundedQueue ℕ
pair = record { max_size = 1; queue = [] }

abbrev calls : List (Op ℕ)
calls = pushes 3 ∷ pushes 4 ∷ pops ∷ clears ∷ []

run-fifo_example : KeepsOrder pair (run pair calls)
run-fifo_example = run-fifo pair calls
