-- ===== src/Tests/Gateway.antt =====
-- The gateway's theorems at concrete states.
use strij.Base.{◌≡◌, refl, String, [], ◌∷◌, ◌++◌, none, arith, if◌then◌else◌, lookup}
use strij.StateTracker.{Tracker, record_submission, record_completion}
use strij.StateTracker.Exact.{IsExact}
use strij.StateTracker.Counting.{record_submission-IsExact, record_completion-IsExact}
use strij.ResultStorage.{Storage, notify_node_disconnected, tasks_of, put}
use strij.ResultStorage.Cleanup.{notify_node_disconnected-clears, is_on, errors_of}
use strij.ResultStorage.Pairing.{IsPaired, Call-IsPaired, puts}

abbrev fresh_tracker : Tracker
fresh_tracker = record { per_node = []; tasks = [] }

fresh_tracker-IsExact : IsExact fresh_tracker
unfolding lookup
fresh_tracker-IsExact = record {
  flights = λ node_id. refl;
  pools = λ node_id pool. refl;
  keyed = tt;
}

record_submission-IsExact_example :
    IsExact (record_submission fresh_tracker "t1" "n1" (("cpu", 2) ∷ []))
unfolding lookup
record_submission-IsExact_example =
    record_submission-IsExact fresh_tracker fresh_tracker-IsExact "t1" "n1" (("cpu", 2) ∷ []) refl
      (refl, tt) (omega arith) (λ pool. ground arith)

record_completion-IsExact_example :
    IsExact (record_completion (record_submission fresh_tracker "t1" "n1" (("cpu", 2) ∷ [])) "t1")
record_completion-IsExact_example =
    record_completion-IsExact (record_submission fresh_tracker "t1" "n1" (("cpu", 2) ∷ [])) "t1"
      record_submission-IsExact_example

abbrev two_tasks : Storage
two_tasks = record {
  state_tracker = none;
  receivers = ("t1", 1) ∷ ("t2", 2) ∷ [];
  node_of_task = ("t1", "n1") ∷ ("t2", "n2") ∷ [];
  deliveries = [];
}

notify_node_disconnected-clears_example :
    let s' = notify_node_disconnected two_tasks "n1" in
    ((id : String)
      → let gone = is_on "n1" (lookup id two_tasks.node_of_task) in
        (lookup id s'.receivers ≡ (if gone then none else lookup id two_tasks.receivers))
        × (lookup id s'.node_of_task ≡ (if gone then none else lookup id two_tasks.node_of_task)))
    × (s'.deliveries
        ≡ two_tasks.deliveries
          ++ errors_of two_tasks.receivers (tasks_of "n1" two_tasks.node_of_task))
unfolding lookup
notify_node_disconnected-clears_example =
    notify_node_disconnected-clears two_tasks "n1" (refl, (refl, tt))

abbrev no_tasks : Storage
no_tasks = record { state_tracker = none; receivers = []; node_of_task = []; deliveries = [] }

Call-IsPaired_example : IsPaired (put no_tasks "t1" 1 "n1")
unfolding lookup
Call-IsPaired_example =
    Call-IsPaired {s = no_tasks} (puts "t1" "n1" 1)
      (record { same = λ id. refl; receivers_once = tt; nodes_once = tt })
