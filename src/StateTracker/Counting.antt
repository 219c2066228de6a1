-- ===== src/StateTracker/Counting.antt =====
-- Submissions and completions keep the tracker exact.
use strij.Base.{
  ℕ, ◌+◌, ◌<◌, ◌≡◌, refl, String, Option, none, some, arith, Assoc, lookup, amount_of, u64_mod,
  Distinct, eq_iff, lookup-insert, amount_of-add_all, amount_of-take_all,
}
use strij.StateTracker.{
  TaskRecord, Tracker, accounting, increment, decrement, record_submission, complete,
  record_completion, in_flight, pool_in_use,
}
use strij.StateTracker.Exact.{
  tasks_on, held_on, IsExact, tasks_on-insert, held_on-insert, WellKeyed-insert, WellKeyed-erase,
  tasks_on-erase, held_on-erase, Distinct-found,
}

module _ (t : Tracker) (x : IsExact t) (task_id node_id : String) (requirements : Assoc ℕ)
    (fresh : lookup task_id t.tasks ≡ none) (d : Distinct requirements)
    (few : tasks_on node_id t.tasks + 1 < u64_mod)
    (fits : (pool : String)
      → held_on node_id pool t.tasks + amount_of pool requirements < u64_mod) where
  submitted-flights :
      (n : String)
      → in_flight (record_submission t task_id node_id requirements) n
        ≡ tasks_on n (record_submission t task_id node_id requirements).tasks
  unfolding record_submission
  submitted-flights n =
      let r : TaskRecord = record { node_id = node_id; requirements = requirements } in
      ground (
        arith,
        eq_iff node_id n,
        x.flights n,
        lookup-insert node_id n (increment (accounting t node_id) requirements) t.per_node,
        tasks_on-insert n task_id r t.tasks,
      )

  submitted-pools :
      (n pool : String)
      → pool_in_use (record_submission t task_id node_id requirements) n pool
        ≡ held_on n pool (record_submission t task_id node_id requirements).tasks
  unfolding record_submission
  submitted-pools n pool =
      let r : TaskRecord = record { node_id = node_id; requirements = requirements } in
      ground (
        arith,
        eq_iff node_id n,
        x.pools n pool,
        fits pool,
        lookup-insert node_id n (increment (accounting t node_id) requirements) t.per_node,
        held_on-insert n pool task_id r t.tasks,
        amount_of-add_all requirements (accounting t node_id).pools pool d,
      )

  -- A new task that is recorded for a node, with sums below 2^64, keeps every figure of every node
  -- equal to the sum over the tasks on record.
  pub record_submission-IsExact : IsExact (record_submission t task_id node_id requirements)
  record_submission-IsExact = record {
    flights = submitted-flights;
    pools = submitted-pools;
    keyed = unfold record_submission in WellKeyed-insert task_id _ t.tasks fresh d x.keyed;
  }

complete-IsExact :
    (t : Tracker) (task_id : String) (found : Option TaskRecord)
    → lookup task_id t.tasks ≡ found
    → IsExact t
    → IsExact (complete t task_id found)
unfolding complete
complete-IsExact t task_id none e x = x
complete-IsExact t task_id (some r) e x = record {
  flights = λ n. ground (
    arith,
    eq_iff r.node_id n,
    x.flights n,
    lookup-insert r.node_id n (decrement (accounting t r.node_id) r.requirements) t.per_node,
    tasks_on-erase n task_id r t.tasks x.keyed e,
  );
  pools = λ n pool. ground (
    arith,
    eq_iff r.node_id n,
    x.pools n pool,
    lookup-insert r.node_id n (decrement (accounting t r.node_id) r.requirements) t.per_node,
    held_on-erase n pool task_id r t.tasks x.keyed e,
    amount_of-take_all r.requirements (accounting t r.node_id).pools pool
        (Distinct-found task_id r t.tasks x.keyed e),
  );
  keyed = WellKeyed-erase task_id t.tasks x.keyed;
}

-- A completion, of a task on record or of an unknown one, keeps every figure of every node equal to
-- the sum over the tasks that are left on record.
pub record_completion-IsExact :
    (t : Tracker) (task_id : String) → IsExact t → IsExact (record_completion t task_id)
unfolding record_completion
record_completion-IsExact t task_id x = complete-IsExact t task_id (lookup task_id t.tasks) refl x
