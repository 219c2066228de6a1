-- ===== src/StateTracker.antt =====
-- src/gateway/core/exact_state_tracker.hh and .cc: the gateway's count of the load of each node.
pub mod Exact
pub mod Counting
use strij.Base.{
  ℕ, ◌+◌, ◌-◌, ◌%◌, String, Option, none, some, Assoc, lookup, insert, erase, amount_of, add_all,
  take_all, u64_mod, [],
}
use strij.Admission.{assign_all}
use strij.Admission.Snapshot.{NodeState}

-- `NodeAccounting`
pub record Accounting : Type 0 where
  pub in_flight : ℕ
  pub pools : Assoc ℕ

pub record TaskRecord : Type 0 where
  pub node_id : String
  pub requirements : Assoc ℕ

pub record Tracker : Type 0 where
  pub per_node : Assoc Accounting
  pub tasks : Assoc TaskRecord

abbrev pub or_new : Option Accounting → Accounting
or_new none = record { in_flight = 0; pools = [] }
or_new (some account) = account

-- `accounting`, as it is read; it is written back by `insert`
abbrev pub accounting : Tracker → String → Accounting
accounting t node_id = or_new (lookup node_id t.per_node)

-- `NodeAccounting::Increment`
unfoldable pub increment : Accounting → Assoc ℕ → Accounting
increment account requirements = record {
  in_flight = (account.in_flight + 1) % u64_mod;
  pools = add_all requirements account.pools;
}

-- `NodeAccounting::Decrement`; the difference stops at 0, as the code's test makes it
unfoldable pub decrement : Accounting → Assoc ℕ → Accounting
decrement account requirements = record {
  in_flight = account.in_flight - 1;
  pools = take_all requirements account.pools;
}

-- `RecordSubmission`
unfoldable pub record_submission : Tracker → String → String → Assoc ℕ → Tracker
unfolding increment
record_submission t task_id node_id requirements = record {
  per_node = insert node_id (increment (accounting t node_id) requirements) t.per_node;
  tasks = insert task_id (record { node_id = node_id; requirements = requirements }) t.tasks;
}

-- `RecordCompletion`, with the record found
unfoldable pub complete : Tracker → String → Option TaskRecord → Tracker
unfolding decrement
complete t task_id none = t
complete t task_id (some r) = record {
  per_node = insert r.node_id (decrement (accounting t r.node_id) r.requirements) t.per_node;
  tasks = erase task_id t.tasks;
}

-- `RecordCompletion`
unfoldable pub record_completion : Tracker → String → Tracker
unfolding complete
record_completion t task_id = complete t task_id (lookup task_id t.tasks)

-- `ApplyStateSnapshot`
unfoldable pub apply_state_snapshot : Tracker → NodeState → Tracker
unfolding assign_all
apply_state_snapshot t state = record t {
  per_node =
      insert state.node_id
        (record { in_flight = state.in_flight; pools = assign_all state.pools [] }) t.per_node;
}

-- `InFlight`
abbrev pub in_flight : Tracker → String → ℕ
in_flight t node_id = (accounting t node_id).in_flight

-- `PoolInUse`
abbrev pub pool_in_use : Tracker → String → String → ℕ
pool_in_use t node_id pool = amount_of pool (accounting t node_id).pools
