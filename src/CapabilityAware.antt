-- ===== src/CapabilityAware.antt =====
-- src/gateway/extensions/schedulers/capability_aware/capability_aware_scheduler.cc: the choice of the
-- least loaded node that can take a task. A double that is not negative is its bit pattern, whose
-- order as a number is the order of the doubles; `divide` is the division of two `uint64_t` that
-- were cast to double.
pub mod Fit
pub mod Improve
pub mod Least
use strij.Base.{
  ℕ, zero, suc, ◌+◌, ◌-◌, ◌*◌, ◌%◌, ◌^◌, min, String, Bool, true, false, not, ◌&&◌, ◌||◌, List, [],
  ◌∷◌, Option, none, some, leb, ltb, ◌==◌, if◌then◌else◌, Assoc, amount_of, u64_mod, str_eq,
}
use strij.Task.{Task}
use strij.Admission.Snapshot.{NodeState}
use strij.Capabilities.{NodeCapabilities, HandlerCapability, PoolReservation}
use strij.NodeDirectory.{Node, Directory}
use strij.NodeDirectory.Choice.{get_candidates}
use strij.PushGateway.{PushScheduler, submit_to, refuse}

-- The loop of `findHandler`.
unfoldable pub handler_among : List HandlerCapability → String → Option HandlerCapability
handler_among [] task_type = none
handler_among (handler ∷ handlers) task_type =
    if str_eq handler.task_type task_type then some handler else handler_among handlers task_type

-- `findHandler`
abbrev pub find_handler : Option NodeCapabilities → String → Option HandlerCapability
find_handler none task_type = none
find_handler (some caps) task_type = handler_among caps.handlers task_type

-- `poolTotal`
abbrev pub pool_total : Option NodeCapabilities → String → ℕ
pool_total none pool = 0
pool_total (some caps) pool = amount_of pool caps.pools

-- The loop of `poolReserved`, with the sum so far.
unfoldable pub reserved_among : ℕ → List PoolReservation → String → ℕ
reserved_among reserved [] pool = reserved
reserved_among reserved (r ∷ reservations) pool =
    reserved_among (if str_eq r.pool pool then (reserved + r.amount) % u64_mod else reserved)
      reservations pool

-- `poolReserved`
abbrev pub pool_reserved : Option NodeCapabilities → String → ℕ
pool_reserved none pool = 0
pool_reserved (some caps) pool = reserved_among 0 caps.reservations pool

-- `poolInUse`
abbrev pub pool_in_use : Option NodeState → String → ℕ
pool_in_use none pool = 0
pool_in_use (some state) pool = amount_of pool state.pools

-- `typeInFlight`
abbrev pub type_in_flight : Option NodeState → String → ℕ
type_in_flight none task_type = 0
type_in_flight (some state) task_type = amount_of task_type state.type_usage

-- `nodeInFlight`
abbrev pub node_in_flight : Option NodeState → ℕ
node_in_flight none = 0
node_in_flight (some state) = state.in_flight

-- The test of `eligible` on a required resource.
abbrev pub has_room : Node → String → ℕ → Bool
has_room node pool amount =
    let total = pool_total node.capabilities pool in
    let reserved = pool_reserved node.capabilities pool in
    let shared_capacity = if ltb reserved total then total - reserved else 0 in
    let in_use = pool_in_use node.state pool in
    let shared_free = if ltb in_use shared_capacity then shared_capacity - in_use else 0 in
    leb amount shared_free

unfoldable pub has_room_for : Node → Assoc ℕ → Bool
has_room_for node [] = true
has_room_for node ((pool, amount) ∷ resources) =
    has_room node pool amount && has_room_for node resources

-- The tests of `eligible` on the handler that the node declares for the type, if it declares one.
abbrev pub is_served : Node → List HandlerCapability → String → Option HandlerCapability → Bool
is_served node [] task_type none = true
is_served node (handler ∷ handlers) task_type none = false
is_served node handlers task_type (some handler) =
    not (ltb 0 handler.concurrency && leb handler.concurrency (type_in_flight node.state task_type))

-- `eligible`
unfoldable pub eligible : Node → Task → Bool
unfolding has_room_for handler_among
eligible node task = elim node.capabilities [
  | none ↦ false
  | some caps ↦
      is_served node caps.handlers task.type (find_handler (some caps) task.type)
      && has_room_for node task.requirements
]

-- The bit pattern of 1.0.
abbrev pub one : ℕ
one = 1023 * 2 ^ 52

-- The best node so far, with its ratio and its tasks in flight.
pub record Best : Type 0 where
  pub node : Node
  pub ratio : ℕ
  pub in_flight : ℕ

module _ (divide : ℕ → ℕ → ℕ) where
  -- `loadRatio`
  unfoldable pub load_ratio : Node → Task → ℕ
  unfolding handler_among
  load_ratio node task = elim (find_handler node.capabilities task.type) [
    | none ↦ one
    | some handler ↦
        if ltb 0 handler.concurrency
        then divide (min (type_in_flight node.state task.type) handler.concurrency)
            handler.concurrency
        else one
  ]

  abbrev pub rated : Node → Task → Best
  rated node task = record {
    node = node;
    ratio = load_ratio node task;
    in_flight = node_in_flight node.state;
  }

  -- ratio < best_ratio || (ratio == best_ratio && in_flight < best_in_flight)
  abbrev pub is_better : Best → Best → Bool
  is_better new best =
      ltb new.ratio best.ratio || (new.ratio == best.ratio && ltb new.in_flight best.in_flight)

  abbrev pub improve : Option Best → Best → Option Best
  improve none new = some new
  improve (some best) new = if is_better new best then some new else some best

  -- The loop of `choose`.
  unfoldable pub choose_from : Task → List Node → Option Best → Option Best
  unfolding eligible load_ratio
  choose_from task [] best = best
  choose_from task (node ∷ nodes) best =
      choose_from task nodes
        (if not (eligible node task) then best else improve best (rated node task))

  -- `choose`
  unfoldable pub choose : Directory → Task → Option Node
  unfolding choose_from
  choose dir task = elim (choose_from task (get_candidates dir "push") none) [
    | none ↦ none
    | some best ↦ some best.node
  ]

  -- `CapabilityAwareScheduler::Schedule`
  unfoldable pub schedule :
      (Task → Option (List ℕ)) → PushScheduler → Task → ℕ → Option PushScheduler
  unfolding choose submit_to
  schedule write_task s task receiver = elim (choose s.directory task) [
    | none ↦ some (refuse s receiver "no eligible node for task submission")
    | some node ↦ submit_to write_task s task receiver node
  ]
