-- ===== src/Admission.antt =====
-- src/nodeagent/core/admission_controller.hh and admission_controller.cc: per-pool and
-- per-task-type capacity of a node. The resources of a request are a map from pool names to
-- amounts. A status keeps its code and not its message; the dispatcher is the list of the observers
-- that `CAPACITY_RELEASED` was submitted to, oldest first; observers are numbered. The clock and
-- the logging are left out.
pub mod Accounts
pub mod Holders
pub mod Capacity
pub mod Scope
pub mod Snapshot
use strij.Base.{
  ℕ, ◌+◌, ◌-◌, ◌*◌, ◌%◌, ◌^◌, String, Bool, true, false, ◌&&◌, not, List, [], ◌∷◌, ◌++◌, Option,
  none, some, ltb, leb, ◌==◌, if◌then◌else◌, map, Assoc, lookup, contains, insert, erase, add_to,
  add_all, take_all, amount_of, u64_mod,
}

-- `node::NodeCapabilities`, with the fields that the controller reads.
pub record Capabilities : Type 0 where
  pub pools : Assoc ℕ
  pub reservations : Assoc ℕ
  pub handlers : Assoc ℕ

pub record Controller : Type 0 where
  pub capacity_observers : List ℕ
  pub pool_total_map : Assoc ℕ
  pub pool_reserved_map : Assoc ℕ
  pub pool_in_use_map : Assoc ℕ
  pub type_concurrency_map : Assoc ℕ
  pub type_in_flight_map : Assoc ℕ
  pub submitted : List ℕ

-- `absl::Status`, with the codes of this program.
pub data Status : Type 0 where
  ok failed_precondition resource_exhausted not_found invalid_argument internal : Status

-- for (const auto& entry : entries) map[name] = value
unfoldable pub assign_all : Assoc ℕ → Assoc ℕ → Assoc ℕ
assign_all [] m = m
assign_all ((k, n) ∷ entries) m = assign_all entries (insert k n m)

-- `AdmissionControllerImpl::AdmissionControllerImpl`
unfoldable pub create : Capabilities → Controller
unfolding assign_all add_all add_to
create capabilities = record {
  capacity_observers = [];
  pool_total_map = assign_all capabilities.pools [];
  pool_reserved_map = add_all capabilities.reservations [];
  pool_in_use_map = [];
  type_concurrency_map = assign_all capabilities.handlers [];
  type_in_flight_map = [];
  submitted = [];
}

-- `SharedFree`: the differences are of `uint64_t`.
unfoldable pub shared_free : Controller → String → ℕ
shared_free c pool = elim (lookup pool c.pool_total_map) [
  | none ↦ 0
  | some total ↦
      let reserved = amount_of pool c.pool_reserved_map in
      let in_use = amount_of pool c.pool_in_use_map in
      if ltb ((reserved + in_use) % u64_mod) total
      then (total + 2 * u64_mod - reserved - in_use) % u64_mod
      else 0
]

-- `InFlight`
abbrev pub in_flight : Controller → String → ℕ
in_flight c task_type = amount_of task_type c.type_in_flight_map

-- The first loop of `Admit`: the error of the first pool that refuses.
unfoldable pub check_pools : Controller → Assoc ℕ → Status
unfolding shared_free contains
check_pools c [] = ok
check_pools c ((pool, amount) ∷ resources) =
    let rest = check_pools c resources in
    if not (contains pool c.pool_total_map)
    then failed_precondition
    else if ltb (shared_free c pool) amount
    then resource_exhausted
    else rest

-- The concurrency test of `Admit`; the limit 0 means no limit.
unfoldable pub check_concurrency : Controller → String → Status
check_concurrency c task_type = elim (lookup task_type c.type_concurrency_map) [
  | none ↦ ok
  | some limit ↦
      if not (limit == 0) && leb limit (in_flight c task_type) then resource_exhausted else ok
]

-- The updates of a successful `Admit`.
unfoldable pub reserve : Controller → String → Assoc ℕ → Controller
reserve c task_type resources = record c {
  pool_in_use_map = add_all resources c.pool_in_use_map;
  type_in_flight_map = add_to task_type 1 c.type_in_flight_map;
}

-- `Admit`
unfoldable pub admit : Controller → String → Assoc ℕ → Controller × Status
unfolding check_pools check_concurrency reserve
admit c task_type resources = elim (check_pools c resources) [
  | ok ↦ elim (check_concurrency c task_type) [
    | ok ↦ (reserve c task_type resources, ok)
    | refusal ↦ (c, refusal)
  ]
  | refusal ↦ (c, refusal)
]

-- `notifyCapacityReleased`
abbrev pub notify_capacity_released : Controller → Controller
notify_capacity_released c = record c { submitted = c.submitted ++ c.capacity_observers }

-- The end of `Release`, with the value found for the task type.
unfoldable pub release_type : Controller → String → Option ℕ → Controller
release_type c task_type none = c
release_type c task_type (some count) =
    if count == 0
    then c
    else notify_capacity_released (record c {
      type_in_flight_map =
          if (count - 1) == 0
          then erase task_type c.type_in_flight_map
          else insert task_type (count - 1) c.type_in_flight_map;
    })

-- `Release`
unfoldable pub release : Controller → String → Assoc ℕ → Controller
unfolding release_type
release c task_type resources =
    release_type (record c { pool_in_use_map = take_all resources c.pool_in_use_map }) task_type
      (lookup task_type c.type_in_flight_map)

-- `RegisterCapacityObserver`
unfoldable pub register_capacity_observer : Controller → ℕ → Controller
register_capacity_observer c observer = record c {
  capacity_observers = c.capacity_observers ++ observer ∷ [];
}

-- `std::erase(observers, observer)`
unfoldable pub drop_observer : List ℕ → ℕ → List ℕ
drop_observer [] observer = []
drop_observer (x ∷ xs) observer =
    if x == observer then drop_observer xs observer else x ∷ drop_observer xs observer

-- `UnregisterCapacityObserver`
unfoldable pub unregister_capacity_observer : Controller → ℕ → Controller
unfolding drop_observer
unregister_capacity_observer c observer = record c {
  capacity_observers = drop_observer c.capacity_observers observer;
}
