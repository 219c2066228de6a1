-- ===== src/Admission/Snapshot.antt =====
-- `BuildStateSnapshot` (src/nodeagent/core/admission_controller.cc): the node's report of its load.
-- The timestamp is an argument.
use strij.Base.{
  ℕ, ◌+◌, ◌%◌, ◌≡◌, refl, ◌∙◌, String, List, [], ◌∷◌, arith, Assoc, lookup, contains, amount_of,
  u64_mod, none, some, eq_iff, if◌then◌else◌,
}
use strij.Admission.{Controller}
use strij.Admission.Holders.{Holder, held, IsExact}

-- `node::NodeState`
pub record NodeState : Type 0 where
  pub node_id : String
  pub seq : ℕ
  pub timestamp : ℕ
  pub pools : Assoc ℕ
  pub type_usage : Assoc ℕ
  pub in_flight : ℕ

-- The usage of each declared pool.
unfoldable pub pool_usage : Assoc ℕ → Assoc ℕ → Assoc ℕ
pool_usage [] in_use = []
pool_usage ((pool, total) ∷ totals) in_use =
    (pool, amount_of pool in_use) ∷ pool_usage totals in_use

-- node_in_flight += in_flight
unfoldable pub sum_in_flight : ℕ → Assoc ℕ → ℕ
sum_in_flight acc [] = acc
sum_in_flight acc ((task_type, n) ∷ m) = sum_in_flight ((acc + n) % u64_mod) m

-- `BuildStateSnapshot`
unfoldable pub build_state_snapshot : Controller → String → ℕ → ℕ → NodeState
unfolding pool_usage sum_in_flight
build_state_snapshot c node_id seq now = record {
  node_id = node_id;
  seq = seq;
  timestamp = now;
  pools = pool_usage c.pool_total_map c.pool_in_use_map;
  type_usage = c.type_in_flight_map;
  in_flight = sum_in_flight 0 c.type_in_flight_map;
}

lookup-pool_usage :
    (totals in_use : Assoc ℕ) (pool : String)
    → lookup pool (pool_usage totals in_use)
      ≡ (if contains pool totals then some (amount_of pool in_use) else none)
unfolding pool_usage lookup contains
lookup-pool_usage [] in_use pool = refl
lookup-pool_usage ((k, n) ∷ totals) in_use pool =
    ground (arith, eq_iff k pool, lookup-pool_usage totals in_use pool)

-- The snapshot reports every declared pool and no other, each with the amounts that the tasks
-- holding capacity add up to.
pub snapshot-pools :
    (c : Controller) (hs : List Holder) (node_id : String) (seq now : ℕ) (pool : String)
    → IsExact c hs
    → lookup pool (build_state_snapshot c node_id seq now).pools
      ≡ (if contains pool c.pool_total_map then some (held pool hs) else none)
unfolding build_state_snapshot
snapshot-pools c hs node_id seq now pool x =
    lookup-pool_usage c.pool_total_map c.pool_in_use_map pool ∙ rw (x.in_use pool)
