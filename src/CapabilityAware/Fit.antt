-- ===== src/CapabilityAware/Fit.antt =====
-- What `eligible` promises of a node.
use strij.Base.{
  ℕ, ◌+◌, ◌≤◌, ◌<◌, ◌≡◌, ap, sym, subst, ◌∙◌, String, true, List, [], ◌∷◌, some, arith, Assoc,
  lookup, eq_iff, Option-cases, inl, inr,
}
use strij.Task.{Task}
use strij.Capabilities.{NodeCapabilities, HandlerCapability}
use strij.NodeDirectory.{Node}
use strij.CapabilityAware.{
  find_handler, pool_total, pool_reserved, pool_in_use, type_in_flight, has_room, has_room_for,
  is_served, eligible,
}

has_room-fits :
    (node : Node) (pool : String) (amount : ℕ)
    → has_room node pool amount ≡ true
    → 0 < amount
    → pool_reserved node.capabilities pool + pool_in_use node.state pool + amount
      ≤ pool_total node.capabilities pool
has_room-fits node pool amount e h = ground (arith, e, h)

has_room_for-has_room :
    (node : Node) (resources : Assoc ℕ) (pool : String) (amount : ℕ)
    → has_room_for node resources ≡ true
    → lookup pool resources ≡ some amount
    → has_room node pool amount ≡ true
unfolding has_room_for lookup
has_room_for-has_room node [] pool amount e found = ground (arith, found)
has_room_for-has_room node ((p, a) ∷ resources) pool amount e found =
    ground (arith, e, found, eq_iff p pool, has_room_for-has_room node resources pool amount)

is_served-limit :
    (node : Node) (handlers : List HandlerCapability) (task_type : String)
    (handler : HandlerCapability)
    → is_served node handlers task_type (some handler) ≡ true
    → 0 < handler.concurrency
    → type_in_flight node.state task_type < handler.concurrency
is_served-limit node [] task_type handler e h = ground (arith, e, h)
is_served-limit node (first ∷ rest) task_type handler e h = ground (arith, e, h)

-- A node is eligible only if it has advertised; every amount that the task requires then fits into
-- the pool beside what is reserved and in use there, and a handler with a limit has a place left.
pub eligible-fits :
    (node : Node) (task : Task)
    → eligible node task ≡ true
    → (caps : NodeCapabilities) × (node.capabilities ≡ some caps)
      × ((pool : String) (amount : ℕ)
          → lookup pool task.requirements ≡ some amount
          → 0 < amount
          → pool_reserved node.capabilities pool + pool_in_use node.state pool + amount
            ≤ pool_total node.capabilities pool)
      × ((handler : HandlerCapability)
          → find_handler node.capabilities task.type ≡ some handler
          → 0 < handler.concurrency
          → type_in_flight node.state task.type < handler.concurrency)
unfolding eligible
eligible-fits node task e = elim (Option-cases node.capabilities) [
  | inl silent ↦ ground (arith, e, silent)
  | inr (caps, advertised) ↦
      let served : is_served node caps.handlers task.type (find_handler (some caps) task.type)
          ≡ true =
        ground (arith, e, advertised) in
      let room : has_room_for node task.requirements ≡ true = ground (arith, e, advertised) in
      (
        caps,
        advertised,
        λ pool amount required positive.
            has_room-fits node pool amount
              (has_room_for-has_room node task.requirements pool amount room required) positive,
        λ handler found limited.
            let declared : find_handler (some caps) task.type ≡ some handler =
              ap (λ c. find_handler c task.type) (sym advertised) ∙ found in
            is_served-limit node caps.handlers task.type handler
              (subst (λ h. is_served node caps.handlers task.type h ≡ true) declared served)
              limited,
      )
]
