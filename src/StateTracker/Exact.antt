-- ===== src/StateTracker/Exact.antt =====
-- The tracker's figures are those of the tasks that it has on record.
use strij.Base.{
  ℕ, ◌+◌, ◌≡◌, refl, String, [], ◌∷◌, none, some, arith, Assoc, lookup, insert, erase, amount_of,
  Distinct, str_eq, eq_iff, lookup-insert, lookup-erase, if◌then◌else◌,
}
use strij.StateTracker.{TaskRecord, Tracker, in_flight, pool_in_use}

-- The tasks on record for a node, and what they hold of a pool.
abbrev pub tasks_on : String → Assoc TaskRecord → ℕ
tasks_on node_id [] = 0
tasks_on node_id ((id, r) ∷ tasks) =
    (if str_eq r.node_id node_id then 1 else 0) + tasks_on node_id tasks

abbrev pub held_on : String → String → Assoc TaskRecord → ℕ
held_on node_id pool [] = 0
held_on node_id pool ((id, r) ∷ tasks) =
    (if str_eq r.node_id node_id then amount_of pool r.requirements else 0)
    + held_on node_id pool tasks

-- No id twice, and no pool twice in a request.
abbrev pub WellKeyed : Assoc TaskRecord → Type 0
WellKeyed [] = Unit {0}
WellKeyed ((id, r) ∷ tasks) = (lookup id tasks ≡ none) × Distinct r.requirements × WellKeyed tasks

pub record IsExact (t : Tracker) : Type 0 where
  pub flights : (node_id : String) → in_flight t node_id ≡ tasks_on node_id t.tasks
  pub pools : (node_id pool : String) → pool_in_use t node_id pool ≡ held_on node_id pool t.tasks
  pub keyed : WellKeyed t.tasks

pub tasks_on-insert :
    (node_id id : String) (r : TaskRecord) (tasks : Assoc TaskRecord)
    → lookup id tasks ≡ none
    → tasks_on node_id (insert id r tasks)
      ≡ (if str_eq r.node_id node_id then 1 else 0) + tasks_on node_id tasks
unfolding lookup insert
tasks_on-insert node_id id r [] e = refl
tasks_on-insert node_id id r ((i, s) ∷ tasks) e = ground (arith, tasks_on-insert node_id id r tasks)

pub held_on-insert :
    (node_id pool id : String) (r : TaskRecord) (tasks : Assoc TaskRecord)
    → lookup id tasks ≡ none
    → held_on node_id pool (insert id r tasks)
      ≡ (if str_eq r.node_id node_id then amount_of pool r.requirements else 0)
        + held_on node_id pool tasks
unfolding lookup insert
held_on-insert node_id pool id r [] e = refl
held_on-insert node_id pool id r ((i, s) ∷ tasks) e =
    ground (arith, held_on-insert node_id pool id r tasks)

pub WellKeyed-insert :
    (id : String) (r : TaskRecord) (tasks : Assoc TaskRecord)
    → lookup id tasks ≡ none
    → Distinct r.requirements
    → WellKeyed tasks
    → WellKeyed (insert id r tasks)
unfolding lookup insert
WellKeyed-insert id r [] e d k = (refl, d, tt)
WellKeyed-insert id r ((i, s) ∷ tasks) e d k =
    ground
      (arith, eq_iff i id, eq_iff id i, lookup-insert id i r tasks, WellKeyed-insert id r tasks)

erase_missing :
    (id : String) (tasks : Assoc TaskRecord) → lookup id tasks ≡ none → erase id tasks ≡ tasks
unfolding lookup erase
erase_missing id [] e = refl
erase_missing id ((i, s) ∷ tasks) e = ground (arith, erase_missing id tasks)

pub WellKeyed-erase :
    (id : String) (tasks : Assoc TaskRecord) → WellKeyed tasks → WellKeyed (erase id tasks)
unfolding lookup erase
WellKeyed-erase id [] k = tt
WellKeyed-erase id ((i, s) ∷ tasks) k =
    ground (arith, lookup-erase id i tasks, WellKeyed-erase id tasks)

-- Taking a record away takes its share away.
pub tasks_on-erase :
    (node_id id : String) (r : TaskRecord) (tasks : Assoc TaskRecord)
    → WellKeyed tasks
    → lookup id tasks ≡ some r
    → tasks_on node_id tasks
      ≡ (if str_eq r.node_id node_id then 1 else 0) + tasks_on node_id (erase id tasks)
unfolding lookup erase
tasks_on-erase node_id id r [] k e = absurd (ground (arith, e))
tasks_on-erase node_id id r ((i, s) ∷ tasks) k e =
    ground (arith, eq_iff i id, erase_missing id tasks, tasks_on-erase node_id id r tasks k.2)

pub held_on-erase :
    (node_id pool id : String) (r : TaskRecord) (tasks : Assoc TaskRecord)
    → WellKeyed tasks
    → lookup id tasks ≡ some r
    → held_on node_id pool tasks
      ≡ (if str_eq r.node_id node_id then amount_of pool r.requirements else 0)
        + held_on node_id pool (erase id tasks)
unfolding lookup erase
held_on-erase node_id pool id r [] k e = absurd (ground (arith, e))
held_on-erase node_id pool id r ((i, s) ∷ tasks) k e =
    ground (arith, eq_iff i id, erase_missing id tasks, held_on-erase node_id pool id r tasks k.2)

pub Distinct-found :
    (id : String) (r : TaskRecord) (tasks : Assoc TaskRecord)
    → WellKeyed tasks
    → lookup id tasks ≡ some r
    → Distinct r.requirements
unfolding lookup
Distinct-found id r [] k e = absurd (ground (arith, e))
Distinct-found id r ((i, s) ∷ tasks) k e = ground (arith, Distinct-found id r tasks k.2)
