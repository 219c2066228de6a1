-- ===== src/ResultStorage/Cleanup.antt =====
-- What is left in the storage when a node goes away.
use strij.Base.{
  has_id, Unique, NoRepeat, ℕ, ◌≡◌, refl, ◌∙◌, sym, String, Bool, false, List, [], ◌∷◌, ◌++◌,
  Option, none, some, arith, if◌then◌else◌, Assoc, lookup, erase, str_eq, eq_iff, lookup-erase,
  append_assoc, append-nil,
}
use strij.Task.{capacity_refused}
use strij.ResultStorage.{
  Storage, Delivery, error, get, notify_client_disconnected, tasks_of, fail_to, disconnect_task,
  disconnect_tasks, notify_node_disconnected,
}

-- The errors of the tasks of a node, one for each receiver.
abbrev pub error_of : Option ℕ → List (ℕ × Delivery)
error_of none = []
error_of (some receiver) = (receiver, error "node disconnected" capacity_refused) ∷ []

abbrev pub errors_of : Assoc ℕ → List String → List (ℕ × Delivery)
errors_of receivers [] = []
errors_of receivers (task_id ∷ task_ids) =
    error_of (lookup task_id receivers) ++ errors_of receivers task_ids

pub receivers-disconnect_tasks :
    (s : Storage) (task_ids : List String) (id : String)
    → lookup id (disconnect_tasks s task_ids).receivers
      ≡ (if has_id id task_ids then none else lookup id s.receivers)
unfolding disconnect_tasks disconnect_task notify_client_disconnected
receivers-disconnect_tasks s [] id = refl
receivers-disconnect_tasks s (task_id ∷ task_ids) id = ground (
  arith,
  eq_iff task_id id,
  lookup-erase task_id id s.receivers,
  receivers-disconnect_tasks (disconnect_task s task_id) task_ids id,
)

pub nodes-disconnect_tasks :
    (s : Storage) (task_ids : List String) (id : String)
    → lookup id (disconnect_tasks s task_ids).node_of_task
      ≡ (if has_id id task_ids then none else lookup id s.node_of_task)
unfolding disconnect_tasks disconnect_task notify_client_disconnected
nodes-disconnect_tasks s [] id = refl
nodes-disconnect_tasks s (task_id ∷ task_ids) id = ground (
  arith,
  eq_iff task_id id,
  lookup-erase task_id id s.node_of_task,
  nodes-disconnect_tasks (disconnect_task s task_id) task_ids id,
)

-- The node of a task that is kept.
abbrev pub is_on : String → Option String → Bool
is_on node_id none = false
is_on node_id (some nid) = str_eq nid node_id

pub has_id-tasks_of :
    (node_id id : String) (m : Assoc String)
    → Unique m
    → has_id id (tasks_of node_id m) ≡ is_on node_id (lookup id m)
unfolding tasks_of lookup
has_id-tasks_of node_id id [] u = refl
has_id-tasks_of node_id id ((task_id, nid) ∷ m) u =
    ground (arith, u, eq_iff task_id id, has_id-tasks_of node_id id m u.1)

pub NoRepeat-tasks_of :
    (node_id : String) (m : Assoc String) → Unique m → NoRepeat (tasks_of node_id m)
unfolding tasks_of
NoRepeat-tasks_of node_id [] u = tt
NoRepeat-tasks_of node_id ((task_id, nid) ∷ m) u =
    ground (arith, u, has_id-tasks_of node_id task_id m u.1, NoRepeat-tasks_of node_id m u.1)

errors_of-erase :
    (receivers : Assoc ℕ) (id : String) (ids : List String)
    → has_id id ids ≡ false
    → errors_of (erase id receivers) ids ≡ errors_of receivers ids
errors_of-erase receivers id [] e = refl
errors_of-erase receivers id (i ∷ ids) e = ground (
  arith,
  e,
  eq_iff id i,
  eq_iff i id,
  lookup-erase id i receivers,
  errors_of-erase receivers id ids,
)

fail_to-deliveries :
    (s : Storage) (found : Option ℕ) → (fail_to s found).deliveries ≡ s.deliveries ++ error_of found
fail_to-deliveries s none = sym (append-nil s.deliveries)
fail_to-deliveries s (some receiver) = refl

fail_to-receivers : (s : Storage) (found : Option ℕ) → (fail_to s found).receivers ≡ s.receivers
fail_to-receivers s none = refl
fail_to-receivers s (some receiver) = refl

pub deliveries-disconnect_tasks :
    (s : Storage) (ids : List String)
    → NoRepeat ids
    → (disconnect_tasks s ids).deliveries ≡ s.deliveries ++ errors_of s.receivers ids
unfolding disconnect_tasks disconnect_task notify_client_disconnected
deliveries-disconnect_tasks s [] d = sym (append-nil s.deliveries)
deliveries-disconnect_tasks s (id ∷ ids) d =
    rw
      (
        deliveries-disconnect_tasks (disconnect_task s id) ids d.1,
        fail_to-deliveries s (get s id),
        fail_to-receivers s (get s id),
        errors_of-erase s.receivers id ids d.0,
        append_assoc s.deliveries (error_of (lookup id s.receivers)) (errors_of s.receivers ids),
      )
      refl

-- When a node goes away, exactly its tasks leave the storage, the other tasks keep their receivers
-- and nodes, and each receiver of a task that left gets one error for it, with the status for refused capacity.
pub notify_node_disconnected-clears :
    (s : Storage) (node_id : String)
    → Unique s.node_of_task
    → let s' = notify_node_disconnected s node_id in
      ((id : String)
        → let gone = is_on node_id (lookup id s.node_of_task) in
          (lookup id s'.receivers ≡ (if gone then none else lookup id s.receivers))
          × (lookup id s'.node_of_task ≡ (if gone then none else lookup id s.node_of_task)))
      × (s'.deliveries ≡ s.deliveries ++ errors_of s.receivers (tasks_of node_id s.node_of_task))
unfolding notify_node_disconnected
notify_node_disconnected-clears s node_id u =
    let ids = tasks_of node_id s.node_of_task in
    (
      λ id. (
        receivers-disconnect_tasks s ids id ∙ rw (has_id-tasks_of node_id id s.node_of_task u) refl,
        nodes-disconnect_tasks s ids id ∙ rw (has_id-tasks_of node_id id s.node_of_task u) refl,
      ),
      deliveries-disconnect_tasks s ids (NoRepeat-tasks_of node_id s.node_of_task u),
    )
