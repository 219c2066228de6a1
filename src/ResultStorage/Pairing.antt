-- ===== src/ResultStorage/Pairing.antt =====
-- The storage's two maps have the same tasks, whatever is done to it.
use strij.Base.{
  refl, ℕ, ◌≡◌, String, true, List, [], ◌∷◌, Option, none, some, arith, if◌then◌else◌, Assoc,
  lookup, str_eq, eq_iff, lookup-insert, is_some, lookup-erase, contains-lookup, Unique,
  Unique-insert, Unique-erase,
}
use strij.ResultStorage.{
  Storage, Delivery, put, get, erase_task, deliver, emplace, notify_client_disconnected, tasks_of,
  fail_to, disconnect_task, disconnect_tasks, notify_node_disconnected,
}

-- A task has a receiver exactly if it has a node, and no task is there twice.
pub record IsPaired (s : Storage) : Type 0 where
  pub same : (id : String) → is_some (lookup id s.receivers) ≡ is_some (lookup id s.node_of_task)
  pub receivers_once : Unique s.receivers
  pub nodes_once : Unique s.node_of_task

-- The calls that the storage gets.
pub data Call : Storage → Storage → Type 0 where
  puts :
      {s : Storage} (task_id node_id : String) (receiver : ℕ)
      → Call s (put s task_id receiver node_id)
  erases : {s : Storage} (task_id : String) → Call s (erase_task s task_id)
  delivers : {s : Storage} (receiver : ℕ) (d : Delivery) → Call s (deliver s receiver d)
  client_gone : {s : Storage} (task_id : String) → Call s (notify_client_disconnected s task_id)
  node_gone : {s : Storage} (node_id : String) → Call s (notify_node_disconnected s node_id)

lookup-emplace {ℓ} :
    {V : Type ℓ} (key id : String) (v : V) (m : Assoc V)
    → is_some (lookup id (emplace key v m))
      ≡ (if str_eq key id then true else is_some (lookup id m))
unfolding emplace
lookup-emplace key id v m =
    ground (arith, eq_iff key id, contains-lookup key m, lookup-insert key id v m)

Unique-emplace {ℓ} :
    {V : Type ℓ} (key : String) (v : V) (m : Assoc V) → Unique m → Unique (emplace key v m)
unfolding emplace
Unique-emplace key v m u = ground (arith, u, Unique-insert key v m u)

put-IsPaired :
    (s : Storage) (task_id node_id : String) (receiver : ℕ)
    → IsPaired s
    → IsPaired (put s task_id receiver node_id)
unfolding put
put-IsPaired s task_id node_id receiver p = record {
  same = λ id. ground (
    arith,
    p.same id,
    lookup-emplace task_id id receiver s.receivers,
    lookup-emplace task_id id node_id s.node_of_task,
  );
  receivers_once = Unique-emplace task_id receiver s.receivers p.receivers_once;
  nodes_once = Unique-emplace task_id node_id s.node_of_task p.nodes_once;
}

erase_task-IsPaired :
    (s : Storage) (task_id : String) → IsPaired s → IsPaired (erase_task s task_id)
erase_task-IsPaired s task_id p = record {
  same = λ id. ground (
    arith,
    p.same id,
    lookup-erase task_id id s.receivers,
    lookup-erase task_id id s.node_of_task,
  );
  receivers_once = Unique-erase task_id s.receivers p.receivers_once;
  nodes_once = Unique-erase task_id s.node_of_task p.nodes_once;
}

-- The log and the tracker have no part in it.
remap-IsPaired :
    (s s' : Storage)
    → s'.receivers ≡ s.receivers
    → s'.node_of_task ≡ s.node_of_task
    → IsPaired s
    → IsPaired s'
remap-IsPaired s s' r n p = record {
  same = λ id. rw (r, n) (p.same id);
  receivers_once = rw (r) p.receivers_once;
  nodes_once = rw (n) p.nodes_once;
}

client-IsPaired :
    (s : Storage) (task_id : String) → IsPaired s → IsPaired (notify_client_disconnected s task_id)
unfolding notify_client_disconnected
client-IsPaired s task_id p =
    remap-IsPaired (erase_task s task_id) _ refl refl (erase_task-IsPaired s task_id p)

fail_to-IsPaired : (s : Storage) (found : Option ℕ) → IsPaired s → IsPaired (fail_to s found)
fail_to-IsPaired s none p = p
fail_to-IsPaired s (some receiver) p = remap-IsPaired s _ refl refl p

disconnect_tasks-IsPaired :
    (s : Storage) (ids : List String) → IsPaired s → IsPaired (disconnect_tasks s ids)
unfolding disconnect_tasks disconnect_task
disconnect_tasks-IsPaired s [] p = p
disconnect_tasks-IsPaired s (id ∷ ids) p =
    disconnect_tasks-IsPaired (disconnect_task s id) ids
      (client-IsPaired (fail_to s (get s id)) id (fail_to-IsPaired s (get s id) p))

-- After any call, a task has a receiver exactly if it has a node, as before the call.
pub Call-IsPaired : {s s' : Storage} → Call s s' → IsPaired s → IsPaired s'
unfolding notify_node_disconnected
Call-IsPaired (puts task_id node_id receiver) p = put-IsPaired _ task_id node_id receiver p
Call-IsPaired (erases task_id) p = erase_task-IsPaired _ task_id p
Call-IsPaired (delivers receiver d) p = remap-IsPaired _ _ refl refl p
Call-IsPaired (client_gone task_id) p = client-IsPaired _ task_id p
Call-IsPaired {s = s} (node_gone node_id) p =
    disconnect_tasks-IsPaired s (tasks_of node_id s.node_of_task) p
