-- ===== src/ProbeLocal/Removal.antt =====
-- What `removeQueued` of the probe local scheduler leaves of the queue.
use strij.Base.{
  ℕ, ◌≤◌, ◌≡◌, ap, String, Bool, true, false, ◌||◌, List, [], ◌∷◌, ◌++◌, arith, length, str_eq,
  if◌then◌else◌, append-nil, append_assoc,
}
use strij.BoundedQueue.{BoundedQueue, size, try_pop, push_all-queue}
use strij.ProbeLocal.{QueuedProbe}
use strij.ProbeLocal.Frames.{remove_loop, remove_queued}
use strij.ProbeLocal.Handlers.{AllRequests}
use strij.ProbeLocal.Balance.{AllRequests-push_all}

-- The items of other tasks, in their order.
abbrev pub others : String → List QueuedProbe → List QueuedProbe
others task_id [] = []
others task_id (item ∷ items) =
    if str_eq item.probe.id task_id then others task_id items else item ∷ others task_id items

abbrev pub has_probe : String → List QueuedProbe → Bool
has_probe task_id [] = false
has_probe task_id (item ∷ items) = str_eq item.probe.id task_id || has_probe task_id items

pub others-length :
    (task_id : String) (items : List QueuedProbe) → length (others task_id items) ≤ length items
others-length task_id [] = omega arith
others-length task_id (item ∷ items) = ground (arith, others-length task_id items)

pub others-AllRequests :
    (task_id : String) (items : List QueuedProbe)
    → AllRequests items
    → AllRequests (others task_id items)
others-AllRequests task_id [] d = tt
others-AllRequests task_id (item ∷ items) d = ground (arith, others-AllRequests task_id items d.1)

remove_loop-others :
    (items : List QueuedProbe) (max_size : ℕ) (task_id : String) (kept : List QueuedProbe)
    (found : Bool)
    → remove_loop (length items) task_id (record {
      left = record { max_size = max_size; queue = items };
      kept = kept;
      found = found;
    })
      ≡ record {
        left = record { max_size = max_size; queue = [] };
        kept = kept ++ others task_id items;
        found = has_probe task_id items || found;
      }
unfolding remove_loop try_pop
remove_loop-others [] max_size task_id kept found = ground (arith, append-nil kept)
remove_loop-others (item ∷ items) max_size task_id kept found = ground (
  arith,
  remove_loop-others items max_size task_id kept true,
  remove_loop-others items max_size task_id (kept ++ item ∷ []) found,
  append_assoc kept (item ∷ []) (others task_id items),
)

-- `removeQueued` on a queue within its bound removes the probes of the task and no other, keeps the
-- order, and tells whether there was one.
pub remove_queued-others :
    (q : BoundedQueue QueuedProbe) (task_id : String)
    → size q ≤ q.max_size
    → remove_queued q task_id
      ≡ (record q { queue = others task_id q.queue }, has_probe task_id q.queue)
unfolding remove_queued
remove_queued-others q task_id fits =
    let pushed =
      push_all-queue (record q { queue = [] }) (others task_id q.queue)
        (omega (arith, fits, others-length task_id q.queue)) in
    rw (remove_loop-others q.queue q.max_size task_id [] false, pushed)
      (ap (λ b. (record q { queue = others task_id q.queue }, b)) (ground arith))

pub remove_queued-AllRequests :
    (q : BoundedQueue QueuedProbe) (task_id : String)
    → AllRequests q.queue
    → AllRequests (remove_queued q task_id).0.queue
unfolding remove_queued
remove_queued-AllRequests q task_id d =
    rw (remove_loop-others q.queue q.max_size task_id [] false) (
      AllRequests-push_all (record q { queue = [] }) (others task_id q.queue) tt
        (others-AllRequests task_id q.queue d))
