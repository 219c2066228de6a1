-- ===== src/ProbeLocal/Balance.antt =====
-- The walk of the probe local scheduler keeps the books balanced.
use strij.Base.{
  ℕ, zero, suc, ◌+◌, ◌≤◌, ◌<◌, inl, inr, subst, List, [], ◌∷◌, ◌++◌, arith, Bool-cases, u64_mod,
  length, leb, Option-cases,
}
use strij.BoundedQueue.{BoundedQueue, size, try_pop, try_pop-some, push, push_all}
use strij.ProbeLocal.{Codec, QueuedProbe, Scheduler, walk_item, walk_loop, walk}
use strij.ProbeLocal.Books.{holders}
use strij.ProbeLocal.Capacity.{IsBalanced}
use strij.ProbeLocal.Handlers.{AllRequests, walk_item-Grows}
use strij.ProbeLocal.Walk.{walk_loop_capped, walk_loop_empty, walk_loop_round, walk_item-queue}

pub AllRequests-append :
    (xs ys : List QueuedProbe) → AllRequests xs → AllRequests ys → AllRequests (xs ++ ys)
AllRequests-append [] ys dx dy = dy
AllRequests-append (x ∷ xs) ys dx dy = (dx.0, AllRequests-append xs ys dx.1 dy)

pub AllRequests-push_all :
    (q : BoundedQueue QueuedProbe) (items : List QueuedProbe)
    → AllRequests q.queue
    → AllRequests items
    → AllRequests (push_all q items).queue
unfolding push_all push
AllRequests-push_all q [] dq di = dq
AllRequests-push_all q (item ∷ items) dq di = ground (
  arith,
  AllRequests-push_all q items dq di.1,
  AllRequests-push_all (record q { queue = q.queue ++ item ∷ [] }) items
      (AllRequests-append q.queue (item ∷ []) dq (di.0, tt)) di.1,
)

module _ (codec : Codec) where
  walk_item-AllRequests :
      (s : Scheduler) (deferred : List QueuedProbe) (item : QueuedProbe)
      → AllRequests (item ∷ s.queue.queue)
      → AllRequests deferred
      → let r = walk_item codec s deferred item in AllRequests r.0.queue.queue × AllRequests r.1
  walk_item-AllRequests s deferred item dq dd = ground (
    arith,
    walk_item-queue codec s deferred item,
    AllRequests-append deferred (item ∷ []) dd (dq.0, tt),
    dq.1,
  )

  -- The loop keeps the books balanced; each round may hold one more scope.
  walk_loop-IsBalanced :
      (fuel : ℕ) (s : Scheduler) (deferred : List QueuedProbe)
      → IsBalanced s
      → AllRequests s.queue.queue
      → AllRequests deferred
      → length (holders s) + fuel < u64_mod
      → let r = walk_loop codec fuel s deferred in
        IsBalanced r.0
        × AllRequests r.0.queue.queue
        × AllRequests r.1
        × (length (holders r.0) ≤ length (holders s) + fuel)
  unfolding walk_loop
  walk_loop-IsBalanced zero s deferred b dq dd small = (b, dq, dd, omega arith)
  walk_loop-IsBalanced (suc fuel) s deferred b dq dd small =
      elim (Bool-cases (leb s.max_concurrent_preallocations (length s.pull_pending))) [
        | inl full ↦ rw (walk_loop_capped codec fuel s deferred full) (b, dq, dd, omega arith)
        | inr below ↦ elim (Option-cases (try_pop s.queue)) [
          | inl empty ↦
              rw (walk_loop_empty codec fuel s deferred below empty) (b, dq, dd, omega arith)
          | inr ((item, rest), e) ↦
              let t : Scheduler = record s { queue = rest } in
              let r = walk_item codec t deferred item in
              let requests : AllRequests (item ∷ rest.queue) =
                subst AllRequests (try_pop-some s.queue item rest e).0 dq in
              let (b', grown) =
                walk_item-Grows codec t (record { exact = b.exact; kept = b.kept })
                  (omega (arith, small)) deferred item requests.0 in
              let (dq', dd') = walk_item-AllRequests t deferred item requests dd in
              let (b'', dq'', dd'', grown') =
                walk_loop-IsBalanced fuel r.0 r.1 b' dq' dd' (omega (arith, grown, small)) in
              rw (walk_loop_round codec fuel s deferred item rest below e)
                (b'', dq'', dd'', omega (arith, grown, grown'))
        ]
      ]

  -- The walk keeps the books balanced.
  pub walk-IsBalanced :
      (s : Scheduler)
      → IsBalanced s
      → AllRequests s.queue.queue
      → length (holders s) + size s.queue < u64_mod
      → IsBalanced (walk codec s)
        × AllRequests (walk codec s).queue.queue
        × (length (holders (walk codec s)) ≤ length (holders s) + size s.queue)
  unfolding walk
  walk-IsBalanced s b dq small =
      let r = walk_loop codec (size s.queue) s [] in
      let (b', dq', dd', grown) = walk_loop-IsBalanced (size s.queue) s [] b dq tt small in
      (
        record { exact = b'.exact; kept = b'.kept },
        AllRequests-push_all r.0.queue r.1 dq' dd',
        grown,
      )
