-- ===== src/ProbeLocal/Walk.antt =====
-- The walk of the probe local scheduler over its queue: its rounds, and the count of its probes.
use strij.Base.{
  ℕ, zero, suc, ◌+◌, ◌≤◌, ◌≡◌, ◌⊎◌, inl, inr, refl, ◌∙◌, true, false, List, [], ◌∷◌, ◌++◌, none,
  some, arith, Bool-cases, length, leb, length-append, length_snoc, length_zero, Option-cases,
}
use strij.BoundedQueue.{BoundedQueue, size, try_pop, try_pop-none, try_pop-some, push_all-queue}
use strij.FetchRouter.{all_cached}
use strij.Admission.{Status}
use strij.ProbeLocal.{
  Codec, QueuedProbe, Scheduler, put_pending, walk_admitted, walk_item, walk_loop, walk,
}

-- The loop stopped by one of its own tests: the cap is reached, or the queue is empty.
abbrev pub HasEnded : Scheduler → Type 0
HasEnded s = (s.max_concurrent_preallocations ≤ length s.pull_pending) ⊎ (s.queue.queue ≡ [])

-- Every probe is in the queue, deferred, or answered with a frame.
abbrev pub probes : Scheduler → List QueuedProbe → ℕ
probes s deferred = length s.enqueued + size s.queue + length deferred

module _ (codec : Codec) where
  -- A round leaves the rest of the queue alone, and answers the item or defers it.
  walk_admitted-queue :
      (s : Scheduler) (deferred : List QueuedProbe) (item : QueuedProbe) (status : Status)
      → let r = walk_admitted codec s deferred item status in
        (r.0.queue ≡ s.queue)
        × (r.0.max_concurrent_preallocations ≡ s.max_concurrent_preallocations)
        × (((r.1 ≡ deferred) × (length r.0.enqueued ≡ suc (length s.enqueued)))
            ⊎ ((r.1 ≡ deferred ++ item ∷ []) × (length r.0.enqueued ≡ length s.enqueued)))
  unfolding walk_admitted put_pending
  walk_admitted-queue s deferred item Status.ok = (refl, refl, inl (refl, length_snoc s.enqueued _))
  walk_admitted-queue s deferred item Status.failed_precondition =
      (refl, refl, inl (refl, length_snoc s.enqueued _))
  walk_admitted-queue s deferred item Status.resource_exhausted = (refl, refl, inr (refl, refl))
  walk_admitted-queue s deferred item Status.not_found = (refl, refl, inr (refl, refl))
  walk_admitted-queue s deferred item Status.invalid_argument = (refl, refl, inr (refl, refl))
  walk_admitted-queue s deferred item Status.internal = (refl, refl, inr (refl, refl))

  pub walk_item-queue :
      (s : Scheduler) (deferred : List QueuedProbe) (item : QueuedProbe)
      → let r = walk_item codec s deferred item in
        (r.0.queue ≡ s.queue)
        × (r.0.max_concurrent_preallocations ≡ s.max_concurrent_preallocations)
        × (((r.1 ≡ deferred) × (length r.0.enqueued ≡ suc (length s.enqueued)))
            ⊎ ((r.1 ≡ deferred ++ item ∷ []) × (length r.0.enqueued ≡ length s.enqueued)))
  unfolding walk_item
  walk_item-queue s deferred item = elim (Bool-cases (all_cached s.router item.probe.deps)) [
    | inl cached ↦ rw cached (walk_admitted-queue (record s { admission = _ }) deferred item _)
    | inr missing ↦ rw missing (refl, refl, inr (refl, refl))
  ]

  -- The three ways a round of the loop goes.
  pub walk_loop_capped :
      (fuel : ℕ) (s : Scheduler) (deferred : List QueuedProbe)
      → leb s.max_concurrent_preallocations (length s.pull_pending) ≡ true
      → walk_loop codec (suc fuel) s deferred ≡ (s, deferred)
  unfolding walk_loop
  walk_loop_capped fuel s deferred full = rw (walk_loop, full) refl

  pub walk_loop_empty :
      (fuel : ℕ) (s : Scheduler) (deferred : List QueuedProbe)
      → leb s.max_concurrent_preallocations (length s.pull_pending) ≡ false
      → try_pop s.queue ≡ none
      → walk_loop codec (suc fuel) s deferred ≡ (s, deferred)
  unfolding walk_loop
  walk_loop_empty fuel s deferred below empty = rw (walk_loop, below, empty) refl

  pub walk_loop_round :
      (fuel : ℕ) (s : Scheduler) (deferred : List QueuedProbe) (item : QueuedProbe)
      (rest : BoundedQueue QueuedProbe)
      → leb s.max_concurrent_preallocations (length s.pull_pending) ≡ false
      → try_pop s.queue ≡ some (item, rest)
      → let r = walk_item codec (record s { queue = rest }) deferred item in
        walk_loop codec (suc fuel) s deferred ≡ walk_loop codec fuel r.0 r.1
  unfolding walk_loop
  walk_loop_round fuel s deferred item rest below popped = rw (walk_loop, below, popped) refl

  -- A round leaves a queue that is shorter by one, and as many probes as before.
  walk_item-probes :
      (s : Scheduler) (deferred : List QueuedProbe) (item : QueuedProbe)
      (rest : BoundedQueue QueuedProbe)
      → try_pop s.queue ≡ some (item, rest)
      → let r = walk_item codec (record s { queue = rest }) deferred item in
        (suc (size r.0.queue) ≡ size s.queue)
        × (probes r.0 r.1 ≡ probes s deferred)
        × (length s.enqueued ≤ length r.0.enqueued)
        × (r.0.queue.max_size ≡ s.queue.max_size)
        × (r.0.max_concurrent_preallocations ≡ s.max_concurrent_preallocations)
  walk_item-probes s deferred item rest popped = ground (
    arith,
    try_pop-some s.queue item rest popped,
    walk_item-queue (record s { queue = rest }) deferred item,
    length_snoc deferred item,
  )

  -- With a round of fuel for each item, the loop ends by its own tests and keeps every probe.
  pub walk_loop-ends :
      (fuel : ℕ) (s : Scheduler) (deferred : List QueuedProbe)
      → size s.queue ≤ fuel
      → let r = walk_loop codec fuel s deferred in
        HasEnded r.0
        × (probes r.0 r.1 ≡ probes s deferred)
        × (length s.enqueued ≤ length r.0.enqueued)
        × (r.0.queue.max_size ≡ s.queue.max_size)
        × (r.0.max_concurrent_preallocations ≡ s.max_concurrent_preallocations)
  unfolding walk_loop try_pop
  walk_loop-ends zero s deferred h =
      (inr (length_zero s.queue.queue h), refl, omega arith, refl, refl)
  walk_loop-ends (suc fuel) s deferred h =
      elim (Bool-cases (leb s.max_concurrent_preallocations (length s.pull_pending))) [
        | inl full ↦
            rw (walk_loop_capped fuel s deferred full)
              (inl (ground (arith, full)), refl, omega arith, refl, refl)
        | inr below ↦ elim (Option-cases (try_pop s.queue)) [
          | inl empty ↦
              rw (walk_loop_empty fuel s deferred below empty)
                (inr (try_pop-none s.queue empty), refl, omega arith, refl, refl)
          | inr ((item, rest), e) ↦
              let r = walk_item codec (record s { queue = rest }) deferred item in
              let (shorter, kept, more, size, cap) = walk_item-probes s deferred item rest e in
              let (ended, kept', more', size', cap') =
                walk_loop-ends fuel r.0 r.1 (omega (arith, shorter, h)) in
              rw (walk_loop_round fuel s deferred item rest below e)
                (ended, kept' ∙ kept, omega (arith, more, more'), size' ∙ size, cap' ∙ cap)
        ]
      ]

  -- A walk of a queue within its bound: the loop ends by its own tests, frames and queued probes are
  -- together as many as before, and the bound is kept.
  pub walk-bounded :
      (s : Scheduler)
      → size s.queue ≤ s.queue.max_size
      → HasEnded (walk_loop codec (size s.queue) s []).0
        × (length (walk codec s).enqueued + size (walk codec s).queue
            ≡ length s.enqueued + size s.queue)
        × (size (walk codec s).queue ≤ s.queue.max_size)
  unfolding walk
  walk-bounded s fits =
      let r = walk_loop codec (size s.queue) s [] in
      let (ended, kept, more, size, cap) = walk_loop-ends (size s.queue) s [] (omega arith) in
      let pushed = push_all-queue r.0.queue r.1 (omega (arith, kept, more, size, fits)) in
      rw pushed (
        ended,
        omega (arith, kept, length-append r.0.queue.queue r.1),
        omega (arith, kept, more, fits, length-append r.0.queue.queue r.1),
      )
