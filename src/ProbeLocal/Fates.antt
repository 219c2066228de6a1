-- ===== src/ProbeLocal/Fates.antt =====
-- What becomes of each probe that a walk of the probe local scheduler takes off its queue.
use strij.Base.{◌≡◌, List, ◌++◌}
use strij.ProbeLocal.{Codec, QueuedProbe, Scheduler}
use strij.ProbeLocal.Rounds.{Fate, AreDue, items, Walked}

module _ (codec : Codec) where
  -- The probes that the loop takes off the queue, with their fates.
  Split : Scheduler → List QueuedProbe → Scheduler × List QueuedProbe → Type 0
  Split s deferred r =
      (fates : List (QueuedProbe × Fate)) × Walked codec s deferred fates r
      × AreDue s.router fates
      × (s.queue.queue ≡ items fates ++ r.0.queue.queue)
